-- ===== src/Client/Analyse.antt =====
-- client/arg.cpp: analyse_argv, which decides whether a job may be remote and sorts its arguments.
pub mod Finish
pub mod Remote
use icecream.Base.{
  ℕ, zero, suc, Bool, true, false, not, ◌&&◌, ◌||◌, Option, none, some, List, [], ◌∷◌, ◌++◌, length,
  is_nil, if◌then◌else◌,
}
use icecream.Comm.{Bytes, drop}
use icecream.Comm.Path.{rfind}
use icecream.Comm.FileChunk.{take}
use icecream.Comm.CompileFile.{
  ArgumentType, arg_local, arg_remote, arg_rest, is_rest, lang_cxx, ArgumentsList,
}
use icecream.Client.{
  codes, str_equal, str_startswith, is_one_of, find_basename, should_always_build_locally, Program,
  lang_objc, lang_objcxx,
}
use icecream.Client.Options.{is_argument_with_space}
use icecream.Client.Scan.{Files, Scan, append, locally}
use icecream.Client.Scan.Loop.{Setting, scan_loop}

-- What analyse_argv asks the system and the compiler. The first two get the compiler's name and the
-- language, and the first whether the job blocks the rewriting of includes.
pub record System : Type 0 where
  pub files : Files
  pub only_rewrite_includes : Bytes → ℕ → Bool → Bool
  pub has_color_output : Bytes → ℕ → Bool
  pub exists_not_regular : Bytes → Bool
  pub clang_default_target : Bytes
  pub arch_flags : Bool → Bool → Bool → Option (List Bytes)

-- The job and the variables behind the loop.
pub record Analysis : Type 0 where
  pub scan : Scan
  pub compiler_name : Bytes
  pub icerun : Bool
  pub input_file : Bytes
  pub ifile : Bytes
  pub dwarf_fission : Bool
  pub block_rewrite_includes : Bool

abbrev pub with_scan : (Scan → Scan) → Analysis → Analysis
with_scan f a = record a { scan = f a.scan }

-- The scan before the first word.
abbrev pub new_scan : ℕ → Bool → Scan
new_scan language always_local = record {
  args = [];
  extrafiles = [];
  ofile = [];
  job_language = language;
  always_local = always_local;
  seen_c = false;
  seen_s = false;
  seen_mf = false;
  seen_md = false;
  seen_split_dwarf = false;
  seen_target = false;
  wunused_macros = false;
  seen_arch = false;
  seen_pedantic = false;
  seen_imacros = false;
  seen_march_native = false;
  seen_mcpu_native = false;
  seen_mtune_native = false;
  seen_parallel_flto = [];
  std = none;
  explicit_color_diagnostics = false;
  explicit_no_show_caret = false;
  second_option = false;
  past_end = false;
}

-- Arg_Cpp is arg_rest if the server is to preprocess.
unfoldable pub setting : System → Program → Setting
setting sys program = record {
  files = sys.files;
  arg_cpp =
      if sys.only_rewrite_includes program.compiler_name program.language false
      then arg_rest
      else arg_local;
  compiler_name = program.compiler_name;
  icerun = program.icerun;
}

-- analyse_argv up to the end of the loop, for the words behind the compiler's name.
unfoldable pub read_words : System → Program → List Bytes → Analysis
read_words sys program argv = record {
  scan =
      (scan_loop (setting sys program) (length argv)
        (new_scan program.language program.always_local) argv).0;
  compiler_name = program.compiler_name;
  icerun = program.icerun;
  input_file = [];
  ifile = [];
  dwarf_fission = false;
  block_rewrite_includes = false;
}

-- -c or -S goes to the server.
unfoldable pub add_mode : Analysis → Analysis
add_mode a =
    if not a.scan.seen_c && not a.scan.seen_s
    then with_scan locally a
    else if a.scan.seen_s
    then with_scan (append (codes "-S") arg_remote) a
    else record (with_scan (append (codes "-c") arg_remote) a) {
      dwarf_fission = a.scan.seen_split_dwarf;
    }

-- The search for the input file: the arguments kept so far, the file, whether the search is over, and
-- whether it is so because of a second file.
pub record Search : Type 0 where
  pub kept : ArgumentsList
  pub file : Bytes
  pub local : Bool
  pub over : Bool
  pub second_file : Bool

abbrev keep : Bytes × ArgumentType → Search → Search
keep x f = record f { kept = f.kept ++ (x ∷ []) }

-- One argument. The number counts the arguments to be skipped; an option that takes a word skips one.
-- An empty argument, on which `at(0)` throws, is read as a file without a name.
unfoldable pub look_at : ℕ → Bytes × ArgumentType → Search → ℕ × Search
look_at (suc skip) x f = (skip, keep x f)
look_at zero x f =
    if f.over
    then (0, keep x f)
    else if str_equal x.0 (codes "-")
    then (0, record (keep x f) { local = true; over = true })
    else if is_one_of ("-Xclang" ∷ "-x" ∷ []) x.0 || is_argument_with_space x.0
    then (1, keep x f)
    else if not (is_rest x.1) || str_startswith (codes "-") x.0 || str_startswith (codes "@") x.0
    then (0, keep x f)
    else if is_nil f.file
    then (0, record f { file = x.0; local = f.local || should_always_build_locally x.0 })
    else (0, record (keep x f) { local = true; over = true; second_file = true })

unfoldable pub search_loop : ℕ → ArgumentsList → Search → Search
search_loop skip [] f = f
search_loop skip (x ∷ args) f = let (next, g) = look_at skip x f in search_loop next args g

abbrev pub new_search : Search
new_search = record { kept = []; file = []; local = false; over = false; second_file = false }

unfoldable pub find_input : Analysis → Analysis
find_input a =
    let found = search_loop 0 a.scan.args new_search in
    record a {
      scan = record a.scan {
        args = if found.second_file then a.scan.args else found.kept;
        always_local = found.local;
      };
      input_file = if found.second_file then [] else found.file;
      ifile = found.file;
    }

-- The language that an extension stands for, or that the file is for a local compiler.
unfoldable pub set_extension : Bytes → Scan → Scan
set_extension ext s =
    if is_one_of ("cc" ∷ "cpp" ∷ "cxx" ∷ "cp" ∷ "c++" ∷ "C" ∷ "ii" ∷ []) ext
    then record s { job_language = lang_cxx }
    else if is_one_of ("mi" ∷ "m" ∷ []) ext
    then record s { job_language = lang_objc }
    else if is_one_of ("mii" ∷ "mm" ∷ "M" ∷ []) ext
    then record s { job_language = lang_objcxx }
    else if is_one_of ("c" ∷ "i" ∷ []) ext
    then s
    else locally s

-- `s.substr(0, n)`, all of it for npos
abbrev up_to : Option ℕ → Bytes → Bytes
up_to none s = s
up_to (some n) s = take n s

unfoldable pub name_output : Bytes → ℕ → Scan → Scan
name_output ifile dot_index s =
    if not s.always_local && is_nil s.ofile
    then record s {
      ofile = find_basename (take dot_index ifile ++ codes (if s.seen_s then ".s" else ".o"));
    }
    else s

unfoldable pub name_dependencies : Scan → Scan
name_dependencies s =
    let dfile = up_to (rfind b'.' s.ofile (length s.ofile)) s.ofile ++ codes ".d" in
    if not s.always_local && s.seen_md && not s.seen_mf
    then append dfile arg_local (append (codes "-MF") arg_local s)
    else s

unfoldable pub use_extension : Bytes → Option ℕ → Scan → Scan
use_extension ifile none s = s
use_extension ifile (some dot_index) s =
    name_dependencies (name_output ifile dot_index (set_extension (drop (suc dot_index) ifile) s))

-- The input file, if the job is not local yet.
unfoldable pub use_input : Analysis → Analysis
use_input a =
    let b = find_input a in
    if a.scan.always_local
    then record a { input_file = [] }
    else with_scan (use_extension b.ifile (rfind b'.' b.ifile (length b.ifile))) b
