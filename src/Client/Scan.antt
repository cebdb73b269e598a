-- ===== src/Client/Scan.antt =====
-- client/arg.cpp: the loop of analyse_argv over the words of the command line.
pub mod Ends
pub mod Loop
pub mod Rounds
pub mod Safe
use icecream.Base.{
  ℕ, String, Bool, true, false, not, ◌&&◌, ◌||◌, Option, none, some, List, [], ◌∷◌, ◌++◌, length,
  leb, ◌==◌, if◌then◌else◌,
}
use icecream.Comm.{Bytes, drop}
use icecream.Comm.CompileFile.{
  ArgumentType, arg_local, arg_remote, arg_rest, ArgumentsList, lang_cxx,
}
use icecream.Client.{codes, str_equal, str_startswith, is_one_of, lang_c, lang_objc, lang_objcxx}

-- What the file system answers: whether access(2) finds a file readable, and its absolute name.
pub record Files : Type 0 where
  pub readable : Bytes → Bool
  pub get_absfilename : Bytes → Bytes

-- The variables of analyse_argv, with the job's language and the static second_option. `past_end` says
-- that `argv[++i]` was the null pointer at the end: the source makes a string of it and reads on behind
-- the end of argv, which is undefined.
pub record Scan : Type 0 where
  pub args : ArgumentsList
  pub extrafiles : List Bytes
  pub ofile : Bytes
  pub job_language : ℕ
  pub always_local : Bool
  pub seen_c : Bool
  pub seen_s : Bool
  pub seen_mf : Bool
  pub seen_md : Bool
  pub seen_split_dwarf : Bool
  pub seen_target : Bool
  pub wunused_macros : Bool
  pub seen_arch : Bool
  pub seen_pedantic : Bool
  pub seen_imacros : Bool
  pub seen_march_native : Bool
  pub seen_mcpu_native : Bool
  pub seen_mtune_native : Bool
  pub seen_parallel_flto : Bytes
  pub std : Option Bytes
  pub explicit_color_diagnostics : Bool
  pub explicit_no_show_caret : Bool
  pub second_option : Bool
  pub past_end : Bool

-- `args.append(a, t)`
abbrev pub append : Bytes → ArgumentType → Scan → Scan
append a t s = record s { args = s.args ++ ((a, t) ∷ []) }

-- `always_local = true`
abbrev pub locally : Scan → Scan
locally s = record s { always_local = true }

abbrev pub Step : Type 0
Step = Scan × List Bytes

-- The next word, if there is one, goes with the option.
abbrev pub with_next : ArgumentType → Scan → List Bytes → Step
with_next t s [] = (s, [])
with_next t s (b ∷ rest) = (append b t s, rest)

-- `args.append(argv[++i], t)` with no test that there is a next word, as for -MF, -MT and -MQ.
abbrev pub with_next_unchecked : ArgumentType → Scan → List Bytes → Step
with_next_unchecked t s [] = (record s { past_end = true }, [])
with_next_unchecked t s (b ∷ rest) = (append b t s, rest)

-- The next word of an option whose preprocessing is local: -O there is taken for a mistake.
abbrev pub with_next_local : Scan → List Bytes → Step
with_next_local s [] = (s, [])
with_next_local s (b ∷ rest) =
    (append b arg_local (if str_startswith (codes "-O") b then locally s else s), rest)

abbrev letters_off : Bytes → Bytes
letters_off [] = []
letters_off (c ∷ s) = let rest = letters_off s in if leb b'a' c && leb c b'z' then rest else c ∷ s

-- A file that goes along with the job; without it the job is local.
unfoldable pub extra_file : Files → Bytes → Scan → Bytes × Scan
extra_file files file s =
    if files.readable file
    then (
      files.get_absfilename file,
      record s { extrafiles = s.extrafiles ++ (files.get_absfilename file ∷ []) },
    )
    else (file, locally s)

-- What analyze_assembler_arg makes of an argument: how it is sent, whether it must be local, the static
-- second_option, and what is added to extrafiles.
pub record AssemblerArg : Type 0 where
  pub arg : Bytes
  pub local : Bool
  pub second_option : Bool
  pub extra : List Bytes

abbrev plain : Bytes → Bool → Bool → AssemblerArg
plain a local second = record { arg = a; local = local; second_option = second; extra = [] }

unfoldable pub analyze_assembler_arg : Files → Bool → Bytes → AssemblerArg
analyze_assembler_arg files second_option arg =
    if second_option
    then plain arg false false
    else if str_startswith (codes "-a") arg
    then plain arg (str_startswith (codes "=") (letters_off (drop 2 arg))) false
    else if str_equal (codes "--debug-prefix-map") arg || str_equal (codes "--defsym") arg
    then plain arg false true
    else if str_startswith (codes "@") arg
    then plain arg true false
    else if str_startswith (codes "-") arg
    then plain arg false false
    else if files.readable arg
    then record {
      arg = files.get_absfilename arg;
      local = false;
      second_option = false;
      extra = files.get_absfilename arg ∷ [];
    }
    else plain arg true false

-- The parts between the commas.
unfoldable pub split_commas : Bytes → List Bytes
split_commas [] = [] ∷ []
split_commas (c ∷ s) =
    let rest = split_commas s in
    if c == b',' then [] ∷ rest else elim rest [ [] ↦ (c ∷ []) ∷ [] | w ∷ ws ↦ (c ∷ w) ∷ ws ]

-- The loop over the parts of -Wa: the argument that is sent, and `local`, which is that of the last part.
unfoldable pub assembler_loop : Files → List Bytes → Bytes → Bool → Scan → (Bytes × Bool) × Scan
assembler_loop files [] remote_arg local s = ((remote_arg, local), s)
assembler_loop files (as_arg ∷ parts) remote_arg local s =
    let found = analyze_assembler_arg files s.second_option as_arg in
    assembler_loop files parts (remote_arg ++ (b',' ∷ found.arg)) found.local
      (record s { second_option = found.second_option; extrafiles = s.extrafiles ++ found.extra })

unfoldable pub scan_assembler : Files → Bytes → Scan → Scan
scan_assembler files a s =
    let ((remote_arg, local), after) =
      assembler_loop files (split_commas (drop 4 a)) (codes "-Wa") false s in
    if local then append a arg_local (locally after) else append remote_arg arg_remote after

-- The languages of -x.
abbrev pub x_language : Bytes → Option ℕ
x_language opt =
    if str_equal opt (codes "c")
    then some lang_c
    else if str_equal opt (codes "c++")
    then some lang_cxx
    else if str_equal opt (codes "objective-c")
    then some lang_objc
    else if str_equal opt (codes "objective-c++")
    then some lang_objcxx
    else none

abbrev pub set_language : Option ℕ → Scan → Scan
set_language none s = locally s
set_language (some lang) s = record s { job_language = lang }

abbrev pub scan_language : Scan → List Bytes → Step
scan_language s [] = (locally s, [])
scan_language s (opt ∷ rest) = (set_language (x_language opt) (append opt arg_rest s), rest)

-- `-` as the output may be a file or not.
abbrev pub to_stdout : Scan → Scan
to_stdout s = if str_equal s.ofile (codes "-") then locally s else s

abbrev pub next_output : Scan → List Bytes → Step
next_output s [] = (to_stdout s, [])
next_output s (b ∷ rest) = (to_stdout (record s { ofile = b }), rest)

unfoldable pub scan_output : Bytes → Scan → List Bytes → Step
scan_output a s rest =
    if str_equal a (codes "-o")
    then next_output s rest
    else (to_stdout (record s { ofile = drop 2 a }), rest)

abbrev pub first_of : List String → Bytes → Bytes
first_of [] a = []
first_of (head ∷ heads) a =
    let later = first_of heads a in if str_startswith (codes head) a then codes head else later

unfoldable pub scan_file_option : Files → Bytes → Scan → Scan
scan_file_option files a s =
    let head =
      first_of
        ("-fplugin=" ∷ "-fsanitize-blacklist=" ∷ "-fprofile-sample-use=" ∷ "-fprofile-instr-use="
          ∷ [])
        a in
    let (file, after) = extra_file files (drop (length head) a) s in
    append (head ++ file) arg_rest after

-- -Xclang -load -Xclang FILE: the words behind -load.
unfoldable pub scan_load : Files → Bytes → Bytes → Scan → List Bytes → Step
scan_load files a p s (x ∷ file ∷ rest) =
    let (abs, after) = extra_file files file (append p arg_rest (append a arg_rest s)) in
    if str_equal x (codes "-Xclang")
    then (append abs arg_rest (append x arg_rest after), rest)
    else (s, x ∷ file ∷ rest)
scan_load files a p s rest = (s, rest)

unfoldable pub scan_xclang : Files → Bytes → Scan → List Bytes → Step
scan_xclang files a s [] = (s, [])
scan_xclang files a s (p ∷ rest) =
    let both = append p arg_rest (append a arg_rest s) in
    let loaded = scan_load files a p s rest in
    if str_equal (codes "-load") p
    then loaded
    else if str_equal (codes "-building-pch-with-obj") p
    then (locally both, rest)
    else (both, rest)

-- Only `-flto` and `-flto=1` of GCC are not parallel.
abbrev pub scan_flto : (ℕ → Bool) → Bytes → Scan → Scan
scan_flto is_clang a s =
    let kept = append a arg_rest s in
    if is_clang s.job_language || not (is_one_of ("-flto" ∷ "-flto=1" ∷ []) a)
    then record kept { seen_parallel_flto = a }
    else kept
