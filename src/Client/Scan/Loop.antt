-- ===== src/Client/Scan/Loop.antt =====
-- client/arg.cpp: the branches of the loop of analyse_argv, and the loop itself.
use icecream.Base.{ℕ, zero, suc, Bool, true, false, ◌&&◌, some, List, [], ◌∷◌, ◌==◌, if◌then◌else◌}
use icecream.Comm.{Bytes, drop}
use icecream.Comm.CompileFile.{ArgumentType, arg_local, arg_remote, arg_rest, finds, is_clang_like}
use icecream.Client.{codes, str_equal, str_startswith, begins_with_one_of, lang_custom}
use icecream.Client.Options.{OptionKind, is_argument_with_space, kind_of}
use icecream.Client.Options.{
  forces_local, depends, local_only, depends_file, depends_target, param, prefix, assembler,
  to_assembly, split_dwarf, language, march, mcpu, mtune, compile_only, output, define, local_value,
  cpp_only, color, color_auto, caret_off, caret_on, file_option, xclang, target, target_joined,
  standard, unused_on, unused_off, pedantic, arch, flto, other,
}
use icecream.Client.Scan.{
  Files, Scan, append, locally, Step, with_next, with_next_unchecked, with_next_local,
  scan_assembler, scan_language, scan_output, scan_file_option, scan_xclang, scan_flto,
}

-- compiler_is_clang, for a job with the given compiler
abbrev pub compiler_is_clang : Bytes → ℕ → Bool
compiler_is_clang compiler_name lang =
    if lang == lang_custom then false else is_clang_like compiler_name

-- What does not change while the words are read: Arg_Cpp is arg_rest or arg_local.
pub record Setting : Type 0 where
  pub files : Files
  pub arg_cpp : ArgumentType
  pub compiler_name : Bytes
  pub icerun : Bool

-- -Wp,-MD and -Wp,-MMD may name the file.
abbrev with_file : Bytes → Scan → Scan
with_file a s =
    if begins_with_one_of ("-Wp,-MD" ∷ "-Wp,-MMD" ∷ []) a && finds (codes ",") (drop 7 a)
    then record s { seen_mf = true }
    else s

-- One branch of the loop, for the word `a` and the words behind it.
unfoldable pub step : Setting → OptionKind → Bytes → Scan → List Bytes → Step
step set forces_local a s rest = (append a arg_local (locally s), rest)
step set depends a s rest = (with_file a (append a arg_local (record s { seen_md = true })), rest)
step set local_only a s rest = (append a arg_local s, rest)
step set depends_file a s rest =
    with_next_unchecked arg_local (append a arg_local (record s { seen_mf = true })) rest
step set depends_target a s rest = with_next_unchecked arg_local (append a arg_local s) rest
step set param a s rest = with_next arg_remote (append a arg_remote s) rest
step set prefix a s rest =
    let kept = append a arg_local (locally s) in
    if str_equal a (codes "-B") then with_next arg_local kept rest else (kept, rest)
step set assembler a s rest = (scan_assembler set.files a s, rest)
step set to_assembly a s rest = (record s { seen_s = true }, rest)
step set split_dwarf a s rest = (append a arg_rest (record s { seen_split_dwarf = true }), rest)
step set language a s rest = scan_language (append a arg_rest s) rest
step set march a s rest = (append a arg_rest (record s { seen_march_native = true }), rest)
step set mcpu a s rest = (append a arg_rest (record s { seen_mcpu_native = true }), rest)
step set mtune a s rest = (append a arg_rest (record s { seen_mtune_native = true }), rest)
step set compile_only a s rest = (record s { seen_c = true }, rest)
step set output a s rest = scan_output a s rest
step set define a s rest = with_next set.arg_cpp (append a set.arg_cpp s) rest
step set local_value a s rest =
    let imacros = if str_equal (codes "-imacros") a then record s { seen_imacros = true } else s in
    with_next_local (append a arg_local imacros) rest
step set cpp_only a s rest = (append a set.arg_cpp s, rest)
step set color a s rest = (append a arg_rest (record s { explicit_color_diagnostics = true }), rest)
step set color_auto a s rest = (record s { explicit_color_diagnostics = false }, rest)
step set caret_off a s rest = (append a arg_rest (record s { explicit_no_show_caret = true }), rest)
step set caret_on a s rest = (append a arg_rest (record s { explicit_no_show_caret = false }), rest)
step set file_option a s rest = (scan_file_option set.files a s, rest)
step set xclang a s rest = scan_xclang set.files a s rest
step set target a s rest =
    with_next arg_rest (append a arg_rest (record s { seen_target = true })) rest
step set target_joined a s rest = (append a arg_rest (record s { seen_target = true }), rest)
step set standard a s rest = (append a arg_rest (record s { std = some (drop 5 a) }), rest)
step set unused_on a s rest = (append a arg_rest (record s { wunused_macros = true }), rest)
step set unused_off a s rest = (append a arg_rest (record s { wunused_macros = false }), rest)
step set pedantic a s rest = (append a arg_rest (record s { seen_pedantic = true }), rest)
step set arch a s rest =
    let known = if s.seen_arch then locally s else s in
    with_next arg_rest (append a arg_rest (record known { seen_arch = false })) rest
step set flto a s rest = (scan_flto (compiler_is_clang set.compiler_name) a s, rest)
step set other a s rest =
    let kept = append a arg_rest s in
    if is_argument_with_space a then with_next arg_rest kept rest else (kept, rest)

-- One round of the loop.
unfoldable pub scan_word : Setting → Bytes → Scan → List Bytes → Step
scan_word set a s rest =
    if set.icerun
    then (append a arg_local s, rest)
    else if str_startswith (codes "-") a
    then step set (kind_of a) a s rest
    else if str_startswith (codes "@") a
    then (append a arg_local s, rest)
    else (append a arg_rest s, rest)

-- The loop, on fuel: a round for each word is enough, since each takes at least one. Where a
-- round runs past the end of argv, the loop stops, and past_end says so.
unfoldable pub scan_loop : Setting → ℕ → Scan → List Bytes → Step
scan_loop set zero s argv = (s, argv)
scan_loop set (suc rounds) s [] = (s, [])
scan_loop set (suc rounds) s (a ∷ rest) =
    let (next, left) = scan_word set a s rest in scan_loop set rounds next left

-- The words that the loop reads as such, and not as what belongs to an option.
unfoldable pub words_read : Setting → ℕ → Scan → List Bytes → List Bytes
words_read set zero s argv = []
words_read set (suc rounds) s [] = []
words_read set (suc rounds) s (a ∷ rest) =
    let (next, left) = scan_word set a s rest in a ∷ words_read set rounds next left
