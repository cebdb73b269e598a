-- ===== src/Client/Analyse/Finish.antt =====
-- client/arg.cpp: the end of analyse_argv, from the test of the output file on, and what main of
-- client/main.cpp makes of the answer.
use icecream.Base.{
  ℕ, ◌+◌, ◌/◌, ◌%◌, Bool, true, false, not, ◌&&◌, ◌||◌, Option, none, some, List, [], ◌∷◌, ◌++◌,
  is_nil, ltb, ◌==◌, if◌then◌else◌,
}
use icecream.Comm.{Bytes}
use icecream.Comm.CompileFile.{arg_remote, arg_rest, ArgumentsList}
use icecream.Client.{analyze_program, codes, str_startswith, is_one_of}
use icecream.Client.Scan.{Scan, append, locally}
use icecream.Client.Scan.Loop.{compiler_is_clang}
use icecream.Client.Analyse.{System, Analysis, with_scan, read_words, add_mode, use_input}

abbrev is_clang : Analysis → Bool
is_clang a = compiler_is_clang a.compiler_name a.scan.job_language

unfoldable pub check_output : System → Analysis → Analysis
check_output sys a =
    if not a.scan.always_local && (is_nil a.scan.ofile || sys.exists_not_regular a.scan.ofile)
    then with_scan locally a
    else a

unfoldable pub add_color : System → Analysis → Analysis
add_color sys a =
    let wanted =
      not a.icerun
      && sys.has_color_output a.compiler_name a.scan.job_language
      && not a.scan.explicit_color_diagnostics in
    let option = if is_clang a then "-fcolor-diagnostics" else "-fdiagnostics-color" in
    if wanted then with_scan (append (codes option) arg_rest) a else a

-- `!standard || str_startswith("gnu", standard)`
abbrev is_gnu : Option Bytes → Bool
is_gnu none = true
is_gnu (some standard) = str_startswith (codes "gnu") standard

unfoldable pub block_rewrites : Analysis → Analysis
block_rewrites a =
    let s = a.scan in
    if s.wunused_macros || s.seen_imacros || s.seen_pedantic && not (is_clang a) && is_gnu s.std
    then record a { block_rewrite_includes = true }
    else a

unfoldable pub add_directives : System → Analysis → Analysis
add_directives sys a =
    let rewrites =
      sys.only_rewrite_includes a.compiler_name a.scan.job_language a.block_rewrite_includes in
    if not a.scan.always_local && rewrites && not (is_clang a)
    then with_scan (append (codes "-fdirectives-only") arg_remote) a
    else a

-- The client's platform, as clang tells it; without it the job is local.
unfoldable pub with_target : System → Analysis → Analysis
with_target sys a =
    if is_nil sys.clang_default_target
    then with_scan locally a
    else with_scan
        (λ s. append sys.clang_default_target arg_remote (append (codes "-target") arg_remote s)) a

unfoldable pub add_target : System → Analysis → Analysis
add_target sys a =
    if not a.scan.always_local && not a.scan.seen_target && is_clang a then with_target sys a else a

abbrev as_rest : List Bytes → ArgumentsList
as_rest [] = []
as_rest (arg ∷ args) = (arg, arg_rest) ∷ as_rest args

-- The first of the native flags gives way to the flags that it stands for, the others go.
unfoldable pub replace_native : List Bytes → Bool → ArgumentsList → ArgumentsList
replace_native arch_args handled [] = []
replace_native arch_args handled (x ∷ args) =
    let native = is_one_of ("-march=native" ∷ "-mcpu=native" ∷ "-mtune=native" ∷ []) x.0 in
    let rest = replace_native arch_args (handled || native) args in
    if native then (if handled then rest else as_rest arch_args ++ rest) else x ∷ rest

abbrev pub use_arch_flags : Option (List Bytes) → Scan → Scan
use_arch_flags none s = locally s
use_arch_flags (some arch_args) s = record s { args = replace_native arch_args false s.args }

unfoldable pub expand_native : System → Analysis → Analysis
expand_native sys a =
    let s = a.scan in
    let seen = s.seen_march_native || s.seen_mcpu_native || s.seen_mtune_native in
    let flags = sys.arch_flags s.seen_march_native s.seen_mcpu_native s.seen_mtune_native in
    if not s.always_local && seen then with_scan (use_arch_flags flags) a else a

-- analyse_argv but for its answer.
unfoldable pub analyse : System → Bytes → List Bytes → Bool → Analysis
analyse sys name argv icerun =
    let input = use_input (add_mode (read_words sys (analyze_program name icerun) argv)) in
    let blocked = block_rewrites (add_color sys (check_output sys input)) in
    expand_native sys (add_target sys (add_directives sys blocked))

-- AlwaysLocal and FullJob
abbrev pub always_local_bit : ℕ
always_local_bit = 1

abbrev pub full_job_bit : ℕ
full_job_bit = 2

-- `ret` of analyse_argv, an `int`.
unfoldable pub ret : Analysis → ℕ
ret a =
    let s = a.scan in
    let full = not (is_nil s.seen_parallel_flto) && not s.seen_c in
    if s.always_local
    then (if full then always_local_bit + full_job_bit else always_local_bit)
    else 0

-- What analyse_argv returns: a `bool`. `none` if the loop runs past the end of argv.
unfoldable pub analyse_argv : System → Bytes → List Bytes → Bool → Option Bool
analyse_argv sys name argv icerun =
    if (read_words sys (analyze_program name icerun) argv).scan.past_end
    then none
    else some (ltb 0 (ret (analyse sys name argv icerun)))

-- `argv_result`, an `int` again, and `fulljob` in main.
unfoldable pub argv_result : Bool → ℕ
argv_result answer = if answer then 1 else 0

unfoldable pub fulljob : ℕ → Bool
fulljob result = if result % 2 == 1 then result / 2 % 2 == 1 else false
