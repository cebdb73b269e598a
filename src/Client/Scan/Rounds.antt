-- ===== src/Client/Scan/Rounds.antt =====
-- A round of the loop over the words never takes back that the job is local, and takes a word.
use icecream.Base.{
  ℕ, ◌≡◌, ◌≤◌, refl, Bool, true, false, Option, none, some, List, [], ◌∷◌, length, if◌then◌else◌,
  if_of_both, arith,
}
use icecream.Comm.{Bytes, drop}
use icecream.Comm.CompileFile.{ArgumentType, arg_local, arg_remote, arg_rest}
use icecream.Client.{codes, str_equal, str_startswith}
use icecream.Client.Options.{OptionKind, is_argument_with_space, kind_of}
use icecream.Client.Options.{
  forces_local, depends, depends_file, depends_target, param, prefix, assembler, language, output,
  define, local_value, file_option, xclang, target, arch, flto, other,
}
use icecream.Client.Scan.{
  Files, Scan, append, locally, Step, with_next, with_next_unchecked, with_next_local, extra_file,
  assembler_loop, scan_assembler, set_language, x_language, to_stdout, next_output, scan_language,
  scan_output, scan_file_option, scan_load, scan_xclang,
}
use icecream.Client.Scan.Loop.{Setting, step, scan_word}

-- A round from `s`, with `left` words behind the first: it takes none back and leaves always_local set.
unfoldable pub Goes : Scan → List Bytes → Step → Type 0
Goes s rest t = (length t.1 ≤ length rest) × (s.always_local ≡ true → t.0.always_local ≡ true)

with_next-Goes :
    (t : ArgumentType) (s : Scan) (rest : List Bytes) → Goes s rest (with_next t s rest)
unfolding Goes
with_next-Goes t s [] = (omega arith, λ h. h)
with_next-Goes t s (b ∷ rest) = (omega arith, λ h. h)

with_next_unchecked-Goes :
    (t : ArgumentType) (s : Scan) (rest : List Bytes) → Goes s rest (with_next_unchecked t s rest)
unfolding Goes
with_next_unchecked-Goes t s [] = (omega arith, λ h. h)
with_next_unchecked-Goes t s (b ∷ rest) = (omega arith, λ h. h)

-- The same for a change of the variables alone.
unfoldable pub Keeps : Scan → Scan → Type 0
Keeps s t = s.always_local ≡ true → t.always_local ≡ true

with_next_local-Goes : (s : Scan) (rest : List Bytes) → Goes s rest (with_next_local s rest)
unfolding Goes Keeps
with_next_local-Goes s [] = (omega arith, λ h. h)
with_next_local-Goes s (b ∷ rest) = (
  omega arith,
  if_of_both (λ t. Keeps s t) (str_startswith (codes "-O") b) (locally s) s (λ h. refl) (λ h. h),
)

set_language-Keeps : (o : Option ℕ) (s : Scan) → Keeps s (set_language o s)
unfolding Keeps
set_language-Keeps none s h = refl
set_language-Keeps (some lang) s h = h

scan_language-Goes : (s : Scan) (rest : List Bytes) → Goes s rest (scan_language s rest)
unfolding Goes Keeps
scan_language-Goes s [] = (omega arith, λ h. refl)
scan_language-Goes s (opt ∷ rest) =
    (omega arith, set_language-Keeps (x_language opt) (append opt arg_rest s))

to_stdout-Keeps : (s : Scan) → Keeps s (to_stdout s)
unfolding Keeps
to_stdout-Keeps s =
    if_of_both (λ t. Keeps s t) (str_equal s.ofile (codes "-")) (locally s) s (λ h. refl) (λ h. h)

next_output-Goes : (s : Scan) (rest : List Bytes) → Goes s rest (next_output s rest)
unfolding Goes Keeps
next_output-Goes s [] = (omega arith, to_stdout-Keeps s)
next_output-Goes s (b ∷ rest) = (omega arith, to_stdout-Keeps (record s { ofile = b }))

scan_output-Goes : (a : Bytes) (s : Scan) (rest : List Bytes) → Goes s rest (scan_output a s rest)
unfolding scan_output Goes Keeps
scan_output-Goes a s rest =
    if_of_both (λ t. Goes s rest t) (str_equal a (codes "-o")) _ _ (next_output-Goes s rest)
      (omega arith, to_stdout-Keeps (record s { ofile = drop 2 a }))

extra_file-Keeps : (files : Files) (file : Bytes) (s : Scan) → Keeps s (extra_file files file s).1
unfolding extra_file Keeps
extra_file-Keeps files file s =
    if_of_both (λ (t : Bytes × Scan). Keeps s t.1) (files.readable file) _ _ (λ h. h) (λ h. refl)

assembler_loop-Keeps :
    (files : Files) (parts : List Bytes) (remote_arg : Bytes) (local : Bool) (s : Scan)
    → Keeps s (assembler_loop files parts remote_arg local s).1
unfolding assembler_loop Keeps
assembler_loop-Keeps files [] remote_arg local s h = h
assembler_loop-Keeps files (p ∷ parts) remote_arg local s h =
    assembler_loop-Keeps files parts _ _ _ h

scan_assembler-Keeps : (files : Files) (a : Bytes) (s : Scan) → Keeps s (scan_assembler files a s)
unfolding scan_assembler Keeps
scan_assembler-Keeps files a s h =
    if_of_both (λ (t : Scan). t.always_local ≡ true) _ _ _ refl
      (assembler_loop-Keeps files _ _ false s h)

scan_load-Goes :
    (files : Files) (a p : Bytes) (s : Scan) (rest : List Bytes)
    → Goes s rest (scan_load files a p s rest)
unfolding scan_load Goes Keeps
scan_load-Goes files a p s [] = (omega arith, λ h. h)
scan_load-Goes files a p s (x ∷ []) = (omega arith, λ h. h)
scan_load-Goes files a p s (x ∷ file ∷ rest) =
    if_of_both (λ t. Goes s (x ∷ file ∷ rest) t) (str_equal x (codes "-Xclang")) _ _
      (omega arith, extra_file-Keeps files file (append p arg_rest (append a arg_rest s)))
      (omega arith, λ h. h)

scan_xclang-Goes :
    (files : Files) (a : Bytes) (s : Scan) (rest : List Bytes)
    → Goes s rest (scan_xclang files a s rest)
unfolding scan_xclang Goes
scan_xclang-Goes files a s [] = (omega arith, λ h. h)
scan_xclang-Goes files a s (p ∷ rest) =
    let loaded = scan_load-Goes files a p s rest in
    if_of_both (λ t. Goes s (p ∷ rest) t) (str_equal (codes "-load") p) _ _
      (omega (arith, loaded.0), loaded.1)
      (if_of_both (λ t. Goes s (p ∷ rest) t) (str_equal (codes "-building-pch-with-obj") p) _ _
        (omega arith, λ h. refl) (omega arith, λ h. h))

step-Goes :
    (set : Setting) (kind : OptionKind) (a : Bytes) (s : Scan) (rest : List Bytes)
    → Goes s rest (step set kind a s rest)
unfolding Goes Keeps step scan_file_option
step-Goes set forces_local a s rest = (omega arith, λ h. refl)
step-Goes set depends_file a s rest = with_next_unchecked-Goes arg_local _ rest
step-Goes set depends_target a s rest = with_next_unchecked-Goes arg_local _ rest
step-Goes set param a s rest = with_next-Goes arg_remote _ rest
step-Goes set depends a s rest =
    (omega arith, if_of_both (λ (t : Scan). Keeps s t) _ _ _ (λ h. h) (λ h. h))
step-Goes set prefix a s rest =
    let kept = append a arg_local (locally s) in
    let next = with_next-Goes arg_local kept rest in
    if_of_both (λ t. Goes s rest t) (str_equal a (codes "-B")) _ _ (next.0, λ h. next.1 refl)
      (omega arith, λ h. refl)
step-Goes set assembler a s rest = (omega arith, scan_assembler-Keeps set.files a s)
step-Goes set language a s rest = scan_language-Goes _ rest
step-Goes set output a s rest = scan_output-Goes a s rest
step-Goes set define a s rest = with_next-Goes _ _ rest
step-Goes set local_value a s rest =
    let seen = str_equal (codes "-imacros") a in
    let imacros = if seen then record s { seen_imacros = true } else s in
    let next = with_next_local-Goes (append a arg_local imacros) rest in
    (next.0, λ h. next.1 (if_of_both (λ (t : Scan). t.always_local ≡ true) seen _ _ h h))
step-Goes set file_option a s rest = (omega arith, extra_file-Keeps set.files _ s)
step-Goes set xclang a s rest = scan_xclang-Goes set.files a s rest
step-Goes set target a s rest = with_next-Goes arg_rest _ rest
step-Goes set arch a s rest =
    let known = if s.seen_arch then locally s else s in
    let next =
      with_next-Goes arg_rest (append a arg_rest (record known { seen_arch = false })) rest in
    (next.0, λ h. next.1 (if_of_both (λ (t : Scan). t.always_local ≡ true) s.seen_arch _ _ refl h))
step-Goes set flto a s rest =
    (omega arith, if_of_both (λ (t : Scan). Keeps s t) _ _ _ (λ h. h) (λ h. h))
step-Goes set other a s rest =
    if_of_both (λ t. Goes s rest t) (is_argument_with_space a) _ _
      (with_next-Goes arg_rest (append a arg_rest s) rest) (omega arith, λ h. h)
step-Goes set kind a s rest = (omega arith, λ h. h)

pub scan_word-Goes :
    (set : Setting) (a : Bytes) (s : Scan) (rest : List Bytes)
    → Goes s rest (scan_word set a s rest)
unfolding scan_word Goes
scan_word-Goes set a s rest =
    if_of_both (λ t. Goes s rest t) set.icerun _ _ (omega arith, λ h. h)
      (if_of_both (λ t. Goes s rest t) (str_startswith (codes "-") a) _ _
        (step-Goes set (kind_of a) a s rest)
        (if_of_both (λ t. Goes s rest t) (str_startswith (codes "@") a) _ _ (omega arith, λ h. h)
          (omega arith, λ h. h)))
