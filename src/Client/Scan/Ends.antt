-- ===== src/Client/Scan/Ends.antt =====
-- The loop of analyse_argv over the words of the command line ends with all words read, and runs past
-- the end of argv only behind a last word that asks for one more.
use icecream.Base.{
  ℕ, zero, suc, ◌≡◌, ◌≢◌, ◌≤◌, refl, ◌∙◌, Bool, true, false, ◌&&◌, Option, none, some, List, [],
  ◌∷◌, length, if◌then◌else◌, if_of_both, if_of_each, arith,
}
use icecream.Comm.{Bytes, drop}
use icecream.Comm.CompileFile.{ArgumentType, arg_local, arg_remote, arg_rest}
use icecream.Client.{codes, str_equal, str_startswith}
use icecream.Client.Options.{OptionKind, is_argument_with_space, kind_of}
use icecream.Client.Options.{
  depends, depends_file, depends_target, param, prefix, assembler, language, output, define,
  local_value, file_option, xclang, target, arch, flto, other,
}
use icecream.Client.Scan.{
  Files, Scan, append, locally, Step, with_next, with_next_unchecked, with_next_local, extra_file,
  assembler_loop, scan_assembler, set_language, x_language, to_stdout, next_output, scan_language,
  scan_output, scan_file_option, scan_load, scan_xclang,
}
use icecream.Client.Scan.Loop.{Setting, step, scan_word, scan_loop}
use icecream.Client.Scan.Rounds.{Goes, scan_word-Goes}

abbrev pub takes_unchecked : OptionKind → Bool
takes_unchecked depends_file = true
takes_unchecked depends_target = true
takes_unchecked kind = false

-- -MF, -MT or -MQ, or the like behind -Wp.
abbrev pub needs_word : Bytes → Bool
needs_word a = str_startswith (codes "-") a && takes_unchecked (kind_of a)

-- The last word is one of these.
unfoldable pub dangling : List Bytes → Bool
dangling [] = false
dangling (a ∷ []) = needs_word a
dangling (a ∷ b ∷ argv) = dangling (b ∷ argv)

dangling-tail :
    (a : Bytes) (argv : List Bytes) → dangling (a ∷ argv) ≡ false → dangling argv ≡ false
unfolding dangling
dangling-tail a [] h = refl
dangling-tail a (b ∷ argv) h = h

-- A round that does not run past the end, and leaves the end as it was.
Ends : Scan → List Bytes → Step → Type 0
Ends s rest t = (t.0.past_end ≡ s.past_end) × (dangling rest ≡ false → dangling t.1 ≡ false)

-- The same for a change of the variables alone.
Same : Scan → Scan → Type 0
Same s t = t.past_end ≡ s.past_end

with_next-Ends :
    (t : ArgumentType) (s : Scan) (rest : List Bytes) → Ends s rest (with_next t s rest)
unfolding Ends
with_next-Ends t s [] = (refl, λ h. h)
with_next-Ends t s (b ∷ rest) = (refl, dangling-tail b rest)

with_next_unchecked-Ends :
    (t : ArgumentType) (s : Scan) (rest : List Bytes)
    → rest ≢ []
    → Ends s rest (with_next_unchecked t s rest)
unfolding Ends
with_next_unchecked-Ends t s [] more = absurd (more refl)
with_next_unchecked-Ends t s (b ∷ rest) more = (refl, dangling-tail b rest)

with_next_local-Ends : (s : Scan) (rest : List Bytes) → Ends s rest (with_next_local s rest)
unfolding Ends Same
with_next_local-Ends s [] = (refl, λ h. h)
with_next_local-Ends s (b ∷ rest) = (
  if_of_both (λ t. Same s t) (str_startswith (codes "-O") b) (locally s) s refl refl,
  dangling-tail b rest,
)

set_language-Same : (o : Option ℕ) (s : Scan) → Same s (set_language o s)
unfolding Same
set_language-Same none s = refl
set_language-Same (some lang) s = refl

scan_language-Ends : (s : Scan) (rest : List Bytes) → Ends s rest (scan_language s rest)
unfolding Ends Same
scan_language-Ends s [] = (refl, λ h. h)
scan_language-Ends s (opt ∷ rest) =
    (set_language-Same (x_language opt) (append opt arg_rest s), dangling-tail opt rest)

to_stdout-Same : (s : Scan) → Same s (to_stdout s)
unfolding Same
to_stdout-Same s =
    if_of_both (λ t. Same s t) (str_equal s.ofile (codes "-")) (locally s) s refl refl

next_output-Ends : (s : Scan) (rest : List Bytes) → Ends s rest (next_output s rest)
unfolding Ends Same
next_output-Ends s [] = (to_stdout-Same s, λ h. h)
next_output-Ends s (b ∷ rest) = (to_stdout-Same (record s { ofile = b }), dangling-tail b rest)

scan_output-Ends : (a : Bytes) (s : Scan) (rest : List Bytes) → Ends s rest (scan_output a s rest)
unfolding scan_output Ends Same
scan_output-Ends a s rest =
    if_of_both (λ t. Ends s rest t) (str_equal a (codes "-o")) _ _ (next_output-Ends s rest)
      (to_stdout-Same (record s { ofile = drop 2 a }), λ h. h)

extra_file-Same : (files : Files) (file : Bytes) (s : Scan) → Same s (extra_file files file s).1
unfolding extra_file Same
extra_file-Same files file s =
    if_of_both (λ (t : Bytes × Scan). Same s t.1) (files.readable file) _ _ refl refl

assembler_loop-Same :
    (files : Files) (parts : List Bytes) (remote_arg : Bytes) (local : Bool) (s : Scan)
    → Same s (assembler_loop files parts remote_arg local s).1
unfolding assembler_loop Same
assembler_loop-Same files [] remote_arg local s = refl
assembler_loop-Same files (p ∷ parts) remote_arg local s = assembler_loop-Same files parts _ _ _

scan_assembler-Same : (files : Files) (a : Bytes) (s : Scan) → Same s (scan_assembler files a s)
unfolding scan_assembler Same
scan_assembler-Same files a s =
    let same = assembler_loop-Same files _ _ false s in
    if_of_both (λ (t : Scan). t.past_end ≡ s.past_end) _ _ _ same same

scan_load-Ends :
    (files : Files) (a p : Bytes) (s : Scan) (rest : List Bytes)
    → Ends s rest (scan_load files a p s rest)
unfolding scan_load Ends Same
scan_load-Ends files a p s [] = (refl, λ h. h)
scan_load-Ends files a p s (x ∷ []) = (refl, λ h. h)
scan_load-Ends files a p s (x ∷ file ∷ rest) =
    if_of_both (λ t. Ends s (x ∷ file ∷ rest) t) (str_equal x (codes "-Xclang")) _ _
      (
        extra_file-Same files file (append p arg_rest (append a arg_rest s)),
        λ h. dangling-tail file rest (dangling-tail x (file ∷ rest) h),
      )
      (refl, λ h. h)

scan_xclang-Ends :
    (files : Files) (a : Bytes) (s : Scan) (rest : List Bytes)
    → Ends s rest (scan_xclang files a s rest)
unfolding scan_xclang Ends
scan_xclang-Ends files a s [] = (refl, λ h. h)
scan_xclang-Ends files a s (p ∷ rest) =
    let loaded = scan_load-Ends files a p s rest in
    if_of_both (λ t. Ends s (p ∷ rest) t) (str_equal (codes "-load") p) _ _
      (loaded.0, λ h. loaded.1 (dangling-tail p rest h))
      (if_of_both (λ t. Ends s (p ∷ rest) t) (str_equal (codes "-building-pch-with-obj") p) _ _
        (refl, dangling-tail p rest) (refl, dangling-tail p rest))

step-Ends :
    (set : Setting) (kind : OptionKind) (a : Bytes) (s : Scan) (rest : List Bytes)
    → (takes_unchecked kind ≡ true → rest ≢ [])
    → Ends s rest (step set kind a s rest)
unfolding Ends Same step scan_file_option
step-Ends set depends_file a s rest more = with_next_unchecked-Ends arg_local _ rest (more refl)
step-Ends set depends_target a s rest more = with_next_unchecked-Ends arg_local _ rest (more refl)
step-Ends set param a s rest more = with_next-Ends arg_remote _ rest
step-Ends set depends a s rest more = (if_of_both (λ (t : Scan). Same s t) _ _ _ refl refl, λ h. h)
step-Ends set prefix a s rest more =
    if_of_both (λ t. Ends s rest t) (str_equal a (codes "-B")) _ _
      (with_next-Ends arg_local (append a arg_local (locally s)) rest) (refl, λ h. h)
step-Ends set assembler a s rest more = (scan_assembler-Same set.files a s, λ h. h)
step-Ends set language a s rest more = scan_language-Ends _ rest
step-Ends set output a s rest more = scan_output-Ends a s rest
step-Ends set define a s rest more = with_next-Ends _ _ rest
step-Ends set local_value a s rest more =
    let seen = str_equal (codes "-imacros") a in
    let imacros = if seen then record s { seen_imacros = true } else s in
    let next = with_next_local-Ends (append a arg_local imacros) rest in
    (next.0 ∙ if_of_both (λ (t : Scan). t.past_end ≡ s.past_end) seen _ _ refl refl, next.1)
step-Ends set file_option a s rest more = (extra_file-Same set.files _ s, λ h. h)
step-Ends set xclang a s rest more = scan_xclang-Ends set.files a s rest
step-Ends set target a s rest more = with_next-Ends arg_rest _ rest
step-Ends set arch a s rest more =
    let known = if s.seen_arch then locally s else s in
    let next =
      with_next-Ends arg_rest (append a arg_rest (record known { seen_arch = false })) rest in
    (next.0 ∙ if_of_both (λ (t : Scan). t.past_end ≡ s.past_end) s.seen_arch _ _ refl refl, next.1)
step-Ends set flto a s rest more = (if_of_both (λ (t : Scan). Same s t) _ _ _ refl refl, λ h. h)
step-Ends set other a s rest more =
    if_of_both (λ t. Ends s rest t) (is_argument_with_space a) _ _
      (with_next-Ends arg_rest (append a arg_rest s) rest) (refl, λ h. h)
step-Ends set kind a s rest more = (refl, λ h. h)

more_words :
    (a : Bytes) (rest : List Bytes)
    → str_startswith (codes "-") a ≡ true
    → dangling (a ∷ rest) ≡ false
    → takes_unchecked (kind_of a) ≡ true
    → rest ≢ []
unfolding dangling
more_words a [] dash h k e = absurd (ground (arith, dash, h, k))
more_words a (b ∷ rest) dash h k e = cc

scan_word-Ends :
    (set : Setting) (a : Bytes) (s : Scan) (rest : List Bytes)
    → dangling (a ∷ rest) ≡ false
    → Ends s rest (scan_word set a s rest)
unfolding scan_word Ends
scan_word-Ends set a s rest h =
    if_of_both (λ t. Ends s rest t) set.icerun _ _ (refl, λ h. h)
      (if_of_each (λ t. Ends s rest t) (str_startswith (codes "-") a) _ _
        (λ dash. step-Ends set (kind_of a) a s rest (more_words a rest dash h))
        (λ word.
          if_of_both (λ t. Ends s rest t) (str_startswith (codes "@") a) _ _ (refl, λ h. h)
            (refl, λ h. h)))

-- The loop of analyse_argv ends with all words read: every round takes at least one word, and as many
-- rounds as there are words are enough. It never reads past the end of argv, unless the last word is
-- an -MF, -MT or -MQ, or one of these behind -Wp.
pub scan_loop-all :
    (set : Setting) (rounds : ℕ) (s : Scan) (argv : List Bytes)
    → length argv ≤ rounds
    → ((scan_loop set rounds s argv).1 ≡ [])
      × (dangling argv ≡ false → (scan_loop set rounds s argv).0.past_end ≡ s.past_end)
unfolding scan_loop Goes Ends
scan_loop-all set zero s [] h = (refl, λ d. refl)
scan_loop-all set zero s (a ∷ rest) h = absurd (omega (arith, h))
scan_loop-all set (suc rounds) s [] h = (refl, λ d. refl)
scan_loop-all set (suc rounds) s (a ∷ rest) h =
    let (next, left) = scan_word set a s rest in
    let later =
      scan_loop-all set rounds next left (omega (arith, h, (scan_word-Goes set a s rest).0)) in
    (
      later.0,
      λ d.
          let here = scan_word-Ends set a s rest d in
          later.1 (here.1 (dangling-tail a rest d)) ∙ here.0,
    )
