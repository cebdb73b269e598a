-- ===== src/Client/Scan/Safe.antt =====
-- The loop over the words never takes back that the job is local.
use icecream.Base.{
  ℕ, zero, suc, ◌≡◌, ◌≢◌, ◌⊎◌, refl, ◌∙◌, sym, ap, true, false, Bool-cases, inl, inr, List, [], ◌∷◌,
  All, if_of_both,
}
use mathlib.Core.Bool.{true≢false}
use icecream.Comm.{Bytes}
use icecream.Comm.CompileFile.{ArgumentType, arg_local}
use icecream.Client.{codes, str_equal, str_startswith}
use icecream.Client.Options.{OptionKind, kind_of}
use icecream.Client.Options.{forces_local, prefix}
use icecream.Client.Scan.{Scan, append, locally, Step, with_next}
use icecream.Client.Scan.Loop.{Setting, step, scan_word, scan_loop, words_read}
use icecream.Client.Scan.Rounds.{Goes, Keeps, scan_word-Goes}

scan_loop-Keeps :
    (set : Setting) (rounds : ℕ) (s : Scan) (argv : List Bytes)
    → Keeps s (scan_loop set rounds s argv).0
unfolding scan_loop Goes Keeps
scan_loop-Keeps set zero s argv h = h
scan_loop-Keeps set (suc rounds) s [] h = h
scan_loop-Keeps set (suc rounds) s (a ∷ rest) h =
    scan_loop-Keeps set rounds _ _ ((scan_word-Goes set a s rest).1 h)

-- A word that is read as a file, or as an option that does not make the job local by its name alone.
abbrev pub Harmless : Setting → Bytes → Type 0
Harmless set a =
    (set.icerun ≡ true)
    ⊎ (str_startswith (codes "-") a ≡ false)
    ⊎ ((kind_of a ≢ forces_local) × (kind_of a ≢ prefix))

-- The branch of -B makes the job local, with its word behind it or not.
with_next-local :
    (t : ArgumentType) (s : Scan) (rest : List Bytes)
    → s.always_local ≡ true
    → (with_next t s rest).0.always_local ≡ true
with_next-local t s [] h = h
with_next-local t s (b ∷ rest) h = h

prefix-local :
    (set : Setting) (a : Bytes) (s : Scan) (rest : List Bytes)
    → (step set prefix a s rest).0.always_local ≡ true
unfolding step
prefix-local set a s rest =
    if_of_both (λ (t : Step). t.0.always_local ≡ true) (str_equal a (codes "-B")) _ _
      (with_next-local arg_local (append a arg_local (locally s)) rest refl) refl

forces_local-local :
    (set : Setting) (a : Bytes) (s : Scan) (rest : List Bytes)
    → (step set forces_local a s rest).0.always_local ≡ true
unfolding step
forces_local-local set a s rest = refl

-- What a branch that makes the job local is not.
unforced :
    (set : Setting) (k kind : OptionKind) (a : Bytes) (s : Scan) (rest : List Bytes)
    → (step set k a s rest).0.always_local ≡ true
    → (step set kind a s rest).0.always_local ≡ false
    → kind ≢ k
unforced set k kind a s rest local h e =
    true≢false (sym local ∙ ap (λ x. (step set x a s rest).0.always_local) (sym e) ∙ h)

scan_word-Harmless :
    (set : Setting) (a : Bytes) (s : Scan) (rest : List Bytes)
    → (scan_word set a s rest).0.always_local ≡ false
    → Harmless set a
unfolding scan_word step
scan_word-Harmless set a s rest h = elim (Bool-cases set.icerun) [
  | inl custom ↦ inl custom
  | inr compiler ↦ elim (Bool-cases (str_startswith (codes "-") a)) [
    | inl dash ↦
        let free : (step set (kind_of a) a s rest).0.always_local ≡ false =
          rw (compiler, dash) at h in
        inr (
          inr (
            unforced set forces_local (kind_of a) a s rest (forces_local-local set a s rest) free,
            unforced set prefix (kind_of a) a s rest (prefix-local set a s rest) free,
          ))
    | inr word ↦ inr (inl word)
  ]
]

-- What is false at the end was false before.
was_false : (s t : Scan) → Keeps s t → t.always_local ≡ false → s.always_local ≡ false
unfolding Keeps
was_false s t k h = elim (Bool-cases s.always_local) [
  | inl forced_one ↦ absurd (true≢false (sym (k forced_one) ∙ h))
  | inr free ↦ free
]

-- If the words leave the job free to be remote, none of those that were read as options is one that
-- forces a local build: -E, -M, -B, -fsyntax-only, -save-temps, --coverage and so on.
pub words_read-Harmless :
    (set : Setting) (rounds : ℕ) (s : Scan) (argv : List Bytes)
    → (scan_loop set rounds s argv).0.always_local ≡ false
    → All (Harmless set) (words_read set rounds s argv)
unfolding scan_loop words_read Keeps
words_read-Harmless set zero s argv h = tt
words_read-Harmless set (suc rounds) s [] h = tt
words_read-Harmless set (suc rounds) s (a ∷ rest) h =
    let (next, left) = scan_word set a s rest in
    (
      scan_word-Harmless set a s rest (
          was_false next (scan_loop set rounds next left).0 (scan_loop-Keeps set rounds next left)
            h),
      words_read-Harmless set rounds next left h,
    )
