-- ===== src/Comm/Behind.antt =====
-- Each writer leaves the bytes behind what it writes as they are.
use mathlib.Core.List.{append_assoc}
use icecream.Base.{ℕ, ◌≡◌, refl, ap, ◌∙◌, Bool, Bool-cases, inl, inr, List, [], ◌∷◌, ◌++◌}
use icecream.Comm.{
  Bytes, Writer, WireEnvironments, is_protocol_version, put_u32, put_string, put_strings, put_list,
  put_pairs, write_environments, put_since, put_bool,
}

pub append-put_u32 : (n : ℕ) (a b : Bytes) → put_u32 n a ++ b ≡ put_u32 n (a ++ b)
unfolding put_u32
append-put_u32 n a b = refl

pub append-put_bool : (x : Bool) (a b : Bytes) → put_bool x a ++ b ≡ put_bool x (a ++ b)
unfolding put_bool
append-put_bool x a b = append-put_u32 _ a b

pub append-put_string : (s a b : Bytes) → put_string s a ++ b ≡ put_string s (a ++ b)
unfolding put_string
append-put_string s a b = append-put_u32 _ _ b ∙ ap (put_u32 _) (append_assoc s (0 ∷ a) b)

append-put_strings : (l : List Bytes) (a b : Bytes) → put_strings l a ++ b ≡ put_strings l (a ++ b)
unfolding put_strings
append-put_strings [] a b = refl
append-put_strings (s ∷ l) a b =
    append-put_string s _ b ∙ ap (put_string s) (append-put_strings l a b)

pub append-put_list : (l : List Bytes) (a b : Bytes) → put_list l a ++ b ≡ put_list l (a ++ b)
unfolding put_list
append-put_list l a b = append-put_u32 _ _ b ∙ ap (put_u32 _) (append-put_strings l a b)

append-put_pairs :
    (envs : WireEnvironments) (a b : Bytes) → put_pairs envs a ++ b ≡ put_pairs envs (a ++ b)
unfolding put_pairs
append-put_pairs [] a b = refl
append-put_pairs (env ∷ envs) a b =
    append-put_string env.0 _ b
    ∙ ap (put_string env.0)
        (append-put_string env.1 _ b ∙ ap (put_string env.1) (append-put_pairs envs a b))

pub append-write_environments :
    (envs : WireEnvironments) (a b : Bytes)
    → write_environments envs a ++ b ≡ write_environments envs (a ++ b)
unfolding write_environments
append-write_environments envs a b =
    append-put_u32 _ _ b ∙ ap (put_u32 _) (append-put_pairs envs a b)

-- A field that may be left out.
append-put_since :
    (x p : ℕ) (w : Writer) (a b : Bytes)
    → w a ++ b ≡ w (a ++ b)
    → put_since x p w a ++ b ≡ put_since x p w (a ++ b)
unfolding put_since
append-put_since x p w a b h = elim (Bool-cases (is_protocol_version x p)) [
  | inl new ↦ rw new h
  | inr older ↦ rw older refl
]

pub append-since_u32 :
    (x p n : ℕ) (a b : Bytes)
    → put_since x p (put_u32 n) a ++ b ≡ put_since x p (put_u32 n) (a ++ b)
append-since_u32 x p n a b = append-put_since x p _ a b (append-put_u32 n a b)

pub append-since_bool :
    (x p : ℕ) (y : Bool) (a b : Bytes)
    → put_since x p (put_bool y) a ++ b ≡ put_since x p (put_bool y) (a ++ b)
append-since_bool x p y a b = append-put_since x p _ a b (append-put_bool y a b)

pub append-since_string :
    (x p : ℕ) (s a b : Bytes)
    → put_since x p (put_string s) a ++ b ≡ put_since x p (put_string s) (a ++ b)
append-since_string x p s a b = append-put_since x p _ a b (append-put_string s a b)

pub append-since_list :
    (x p : ℕ) (l : List Bytes) (a b : Bytes)
    → put_since x p (put_list l) a ++ b ≡ put_since x p (put_list l) (a ++ b)
append-since_list x p l a b = append-put_since x p _ a b (append-put_list l a b)

pub ruleset behind_laws = (
  append-put_u32, append-put_bool, append-put_string, append-put_list, append-write_environments,
  append-since_u32, append-since_bool, append-since_string, append-since_list, append_assoc,
)
