-- ===== src/Comm/RoundTrip.antt =====
-- Each reader gets back what its writer puts, with anything behind it.
use icecream.Base.{
  ℕ, zero, suc, ◌+◌, ◌*◌, ◌/◌, ◌%◌, ◌^◌, ◌<◌, ◌≡◌, refl, ap, false, Bool, true, Bool-cases, inl,
  inr, List, [], ◌∷◌, ◌++◌,
}
use icecream.Base.{arith, length, length-append, is_nil, All, if◌then◌else◌}
use icecream.Comm.{
  Bytes, IsWord, IsText, IsTexts, WireEnvironments, IsEnvironments, is_protocol_version, Writer,
  Reader, ◌>>=◌, put_u32, read_u32, put_string, until_nul, drop, read_string, put_strings, put_list,
  read_strings, read_list, put_pairs, write_environments, read_pairs, read_environments, put_since,
  read_since, put_bool, read_bool,
}

-- A reader's first step done, the rest follows.
pub then_read {ℓ κ} :
    {A : Type ℓ} {B : Type κ} (r : Reader A) (f : A → Reader B) {input rest : Bytes} {a : A}
    {z : B × Bytes}
    → r input ≡ (a, rest)
    → f a rest ≡ z
    → (r >>= f) input ≡ z
unfolding ◌>>=◌
then_read r f e d = rw e d

pub read_u32-put_u32 :
    {n : ℕ} {behind : Bytes} → IsWord n → read_u32 (put_u32 n behind) ≡ (n, behind)
unfolding read_u32 put_u32
read_u32-put_u32 {n} h =
    let same : n / 2 ^ 24 % 256 * 2 ^ 24
          + n / 2 ^ 16 % 256 * 2 ^ 16
          + n / 2 ^ 8 % 256 * 2 ^ 8
          + n % 256
        ≡ n =
      omega (arith, h) in
    rw same refl

pub read_bool-put_bool : {b : Bool} {behind : Bytes} → read_bool (put_bool b behind) ≡ (b, behind)
unfolding read_bool put_bool
read_bool-put_bool {b = true} = rw (read_u32-put_u32 {n = 1} (omega arith)) refl
read_bool-put_bool {b = false} = rw (read_u32-put_u32 {n = 0} (omega arith)) refl

until_nul-append : (s behind : Bytes) → All (λ b. 0 < b) s → until_nul (s ++ (0 ∷ behind)) ≡ s
unfolding until_nul
until_nul-append [] behind h = refl
until_nul-append (zero ∷ s) behind h = absurd (omega (arith, h.0))
until_nul-append (suc b ∷ s) behind h = ap (λ t. suc b ∷ t) (until_nul-append s behind h.1)

drop-append : (s behind : Bytes) → drop (suc (length s)) (s ++ (0 ∷ behind)) ≡ behind
unfolding drop
drop-append [] behind = refl
drop-append (b ∷ s) behind = drop-append s behind

pub read_string-put_string :
    {s behind : Bytes} → IsText s → read_string (put_string s behind) ≡ (s, behind)
unfolding read_string put_string
read_string-put_string {s} {behind} h =
    let inside = length-append s (0 ∷ behind) in
    rw (read_u32-put_u32 h.1, until_nul-append s behind h.0, drop-append s behind)
      (ground (arith, inside))

put_string_not_empty : (s behind : Bytes) → is_nil (put_string s behind) ≡ false
unfolding put_string put_u32
put_string_not_empty s behind = refl

read_strings-put_strings :
    (l : List Bytes) (behind : Bytes)
    → All IsText l
    → read_strings (length l) (put_strings l behind) ≡ (l, behind)
unfolding read_strings put_strings
read_strings-put_strings [] behind h = refl
read_strings-put_strings (s ∷ []) behind h = rw (read_string-put_string h.0) (ground arith)
read_strings-put_strings (s ∷ t ∷ l) behind h =
    rw
      (
        read_string-put_string h.0,
        read_strings-put_strings (t ∷ l) behind h.1,
        put_string_not_empty t (put_strings l behind),
      )
      refl

pub read_list-put_list :
    {l : List Bytes} {behind : Bytes} → IsTexts l → read_list (put_list l behind) ≡ (l, behind)
unfolding read_list put_list
read_list-put_list {l} {behind} h =
    rw (read_u32-put_u32 h.1) (read_strings-put_strings l behind h.0)

read_pairs-put_pairs :
    (envs : WireEnvironments) (behind : Bytes)
    → All (λ env. IsText env.0 × IsText env.1) envs
    → read_pairs (length envs) (put_pairs envs behind) ≡ (envs, behind)
unfolding read_pairs put_pairs
read_pairs-put_pairs [] behind h = refl
read_pairs-put_pairs (env ∷ envs) behind h =
    rw
      (
        read_string-put_string h.0.0,
        read_string-put_string h.0.1,
        read_pairs-put_pairs envs behind h.1,
      )
      refl

pub read_environments-write_environments :
    {envs : WireEnvironments} {behind : Bytes}
    → IsEnvironments envs
    → read_environments (write_environments envs behind) ≡ (envs, behind)
unfolding read_environments write_environments
read_environments-write_environments {envs} {behind} h =
    rw (read_u32-put_u32 h.1) (read_pairs-put_pairs envs behind h.0)

-- A field of newer protocols is read where it is put, and else has the value for older ones.
pub then_since {ℓ κ} :
    {A : Type ℓ} {B : Type κ} (x p : ℕ) (r : Reader A) (w : Writer) (old : A) (f : A → Reader B)
    {behind : Bytes} {a : A} {z : B × Bytes}
    → r (w behind) ≡ (a, behind)
    → f (if is_protocol_version x p then a else old) behind ≡ z
    → (read_since x p r old >>= f) (put_since x p w behind) ≡ z
unfolding ◌>>=◌ read_since put_since
then_since x p r w old f {behind} {a} e d = elim (Bool-cases (is_protocol_version x p)) [
  | inl new ↦ rw (new, e) (rw new at d)
  | inr old_one ↦ rw old_one (rw old_one at d)
]
