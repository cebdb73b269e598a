-- ===== src/Daemon/Order.antt =====
-- What get_earliest_client finds.
use icecream.Base.{
  ℕ, ◌≡◌, ◌⊎◌, inl, inr, ◌≤◌, refl, sym, Bool, true, false, find_if, Option, none, some, List, [],
  ◌∷◌, All, All-map, All-both, Elem, subst, arith,
}
use mathlib.Core.Option.{some-injective}
use icecream.Daemon.First.{IsAtLeast, counts, Beats, FindsFirst, first-Beats}
use icecream.Daemon.{
  Status, Client, is_status, Earliest, max_niceness, no_earliest, is_earlier, choose, earliest_loop,
  get_earliest_client,
}

-- A client of the status has no smaller id than the one found, or no smaller niceness.
Covers : Status → ℕ → ℕ → Client → Type 0
Covers s id niceness d =
    is_status s d ≡ true → ((1 ≤ id) × (id ≤ d.client_id)) ⊎ (niceness ≤ d.niceness)

-- The variables belong to the client that was chosen, which has the property P.
Fits : (Client → Type 0) → Status → Option Client → ℕ → ℕ → Type 0
Fits P s none id niceness = (id ≡ 0) × (niceness ≡ max_niceness)
Fits P s (some c) id niceness =
    P c × (is_status s c ≡ true) × (1 ≤ c.client_id) × (c.client_id ≡ id) × (c.niceness ≡ niceness)

abbrev FitsAll : (Client → Type 0) → Status → Earliest → Type 0
FitsAll P s e = Fits P s e.client e.min_client_id e.min_niceness

-- `f` is at least as early as `e`.
IsBelow : Earliest → Earliest → Type 0
IsBelow f e =
    (f.min_niceness ≤ e.min_niceness)
    × (1 ≤ e.min_client_id → (1 ≤ f.min_client_id) × (f.min_client_id ≤ e.min_client_id))

IsBelow-trans : (g f e : Earliest) → IsBelow g f → IsBelow f e → IsBelow g e
unfolding IsBelow
IsBelow-trans g f e h k =
    (omega (arith, h.0, k.0), λ p. ((h.1 (k.1 p).0).0, omega (arith, (k.1 p).1, (h.1 (k.1 p).0).1)))

choose-IsBelow :
    (s : Status) (c : Client) (e : Earliest)
    → 1 ≤ c.client_id
    → IsBelow (choose (is_earlier s c e) c e) e
unfolding IsBelow
choose-IsBelow s c e h = ground arith

choose-Covers :
    (s : Status) (c : Client) (e : Earliest)
    → 1 ≤ c.client_id
    → (let f = choose (is_earlier s c e) c e in Covers s f.min_client_id f.min_niceness c)
unfolding Covers
choose-Covers s c e h k = ground arith

choose-Fits :
    (P : Client → Type 0) (s : Status) (c : Client) (e : Earliest) (b : Bool)
    → P c
    → 1 ≤ c.client_id
    → FitsAll P s e
    → is_earlier s c e ≡ b
    → FitsAll P s (choose b c e)
unfolding Fits
choose-Fits P s c e false p h k q = k
choose-Fits P s c e true p h k q = (p, ground arith, h, refl, refl)

Covers-IsBelow :
    (s : Status) (e f : Earliest) (d : Client)
    → IsBelow f e
    → Covers s e.min_client_id e.min_niceness d
    → Covers s f.min_client_id f.min_niceness d
unfolding Covers IsBelow
Covers-IsBelow s e f d h k q = elim (k q) [
  | inl g ↦ inl ((h.1 g.0).0, omega (arith, (h.1 g.0).1, g.1))
  | inr g ↦ inr (omega (arith, h.0, g))
]

IsBelow-refl : (e : Earliest) → IsBelow e e
unfolding IsBelow
IsBelow-refl e = (omega arith, λ h. (h, omega arith))

-- The loop: what is chosen fits, it is no later than at the start, and it covers every client met.
earliest_loop-Fits :
    (P : Client → Type 0) (s : Status) (cs : List Client) (e : Earliest)
    → All (λ c. P c × (1 ≤ c.client_id)) cs
    → FitsAll P s e
    → (let f = earliest_loop s cs e in
        FitsAll P s f × IsBelow f e × All (λ d. Covers s f.min_client_id f.min_niceness d) cs)
unfolding earliest_loop
earliest_loop-Fits P s [] e h k = (k, IsBelow-refl e, tt)
earliest_loop-Fits P s (c ∷ cs) e h k =
    let e1 = choose (is_earlier s c e) c e in
    let rest =
      earliest_loop-Fits P s cs e1 h.1
        (choose-Fits P s c e (is_earlier s c e) h.0.0 h.0.1 k refl) in
    (
      rest.0,
      IsBelow-trans _ e1 e rest.1 (choose-IsBelow s c e h.0.1),
      (Covers-IsBelow s e1 (earliest_loop s cs e1) c rest.1 (choose-Covers s c e h.0.1), rest.2),
    )

-- What a search for the earliest client of a status comes to.
pub IsEarliest : Status → List Client → Option Client → Type 0
IsEarliest s cs none = All (λ d. is_status s d ≡ true → max_niceness ≤ d.niceness) cs
IsEarliest s cs (some c) =
    Elem c cs
    × (is_status s c ≡ true)
    × All (λ d. is_status s d ≡ true → (c.client_id ≤ d.client_id) ⊎ (c.niceness ≤ d.niceness)) cs
    × ((f : Client) × (find_if (counts s) cs ≡ some f) × IsAtLeast f c)

All-Elem : (cs : List Client) → All (λ c. Elem c cs) cs
All-Elem [] = tt
All-Elem (c ∷ cs) = (inl refl, All-map _ _ cs (λ d h. inr h) (All-Elem cs))

found-IsEarliest :
    (s : Status) (cs : List Client) (o : Option Client) (id niceness : ℕ)
    → Fits (λ c. Elem c cs) s o id niceness
    → All (λ d. Covers s id niceness d) cs
    → FindsFirst s cs (record { client = o; min_client_id = id; min_niceness = niceness })
    → IsEarliest s cs o
unfolding Fits Covers IsEarliest FindsFirst Beats
found-IsEarliest s cs none id niceness h k b = All-map _ _ cs (λ d g q. ground (arith, h, g q)) k
found-IsEarliest s cs (some c) id niceness h k (inl b) = cc
found-IsEarliest s cs (some c) id niceness h k (inr (f, first, (c', is_c, _, _, _, least))) = (
  h.0,
  h.1,
  All-map _ _ cs (λ d g q. ground (arith, h, g q)) k,
  (f, first, subst (IsAtLeast f) (sym (some-injective c c' is_c)) least),
)

-- get_earliest_client gives a client of the list with the status. It is the first one of the list that
-- has the status and not the largest niceness, or one that has both a smaller id and a smaller niceness
-- than that one; and every other one of the status has no smaller id or no smaller niceness. It gives
-- none only if all of the status have the largest niceness of 32 bits. Client ids count from 1.
pub get_earliest_client-IsEarliest :
    (s : Status) (cs : List Client)
    → All (λ c. 1 ≤ c.client_id) cs
    → IsEarliest s cs (get_earliest_client s cs)
unfolding get_earliest_client Fits
get_earliest_client-IsEarliest s cs h =
    let found =
      earliest_loop-Fits (λ c. Elem c cs) s cs no_earliest (All-both _ _ cs (All-Elem cs) h)
        (refl, refl) in
    found-IsEarliest s cs _ _ _ found.0 found.2 (first-Beats s cs h)

OfClient : (Client → Type 0) → Option Client → Type 0
OfClient Q none = Unit
OfClient Q (some c) = Q c

choose-OfClient :
    (Q : Client → Type 0) (c : Client) (e : Earliest) (b : Bool)
    → (b ≡ true → Q c)
    → OfClient Q e.client
    → OfClient Q (choose b c e).client
unfolding OfClient
choose-OfClient Q c e false g o = o
choose-OfClient Q c e true g o = g refl

earliest_loop-OfClient :
    (Q : Client → Type 0) (s : Status) (cs : List Client) (e : Earliest)
    → All (λ c. is_status s c ≡ true → Q c) cs
    → OfClient Q e.client
    → OfClient Q (earliest_loop s cs e).client
unfolding earliest_loop
earliest_loop-OfClient Q s [] e a o = o
earliest_loop-OfClient Q s (c ∷ cs) e a o =
    earliest_loop-OfClient Q s cs (choose (is_earlier s c e) c e) a.1
      (choose-OfClient Q c e (is_earlier s c e) (λ b. a.0 (ground (arith, b))) o)

-- The client found is one of the list, with the status.
pub get_earliest_client-some :
    (s : Status) (cs : List Client) (c : Client)
    → get_earliest_client s cs ≡ some c
    → Elem c cs × (is_status s c ≡ true)
unfolding get_earliest_client OfClient
get_earliest_client-some s cs c q =
    let Q : Client → Type 0 = λ d. Elem d cs × (is_status s d ≡ true) in
    subst (OfClient Q) q (
      earliest_loop-OfClient Q s cs no_earliest (All-map _ _ cs (λ d e t. (e, t)) (All-Elem cs)) tt)
