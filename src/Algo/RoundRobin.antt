-- ===== src/Algo/RoundRobin.antt =====
-- pick_server_round_robin picks the server whose last pick is longest ago.
use icecream.Base.{
  ℕ, ◌≤◌, ◌≡◌, ◌≢◌, refl, some, List, [], ◌∷◌, All, Elem, ltb, inl, inr, Bool-cases, arith,
}
use icecream.Base.Map.{Map}
use icecream.CompileServer.{CompileServer, server_at}
use icecream.Algo.{round_robin_loop, pick_server_round_robin}

abbrev pub last_pick : Map CompileServer → ℕ → ℕ
last_pick heap p = (server_at heap p).last_pick_id

-- The choice from a list that goes on behind the server held so far.
loop-oldest :
    (heap : Map CompileServer) (s : ℕ) (eligible : List ℕ)
    → (r : ℕ) × (round_robin_loop heap (some s) eligible ≡ some r)
      × Elem r (s ∷ eligible)
      × (last_pick heap r ≤ last_pick heap s)
      × All (λ p. last_pick heap r ≤ last_pick heap p) eligible
unfolding round_robin_loop
loop-oldest heap s [] = (s, refl, inl refl, omega arith, tt)
loop-oldest heap s (p ∷ eligible) = elim (Bool-cases (ltb (last_pick heap p) (last_pick heap s))) [
  | inl older ↦
      let (r, e, i, m, a) = loop-oldest heap p eligible in
      (r, rw older e, inr i, ground arith, (m, a))
  | inr newer ↦
      let (r, e, i, m, a) = loop-oldest heap s eligible in
      (r, rw newer e, skip r i, m, (ground arith, a))
]
  where
    skip : (r : ℕ) → Elem r (s ∷ eligible) → Elem r (s ∷ p ∷ eligible)
    skip r (inl e) = inl e
    skip r (inr i) = inr (inr i)

-- From a list that is not empty it picks a member, and none was picked longer ago.
pub pick_server_round_robin-oldest :
    (heap : Map CompileServer) (eligible : List ℕ)
    → eligible ≢ []
    → (r : ℕ) × (pick_server_round_robin heap eligible ≡ some r)
      × Elem r eligible
      × All (λ p. last_pick heap r ≤ last_pick heap p) eligible
unfolding pick_server_round_robin round_robin_loop
pick_server_round_robin-oldest heap [] h = absurd (h refl)
pick_server_round_robin-oldest heap (p ∷ eligible) h =
    let (r, e, i, m, a) = loop-oldest heap p eligible in (r, e, i, (m, a))
