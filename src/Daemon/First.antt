-- ===== src/Daemon/First.antt =====
-- The loop of get_earliest_client begins with the first client that counts, and only gets better.
use icecream.Base.{
  ◌≡◌, ◌⊎◌, inl, inr, ◌≤◌, ◌<◌, ltb, ◌&&◌, refl, ap, Bool, true, false, find_if, none, some, List,
  [], ◌∷◌, All, subst, arith,
}
use icecream.Daemon.{
  Status, Client, is_status, Earliest, max_niceness, no_earliest, is_earlier, choose, earliest_loop,
}

-- `c` is `f`, or came before it and has a better niceness.
abbrev pub IsAtLeast : Client → Client → Type 0
IsAtLeast f c = (c ≡ f) ⊎ ((c.client_id < f.client_id) × (c.niceness < f.niceness))

-- A client of the status that does not have the largest niceness.
abbrev pub counts : Status → Client → Bool
counts s c = is_status s c && ltb c.niceness max_niceness

-- The variables of the loop, once it has found `f` or a better client.
unfoldable pub Beats : Client → Earliest → Type 0
Beats f e =
    (c : Client) × (e.client ≡ some c)
    × (e.min_client_id ≡ c.client_id)
    × (e.min_niceness ≡ c.niceness)
    × (1 ≤ c.client_id)
    × IsAtLeast f c

better :
    (f c d : Client)
    → IsAtLeast f c
    → d.client_id < c.client_id
    → d.niceness < c.niceness
    → IsAtLeast f d
better f c d (inl e) h k =
    let id : c.client_id ≡ f.client_id = ap (λ (x : Client). x.client_id) e in
    let nice : c.niceness ≡ f.niceness = ap (λ (x : Client). x.niceness) e in
    inr (omega (arith, h, id), omega (arith, k, nice))
better f c d (inr b) h k = inr (omega (arith, h, b.0), omega (arith, k, b.1))

choose-Beats :
    (s : Status) (f d : Client) (e : Earliest) (b : Bool)
    → 1 ≤ d.client_id
    → is_earlier s d e ≡ b
    → Beats f e
    → Beats f (choose b d e)
unfolding Beats
choose-Beats s f d e false h q k = k
choose-Beats s f d e true h q (c, is_c, id, niceness, one, least) =
    let before : d.client_id < c.client_id = ground (arith, q, id, one) in
    let nicer : d.niceness < c.niceness = ground (arith, q, niceness) in
    (d, refl, refl, refl, h, better f c d least before nicer)

earliest_loop-Beats :
    (s : Status) (f : Client) (cs : List Client) (e : Earliest)
    → All (λ c. 1 ≤ c.client_id) cs
    → Beats f e
    → Beats f (earliest_loop s cs e)
unfolding earliest_loop
earliest_loop-Beats s f [] e h k = k
earliest_loop-Beats s f (d ∷ cs) e h k =
    earliest_loop-Beats s f cs _ h.1 (choose-Beats s f d e (is_earlier s d e) h.0 refl k)

start_Beats : (d : Client) → 1 ≤ d.client_id → Beats d (choose true d no_earliest)
unfolding Beats
start_Beats d h = (d, refl, refl, refl, h, inl refl)

-- The loop at its end has found nothing, or the first client that counts or a better one.
unfoldable pub FindsFirst : Status → List Client → Earliest → Type 0
FindsFirst s cs e =
    (e.client ≡ none) ⊎ ((f : Client) × (find_if (counts s) cs ≡ some f) × Beats f e)

first_step :
    (s : Status) (d : Client) (cs : List Client) (b : Bool)
    → All (λ c. 1 ≤ c.client_id) (d ∷ cs)
    → FindsFirst s cs (earliest_loop s cs no_earliest)
    → counts s d ≡ b
    → FindsFirst s (d ∷ cs) (earliest_loop s cs (choose b d no_earliest))
unfolding FindsFirst
first_step s d cs true h found hit =
    inr (d, rw hit refl, earliest_loop-Beats s d cs _ h.1 (start_Beats d h.0))
first_step s d cs false h (inl nobody) miss = inl nobody
first_step s d cs false h (inr (f, first, beats)) miss = inr (f, rw miss first, beats)

pub first-Beats :
    (s : Status) (cs : List Client)
    → All (λ c. 1 ≤ c.client_id) cs
    → FindsFirst s cs (earliest_loop s cs no_earliest)
unfolding earliest_loop FindsFirst
first-Beats s [] h = inl refl
first-Beats s (d ∷ cs) h =
    let same : counts s d ≡ is_earlier s d no_earliest = ground arith in
    subst (λ b. FindsFirst s (d ∷ cs) (earliest_loop s cs (choose b d no_earliest))) same
      (first_step s d cs (counts s d) h (first-Beats s cs h.1) refl)
