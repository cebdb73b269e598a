-- ===== src/Scheduler/End/Others.antt =====
-- The requests and jobs of other daemons, when one daemon leaves.
use icecream.Base.{
  ℕ, ◌≤◌, ◌≡◌, sym, ap, ◌∙◌, inl, inr, true, false, ◌==◌, ==_iff, some, List, [], ◌∷◌, All, All-map,
  Bool-cases, arith,
}
use icecream.Base.Map.{Map, lookup}
use icecream.Job.{Job}
use icecream.Queue.{JobRequestsGroup}
use icecream.Queue.Order.{IsFresh, IsQueueFrom}
use icecream.Scheduler.{Net}
use icecream.Scheduler.Live.{IsQueued}
use icecream.Scheduler.End.{other_groups}

module _ (net : Net) (p : ℕ) where
  pub other_groups-All {κ} :
      (P : JobRequestsGroup → Type κ) (gs : List JobRequestsGroup)
      → All P gs
      → All P (other_groups net p gs)
  other_groups-All P [] h = tt
  other_groups-All P (g ∷ gs) h = ground (arith, other_groups-All P gs h.1)

  pub other_groups-others :
      (gs : List JobRequestsGroup) → All (λ g. (g.submitter == p) ≡ false) (other_groups net p gs)
  other_groups-others [] = tt
  other_groups-others (g ∷ gs) = ground (arith, other_groups-others gs)

  other_groups-IsFresh :
      (a b : ℕ) (gs : List JobRequestsGroup) → IsFresh a b gs → IsFresh a b (other_groups net p gs)
  other_groups-IsFresh a b [] f = tt
  other_groups-IsFresh a b (g ∷ gs) f = ground (arith, other_groups-IsFresh a b gs f.1)

  pub other_groups-IsQueueFrom :
      (lo m : ℕ) (gs : List JobRequestsGroup)
      → m ≤ lo
      → IsQueueFrom lo gs
      → IsQueueFrom m (other_groups net p gs)
  other_groups-IsQueueFrom lo m [] h q = tt
  other_groups-IsQueueFrom lo m (g ∷ gs) h q = elim (Bool-cases (g.submitter == p)) [
    | inl own ↦ rw own (other_groups-IsQueueFrom g.niceness m gs (omega arith) q.3)
    | inr other ↦ rw other (
      omega arith,
      q.1,
      other_groups-IsFresh g.submitter g.niceness gs q.2,
      other_groups-IsQueueFrom g.niceness g.niceness gs (omega arith) q.3,
    )
  ]

  -- A request of the daemon is not the job `k` of another one.
  not_own :
      (k : ℕ) (job : Job) (jobs : Map Job) (g : JobRequestsGroup) (l : List ℕ)
      → lookup k jobs ≡ some job
      → (job.submitter == p) ≡ false
      → (g.submitter == p) ≡ true
      → All (IsQueued jobs g) l
      → All (λ id. (id == k) ≡ false) l
  not_own k job jobs g [] e n o q = tt
  not_own k job jobs g (id ∷ l) e n o ((other, f, b, _, _), q) = (
    elim (Bool-cases (id == k)) [
      | inr miss ↦ miss
      | inl hit ↦ let same : id ≡ k = (==_iff id k).0 hit in let f' = rw same at f in ground arith
    ],
    not_own k job jobs g l e n o q,
  )

  pub not_own_groups :
      (k : ℕ) (job : Job) (jobs : Map Job) (gs : List JobRequestsGroup)
      → lookup k jobs ≡ some job
      → (job.submitter == p) ≡ false
      → All (λ g. All (IsQueued jobs g) g.l) gs
      → All (λ g. (g.submitter == p) ≡ true → All (λ id. (id == k) ≡ false) g.l) gs
  not_own_groups k job jobs gs e n q =
      All-map (λ g. All (IsQueued jobs g) g.l)
        (λ g. (g.submitter == p) ≡ true → All (λ id. (id == k) ≡ false) g.l) gs
        (λ g h o. not_own k job jobs g g.l e n o h) q

  pub same_job :
      (k id : ℕ) (job other : Job) (jobs : Map Job)
      → lookup k jobs ≡ some job
      → lookup id jobs ≡ some other
      → (id == k) ≡ true
      → job ≡ other
  same_job k id job other jobs e f hit =
      let i : id ≡ k = (==_iff id k).0 hit in
      let both : some job ≡ some other = sym e ∙ ap (λ j. lookup j jobs) (sym i) ∙ f in cc
