-- ===== src/Queue/Contents.antt =====
-- Which requests the queue holds: no function of the queue loses one or makes one up.
use mathlib.Core.List.{Perm, perm_middle, perm_append_comm, append_assoc}
use mathlib.Core.List.Perm
use icecream.Base.{
  ℕ, ltb, ◌==◌, ◌&&◌, ◌≡◌, refl, true, false, List, [], ◌∷◌, ◌++◌, Elem, Bool-cases, erase_first,
  inl, inr, arith, subst, sym,
}
use icecream.Queue.{
  JobRequestsGroup, JobRequestPosition, same_group, enqueue_job_request, enqueue_job_requests_group,
  remove_group, requeue, remove_job_request,
}
use icecream.Queue.Order.{IsFresh, IsQueueFrom, IsQueue}

-- The requests in the order in which they are looked at.
abbrev pub pending : List JobRequestsGroup → List ℕ
pending [] = []
pending (g ∷ gs) = g.l ++ pending gs

append_one-Perm :
    (l : List ℕ) (j : ℕ) (rest : List ℕ) → Perm ((l ++ j ∷ []) ++ rest) (j ∷ l ++ rest)
append_one-Perm l j rest = rw append_assoc (perm_middle l rest)

-- A new request is added, and nothing else changes.
pub pending-enqueue_job_request :
    (submitter niceness job : ℕ) (gs : List JobRequestsGroup)
    → Perm (pending (enqueue_job_request submitter niceness job gs)) (job ∷ pending gs)
unfolding enqueue_job_request
pending-enqueue_job_request s n j [] = Perm.rfl
pending-enqueue_job_request s n j (g ∷ gs) =
    elim (Bool-cases (g.submitter == s && g.niceness == n)) [
      | inl same ↦ rw same (append_one-Perm g.l j (pending gs))
      | inr other ↦ elim (Bool-cases (ltb n g.niceness)) [
        | inl before ↦ rw (other, before) Perm.rfl
        | inr after ↦
            rw (other, after)
              (Perm.trans (Perm.append_left g.l (pending-enqueue_job_request s n j gs))
                (perm_middle g.l (pending gs)))
      ]
    ]

swap_front-Perm : (xs ys zs : List ℕ) → Perm (ys ++ xs ++ zs) (xs ++ ys ++ zs)
swap_front-Perm xs ys zs = Perm.append_right zs (perm_append_comm ys xs)

pending-enqueue_job_requests_group :
    (group : JobRequestsGroup) (gs : List JobRequestsGroup)
    → Perm (pending (enqueue_job_requests_group group gs)) (group.l ++ pending gs)
unfolding enqueue_job_requests_group
pending-enqueue_job_requests_group group [] = Perm.rfl
pending-enqueue_job_requests_group group (g ∷ gs) =
    elim (Bool-cases (ltb group.niceness g.niceness)) [
      | inl before ↦ rw before Perm.rfl
      | inr after ↦ rw after (
          Perm.trans (Perm.append_left g.l (pending-enqueue_job_requests_group group gs))
            (rw (← append_assoc, ← append_assoc) (swap_front-Perm group.l g.l (pending gs))))
    ]

pending-requeue :
    (group : JobRequestsGroup) (l : List ℕ) (gs : List JobRequestsGroup)
    → Perm (pending (requeue group l gs)) (l ++ pending gs)
pending-requeue group [] gs = Perm.rfl
pending-requeue group (j ∷ l) gs =
    pending-enqueue_job_requests_group (record group { l = j ∷ l }) gs

erase_first-Perm : (j : ℕ) (l : List ℕ) → Elem j l → Perm l (j ∷ erase_first j l)
erase_first-Perm j [] e = absurd e
erase_first-Perm j (x ∷ l) e = elim (Bool-cases (x == j)) [
  | inl same ↦ rw same (Perm.cons' (ground arith) Perm.rfl)
  | inr other ↦
      rw other (Perm.trans (Perm.cons x (erase_first-Perm j l (ground arith))) (Perm.swap j x _))
]

same_group_refl : (g : JobRequestsGroup) → same_group g g ≡ true
same_group_refl g = ground arith

fresh-remove_group :
    (group : JobRequestsGroup) (gs : List JobRequestsGroup)
    → IsFresh group.submitter group.niceness gs
    → remove_group group gs ≡ gs
fresh-remove_group group [] f = refl
fresh-remove_group group (g ∷ gs) f = ground (arith, fresh-remove_group group gs f.1)

Elem-same_group :
    (a b : ℕ) (group : JobRequestsGroup) (gs : List JobRequestsGroup)
    → IsFresh a b gs
    → Elem group gs
    → (group.submitter == a && group.niceness == b) ≡ false
Elem-same_group a b group [] f e = absurd e
Elem-same_group a b group (g ∷ gs) f (inl e) = rw e f.0
Elem-same_group a b group (g ∷ gs) f (inr e) = Elem-same_group a b group gs f.1 e

pending-remove_group :
    (lo : ℕ) (group : JobRequestsGroup) (gs : List JobRequestsGroup)
    → IsQueueFrom lo gs
    → Elem group gs
    → Perm (pending gs) (group.l ++ pending (remove_group group gs))
pending-remove_group lo group [] q e = absurd e
pending-remove_group lo group (g ∷ gs) q (inl e) =
    subst (λ h. Perm (pending (g ∷ gs)) (h.l ++ pending (remove_group h (g ∷ gs)))) (sym e)
      (rw (same_group_refl g, fresh-remove_group g gs q.2) Perm.rfl)
pending-remove_group lo group (g ∷ gs) q (inr e) = rw (other) (
    Perm.trans (Perm.append_left g.l (pending-remove_group g.niceness group gs q.3 e)) (
      rw (← append_assoc, ← append_assoc)
        (swap_front-Perm group.l g.l (pending (remove_group group gs)))))
  where
    other : same_group g group ≡ false
    other = ground (arith, Elem-same_group g.submitter g.niceness group gs q.2 e)

-- Taking out the request at a position removes that request and no other.
pub pending-remove_job_request :
    (pos : JobRequestPosition) (gs : List JobRequestsGroup)
    → IsQueue gs
    → Elem pos.group gs
    → Elem pos.job pos.group.l
    → Perm (pending gs) (pos.job ∷ pending (remove_job_request pos gs))
unfolding remove_job_request
pending-remove_job_request pos gs q g j = Perm.trans (pending-remove_group 0 pos.group gs q g) (
    Perm.trans (Perm.append_right _ (erase_first-Perm pos.job pos.group.l j)) (
      Perm.cons pos.job (
        Perm.symm (
          pending-requeue pos.group (erase_first pos.job pos.group.l)
            (remove_group pos.group gs)))))
