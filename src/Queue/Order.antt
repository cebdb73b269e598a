-- ===== src/Queue/Order.antt =====
-- The order of job_requests: niceness rises, no group is empty, no two groups share submitter and
-- niceness. Every function of the queue keeps this.
use icecream.Base.{
  ℕ, ltb, ◌==◌, ◌&&◌, ◌≤◌, ◌<◌, ◌≡◌, ◌≢◌, refl, false, List, [], ◌∷◌, ◌++◌, All, Bool-cases,
  erase_first, inl, inr, arith,
}
use icecream.Queue.{
  JobRequestsGroup, JobRequestPosition, same_group, enqueue_job_request, enqueue_job_requests_group,
  remove_group, requeue, remove_job_request,
}

-- No group of the list has this submitter and niceness.
abbrev pub IsFresh : ℕ → ℕ → List JobRequestsGroup → Type 0
IsFresh submitter niceness [] = Unit
IsFresh submitter niceness (g ∷ gs) =
    ((g.submitter == submitter && g.niceness == niceness) ≡ false) × IsFresh submitter niceness gs

abbrev pub IsQueueFrom : ℕ → List JobRequestsGroup → Type 0
IsQueueFrom lo [] = Unit
IsQueueFrom lo (g ∷ gs) =
    (lo ≤ g.niceness) × (g.l ≢ []) × IsFresh g.submitter g.niceness gs × IsQueueFrom g.niceness gs

abbrev pub IsQueue : List JobRequestsGroup → Type 0
IsQueue = IsQueueFrom 0

pub IsQueueFrom-mono :
    (m n : ℕ) (gs : List JobRequestsGroup) → m ≤ n → IsQueueFrom n gs → IsQueueFrom m gs
IsQueueFrom-mono m n [] h q = tt
IsQueueFrom-mono m n (g ∷ gs) h q = (omega arith, q.1, q.2, q.3)

-- A group of lower priority cannot clash with any behind it.
below-IsFresh :
    (submitter niceness lo : ℕ) (gs : List JobRequestsGroup)
    → niceness < lo
    → IsQueueFrom lo gs
    → IsFresh submitter niceness gs
below-IsFresh s n lo [] h q = tt
below-IsFresh s n lo (g ∷ gs) h q =
    (ground arith, below-IsFresh s n g.niceness gs (omega arith) q.3)

enqueue_job_request-IsFresh :
    (s n j a b : ℕ) (gs : List JobRequestsGroup)
    → (s == a && n == b) ≡ false
    → IsFresh a b gs
    → IsFresh a b (enqueue_job_request s n j gs)
unfolding enqueue_job_request
enqueue_job_request-IsFresh s n j a b [] h f = (h, tt)
enqueue_job_request-IsFresh s n j a b (g ∷ gs) h f =
    ground (arith, enqueue_job_request-IsFresh s n j a b gs h f.1)

append-ne-nil : (xs : List ℕ) (j : ℕ) → (xs ++ j ∷ []) ≢ []
append-ne-nil [] j e = cc
append-ne-nil (x ∷ xs) j e = cc

enqueue_job_request-IsQueueFrom :
    (lo s n j : ℕ) (gs : List JobRequestsGroup)
    → lo ≤ n
    → IsQueueFrom lo gs
    → IsQueueFrom lo (enqueue_job_request s n j gs)
unfolding enqueue_job_request
enqueue_job_request-IsQueueFrom lo s n j [] h q = (h, λ e. cc, tt, tt)
enqueue_job_request-IsQueueFrom lo s n j (g ∷ gs) h q =
    elim (Bool-cases (g.submitter == s && g.niceness == n)) [
      | inl same ↦ rw same (q.0, append-ne-nil g.l j, q.2, q.3)
      | inr other ↦ elim (Bool-cases (ltb n g.niceness)) [
        | inl before ↦
            rw (other, before)
              (
                h,
                λ e. cc,
                (other, below-IsFresh s n g.niceness gs (ground arith) q.3),
                (ground arith, q.1, q.2, q.3),
              )
        | inr after ↦
            rw (other, after)
              (
                q.0,
                q.1,
                enqueue_job_request-IsFresh s n j g.submitter g.niceness gs (ground arith) q.2,
                enqueue_job_request-IsQueueFrom g.niceness s n j gs (ground arith) q.3,
              )
      ]
    ]

-- A new request keeps the queue in order.
pub enqueue_job_request-IsQueue :
    (submitter niceness job : ℕ) (gs : List JobRequestsGroup)
    → IsQueue gs
    → IsQueue (enqueue_job_request submitter niceness job gs)
enqueue_job_request-IsQueue s n j gs q = enqueue_job_request-IsQueueFrom 0 s n j gs (omega arith) q

group-IsFresh :
    (group : JobRequestsGroup) (a b : ℕ) (gs : List JobRequestsGroup)
    → (group.submitter == a && group.niceness == b) ≡ false
    → IsFresh a b gs
    → IsFresh a b (enqueue_job_requests_group group gs)
unfolding enqueue_job_requests_group
group-IsFresh group a b [] h f = (h, tt)
group-IsFresh group a b (g ∷ gs) h f = ground (arith, group-IsFresh group a b gs h f.1)

group-IsQueueFrom :
    (lo : ℕ) (group : JobRequestsGroup) (gs : List JobRequestsGroup)
    → lo ≤ group.niceness
    → group.l ≢ []
    → IsFresh group.submitter group.niceness gs
    → IsQueueFrom lo gs
    → IsQueueFrom lo (enqueue_job_requests_group group gs)
unfolding enqueue_job_requests_group
group-IsQueueFrom lo group [] h e f q = (h, e, tt, tt)
group-IsQueueFrom lo group (g ∷ gs) h e f q = elim (Bool-cases (ltb group.niceness g.niceness)) [
  | inl before ↦ rw before (h, e, f, (ground arith, q.1, q.2, q.3))
  | inr after ↦ rw after (
    q.0,
    q.1,
    group-IsFresh group g.submitter g.niceness gs (ground arith) q.2,
    group-IsQueueFrom g.niceness group gs (ground arith) e f.1 q.3,
  )
]

remove_group-IsFresh :
    (group : JobRequestsGroup) (a b : ℕ) (gs : List JobRequestsGroup)
    → IsFresh a b gs
    → IsFresh a b (remove_group group gs)
remove_group-IsFresh group a b [] f = tt
remove_group-IsFresh group a b (g ∷ gs) f = ground (arith, remove_group-IsFresh group a b gs f.1)

pub remove_group-IsFresh_self :
    (group : JobRequestsGroup) (gs : List JobRequestsGroup)
    → IsFresh group.submitter group.niceness (remove_group group gs)
remove_group-IsFresh_self group [] = tt
remove_group-IsFresh_self group (g ∷ gs) = ground (arith, remove_group-IsFresh_self group gs)

remove_group-IsQueueFrom :
    (lo : ℕ) (group : JobRequestsGroup) (gs : List JobRequestsGroup)
    → IsQueueFrom lo gs
    → IsQueueFrom lo (remove_group group gs)
remove_group-IsQueueFrom lo group [] q = tt
remove_group-IsQueueFrom lo group (g ∷ gs) q =
    let rest = remove_group-IsQueueFrom g.niceness group gs q.3 in
    elim (Bool-cases (same_group g group)) [
      | inl same ↦ rw same (IsQueueFrom-mono lo g.niceness (remove_group group gs) q.0 rest)
      | inr other ↦
          rw other (q.0, q.1, remove_group-IsFresh group g.submitter g.niceness gs q.2, rest)
    ]

requeue-IsQueue :
    (group : JobRequestsGroup) (l : List ℕ) (gs : List JobRequestsGroup)
    → IsFresh group.submitter group.niceness gs
    → IsQueue gs
    → IsQueue (requeue group l gs)
requeue-IsQueue group [] gs f q = q
requeue-IsQueue group (j ∷ l) gs f q =
    group-IsQueueFrom 0 (record group { l = j ∷ l }) gs (omega arith) (λ e. cc) f q

-- Taking a request out, with the rotation of its group, keeps the queue in order.
pub remove_job_request-IsQueue :
    (pos : JobRequestPosition) (gs : List JobRequestsGroup)
    → IsQueue gs
    → IsQueue (remove_job_request pos gs)
unfolding remove_job_request
remove_job_request-IsQueue pos gs q =
    requeue-IsQueue pos.group (erase_first pos.job pos.group.l) (remove_group pos.group gs)
      (remove_group-IsFresh_self pos.group gs) (remove_group-IsQueueFrom 0 pos.group gs q)

-- A rotated group stands behind every group of its priority or a better one, and before the rest.
pub enqueue_job_requests_group-splits :
    (lo : ℕ) (group : JobRequestsGroup) (gs : List JobRequestsGroup)
    → IsQueueFrom lo gs
    → (before after : List JobRequestsGroup) × (gs ≡ before ++ after)
      × (enqueue_job_requests_group group gs ≡ before ++ group ∷ after)
      × All (λ g. g.niceness ≤ group.niceness) before
      × All (λ g. group.niceness < g.niceness) after
unfolding enqueue_job_requests_group
enqueue_job_requests_group-splits lo group [] q = ([], [], refl, refl, tt, tt)
enqueue_job_requests_group-splits lo group (g ∷ gs) q =
    elim (Bool-cases (ltb group.niceness g.niceness)) [
      | inl first ↦ (
        [],
        g ∷ gs,
        refl,
        rw first,
        tt,
        (ground arith, above group g.niceness gs (ground arith) q.3),
      )
      | inr later ↦
          let (before, after, e, f, b, a) =
            enqueue_job_requests_group-splits g.niceness group gs q.3 in
          (g ∷ before, after, cc e, rw later (cc f), (ground arith, b), a)
    ]
  where
    above :
        (group : JobRequestsGroup) (lo : ℕ) (gs : List JobRequestsGroup)
        → group.niceness < lo
        → IsQueueFrom lo gs
        → All (λ h. group.niceness < h.niceness) gs
    above group lo [] h q = tt
    above group lo (g ∷ gs) h q = (omega arith, above group g.niceness gs (omega arith) q.3)
