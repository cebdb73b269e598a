-- ===== src/Scheduler/Live/Requests.antt =====
-- What the functions of the queue do to the invariant.
use icecream.Base.{
  ℕ, ltb, ◌≡◌, refl, subst, inl, inr, true, false, ◌==◌, ◌&&◌, ==_iff, List, [], ◌∷◌, ◌++◌, All,
  All-map, All-elem, All-append, All-both, Elem, contains, contains-append, erase_first,
  All-erase_first, Bool-cases, arith,
}
use icecream.Base.Map.{Map}
use icecream.Job.{Job}
use icecream.Queue.{
  JobRequestsGroup, JobRequestPosition, new_group, enqueue_job_request, enqueue_job_requests_group,
  remove_group, requeue, remove_job_request,
}
use icecream.Queue.Order.{
  IsFresh, enqueue_job_request-IsQueue, remove_job_request-IsQueue, remove_group-IsFresh_self,
}
use icecream.Queue.Walk.{Distinct}
use icecream.Scheduler.{Scheduler}
use icecream.Scheduler.Live.{IsQueued, IsLive}
use icecream.Scheduler.Live.Jobs.{Absent}

-- A property of all groups, through each of the functions.
enqueue_job_request-All {κ μ} :
    (P : JobRequestsGroup → Type κ) (Q : JobRequestsGroup → Type μ) (s n j : ℕ)
    → ((g : JobRequestsGroup) → P g → Q g)
    → ((g : JobRequestsGroup)
        → (g.submitter == s && g.niceness == n) ≡ true
        → P g
        → Q (record g { l = g.l ++ j ∷ [] }))
    → Q (new_group s n j)
    → (gs : List JobRequestsGroup) → All P gs
    → All Q (enqueue_job_request s n j gs)
unfolding enqueue_job_request
enqueue_job_request-All P Q s n j keep grow new [] h = (new, tt)
enqueue_job_request-All P Q s n j keep grow new (g ∷ gs) h =
    elim (Bool-cases (g.submitter == s && g.niceness == n)) [
      | inl same ↦ rw same (grow g same h.0, All-map P Q gs keep h.1)
      | inr other ↦ elim (Bool-cases (ltb n g.niceness)) [
        | inl before ↦ rw (other, before) (new, All-map P Q (g ∷ gs) keep h)
        | inr after ↦
            rw (other, after) (keep g h.0, enqueue_job_request-All P Q s n j keep grow new gs h.1)
      ]
    ]

enqueue_job_requests_group-All {κ} :
    (P : JobRequestsGroup → Type κ) (group : JobRequestsGroup) (gs : List JobRequestsGroup)
    → P group
    → All P gs
    → All P (enqueue_job_requests_group group gs)
unfolding enqueue_job_requests_group
enqueue_job_requests_group-All P group [] p h = (p, tt)
enqueue_job_requests_group-All P group (g ∷ gs) p h =
    ground (arith, enqueue_job_requests_group-All P group gs p h.1)

remove_group-All {κ} :
    (P : JobRequestsGroup → Type κ) (group : JobRequestsGroup) (gs : List JobRequestsGroup)
    → All P gs
    → All P (remove_group group gs)
remove_group-All P group [] h = tt
remove_group-All P group (g ∷ gs) h = ground (arith, remove_group-All P group gs h.1)

requeue-All {κ} :
    (P : JobRequestsGroup → Type κ) (group : JobRequestsGroup) (l : List ℕ)
    (gs : List JobRequestsGroup)
    → P (record group { l = l })
    → All P gs
    → All P (requeue group l gs)
requeue-All P group [] gs p h = h
requeue-All P group (j ∷ l) gs p h =
    enqueue_job_requests_group-All P (record group { l = j ∷ l }) gs p h

remove_job_request-All {κ} :
    (P : JobRequestsGroup → Type κ) (pos : JobRequestPosition) (gs : List JobRequestsGroup)
    → P (record pos.group { l = erase_first pos.job pos.group.l })
    → All P (remove_group pos.group gs)
    → All P (remove_job_request pos gs)
unfolding remove_job_request
remove_job_request-All P pos gs p h =
    requeue-All P pos.group (erase_first pos.job pos.group.l) (remove_group pos.group gs) p h

Distinct-append_one :
    (j : ℕ) (l : List ℕ) → All (λ k. (j == k) ≡ false) l → Distinct l → Distinct (l ++ j ∷ [])
Distinct-append_one j [] a d = (refl, tt)
Distinct-append_one j (x ∷ l) a d =
    (ground (arith, contains-append x l (j ∷ []), d.0, a.0), Distinct-append_one j l a.1 d.1)

contains-erase_first :
    (j k : ℕ) (l : List ℕ) → contains k l ≡ false → contains k (erase_first j l) ≡ false
contains-erase_first j k [] h = h
contains-erase_first j k (x ∷ l) h = ground (arith, contains-erase_first j k l)

pub Distinct-erase_first : (j : ℕ) (l : List ℕ) → Distinct l → Distinct (erase_first j l)
Distinct-erase_first j [] d = tt
Distinct-erase_first j (x ∷ l) d =
    ground (arith, Distinct-erase_first j l d.1, contains-erase_first j x l d.0)

missing-All : (j : ℕ) (l : List ℕ) → contains j l ≡ false → All (λ k. (j == k) ≡ false) l
missing-All j [] h = tt
missing-All j (x ∷ l) h = (ground arith, missing-All j l (ground arith))

-- After its first copy no other copy of a job is left.
pub erase_first-gone :
    (j : ℕ) (l : List ℕ) → Distinct l → All (λ k. (j == k) ≡ false) (erase_first j l)
erase_first-gone j [] d = tt
erase_first-gone j (x ∷ l) d = elim (Bool-cases (x == j)) [
  | inl hit ↦ rw hit (missing-All j l (subst (λ y. contains y l ≡ false) ((==_iff x j).0 hit) d.0))
  | inr miss ↦ rw miss (ground arith, erase_first-gone j l d.1)
]

-- A queued job is in one group only.
pub fresh-Absent :
    (jobs : Map Job) (g : JobRequestsGroup) (id : ℕ)
    → IsQueued jobs g id
    → (gs : List JobRequestsGroup) → IsFresh g.submitter g.niceness gs
    → All (λ h. All (IsQueued jobs h) h.l) gs
    → Absent id gs
fresh-Absent jobs g id (job, e, b, n, f) [] fresh q = tt
fresh-Absent jobs g id (job, e, b, n, f) (h ∷ gs) fresh q = (
  All-map (IsQueued jobs h) (λ k. (id == k) ≡ false) h.l
      (λ k (job', e', b', n', f'). ground (arith, ==_iff id k)) q.0,
  fresh-Absent jobs g id (job, e, b, n, f) gs fresh.1 q.1,
)

joins :
    (jobs : Map Job) (b n j : ℕ) (g : JobRequestsGroup)
    → (g.submitter == b && g.niceness == n) ≡ true
    → IsQueued jobs (new_group b n j) j
    → IsQueued jobs g j
joins jobs b n j g same (job, e, own, rank, f) = (job, e, ground arith, ground arith, f)

module _ (s : Scheduler) (v : IsLive s) where
  pub enqueue-IsLive :
      (b n j : ℕ)
      → Absent j s.job_requests
      → IsQueued s.jobs (new_group b n j) j
      → IsLive (record s { job_requests = enqueue_job_request b n j s.job_requests })
  enqueue-IsLive b n j a q = record {
    unique = v.unique;
    sound = v.sound;
    ordered = enqueue_job_request-IsQueue b n j s.job_requests v.ordered;
    distinct =
        enqueue_job_request-All (λ g. Distinct g.l × All (λ k. (j == k) ≡ false) g.l)
          (λ g. Distinct g.l) b n j (λ g h. h.0) (λ g same h. Distinct-append_one j g.l h.1 h.0)
          (refl, tt) s.job_requests
          (All-both (λ g. Distinct g.l) (λ g. All (λ k. (j == k) ≡ false) g.l) s.job_requests
            v.distinct a);
    queued =
        enqueue_job_request-All (λ g. All (IsQueued s.jobs g) g.l)
          (λ g. All (IsQueued s.jobs g) g.l) b n j (λ g h. h)
          (λ g same h.
            All-append (IsQueued s.jobs g) g.l (j ∷ []) h (joins s.jobs b n j g same q, tt))
          (q, tt) s.job_requests v.queued;
  }

  -- The request at a position leaves the queue, and its job is not in it any more.
  pub remove-IsLive :
      (pos : JobRequestPosition)
      → Elem pos.group s.job_requests
      → IsLive (record s { job_requests = remove_job_request pos s.job_requests })
  remove-IsLive pos at_ = record {
    unique = v.unique;
    sound = v.sound;
    ordered = remove_job_request-IsQueue pos s.job_requests v.ordered;
    distinct =
        remove_job_request-All (λ g. Distinct g.l) pos s.job_requests
          (Distinct-erase_first pos.job pos.group.l
            (All-elem (λ g. Distinct g.l) pos.group s.job_requests v.distinct at_))
          (remove_group-All (λ g. Distinct g.l) pos.group s.job_requests v.distinct);
    queued =
        remove_job_request-All (λ g. All (IsQueued s.jobs g) g.l) pos s.job_requests
          (All-erase_first (IsQueued s.jobs pos.group) pos.job pos.group.l
            (All-elem (λ g. All (IsQueued s.jobs g) g.l) pos.group s.job_requests v.queued at_))
          (remove_group-All (λ g. All (IsQueued s.jobs g) g.l) pos.group s.job_requests v.queued);
  }

  pub remove-Absent :
      (pos : JobRequestPosition)
      → Elem pos.group s.job_requests
      → Elem pos.job pos.group.l
      → Absent pos.job (remove_job_request pos s.job_requests)
  remove-Absent pos at_ in_ =
      let q = All-elem (λ g. All (IsQueued s.jobs g) g.l) pos.group s.job_requests v.queued at_ in
      remove_job_request-All (λ g. All (λ k. (pos.job == k) ≡ false) g.l) pos s.job_requests
        (erase_first-gone pos.job pos.group.l
          (All-elem (λ g. Distinct g.l) pos.group s.job_requests v.distinct at_))
        (fresh-Absent s.jobs pos.group pos.job
          (All-elem (IsQueued s.jobs pos.group) pos.job pos.group.l q in_)
          (remove_group pos.group s.job_requests)
          (remove_group-IsFresh_self pos.group s.job_requests)
          (remove_group-All (λ g. All (IsQueued s.jobs g) g.l) pos.group s.job_requests v.queued))
