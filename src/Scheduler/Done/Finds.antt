-- ===== src/Scheduler/Done/Finds.antt =====
-- The job that handle_job_done finds for a message is there, and leaves the queue.
use icecream.Base.{
  ℕ, ◌≡◌, ◌≢◌, ◌==◌, if◌then◌else◌, refl, sym, ap, subst, ◌∙◌, inl, inr, Bool, true, false, Option,
  none, some, List, [], ◌∷◌, All, All-map, All-erase_first, erase_first, if_of_both, if_of_each,
  is_nil, Bool-cases, ==_iff, arith,
}
use icecream.Base.Map.{Map, lookup, AllVals, UniqueKeys-lookup}
use icecream.Job.{Job}
use icecream.Queue.{JobRequestsGroup}
use icecream.Queue.Order.{IsFresh, IsQueueFrom, IsQueueFrom-mono}
use icecream.Queue.Walk.{Distinct}
use icecream.Scheduler.{Scheduler}
use icecream.Scheduler.Speed.{JobDoneMsg}
use icecream.Scheduler.Live.{IsQueued, IsLive}
use icecream.Scheduler.Live.Jobs.{Absent}
use icecream.Scheduler.Live.Requests.{Distinct-erase_first, erase_first-gone, fresh-Absent}
use icecream.Scheduler.Done.{drop_request, waits_for, by_client, find_done, unknown_job_client_id}

drop_request-All {κ} :
    (P : JobRequestsGroup → Type κ) (cs id : ℕ)
    → ((g : JobRequestsGroup) → P g → P (record g { l = erase_first id g.l }))
    → (gs : List JobRequestsGroup) → All P gs
    → All P (drop_request cs id gs)
drop_request-All P cs id keep [] h = tt
drop_request-All P cs id keep (g ∷ gs) h =
    if_of_both (All P) (g.submitter == cs) _ _
      (if_of_both (All P) (is_nil (erase_first id g.l)) _ _ h.1
        (keep g h.0, drop_request-All P cs id keep gs h.1))
      (h.0, drop_request-All P cs id keep gs h.1)

drop_request-IsFresh :
    (cs id a b : ℕ) (gs : List JobRequestsGroup)
    → IsFresh a b gs
    → IsFresh a b (drop_request cs id gs)
drop_request-IsFresh cs id a b [] f = tt
drop_request-IsFresh cs id a b (g ∷ gs) f = ground (arith, drop_request-IsFresh cs id a b gs f.1)

is_nil-false : (l : List ℕ) → is_nil l ≡ false → l ≢ []
is_nil-false [] h e = cc
is_nil-false (x ∷ l) h e = cc

drop_request-IsQueueFrom :
    (lo cs id : ℕ) (gs : List JobRequestsGroup)
    → IsQueueFrom lo gs
    → IsQueueFrom lo (drop_request cs id gs)
drop_request-IsQueueFrom lo cs id [] q = tt
drop_request-IsQueueFrom lo cs id (g ∷ gs) q =
    let fresh = drop_request-IsFresh cs id g.submitter g.niceness gs q.2 in
    let rest = drop_request-IsQueueFrom g.niceness cs id gs q.3 in
    elim (Bool-cases (g.submitter == cs)) [
      | inr other ↦ rw other (q.0, q.1, fresh, rest)
      | inl own ↦ elim (Bool-cases (is_nil (erase_first id g.l))) [
        | inl empty ↦ rw (own, empty) (IsQueueFrom-mono lo g.niceness gs q.0 q.3)
        | inr more ↦ rw (own, more) (q.0, is_nil-false (erase_first id g.l) more, fresh, rest)
      ]
    ]

-- A list that one job empties held that job alone.
emptied : (id : ℕ) (l : List ℕ) → l ≢ [] → is_nil (erase_first id l) ≡ true → l ≡ id ∷ []
emptied id [] h e = absurd (h refl)
emptied id (x ∷ []) h e = ground (arith, ==_iff x id)
emptied id (x ∷ y ∷ l) h e = ground arith

drop_request-Absent :
    (jobs : Map Job) (cs id lo : ℕ) (job : Job) (gs : List JobRequestsGroup)
    → lookup id jobs ≡ some job
    → (job.submitter == cs) ≡ true
    → IsQueueFrom lo gs
    → All (λ g. Distinct g.l) gs
    → All (λ g. All (IsQueued jobs g) g.l) gs
    → Absent id (drop_request cs id gs)
drop_request-Absent jobs cs id lo job [] e own q d h = tt
drop_request-Absent jobs cs id lo job (g ∷ gs) e own q d h =
    let rest = drop_request-Absent jobs cs id g.niceness job gs e own q.3 d.1 h.1 in
    elim (Bool-cases (g.submitter == cs)) [
      | inr other ↦ rw other (
        All-map (IsQueued jobs g) (λ k. (id == k) ≡ false) g.l
            (λ k (job', e', b', n', f'). ground (arith, ==_iff id k)) h.0,
        rest,
      )
      | inl mine ↦ elim (Bool-cases (is_nil (erase_first id g.l))) [
        | inl empty ↦
            rw (mine, empty)
              (fresh-Absent jobs g id
                (subst (All (IsQueued jobs g)) (emptied id g.l q.1 empty) h.0).0 gs q.2 h.1)
        | inr more ↦ rw (mine, more) (erase_first-gone id g.l d.0, rest)
      ]
    ]

module _ (s : Scheduler) where
  abbrev with_requests : List JobRequestsGroup → Scheduler
  with_requests gs = record s { job_requests = gs }

  drop_request-IsLive :
      (cs id : ℕ) (gs : List JobRequestsGroup)
      → IsLive (with_requests gs)
      → IsLive (with_requests (drop_request cs id gs))
  drop_request-IsLive cs id gs v = record {
    unique = v.unique;
    sound = v.sound;
    ordered = drop_request-IsQueueFrom 0 cs id gs v.ordered;
    distinct =
        drop_request-All (λ g. Distinct g.l) cs id (λ g d. Distinct-erase_first id g.l d) gs
          v.distinct;
    queued =
        drop_request-All (λ g. All (IsQueued s.jobs g) g.l) cs id
          (λ g q. All-erase_first (IsQueued s.jobs g) id g.l q) gs v.queued;
  }

  -- The job found is there, waits for a server, and is not in the queue any more.
  abbrev pub Found : Option Job → List JobRequestsGroup → Type 0
  Found none gs = Unit
  Found (some job) gs = (lookup job.id s.jobs ≡ some job) × Absent job.id gs

  drop_request-Found :
      (cs id : ℕ) (found : Option Job) (gs : List JobRequestsGroup)
      → Found found gs
      → Found found (drop_request cs id gs)
  drop_request-Found cs id none gs h = tt
  drop_request-Found cs id (some job) gs h = (
    h.0,
    drop_request-All (λ g. All (λ k. (job.id == k) ≡ false) g.l) cs id
        (λ g a. All-erase_first (λ k. (job.id == k) ≡ false) id g.l a) gs h.1,
  )

  -- One round of the search.
  search_step :
      (cs client_id id : ℕ) (job : Job) (found : Option Job) (gs : List JobRequestsGroup)
      → lookup id s.jobs ≡ some job
      → IsLive (with_requests gs)
      → Found found gs
      → (hit : Bool) → waits_for cs client_id job ≡ hit
      → IsLive (with_requests (if hit then drop_request cs id gs else gs))
        × Found (if hit then some job else found) (if hit then drop_request cs id gs else gs)
  search_step cs client_id id job found gs e v h false no_hit = (v, h)
  search_step cs client_id id job found gs e v h true hit =
      let i : job.id ≡ id = (v.sound id job e).own_id in
      (
        drop_request-IsLive cs id gs v,
        (
          ap (λ k. lookup k s.jobs) i ∙ e,
          subst (λ k. Absent k (drop_request cs id gs)) (sym i)
              (drop_request-Absent s.jobs cs id 0 job gs e (ground arith) v.ordered v.distinct
                v.queued),
        ),
      )

  by_client-keeps :
      (cs client_id : ℕ) (jobs : Map Job) (found : Option Job) (gs : List JobRequestsGroup)
      → AllVals (λ id job. lookup id s.jobs ≡ some job) jobs
      → IsLive (with_requests gs)
      → Found found gs
      → let r = by_client cs client_id jobs found gs in IsLive (with_requests r.1) × Found r.0 r.1
  by_client-keeps cs client_id [] found gs all v h = (v, h)
  by_client-keeps cs client_id ((id, job) ∷ jobs) found gs all v h =
      let hit = waits_for cs client_id job in
      let (v', h') = search_step cs client_id id job found gs all.0 v h hit refl in
      by_client-keeps cs client_id jobs (if hit then some job else found)
        (if hit then drop_request cs id gs else gs) all.1 v' h'

Found-by_id :
    (s : Scheduler) (id : ℕ) (o : Option Job)
    → IsLive s
    → Absent id s.job_requests
    → lookup id s.jobs ≡ o
    → Found s o s.job_requests
Found-by_id s id none v a e = tt
Found-by_id s id (some job) v a e =
    let i = sym (v.sound id job e).own_id in
    (subst (λ k. lookup k s.jobs ≡ some job) i e, subst (λ k. Absent k s.job_requests) i a)

-- The job that a message is about is there, and is not in the queue any more.
pub find_done-keeps :
    (cs : ℕ) (m : JobDoneMsg) (s : Scheduler)
    → IsLive s
    → (unknown_job_client_id m ≡ 0 → Absent m.job_id s.job_requests)
    → let r = find_done cs m s in IsLive r.1 × Found r.1 r.0 r.1.job_requests
unfolding find_done
find_done-keeps cs m s v h =
    if_of_each (λ (r : Option Job × Scheduler). IsLive r.1 × Found r.1 r.0 r.1.job_requests)
      (unknown_job_client_id m == 0) _ _
      (λ known. (v, Found-by_id s m.job_id (lookup m.job_id s.jobs) v (h (ground arith)) refl))
      (λ by_name.
        by_client-keeps s cs (unknown_job_client_id m) s.jobs none s.job_requests
          (UniqueKeys-lookup s.jobs v.unique) v tt)
