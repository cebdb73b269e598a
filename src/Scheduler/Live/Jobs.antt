-- ===== src/Scheduler/Live/Jobs.antt =====
-- What a change of the map of jobs does to the invariant.
use icecream.Base.{
  ℕ, ◌≡◌, sym, ap, ◌∙◌, subst, inl, inr, false, ◌==◌, ==_iff, none, some, List, [], ◌∷◌, All,
  All-map, contains, contains-append, ◌++◌, Option, Bool-cases, Option-cases, arith, suc,
}
use icecream.Base.Map.{
  Map, lookup, insert, erase, update, lookup-insert, lookup-erase, lookup-update, insert-UniqueKeys,
  erase-UniqueKeys, update-UniqueKeys,
}
use icecream.Job.{Job}
use icecream.Queue.{JobRequestsGroup}
use icecream.Scheduler.{Scheduler, with_job}
use icecream.Scheduler.Live.{IsKnown, IsSound, IsQueued, IsLive}

-- The job is not in the queue.
abbrev pub Absent : ℕ → List JobRequestsGroup → Type 0
Absent id gs = All (λ g. All (λ k. (id == k) ≡ false) g.l) gs

-- What a setter of a queued job must leave alone.
pub record SameJob (a b : Job) : Type 0 where
  pub id : b.id ≡ a.id
  pub submitter : b.submitter ≡ a.submitter
  pub niceness : b.niceness ≡ a.niceness
  pub server : b.server ≡ a.server

-- The requests for other jobs stay what they are.
IsQueued-elsewhere :
    (id : ℕ) (jobs jobs' : Map Job)
    → ((k : ℕ) → (id == k) ≡ false → lookup k jobs' ≡ lookup k jobs)
    → (g : JobRequestsGroup) (l : List ℕ) → All (λ k. (id == k) ≡ false) l
    → All (IsQueued jobs g) l
    → All (IsQueued jobs' g) l
IsQueued-elsewhere id jobs jobs' same g [] a q = tt
IsQueued-elsewhere id jobs jobs' same g (k ∷ l) a ((job, e, b, n, f), q) =
    ((job, same k a.0 ∙ e, b, n, f), IsQueued-elsewhere id jobs jobs' same g l a.1 q)

IsQueued-groups-elsewhere :
    (id : ℕ) (jobs jobs' : Map Job)
    → ((k : ℕ) → (id == k) ≡ false → lookup k jobs' ≡ lookup k jobs)
    → (gs : List JobRequestsGroup) → Absent id gs
    → All (λ g. All (IsQueued jobs g) g.l) gs
    → All (λ g. All (IsQueued jobs' g) g.l) gs
IsQueued-groups-elsewhere id jobs jobs' same [] a q = tt
IsQueued-groups-elsewhere id jobs jobs' same (g ∷ gs) a q = (
  IsQueued-elsewhere id jobs jobs' same g g.l a.0 q.0,
  IsQueued-groups-elsewhere id jobs jobs' same gs a.1 q.1,
)

-- A job that could not be in the queue is not there.
pub unqueued-Absent :
    (id : ℕ) (jobs : Map Job) (gs : List JobRequestsGroup)
    → ((g : JobRequestsGroup) → ¬ IsQueued jobs g id)
    → All (λ g. All (IsQueued jobs g) g.l) gs
    → Absent id gs
unqueued-Absent id jobs gs never =
    All-map (λ g. All (IsQueued jobs g) g.l) (λ g. All (λ k. (id == k) ≡ false) g.l) gs
      (λ g.
        All-map (IsQueued jobs g) (λ k. (id == k) ≡ false) g.l
          (λ k q. elim (Bool-cases (id == k)) [
            | inr other ↦ other
            | inl same ↦ absurd (never g (subst (IsQueued jobs g) (sym ((==_iff id k).0 same)) q))
          ]))

IsKnown-connect :
    (css : List ℕ) (p : ℕ) (server : Option ℕ) → IsKnown css server → IsKnown (css ++ p ∷ []) server
IsKnown-connect css p none h = tt
IsKnown-connect css p (some q) h = ground (arith, contains-append q css (p ∷ []))

IsSound-connect :
    (css : List ℕ) (p top k : ℕ) (job : Job)
    → IsSound css top k job
    → IsSound (css ++ p ∷ []) top k job
IsSound-connect css p top k job h = record {
  own_id = h.own_id;
  numbered = h.numbered;
  from_known = ground (arith, contains-append job.submitter css (p ∷ []), h.from_known);
  on_known = IsKnown-connect css p job.server h.on_known;
}

IsSound-later :
    (css : List ℕ) (top k : ℕ) (job : Job) → IsSound css top k job → IsSound css (suc top) k job
IsSound-later css top k job h = record {
  own_id = h.own_id;
  numbered = omega (arith, h.numbered);
  from_known = h.from_known;
  on_known = h.on_known;
}

-- An update shows in what the key finds.
updated :
    (id : ℕ) (f : Job → Job) (jobs : Map Job) (job : Job)
    → lookup id (update id f jobs) ≡ some job
    → (old : Job) × (lookup id jobs ≡ some old) × (job ≡ f old)
updated id f jobs job e = elim (Option-cases (lookup id jobs)) [
  | inl missing ↦ ground (arith, lookup-update id id f jobs)
  | inr (old, found) ↦ (old, found, ground (arith, lookup-update id id f jobs))
]

module _ (s : Scheduler) (v : IsLive s) where
  pub new-Absent : (id : ℕ) → lookup id s.jobs ≡ none → Absent id s.job_requests
  new-Absent id e = unqueued-Absent id s.jobs s.job_requests (λ g (job, f, _, _, _). cc) v.queued

  pub served-Absent :
      (id p : ℕ) (job : Job)
      → lookup id s.jobs ≡ some job
      → job.server ≡ some p
      → Absent id s.job_requests
  served-Absent id p job e h =
      unqueued-Absent id s.jobs s.job_requests (λ g (other, f, _, _, n). ground arith) v.queued

  pub erase-IsLive :
      (id : ℕ) → Absent id s.job_requests → IsLive (record s { jobs = erase id s.jobs })
  erase-IsLive id a = record {
    unique = erase-UniqueKeys id s.jobs v.unique;
    sound = λ k job e. v.sound k job (ground (arith, lookup-erase k id s.jobs));
    ordered = v.ordered;
    distinct = v.distinct;
    queued =
        IsQueued-groups-elsewhere id s.jobs (erase id s.jobs)
          (λ k n. ground (arith, lookup-erase k id s.jobs)) s.job_requests a v.queued;
  }

  -- A job that is not in the queue may change as long as it stays sound.
  pub update-IsLive :
      (id : ℕ) (f : Job → Job)
      → Absent id s.job_requests
      → ((job : Job) → lookup id s.jobs ≡ some job → IsSound s.css s.new_job_id id (f job))
      → IsLive (with_job id f s)
  update-IsLive id f a h = record {
    unique = update-UniqueKeys id f s.jobs v.unique;
    sound = λ k job e. elim (Bool-cases (id == k)) [
      | inr other ↦ v.sound k job (ground (arith, lookup-update k id f s.jobs))
      | inl same ↦
          let i : id ≡ k = (==_iff id k).0 same in
          let (old, before, after) =
            updated id f s.jobs job (ap (λ j. lookup j (update id f s.jobs)) i ∙ e) in
          subst (λ j. IsSound s.css s.new_job_id j job) i
            (subst (IsSound s.css s.new_job_id id) (sym after) (h old before))
    ];
    ordered = v.ordered;
    distinct = v.distinct;
    queued =
        IsQueued-groups-elsewhere id s.jobs (update id f s.jobs)
          (λ k n. ground (arith, lookup-update k id f s.jobs)) s.job_requests a v.queued;
  }

  -- A server may connect.
  pub connect-IsLive : (p : ℕ) → IsLive (record s { css = s.css ++ p ∷ [] })
  connect-IsLive p = record {
    unique = v.unique;
    sound = λ k job e. IsSound-connect s.css p s.new_job_id k job (v.sound k job e);
    ordered = v.ordered;
    distinct = v.distinct;
    queued = v.queued;
  }

  -- The next id is free.
  pub lookup-next : lookup (suc s.new_job_id) s.jobs ≡ none
  lookup-next = elim (Option-cases (lookup (suc s.new_job_id) s.jobs)) [
    | inl missing ↦ missing
    | inr (other, e) ↦ absurd (omega (arith, (v.sound (suc s.new_job_id) other e).numbered))
  ]

  -- An id may be skipped.
  pub later-IsLive : IsLive (record s { new_job_id = suc s.new_job_id })
  later-IsLive = record {
    unique = v.unique;
    sound = λ k job e. IsSound-later s.css s.new_job_id k job (v.sound k job e);
    ordered = v.ordered;
    distinct = v.distinct;
    queued = v.queued;
  }

  -- A new job gets the next id.
  pub insert-IsLive :
      (job : Job)
      → IsSound s.css (suc s.new_job_id) (suc s.new_job_id) job
      → IsLive
          (record s { new_job_id = suc s.new_job_id; jobs = insert (suc s.new_job_id) job s.jobs })
  insert-IsLive job h =
      let id = suc s.new_job_id in
      let new = lookup-next in
      record {
        unique = insert-UniqueKeys id job s.jobs new v.unique;
        sound = λ k other e. elim (Bool-cases (id == k)) [
          | inl same ↦
              let i : id ≡ k = (==_iff id k).0 same in
              let it : job ≡ other = ground (arith, lookup-insert k id job s.jobs) in
              subst (λ j. IsSound s.css id j other) i (subst (IsSound s.css id id) it h)
          | inr old ↦
              IsSound-later s.css s.new_job_id k other
                (v.sound k other (ground (arith, lookup-insert k id job s.jobs)))
        ];
        ordered = v.ordered;
        distinct = v.distinct;
        queued =
            IsQueued-groups-elsewhere id s.jobs (insert id job s.jobs)
              (λ k n. ground (arith, lookup-insert k id job s.jobs)) s.job_requests
              (new-Absent id new) v.queued;
      }

  -- A setter keeps the job in its place in the queue, if it is there.
  touch-IsQueued :
      (id : ℕ) (f : Job → Job)
      → ((job : Job) → SameJob job (f job))
      → (g : JobRequestsGroup) (k : ℕ) → IsQueued s.jobs g k
      → IsQueued (update id f s.jobs) g k
  touch-IsQueued id f same g k (job, e, b, n, h) = elim (Bool-cases (id == k)) [
    | inr other ↦ (job, ground (arith, lookup-update k id f s.jobs), b, n, h)
    | inl hit ↦
        let w = same job in
        (
          f job,
          ground (arith, lookup-update k id f s.jobs),
          w.submitter ∙ b,
          w.niceness ∙ n,
          w.server ∙ h,
        )
  ]

  touch-IsSound :
      (id : ℕ) (f : Job → Job)
      → ((job : Job) → SameJob job (f job))
      → (k : ℕ) (job : Job) → lookup k (update id f s.jobs) ≡ some job
      → IsSound s.css s.new_job_id k job
  touch-IsSound id f same k job e = elim (Bool-cases (id == k)) [
    | inr other ↦ v.sound k job (ground (arith, lookup-update k id f s.jobs))
    | inl hit ↦
        let i : id ≡ k = (==_iff id k).0 hit in
        let (old, before, after) =
          updated id f s.jobs job (ap (λ j. lookup j (update id f s.jobs)) i ∙ e) in
        let w = same old in
        let was = v.sound id old before in
        subst (λ j. IsSound s.css s.new_job_id j job) i
          (subst (IsSound s.css s.new_job_id id) (sym after) (record {
            own_id = w.id ∙ was.own_id;
            numbered = was.numbered;
            from_known = ap (λ p. contains p s.css) w.submitter ∙ was.from_known;
            on_known = subst (IsKnown s.css) (sym w.server) was.on_known;
          }))
  ]

  pub touch-IsLive :
      (id : ℕ) (f : Job → Job) → ((job : Job) → SameJob job (f job)) → IsLive (with_job id f s)
  touch-IsLive id f same = record {
    unique = update-UniqueKeys id f s.jobs v.unique;
    sound = touch-IsSound id f same;
    ordered = v.ordered;
    distinct = v.distinct;
    queued =
        All-map (λ g. All (IsQueued s.jobs g) g.l) (λ g. All (IsQueued (update id f s.jobs) g) g.l)
          s.job_requests
          (λ g.
            All-map (IsQueued s.jobs g) (IsQueued (update id f s.jobs) g) g.l
              (touch-IsQueued id f same g))
          v.queued;
  }
