-- ===== src/Scheduler/End/Loops.antt =====
-- What the loops of handle_end do to the jobs: they erase, and only what hangs on the daemon.
use icecream.Base.{
  ℕ, ◌≡◌, refl, ap, ◌∙◌, ◌⊎◌, inl, inr, true, false, ◌==◌, Option, none, some, List, [], ◌∷◌, All,
  Bool-cases, arith,
}
use icecream.Base.Map.{Map, lookup, erase, UniqueKeys, AllVals, lookup-erase, erase-UniqueKeys}
use icecream.Job.{Job}
use icecream.Queue.{JobRequestsGroup}
use icecream.Scheduler.{Scheduler, Net, mon_job_done, with_server}
use icecream.CompileServer.Methods.{erase_cs_from_blacklist}
use icecream.Scheduler.Notify.{SameWork, SameWork-refl, notify_monitors, notify_monitors-SameWork}
use icecream.Scheduler.End.{
  delete_job, end_request, end_requests, end_groups, hangs_on, leave_server, end_job, end_jobs,
  end_blacklists,
}

-- Jobs may go; nothing else of the work changes.
pub record Drops (s t : Scheduler) : Type 0 where
  pub css : t.css ≡ s.css
  pub job_requests : t.job_requests ≡ s.job_requests
  pub new_job_id : t.new_job_id ≡ s.new_job_id
  pub shrinks : (k : ℕ) → (lookup k t.jobs ≡ none) ⊎ (lookup k t.jobs ≡ lookup k s.jobs)
  pub unique : UniqueKeys s.jobs → UniqueKeys t.jobs

pub Drops-refl : (s : Scheduler) → Drops s s
Drops-refl s = record {
  css = refl;
  job_requests = refl;
  new_job_id = refl;
  shrinks = λ k. inr refl;
  unique = λ u. u;
}

pub Drops-trans : {s t u : Scheduler} → Drops s t → Drops t u → Drops s u
Drops-trans {s} {t} {u} a b = record {
  css = b.css ∙ a.css;
  job_requests = b.job_requests ∙ a.job_requests;
  new_job_id = b.new_job_id ∙ a.new_job_id;
  shrinks = λ k. ground (arith, a.shrinks k, b.shrinks k);
  unique = λ h. b.unique (a.unique h);
}

erase-Drops :
    (id : ℕ) (s t : Scheduler)
    → t.css ≡ s.css
    → t.job_requests ≡ s.job_requests
    → t.new_job_id ≡ s.new_job_id
    → t.jobs ≡ erase id s.jobs
    → Drops s t
erase-Drops id s t c q n j = record {
  css = c;
  job_requests = q;
  new_job_id = n;
  shrinks = λ k. rw j (ground (arith, lookup-erase k id s.jobs));
  unique = λ u. rw j (erase-UniqueKeys id s.jobs u);
}

module _ (net : Net) (toremove : ℕ) where
  end_request-Drops :
      (id : ℕ) (job : Option Job) (s : Scheduler) → Drops s (end_request net toremove id job s)
  unfolding end_request delete_job
  end_request-Drops id none s = Drops-refl s
  end_request-Drops id (some job) s =
      let w = notify_monitors-SameWork net (mon_job_done id 255) s in
      erase-Drops id s _ (ground arith) (ground arith) (ground arith) (ground arith)

  end_requests-Drops : (l : List ℕ) (s : Scheduler) → Drops s (end_requests net toremove l s)
  unfolding end_requests
  end_requests-Drops [] s = Drops-refl s
  end_requests-Drops (id ∷ l) s =
      Drops-trans (end_request-Drops id (lookup id s.jobs) s)
        (end_requests-Drops l (end_request net toremove id (lookup id s.jobs) s))

  pub end_groups-Drops :
      (gs : List JobRequestsGroup) (s : Scheduler) → Drops s (end_groups net toremove gs s)
  unfolding end_groups
  end_groups-Drops [] s = Drops-refl s
  end_groups-Drops (g ∷ gs) s = elim (Bool-cases (g.submitter == toremove)) [
    | inl own ↦ rw own (
        Drops-trans (end_requests-Drops g.l s)
          (end_groups-Drops gs (end_requests net toremove g.l s)))
    | inr other ↦ rw other (end_groups-Drops gs s)
  ]

  -- A request keeps every job but its own.
  end_request-keeps :
      (id : ℕ) (job : Option Job) (s : Scheduler) (k : ℕ)
      → (id == k) ≡ false
      → lookup k (end_request net toremove id job s).jobs ≡ lookup k s.jobs
  unfolding end_request delete_job
  end_request-keeps id none s k h = refl
  end_request-keeps id (some job) s k h =
      ground (arith, lookup-erase k id s.jobs, notify_monitors-SameWork net (mon_job_done id 255) s)

  end_requests-keeps :
      (l : List ℕ) (s : Scheduler) (k : ℕ)
      → All (λ id. (id == k) ≡ false) l
      → lookup k (end_requests net toremove l s).jobs ≡ lookup k s.jobs
  unfolding end_requests
  end_requests-keeps [] s k h = refl
  end_requests-keeps (id ∷ l) s k h =
      end_requests-keeps l (end_request net toremove id (lookup id s.jobs) s) k h.1
      ∙ end_request-keeps id (lookup id s.jobs) s k h.0

  end_groups-own :
      (g : JobRequestsGroup) (gs : List JobRequestsGroup) (s : Scheduler)
      → (g.submitter == toremove) ≡ true
      → end_groups net toremove (g ∷ gs) s
        ≡ end_groups net toremove gs (end_requests net toremove g.l s)
  unfolding end_groups
  end_groups-own g gs s h = rw h refl

  end_groups-other :
      (g : JobRequestsGroup) (gs : List JobRequestsGroup) (s : Scheduler)
      → (g.submitter == toremove) ≡ false
      → end_groups net toremove (g ∷ gs) s ≡ end_groups net toremove gs s
  unfolding end_groups
  end_groups-other g gs s h = rw h refl

  pub end_groups-keeps :
      (gs : List JobRequestsGroup) (s : Scheduler) (k : ℕ)
      → All (λ g. (g.submitter == toremove) ≡ true → All (λ id. (id == k) ≡ false) g.l) gs
      → lookup k (end_groups net toremove gs s).jobs ≡ lookup k s.jobs
  unfolding end_groups
  end_groups-keeps [] s k h = refl
  end_groups-keeps (g ∷ gs) s k h = elim (Bool-cases (g.submitter == toremove)) [
    | inl own ↦
        ap (λ t. lookup k t.jobs) (end_groups-own g gs s own)
        ∙ end_groups-keeps gs (end_requests net toremove g.l s) k h.1
        ∙ end_requests-keeps g.l s k (h.0 own)
    | inr other ↦
        ap (λ t. lookup k t.jobs) (end_groups-other g gs s other) ∙ end_groups-keeps gs s k h.1
  ]

  leave_server-jobs :
      (server : Option ℕ) (id : ℕ) (s : Scheduler)
      → Drops s (leave_server net toremove server id s)
        × ((leave_server net toremove server id s).jobs ≡ s.jobs)
  leave_server-jobs none id s = (Drops-refl s, refl)
  leave_server-jobs (some p) id s = elim (Bool-cases (p == toremove)) [
    | inl own ↦ rw own (
      record {
        css = refl;
        job_requests = refl;
        new_job_id = refl;
        shrinks = λ k. inr refl;
        unique = λ u. u;
      },
      refl,
    )
    | inr other ↦ rw other (
      record {
        css = refl;
        job_requests = refl;
        new_job_id = refl;
        shrinks = λ k. inr refl;
        unique = λ u. u;
      },
      refl,
    )
  ]

  -- A job that hangs on the daemon is erased, with no other effect on the work.
  end_job-erases :
      (id : ℕ) (job : Job) (s : Scheduler)
      → hangs_on net toremove job ≡ true
      → Drops s (end_job net toremove id job s)
        × ((end_job net toremove id job s).jobs ≡ erase id s.jobs)
  unfolding end_job delete_job
  end_job-erases id job s h =
      let w = notify_monitors-SameWork net (mon_job_done id 255) s in
      let (d, j) = leave_server-jobs job.server id (notify_monitors net (mon_job_done id 255) s) in
      rw h (
        erase-Drops id s _ (d.css ∙ w.css) (d.job_requests ∙ w.job_requests)
            (d.new_job_id ∙ w.new_job_id) (ap (erase id) (j ∙ w.jobs)),
        ap (erase id) (j ∙ w.jobs),
      )

  end_job-passes :
      (id : ℕ) (job : Job) (s : Scheduler)
      → hangs_on net toremove job ≡ false
      → end_job net toremove id job s ≡ s
  unfolding end_job
  end_job-passes id job s h = rw h refl

  end_job-Drops : (id : ℕ) (job : Job) (s : Scheduler) → Drops s (end_job net toremove id job s)
  end_job-Drops id job s = elim (Bool-cases (hangs_on net toremove job)) [
    | inl own ↦ (end_job-erases id job s own).0
    | inr other ↦ rw (end_job-passes id job s other) (Drops-refl s)
  ]

  pub end_jobs-Drops : (m : Map Job) (s : Scheduler) → Drops s (end_jobs net toremove m s)
  unfolding end_jobs
  end_jobs-Drops [] s = Drops-refl s
  end_jobs-Drops ((id, job) ∷ m) s =
      Drops-trans (end_job-Drops id job s) (end_jobs-Drops m (end_job net toremove id job s))

  -- A job that hangs on the daemon is gone after the loop.
  pub end_jobs-drops :
      (m : Map Job) (s : Scheduler) (k : ℕ) (job : Job)
      → lookup k m ≡ some job
      → hangs_on net toremove job ≡ true
      → lookup k (end_jobs net toremove m s).jobs ≡ none
  unfolding end_jobs
  end_jobs-drops [] s k job e h = cc
  end_jobs-drops ((id, other) ∷ m) s k job e h = elim (Bool-cases (id == k)) [
    | inl hit ↦
        let same : other ≡ job = ground arith in
        let gone : lookup k (end_job net toremove id other s).jobs ≡ none =
          ground (arith, (end_job-erases id other s (rw same h)).1, lookup-erase k id s.jobs) in
        ground (arith, (end_jobs-Drops m (end_job net toremove id other s)).shrinks k)
    | inr miss ↦ end_jobs-drops m (end_job net toremove id other s) k job (ground arith) h
  ]

  -- Any other job is still there.
  pub end_jobs-keeps :
      (m : Map Job) (s : Scheduler) (k : ℕ)
      → AllVals (λ id job. (id == k) ≡ true → hangs_on net toremove job ≡ false) m
      → lookup k (end_jobs net toremove m s).jobs ≡ lookup k s.jobs
  unfolding end_jobs
  end_jobs-keeps [] s k h = refl
  end_jobs-keeps ((id, job) ∷ m) s k h =
      end_jobs-keeps m (end_job net toremove id job s) k h.1
      ∙ elim (Bool-cases (hangs_on net toremove job)) [
        | inl own ↦
            rw ((end_job-erases id job s own).1) (ground (arith, lookup-erase k id s.jobs, h.0))
        | inr other ↦ rw (end_job-passes id job s other) refl
      ]

  pub end_blacklists-SameWork :
      (ps : List ℕ) (s : Scheduler) → SameWork s (end_blacklists net toremove ps s)
  unfolding end_blacklists
  end_blacklists-SameWork [] s = SameWork-refl s
  end_blacklists-SameWork (p ∷ ps) s =
      let r = end_blacklists-SameWork ps (with_server p (erase_cs_from_blacklist toremove) s) in
      record {
        css = r.css;
        jobs = r.jobs;
        job_requests = r.job_requests;
        new_job_id = r.new_job_id;
        stats = r.stats;
      }
