-- ===== src/Scheduler/End/Sweep.antt =====
-- The state of handle_end for a daemon after its loops, against the state before.
use icecream.Base.{
  ℕ, ◌≡◌, refl, ap, ◌∙◌, subst, inl, inr, true, false, ◌==◌, Option, none, some, List, [], ◌∷◌, All,
  contains, contains-remove, remove, Bool-cases, arith,
}
use icecream.Base.Map.{lookup, UniqueKeys, AllVals-map, UniqueKeys-lookup}
use icecream.Job.{Job}
use icecream.Queue.{JobRequestsGroup}
use icecream.Queue.Walk.{Distinct}
use icecream.Scheduler.{Scheduler, Net, mon_offline, server_of}
use icecream.Scheduler.Notify.{SameWork, notify_monitors, notify_monitors-SameWork, delete_server}
use icecream.Scheduler.Live.{IsKnown, IsSound, IsQueued, IsLive}
use icecream.Scheduler.End.{
  is_server, end_groups, other_groups, hangs_on, end_jobs, daemon_leaves, daemon_requests,
  end_daemon,
}
use icecream.Scheduler.End.Loops.{
  Drops, end_groups-Drops, end_groups-keeps, end_jobs-Drops, end_jobs-drops, end_jobs-keeps,
  end_blacklists-SameWork,
}
use icecream.Scheduler.End.Others.{
  other_groups-All, other_groups-others, other_groups-IsQueueFrom, not_own_groups, same_job,
}

-- No job, request or list of servers names the daemon.
pub record IsGone (p : ℕ) (s : Scheduler) : Type 0 where
  pub disconnected : contains p s.css ≡ false
  pub no_job :
      (k : ℕ) (job : Job)
      → lookup k s.jobs ≡ some job
      → ((job.submitter == p) ≡ false) × (is_server job.server p ≡ false)
  pub no_request : All (λ g. (g.submitter == p) ≡ false) s.job_requests

module _ (net : Net) (p : ℕ) (s : Scheduler) (v : IsLive s) where
  abbrev left : Scheduler
  left = daemon_leaves net p s

  abbrev unqueued : Scheduler
  unqueued = daemon_requests net p left

  abbrev pub swept : Scheduler
  swept = end_jobs net p unqueued.jobs unqueued

  offline-SameWork : SameWork s (notify_monitors net (mon_offline (server_of s p).host_id) s)
  offline-SameWork = notify_monitors-SameWork net (mon_offline (server_of s p).host_id) s

  left-jobs : left.jobs ≡ s.jobs
  unfolding daemon_leaves
  left-jobs = offline-SameWork.jobs

  left-job_requests : left.job_requests ≡ s.job_requests
  unfolding daemon_leaves
  left-job_requests = offline-SameWork.job_requests

  left-css : left.css ≡ remove p s.css
  unfolding daemon_leaves
  left-css = ap (remove p) offline-SameWork.css

  left-new_job_id : left.new_job_id ≡ s.new_job_id
  unfolding daemon_leaves
  left-new_job_id = offline-SameWork.new_job_id

  groups-Drops : Drops left (end_groups net p left.job_requests left)
  groups-Drops = end_groups-Drops net p left.job_requests left

  unqueued-jobs : unqueued.jobs ≡ (end_groups net p left.job_requests left).jobs
  unfolding daemon_requests
  unqueued-jobs = refl

  unqueued-job_requests : unqueued.job_requests ≡ other_groups net p s.job_requests
  unfolding daemon_requests
  unqueued-job_requests = ap (other_groups net p) left-job_requests

  unqueued-css : unqueued.css ≡ remove p s.css
  unfolding daemon_requests
  unqueued-css = groups-Drops.css ∙ left-css

  unqueued-new_job_id : unqueued.new_job_id ≡ s.new_job_id
  unfolding daemon_requests
  unqueued-new_job_id = groups-Drops.new_job_id ∙ left-new_job_id

  unqueued_unique : UniqueKeys unqueued.jobs
  unqueued_unique = rw unqueued-jobs (groups-Drops.unique (rw left-jobs v.unique))

  sweep : Drops unqueued swept
  sweep = end_jobs-Drops net p unqueued.jobs unqueued

  -- What is left was there before.
  swept-from : (k : ℕ) (job : Job) → lookup k swept.jobs ≡ some job → lookup k s.jobs ≡ some job
  swept-from k job e = ground (
    arith,
    sweep.shrinks k,
    groups-Drops.shrinks k,
    ap (lookup k) unqueued-jobs,
    ap (lookup k) left-jobs,
  )

  -- What is left does not hang on the daemon.
  swept-free : (k : ℕ) (job : Job) → lookup k swept.jobs ≡ some job → hangs_on net p job ≡ false
  swept-free k job e = elim (Bool-cases (hangs_on net p job)) [
    | inr free ↦ free
    | inl own ↦ ground (arith, sweep.shrinks k, end_jobs-drops net p unqueued.jobs unqueued k job)
  ]

  -- What does not hang on it is left.
  swept-keeps :
      (k : ℕ) (job : Job)
      → lookup k s.jobs ≡ some job
      → hangs_on net p job ≡ false
      → lookup k swept.jobs ≡ some job
  swept-keeps k job e h =
      let kept : lookup k unqueued.jobs ≡ some job =
        ap (lookup k) unqueued-jobs
        ∙ end_groups-keeps net p left.job_requests left k (
            rw left-job_requests
              (not_own_groups net p k job s.jobs s.job_requests e (ground arith) v.queued))
        ∙ ap (lookup k) left-jobs
        ∙ e in
      end_jobs-keeps net p unqueued.jobs unqueued k (
        AllVals-map (λ id other. lookup id unqueued.jobs ≡ some other)
          (λ id other. (id == k) ≡ true → hangs_on net p other ≡ false) unqueued.jobs
          (λ id other f hit.
            subst (λ j. hangs_on net p j ≡ false)
              (same_job net p k id job other unqueued.jobs kept f hit) h)
          (UniqueKeys-lookup unqueued.jobs unqueued_unique))
      ∙ kept

  IsKnown-others :
      (server : Option ℕ)
      → is_server server p ≡ false
      → IsKnown s.css server
      → IsKnown (remove p s.css) server
  IsKnown-others none f h = tt
  IsKnown-others (some q) f h = ground (arith, contains-remove p q s.css)

  swept-IsSound :
      (k : ℕ) (job : Job)
      → lookup k swept.jobs ≡ some job
      → IsSound (remove p s.css) s.new_job_id k job
  swept-IsSound k job e =
      let free = swept-free k job e in
      let sound = v.sound k job (swept-from k job e) in
      record {
        own_id = sound.own_id;
        numbered = sound.numbered;
        from_known = ground (arith, contains-remove p job.submitter s.css, sound.from_known);
        on_known = IsKnown-others job.server (ground arith) sound.on_known;
      }

  IsQueued-others :
      (g : JobRequestsGroup) (l : List ℕ)
      → (g.submitter == p) ≡ false
      → All (IsQueued s.jobs g) l
      → All (IsQueued swept.jobs g) l
  IsQueued-others g [] o q = tt
  IsQueued-others g (id ∷ l) o ((job, e, b, n, f), q) =
      ((job, swept-keeps id job e (ground arith), b, n, f), IsQueued-others g l o q)

  IsQueued-groups-others :
      (gs : List JobRequestsGroup)
      → All (λ g. All (IsQueued s.jobs g) g.l) gs
      → All (λ g. All (IsQueued swept.jobs g) g.l) (other_groups net p gs)
  IsQueued-groups-others [] q = tt
  IsQueued-groups-others (g ∷ gs) q = elim (Bool-cases (g.submitter == p)) [
    | inl own ↦ rw own (IsQueued-groups-others gs q.1)
    | inr other ↦ rw other (IsQueued-others g g.l other q.0, IsQueued-groups-others gs q.1)
  ]

  swept-css : swept.css ≡ remove p s.css
  swept-css = sweep.css ∙ unqueued-css

  swept-job_requests : swept.job_requests ≡ other_groups net p s.job_requests
  swept-job_requests = sweep.job_requests ∙ unqueued-job_requests

  swept-new_job_id : swept.new_job_id ≡ s.new_job_id
  swept-new_job_id = sweep.new_job_id ∙ unqueued-new_job_id

  pub swept-IsLive : IsLive swept
  swept-IsLive = record {
    unique = sweep.unique unqueued_unique;
    sound = λ k job e. rw (swept-css, swept-new_job_id) (swept-IsSound k job e);
    ordered =
        rw swept-job_requests
          (other_groups-IsQueueFrom net p 0 0 s.job_requests (omega arith) v.ordered);
    distinct =
        rw swept-job_requests
          (other_groups-All net p (λ g. Distinct g.l) s.job_requests v.distinct);
    queued = rw swept-job_requests (IsQueued-groups-others s.job_requests v.queued);
  }

  pub swept-IsGone : IsGone p swept
  swept-IsGone = record {
    disconnected = rw swept-css (ground (arith, contains-remove p p s.css));
    no_job = λ k job e. ground (arith, swept-free k job e);
    no_request = rw swept-job_requests (other_groups-others net p s.job_requests);
  }

  pub end_daemon-swept : SameWork swept (end_daemon net p s)
  unfolding end_daemon delete_server
  end_daemon-swept =
      let r = end_blacklists-SameWork net p swept.css swept in
      record {
        css = r.css;
        jobs = r.jobs;
        job_requests = r.job_requests;
        new_job_id = r.new_job_id;
        stats = r.stats;
      }
