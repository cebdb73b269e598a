-- ===== src/Scheduler/Requests/Keeps.antt =====
-- The handlers of requests and local jobs keep the invariant, as long as the job ids do not wrap.
use icecream.Base.{
  ℕ, zero, suc, ◌+◌, ◌≡◌, ◌<◌, refl, sym, ap, ◌∙◌, subst, true, ◌++◌, Option, none, some, [], ◌∷◌,
  contains, arith,
}
use icecream.Base.Map.{lookup, insert, lookup-insert, lookup-update}
use icecream.Job.{Job, u32, new_job, clamp_niceness}
use icecream.Queue.{enqueue_job_request, new_group}
use icecream.CompileServer.Methods.{submitted_jobs_increment, get_client_local_job_id}
use icecream.Scheduler.{
  Scheduler, Net, mon_get_cs, job_local_done, with_server, with_job, server_of,
}
use icecream.Scheduler.Notify.{SameWork, notify_monitors, notify_monitors-SameWork}
use icecream.Scheduler.Live.{IsSound, IsQueued, IsLive, IsLive-from, SameWork-IsLive}
use icecream.Scheduler.Live.Jobs.{
  SameJob, new-Absent, lookup-next, insert-IsLive, later-IsLive, update-IsLive, touch-IsLive,
}
use icecream.Scheduler.Live.Requests.{enqueue-IsLive}
use icecream.Scheduler.Requests.{
  GetCsMsg, JobLocalBeginMsg, next_id, create_new_job, fill_job, join_master, or_first, request_one,
  request_loop, handle_cs_request, handle_local_job, handle_local_job_done,
}

next_id_lem : (n : ℕ) → suc n < u32 → next_id n ≡ suc n
next_id_lem n h = omega arith

join-SameJob :
    (master id : ℕ) (job : Job)
    → SameJob job (record job { master_job_for = job.master_job_for ++ id ∷ [] })
join-SameJob master id job = record { id = refl; submitter = refl; niceness = refl; server = refl }

join_master-IsLive :
    (master : Option ℕ) (id : ℕ) (s : Scheduler) → IsLive s → IsLive (join_master master id s)
join_master-IsLive none id s v = v
join_master-IsLive (some master) id s v =
    touch-IsLive s v master (λ j. record j { master_job_for = j.master_job_for ++ id ∷ [] })
      (join-SameJob master id)

pub join_master-rest :
    (master : Option ℕ) (id : ℕ) (s : Scheduler)
    → ((join_master master id s).css ≡ s.css)
      × ((join_master master id s).new_job_id ≡ s.new_job_id)
join_master-rest none id s = (refl, refl)
join_master-rest (some master) id s = (refl, refl)

-- The steps of one round, with the id written as the successor that it is.
module _ (submitter : ℕ) (m : GetCsMsg) (s : Scheduler) where
  abbrev pub new_id : ℕ
  new_id = suc s.new_job_id

  abbrev created : Scheduler
  created =
      with_server submitter submitted_jobs_increment
        (record s { new_job_id = new_id; jobs = insert new_id (new_job new_id submitter) s.jobs })

  abbrev pub filled : Scheduler
  filled = with_job new_id (fill_job m) created

  abbrev pub enqueued : Scheduler
  enqueued = record filled {
    job_requests = enqueue_job_request submitter (clamp_niceness m.niceness) new_id s.job_requests;
  }

  pub request_one-enqueued :
      (net : Net)
      → new_id < u32
      → request_one net submitter m s
        ≡ notify_monitors net (mon_get_cs new_id (server_of filled submitter).host_id) enqueued
  unfolding request_one create_new_job
  request_one-enqueued net h = rw (next_id_lem s.new_job_id h) refl

  module _ (v : IsLive s) (known : contains submitter s.css ≡ true) where
    created-IsLive : IsLive created
    unfolding new_job
    created-IsLive = IsLive-from refl refl refl refl (
        insert-IsLive s v (new_job new_id submitter)
          (record { own_id = refl; numbered = omega arith; from_known = known; on_known = tt }))

    created-lookup : lookup new_id created.jobs ≡ some (new_job new_id submitter)
    created-lookup = ground (arith, lookup-insert new_id new_id (new_job new_id submitter) s.jobs)

    filled-IsLive : IsLive filled
    unfolding fill_job new_job
    filled-IsLive =
        update-IsLive created created-IsLive new_id (fill_job m)
          (new-Absent s v new_id (lookup-next s v))
          (λ job e.
            let it : new_job new_id submitter ≡ job = ground (arith, created-lookup) in
            subst (λ j. IsSound s.css new_id new_id (fill_job m j)) it
              (record { own_id = refl; numbered = omega arith; from_known = known; on_known = tt }))

    filled-IsQueued :
        IsQueued filled.jobs (new_group submitter (clamp_niceness m.niceness) new_id) new_id
    unfolding fill_job new_job
    filled-IsQueued = (
      fill_job m (new_job new_id submitter),
      ground (arith, lookup-update new_id new_id (fill_job m) created.jobs, created-lookup),
      refl,
      refl,
      refl,
    )

    enqueued-IsLive : IsLive enqueued
    enqueued-IsLive =
        enqueue-IsLive filled filled-IsLive submitter (clamp_niceness m.niceness) new_id
          (new-Absent s v new_id (lookup-next s v)) filled-IsQueued

-- One request: what it keeps, and how far the ids get.
record Requested (s t : Scheduler) : Type 0 where
  live : IsLive t
  css : t.css ≡ s.css
  new_job_id : t.new_job_id ≡ suc s.new_job_id

request_one-Requested :
    (net : Net) (submitter : ℕ) (m : GetCsMsg) (s : Scheduler)
    → IsLive s
    → contains submitter s.css ≡ true
    → suc s.new_job_id < u32
    → Requested s (request_one net submitter m s)
request_one-Requested net b m s v known h =
    let w =
      notify_monitors-SameWork net (mon_get_cs (new_id b m s) (server_of (filled b m s) b).host_id)
        (enqueued b m s) in
    subst (Requested s) (sym (request_one-enqueued b m s net h)) (record {
      live = SameWork-IsLive w (enqueued-IsLive b m s v known);
      css = w.css;
      new_job_id = w.new_job_id;
    })

request_loop-IsLive :
    (net : Net) (count : ℕ) (master : Option ℕ) (submitter : ℕ) (m : GetCsMsg) (s : Scheduler)
    → IsLive s
    → contains submitter s.css ≡ true
    → s.new_job_id + count < u32
    → IsLive (request_loop net count master submitter m s)
unfolding request_loop
request_loop-IsLive net zero master b m s v known h = v
request_loop-IsLive net (suc count) master b m s v known h =
    let t = request_one net b m s in
    let r = request_one-Requested net b m s v known (omega arith) in
    let rest = join_master-rest master t.new_job_id t in
    request_loop-IsLive net count (or_first master t.new_job_id) b m
      (join_master master t.new_job_id t) (join_master-IsLive master t.new_job_id t r.live)
      (ap (contains b) (rest.0 ∙ r.css) ∙ known) (omega (arith, rest.1, r.new_job_id))

-- A request for any number of compile servers, from a connected daemon, keeps jobs, queue and servers
-- in step, as long as the job ids do not wrap around.
pub handle_cs_request-IsLive :
    (net : Net) (cs : ℕ) (m : GetCsMsg) (s : Scheduler)
    → IsLive s
    → contains cs s.css ≡ true
    → s.new_job_id + m.count < u32
    → IsLive (handle_cs_request net cs m s)
unfolding handle_cs_request
handle_cs_request-IsLive net cs m s v known h =
    request_loop-IsLive net m.count none cs m _ (IsLive-from refl refl refl refl v) known h

-- A local job takes an id too.
pub handle_local_job-IsLive :
    (net : Net) (cs : ℕ) (m : JobLocalBeginMsg) (s : Scheduler)
    → IsLive s
    → suc s.new_job_id < u32
    → IsLive (handle_local_job net cs m s)
unfolding handle_local_job
handle_local_job-IsLive net cs m s v h =
    SameWork-IsLive (notify_monitors-SameWork net _ _)
      (IsLive-from refl refl refl (next_id_lem s.new_job_id h) (later-IsLive s v))

pub handle_local_job_done-SameWork :
    (net : Net) (cs job_id : ℕ) (s : Scheduler) → SameWork s (handle_local_job_done net cs job_id s)
unfolding handle_local_job_done
handle_local_job_done-SameWork net cs job_id s =
    let w =
      notify_monitors-SameWork net
        (job_local_done (get_client_local_job_id job_id (server_of s cs))) s in
    record {
      css = w.css;
      jobs = w.jobs;
      job_requests = w.job_requests;
      new_job_id = w.new_job_id;
      stats = w.stats;
    }
