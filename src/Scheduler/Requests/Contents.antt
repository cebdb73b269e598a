-- ===== src/Scheduler/Requests/Contents.antt =====
-- What handle_cs_request adds to the queue.
use icecream.Base.{
  ℕ, zero, suc, ◌+◌, ◌≡◌, ◌<◌, refl, ap, ◌∙◌, Option, none, some, List, [], ◌∷◌, ◌++◌, arith,
}
use mathlib.Core.List.{Perm, perm_middle}
use mathlib.Core.List.Perm
use icecream.Job.{u32, clamp_niceness}
use icecream.Queue.{enqueue_job_request}
use icecream.Queue.Contents.{pending, pending-enqueue_job_request}
use icecream.Scheduler.{Scheduler, Net, mon_get_cs, server_of}
use icecream.Scheduler.Notify.{notify_monitors-SameWork}
use icecream.Scheduler.Requests.{
  GetCsMsg, join_master, or_first, request_one, request_loop, handle_cs_request,
}
use icecream.Scheduler.Requests.Keeps.{
  new_id, filled, enqueued, request_one-enqueued, join_master-rest,
}

-- The ids behind `n`.
abbrev pub new_ids : ℕ → ℕ → List ℕ
new_ids n zero = []
new_ids n (suc count) = suc n ∷ new_ids (suc n) count

module _ (net : Net) (b : ℕ) (m : GetCsMsg) where
  request_one-queue :
      (s : Scheduler)
      → suc s.new_job_id < u32
      → ((request_one net b m s).job_requests
          ≡ enqueue_job_request b (clamp_niceness m.niceness) (suc s.new_job_id) s.job_requests)
        × ((request_one net b m s).new_job_id ≡ suc s.new_job_id)
  request_one-queue s h =
      let w =
        notify_monitors-SameWork net
          (mon_get_cs (new_id b m s) (server_of (filled b m s) b).host_id) (enqueued b m s) in
      let e = request_one-enqueued b m s net h in
      (ap (λ t. t.job_requests) e ∙ w.job_requests, ap (λ t. t.new_job_id) e ∙ w.new_job_id)

  join_master-job_requests :
      (master : Option ℕ) (id : ℕ) (s : Scheduler)
      → (join_master master id s).job_requests ≡ s.job_requests
  join_master-job_requests none id s = refl
  join_master-job_requests (some master) id s = refl

  request_loop-pending :
      (count : ℕ) (master : Option ℕ) (s : Scheduler)
      → s.new_job_id + count < u32
      → Perm
          (pending (request_loop net count master b m s).job_requests)
          (new_ids s.new_job_id count ++ pending s.job_requests)
  unfolding request_loop
  request_loop-pending zero master s h = Perm.rfl
  request_loop-pending (suc count) master s h =
      let one = request_one-queue s (omega arith) in
      let t = request_one net b m s in
      let u = join_master master t.new_job_id t in
      let id : u.new_job_id ≡ suc s.new_job_id =
        (join_master-rest master t.new_job_id t).1 ∙ one.1 in
      let q : u.job_requests
          ≡ enqueue_job_request b (clamp_niceness m.niceness) (suc s.new_job_id) s.job_requests =
        join_master-job_requests master t.new_job_id t ∙ one.0 in
      Perm.trans (request_loop-pending count (or_first master t.new_job_id) u (omega (arith, id))) (
        rw (id, q)
          (Perm.trans
            (Perm.append_left (new_ids (suc s.new_job_id) count) (
              pending-enqueue_job_request b (clamp_niceness m.niceness) (suc s.new_job_id)
                s.job_requests))
            (perm_middle (new_ids (suc s.new_job_id) count) (pending s.job_requests))))

  -- A request for `count` compile servers adds that many new jobs to the queue, under the next ids, and
  -- every request that waited still waits, as long as the job ids do not wrap around.
  pub pending-handle_cs_request :
      (s : Scheduler)
      → s.new_job_id + m.count < u32
      → Perm
          (pending (handle_cs_request net b m s).job_requests)
          (new_ids s.new_job_id m.count ++ pending s.job_requests)
  unfolding handle_cs_request
  pending-handle_cs_request s h = request_loop-pending m.count none _ h
