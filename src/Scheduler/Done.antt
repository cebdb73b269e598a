-- ===== src/Scheduler/Done.antt =====
-- handle_job_done of scheduler/scheduler.cpp: a job is finished, has failed or is given up.
pub mod Finds
pub mod Keeps
use icecream.Base.{
  is_some, ℕ, ◌==◌, bit_and, is_nil, if◌then◌else◌, Bool, true, false, not, ◌&&◌, ◌||◌, Option,
  none, some, List, [], ◌∷◌, erase_first,
}
use icecream.Base.Map.{Map, lookup}
use icecream.Floats.{Floats}
use icecream.Job.{Job, to_int}
use icecream.Queue.{JobRequestsGroup}
use icecream.CompileServer.Methods.{remove_job}
use icecream.Scheduler.{Scheduler, Net, mon_job_done, with_server}
use icecream.Scheduler.Notify.{notify_monitors}
use icecream.Scheduler.End.{handle_end, delete_job}
use icecream.Scheduler.Speed.{JobDoneMsg, add_job_stats}

-- JobDoneMsg::is_from_server and JobDoneMsg::unknown_job_client_id.
abbrev pub is_from_server : JobDoneMsg → Bool
is_from_server m = bit_and m.flags 1 == 0

unfoldable pub unknown_job_client_id : JobDoneMsg → ℕ
unknown_job_client_id m = if bit_and m.flags 2 == 0 then 0 else m.job_id

-- The groups of the submitter lose the job; the loop ends at a group that gets empty, which goes.
abbrev pub drop_request : ℕ → ℕ → List JobRequestsGroup → List JobRequestsGroup
drop_request cs id [] = []
drop_request cs id (g ∷ gs) =
    let rest = drop_request cs id gs in
    let l = erase_first id g.l in
    if g.submitter == cs then (if is_nil l then gs else record g { l = l } ∷ rest) else g ∷ rest

abbrev pub waits_for : ℕ → ℕ → Job → Bool
waits_for cs client_id job =
    not (is_some job.server) && job.submitter == cs && job.local_client_id == client_id

-- The search by client id over all jobs. The last match is the job; every match leaves the queue.
abbrev pub by_client :
    ℕ → ℕ → Map Job → Option Job → List JobRequestsGroup → Option Job × List JobRequestsGroup
by_client cs client_id [] found gs = (found, gs)
by_client cs client_id ((id, job) ∷ jobs) found gs =
    let hit = waits_for cs client_id job in
    by_client cs client_id jobs (if hit then some job else found)
      (if hit then drop_request cs id gs else gs)

-- The job that a message is about, with the state after the search for it.
unfoldable pub find_done : ℕ → JobDoneMsg → Scheduler → Option Job × Scheduler
find_done cs m s =
    let client_id = unknown_job_client_id m in
    let (found, gs) = by_client cs client_id s.jobs none s.job_requests in
    if client_id == 0 then (lookup m.job_id s.jobs, s) else (found, record s { job_requests = gs })

-- What handle_job_done comes to: the state and its answer, or a null pointer that it follows.
pub data Done : Type 0 where
  done : Scheduler → Bool → Done
  null_pointer : Done

module _ (net : Net) (fl : Floats) where
  -- The end of handle_job_done, for a job on a server.
  unfoldable pub finish_job : Job → ℕ → JobDoneMsg → Scheduler → Scheduler
  finish_job job server m s = delete_job job.id job (
      notify_monitors net (mon_job_done job.id m.exitcode)
        (add_job_stats fl job server m (with_server server (remove_job job.id) s)))

  -- The same for a job that no server has, after a failure; add_job_stats returns at once.
  unfoldable pub cancel_job : Job → JobDoneMsg → Scheduler → Scheduler
  cancel_job job m s =
      delete_job job.id job (notify_monitors net (mon_job_done job.id m.exitcode) s)

  abbrev pub complete : Job → Option ℕ → JobDoneMsg → Scheduler → Done
  complete job none m s = if m.exitcode == 0 then null_pointer else done (cancel_job job m s) true
  complete job (some server) m s = done (finish_job job server m s) true

  -- The two checks on the sender. The log line of the first reads `j->server()->nodeName()`.
  abbrev pub check_sender : ℕ → JobDoneMsg → Job → Option ℕ → Scheduler → Done
  check_sender cs m job none s =
      if is_from_server m
      then null_pointer
      else if not (job.submitter == cs)
      then done (handle_end net cs s) false
      else complete job none m
          (with_server cs (λ o. record o { client_count = to_int m.client_count }) s)
  check_sender cs m job (some server) s =
      if (is_from_server m && not (server == cs))
        || (not (is_from_server m) && not (job.submitter == cs))
      then done (handle_end net cs s) false
      else complete job (some server) m
          (with_server cs (λ o. record o { client_count = to_int m.client_count }) s)

  abbrev pub done_with : ℕ → JobDoneMsg → Option Job × Scheduler → Done
  done_with cs m (none, s) = done s false
  done_with cs m (some job, s) = check_sender cs m job job.server s

  unfoldable pub handle_job_done : ℕ → JobDoneMsg → Scheduler → Done
  handle_job_done cs m s = done_with cs m (find_done cs m s)
