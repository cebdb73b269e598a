-- ===== src/Scheduler/End.antt =====
-- handle_end of scheduler/scheduler.cpp: a connection goes away, with all that hangs on it.
pub mod Loops
pub mod Others
pub mod Sweep
pub mod Leaves
use icecream.Base.{
  ℕ, ◌==◌, if◌then◌else◌, Bool, false, ◌||◌, Option, none, some, List, [], ◌∷◌, remove,
}
use icecream.Base.Map.{Map, lookup, erase}
use icecream.Job.{Job}
use icecream.Queue.{JobRequestsGroup}
use icecream.CompileServer.{CompileServer, Kind, unknown, daemon, monitor, line}
use icecream.CompileServer.Methods.{remove_job, submitted_jobs_decrement, erase_cs_from_blacklist}
use icecream.Scheduler.{
  Scheduler, Net, send, text_msg, mon_offline, mon_job_done, with_server, with_server?, server_of,
}
use icecream.Scheduler.Notify.{notify_monitors, delete_server, end_monitor}

-- `setBusyInstalling(0)`
abbrev pub clear_installing : CompileServer → CompileServer
clear_installing cs = record cs { busy_installing = 0 }

-- `jobs.erase(id); delete job`, where the destructor counts down at the submitter.
unfoldable pub delete_job : ℕ → Job → Scheduler → Scheduler
delete_job id job s =
    with_server job.submitter submitted_jobs_decrement (record s { jobs = erase id s.jobs })

-- `job->server() == p`
abbrev pub is_server : Option ℕ → ℕ → Bool
is_server none p = false
is_server (some q) p = q == p

module _ (net : Net) (toremove : ℕ) where
  -- One round of the loop over the jobs of a group.
  unfoldable pub end_request : ℕ → Option Job → Scheduler → Scheduler
  end_request id none s = s
  end_request id (some job) s =
      delete_job id job
        (with_server? job.server clear_installing (notify_monitors net (mon_job_done id 255) s))

  unfoldable pub end_requests : List ℕ → Scheduler → Scheduler
  end_requests [] s = s
  end_requests (id ∷ l) s = end_requests l (end_request id (lookup id s.jobs) s)

  -- The loop over job_requests: the groups of the daemon go.
  unfoldable pub end_groups : List JobRequestsGroup → Scheduler → Scheduler
  end_groups [] s = s
  end_groups (g ∷ gs) s = end_groups gs (if g.submitter == toremove then end_requests g.l s else s)

  abbrev pub other_groups : List JobRequestsGroup → List JobRequestsGroup
  other_groups [] = []
  other_groups (g ∷ gs) =
      let rest = other_groups gs in if g.submitter == toremove then rest else g ∷ rest

  abbrev pub hangs_on : Job → Bool
  hangs_on job = is_server job.server toremove || job.submitter == toremove

  -- The server's own list is kept in step, unless the server is what goes.
  abbrev pub leave_server : Option ℕ → ℕ → Scheduler → Scheduler
  leave_server none id s = s
  leave_server (some p) id s =
      with_server p clear_installing (if p == toremove then s else with_server p (remove_job id) s)

  -- One round of the loop over all jobs.
  unfoldable pub end_job : ℕ → Job → Scheduler → Scheduler
  end_job id job s =
      if hangs_on job
      then delete_job id job
          (leave_server job.server id (notify_monitors net (mon_job_done id 255) s))
      else s

  unfoldable pub end_jobs : Map Job → Scheduler → Scheduler
  end_jobs [] s = s
  end_jobs ((id, job) ∷ m) s = end_jobs m (end_job id job s)

  unfoldable pub end_blacklists : List ℕ → Scheduler → Scheduler
  end_blacklists [] s = s
  end_blacklists (p ∷ ps) s = end_blacklists ps (with_server p (erase_cs_from_blacklist toremove) s)

  -- The branch for a daemon, loop by loop.
  unfoldable pub daemon_leaves : Scheduler → Scheduler
  daemon_leaves s =
      let t = notify_monitors net (mon_offline (server_of s toremove).host_id) s in
      record t { css = remove toremove t.css }

  unfoldable pub daemon_requests : Scheduler → Scheduler
  daemon_requests s = record (end_groups s.job_requests s) {
    job_requests = other_groups s.job_requests;
  }

  unfoldable pub end_daemon : Scheduler → Scheduler
  end_daemon s =
      let t = daemon_requests (daemon_leaves s) in
      let u = end_jobs t.jobs t in delete_server toremove (end_blacklists u.css u)

  unfoldable pub end_line : Scheduler → Scheduler
  end_line s =
      let t = (send net toremove text_msg s).0 in
      delete_server toremove (record t { controls = remove toremove t.controls })

  abbrev pub end_kind : Kind → Scheduler → Scheduler
  end_kind monitor s = end_monitor toremove s
  end_kind daemon s = end_daemon s
  end_kind line s = end_line s
  end_kind unknown s = delete_server toremove s

  -- It answers true on every path, so the answer is left out.
  unfoldable pub handle_end : Scheduler → Scheduler
  handle_end s = end_kind (server_of s toremove).type s
