-- ===== src/Scheduler/End/Leaves.antt =====
-- After handle_end for a daemon nothing names it any more, and what is left fits together.
use icecream.Base.{ℕ, ◌≡◌, refl}
use icecream.CompileServer.{Kind, daemon, monitor, line, unknown}
use icecream.Scheduler.{Scheduler, Net, send, server_of}
use icecream.Scheduler.Notify.{SameWork, delete_server, end_monitor}
use icecream.Scheduler.Live.{IsLive, SameWork-IsLive}
use icecream.Scheduler.End.{end_line, end_kind, handle_end}
use icecream.Scheduler.End.Sweep.{IsGone, swept-IsLive, swept-IsGone, end_daemon-swept}

SameWork-IsGone : (p : ℕ) {s t : Scheduler} → SameWork s t → IsGone p s → IsGone p t
SameWork-IsGone p {s} {t} w g = record {
  disconnected = rw (w.css) g.disconnected;
  no_job = λ k job e. g.no_job k job (rw (w.jobs) at e);
  no_request = rw (w.job_requests) g.no_request;
}

-- When a daemon's connection ends, no job, request or list of servers names it any more, and what
-- is left still fits together.
pub handle_end-IsGone :
    (net : Net) (p : ℕ) (s : Scheduler)
    → IsLive s
    → (server_of s p).type ≡ daemon
    → IsGone p (handle_end net p s) × IsLive (handle_end net p s)
unfolding handle_end
handle_end-IsGone net p s v d = rw d (
  SameWork-IsGone p (end_daemon-swept net p s v) (swept-IsGone net p s v),
  SameWork-IsLive (end_daemon-swept net p s v) (swept-IsLive net p s v),
)

end_monitor-SameWork : (p : ℕ) (s : Scheduler) → SameWork s (end_monitor p s)
unfolding end_monitor delete_server
end_monitor-SameWork p s = record {
  css = refl;
  jobs = refl;
  job_requests = refl;
  new_job_id = refl;
  stats = refl;
}

end_line-SameWork : (net : Net) (p : ℕ) (s : Scheduler) → SameWork s (end_line net p s)
unfolding end_line send delete_server
end_line-SameWork net p s = record {
  css = refl;
  jobs = refl;
  job_requests = refl;
  new_job_id = refl;
  stats = refl;
}

delete_server-SameWork : (p : ℕ) (s : Scheduler) → SameWork s (delete_server p s)
unfolding delete_server
delete_server-SameWork p s = record {
  css = refl;
  jobs = refl;
  job_requests = refl;
  new_job_id = refl;
  stats = refl;
}

end_kind-IsLive :
    (net : Net) (p : ℕ) (k : Kind) (s : Scheduler) → IsLive s → IsLive (end_kind net p k s)
end_kind-IsLive net p monitor s v = SameWork-IsLive (end_monitor-SameWork p s) v
end_kind-IsLive net p daemon s v =
    SameWork-IsLive (end_daemon-swept net p s v) (swept-IsLive net p s v)
end_kind-IsLive net p line s v = SameWork-IsLive (end_line-SameWork net p s) v
end_kind-IsLive net p unknown s v = SameWork-IsLive (delete_server-SameWork p s) v

-- Whoever hangs up, the jobs, the queue and the servers fit together afterwards.
pub handle_end-IsLive : (net : Net) (p : ℕ) (s : Scheduler) → IsLive s → IsLive (handle_end net p s)
unfolding handle_end
handle_end-IsLive net p s v = end_kind-IsLive net p (server_of s p).type s v
