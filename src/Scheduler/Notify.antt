-- ===== src/Scheduler/Notify.antt =====
-- notify_monitors of scheduler/scheduler.cpp, with the branch of handle_end that it calls.
use icecream.Base.{ℕ, ◌≡◌, refl, ◌∙◌, List, [], ◌∷◌, remove, if◌then◌else◌, arith}
use icecream.Base.Map.{erase}
use icecream.Scheduler.{Scheduler, Message, Net, send, server_of}

-- The end of handle_end: the channel is forgotten and the object deleted.
unfoldable pub delete_server : ℕ → Scheduler → Scheduler
delete_server p s = record s { fd2cs = erase (server_of s p).fd s.fd2cs; heap = erase p s.heap }

-- handle_end for a monitor.
unfoldable pub end_monitor : ℕ → Scheduler → Scheduler
end_monitor p s = delete_server p (record s { monitors = remove p s.monitors })

-- One round of the loop of notify_monitors. A monitor that cannot take the message is closed.
unfoldable pub notify_one : Net → Message → ℕ → Scheduler → Scheduler
notify_one net m p s = let (s', ok) = send net p m s in if ok then s' else end_monitor p s'

unfoldable pub notify_loop : Net → Message → List ℕ → Scheduler → Scheduler
notify_loop net m [] s = s
notify_loop net m (p ∷ ps) s = notify_loop net m ps (notify_one net m p s)

unfoldable pub notify_monitors : Net → Message → Scheduler → Scheduler
notify_monitors net m s = notify_loop net m s.monitors s

-- What the notification of monitors leaves alone.
pub record SameWork (s t : Scheduler) : Type 0 where
  pub css : t.css ≡ s.css
  pub jobs : t.jobs ≡ s.jobs
  pub job_requests : t.job_requests ≡ s.job_requests
  pub new_job_id : t.new_job_id ≡ s.new_job_id
  pub stats : t.stats ≡ s.stats

pub SameWork-refl : (s : Scheduler) → SameWork s s
SameWork-refl s = record {
  css = refl;
  jobs = refl;
  job_requests = refl;
  new_job_id = refl;
  stats = refl;
}

pub SameWork-trans : {s t u : Scheduler} → SameWork s t → SameWork t u → SameWork s u
SameWork-trans a b = record {
  css = b.css ∙ a.css;
  jobs = b.jobs ∙ a.jobs;
  job_requests = b.job_requests ∙ a.job_requests;
  new_job_id = b.new_job_id ∙ a.new_job_id;
  stats = b.stats ∙ a.stats;
}

pub send-SameWork :
    (net : Net) (p : ℕ) (m : Message) (s : Scheduler) → SameWork s (send net p m s).0
unfolding send
send-SameWork net p m s = record {
  css = refl;
  jobs = refl;
  job_requests = refl;
  new_job_id = refl;
  stats = refl;
}

notify_one-SameWork :
    (net : Net) (m : Message) (p : ℕ) (s : Scheduler) → SameWork s (notify_one net m p s)
unfolding notify_one send end_monitor delete_server
notify_one-SameWork net m p s = ground arith

notify_loop-SameWork :
    (net : Net) (m : Message) (ps : List ℕ) (s : Scheduler) → SameWork s (notify_loop net m ps s)
unfolding notify_loop
notify_loop-SameWork net m [] s = record {
  css = refl;
  jobs = refl;
  job_requests = refl;
  new_job_id = refl;
  stats = refl;
}
notify_loop-SameWork net m (p ∷ ps) s =
    SameWork-trans (notify_one-SameWork net m p s)
      (notify_loop-SameWork net m ps (notify_one net m p s))

-- Notification changes neither the jobs nor the queue nor the set of servers, whoever hangs up.
pub notify_monitors-SameWork :
    (net : Net) (m : Message) (s : Scheduler) → SameWork s (notify_monitors net m s)
unfolding notify_monitors
notify_monitors-SameWork net m s = notify_loop-SameWork net m s.monitors s
