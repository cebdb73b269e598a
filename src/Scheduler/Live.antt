-- ===== src/Scheduler/Live.antt =====
-- The invariant that ties jobs, queue and servers together: the submitter and the server of a job are
-- connected, and a request is a job. It does not speak of the jobs that a job waits for in
-- master_job_for, nor of the job lists of the servers.
pub mod Jobs
pub mod Requests
use icecream.Base.{ℕ, ◌≤◌, ◌≡◌, sym, subst, true, Option, none, some, List, All, contains}
use icecream.Base.Map.{Map, lookup, UniqueKeys}
use icecream.Job.{Job}
use icecream.Queue.{JobRequestsGroup}
use icecream.Queue.Order.{IsQueue}
use icecream.Queue.Walk.{Distinct}
use icecream.Scheduler.{Scheduler}
use icecream.Scheduler.Notify.{SameWork}

-- A server that is named is connected.
abbrev pub IsKnown : List ℕ → Option ℕ → Type 0
IsKnown css none = Unit
IsKnown css (some p) = contains p css ≡ true

-- The job under the id `k`.
pub record IsSound (css : List ℕ) (top : ℕ) (k : ℕ) (job : Job) : Type 0 where
  pub own_id : job.id ≡ k
  pub numbered : k ≤ top
  pub from_known : contains job.submitter css ≡ true
  pub on_known : IsKnown css job.server

-- The request `id` in the group `g` is a job of that submitter and niceness with no server yet.
abbrev pub IsQueued : Map Job → JobRequestsGroup → ℕ → Type 0
IsQueued jobs g id =
    (job : Job) × (lookup id jobs ≡ some job)
    × (job.submitter ≡ g.submitter)
    × (job.niceness ≡ g.niceness)
    × (job.server ≡ none)

pub record IsLive (s : Scheduler) : Type 0 where
  pub unique : UniqueKeys s.jobs
  pub sound : (k : ℕ) (job : Job) → lookup k s.jobs ≡ some job → IsSound s.css s.new_job_id k job
  pub ordered : IsQueue s.job_requests
  pub distinct : All (λ g. Distinct g.l) s.job_requests
  pub queued : All (λ g. All (IsQueued s.jobs g) g.l) s.job_requests

-- The invariant is about five fields.
pub IsLive-from :
    {s t : Scheduler}
    → t.css ≡ s.css
    → t.jobs ≡ s.jobs
    → t.job_requests ≡ s.job_requests
    → t.new_job_id ≡ s.new_job_id
    → IsLive s
    → IsLive t
IsLive-from {s} {t} c j q n v = record {
  unique = rw j v.unique;
  sound = λ k job e.
      subst (λ css. IsSound css t.new_job_id k job) (sym c)
        (subst (λ top. IsSound s.css top k job) (sym n) (v.sound k job (rw j at e)));
  ordered = rw q v.ordered;
  distinct = rw q v.distinct;
  queued = rw (j, q) v.queued;
}

pub SameWork-IsLive : {s t : Scheduler} → SameWork s t → IsLive s → IsLive t
SameWork-IsLive w v = IsLive-from w.css w.jobs w.job_requests w.new_job_id v
