-- ===== src/Scheduler/Activity/Keeps.antt =====
-- Whatever a peer sends, jobs, queue and servers stay in step.
use icecream.Base.{ℕ, suc, ◌+◌, ◌≡◌, ◌<◌, refl, Bool, true, false, Option, none, some, contains}
use icecream.Floats.{Floats}
use icecream.Job.{u32}
use icecream.CompileServer.{State, connected, logged_in, Kind, daemon, monitor}
use icecream.Scheduler.{Scheduler, Net, server_of}
use icecream.Scheduler.End.Leaves.{handle_end-IsLive}
use icecream.Scheduler.Live.{IsLive, IsLive-from, SameWork-IsLive}
use icecream.Scheduler.Live.Jobs.{Absent}
use icecream.Scheduler.Requests.Keeps.{
  handle_cs_request-IsLive, handle_local_job-IsLive, handle_local_job_done-SameWork,
}
use icecream.Scheduler.Events.{handle_login, handle_mon_login}
use icecream.Scheduler.Events.Keeps.{
  handle_login-IsLive, handle_relogin-IsLive, handle_mon_login-IsLive, handle_job_begin-IsLive,
  handle_ping-IsLive, handle_stats-IsLive, handle_blacklist_host_env-IsLive,
}
use icecream.Scheduler.Done.{find_done, unknown_job_client_id}
use icecream.Scheduler.Done.Keeps.{KeepsDone, HasNoServer, handle_job_done-KeepsDone}
use icecream.Scheduler.Lines.Keeps.{handle_line-IsLive}
use icecream.Scheduler.Activity.{
  Incoming, login_msg, mon_login_msg, job_begin_msg, job_done_msg, ping_from, stats_msg, end_msg,
  job_local_begin_msg, job_local_done_msg, text_line, get_cs_msg, blacklist_msg, other_msg, admit,
  with_type, try_login, handle_message, in_state, handle_activity,
}

-- What a daemon may send in a state: requests come from connected daemons and do not use up the job
-- ids, and a job that is done by its id has left the queue.
abbrev pub Allowed : ℕ → Incoming → Scheduler → Type 0
Allowed cs (get_cs_msg m) s = (contains cs s.css ≡ true) × (s.new_job_id + m.count < u32)
Allowed cs (job_local_begin_msg m) s = suc s.new_job_id < u32
Allowed cs (job_done_msg m) s = unknown_job_client_id m ≡ 0 → Absent m.job_id s.job_requests
Allowed cs m s = Unit

abbrev pub AllowedOption : ℕ → Option Incoming → Scheduler → Type 0
AllowedOption cs none s = Unit
AllowedOption cs (some m) s = Allowed cs m s

-- When the program may follow a null pointer: on a message that a job is done, of a server or of
-- success, about a job that has no server.
abbrev pub MayCrash : ℕ → Option Incoming → Scheduler → Type 0
MayCrash cs (some (job_done_msg m)) s = HasNoServer m (find_done cs m s).0
MayCrash cs m s = ⊥

module _ (net : Net) where
  admit-IsLive : (cs : ℕ) (r : Scheduler × Bool) → IsLive r.0 → IsLive (admit net cs r).0
  admit-IsLive cs (s, true) v = IsLive-from refl refl refl refl v
  admit-IsLive cs (s, false) v = handle_end-IsLive net cs s v

  typed-IsLive : (k : Kind) (cs : ℕ) (s : Scheduler) → IsLive s → IsLive (with_type net k cs s)
  typed-IsLive k cs s v = IsLive-from refl refl refl refl v

  try_login-IsLive :
      (cs : ℕ) (m : Incoming) (s : Scheduler) → IsLive s → IsLive (try_login net cs m s).0
  unfolding try_login
  try_login-IsLive cs (login_msg m) s v =
      admit-IsLive cs (handle_login net cs m (with_type net daemon cs s))
        (handle_login-IsLive net cs m _ (typed-IsLive daemon cs s v))
  try_login-IsLive cs mon_login_msg s v =
      admit-IsLive cs (handle_mon_login net cs (with_type net monitor cs s), true)
        (handle_mon_login-IsLive net cs _ (typed-IsLive monitor cs s v))
  try_login-IsLive cs (job_begin_msg id stime clients) s v = handle_end-IsLive net cs s v
  try_login-IsLive cs (job_done_msg m) s v = handle_end-IsLive net cs s v
  try_login-IsLive cs ping_from s v = handle_end-IsLive net cs s v
  try_login-IsLive cs (stats_msg m) s v = handle_end-IsLive net cs s v
  try_login-IsLive cs end_msg s v = handle_end-IsLive net cs s v
  try_login-IsLive cs (job_local_begin_msg m) s v = handle_end-IsLive net cs s v
  try_login-IsLive cs (job_local_done_msg id) s v = handle_end-IsLive net cs s v
  try_login-IsLive cs (text_line cmd words) s v = handle_end-IsLive net cs s v
  try_login-IsLive cs (get_cs_msg m) s v = handle_end-IsLive net cs s v
  try_login-IsLive cs (blacklist_msg m) s v = handle_end-IsLive net cs s v
  try_login-IsLive cs other_msg s v = handle_end-IsLive net cs s v

  module _ (fl : Floats) (now : ℕ) where
    handle_message-KeepsDone :
        (cs : ℕ) (m : Incoming) (s : Scheduler)
        → IsLive s
        → Allowed cs m s
        → KeepsDone (MayCrash cs (some m) s) (handle_message net fl now cs m s)
    unfolding handle_message
    handle_message-KeepsDone cs (login_msg m) s v a = handle_relogin-IsLive net cs m s v
    handle_message-KeepsDone cs mon_login_msg s v a = handle_end-IsLive net cs s v
    handle_message-KeepsDone cs (job_begin_msg id stime clients) s v a =
        handle_job_begin-IsLive net cs id stime clients s v
    handle_message-KeepsDone cs (job_done_msg m) s v a = handle_job_done-KeepsDone net fl cs m s v a
    handle_message-KeepsDone cs ping_from s v a = handle_ping-IsLive net now cs s v
    handle_message-KeepsDone cs (stats_msg m) s v a = handle_stats-IsLive net now cs m s v
    handle_message-KeepsDone cs end_msg s v a = handle_end-IsLive net cs s v
    handle_message-KeepsDone cs (job_local_begin_msg m) s v a =
        handle_local_job-IsLive net cs m s v a
    handle_message-KeepsDone cs (job_local_done_msg id) s v a =
        SameWork-IsLive (handle_local_job_done-SameWork net cs id s) v
    handle_message-KeepsDone cs (text_line cmd words) s v a =
        handle_line-IsLive net cs now cmd words s v
    handle_message-KeepsDone cs (get_cs_msg m) s v a = handle_cs_request-IsLive net cs m s v a.0 a.1
    handle_message-KeepsDone cs (blacklist_msg m) s v a =
        handle_blacklist_host_env-IsLive net cs m s v
    handle_message-KeepsDone cs other_msg s v a = handle_end-IsLive net cs s v

    in_state-KeepsDone :
        (st : State) (cs : ℕ) (m : Incoming) (s : Scheduler)
        → IsLive s
        → Allowed cs m s
        → KeepsDone (MayCrash cs (some m) s) (in_state net fl now st cs m s)
    in_state-KeepsDone connected cs m s v a = try_login-IsLive cs m s v
    in_state-KeepsDone logged_in cs m s v a = handle_message-KeepsDone cs m s v a

    -- Whatever a peer sends, or if its connection breaks, jobs, queue and servers stay in step, as long
    -- as the job ids do not wrap, requests come from connected daemons, and no message says that a job
    -- is done that still waits in the queue. The program follows a null pointer only on a message that
    -- a job without a server is done, if it comes from a server or has exit code 0.
    pub handle_activity-KeepsDone :
        (cs : ℕ) (m : Option Incoming) (s : Scheduler)
        → IsLive s
        → AllowedOption cs m s
        → KeepsDone (MayCrash cs m s) (handle_activity net fl now cs m s)
    unfolding handle_activity
    handle_activity-KeepsDone cs none s v a = handle_end-IsLive net cs s v
    handle_activity-KeepsDone cs (some m) s v a =
        in_state-KeepsDone (server_of s cs).state cs m s v a
