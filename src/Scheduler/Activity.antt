-- ===== src/Scheduler/Activity.antt =====
-- try_login and handle_activity of scheduler/scheduler.cpp: what a peer sends, and who handles it.
pub mod Keeps
pub mod Reach
use Prim.Native.String.{String}
use icecream.Base.{ℕ, Bool, true, false, Option, none, some, List}
use icecream.Floats.{Floats}
use icecream.CompileServer.{CompileServer, State, connected, logged_in, Kind, daemon, monitor}
use icecream.Scheduler.{Scheduler, Net, with_server, server_of}
use icecream.Scheduler.End.{handle_end}
use icecream.Scheduler.Speed.{JobDoneMsg}
use icecream.Scheduler.Requests.{
  GetCsMsg, JobLocalBeginMsg, handle_cs_request, handle_local_job, handle_local_job_done,
}
use icecream.Scheduler.Events.{
  LoginMsg, StatsMsg, BlacklistHostEnvMsg, handle_login, handle_relogin, handle_mon_login,
  handle_job_begin, handle_ping, handle_stats, handle_blacklist_host_env,
}
use icecream.Scheduler.Done.{Done, done, handle_job_done}
use icecream.Scheduler.Lines.{handle_line}

-- A message by its type; `other_msg` is one of a type that the scheduler does not take. A line of
-- text is its command and its words.
pub data Incoming : Type 0 where
  login_msg : LoginMsg → Incoming
  mon_login_msg : Incoming
  job_begin_msg : ℕ → ℕ → ℕ → Incoming
  job_done_msg : JobDoneMsg → Incoming
  ping_from : Incoming
  stats_msg : StatsMsg → Incoming
  end_msg : Incoming
  job_local_begin_msg : JobLocalBeginMsg → Incoming
  job_local_done_msg : ℕ → Incoming
  text_line : String → List String → Incoming
  get_cs_msg : GetCsMsg → Incoming
  blacklist_msg : BlacklistHostEnvMsg → Incoming
  other_msg : Incoming

module _ (net : Net) where
  -- The end of try_login: the peer is in, or it goes.
  abbrev pub admit : ℕ → Scheduler × Bool → Scheduler × Bool
  admit cs (s, true) = (with_server cs (λ o. record o { state = logged_in }) s, true)
  admit cs (s, false) = (handle_end net cs s, false)

  abbrev pub with_type : Kind → ℕ → Scheduler → Scheduler
  with_type k cs s = with_server cs (λ o. record o { type = k }) s

  unfoldable pub try_login : ℕ → Incoming → Scheduler → Scheduler × Bool
  try_login cs (login_msg m) s = admit cs (handle_login net cs m (with_type daemon cs s))
  try_login cs mon_login_msg s = admit cs (handle_mon_login net cs (with_type monitor cs s), true)
  try_login cs m s = admit cs (s, false)

  abbrev pub answered : Scheduler × Bool → Done
  answered (s, answer) = done s answer

  module _ (fl : Floats) (now : ℕ) where
    -- The `switch` for a peer that is logged in.
    unfoldable pub handle_message : ℕ → Incoming → Scheduler → Done
    handle_message cs (job_begin_msg id stime clients) s =
        answered (handle_job_begin net cs id stime clients s)
    handle_message cs (job_done_msg m) s = handle_job_done net fl cs m s
    handle_message cs ping_from s = done (handle_ping net now cs s) true
    handle_message cs (stats_msg m) s = answered (handle_stats net now cs m s)
    handle_message cs end_msg s = done (handle_end net cs s) false
    handle_message cs (job_local_begin_msg m) s = done (handle_local_job net cs m s) true
    handle_message cs (job_local_done_msg id) s = done (handle_local_job_done net cs id s) true
    handle_message cs (login_msg m) s = answered (handle_relogin net cs m s)
    handle_message cs (text_line cmd words) s = answered (handle_line net cs now cmd words s)
    handle_message cs (get_cs_msg m) s = done (handle_cs_request net cs m s) true
    handle_message cs (blacklist_msg m) s = done (handle_blacklist_host_env net cs m s) true
    handle_message cs m s = done (handle_end net cs s) false

    abbrev pub in_state : State → ℕ → Incoming → Scheduler → Done
    in_state connected cs m s = answered (try_login cs m s)
    in_state logged_in cs m s = handle_message cs m s

    -- No message means that the connection broke.
    unfoldable pub handle_activity : ℕ → Option Incoming → Scheduler → Done
    handle_activity cs none s = done (handle_end net cs s) false
    handle_activity cs (some m) s = in_state (server_of s cs).state cs m s
