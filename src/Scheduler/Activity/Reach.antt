-- ===== src/Scheduler/Activity/Reach.antt =====
-- The states that the scheduler can get into: the main loop of scheduler/scheduler.cpp as a step
-- relation. Connections are accepted, peers send messages or break off, silent peers are
-- pruned, and pending requests are given out, in any order.
use Prim.Native.String.{String}
use icecream.Base.{ℕ, ◌==◌, ◌≡◌, refl, subst, Bool, if◌then◌else◌, Option, some, [], if_of_both}
use icecream.Base.Map.{insert}
use icecream.Floats.{Floats}
use icecream.JobStat.{no_stats}
use icecream.CompileServer.{CompileServer, new_server}
use icecream.CompileServer.Connect.{poll_connection_test}
use icecream.Scheduler.{Scheduler, Net, with_server, server_of}
use icecream.Scheduler.End.{handle_end}
use icecream.Scheduler.End.Leaves.{handle_end-IsLive}
use icecream.Scheduler.Live.{IsLive, IsLive-from}
use icecream.Scheduler.Pick.{Options}
use icecream.Scheduler.Dispatch.{empty_queue}
use icecream.Scheduler.Dispatch.Keeps.{empty_queue-IsLive}
use icecream.Scheduler.Done.{done}
use icecream.Scheduler.Done.Keeps.{KeepsDone}
use icecream.Scheduler.Lines.{handle_control_login}
use icecream.Scheduler.Lines.Keeps.{handle_control_login-IsLive}
use icecream.Scheduler.Prune.{Limits, Sockets, prune_servers}
use icecream.Scheduler.Prune.Keeps.{KeepsPruned, prune_servers-KeepsPruned}
use icecream.Scheduler.Activity.{Incoming, handle_activity}
use icecream.Scheduler.Activity.Keeps.{AllowedOption, MayCrash, handle_activity-KeepsDone}

-- The globals when the program starts.
abbrev pub started : Scheduler
started = record {
  heap = [];
  fd2cs = [];
  css = [];
  monitors = [];
  controls = [];
  block_css = [];
  new_job_id = 0;
  host_id_counter = 0;
  jobs = [];
  job_requests = [];
  stats = no_stats;
  sent = [];
}

-- `new CompileServer(...)` at the address `p`, and `fd2cs[cs->fd] = cs`.
abbrev pub connect_peer : ℕ → CompileServer → Scheduler → Scheduler
connect_peer p cs s = record s { heap = insert p cs s.heap; fd2cs = insert cs.fd p s.fd2cs }

-- A connection on the port for daemons and monitors, if the peer speaks the protocol.
unfoldable pub accept : ℕ → ℕ → ℕ → String → ℕ → ℕ → Scheduler → Scheduler
accept now p fd name ip protocol s =
    if protocol == 0
    then s
    else connect_peer p (record (new_server fd name ip protocol) { last_talk = now }) s

accept-IsLive :
    (now p fd : ℕ) (name : String) (ip protocol : ℕ) (s : Scheduler)
    → IsLive s
    → IsLive (accept now p fd name ip protocol s)
unfolding accept
accept-IsLive now p fd name ip protocol s v =
    if_of_both IsLive (protocol == 0) _ _ v (IsLive-from refl refl refl refl v)

module _ (net : Net) where
  -- A connection on the port for control, which is closed when it cannot be greeted.
  unfoldable pub accept_control : ℕ → ℕ → ℕ → String → ℕ → ℕ → Scheduler → Scheduler
  accept_control now p fd name ip protocol s =
      let (t, sent) =
        handle_control_login net now p (connect_peer p (new_server fd name ip protocol) s) in
      if sent then t else handle_end net p t

  module _ (fl : Floats) where
    pub data Reachable : Scheduler → Type 0 where
      starts : Reachable started
      accepts :
          (now p fd : ℕ) (name : String) (ip protocol : ℕ) {s : Scheduler}
          → Reachable s
          → Reachable (accept now p fd name ip protocol s)
      accepts_control :
          (now p fd : ℕ) (name : String) (ip protocol : ℕ) {s : Scheduler}
          → Reachable s
          → Reachable (accept_control now p fd name ip protocol s)
      polls :
          (now p : ℕ) (healthy set : Bool) (active_fds : ℕ) (cs : CompileServer) {s : Scheduler}
          → Reachable s
          → poll_connection_test now healthy set active_fds (server_of s p) ≡ some cs
          → Reachable (with_server p (λ old. cs) s)
      acts :
          (now cs : ℕ) (m : Option Incoming) (answer : Bool) {s t : Scheduler}
          → Reachable s
          → AllowedOption cs m s
          → handle_activity net fl now cs m s ≡ done t answer
          → Reachable t
      prunes :
          (lim : Limits) (os : Sockets) (now next : ℕ) {s t : Scheduler}
          → Reachable s
          → prune_servers net lim now os s ≡ some (t, next)
          → Reachable t
      dispatches :
          (o : Options) (now : ℕ) {s : Scheduler}
          → Reachable s
          → Reachable (empty_queue net fl o now s).0

    started-IsLive : IsLive started
    started-IsLive = record {
      unique = tt;
      sound = λ k job e. cc;
      ordered = tt;
      distinct = tt;
      queued = tt;
    }

    accept_control-IsLive :
        (now p fd : ℕ) (name : String) (ip protocol : ℕ) (s : Scheduler)
        → IsLive s
        → IsLive (accept_control now p fd name ip protocol s)
    unfolding accept_control
    accept_control-IsLive now p fd name ip protocol s v =
        let t = connect_peer p (new_server fd name ip protocol) s in
        let t_live : IsLive t = IsLive-from refl refl refl refl v in
        let r = handle_control_login net now p t in
        let w = handle_control_login-IsLive net p now t t_live in
        if_of_both IsLive r.1 _ _ w (handle_end-IsLive net p r.0 w)

    -- In every state that the scheduler can get into, by connections, messages, broken connections,
    -- pruning and dispatch in any order, jobs, queue and servers fit together: every job stands once,
    -- under its own id, and its submitter and the server that it is given to, if any, are connected
    -- daemons; every request in the queue stands once and is a job with no server, of its group's
    -- submitter and niceness; and the queue is in order. The job ids must not wrap, requests come from
    -- connected daemons, and no message says that a job is done that still waits in the queue.
    pub Reachable-IsLive : (s : Scheduler) → Reachable s → IsLive s
    Reachable-IsLive _ starts = started-IsLive
    Reachable-IsLive _ (accepts now p fd name ip protocol {s} r) =
        accept-IsLive now p fd name ip protocol s (Reachable-IsLive s r)
    Reachable-IsLive _ (accepts_control now p fd name ip protocol {s} r) =
        accept_control-IsLive now p fd name ip protocol s (Reachable-IsLive s r)
    Reachable-IsLive _ (polls now p healthy set active_fds cs {s} r e) =
        IsLive-from refl refl refl refl (Reachable-IsLive s r)
    Reachable-IsLive t (acts now cs m answer {s} r a e) =
        subst (KeepsDone (MayCrash cs m s)) e
          (handle_activity-KeepsDone net fl now cs m s (Reachable-IsLive s r) a)
    Reachable-IsLive t (prunes lim os now next {s} r e) =
        subst (KeepsPruned net lim now os s) e
          (prune_servers-KeepsPruned net lim now os s (Reachable-IsLive s r))
    Reachable-IsLive _ (dispatches o now {s} r) =
        empty_queue-IsLive net fl o now s (Reachable-IsLive s r)
