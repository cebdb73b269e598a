-- ===== src/Scheduler/Events/Keeps.antt =====
-- The handlers of logins, statistics and the begin of a job keep the invariant.
use icecream.Base.{
  ℕ, ◌+◌, ◌%◌, if◌then◌else◌, ◌==◌, ◌&&◌, refl, Bool, true, false, Option, none, some, List, [],
  ◌∷◌, ◌++◌, leb, str_eq, if_of_both, is_nil, any, contains, not, arith,
}
use icecream.Base.Map.{lookup}
use icecream.Job.{Job, to_int, u32}
use icecream.CompileServer.Methods.{matches}
use icecream.Scheduler.{
  Scheduler, Net, send, mon_stats, mon_job_begin, server_of, with_server, with_job,
}
use icecream.Scheduler.Notify.{SameWork, SameWork-refl, SameWork-trans, notify_monitors-SameWork}
use icecream.Scheduler.End.{is_server}
use icecream.Scheduler.End.Leaves.{handle_end-IsLive}
use icecream.Scheduler.Live.{IsLive, IsLive-from, SameWork-IsLive}
use icecream.Scheduler.Live.Jobs.{connect-IsLive, touch-IsLive}
use icecream.Scheduler.Events.{
  LoginMsg, StatsMsg, BlacklistHostEnvMsg, handle_monitor_stats, logged, end_stale, configure,
  handle_login, handle_relogin, stats_loop, handle_mon_login, begun, begin_job, handle_job_begin,
  heard, handle_ping, handle_stats, blacklist_loop, handle_blacklist_host_env,
}

module _ (net : Net) where
  handle_monitor_stats-SameWork :
      (cs : ℕ) (s : Scheduler) → SameWork s (handle_monitor_stats net cs s)
  unfolding handle_monitor_stats
  handle_monitor_stats-SameWork cs s =
      if_of_both (SameWork s) (is_nil s.monitors) _ _ (SameWork-refl s)
        (notify_monitors-SameWork net (mon_stats (server_of s cs).host_id) s)

  end_stale-IsLive :
      (cs : ℕ) (ps : List ℕ) (s : Scheduler) → IsLive s → IsLive (end_stale net cs ps s)
  unfolding end_stale
  end_stale-IsLive cs [] s v = v
  end_stale-IsLive cs (p ∷ ps) s v = end_stale-IsLive cs ps _ (
      if_of_both IsLive
        ((server_of s cs).ip == (server_of s p).ip
          && str_eq (server_of s cs).node_name (server_of s p).node_name)
        _ _ (handle_end-IsLive net p s v) v)

  configure-SameWork : (cs : ℕ) (s : Scheduler) → SameWork s (configure net cs s)
  unfolding send
  configure-SameWork cs s = ground arith

  -- A daemon that logs in may replace a stale one; jobs, queue and servers fit together afterwards.
  pub handle_login-IsLive :
      (cs : ℕ) (m : LoginMsg) (s : Scheduler) → IsLive s → IsLive (handle_login net cs m s).0
  unfolding handle_login
  handle_login-IsLive cs m s v =
      let t =
        with_server cs (logged net m ((s.host_id_counter + 1) % u32))
          (record s { host_id_counter = (s.host_id_counter + 1) % u32 }) in
      let t_live : IsLive t = IsLive-from refl refl refl refl v in
      let u = handle_monitor_stats net cs t in
      let w = end_stale net cs u.css u in
      let w_live : IsLive w =
        end_stale-IsLive cs u.css u (SameWork-IsLive (handle_monitor_stats-SameWork cs t) t_live) in
      if_of_both (λ (r : Scheduler × Bool). IsLive r.0) (any (matches (server_of t cs)) t.block_css)
        (t, false) (configure net cs (record w { css = w.css ++ cs ∷ [] }), true) t_live
        (SameWork-IsLive (configure-SameWork cs (record w { css = w.css ++ cs ∷ [] }))
          (connect-IsLive w w_live cs))

  pub handle_relogin-IsLive :
      (cs : ℕ) (m : LoginMsg) (s : Scheduler) → IsLive s → IsLive (handle_relogin net cs m s).0
  unfolding handle_relogin
  handle_relogin-IsLive cs m s v =
      SameWork-IsLive (configure-SameWork cs _) (IsLive-from refl refl refl refl v)

  stats_loop-SameWork : (ps : List ℕ) (s : Scheduler) → SameWork s (stats_loop net ps s)
  stats_loop-SameWork [] s = SameWork-refl s
  stats_loop-SameWork (p ∷ ps) s =
      SameWork-trans (handle_monitor_stats-SameWork p s)
        (stats_loop-SameWork ps (handle_monitor_stats net p s))

  pub handle_mon_login-IsLive :
      (cs : ℕ) (s : Scheduler) → IsLive s → IsLive (handle_mon_login net cs s)
  unfolding handle_mon_login
  handle_mon_login-IsLive cs s v = IsLive-from refl refl refl refl (
      SameWork-IsLive (stats_loop-SameWork s.css (record s { monitors = s.monitors ++ cs ∷ [] }))
        (IsLive-from refl refl refl refl v))

  begin_job-IsLive :
      (cs id stime clients : ℕ) (job : Option Job) (s : Scheduler)
      → IsLive s
      → IsLive (begin_job net cs id stime clients job s).0
  begin_job-IsLive cs id stime clients none s v = v
  begin_job-IsLive cs id stime clients (some job) s v =
      let t = with_server cs (λ o. record o { client_count = to_int clients }) s in
      let t_live : IsLive t = IsLive-from refl refl refl refl v in
      if_of_both (λ (r : Scheduler × Bool). IsLive r.0) (not (is_server job.server cs)) _ _ v
        (SameWork-IsLive
          (notify_monitors-SameWork net (mon_job_begin id stime (server_of s cs).host_id)
            (with_job id (begun stime) t))
          (touch-IsLive t t_live id (begun stime)
            (λ j. record { id = refl; submitter = refl; niceness = refl; server = refl })))

  pub handle_job_begin-IsLive :
      (cs job_id stime clients : ℕ) (s : Scheduler)
      → IsLive s
      → IsLive (handle_job_begin net cs job_id stime clients s).0
  unfolding handle_job_begin
  handle_job_begin-IsLive cs job_id stime clients s v =
      begin_job-IsLive cs job_id stime clients (lookup job_id s.jobs) s v

  pub handle_stats-IsLive :
      (now cs : ℕ) (m : StatsMsg) (s : Scheduler)
      → IsLive s
      → IsLive (handle_stats net now cs m s).0
  unfolding handle_stats
  handle_stats-IsLive now cs m s v =
      let heard_from = with_server cs (heard now) s in
      let h_live : IsLive heard_from = IsLive-from refl refl refl refl v in
      let t = if leb 25 (server_of s cs).protocol then s else heard_from in
      let t_live : IsLive t =
        if_of_both IsLive (leb 25 (server_of s cs).protocol) s heard_from v h_live in
      if_of_both (λ (r : Scheduler × Bool). IsLive r.0) (contains cs t.css) _ _
        (SameWork-IsLive (handle_monitor_stats-SameWork cs _)
          (IsLive-from refl refl refl refl t_live))
        t_live

  pub handle_ping-IsLive :
      (now cs : ℕ) (s : Scheduler) → IsLive s → IsLive (handle_ping net now cs s)
  unfolding handle_ping
  handle_ping-IsLive now cs s v = IsLive-from refl refl refl refl v

  blacklist_loop-IsLive :
      (cs : ℕ) (m : BlacklistHostEnvMsg) (ps : List ℕ) (s : Scheduler)
      → IsLive s
      → IsLive (blacklist_loop net cs m ps s)
  blacklist_loop-IsLive cs m [] s v = v
  blacklist_loop-IsLive cs m (p ∷ ps) s v = blacklist_loop-IsLive cs m ps _ (
      if_of_both IsLive (str_eq (server_of s p).name m.hostname) _ _
        (IsLive-from refl refl refl refl v) v)

  pub handle_blacklist_host_env-IsLive :
      (cs : ℕ) (m : BlacklistHostEnvMsg) (s : Scheduler)
      → IsLive s
      → IsLive (handle_blacklist_host_env net cs m s)
  unfolding handle_blacklist_host_env
  handle_blacklist_host_env-IsLive cs m s v = blacklist_loop-IsLive cs m s.css s v
