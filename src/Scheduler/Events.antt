-- ===== src/Scheduler/Events.antt =====
-- The handlers of scheduler/scheduler.cpp for logins, statistics, and the begin of a job.
pub mod Keeps
use Prim.Native.String.{String}
use icecream.Base.{
  ℕ, ◌+◌, ◌%◌, ◌==◌, leb, str_eq, is_empty, is_nil, if◌then◌else◌, Bool, true, false, not, ◌&&◌,
  Option, none, some, List, [], ◌∷◌, ◌++◌, any, contains,
}
use icecream.Base.Map.{lookup, erase}
use icecream.Base.Int.{pos, ltb_ℤ, neg_ℤ}
use icecream.Job.{Job, Environments, compiling, to_int, u32}
use icecream.CompileServer.{CompileServer}
use icecream.CompileServer.Methods.{matches, blacklist_compile_server}
use icecream.Scheduler.{
  Scheduler, Net, send, mon_stats, mon_job_begin, conf_cs, with_server, with_job, server_of,
}
use icecream.Scheduler.Notify.{notify_monitors}
use icecream.Scheduler.End.{handle_end, is_server}

pub record LoginMsg : Type 0 where
  pub port : ℕ
  pub envs : Environments
  pub max_kids : ℕ
  pub noremote : Bool
  pub nodename : String
  pub host_platform : String
  pub chroot_possible : Bool
  pub supported_features : ℕ

pub record StatsMsg : Type 0 where
  pub load : ℕ
  pub client_count : ℕ

pub record BlacklistHostEnvMsg : Type 0 where
  pub environment : String
  pub target : String
  pub hostname : String

-- `setMaxJobs(maxJobs() * -1)` of a server that was withheld.
abbrev pub restored : CompileServer → CompileServer
restored cs = record cs {
  max_jobs = if ltb_ℤ cs.max_jobs (pos 0) then neg_ℤ cs.max_jobs else cs.max_jobs;
}

abbrev pub heard : ℕ → CompileServer → CompileServer
heard now cs = record (restored cs) { last_talk = now }

abbrev pub begun : ℕ → Job → Job
begun stime job = record job { state = compiling; start_time = stime }

module _ (net : Net) where
  -- handle_monitor_stats; the text of the message is left out.
  unfoldable pub handle_monitor_stats : ℕ → Scheduler → Scheduler
  handle_monitor_stats cs s =
      if is_nil s.monitors then s else notify_monitors net (mon_stats (server_of s cs).host_id) s

  -- The setters at the head of handle_login, pick_new_id among them.
  abbrev pub logged : LoginMsg → ℕ → CompileServer → CompileServer
  logged m id cs = record cs {
    remote_port = m.port;
    compiler_versions = m.envs;
    max_jobs = to_int m.max_kids;
    no_remote = m.noremote;
    node_name = if is_empty m.nodename then cs.name else m.nodename;
    host_platform = m.host_platform;
    chroot_possible = m.chroot_possible;
    features_supported = m.supported_features;
    host_id = id;
  }

  -- The loop that removes stale connections of the same daemon.
  unfoldable pub end_stale : ℕ → List ℕ → Scheduler → Scheduler
  end_stale cs [] s = s
  end_stale cs (p ∷ ps) s = end_stale cs ps (
      if (server_of s cs).ip == (server_of s p).ip
        && str_eq (server_of s cs).node_name (server_of s p).node_name
      then handle_end net p s
      else s)

  abbrev pub configure : ℕ → Scheduler → Scheduler
  configure cs s = if leb 24 (server_of s cs).protocol then (send net cs conf_cs s).0 else s

  unfoldable pub handle_login : ℕ → LoginMsg → Scheduler → Scheduler × Bool
  handle_login cs m s =
      let id = (s.host_id_counter + 1) % u32 in
      let t = with_server cs (logged m id) (record s { host_id_counter = id }) in
      let u = handle_monitor_stats cs t in
      let v = end_stale cs u.css u in
      if any (matches (server_of t cs)) t.block_css
      then (t, false)
      else (configure cs (record v { css = v.css ++ cs ∷ [] }), true)

  unfoldable pub handle_relogin : ℕ → LoginMsg → Scheduler → Scheduler × Bool
  handle_relogin cs m s = (
    configure cs
        (with_server cs (λ o. record o { compiler_versions = m.envs; busy_installing = 0 }) s),
    false,
  )

  abbrev pub stats_loop : List ℕ → Scheduler → Scheduler
  stats_loop [] s = s
  stats_loop (p ∷ ps) s = stats_loop ps (handle_monitor_stats p s)

  unfoldable pub handle_mon_login : ℕ → Scheduler → Scheduler
  handle_mon_login cs s =
      let t = stats_loop s.css (record s { monitors = s.monitors ++ cs ∷ [] }) in
      record t { fd2cs = erase (server_of t cs).fd t.fd2cs }

  abbrev pub begin_job : ℕ → ℕ → ℕ → ℕ → Option Job → Scheduler → Scheduler × Bool
  begin_job cs id stime clients none s = (s, false)
  begin_job cs id stime clients (some job) s =
      if not (is_server job.server cs) then (s, false) else (
        notify_monitors net (mon_job_begin id stime (server_of s cs).host_id) (
            with_job id (begun stime)
              (with_server cs (λ o. record o { client_count = to_int clients }) s)),
        true,
      )

  -- The fields of JobBeginMsg are the arguments: job_id, stime, client_count.
  unfoldable pub handle_job_begin : ℕ → ℕ → ℕ → ℕ → Scheduler → Scheduler × Bool
  handle_job_begin cs job_id stime client_count s =
      begin_job cs job_id stime client_count (lookup job_id s.jobs) s

  unfoldable pub handle_ping : ℕ → ℕ → Scheduler → Scheduler
  handle_ping now cs s = with_server cs (heard now) s

  unfoldable pub handle_stats : ℕ → ℕ → StatsMsg → Scheduler → Scheduler × Bool
  handle_stats now cs m s =
      let t = if leb 25 (server_of s cs).protocol then s else with_server cs (heard now) s in
      if contains cs t.css
      then (
        handle_monitor_stats cs (
            with_server cs (λ o. record o { load = m.load; client_count = to_int m.client_count })
              t),
        true,
      )
      else (t, false)

  abbrev pub blacklist_loop : ℕ → BlacklistHostEnvMsg → List ℕ → Scheduler → Scheduler
  blacklist_loop cs m [] s = s
  blacklist_loop cs m (p ∷ ps) s = blacklist_loop cs m ps (
      if str_eq (server_of s p).name m.hostname
      then with_server cs (blacklist_compile_server p (m.target, m.environment)) s
      else s)

  unfoldable pub handle_blacklist_host_env : ℕ → BlacklistHostEnvMsg → Scheduler → Scheduler
  handle_blacklist_host_env cs m s = blacklist_loop cs m s.css s
