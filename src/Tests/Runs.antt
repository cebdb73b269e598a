-- ===== src/Tests/Runs.antt =====
-- Runs of the handlers, one after the other, and the theorems about them at concrete states.
use mathlib.Core.List.{Perm}
use icecream.Base.{◌+◌, ◌≡◌, ◌^◌, refl, true, false, none, some, [], ◌∷◌, leb, is_some, arith}
use icecream.Base.Int.{pos, ◌+ℤ◌, ◌≤ℤ◌}
use icecream.CompileServer.{CompileServer, daemon, new_server, server_at}
use icecream.CompileServer.Connect.{
  fails, update_in_connectivity, update_in_connectivity-doubles, fail_all, fail_all-in_bounds,
}
use icecream.Queue.Contents.{pending}
use icecream.Scheduler.Pick.Capacity.{pick_server-room}
use icecream.Scheduler.Prune.{Limits, Sockets, prune_servers}
use icecream.Scheduler.Prune.Keeps.{KeepsPruned, prune_servers-KeepsPruned}
use icecream.CompileServer.Methods.{append_job, current_job_count, max_preload_count}
use icecream.Scheduler.{Scheduler, send}
use icecream.Scheduler.Live.{IsLive}
use icecream.Scheduler.Requests.{GetCsMsg, cxx, handle_cs_request}
use icecream.Scheduler.Requests.Keeps.{handle_cs_request-IsLive}
use icecream.Scheduler.Requests.Contents.{pending-handle_cs_request}
use icecream.Scheduler.Speed.{JobDoneMsg}
use icecream.Scheduler.Dispatch.{empty_queue, job_at}
use icecream.Scheduler.Dispatch.Serves.{pending-empty_queue}
use icecream.Queue.{get_first_job_request}
use icecream.Scheduler.Dispatch.Keeps.{empty_queue-IsLive}
use icecream.Scheduler.Events.{LoginMsg, handle_login, handle_monitor_stats, end_stale}
use icecream.Scheduler.Done.{done, find_done, handle_job_done, unknown_job_client_id}
use icecream.Scheduler.Done.Keeps.{KeepsDone, HasNoServer, handle_job_done-KeepsDone}
use icecream.Scheduler.Activity.{
  login_msg, get_cs_msg, admit, with_type, try_login, handle_message, handle_activity,
}
use icecream.Scheduler.Activity.Keeps.{handle_activity-KeepsDone}
use icecream.Scheduler.Activity.Reach.{
  started, accept, starts, accepts, acts, dispatches, Reachable-IsLive,
}
use icecream.Tests.{
  first_request, picked, waiting_job, numbers, round_robin_options, good_net, idle_daemon,
  two_daemons, two_daemons-IsLive, queue,
}

-- A request for two jobs.
abbrev two_jobs : GetCsMsg
two_jobs = record {
  versions = ("x86_64", "gcc") ∷ [];
  filename = "a.cc";
  lang = cxx;
  count = 2;
  target = "x86_64";
  arg_flags = 0;
  client_id = 9;
  preferred_host = "";
  minimal_host_version = pos 0;
  required_features = 0;
  client_count = 1;
  niceness = 5;
}

abbrev hello : LoginMsg
hello = record {
  port = 10245;
  envs = [];
  max_kids = 4;
  noremote = false;
  nodename = "a";
  host_platform = "x86_64";
  chroot_possible = true;
  supported_features = 0;
}

-- The job 1 is given up by the client that asked for it, before it has a server.
abbrev given_up : JobDoneMsg
given_up = record {
  real_msec = 0;
  user_msec = 0;
  sys_msec = 0;
  exitcode = 1;
  flags = 3;
  out_uncompressed = 0;
  job_id = 9;
  client_count = 0;
}

empty_queue-IsLive_example :
    IsLive (empty_queue good_net numbers round_robin_options 100 two_daemons).0
empty_queue-IsLive_example =
    empty_queue-IsLive good_net numbers round_robin_options 100 two_daemons two_daemons-IsLive

handle_cs_request-IsLive_example : IsLive (handle_cs_request good_net 10 two_jobs two_daemons)
handle_cs_request-IsLive_example =
    handle_cs_request-IsLive good_net 10 two_jobs two_daemons two_daemons-IsLive refl (omega arith)

pending-handle_cs_request_example :
    Perm
      (pending (handle_cs_request good_net 10 two_jobs two_daemons).job_requests)
      (3 ∷ 4 ∷ pending queue)
pending-handle_cs_request_example =
    pending-handle_cs_request good_net 10 two_jobs two_daemons (omega arith)

handle_job_done-KeepsDone_example :
    KeepsDone
      (HasNoServer given_up (find_done 10 given_up two_daemons).0)
      (handle_job_done good_net numbers 10 given_up two_daemons)
unfolding unknown_job_client_id
handle_job_done-KeepsDone_example =
    handle_job_done-KeepsDone good_net numbers 10 given_up two_daemons two_daemons-IsLive (λ e. cc)

handle_activity-KeepsDone_example :
    KeepsDone ⊥ (handle_activity good_net numbers 100 10 (some (get_cs_msg two_jobs)) two_daemons)
handle_activity-KeepsDone_example =
    handle_activity-KeepsDone good_net numbers 100 10 (some (get_cs_msg two_jobs)) two_daemons
      two_daemons-IsLive (refl, omega arith)

abbrev new_peer : Scheduler
new_peer = accept 99 10 3 "a" 5 45 started

abbrev in_ : Scheduler
in_ = (admit good_net 10 (handle_login good_net 10 hello (with_type good_net daemon 10 new_peer))).0

logs_in : handle_activity good_net numbers 100 10 (some (login_msg hello)) new_peer ≡ done in_ true
unfolding handle_activity try_login accept new_server server_at handle_login
logs_in = refl

abbrev asked : Scheduler
asked = handle_cs_request good_net 10 two_jobs in_

asks : handle_activity good_net numbers 101 10 (some (get_cs_msg two_jobs)) in_ ≡ done asked true
unfolding handle_activity try_login accept new_server server_at handle_login handle_monitor_stats
    end_stale send handle_message
asks = refl

-- A daemon connects, logs in, asks for two jobs, and the first of them is given out.
Reachable-IsLive_example : IsLive (empty_queue good_net numbers round_robin_options 102 asked).0
unfolding handle_activity try_login accept new_server server_at handle_login handle_monitor_stats
    end_stale send handle_message
Reachable-IsLive_example =
    Reachable-IsLive good_net numbers (empty_queue good_net numbers round_robin_options 102 asked).0
      (dispatches round_robin_options 102 (
        acts 101 10 (some (get_cs_msg two_jobs)) true
          (acts 100 10 (some (login_msg hello)) true (accepts 99 10 3 "a" 5 45 starts) tt logs_in)
          (refl, omega arith) asks))

-- Seven tests have failed.
abbrev shut : CompileServer
shut = record (idle_daemon "a" 3) { in_conn_attempt = 7 }

update_in_connectivity-doubles_example :
    (t : CompileServer) × (update_in_connectivity 1000 false shut ≡ some t)
    × (t.next_conn_time ≡ 1000 + 2 ^ 8)
    × (t.in_conn_attempt ≡ 8)
    × (t.in_fd ≡ none)
update_in_connectivity-doubles_example = update_in_connectivity-doubles 1000 shut (omega arith)

fail_all-in_bounds_example : is_some (fail_all (1 ∷ 2 ∷ 3 ∷ 4 ∷ 5 ∷ 6 ∷ []) shut) ≡ leb (7 + 6) 12
fail_all-in_bounds_example = fail_all-in_bounds (1 ∷ 2 ∷ 3 ∷ 4 ∷ 5 ∷ 6 ∷ []) shut (omega arith)

pick_server-room_example :
    current_job_count (append_job 1 (server_at two_daemons.heap 10))
    ≤ℤ (server_at two_daemons.heap 10).max_jobs +ℤ max_preload_count (server_at two_daemons.heap 10)
pick_server-room_example =
    pick_server-room numbers round_robin_options two_daemons (waiting_job 1) 10 1 picked

abbrev fast_network : Limits
fast_network = record { ping = 36; pong = 3; installing = 120 }

-- Every connection test fails.
abbrev closed_ports : Sockets
closed_ports = record { socket = λ p. 20; connect = λ p. fails; healthy = λ p. false }

prune_servers-KeepsPruned_example :
    KeepsPruned good_net fast_network 1000 closed_ports two_daemons
      (prune_servers good_net fast_network 1000 closed_ports two_daemons)
prune_servers-KeepsPruned_example =
    prune_servers-KeepsPruned good_net fast_network 1000 closed_ports two_daemons two_daemons-IsLive

pending-empty_queue_example :
    ((empty_queue good_net numbers round_robin_options 100 two_daemons).1 ≡ true)
    × Perm (pending queue) (
        1
        ∷ pending (empty_queue good_net numbers round_robin_options 100 two_daemons).0.job_requests)
unfolding get_first_job_request job_at
pending-empty_queue_example =
    pending-empty_queue good_net (λ sent to m. refl) numbers round_robin_options 100 two_daemons
      first_request 10 two_daemons-IsLive refl picked
