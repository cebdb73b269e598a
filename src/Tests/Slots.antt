-- ===== src/Tests/Slots.antt =====
-- Runs of the daemon's jobs of daemon/main.cpp, and instances of the theorems about them.
use icecream.Base.{ℕ, ◌≡◌, refl, true, false, some, [], ◌∷◌, arith}
use icecream.Client.{codes}
use icecream.Comm.Jobs.{JobLocalBegin}
use icecream.Daemon.{Client, new_client, get_earliest_client, earliest_loop}
use icecream.Daemon.{pending_use_cs}
use icecream.Daemon.Order.{IsEarliest, get_earliest_client-IsEarliest}
use icecream.Daemon.Jobs.{Host, Daemon, send_scheduler, handle_end, end_client, report_end}
use icecream.Daemon.Jobs.Handlers.{accept_client, handle_local_job}
use icecream.Daemon.Jobs.Environments.{
  handle_get_native_env, finish_get_native_env, handle_transfer_env, handle_env_install_child_done,
}
use icecream.Daemon.Jobs.OldRequest.{handle_old_request, old_round, start_local}
use icecream.Daemon.Jobs.Accounts.Rounds.{handle_old_request-ends}
use icecream.Daemon.Jobs.Accounts.Reach.{
  new_daemon, fresh, next, accepted, local_job, daemon-IsAccounted,
}

-- Four slots, and a network that takes everything.
abbrev host : Host
host = record {
  max_kids = 4;
  daemon_port = 10245;
  remote_name = [];
  delivers = λ log m. true;
  time = λ log. 0;
  login = λ log. record {
    port = 0;
    max_kids = 4;
    envs = [];
    nodename = [];
    host_platform = [];
    chroot_possible = false;
    noremote = false;
    supported_features = 0;
  };
  stats = λ log. record { load = 0; load_avg1 = 0; load_avg5 = 0; load_avg10 = 0; free_mem = 0 };
  handle_connection = λ log c. some 1;
}

abbrev link : JobLocalBegin
link = record { stime = 0; outfile = codes "a.out"; id = 0; fulljob = true; niceness = 0 }

abbrev d0 : Daemon
d0 = new_daemon true 3 36

abbrev d1 : Daemon
d1 = accept_client 7 d0

abbrev d2 : Daemon
d2 = handle_local_job 7 link d1

abbrev d3 : Daemon
d3 = handle_old_request host 5 d2

-- A full job takes all four slots, and gives them back.
full_job : d3.active_processes ≡ 4
unfolding accept_client handle_local_job new_client handle_old_request old_round get_earliest_client
    earliest_loop start_local send_scheduler
full_job = refl

full_job_over : (handle_end host 7 119 d3).active_processes ≡ 0
unfolding accept_client handle_local_job new_client handle_old_request old_round get_earliest_client
    earliest_loop start_local send_scheduler handle_end end_client report_end
full_job_over = refl

abbrev waiting : ℕ → ℕ → ℕ → Client
waiting channel id niceness = record (new_client channel id) {
  status = pending_use_cs;
  niceness = niceness;
}

-- A client gets an environment that is there, and then transfers one; the child ends before the end of
-- the transfer.
env_ready :
    (handle_get_native_env host (new_client 7 1) (codes "gcc") true (some (codes "e")) d1).1 ≡ true
unfolding handle_get_native_env finish_get_native_env
env_ready = refl

install_over :
    (handle_env_install_child_done host
      (new_client 7 1)
      true
      true
      (handle_transfer_env host (new_client 7 1) (codes "t/e") (some 40) true d1).0).current_kids
    ≡ 0
unfolding handle_env_install_child_done handle_transfer_env new_client accept_client
install_over = refl

-- Of two clients of the same niceness the one with the smaller channel is taken, not the one that came first.
same_niceness :
    get_earliest_client pending_use_cs (waiting 1 9 0 ∷ waiting 2 3 0 ∷ []) ≡ some (waiting 1 9 0)
unfolding get_earliest_client earliest_loop new_client
same_niceness = refl

get_earliest_client-IsEarliest_example :
    IsEarliest pending_use_cs
      (waiting 1 9 5 ∷ waiting 2 3 0 ∷ [])
      (get_earliest_client pending_use_cs (waiting 1 9 5 ∷ waiting 2 3 0 ∷ []))
unfolding new_client
get_earliest_client-IsEarliest_example =
    get_earliest_client-IsEarliest pending_use_cs (waiting 1 9 5 ∷ waiting 2 3 0 ∷ [])
      (omega arith, (omega arith, tt))

-- Two rounds are enough for one client.
handle_old_request-ends_example : handle_old_request host 9 d2 ≡ handle_old_request host 2 d2
unfolding accept_client handle_local_job new_client
handle_old_request-ends_example =
    handle_old_request-ends host 2 9 d2
      (daemon-IsAccounted host d2 (
        next d1 _ (next d0 _ (fresh true 3 36) (accepted 7 refl))
          (local_job (new_client 7 1) link refl (refl, refl))))
      (omega arith) (omega arith)
