-- ===== src/Daemon/Jobs/Accounts/Reach.antt =====
-- The states that the daemon of daemon/main.cpp can get into, as a step relation: clients connect, send
-- messages and hang up, environments are made and installed, the scheduler answers, and jobs are
-- started, in any order.
use icecream.Base.{ℕ, ◌≡◌, refl, Bool, true, not, ◌||◌, Option, none, []}
use icecream.Comm.{Bytes}
use icecream.Comm.Requests.{GetCs, UseCs, NoCs}
use icecream.Comm.Jobs.{JobLocalBegin}
use icecream.Comm.Done.{JobDone}
use icecream.Comm.Hosts.{ConfCs}
use icecream.Daemon.{Client, is_status, find_by_client_id}
use icecream.Daemon.{clientwork}
use icecream.Daemon.Jobs.{Host, Daemon, find_client, handle_end}
use icecream.Daemon.Jobs.Handlers.{
  accept_client, handle_local_job, handle_cs_conf, handle_get_cs, scheduler_use_cs, scheduler_no_cs,
  handle_job_done, handle_compile_file,
}
use icecream.Daemon.Jobs.Environments.{
  TransferMsg, handle_get_native_env, finish_get_native_env, create_env_failed, handle_transfer_env,
  handle_file_chunk_env, handle_env_install_child_done,
}
use icecream.Daemon.Jobs.Accounts.Environments.{
  IsBusyWithEnv, handle_get_native_env-IsAccounted, finish_get_native_env-IsAccounted,
  create_env_failed-IsAccounted, handle_transfer_env-IsAccounted, handle_file_chunk_env-IsAccounted,
  handle_env_install_child_done-IsAccounted,
}
use icecream.Daemon.Jobs.Ends.{JobStatistics, handle_compile_done, clear_children}
use icecream.Daemon.Jobs.OldRequest.{handle_old_request}
use icecream.Daemon.Jobs.Accounts.{IsAccounted}
use icecream.Daemon.Jobs.Accounts.End.{handle_end-IsAccounted}
use icecream.Daemon.Jobs.Accounts.Clear.{
  handle_compile_done-IsAccounted, clear_children-IsAccounted,
}
use icecream.Daemon.Jobs.Accounts.Start.{handle_old_request-IsAccounted}
use icecream.Daemon.Jobs.Accounts.Messages.{
  IsIdle, IsAt, IsWaiting, accept_client-IsAccounted, handle_local_job-IsAccounted,
  handle_get_cs-IsAccounted, handle_compile_file-IsAccounted, handle_job_done-IsAccounted,
  use_found-IsAccounted, no_found-IsAccounted,
}

-- The daemon when it starts, or when it has reached a scheduler.
abbrev pub new_daemon : Bool → ℕ → ℕ → Daemon
new_daemon scheduler pong ping = record {
  clients = [];
  active_processes = 0;
  new_client_id = 0;
  current_load = none;
  scheduler = scheduler;
  max_scheduler_pong = pong;
  max_scheduler_ping = ping;
  current_kids = 0;
  sent = [];
}

-- A client asks for a server, a local job or an environment when it holds no slot; the scheduler answers clients
-- that wait for it, and a job is compiled here for a client without a mark for all slots.
pub data Step (h : Host) (d : Daemon) : Daemon → Type 0 where
  accepted :
      (channel : ℕ) → find_client channel d.clients ≡ none → Step h d (accept_client channel d)
  local_job :
      (c : Client) (m : JobLocalBegin)
      → IsAt d c
      → IsIdle c
      → Step h d (handle_local_job c.channel m d)
  asked : (c : Client) (m : GetCs) → IsAt d c → IsIdle c → Step h d (handle_get_cs h c m d).0
  job_came :
      (c : Client) (id : ℕ)
      → IsAt d c
      → (is_status clientwork c || not c.fulljob) ≡ true
      → Step h d (handle_compile_file h c id d).0
  job_over : (c : Client) (m : JobDone) → IsAt d c → Step h d (handle_job_done h c m d).0
  ended : (channel exitcode : ℕ) → Step h d (handle_end h channel exitcode d)
  server_found :
      (m : UseCs)
      → IsWaiting (find_by_client_id m.client_id d.clients)
      → Step h d (scheduler_use_cs h m d).0
  no_server :
      (m : NoCs)
      → IsWaiting (find_by_client_id m.client_id d.clients)
      → Step h d (scheduler_no_cs h m d).0
  configured : (m : ConfCs) → Step h d (handle_cs_conf m d)
  compile_ended :
      (c : Client) (read : Option JobStatistics) → Step h d (handle_compile_done h c read d)
  scheduler_lost : Step h d (clear_children h d)
  native_env_asked :
      (c : Client) (env_key : Bytes) (there : Bool) (native : Option Bytes)
      → IsAt d c
      → IsIdle c
      → Step h d (handle_get_native_env h c env_key there native d).0
  native_env_made :
      (c : Client) (name : Bytes)
      → IsAt d c
      → IsBusyWithEnv c
      → Step h d (finish_get_native_env h c.channel name d).0
  native_env_failed : (channel : ℕ) → Step h d (create_env_failed h channel d)
  transfer_begins :
      (c : Client) (outfile : Bytes) (pid : Option ℕ) (written : Bool)
      → IsAt d c
      → IsIdle c
      → Step h d (handle_transfer_env h c outfile pid written d).0
  transfer_goes_on :
      (c : Client) (m : TransferMsg)
      → IsAt d c
      → IsBusyWithEnv c
      → Step h d (handle_file_chunk_env h c m d)
  install_ended :
      (c : Client) (success pipe : Bool)
      → IsAt d c
      → IsBusyWithEnv c
      → Step h d (handle_env_install_child_done h c success pipe d)
  jobs_started : (rounds : ℕ) → Step h d (handle_old_request h rounds d)

pub data Reachable (h : Host) : Daemon → Type 0 where
  fresh : (scheduler : Bool) (pong ping : ℕ) → Reachable h (new_daemon scheduler pong ping)
  next : (d e : Daemon) → Reachable h d → Step h d e → Reachable h e

step-IsAccounted : (h : Host) (d e : Daemon) → Step h d e → IsAccounted h d → IsAccounted h e
unfolding scheduler_use_cs scheduler_no_cs handle_cs_conf
step-IsAccounted h d _ (accepted channel q) a = accept_client-IsAccounted h channel d a q
step-IsAccounted h d _ (local_job c m q i) a = handle_local_job-IsAccounted h c m d a q i
step-IsAccounted h d _ (asked c m q i) a = handle_get_cs-IsAccounted h c m d a q i
step-IsAccounted h d _ (job_came c id q i) a = handle_compile_file-IsAccounted h c id d a q i
step-IsAccounted h d _ (job_over c m q) a = handle_job_done-IsAccounted h c m d a q
step-IsAccounted h d _ (ended channel exitcode) a = handle_end-IsAccounted h channel exitcode d a
step-IsAccounted h d _ (server_found m w) a = use_found-IsAccounted h m _ d a refl w
step-IsAccounted h d _ (no_server m w) a = no_found-IsAccounted h m _ d a refl w
step-IsAccounted h d _ (configured m) a = a
step-IsAccounted h d _ (compile_ended c read) a = handle_compile_done-IsAccounted h c read d a
step-IsAccounted h d _ scheduler_lost a = clear_children-IsAccounted h d a
step-IsAccounted h d _ (native_env_asked c env_key there native q i) a =
    handle_get_native_env-IsAccounted h c d a q env_key there native i
step-IsAccounted h d _ (native_env_made c name q w) a =
    finish_get_native_env-IsAccounted h c d a q name w
step-IsAccounted h d _ (native_env_failed channel) a = create_env_failed-IsAccounted h channel d a
step-IsAccounted h d _ (transfer_begins c outfile pid written q i) a =
    handle_transfer_env-IsAccounted h c d a q outfile pid written i
step-IsAccounted h d _ (transfer_goes_on c m q w) a =
    handle_file_chunk_env-IsAccounted h c d a q m w
step-IsAccounted h d _ (install_ended c success pipe q w) a =
    handle_env_install_child_done-IsAccounted h c d a q success pipe w
step-IsAccounted h d _ (jobs_started rounds) a = handle_old_request-IsAccounted h rounds d a

pub daemon-IsAccounted : (h : Host) (d : Daemon) → Reachable h d → IsAccounted h d
daemon-IsAccounted h _ (fresh scheduler pong ping) = (refl, tt, tt)
daemon-IsAccounted h _ (next d e r s) = step-IsAccounted h d e s (daemon-IsAccounted h d r)
