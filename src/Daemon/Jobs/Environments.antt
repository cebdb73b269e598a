-- ===== src/Daemon/Jobs/Environments.antt =====
-- daemon/main.cpp: the messages about environments, as far as they change clients. What the file system,
-- the cache of environments, the processes and the pipes answer are arguments.
use icecream.Base.{ℕ, Bool, true, false, ◌&&◌, is_some, Option, none, some, [], if◌then◌else◌}
use icecream.Comm.{Bytes}
use icecream.Comm.Msg.{end_msg, use_native_env_msg}
use icecream.Daemon.{Client}
use icecream.Daemon.{waitcreateenv, gotnative, toinstall, waitinstall}
use icecream.Daemon.Jobs.{
  Sent, Host, Daemon, add32, sub32, change, log, delivered, transfer_over, cancel_transfer,
  handle_end,
}

-- What a client sends while it transfers an environment. The Boolean says that all of the chunk went
-- into the pipe, or that the child had closed it.
pub data TransferMsg : Type 0 where
  file_chunk : Bool → TransferMsg
  end_of_file unexpected : TransferMsg

abbrev pub one_kid_less : Daemon → Daemon
one_kid_less d = record d { current_kids = sub32 d.current_kids 1 }

module _ (h : Host) where
  -- The environment `name` for a client that waits for it.
  unfoldable pub finish_get_native_env : ℕ → Bytes → Daemon → Daemon × Bool
  finish_get_native_env channel name d =
      let mail : Sent = (some channel, use_native_env_msg (record { native_version = name })) in
      let got_it =
        change channel (λ (c : Client). record c { status = gotnative; pending_create_env = [] })
          (log mail d) in
      if delivered h mail d then (got_it, true) else (handle_end h channel 138 (log mail d), false)

  abbrev pub or_wait : ℕ → Option Bytes → Daemon → Daemon × Bool
  or_wait channel none d = (d, true)
  or_wait channel (some name) d = finish_get_native_env channel name d

  -- `there` says that the compiler and all extra files are found, `native` is the environment for the
  -- key, if there is one that still fits; else it is created, or under way.
  unfoldable pub handle_get_native_env :
      Client → Bytes → Bool → Option Bytes → Daemon → Daemon × Bool
  handle_get_native_env c env_key there native d =
      let waits =
        change c.channel
          (λ (c : Client). record c { status = waitcreateenv; pending_create_env = env_key }) d in
      if there
      then or_wait c.channel native waits
      else (handle_end h c.channel 122 (log (some c.channel, end_msg) d), false)

  -- create_env_finished without an environment, for one client that waits for it.
  unfoldable pub create_env_failed : ℕ → Daemon → Daemon
  create_env_failed channel d = handle_end h channel 121 (log (some channel, end_msg) d)

  -- finish_transfer_env: a child that is still there is killed.
  unfoldable pub finish_transfer_env : Client → Daemon → Daemon
  finish_transfer_env c d = cancel_transfer h c (change c.channel transfer_over d)

  -- `outfile` is the target with the name, `pid` what start_install_environment answers; `written` says
  -- that the first chunk went into the pipe.
  unfoldable pub handle_transfer_env : Client → Bytes → Option ℕ → Bool → Daemon → Daemon × Bool
  handle_transfer_env c outfile none written d = (handle_end h c.channel 144 d, false)
  handle_transfer_env c outfile (some pid) written d =
      let installs =
        change c.channel
          (λ (c : Client). record c { status = toinstall; outfile = outfile; child_pid = some pid })
          (record d { current_kids = add32 d.current_kids 1 }) in
      if written then (installs, true) else (handle_end h c.channel 137 installs, false)

  unfoldable pub handle_file_chunk_env : Client → TransferMsg → Daemon → Daemon
  handle_file_chunk_env c (file_chunk written) d =
      if written then d else handle_end h c.channel 137 d
  handle_file_chunk_env c end_of_file d =
      if is_some c.child_pid
      then change c.channel (λ (c : Client). record c { status = waitinstall }) d
      else finish_transfer_env c d
  handle_file_chunk_env c unexpected d = handle_end h c.channel 138 d

  -- `pipe` says that the pipe to the child is still there, so that more is to come.
  unfoldable pub handle_env_install_child_done : Client → Bool → Bool → Daemon → Daemon
  handle_env_install_child_done c success pipe d =
      let done =
        change c.channel (λ (c : Client). record c { child_pid = none }) (one_kid_less d) in
      if success && pipe then done else finish_transfer_env (record c { child_pid = none }) done
