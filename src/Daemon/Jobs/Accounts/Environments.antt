-- ===== src/Daemon/Jobs/Accounts/Environments.antt =====
-- daemon/main.cpp: the messages about environments keep the accounts.
use icecream.Base.{
  ℕ, ◌≡◌, refl, sym, ◌∙◌, Bool, true, ◌&&◌, is_some, Option, none, some, [], ◌||◌, if_of_both,
  arith,
}
use icecream.Comm.{Bytes}
use icecream.Comm.Msg.{use_native_env_msg}
use icecream.Daemon.{Client, is_status}
use icecream.Daemon.{waitcreateenv, gotnative, toinstall, waitinstall}
use icecream.Daemon.Jobs.{Host, Daemon, change, delivered, in_transfer, transfer_over}
use icecream.Daemon.Jobs.Environments.{
  TransferMsg, file_chunk, end_of_file, unexpected, one_kid_less, finish_get_native_env, or_wait,
  handle_get_native_env, create_env_failed, finish_transfer_env, handle_transfer_env,
  handle_file_chunk_env, handle_env_install_child_done,
}
use icecream.Daemon.Jobs.Accounts.{MayBeFull, IsAccounted, find_client-All, find-with_client}
use icecream.Daemon.Jobs.Accounts.End.{
  SameClients-IsAccounted, cancel_transfer-SameClients, handle_end-IsAccounted,
}
use icecream.Daemon.Jobs.Accounts.Messages.{IsIdle, IsAt, change-IsAccounted, idle-held}

-- A client that installs an environment, or waits for one.
abbrev pub IsBusyWithEnv : Client → Type 0
IsBusyWithEnv c = (in_transfer c || is_status waitcreateenv c) ≡ true

env-IsIdle : (c : Client) → MayBeFull c → IsBusyWithEnv c → IsIdle c
env-IsIdle c m w = (ground (arith, w), ground (arith, m, w))

module _ (h : Host) (c : Client) (d : Daemon) where
  -- A client that holds no slot holds none in any state but that of work.
  idle-change :
      (f : Client → Client)
      → IsAccounted h d
      → IsAt d c
      → IsIdle c
      → ((x : Client) → (f x).channel ≡ x.channel)
      → IsIdle (f c)
      → IsAccounted h (change c.channel f d)
  idle-change f a q i g j =
      change-IsAccounted h f c d a q g (idle-held h (f c) j ∙ sym (idle-held h c i))
        (λ e. ground (arith, e, j))

  finish_transfer_env-IsAccounted :
      IsAccounted h d → IsAt d c → IsIdle c → IsAccounted h (finish_transfer_env h c d)
  unfolding finish_transfer_env
  finish_transfer_env-IsAccounted a q i =
      SameClients-IsAccounted h _ (change c.channel transfer_over d)
        (cancel_transfer-SameClients h c (change c.channel transfer_over d))
        (idle-change transfer_over a q i (λ x. refl) (refl, i.1))

  finish_get_native_env-idle :
      (name : Bytes)
      → IsAccounted h d
      → IsAt d c
      → IsIdle c
      → IsAccounted h (finish_get_native_env h c.channel name d).0
  unfolding finish_get_native_env
  finish_get_native_env-idle name a q i =
      if_of_both (λ (r : Daemon × Bool). IsAccounted h r.0)
        (delivered h (some c.channel, use_native_env_msg (record { native_version = name })) d) _ _
        (idle-change (λ x. record x { status = gotnative; pending_create_env = [] }) a q i
          (λ x. refl) (refl, i.1))
        (handle_end-IsAccounted h c.channel 138 _ a)

module _ (h : Host) (c : Client) (d : Daemon) where
  or_wait-IsAccounted :
      (native : Option Bytes)
      → IsAccounted h d
      → IsAt d c
      → IsIdle c
      → IsAccounted h (or_wait h c.channel native d).0
  or_wait-IsAccounted none a q i = a
  or_wait-IsAccounted (some name) a q i = finish_get_native_env-idle h c d name a q i

module _ (h : Host) (c : Client) (d : Daemon) (a : IsAccounted h d) (q : IsAt d c) where
  pub handle_get_native_env-IsAccounted :
      (env_key : Bytes) (there : Bool) (native : Option Bytes)
      → IsIdle c
      → IsAccounted h (handle_get_native_env h c env_key there native d).0
  unfolding handle_get_native_env
  handle_get_native_env-IsAccounted env_key there native i =
      let f : Client → Client =
        λ x. record x { status = waitcreateenv; pending_create_env = env_key } in
      if_of_both (λ (r : Daemon × Bool). IsAccounted h r.0) there _ _
        (or_wait-IsAccounted h (f c) (change c.channel f d) native
          (idle-change h c d f a q i (λ x. refl) (refl, i.1))
          (find-with_client h c.channel f d.clients c (λ x. refl) q) (refl, i.1))
        (handle_end-IsAccounted h c.channel 122 _ a)

  pub handle_transfer_env-IsAccounted :
      (outfile : Bytes) (pid : Option ℕ) (written : Bool)
      → IsIdle c
      → IsAccounted h (handle_transfer_env h c outfile pid written d).0
  unfolding handle_transfer_env
  handle_transfer_env-IsAccounted outfile none written i =
      handle_end-IsAccounted h c.channel 144 d a
  handle_transfer_env-IsAccounted outfile (some pid) written i =
      let f : Client → Client =
        λ x. record x { status = toinstall; outfile = outfile; child_pid = some pid } in
      let b = idle-change h c d f a q i (λ x. refl) (refl, i.1) in
      if_of_both (λ (r : Daemon × Bool). IsAccounted h r.0) written _ _ b
        (handle_end-IsAccounted h c.channel 137 _ b)

  busy-IsIdle : IsBusyWithEnv c → IsIdle c
  busy-IsIdle w = env-IsIdle c (find_client-All h c.channel MayBeFull d.clients c q a.1) w

  pub finish_get_native_env-IsAccounted :
      (name : Bytes) → IsBusyWithEnv c → IsAccounted h (finish_get_native_env h c.channel name d).0
  finish_get_native_env-IsAccounted name w =
      finish_get_native_env-idle h c d name a q (busy-IsIdle w)

  pub handle_file_chunk_env-IsAccounted :
      (m : TransferMsg) → IsBusyWithEnv c → IsAccounted h (handle_file_chunk_env h c m d)
  unfolding handle_file_chunk_env
  handle_file_chunk_env-IsAccounted (file_chunk written) w =
      if_of_both (IsAccounted h) written _ _ a (handle_end-IsAccounted h c.channel 137 d a)
  handle_file_chunk_env-IsAccounted end_of_file w =
      let i = busy-IsIdle w in
      if_of_both (IsAccounted h) (is_some c.child_pid) _ _
        (idle-change h c d (λ x. record x { status = waitinstall }) a q i (λ x. refl) (refl, i.1))
        (finish_transfer_env-IsAccounted h c d a q i)
  handle_file_chunk_env-IsAccounted unexpected w = handle_end-IsAccounted h c.channel 138 d a

  pub handle_env_install_child_done-IsAccounted :
      (success pipe : Bool)
      → IsBusyWithEnv c
      → IsAccounted h (handle_env_install_child_done h c success pipe d)
  unfolding handle_env_install_child_done
  handle_env_install_child_done-IsAccounted success pipe w =
      let i = busy-IsIdle w in
      let f : Client → Client = λ x. record x { child_pid = none } in
      let done = change c.channel f (one_kid_less d) in
      let b = idle-change h c d f a q i (λ x. refl) i in
      if_of_both (IsAccounted h) (success && pipe) done _ b (
        finish_transfer_env-IsAccounted h (f c) done b
          (find-with_client h c.channel f d.clients c (λ x. refl) q) i)

pub create_env_failed-IsAccounted :
    (h : Host) (channel : ℕ) (d : Daemon)
    → IsAccounted h d
    → IsAccounted h (create_env_failed h channel d)
unfolding create_env_failed
create_env_failed-IsAccounted h channel d a = handle_end-IsAccounted h channel 121 _ a
