-- ===== src/Daemon/Jobs.antt =====
-- daemon/main.cpp: the daemon's jobs, from the request of a client to the end of its connection. The
-- cache of environments is left out, and so are pipes and processes: what they answer is an argument of
-- the handlers.
pub mod Handlers
pub mod OldRequest
pub mod Ends
pub mod Environments
pub mod Accounts
use icecream.Base.{
  ℕ, ◌+◌, ◌-◌, ◌%◌, max, Bool, true, false, not, ◌&&◌, ◌||◌, is_some, Option, none, some, List, [],
  ◌∷◌, length, ltb, leb, ◌==◌, if◌then◌else◌,
}
use icecream.Job.{u32}
use icecream.Comm.{Bytes}
use icecream.Comm.Requests.{int_geb}
use icecream.Comm.Done.{JobDone, new_job_done, set_unknown_job_client_id}
use icecream.Comm.Hosts.{Login, Stats}
use icecream.Comm.Msg.{Msg, job_done_msg, job_local_done_msg, login_msg, stats_msg}
use icecream.Daemon.{Client, is_status}
use icecream.Daemon.{
  unknown, toinstall, waitinstall, tocompile, waitforcs, waitcompile, clientwork, waitforchild,
}

-- A message that was handed to send_msg: to the scheduler, or to the client with a channel.
abbrev pub Sent : Type 0
Sent = Option ℕ × Msg

-- What a daemon runs with. What the network, the clock, the load and fork answer may depend on all that
-- was sent before, newest first. `login` and `stats` are the messages that reannounce_environments and
-- maybe_stats build.
pub record Host : Type 0 where
  pub max_kids : ℕ
  pub daemon_port : ℕ
  pub remote_name : Bytes
  pub delivers : List Sent → Sent → Bool
  pub time : List Sent → ℕ
  pub login : List Sent → Login
  pub stats : List Sent → Stats
  pub handle_connection : List Sent → Client → Option ℕ

-- `clients` and `active_processes` are Clients; `scheduler` says whether that pointer is not null, and
-- `current_load` is none for the -1000 of the start. icecream_load is left out: `stats` has what comes of it.
pub record Daemon : Type 0 where
  pub clients : List Client
  pub active_processes : ℕ
  pub new_client_id : ℕ
  pub current_load : Option ℕ
  pub scheduler : Bool
  pub max_scheduler_pong : ℕ
  pub max_scheduler_ping : ℕ
  pub current_kids : ℕ
  pub sent : List Sent

-- `unsigned int`
abbrev pub add32 : ℕ → ℕ → ℕ
add32 a b = (a + b) % u32

abbrev pub sub32 : ℕ → ℕ → ℕ
sub32 a b = (a + (u32 - b % u32)) % u32

-- `std::max((unsigned int)1, max_kids)`
abbrev pub all_slots : Host → ℕ
all_slots h = max 1 h.max_kids

abbrev pub find_client : ℕ → List Client → Option Client
find_client channel [] = none
find_client channel (c ∷ cs) =
    let rest = find_client channel cs in if c.channel == channel then some c else rest

-- A change of the client with a channel.
abbrev pub with_client : ℕ → (Client → Client) → List Client → List Client
with_client channel f [] = []
with_client channel f (c ∷ cs) =
    let rest = with_client channel f cs in if c.channel == channel then f c ∷ cs else c ∷ rest

abbrev pub erase_client : ℕ → List Client → List Client
erase_client channel [] = []
erase_client channel (c ∷ cs) =
    let rest = erase_client channel cs in if c.channel == channel then cs else c ∷ rest

-- `clients[channel] = c`, for a new channel.
abbrev pub insert_client : Client → List Client → List Client
insert_client c [] = c ∷ []
insert_client c (x ∷ cs) =
    let rest = insert_client c cs in if ltb c.channel x.channel then c ∷ x ∷ cs else x ∷ rest

abbrev pub change : ℕ → (Client → Client) → Daemon → Daemon
change channel f d = record d { clients = with_client channel f d.clients }

abbrev pub reserve : ℕ → Daemon → Daemon
reserve n d = record d { active_processes = add32 d.active_processes n }

abbrev pub release : ℕ → Daemon → Daemon
release n d = record d { active_processes = sub32 d.active_processes n }

abbrev pub slots : Host → Client → ℕ
slots h c = if c.fulljob then all_slots h else 1

abbrev pub log : Sent → Daemon → Daemon
log m d = record d { sent = m ∷ d.sent }

abbrev pub or_zero : Option ℕ → ℕ
or_zero none = 0
or_zero (some id) = id

-- JobDoneMsg::FROM_SERVER and FROM_SUBMITTER
abbrev pub from_server : ℕ
from_server = 0

abbrev pub from_submitter : ℕ
from_submitter = 1

-- Whether maybe_stats tells the scheduler.
abbrev pub load_changed : ℕ → Option ℕ → Bool
load_changed load none = true
load_changed load (some current) =
    leb 100 ((load - current) + (current - load))
    || (load == 1000 && not (current == 1000))
    || (not (load == 1000) && current == 1000)

abbrev pub told : Stats → Daemon × Bool → Daemon × Bool
told msg (d, false) = (d, false)
told msg (d, true) = (record d { current_load = some msg.load }, true)

abbrev pub in_transfer : Client → Bool
in_transfer c = is_status toinstall c || is_status waitinstall c

-- finish_transfer_env(client, true), the client's part and the daemon's.
abbrev pub transfer_over : Client → Client
transfer_over c = record c { status = unknown; outfile = []; child_pid = none }

-- The message about the job of a client that is gone. With a job id in one of the states without jobs
-- the source stops at an assert, or goes on as here.
abbrev pub last_words : ℕ → Client → Daemon → JobDone
last_words exitcode c d =
    let job_id = if is_status tocompile c then or_zero c.job else c.job_id in
    let flag = if is_status tocompile c then from_server else from_submitter in
    let msg = new_job_done job_id exitcode flag (length d.clients) in
    if is_status waitforcs c then set_unknown_job_client_id c.client_id msg else msg

-- The client forgets its job on a real good bye, and its slots.
abbrev pub says_bye : ℕ → Client → Client
says_bye exitcode c = record c {
  fulljob = false;
  job_id = if is_status waitcompile c && exitcode == 119 then 0 else c.job_id;
}

module _ (h : Host) where
  abbrev pub delivered : Sent → Daemon → Bool
  delivered m d = h.delivers d.sent m

  -- The scheduler's channel is closed after a message that could not be sent.
  unfoldable pub send_scheduler : Msg → Daemon → Daemon × Bool
  send_scheduler m d =
      if d.scheduler
      then (record (log (none, m) d) { scheduler = delivered (none, m) d }, delivered (none, m) d)
      else (d, false)

  pub reannounce_environments : Daemon → Daemon × Bool
  reannounce_environments d = send_scheduler (login_msg (h.login d.sent)) d

  -- maybe_stats(true)
  pub maybe_stats : Daemon → Daemon × Bool
  maybe_stats d =
      let msg = h.stats d.sent in
      let sent = send_scheduler (stats_msg msg) d in
      told msg (if load_changed msg.load d.current_load then sent else (d, true))

  pub cancel_transfer : Client → Daemon → Daemon
  cancel_transfer c d =
      let killed =
        if is_some c.child_pid then record d { current_kids = sub32 d.current_kids 1 } else d in
      (maybe_stats (reannounce_environments killed).0).0

  unfoldable pub report_end : ℕ → Client → Daemon → Daemon
  report_end exitcode c d =
      let job_id = if is_status tocompile c then or_zero c.job else c.job_id in
      let done = (send_scheduler (job_done_msg (last_words exitcode c d)) d).0 in
      let local_done =
        (send_scheduler (job_local_done_msg (record { job_id = c.client_id })) d).0 in
      if d.scheduler && not (is_status waitforchild c)
      then (if int_geb job_id 1 || is_status waitforcs c
          then done
          else if is_status clientwork c
          then local_done
          else d)
      else d

  abbrev pub release_slots : Client → Daemon → Daemon
  release_slots c d = if is_status clientwork c then release (slots h c) d else d

  unfoldable pub end_client : ℕ → Client → Daemon → Daemon
  end_client exitcode c d =
      report_end exitcode (says_bye exitcode c)
        (record (release_slots c d) { clients = erase_client c.channel d.clients })

  abbrev pub end_found : ℕ → Option Client → Daemon → Daemon
  end_found exitcode none d = d
  end_found exitcode (some c) d =
      let over = transfer_over c in
      if in_transfer c
      then end_client exitcode over (cancel_transfer c (change c.channel transfer_over d))
      else end_client exitcode c d

  unfoldable pub handle_end : ℕ → ℕ → Daemon → Daemon
  handle_end channel exitcode d = end_found exitcode (find_client channel d.clients) d
