-- ===== src/Daemon/Jobs/Handlers.antt =====
-- daemon/main.cpp: the messages of clients and of the scheduler, and the choice of the next job.
use icecream.Base.{
  ℕ, suc, Bool, true, false, ◌&&◌, Option, none, some, [], length, ◌==◌, if◌then◌else◌,
}
use icecream.Comm.{Bytes}
use icecream.Client.{codes, str_equal}
use icecream.Comm.Requests.{GetCs, UseCs, NoCs}
use icecream.Comm.Jobs.{JobLocalBegin}
use icecream.Comm.Done.{JobDone, new_job_done}
use icecream.Comm.Hosts.{ConfCs}
use icecream.Comm.Msg.{use_cs_msg, get_cs_msg, job_begin_msg, job_done_msg}
use icecream.Daemon.{Client, new_client, is_status, find_by_client_id}
use icecream.Daemon.{
  pending_use_cs, jobdone, linkjob, tocompile, waitforcs, waitcompile, clientwork,
}
use icecream.Daemon.Jobs.{
  Sent, Host, Daemon, insert_client, change, log, send_scheduler, from_submitter, release_slots,
  handle_end, delivered,
}

-- Every client gets the next number; its channel is new.
unfoldable pub accept_client : ℕ → Daemon → Daemon
accept_client channel d =
    let id = suc d.new_client_id in
    record d { new_client_id = id; clients = insert_client (new_client channel id) d.clients }

unfoldable pub handle_local_job : ℕ → JobLocalBegin → Daemon → Daemon
handle_local_job channel m d =
    change channel
      (λ (c : Client). record c {
        status = linkjob;
        niceness = m.niceness;
        outfile = m.outfile;
        fulljob = m.fulljob;
      })
      d

unfoldable pub handle_cs_conf : ConfCs → Daemon → Daemon
handle_cs_conf m d = record d {
  max_scheduler_pong = m.max_scheduler_pong;
  max_scheduler_ping = m.max_scheduler_ping;
}

-- UseCSMsg(platform, host, port, id, true, 1, matched)
abbrev pub new_use_cs : Bytes → Bytes → ℕ → ℕ → ℕ → UseCs
new_use_cs platform host port id matched = record {
  job_id = id;
  hostname = host;
  port = port;
  host_platform = platform;
  got_env = 1;
  client_id = 1;
  matched_job_id = matched;
}

-- A job for the daemon itself.
abbrev pub as_local : Host → Bytes → ℕ → ℕ → Client → Client
as_local h platform id matched c = record c {
  status = pending_use_cs;
  usecsmsg = some (new_use_cs platform (codes "127.0.0.1") h.daemon_port id matched);
  job_id = id;
}

module _ (h : Host) where
  unfoldable pub handle_get_cs : Client → GetCs → Daemon → Daemon × Bool
  handle_get_cs c m d =
      let waits =
        change c.channel (λ (c : Client). record c { status = waitforcs; niceness = m.niceness })
          d in
      let asked =
        send_scheduler h
          (get_cs_msg (record m { client_id = c.client_id; client_count = length d.clients }))
          waits in
      if d.scheduler
      then asked
      else (change c.channel (as_local h m.target c.client_id 0) waits, true)

  -- The client of a scheduler's answer is gone.
  abbrev pub submitter_gone : ℕ → Daemon → Daemon × Bool
  submitter_gone job_id d =
      send_scheduler h (job_done_msg (new_job_done job_id 107 from_submitter (length d.clients))) d

  -- The server for a client: this host, or another one, which the client is told at once.
  abbrev pub use_found : UseCs → Option Client → Daemon → Daemon × Bool
  use_found m none d = submitter_gone m.job_id d
  use_found m (some c) d =
      let here = str_equal m.hostname h.remote_name && m.port == h.daemon_port in
      let asked =
        change c.channel
          (λ (c : Client). record c {
            usecsmsg =
                some (new_use_cs m.host_platform m.hostname m.port m.job_id m.matched_job_id);
          })
          d in
      let mail : Sent = (some c.channel, use_cs_msg m) in
      let told = log mail asked in
      if here
      then (change c.channel (as_local h m.host_platform m.job_id m.matched_job_id) d, true)
      else if delivered h mail d
      then (
        change c.channel (λ (c : Client). record c { status = waitcompile; job_id = m.job_id })
            told,
        true,
      )
      else (handle_end h c.channel 143 told, true)

  unfoldable pub scheduler_use_cs : UseCs → Daemon → Daemon × Bool
  scheduler_use_cs m d = use_found m (find_by_client_id m.client_id d.clients) d

  abbrev pub no_found : NoCs → Option Client → Daemon → Daemon × Bool
  no_found m none d = submitter_gone m.job_id d
  no_found m (some c) d = (change c.channel (as_local h [] m.job_id 0) d, true)

  unfoldable pub scheduler_no_cs : NoCs → Daemon → Daemon × Bool
  scheduler_no_cs m d = no_found m (find_by_client_id m.client_id d.clients) d

  -- The job is over for its client. The id in the message is the client's.
  unfoldable pub handle_job_done : Client → JobDone → Daemon → Daemon × Bool
  handle_job_done c m d =
      let over =
        change c.channel
          (λ (c : Client). record c { status = jobdone; fulljob = false; job_id = 0 })
          (release_slots h c d) in
      send_scheduler h (job_done_msg (record m { client_count = length d.clients })) over

  -- The id of the job stands for the job.
  unfoldable pub handle_compile_file : Client → ℕ → Daemon → Daemon × Bool
  handle_compile_file c id d =
      let taken = change c.channel (λ (c : Client). record c { job = some id }) d in
      let begun =
        send_scheduler h
          (job_begin_msg
            (record { job_id = id; stime = h.time d.sent; client_count = length d.clients }))
          taken in
      if is_status clientwork c
      then begun
      else (change c.channel (λ (c : Client). record c { status = tocompile }) taken, true)
