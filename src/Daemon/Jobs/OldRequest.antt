-- ===== src/Daemon/Jobs/OldRequest.antt =====
-- daemon/main.cpp: handle_old_request, which starts jobs as long as there are free slots.
use icecream.Base.{
  ℕ, zero, suc, Bool, true, false, Option, none, some, [], length, ltb, leb, if◌then◌else◌,
}
use icecream.Comm.Requests.{UseCs}
use icecream.Comm.Msg.{use_cs_msg, job_begin_msg, job_local_begin_msg}
use icecream.Daemon.{Client, get_earliest_client}
use icecream.Daemon.{pending_use_cs, linkjob, tocompile, clientwork, waitforchild}
use icecream.Daemon.Jobs.{
  Sent, Host, Daemon, add32, all_slots, change, reserve, slots, log, send_scheduler, handle_end,
  delivered, or_zero,
}

-- What a round of the loop leaves, and whether the loop goes on.
abbrev pub Round : Type 0
Round = Daemon × Bool

abbrev pub set_work : Client → Client
set_work c = record c { status = clientwork }

module _ (h : Host) where
  -- A local job gets its slots, and the scheduler hears of it.
  unfoldable pub start_local : Client → Daemon → Round
  start_local c d =
      let mail : Sent = (
        some c.channel,
        job_local_begin_msg
            (record { stime = h.time d.sent; outfile = []; id = 0; fulljob = false; niceness = 0 }),
      ) in
      let works = reserve (slots h c) (change c.channel set_work (log mail d)) in
      let begun = job_local_begin_msg (record {
        stime = h.time d.sent;
        outfile = c.outfile;
        id = c.client_id;
        fulljob = c.fulljob;
        niceness = 0;
      }) in
      if delivered h mail d
      then send_scheduler h begun works
      else (handle_end h c.channel 112 (log mail d), true)

  -- A client whose server is this host gets a slot. It has a usecsmsg.
  unfoldable pub start_pending : Client → Option UseCs → Daemon → Round
  start_pending c none d = (d, false)
  start_pending c (some m) d =
      let mail : Sent = (some c.channel, use_cs_msg m) in
      if delivered h mail d
      then (reserve 1 (change c.channel set_work (log mail d)), true)
      else (handle_end h c.channel 129 (log mail d), true)

  abbrev pub forked : Client → Option ℕ → Daemon → Round
  forked c none d = (handle_end h c.channel 117 d, true)
  forked c (some pid) d =
      let waits =
        change c.channel (λ (c : Client). record c { status = waitforchild; child_pid = some pid })
          (record d { current_kids = add32 d.current_kids 1 }) in
      (
        (send_scheduler h
            (job_begin_msg (record {
              job_id = or_zero c.job;
              stime = h.time d.sent;
              client_count = length d.clients;
            }))
            waits).0,
        true,
      )

  abbrev pub try_compile : Option Client → Daemon → Round
  try_compile none d = (d, false)
  try_compile (some c) d = forked c (h.handle_connection d.sent c) d

  -- No job for others as long as the load is high.
  abbrev pub is_loaded : Option ℕ → Bool
  is_loaded none = false
  is_loaded (some load) = leb 1000 load

  abbrev pub try_pending : Option Client → Daemon → Round
  try_pending (some c) d = start_pending c c.usecsmsg d
  try_pending none d =
      if is_loaded d.current_load
      then (d, false)
      else try_compile (get_earliest_client tocompile d.clients) d

  abbrev pub try_local : Option Client → Daemon → Round
  try_local (some c) d = start_local c d
  try_local none d = try_pending (get_earliest_client pending_use_cs d.clients) d

  abbrev pub has_slot : Daemon → Bool
  has_slot d = ltb (add32 d.current_kids d.active_processes) (all_slots h)

  unfoldable pub old_round : Daemon → Round
  old_round d =
      if has_slot d then try_local (get_earliest_client linkjob d.clients) d else (d, false)

  -- The loop, on fuel.
  unfoldable pub handle_old_request : ℕ → Daemon → Daemon
  handle_old_request zero d = d
  handle_old_request (suc rounds) d =
      let (next, goes_on) = old_round d in
      let rest = handle_old_request rounds next in if goes_on then rest else next
