-- ===== src/Scheduler/Prune.antt =====
-- prune_servers of scheduler/scheduler.cpp: the peers that have not answered for a long time.
pub mod Keeps
use icecream.Base.{
  ℕ, ◌+◌, ◌-◌, ◌*◌, min, leb, ◌==◌, if◌then◌else◌, Bool, not, ◌&&◌, Option, none, some, List, [],
  ◌∷◌,
}
use icecream.Base.Int.{ℤ, pos, negsuc, leb_ℤ, neg_ℤ}
use icecream.CompileServer.{CompileServer}
use icecream.CompileServer.Connect.{Connecting, start_in_connection_test, get_next_timeout}
use icecream.Scheduler.{Scheduler, Net, send, ping_msg, with_server, server_of}
use icecream.Scheduler.End.{handle_end}

-- MAX_SCHEDULER_PING, MAX_SCHEDULER_PONG and MAX_BUSY_INSTALLING of services/comm.h, which depend on
-- an option.
pub record Limits : Type 0 where
  pub ping : ℕ
  pub pong : ℕ
  pub installing : ℕ

-- What the system calls of a connection test give for the server at an address.
pub record Sockets : Type 0 where
  pub socket : ℕ → ℕ
  pub connect : ℕ → Connecting
  pub healthy : ℕ → Bool

-- `if (timeout != -1) min_time = min(min_time, timeout)`
abbrev pub min_timeout : ℕ → ℤ → ℕ
min_timeout m (pos n) = min m n
min_timeout m (negsuc n) = m

module _ (net : Net) (lim : Limits) (now : ℕ) where
  -- The loop over the control connections, with the time of the next call.
  unfoldable pub prune_controls : List ℕ → ℕ → Scheduler → Scheduler × ℕ
  prune_controls [] m s = (s, m)
  prune_controls (p ∷ ps) m s =
      let old = leb ((server_of s p).last_talk + lim.ping) now in
      prune_controls ps (if old then m else min m ((server_of s p).last_talk + lim.ping - now))
        (if old then handle_end net p s else s)

  -- A daemon that is silent is asked once, and gets no jobs until it answers.
  abbrev pub ask : ℕ → ℕ → Scheduler → Scheduler × ℕ
  ask p m s =
      let t = with_server p (λ cs. record cs { max_jobs = neg_ℤ cs.max_jobs }) s in
      let (u, sent) = send net p ping_msg t in
      if sent
      then (
        with_server p (λ cs. record cs { last_talk = now + 2 * lim.pong - lim.ping }) u,
        min m (2 * lim.pong),
      )
      else (handle_end net p u, m)

  -- One round of the loop over the daemons, behind the connection test.
  unfoldable pub prune_one : ℕ → ℕ → Scheduler → Scheduler × ℕ
  prune_one p m s =
      let cs = server_of s p in
      if not (cs.busy_installing == 0) && leb (cs.busy_installing + lim.installing) now
      then (handle_end net p s, m)
      else if leb 27 cs.protocol
      then (s, m)
      else if leb (cs.last_talk + lim.ping) now
      then (if leb_ℤ (pos 0) cs.max_jobs then ask p m s else (handle_end net p s, m))
      else (s, min m (cs.last_talk + lim.ping - now))

  module _ (os : Sockets) where
    abbrev pub tested : ℕ → ℕ → CompileServer → Scheduler → Scheduler × ℕ
    tested p m cs s =
        prune_one p (min_timeout m (get_next_timeout now cs)) (with_server p (λ old. cs) s)

    -- The loop over the daemons; `none` if a test reads outside its table.
    unfoldable pub prune_css : List ℕ → ℕ → Scheduler → Option (Scheduler × ℕ)
    prune_css [] m s = some (s, m)
    prune_css (p ∷ ps) m s =
        elim (start_in_connection_test now (os.socket p) (os.connect p) (os.healthy p)
          (server_of s p)) [
            | none ↦ none
            | some cs ↦ prune_css ps (tested p m cs s).1 (tested p m cs s).0
          ]

    unfoldable pub prune_servers : Scheduler → Option (Scheduler × ℕ)
    prune_servers s = let (t, m) = prune_controls s.controls lim.ping s in prune_css t.css m t
