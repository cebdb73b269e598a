-- ===== src/Daemon/Jobs/Accounts/Start.antt =====
-- daemon/main.cpp: handle_old_request takes the slots of the jobs that it starts.
use icecream.Base.{
  ℕ, zero, suc, ◌≡◌, ◌+◌, ◌%◌, refl, true, false, ◌||◌, Option, none, some, if_of_both, arith,
}
use icecream.Comm.Requests.{UseCs}
use icecream.Daemon.{Status, Client, is_status, get_earliest_client}
use icecream.Daemon.{linkjob, pending_use_cs, tocompile}
use icecream.Daemon.Order.{get_earliest_client-some}
use icecream.Job.{u32}
use icecream.Daemon.Jobs.{Host, Daemon, add32, slots, find_client}
use icecream.Daemon.Jobs.OldRequest.{
  Round, set_work, start_local, start_pending, forked, try_compile, try_pending, try_local,
  is_loaded, has_slot, old_round, handle_old_request,
}
use icecream.Daemon.Jobs.Accounts.{
  held, MayBeFull, IsAccounted, find_client-All, find_client_unique, change-IsBooked,
}
use icecream.Daemon.Jobs.Accounts.End.{
  SameClients-IsAccounted, send_scheduler-SameClients, handle_end-IsAccounted,
}

-- A client of the daemon, under its channel.
abbrev pub IsClient : Daemon → Client → Type 0
IsClient d c = find_client c.channel d.clients ≡ some c

-- A client that waits holds no slot.
idle-held :
    (h : Host) (c : Client)
    → (is_status linkjob c || is_status pending_use_cs c || is_status tocompile c) ≡ true
    → held h c ≡ 0
idle-held h c e = ground arith

taken :
    (n w v u : ℕ)
    → v ≡ 0
    → u ≡ w
    → ((add32 n w + v) % u32 ≡ (n + u) % u32) × (add32 n w ≡ add32 n w % u32)
taken n w v u e q = (omega (arith, e, q), omega arith)

start_local-IsAccounted :
    (h : Host) (c : Client) (d : Daemon)
    → IsAccounted h d
    → IsClient d c
    → is_status linkjob c ≡ true
    → IsAccounted h (start_local h c d).0
unfolding start_local
start_local-IsAccounted h c d a q s =
    let t =
      taken d.active_processes (slots h c) (held h c) (slots h c)
        (idle-held h c (ground (arith, s))) refl in
    if_of_both (λ (r : Round). IsAccounted h r.0) _ _ _
      (SameClients-IsAccounted h _ _ (send_scheduler-SameClients h _ _) (
        change-IsBooked h c.channel set_work d.clients c d.active_processes
          (add32 d.active_processes (slots h c)) a q (λ x. refl) (λ f. refl) t.0 t.1))
      (handle_end-IsAccounted h c.channel 112 _ a)

-- A job that is not local takes one slot.
not_full :
    (c : Client)
    → MayBeFull c
    → (is_status pending_use_cs c || is_status tocompile c) ≡ true
    → c.fulljob ≡ false
not_full c m s = ground (arith, m)

one_slot : (h : Host) (c : Client) → c.fulljob ≡ false → slots h c ≡ 1
one_slot h c e = ground arith

start_pending-IsAccounted :
    (h : Host) (c : Client) (o : Option UseCs) (d : Daemon)
    → IsAccounted h d
    → IsClient d c
    → is_status pending_use_cs c ≡ true
    → IsAccounted h (start_pending h c o d).0
unfolding start_pending
start_pending-IsAccounted h c none d a q s = a
start_pending-IsAccounted h c (some m) d a q s =
    let one =
      not_full c (find_client-All h c.channel MayBeFull d.clients c q a.1) (ground (arith, s)) in
    let t =
      taken d.active_processes 1 (held h c) (slots h c) (idle-held h c (ground (arith, s)))
        (one_slot h c one) in
    if_of_both (λ (r : Round). IsAccounted h r.0) _ _ _
      (change-IsBooked h c.channel set_work d.clients c d.active_processes
        (add32 d.active_processes 1) a q (λ x. refl) (λ f. refl) t.0 t.1)
      (handle_end-IsAccounted h c.channel 129 _ a)

forked-IsAccounted :
    (h : Host) (c : Client) (o : Option ℕ) (d : Daemon)
    → IsAccounted h d
    → IsClient d c
    → is_status tocompile c ≡ true
    → IsAccounted h (forked h c o d).0
forked-IsAccounted h c none d a q s = handle_end-IsAccounted h c.channel 117 d a
forked-IsAccounted h c (some pid) d a q s =
    let one =
      not_full c (find_client-All h c.channel MayBeFull d.clients c q a.1) (ground (arith, s)) in
    SameClients-IsAccounted h _ _ (send_scheduler-SameClients h _ _) (
      change-IsBooked h c.channel _ d.clients c d.active_processes d.active_processes a q
        (λ x. refl) (λ f. ground arith) (omega (arith, idle-held h c (ground (arith, s))))
        (omega (arith, a.0)))

-- The clients that a search finds.
pub found-IsClient :
    (h : Host) (d : Daemon) (s : Status) (c : Client)
    → IsAccounted h d
    → get_earliest_client s d.clients ≡ some c
    → IsClient d c × (is_status s c ≡ true)
found-IsClient h d s c a q =
    let found = get_earliest_client-some s d.clients c q in
    (find_client_unique d.clients c a.2 found.0, found.1)

try_compile-IsAccounted :
    (h : Host) (o : Option Client) (d : Daemon)
    → IsAccounted h d
    → get_earliest_client tocompile d.clients ≡ o
    → IsAccounted h (try_compile h o d).0
try_compile-IsAccounted h none d a q = a
try_compile-IsAccounted h (some c) d a q =
    let found = found-IsClient h d tocompile c a q in
    forked-IsAccounted h c (h.handle_connection d.sent c) d a found.0 found.1

try_pending-IsAccounted :
    (h : Host) (o : Option Client) (d : Daemon)
    → IsAccounted h d
    → get_earliest_client pending_use_cs d.clients ≡ o
    → IsAccounted h (try_pending h o d).0
try_pending-IsAccounted h none d a q =
    if_of_both (λ (r : Round). IsAccounted h r.0) (is_loaded h d.current_load) (d, false) _ a
      (try_compile-IsAccounted h (get_earliest_client tocompile d.clients) d a refl)
try_pending-IsAccounted h (some c) d a q =
    let found = found-IsClient h d pending_use_cs c a q in
    start_pending-IsAccounted h c c.usecsmsg d a found.0 found.1

try_local-IsAccounted :
    (h : Host) (o : Option Client) (d : Daemon)
    → IsAccounted h d
    → get_earliest_client linkjob d.clients ≡ o
    → IsAccounted h (try_local h o d).0
try_local-IsAccounted h none d a q =
    try_pending-IsAccounted h (get_earliest_client pending_use_cs d.clients) d a refl
try_local-IsAccounted h (some c) d a q =
    let found = found-IsClient h d linkjob c a q in start_local-IsAccounted h c d a found.0 found.1

pub old_round-IsAccounted :
    (h : Host) (d : Daemon) → IsAccounted h d → IsAccounted h (old_round h d).0
unfolding old_round
old_round-IsAccounted h d a =
    if_of_both (λ (r : Round). IsAccounted h r.0) (has_slot h d) _ (d, false)
      (try_local-IsAccounted h (get_earliest_client linkjob d.clients) d a refl) a

-- Starting jobs keeps the accounts, for every number of rounds: active_processes is the sum of the slots
-- that the clients at work hold, all slots for a full job and one for another.
pub handle_old_request-IsAccounted :
    (h : Host) (rounds : ℕ) (d : Daemon)
    → IsAccounted h d
    → IsAccounted h (handle_old_request h rounds d)
unfolding handle_old_request
handle_old_request-IsAccounted h zero d a = a
handle_old_request-IsAccounted h (suc rounds) d a =
    let next = old_round-IsAccounted h d a in
    if_of_both (IsAccounted h) (old_round h d).1 _ _
      (handle_old_request-IsAccounted h rounds (old_round h d).0 next) next
