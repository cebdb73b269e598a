-- ===== src/Daemon/Jobs/Accounts/Rounds.antt =====
-- daemon/main.cpp: how many rounds the loop of handle_old_request takes.
use icecream.Base.{
  ℕ, zero, suc, ◌≡◌, ◌≤◌, ◌<◌, ◌+◌, refl, sym, subst, Bool, true, false, ◌||◌, Option, none, some,
  List, [], ◌∷◌, if◌then◌else◌, if_of_both, if_of_each, arith,
}
use icecream.Comm.Requests.{UseCs}
use icecream.Daemon.{Client, is_status, get_earliest_client}
use icecream.Daemon.{linkjob, pending_use_cs, tocompile}
use icecream.Daemon.Jobs.{
  Host, Daemon, Sent, find_client, with_client, log, erase_client, in_transfer, end_client,
  end_found, says_bye, handle_end,
}
use icecream.Daemon.Jobs.OldRequest.{
  Round, set_work, start_local, start_pending, forked, try_compile, try_pending, try_local,
  is_loaded, has_slot, old_round, handle_old_request,
}
use icecream.Daemon.Jobs.Accounts.{IsAccounted}
use icecream.Daemon.Jobs.Accounts.End.{
  same_clients, send_scheduler-SameClients, report_end-SameClients,
}
use icecream.Daemon.Jobs.Accounts.Start.{IsClient, found-IsClient, old_round-IsAccounted}

-- A client that handle_old_request may start.
abbrev pub is_ready : Client → Bool
is_ready c = is_status linkjob c || is_status pending_use_cs c || is_status tocompile c

abbrev pub count_ready : List Client → ℕ
count_ready [] = 0
count_ready (c ∷ cs) = (if is_ready c then 1 else 0) + count_ready cs

module _ (k : ℕ) where
  count_ready-with_client :
      (f : Client → Client) (cs : List Client) (c : Client)
      → find_client k cs ≡ some c
      → is_ready c ≡ true
      → is_ready (f c) ≡ false
      → suc (count_ready (with_client k f cs)) ≡ count_ready cs
  count_ready-with_client f [] c q r e = cc
  count_ready-with_client f (x ∷ cs) c q r e = grind (arith, count_ready-with_client f cs c)

  count_ready-erase_client :
      (cs : List Client) (c : Client)
      → find_client k cs ≡ some c
      → is_ready c ≡ true
      → suc (count_ready (erase_client k cs)) ≡ count_ready cs
  count_ready-erase_client [] c q r = cc
  count_ready-erase_client (x ∷ cs) c q r = grind (arith, count_ready-erase_client cs c)

-- One client less is ready.
IsLess : Daemon → Daemon → Type 0
IsLess e d = suc (count_ready e.clients) ≡ count_ready d.clients

erased-IsLess :
    (c : Client) (d e : Daemon)
    → IsClient d c
    → is_ready c ≡ true
    → e.clients ≡ erase_client c.channel d.clients
    → IsLess e d
unfolding IsLess
erased-IsLess c d e q r s =
    subst (λ cs. suc (count_ready cs) ≡ count_ready d.clients) (sym s)
      (count_ready-erase_client c.channel d.clients c q r)

ready_idle : (c : Client) → is_ready c ≡ true → in_transfer c ≡ false
ready_idle c r = ground arith

end_found-IsLess :
    (h : Host) (exitcode : ℕ) (c : Client) (d : Daemon)
    → find_client c.channel d.clients ≡ some c
    → is_ready c ≡ true
    → IsLess (end_found h exitcode (some c) d) d
unfolding end_client
end_found-IsLess h exitcode c d q r =
    if_of_each (λ e. IsLess e d) (in_transfer c) _ _ (λ busy. grind (arith, ready_idle c r))
      (λ idle.
        erased-IsLess c d _ q r
          (same_clients _ _ (report_end-SameClients h exitcode (says_bye exitcode c) _)))

handle_end-IsLess :
    (h : Host) (exitcode : ℕ) (c : Client) (d : Daemon)
    → find_client c.channel d.clients ≡ some c
    → is_ready c ≡ true
    → IsLess (handle_end h c.channel exitcode d) d
unfolding handle_end
handle_end-IsLess h exitcode c d q r =
    subst (λ o. IsLess (end_found h exitcode o d) d) (sym q) (end_found-IsLess h exitcode c d q r)

-- A round that goes on leaves one client less to start.
GoesDown : Daemon → Round → Type 0
GoesDown d r = r.1 ≡ true → IsLess r.0 d

go_on : (d : Daemon) (r : Round) → IsLess r.0 d → GoesDown d r
unfolding GoesDown
go_on d r l e = l

over : (d e : Daemon) → GoesDown d (e, false)
unfolding GoesDown
over d e = λ e. cc

changed-IsLess :
    (f : Client → Client) (c : Client) (d e : Daemon)
    → IsClient d c
    → is_ready c ≡ true
    → is_ready (f c) ≡ false
    → e.clients ≡ with_client c.channel f d.clients
    → IsLess e d
unfolding IsLess
changed-IsLess f c d e q r n s =
    subst (λ cs. suc (count_ready cs) ≡ count_ready d.clients) (sym s)
      (count_ready-with_client c.channel f d.clients c q r n)

logged-IsLess : (m : Sent) (d e : Daemon) → IsLess e (log m d) → IsLess e d
unfolding IsLess
logged-IsLess m d e l = l

start_local-GoesDown :
    (h : Host) (c : Client) (d : Daemon)
    → IsClient d c
    → is_ready c ≡ true
    → GoesDown d (start_local h c d)
unfolding start_local
start_local-GoesDown h c d q r =
    if_of_both (GoesDown d) _ _ _
      (go_on d _ (
        changed-IsLess set_work c d _ q r refl
          (same_clients _ _ (send_scheduler-SameClients h _ _))))
      (go_on d _ (logged-IsLess _ d _ (handle_end-IsLess h 112 c (log _ d) q r)))

start_pending-GoesDown :
    (h : Host) (c : Client) (o : Option UseCs) (d : Daemon)
    → IsClient d c
    → is_ready c ≡ true
    → GoesDown d (start_pending h c o d)
unfolding start_pending
start_pending-GoesDown h c none d q r = over d d
start_pending-GoesDown h c (some m) d q r =
    if_of_both (GoesDown d) _ _ _ (go_on d _ (changed-IsLess set_work c d _ q r refl refl))
      (go_on d _ (logged-IsLess _ d _ (handle_end-IsLess h 129 c (log _ d) q r)))

forked-GoesDown :
    (h : Host) (c : Client) (o : Option ℕ) (d : Daemon)
    → IsClient d c
    → is_ready c ≡ true
    → GoesDown d (forked h c o d)
forked-GoesDown h c none d q r = go_on d _ (handle_end-IsLess h 117 c d q r)
forked-GoesDown h c (some pid) d q r =
    go_on d _
      (changed-IsLess _ c d _ q r refl (same_clients _ _ (send_scheduler-SameClients h _ _)))

try_compile-GoesDown :
    (h : Host) (o : Option Client) (d : Daemon)
    → IsAccounted h d
    → get_earliest_client tocompile d.clients ≡ o
    → GoesDown d (try_compile h o d)
try_compile-GoesDown h none d a q = over d d
try_compile-GoesDown h (some c) d a q =
    let found = found-IsClient h d tocompile c a q in
    forked-GoesDown h c (h.handle_connection d.sent c) d found.0 (ground (arith, found.1))

try_pending-GoesDown :
    (h : Host) (o : Option Client) (d : Daemon)
    → IsAccounted h d
    → get_earliest_client pending_use_cs d.clients ≡ o
    → GoesDown d (try_pending h o d)
try_pending-GoesDown h none d a q =
    if_of_both (GoesDown d) (is_loaded h d.current_load) (d, false) _ (over d d)
      (try_compile-GoesDown h (get_earliest_client tocompile d.clients) d a refl)
try_pending-GoesDown h (some c) d a q =
    let found = found-IsClient h d pending_use_cs c a q in
    start_pending-GoesDown h c c.usecsmsg d found.0 (ground (arith, found.1))

try_local-GoesDown :
    (h : Host) (o : Option Client) (d : Daemon)
    → IsAccounted h d
    → get_earliest_client linkjob d.clients ≡ o
    → GoesDown d (try_local h o d)
try_local-GoesDown h none d a q =
    try_pending-GoesDown h (get_earliest_client pending_use_cs d.clients) d a refl
try_local-GoesDown h (some c) d a q =
    let found = found-IsClient h d linkjob c a q in
    start_local-GoesDown h c d found.0 (ground (arith, found.1))

old_round-GoesDown : (h : Host) (d : Daemon) → IsAccounted h d → GoesDown d (old_round h d)
unfolding old_round
old_round-GoesDown h d a =
    if_of_both (GoesDown d) (has_slot h d) _ (d, false)
      (try_local-GoesDown h (get_earliest_client linkjob d.clients) d a refl) (over d d)

same_after :
    (b : Bool) (d e f : Daemon) → (b ≡ true → e ≡ f) → (if b then e else d) ≡ (if b then f else d)
same_after true d e f q = q refl
same_after false d e f q = refl

-- The loop of handle_old_request ends: with more rounds than clients that may be started, any further
-- round changes nothing. The accounts must be in order.
pub handle_old_request-ends :
    (h : Host) (rounds more : ℕ) (d : Daemon)
    → IsAccounted h d
    → count_ready d.clients < rounds
    → rounds ≤ more
    → handle_old_request h more d ≡ handle_old_request h rounds d
unfolding handle_old_request GoesDown IsLess
handle_old_request-ends h zero more d a q l = let no : ⊥ = omega (arith, q) in elim no [ ]
handle_old_request-ends h (suc rounds) zero d a q l = let no : ⊥ = omega (arith, l) in elim no [ ]
handle_old_request-ends h (suc rounds) (suc more) d a q l =
    let r = old_round h d in
    same_after r.1 r.0 (handle_old_request h more r.0) (handle_old_request h rounds r.0) (λ on.
      handle_old_request-ends h rounds more r.0 (old_round-IsAccounted h d a)
        (omega (arith, q, old_round-GoesDown h d a on)) (omega (arith, l)))
