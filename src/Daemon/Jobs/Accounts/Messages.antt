-- ===== src/Daemon/Jobs/Accounts/Messages.antt =====
-- daemon/main.cpp: the messages to a daemon keep the accounts.
use icecream.Base.{
  ℕ, suc, ◌≡◌, ◌+◌, ◌%◌, refl, sym, Bool, true, false, not, ◌||◌, Option, none, some, List, [], ◌∷◌,
  All, find_if-some, ltb, ◌==◌, if_of_both, if_of_each, arith,
}
use icecream.Comm.{Bytes}
use icecream.Comm.Requests.{GetCs, UseCs, NoCs}
use icecream.Comm.Jobs.{JobLocalBegin}
use icecream.Comm.Done.{JobDone}
use icecream.Comm.Msg.{use_cs_msg}
use icecream.Daemon.{Client, new_client, is_status, find_by_client_id}
use icecream.Daemon.{clientwork, waitforcs, jobdone}
use icecream.Job.{u32}
use icecream.Daemon.Jobs.{
  Host, Daemon, sub32, slots, find_client, insert_client, change, release, release_slots, delivered,
}
use icecream.Daemon.Jobs.Handlers.{
  accept_client, new_use_cs, handle_local_job, handle_get_cs, as_local, use_found, no_found,
  handle_job_done, handle_compile_file,
}
use icecream.Daemon.Jobs.Accounts.{
  held, all_held, MayBeFull, UniqueChannels, IsAccounted, find_client-All, find_client_unique,
  find-with_client, change-IsBooked,
}
use icecream.Daemon.Jobs.Accounts.End.{
  SameClients-IsAccounted, send_scheduler-SameClients, handle_end-IsAccounted,
}

-- A client without a slot, and not marked for all of them.
abbrev pub IsIdle : Client → Type 0
IsIdle c = (is_status clientwork c ≡ false) × (c.fulljob ≡ false)

abbrev pub IsAt : Daemon → Client → Type 0
IsAt d c = find_client c.channel d.clients ≡ some c

-- A change that leaves the slots as they are.
pub change-IsAccounted :
    (h : Host) (f : Client → Client) (c : Client) (d : Daemon)
    → IsAccounted h d
    → IsAt d c
    → ((x : Client) → (f x).channel ≡ x.channel)
    → held h (f c) ≡ held h c
    → MayBeFull (f c)
    → IsAccounted h (change c.channel f d)
change-IsAccounted h f c d a q g e m =
    change-IsBooked h c.channel f d.clients c d.active_processes d.active_processes a q g m
      (omega (arith, e)) (omega (arith, a.0))

free-held : (h : Host) (c : Client) → is_status clientwork c ≡ false → held h c ≡ 0
free-held h c i = ground arith

busy-held : (h : Host) (c : Client) → is_status clientwork c ≡ true → held h c ≡ slots h c
busy-held h c i = ground arith

given_back :
    (n w v : ℕ) → v ≡ w → ((sub32 n w + v) % u32 ≡ (n + 0) % u32) × (sub32 n w ≡ sub32 n w % u32)
given_back n w v e = (omega (arith, e), omega arith)

pub idle-held : (h : Host) (c : Client) → IsIdle c → held h c ≡ 0
idle-held h c i = free-held h c i.0

pub handle_local_job-IsAccounted :
    (h : Host) (c : Client) (m : JobLocalBegin) (d : Daemon)
    → IsAccounted h d
    → IsAt d c
    → IsIdle c
    → IsAccounted h (handle_local_job c.channel m d)
unfolding handle_local_job
handle_local_job-IsAccounted h c m d a q i =
    change-IsAccounted h _ c d a q (λ x. refl) (sym (idle-held h c i)) (λ f. refl)

pub handle_get_cs-IsAccounted :
    (h : Host) (c : Client) (m : GetCs) (d : Daemon)
    → IsAccounted h d
    → IsAt d c
    → IsIdle c
    → IsAccounted h (handle_get_cs h c m d).0
unfolding handle_get_cs
handle_get_cs-IsAccounted h c m d a q i =
    let f : Client → Client = λ x. record x { status = waitforcs; niceness = m.niceness } in
    let waits = change c.channel f d in
    let b =
      change-IsAccounted h f c d a q (λ x. refl) (sym (idle-held h c i))
        (λ e. ground (arith, e, i)) in
    if_of_both (λ (r : Daemon × Bool). IsAccounted h r.0) d.scheduler _ _
      (SameClients-IsAccounted h _ waits (send_scheduler-SameClients h _ waits) b)
      (change-IsAccounted h _ (f c) waits b
        (find-with_client h c.channel f d.clients c (λ x. refl) q) (λ x. refl) refl
        (λ e. ground (arith, e, i)))

pub handle_compile_file-IsAccounted :
    (h : Host) (c : Client) (id : ℕ) (d : Daemon)
    → IsAccounted h d
    → IsAt d c
    → ((is_status clientwork c || not c.fulljob) ≡ true)
    → IsAccounted h (handle_compile_file h c id d).0
unfolding handle_compile_file
handle_compile_file-IsAccounted h c id d a q i =
    let f : Client → Client = λ x. record x { job = some id } in
    let taken = change c.channel f d in
    let b =
      change-IsAccounted h f c d a q (λ x. refl) refl
        (find_client-All h c.channel MayBeFull d.clients c q a.1) in
    if_of_each (λ (r : Daemon × Bool). IsAccounted h r.0) (is_status clientwork c) _ _
      (λ busy. SameClients-IsAccounted h _ taken (send_scheduler-SameClients h _ taken) b)
      (λ free.
        change-IsAccounted h _ (f c) taken b
          (find-with_client h c.channel f d.clients c (λ x. refl) q) (λ x. refl)
          (sym (free-held h c free)) (λ e. ground (arith, free, i, e)))

pub handle_job_done-IsAccounted :
    (h : Host) (c : Client) (m : JobDone) (d : Daemon)
    → IsAccounted h d
    → IsAt d c
    → IsAccounted h (handle_job_done h c m d).0
unfolding handle_job_done
handle_job_done-IsAccounted h c m d a q =
    let f : Client → Client = λ x. record x { status = jobdone; fulljob = false; job_id = 0 } in
    let back = λ (busy : is_status clientwork c ≡ true).
      given_back d.active_processes (slots h c) (held h c) (busy-held h c busy) in
    SameClients-IsAccounted h _ (change c.channel f (release_slots h c d))
      (send_scheduler-SameClients h _ _)
      (if_of_each (λ e. IsAccounted h (change c.channel f e)) (is_status clientwork c)
        (release (slots h c) d) d
        (λ busy.
          change-IsBooked h c.channel f d.clients c d.active_processes
            (sub32 d.active_processes (slots h c)) a q (λ x. refl) (λ e. ground (arith, e))
            (back busy).0 (back busy).1)
        (λ free.
          change-IsAccounted h f c d a q (λ x. refl) (sym (free-held h c free))
            (λ e. ground (arith, e))))

-- The scheduler answers a client that waits for it, or one that is gone.
abbrev pub IsWaiting : Option Client → Type 0
IsWaiting none = Unit
IsWaiting (some c) = is_status waitforcs c ≡ true

waiting-IsIdle : (c : Client) → MayBeFull c → is_status waitforcs c ≡ true → IsIdle c
waiting-IsIdle c m w = (ground arith, ground (arith, m))

as_local-IsAccounted :
    (h : Host) (platform : Bytes) (id matched : ℕ) (c : Client) (d : Daemon)
    → IsAccounted h d
    → IsAt d c
    → IsIdle c
    → IsAccounted h (change c.channel (as_local h platform id matched) d)
as_local-IsAccounted h platform id matched c d a q i =
    change-IsAccounted h _ c d a q (λ x. refl) (sym (idle-held h c i)) (λ e. ground (arith, e, i))

pub use_found-IsAccounted :
    (h : Host) (m : UseCs) (o : Option Client) (d : Daemon)
    → IsAccounted h d
    → find_by_client_id m.client_id d.clients ≡ o
    → IsWaiting o
    → IsAccounted h (use_found h m o d).0
unfolding find_by_client_id
use_found-IsAccounted h m none d a q w =
    SameClients-IsAccounted h _ d (send_scheduler-SameClients h _ d) a
use_found-IsAccounted h m (some c) d a q w =
    let found = find_client_unique d.clients c a.2 (find_if-some _ c d.clients q).0 in
    let may = find_client-All h c.channel MayBeFull d.clients c found a.1 in
    let i = waiting-IsIdle c may w in
    let f : Client → Client = λ x. record x {
      usecsmsg = some (new_use_cs m.host_platform m.hostname m.port m.job_id m.matched_job_id);
    } in
    let asked = change-IsAccounted h f c d a found (λ x. refl) refl may in
    if_of_both (λ (r : Daemon × Bool). IsAccounted h r.0) _ _ _
      (as_local-IsAccounted h m.host_platform m.job_id m.matched_job_id c d a found i)
      (if_of_both (λ (r : Daemon × Bool). IsAccounted h r.0)
        (delivered h (some c.channel, use_cs_msg m) d) _ _
        (change-IsAccounted h _ (f c) (change c.channel f d) asked
          (find-with_client h c.channel f d.clients c (λ x. refl) found) (λ x. refl)
          (sym (idle-held h c i)) (λ e. ground (arith, e, i)))
        (handle_end-IsAccounted h c.channel 143 _ asked))

pub no_found-IsAccounted :
    (h : Host) (m : NoCs) (o : Option Client) (d : Daemon)
    → IsAccounted h d
    → find_by_client_id m.client_id d.clients ≡ o
    → IsWaiting o
    → IsAccounted h (no_found h m o d).0
unfolding find_by_client_id
no_found-IsAccounted h m none d a q w =
    SameClients-IsAccounted h _ d (send_scheduler-SameClients h _ d) a
no_found-IsAccounted h m (some c) d a q w =
    let found = find_client_unique d.clients c a.2 (find_if-some _ c d.clients q).0 in
    let may = find_client-All h c.channel MayBeFull d.clients c found a.1 in
    as_local-IsAccounted h [] m.job_id 0 c d a found (waiting-IsIdle c may w)

-- A new client.
module _ (h : Host) (c : Client) where
  held-insert_client :
      (cs : List Client) → all_held h (insert_client c cs) ≡ held h c + all_held h cs
  held-insert_client [] = refl
  held-insert_client (x ∷ cs) = grind (arith, held-insert_client cs)

  insert_client-All :
      (P : Client → Type 0) (cs : List Client) → P c → All P cs → All P (insert_client c cs)
  insert_client-All P [] p a = (p, tt)
  insert_client-All P (x ∷ cs) p a =
      if_of_both (All P) (ltb c.channel x.channel) _ _ (p, a) (a.0, insert_client-All P cs p a.1)

  find_client-insert_client :
      (k : ℕ) (cs : List Client)
      → find_client k cs ≡ none
      → (c.channel == k) ≡ false
      → find_client k (insert_client c cs) ≡ none
  find_client-insert_client k [] q e = grind arith
  find_client-insert_client k (x ∷ cs) q e = grind (arith, find_client-insert_client k cs)

  insert_client-UniqueChannels :
      (cs : List Client)
      → find_client c.channel cs ≡ none
      → UniqueChannels cs
      → UniqueChannels (insert_client c cs)
  insert_client-UniqueChannels [] q u = (refl, tt)
  insert_client-UniqueChannels (x ∷ cs) q u =
      if_of_both UniqueChannels (ltb c.channel x.channel) _ _ (q, u)
        (
          find_client-insert_client x.channel cs u.0 (grind arith),
          insert_client-UniqueChannels cs (grind arith) u.1,
        )

pub accept_client-IsAccounted :
    (h : Host) (channel : ℕ) (d : Daemon)
    → IsAccounted h d
    → find_client channel d.clients ≡ none
    → IsAccounted h (accept_client channel d)
unfolding accept_client new_client
accept_client-IsAccounted h channel d a q =
    let c = new_client channel (suc d.new_client_id) in
    (
      omega (arith, a.0, held-insert_client h c d.clients),
      insert_client-All h c MayBeFull d.clients (λ e. ground (arith, e)) a.1,
      insert_client-UniqueChannels h c d.clients q a.2,
    )
