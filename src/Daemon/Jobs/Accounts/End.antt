-- ===== src/Daemon/Jobs/Accounts/End.antt =====
-- daemon/main.cpp: the end of a connection gives the client's slots back.
use icecream.Base.{
  ℕ, ◌≡◌, ◌+◌, ◌%◌, refl, sym, ◌∙◌, subst, Bool, true, false, ◌||◌, is_some, Option, none, some,
  if◌then◌else◌, if_of_both, if_of_each, arith,
}
use icecream.Comm.Requests.{int_geb}
use icecream.Comm.Hosts.{Stats}
use icecream.Comm.Msg.{Msg, stats_msg, job_done_msg, job_local_done_msg}
use icecream.Daemon.{Client, is_status}
use icecream.Daemon.{clientwork, waitforcs, tocompile}
use icecream.Job.{u32}
use icecream.Daemon.Jobs.{
  Host, Daemon, slots, send_scheduler, told, maybe_stats, load_changed, reannounce_environments,
  cancel_transfer, report_end, last_words, release_slots, says_bye, end_client, end_found, or_zero,
  handle_end, find_client, change, release, transfer_over, in_transfer, sub32,
}
use icecream.Daemon.Jobs.Accounts.{
  held, MayBeFull, IsBooked, IsAccounted, find_client-channel, find_client-All, find-with_client,
  change-IsBooked, erase-IsBooked,
}

-- What a message to the scheduler leaves as it is.
pub SameClients : Daemon → Daemon → Type 0
SameClients d e = (d.clients ≡ e.clients) × (d.active_processes ≡ e.active_processes)

pub SameClients-IsAccounted :
    (h : Host) (d e : Daemon) → SameClients d e → IsAccounted h e → IsAccounted h d
unfolding SameClients
SameClients-IsAccounted h d e s a =
    subst (λ cs. IsBooked h cs d.active_processes) (sym s.0)
      (subst (λ n. IsBooked h e.clients n) (sym s.1) a)

pub send_scheduler-SameClients :
    (h : Host) (m : Msg) (d : Daemon) → SameClients (send_scheduler h m d).0 d
unfolding SameClients send_scheduler
send_scheduler-SameClients h m d =
    if_of_both (λ (r : Daemon × Bool). SameClients r.0 d) d.scheduler _ _ (refl, refl) (refl, refl)

pub same_clients : (d e : Daemon) → SameClients d e → d.clients ≡ e.clients
unfolding SameClients
same_clients d e s = s.0

SameClients-refl : (d : Daemon) → SameClients d d
unfolding SameClients
SameClients-refl d = (refl, refl)

told-SameClients : (h : Host) (m : Stats) (r : Daemon × Bool) → SameClients (told m r).0 r.0
unfolding SameClients
told-SameClients h m (d, true) = (refl, refl)
told-SameClients h m (d, false) = (refl, refl)

pub SameClients-trans : (d e f : Daemon) → SameClients d e → SameClients e f → SameClients d f
unfolding SameClients
SameClients-trans d e f a b = (a.0 ∙ b.0, a.1 ∙ b.1)

maybe_stats-SameClients : (h : Host) (d : Daemon) → SameClients (maybe_stats h d).0 d
unfolding maybe_stats
maybe_stats-SameClients h d =
    let msg = h.stats d.sent in
    let sent = send_scheduler h (stats_msg msg) d in
    let r = if load_changed msg.load d.current_load then sent else (d, true) in
    SameClients-trans _ r.0 d (told-SameClients h msg r) (
      if_of_both (λ (r : Daemon × Bool). SameClients r.0 d) _ sent (d, true)
        (send_scheduler-SameClients h (stats_msg msg) d) (SameClients-refl d))

pub reannounce-SameClients : (h : Host) (d : Daemon) → SameClients (reannounce_environments h d).0 d
unfolding reannounce_environments
reannounce-SameClients h d = send_scheduler-SameClients h _ d

pub cancel_transfer-SameClients :
    (h : Host) (c : Client) (d : Daemon) → SameClients (cancel_transfer h c d) d
unfolding cancel_transfer SameClients
cancel_transfer-SameClients h c d =
    let killed =
      if is_some c.child_pid then record d { current_kids = sub32 d.current_kids 1 } else d in
    let told = (reannounce_environments h killed).0 in
    SameClients-trans (maybe_stats h told).0 told d (maybe_stats-SameClients h told) (
      SameClients-trans told killed d (reannounce-SameClients h killed) (
        if_of_both (λ e. SameClients e d) (is_some c.child_pid) _ d (refl, refl)
          (SameClients-refl d)))

pub report_end-SameClients :
    (h : Host) (exitcode : ℕ) (c : Client) (d : Daemon) → SameClients (report_end h exitcode c d) d
unfolding report_end
report_end-SameClients h exitcode c d =
    let P : Daemon → Type 0 = λ e. SameClients e d in
    let job_id = if is_status tocompile c then or_zero c.job else c.job_id in
    if_of_both P _ _ d
      (if_of_both P (int_geb job_id 1 || is_status waitforcs c) _ _
        (send_scheduler-SameClients h (job_done_msg (last_words exitcode c d)) d)
        (if_of_both P (is_status clientwork c) _ d
          (send_scheduler-SameClients h (job_local_done_msg (record { job_id = c.client_id })) d)
          (SameClients-refl d)))
      (SameClients-refl d)

freed :
    (b : Bool) (w : ℕ) (d : Daemon)
    → d.active_processes ≡ d.active_processes % u32
    → (let n = (if b then release w d else d).active_processes in
        ((n + (if b then w else 0)) % u32 ≡ d.active_processes % u32) × (n ≡ n % u32))
freed true w d e = (omega arith, omega arith)
freed false w d e = (omega arith, e)

-- active_processes after the slots of a client went back.
release_slots-active :
    (h : Host) (c : Client) (d : Daemon)
    → d.active_processes ≡ d.active_processes % u32
    → (let n = (release_slots h c d).active_processes in
        ((n + held h c) % u32 ≡ d.active_processes % u32) × (n ≡ n % u32))
release_slots-active h c d e = freed (is_status clientwork c) (slots h c) d e

end_client-IsAccounted :
    (h : Host) (exitcode : ℕ) (c : Client) (d : Daemon)
    → IsAccounted h d
    → find_client c.channel d.clients ≡ some c
    → IsAccounted h (end_client h exitcode c d)
unfolding end_client
end_client-IsAccounted h exitcode c d a q =
    let r = release_slots-active h c d (omega (arith, a.0)) in
    SameClients-IsAccounted h _ _ (report_end-SameClients h exitcode (says_bye exitcode c) _)
      (erase-IsBooked h c.channel d.clients c d.active_processes _ a q r.0 r.1)

-- A client that sends an environment holds no slot, and none when the transfer is over.
transfer_over-held :
    (h : Host) (c : Client) → in_transfer c ≡ true → (held h c ≡ 0) × (held h (transfer_over c) ≡ 0)
transfer_over-held h c e = (ground arith, refl)

not_full : (c : Client) → MayBeFull c → in_transfer c ≡ true → MayBeFull (transfer_over c)
not_full c m busy f = ground (arith, m f)

end_found-IsAccounted :
    (h : Host) (exitcode : ℕ) (o : Option Client) (d : Daemon) (k : ℕ)
    → IsAccounted h d
    → find_client k d.clients ≡ o
    → IsAccounted h (end_found h exitcode o d)
unfolding SameClients
end_found-IsAccounted h exitcode none d k a q = a
end_found-IsAccounted h exitcode (some c) d k a q =
    let found =
      subst (λ j. find_client j d.clients ≡ some c) (sym (find_client-channel h k d.clients c q))
        q in
    let over = change c.channel transfer_over d in
    if_of_each (IsAccounted h) (in_transfer c) _ _
      (λ busy.
        let z = transfer_over-held h c busy in
        let same = cancel_transfer-SameClients h c over in
        let b =
          change-IsBooked h c.channel transfer_over d.clients c d.active_processes
            d.active_processes a found (λ x. refl)
            (not_full c (find_client-All h c.channel MayBeFull d.clients c found a.1) busy)
            (omega (arith, z.0)) (omega (arith, a.0)) in
        end_client-IsAccounted h exitcode (transfer_over c) (cancel_transfer h c over)
          (SameClients-IsAccounted h (cancel_transfer h c over) over same b)
          (subst (λ cs. find_client c.channel cs ≡ some (transfer_over c)) (sym same.0)
            (find-with_client h c.channel transfer_over d.clients c (λ x. refl) found)))
      (λ idle. end_client-IsAccounted h exitcode c d a found)

-- handle_end keeps the accounts: active_processes is the sum of the slots that the other clients hold.
pub handle_end-IsAccounted :
    (h : Host) (channel exitcode : ℕ) (d : Daemon)
    → IsAccounted h d
    → IsAccounted h (handle_end h channel exitcode d)
unfolding handle_end
handle_end-IsAccounted h channel exitcode d a =
    end_found-IsAccounted h exitcode (find_client channel d.clients) d channel a refl
