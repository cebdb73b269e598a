-- ===== src/Daemon/Jobs/Accounts/Clear.antt =====
-- daemon/main.cpp: handle_compile_done keeps the accounts, and clear_children ends all clients.
use icecream.Base.{
  ℕ, zero, suc, ◌≡◌, ◌≤◌, refl, sym, ap, ◌∙◌, subst, Option, some, List, [], ◌∷◌, length, ◌==◌,
  if◌then◌else◌, if_of_both, arith,
}
use icecream.Daemon.{Client}
use icecream.Daemon.Jobs.{
  Host, Daemon, sub32, find_client, with_client, erase_client, change, transfer_over, in_transfer,
  says_bye, end_client, end_found, cancel_transfer, reannounce_environments, handle_end,
}
use icecream.Daemon.Jobs.Ends.{
  JobStatistics, handle_compile_done, end_status, exit_compiler_missing, end_first, end_all,
  clear_children,
}
use icecream.Daemon.Jobs.Accounts.{IsAccounted, find-with_client}
use icecream.Daemon.Jobs.Accounts.End.{
  SameClients-IsAccounted, same_clients, send_scheduler-SameClients, reannounce-SameClients,
  cancel_transfer-SameClients, report_end-SameClients, handle_end-IsAccounted,
}

pub handle_compile_done-IsAccounted :
    (h : Host) (c : Client) (read : Option JobStatistics) (d : Daemon)
    → IsAccounted h d
    → IsAccounted h (handle_compile_done h c read d)
unfolding handle_compile_done
handle_compile_done-IsAccounted h c read d a =
    let fewer = record d { current_kids = sub32 d.current_kids 1 } in
    let told =
      if end_status read == exit_compiler_missing
      then (reannounce_environments h fewer).0
      else fewer in
    handle_end-IsAccounted h c.channel (end_status read) _ (
      SameClients-IsAccounted h _ told (send_scheduler-SameClients h _ told) (
        if_of_both (IsAccounted h) (end_status read == exit_compiler_missing) _ fewer
          (SameClients-IsAccounted h _ fewer (reannounce-SameClients h fewer) a) a))

end_first-IsAccounted :
    (h : Host) (cs : List Client) (d : Daemon) → IsAccounted h d → IsAccounted h (end_first h cs d)
unfolding end_first
end_first-IsAccounted h [] d a = a
end_first-IsAccounted h (c ∷ cs) d a = handle_end-IsAccounted h c.channel 116 d a

end_all-IsAccounted :
    (h : Host) (rounds : ℕ) (d : Daemon) → IsAccounted h d → IsAccounted h (end_all h rounds d)
unfolding end_all
end_all-IsAccounted h zero d a = a
end_all-IsAccounted h (suc rounds) d a =
    end_all-IsAccounted h rounds (end_first h d.clients d) (end_first-IsAccounted h d.clients d a)

pub clear_children-IsAccounted :
    (h : Host) (d : Daemon) → IsAccounted h d → IsAccounted h (clear_children h d)
unfolding clear_children
clear_children-IsAccounted h d a = end_all-IsAccounted h (length d.clients) d a

module _ (k : ℕ) where
  length-with_client :
      (f : Client → Client) (cs : List Client) → length (with_client k f cs) ≡ length cs
  length-with_client f [] = refl
  length-with_client f (x ∷ cs) = ground (arith, length-with_client f cs)

  length-erase_client :
      (cs : List Client) (c : Client)
      → find_client k cs ≡ some c
      → suc (length (erase_client k cs)) ≡ length cs
  length-erase_client [] c q = cc
  length-erase_client (x ∷ cs) c q = grind (arith, length-erase_client cs c)

-- One client less.
IsShorter : Daemon → Daemon → Type 0
IsShorter e d = suc (length e.clients) ≡ length d.clients

end_client-IsShorter :
    (h : Host) (exitcode : ℕ) (c : Client) (d : Daemon)
    → find_client c.channel d.clients ≡ some c
    → IsShorter (end_client h exitcode c d) d
unfolding end_client IsShorter
end_client-IsShorter h exitcode c d q =
    subst (λ cs. suc (length cs) ≡ length d.clients)
      (sym (same_clients _ _ (report_end-SameClients h exitcode (says_bye exitcode c) _)))
      (length-erase_client c.channel d.clients c q)

cancelled-IsShorter :
    (h : Host) (exitcode : ℕ) (c : Client) (d : Daemon)
    → find_client c.channel d.clients ≡ some c
    → IsShorter
        (end_client h exitcode
          (transfer_over c)
          (cancel_transfer h c (change c.channel transfer_over d)))
        d
unfolding IsShorter
cancelled-IsShorter h exitcode c d q =
    let over = change c.channel transfer_over d in
    let same = same_clients _ _ (cancel_transfer-SameClients h c over) in
    let found = find-with_client h c.channel transfer_over d.clients c (λ x. refl) q in
    let short =
      end_client-IsShorter h exitcode (transfer_over c) (cancel_transfer h c over)
        (subst (λ cs. find_client c.channel cs ≡ some (transfer_over c)) (sym same) found) in
    short ∙ (ap length same ∙ length-with_client c.channel transfer_over d.clients)

end_found-IsShorter :
    (h : Host) (exitcode : ℕ) (c : Client) (d : Daemon)
    → find_client c.channel d.clients ≡ some c
    → IsShorter (end_found h exitcode (some c) d) d
end_found-IsShorter h exitcode c d q =
    if_of_both (λ e. IsShorter e d) (in_transfer c) _ _ (cancelled-IsShorter h exitcode c d q)
      (end_client-IsShorter h exitcode c d q)

found_first : (c : Client) (cs : List Client) → find_client c.channel (c ∷ cs) ≡ some c
found_first c cs = grind arith

end_first-IsShorter :
    (h : Host) (cs : List Client) (n : ℕ) (d : Daemon)
    → d.clients ≡ cs
    → length d.clients ≤ suc n
    → length (end_first h cs d).clients ≤ n
unfolding end_first handle_end IsShorter
end_first-IsShorter h [] n d q l = omega (arith, ap length q)
end_first-IsShorter h (c ∷ cs) n d q l =
    let found = subst (λ ds. find_client c.channel ds ≡ some c) (sym q) (found_first c cs) in
    let short =
      subst (λ o. IsShorter (end_found h 116 o d) d) (sym found)
        (end_found-IsShorter h 116 c d found) in
    omega (arith, short, l)

end_all-clients :
    (h : Host) (rounds : ℕ) (d : Daemon)
    → length d.clients ≤ rounds
    → length (end_all h rounds d).clients ≡ 0
unfolding end_all
end_all-clients h zero d l = omega (arith, l)
end_all-clients h (suc rounds) d l =
    end_all-clients h rounds (end_first h d.clients d)
      (end_first-IsShorter h d.clients rounds d refl l)

-- No client is left by clear_children: as many rounds as there are clients are enough.
pub clear_children-clients : (h : Host) (d : Daemon) → length (clear_children h d).clients ≡ 0
unfolding clear_children
clear_children-clients h d = end_all-clients h (length d.clients) d (omega arith)
