-- ===== src/Scheduler/Done/Keeps.antt =====
-- handle_job_done keeps the invariant, whoever sends the message and whatever it says.
use icecream.Base.{
  ℕ, ◌≡◌, ◌==◌, ◌&&◌, ◌||◌, not, ltb, refl, sym, subst, true, Option, none, some, if_of_both,
  if_of_each, arith,
}
use icecream.Floats.{Floats}
use icecream.Job.{Job}
use icecream.CompileServer.Methods.{remove_job}
use icecream.Scheduler.{Scheduler, Net, mon_job_done, with_server}
use icecream.Scheduler.Notify.{notify_monitors-SameWork}
use icecream.Scheduler.End.{delete_job}
use icecream.Scheduler.End.Leaves.{handle_end-IsLive}
use icecream.Scheduler.Speed.{JobDoneMsg, add_job_stats}
use icecream.Scheduler.Live.{IsLive, IsLive-from, SameWork-IsLive}
use icecream.Scheduler.Live.Jobs.{Absent, erase-IsLive}
use icecream.Scheduler.Done.{
  find_done, unknown_job_client_id, is_from_server, Done, done, null_pointer, finish_job,
  cancel_job, complete, check_sender, done_with, handle_job_done,
}
use icecream.Scheduler.Done.Finds.{Found, find_done-keeps}

module _ (fl : Floats) (job : Job) (server : ℕ) (m : JobDoneMsg) (s : Scheduler) where
  add_job_stats-IsLive : IsLive s → IsLive (add_job_stats fl job server m s)
  unfolding add_job_stats
  add_job_stats-IsLive v =
      if_of_both IsLive (ltb m.out_uncompressed 4096 || not (m.exitcode == 0)) s _ v
        (IsLive-from refl refl refl refl v)

  add_job_stats-job_requests : (add_job_stats fl job server m s).job_requests ≡ s.job_requests
  unfolding add_job_stats
  add_job_stats-job_requests =
      if_of_both (λ (t : Scheduler). t.job_requests ≡ s.job_requests)
        (ltb m.out_uncompressed 4096 || not (m.exitcode == 0)) s _ refl refl

-- The invariant after a handler; a null pointer is the end of the program, and followed only if P.
abbrev pub KeepsDone : Type 0 → Done → Type 0
KeepsDone P (done s answer) = IsLive s
KeepsDone P null_pointer = P

-- A message of a server, or of success, about a job that has no server.
abbrev pub HasNoServer : JobDoneMsg → Option Job → Type 0
HasNoServer m none = ⊥
HasNoServer m (some job) = (job.server ≡ none) × ((is_from_server m || m.exitcode == 0) ≡ true)

module _ (net : Net) (fl : Floats) (m : JobDoneMsg) (job : Job) where
  delete_job-IsLive :
      (s : Scheduler) → IsLive s → Absent job.id s.job_requests → IsLive (delete_job job.id job s)
  unfolding delete_job
  delete_job-IsLive s v a = IsLive-from refl refl refl refl (erase-IsLive s v job.id a)

  cancel_job-IsLive :
      (s : Scheduler) → IsLive s → Absent job.id s.job_requests → IsLive (cancel_job net fl job m s)
  unfolding cancel_job
  cancel_job-IsLive s v a =
      let w = notify_monitors-SameWork net (mon_job_done job.id m.exitcode) s in
      delete_job-IsLive _ (SameWork-IsLive w v) (subst (Absent job.id) (sym w.job_requests) a)

  finish_job-IsLive :
      (server : ℕ) (s : Scheduler)
      → IsLive s
      → Absent job.id s.job_requests
      → IsLive (finish_job net fl job server m s)
  unfolding finish_job cancel_job
  finish_job-IsLive server s v a =
      let t = with_server server (remove_job job.id) s in
      cancel_job-IsLive (add_job_stats fl job server m t)
        (add_job_stats-IsLive fl job server m t (IsLive-from refl refl refl refl v))
        (subst (Absent job.id) (sym (add_job_stats-job_requests fl job server m t)) a)

  -- `P` holds if a message of a server, or of success, is about a job without a server.
  module _ (P : Type 0) where
    complete-KeepsDone :
        (server : Option ℕ) (s : Scheduler)
        → IsLive s
        → Absent job.id s.job_requests
        → (server ≡ none → m.exitcode == 0 ≡ true → P)
        → KeepsDone P (complete net fl job server m s)
    complete-KeepsDone none s v a n =
        if_of_each (KeepsDone P) (m.exitcode == 0) _ _ (n refl) (λ failed. cancel_job-IsLive s v a)
    complete-KeepsDone (some server) s v a n = finish_job-IsLive server s v a

    check_sender-KeepsDone :
        (cs : ℕ) (server : Option ℕ) (s : Scheduler)
        → IsLive s
        → Absent job.id s.job_requests
        → (server ≡ none → (is_from_server m || m.exitcode == 0) ≡ true → P)
        → KeepsDone P (check_sender net fl cs m job server s)
    check_sender-KeepsDone cs none s v a n =
        if_of_each (KeepsDone P) (is_from_server m) _ _ (λ e. n refl (ground (arith, e)))
          (λ client.
            if_of_both (KeepsDone P) (not (job.submitter == cs)) _ _ (handle_end-IsLive net cs s v)
              (complete-KeepsDone none _ (IsLive-from refl refl refl refl v) a
                (λ q e. n q (ground (arith, e)))))
    check_sender-KeepsDone cs (some server) s v a n =
        if_of_both (KeepsDone P)
          ((is_from_server m && not (server == cs))
            || (not (is_from_server m) && not (job.submitter == cs)))
          _ _ (handle_end-IsLive net cs s v)
          (complete-KeepsDone (some server) _ (IsLive-from refl refl refl refl v) a
            (λ q e. n q (ground (arith, e))))

module _ (net : Net) (fl : Floats) where
  done_with-KeepsDone :
      (cs : ℕ) (m : JobDoneMsg) (found : Option Job) (s : Scheduler)
      → IsLive s
      → Found s found s.job_requests
      → KeepsDone (HasNoServer m found) (done_with net fl cs m (found, s))
  done_with-KeepsDone cs m none s v f = v
  done_with-KeepsDone cs m (some job) s v f =
      check_sender-KeepsDone net fl m job (HasNoServer m (some job)) cs job.server s v f.1
        (λ q e. (q, e))

  -- A message that a job is done keeps jobs, queue and servers in step, if the id that it gives is not
  -- that of a request that still waits in the queue. The program follows a null pointer only if the
  -- job that it finds has no server, and the message comes from a server or has exit code 0.
  pub handle_job_done-KeepsDone :
      (cs : ℕ) (m : JobDoneMsg) (s : Scheduler)
      → IsLive s
      → (unknown_job_client_id m ≡ 0 → Absent m.job_id s.job_requests)
      → KeepsDone (HasNoServer m (find_done cs m s).0) (handle_job_done net fl cs m s)
  unfolding handle_job_done
  handle_job_done-KeepsDone cs m s v h =
      let (w, f) = find_done-keeps cs m s v h in
      done_with-KeepsDone cs m (find_done cs m s).0 (find_done cs m s).1 w f
