-- ===== src/Scheduler/Dispatch/Serves.antt =====
-- What empty_queue does when a server is picked for the first request.
use Prim.Native.String.{String}
use mathlib.Core.List.{Perm}
use icecream.Base.{
  ℕ, suc, ◌≡◌, refl, sym, ap, ◌∙◌, subst, Bool, true, false, if◌then◌else◌, not, some, List, [],
  ◌∷◌, length, if_of_both, if_of_each, arith, is_empty,
}
use icecream.Floats.{Floats}
use icecream.Job.{Job}
use icecream.Queue.{JobRequestPosition, get_first_job_request, remove_job_request}
use icecream.Queue.Contents.{pending, pending-remove_job_request}
use icecream.CompileServer.Methods.{append_job, can_install}
use icecream.Scheduler.{Scheduler, Net, Sent, Message, send, with_server, with_job}
use icecream.Scheduler.Live.{IsLive}
use icecream.Scheduler.Pick.{Options, pick_server, envs_match}
use icecream.Scheduler.End.{handle_end}
use icecream.Scheduler.Dispatch.{
  job_at, bind_jobs, answer, settle, assign_to, assign, do_choice, from_first, empty_queue,
}
use icecream.Scheduler.Dispatch.Search.{choose_loop-first_only, first_only}
use icecream.Scheduler.Dispatch.Keeps.{first_job-Elem, answer-SameWork}

bind_jobs-job_requests :
    (ids : List ℕ) (env : String × String) (s : Scheduler)
    → (bind_jobs ids env s).job_requests ≡ s.job_requests
bind_jobs-job_requests [] env s = refl
bind_jobs-job_requests (id ∷ ids) env s =
    bind_jobs-job_requests ids env (with_job id (λ j. record j { environments = env ∷ [] }) s)

settle-job_requests :
    (net : Net) (now : ℕ) (s : Scheduler) (job : Job) (p : ℕ) (gotit : Bool)
    → (settle net now s job p gotit).job_requests ≡ s.job_requests
settle-job_requests net now s job p true =
    if_of_both (λ (t : Scheduler). t.job_requests ≡ s.job_requests) _ _ _
      (bind_jobs-job_requests job.master_job_for _ (with_server p (append_job job.id) s)) refl
settle-job_requests net now s job p false =
    if_of_both (λ (t : Scheduler). t.job_requests ≡ s.job_requests) _ _ _
      (bind_jobs-job_requests job.master_job_for _ (
        with_server p (λ cs. record cs { busy_installing = now })
          (with_server p (append_job job.id) s)))
      refl

true-ne-false : true ≡ false → ⊥
true-ne-false e = cc

module _ (net : Net)
    (takes : (sent : List Sent) (to : ℕ) (m : Message) → net.delivers sent to m ≡ true) where
  answer-sent :
      (s : Scheduler) (job : Job) (p : ℕ) (platform : String) (gotit : Bool)
      → (answer net s job p platform gotit).1 ≡ true
  unfolding send
  answer-sent s job p platform gotit =
      if_of_both (λ (r : Scheduler × Bool). r.1 ≡ true) _ _ _ (takes s.sent job.submitter _)
        (takes s.sent job.submitter _)

  assign-job_requests :
      (now : ℕ) (s : Scheduler) (job : Job) (pos : JobRequestPosition) (p : ℕ)
      → (assign net now s job pos p).job_requests ≡ remove_job_request pos s.job_requests
  unfolding assign
  assign-job_requests now s job pos p =
      let t = record (with_job job.id (λ j. assign_to j p) s) {
        job_requests = remove_job_request pos s.job_requests;
      } in
      let job' = assign_to job p in
      let installed = envs_match t.heap p job' in
      let gotit = not (is_empty installed) in
      let platform = if gotit then installed else can_install t.heap p job' false in
      let r = answer net t job' p platform gotit in
      if_of_each (λ (u : Scheduler). u.job_requests ≡ remove_job_request pos s.job_requests) r.1
        (settle net now r.0 job' p gotit) (handle_end net job'.submitter r.0)
        (λ yes.
          settle-job_requests net now r.0 job' p gotit
          ∙ (answer-SameWork net t job' p platform gotit).job_requests)
        (λ lost. absurd (true-ne-false (sym (answer-sent t job' p platform gotit) ∙ lost)))

  -- The first request is given to the server that pick_server finds for it.
  empty_queue-assign :
      (fl : Floats) (o : Options) (now : ℕ) (s : Scheduler) (first : JobRequestPosition) (p : ℕ)
      → IsLive s
      → get_first_job_request s.job_requests ≡ some first
      → pick_server fl o s (job_at s first.job) ≡ some p
      → empty_queue net fl o now s ≡ (assign net now s (job_at s first.job) first p, true)
  unfolding empty_queue
  empty_queue-assign fl o now s first p v e picked =
      let job = job_at s first.job in
      ap (from_first net fl o now s) e
      ∙ ap (do_choice net fl o now s job) (
          choose_loop-first_only fl o s (suc (length (pending s.job_requests))) job first v.ordered
            v.distinct e (omega arith)
          ∙ ap (first_only fl o s job first) picked)

  -- When the network takes every message and a server is picked for the first request, empty_queue
  -- says that it did something, and exactly that request leaves the queue.
  pub pending-empty_queue :
      (fl : Floats) (o : Options) (now : ℕ) (s : Scheduler) (first : JobRequestPosition) (p : ℕ)
      → IsLive s
      → get_first_job_request s.job_requests ≡ some first
      → pick_server fl o s (job_at s first.job) ≡ some p
      → ((empty_queue net fl o now s).1 ≡ true)
        × Perm
            (pending s.job_requests)
            (first.job ∷ pending (empty_queue net fl o now s).0.job_requests)
  pending-empty_queue fl o now s first p v e picked =
      let (group_in, job_in) = first_job-Elem s.job_requests first e in
      let done = empty_queue-assign fl o now s first p v e picked in
      (
        ap (λ r. r.1) done,
        subst (λ gs. Perm (pending s.job_requests) (first.job ∷ pending gs))
            (sym (
              ap (λ r. r.0.job_requests) done
              ∙ assign-job_requests now s (job_at s first.job) first p))
            (pending-remove_job_request first s.job_requests v.ordered group_in job_in),
      )
