-- ===== src/Scheduler/Dispatch/Keeps.antt =====
-- empty_queue keeps the invariant, and gives a job only to a server that is connected.
use Prim.Native.String.{String}
use icecream.Base.{
  ℕ, suc, ◌≡◌, refl, sym, subst, inl, inr, true, false, Bool, Option, none, some, List, [], ◌∷◌,
  contains, Elem, All-elem, All, length, if_of_both, is_some, find_if, arith,
}
use icecream.Base.Map.{lookup}
use icecream.Floats.{Floats}
use icecream.Job.{Job}
use icecream.Queue.{
  JobRequestsGroup, JobRequestPosition, front_position, get_first_job_request, remove_job_request,
}
use icecream.Queue.Contents.{pending}
use icecream.CompileServer.Methods.{append_job}
use icecream.Scheduler.{Scheduler, Net, send, with_server, with_job}
use icecream.Scheduler.Notify.{SameWork}
use icecream.Scheduler.End.Leaves.{handle_end-IsLive}
use icecream.Scheduler.Live.{IsQueued, IsLive, IsLive-from, SameWork-IsLive}
use icecream.Scheduler.Live.Jobs.{update-IsLive, touch-IsLive}
use icecream.Scheduler.Live.Requests.{remove-IsLive, remove-Absent}
use icecream.Scheduler.Pick.{Options, pick_server}
use icecream.Scheduler.Pick.Sound.{pick_server-eligible}
use icecream.Scheduler.Dispatch.{
  Choice, job_at, may_take, submitter_takes, bind_jobs, answer, settle, assign_to, assign,
  do_choice, from_first, empty_queue,
}
use icecream.Scheduler.Dispatch.Search.{choose_loop-first_only, first_only}

front-Elem :
    (g : JobRequestsGroup) (l : List ℕ) (first : JobRequestPosition)
    → front_position g l ≡ some first
    → (g ≡ first.group) × Elem first.job l
front-Elem g [] first e = cc
front-Elem g (j ∷ l) first e = (ground arith, inl (ground arith))

pub first_job-Elem :
    (gs : List JobRequestsGroup) (first : JobRequestPosition)
    → get_first_job_request gs ≡ some first
    → Elem first.group gs × Elem first.job first.group.l
unfolding get_first_job_request
first_job-Elem [] first e = cc
first_job-Elem (g ∷ gs) first e =
    let front = front-Elem g g.l first e in
    (inl (sym front.0), subst (λ h. Elem first.job h.l) front.0 front.1)

bind_jobs-IsLive :
    (ids : List ℕ) (env : String × String) (s : Scheduler) → IsLive s → IsLive (bind_jobs ids env s)
bind_jobs-IsLive [] env s v = v
bind_jobs-IsLive (id ∷ ids) env s v = bind_jobs-IsLive ids env _ (
    touch-IsLive s v id (λ j. record j { environments = env ∷ [] })
      (λ job. record { id = refl; submitter = refl; niceness = refl; server = refl }))

pub answer-SameWork :
    (net : Net) (s : Scheduler) (job : Job) (p : ℕ) (host_platform : String) (gotit : Bool)
    → SameWork s (answer net s job p host_platform gotit).0
unfolding send
answer-SameWork net s job p host_platform gotit = ground arith

settle-IsLive :
    (net : Net) (now : ℕ) (s : Scheduler) (job : Job) (p : ℕ) (gotit : Bool)
    → IsLive s
    → IsLive (settle net now s job p gotit)
settle-IsLive net now s job p true v =
    let w : IsLive (with_server p (append_job job.id) s) = IsLive-from refl refl refl refl v in
    if_of_both IsLive _ _ _ (bind_jobs-IsLive job.master_job_for _ _ w) w
settle-IsLive net now s job p false v =
    let w : IsLive (
        with_server p (λ cs. record cs { busy_installing = now })
          (with_server p (append_job job.id) s)) =
      IsLive-from refl refl refl refl v in
    if_of_both IsLive _ _ _ (bind_jobs-IsLive job.master_job_for _ _ w) w

contains-Elem : (a : ℕ) (xs : List ℕ) → Elem a xs → contains a xs ≡ true
contains-Elem a [] e = absurd e
contains-Elem a (x ∷ xs) (inl e) = ground arith
contains-Elem a (x ∷ xs) (inr e) = ground (arith, contains-Elem a xs e)

module _ (s : Scheduler) (v : IsLive s) (job : Job) (pos : JobRequestPosition) where
  abbrev assigned : ℕ → Scheduler
  assigned p = record (with_job job.id (λ j. assign_to j p) s) {
    job_requests = remove_job_request pos s.job_requests;
  }

  module _ (group_in : Elem pos.group s.job_requests) (job_in : Elem pos.job pos.group.l)
      (found : lookup pos.job s.jobs ≡ some job) where
    assigned-IsLive : (p : ℕ) → contains p s.css ≡ true → IsLive (assigned p)
    assigned-IsLive p known =
        let own = (v.sound pos.job job found).own_id in
        subst
          (λ id. IsLive (record (with_job id (λ j. assign_to j p) s) {
            job_requests = remove_job_request pos s.job_requests;
          }))
          (sym own)
          (update-IsLive (record s { job_requests = remove_job_request pos s.job_requests })
            (remove-IsLive s v pos group_in) pos.job (λ j. assign_to j p)
            (remove-Absent s v pos group_in job_in)
            (λ other e.
              let h = v.sound pos.job other e in
              record {
                own_id = h.own_id;
                numbered = h.numbered;
                from_known = h.from_known;
                on_known = known;
              }))

    assign-IsLive :
        (net : Net) (now p : ℕ) → contains p s.css ≡ true → IsLive (assign net now s job pos p)
    unfolding assign
    assign-IsLive net now p known =
        if_of_both IsLive _ _ _
          (settle-IsLive net now _ (assign_to job p) p _ (
            SameWork-IsLive (answer-SameWork net (assigned p) (assign_to job p) p _ _)
              (assigned-IsLive p known)))
          (handle_end-IsLive net job.submitter _ (
            SameWork-IsLive (answer-SameWork net (assigned p) (assign_to job p) p _ _)
              (assigned-IsLive p known)))

module _ (net : Net) (fl : Floats) (o : Options) (now : ℕ) (s : Scheduler) (v : IsLive s) where
  -- The first request is a job that is there.
  first_job-lookup :
      (first : JobRequestPosition)
      → get_first_job_request s.job_requests ≡ some first
      → lookup first.job s.jobs ≡ some (job_at s first.job)
  unfolding job_at
  first_job-lookup first e =
      let (group_in, job_in) = first_job-Elem s.job_requests first e in
      let (job, f, _, _, _) =
        All-elem (IsQueued s.jobs first.group) first.job first.group.l
          (All-elem (λ g. All (IsQueued s.jobs g) g.l) first.group s.job_requests v.queued group_in)
          job_in in
      rw f refl

  module _ (first : JobRequestPosition)
      (e : get_first_job_request s.job_requests ≡ some first) where
    abbrev first_job : Job
    first_job = job_at s first.job

    -- Whichever connected server it is given to.
    serve-IsLive : (p : ℕ) → contains p s.css ≡ true → IsLive (assign net now s first_job first p)
    serve-IsLive p known =
        let (group_in, job_in) = first_job-Elem s.job_requests first e in
        assign-IsLive s v first_job first group_in job_in (first_job-lookup first e) net now p known

    abbrev Keeps : Choice → Type 0
    Keeps c = IsLive (do_choice net fl o now s first_job c).0

    first_only-Keeps :
        (r : Option ℕ)
        → pick_server fl o s first_job ≡ r
        → Keeps (first_only fl o s first_job first r)
    first_only-Keeps (some p) picked =
        serve-IsLive p (contains-Elem p s.css (pick_server-eligible fl o s first_job p picked).0)
    first_only-Keeps none picked =
        let own =
          serve-IsLive first_job.submitter
            (v.sound first.job first_job (first_job-lookup first e)).from_known in
        if_of_both Keeps (submitter_takes fl o s first_job) _ _ own
          (if_of_both Keeps (is_some (find_if (may_take fl o s first_job) s.css)) _ _ v own)

  from_first-IsLive :
      (r : Option JobRequestPosition)
      → get_first_job_request s.job_requests ≡ r
      → IsLive (from_first net fl o now s r).0
  from_first-IsLive none e = v
  from_first-IsLive (some first) e =
      subst (Keeps first e)
        (sym (
          choose_loop-first_only fl o s (suc (length (pending s.job_requests))) (first_job first e)
            first v.ordered v.distinct e (omega arith)))
        (first_only-Keeps first e (pick_server fl o s (first_job first e)) refl)

  -- One step of the dispatch keeps jobs, queue and servers in step, whichever messages the network
  -- takes.
  pub empty_queue-IsLive : IsLive (empty_queue net fl o now s).0
  unfolding empty_queue
  empty_queue-IsLive = from_first-IsLive (get_first_job_request s.job_requests) refl
