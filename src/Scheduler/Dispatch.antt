-- ===== src/Scheduler/Dispatch.antt =====
-- empty_queue of scheduler/scheduler.cpp: one pending request is given to a server.
pub mod Search
pub mod Keeps
pub mod Serves
use Prim.Native.String.{String}
use icecream.Base.{
  is_some, ℕ, zero, suc, ◌+◌, ◌==◌, ltb, leb, str_eq, is_empty, is_nil, if◌then◌else◌, Bool, true,
  false, not, ◌&&◌, ◌||◌, Option, none, some, List, [], ◌∷◌, find_if, length,
}
use icecream.Base.Map.{lookup}
use icecream.Base.Int.{ltb_ℤ}
use icecream.Floats.{Floats}
use icecream.Job.{Job, waiting_for_cs, new_job}
use icecream.JobStat.{JobStat}
use icecream.Queue.{
  JobRequestPosition, get_first_job_request, get_next_job_request, remove_job_request,
}
use icecream.Queue.Contents.{pending}
use icecream.CompileServer.Methods.{
  append_job, matches, can_install, is_eligible_ever, current_job_count,
}
use icecream.Scheduler.{Scheduler, Net, send, use_cs, no_cs, with_server, with_job, server_of}
use icecream.Scheduler.Pick.{Options, pick_server, envs_match}
use icecream.Scheduler.End.{handle_end}
use mathlib.Core.Option

-- How the search for a request and a server ends.
pub data Choice : Type 0 where
  serve : JobRequestPosition → ℕ → Choice
  delay : Choice
  no_fuel : Choice

-- `*job` of a queued job, which Scheduler/Live shows to exist.
unfoldable pub job_at : Scheduler → ℕ → Job
job_at s id = Option.get_or (lookup id s.jobs) (new_job 0 0)

module _ (fl : Floats) (o : Options) where
  -- The submitter itself, if it has a free slot and the user wants no other host.
  abbrev pub submitter_takes : Scheduler → Job → Bool
  submitter_takes s job =
      let cs = server_of s job.submitter in
      ltb_ℤ (current_job_count cs) cs.max_jobs
      && is_empty job.preferred_host
      && not (is_empty (can_install s.heap job.submitter job false))

  -- Whether some server may take the job later.
  abbrev pub may_take : Scheduler → Job → ℕ → Bool
  may_take s job p =
      (is_empty job.preferred_host || matches (server_of s p) job.preferred_host)
      && is_eligible_ever s.heap p job

  -- What happens when the walk over the queue is over.
  abbrev pub last_resort : Scheduler → Option JobRequestPosition → Choice
  last_resort s none = delay
  last_resort s (some first) =
      let job = job_at s first.job in
      if is_some (find_if (may_take s job) s.css) then delay else serve first job.submitter

  -- The `while (true)` loop. As in the source it steps the position and not the job.
  unfoldable pub choose_loop : ℕ → Scheduler → Job → JobRequestPosition → Choice
  choose_loop zero s job position = no_fuel
  choose_loop (suc fuel) s job position =
      let next : Choice = elim (get_next_job_request s.job_requests position) [
        | none ↦ last_resort s (get_first_job_request s.job_requests)
        | some position' ↦ choose_loop fuel s job position'
      ] in
      elim (pick_server fl o s job) [
        | some p ↦ serve position p
        | none ↦ if submitter_takes s job then serve position job.submitter else next
      ]

-- The loop over the figures of the server, of which it reads 17; `rcount` counts them.
abbrev pub match_in : ℕ → ℕ → ℕ → List JobStat → ℕ
match_in job_id rcount matched [] = matched
match_in job_id rcount matched (r ∷ rs) =
    let found = if job_id == r.job_id then job_id else matched in
    let rest = match_in job_id (rcount + 1) found rs in if ltb 16 (rcount + 1) then found else rest

-- The loop over the figures of the submitter, of which it reads 17 too.
abbrev pub match_job : ℕ → List JobStat → List JobStat → ℕ
match_job count [] compiled = 0
match_job count (l ∷ ls) compiled =
    let matched = match_in l.job_id 0 0 compiled in
    let rest = match_job (count + 1) ls compiled in
    if not (matched == 0) then matched else if ltb 16 (count + 1) then 0 else rest

-- The name of the first environment for this platform.
abbrev pub env_name : Option (String × String) → String
env_name none = ""
env_name (some (platform, name)) = name

-- The jobs of the same request are bound to the environment that this job got.
abbrev pub bind_jobs : List ℕ → String × String → Scheduler → Scheduler
bind_jobs [] env s = s
bind_jobs (id ∷ ids) env s =
    bind_jobs ids env (with_job id (λ j. record j { environments = env ∷ [] }) s)

abbrev pub assign_to : Job → ℕ → Job
assign_to job p = record job { state = waiting_for_cs; server = some p }

module _ (net : Net) where
  -- NoCSMsg or UseCSMsg, and what send_msg answers.
  abbrev pub answer : Scheduler → Job → ℕ → String → Bool → Scheduler × Bool
  answer s job p host_platform gotit =
      let cs = server_of s p in
      let submitter = server_of s job.submitter in
      if leb 37 submitter.protocol && p == job.submitter
      then send net job.submitter (no_cs job.id job.local_client_id) s
      else send net job.submitter
          (use_cs host_platform cs.name cs.remote_port job.id gotit job.local_client_id
            (match_job 0 submitter.requested.last cs.compiled.last))
          s

  -- The job joins the list of its server, which may have to install the environment first.
  abbrev pub settle : ℕ → Scheduler → Job → ℕ → Bool → Scheduler
  settle now s job p gotit =
      let t = with_server p (append_job job.id) s in
      let u = if gotit then t else with_server p (λ cs. record cs { busy_installing = now }) t in
      let platform = (server_of u p).host_platform in
      let env = env_name (find_if (λ e. str_eq e.0 platform) job.environments) in
      if not (is_nil job.master_job_for) && not (is_empty env)
      then bind_jobs job.master_job_for (platform, env) u
      else u

  -- The part of empty_queue behind the loop, for the job at the head of the queue.
  unfoldable pub assign : ℕ → Scheduler → Job → JobRequestPosition → ℕ → Scheduler
  assign now s job position p =
      let t = record (with_job job.id (λ j. assign_to j p) s) {
        job_requests = remove_job_request position s.job_requests;
      } in
      let job' = assign_to job p in
      let installed = envs_match t.heap p job' in
      let gotit = not (is_empty installed) in
      let platform = if gotit then installed else can_install t.heap p job' false in
      let (u, sent) = answer t job' p platform gotit in
      if sent then settle now u job' p gotit else handle_end net job.submitter u

  module _ (fl : Floats) (o : Options) where
    -- `false` means that nothing was done.
    abbrev pub do_choice : ℕ → Scheduler → Job → Choice → Scheduler × Bool
    do_choice now s job (serve position p) = (assign now s job position p, true)
    do_choice now s job delay = (s, false)
    do_choice now s job no_fuel = (s, false)

    abbrev pub from_first : ℕ → Scheduler → Option JobRequestPosition → Scheduler × Bool
    from_first now s none = (s, false)
    from_first now s (some first) =
        let job = job_at s first.job in
        do_choice now s job (choose_loop fl o (suc (length (pending s.job_requests))) s job first)

    unfoldable pub empty_queue : ℕ → Scheduler → Scheduler × Bool
    empty_queue now s = from_first now s (get_first_job_request s.job_requests)
