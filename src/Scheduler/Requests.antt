-- ===== src/Scheduler/Requests.antt =====
-- The requests for compile servers, and the local jobs, of scheduler/scheduler.cpp.
pub mod Keeps
pub mod Contents
use Prim.Native.String.{String}
use icecream.Base.{ℕ, zero, suc, ◌+◌, ◌%◌, Bool, Option, none, some, [], ◌∷◌, ◌++◌}
use icecream.Base.Map.{insert}
use icecream.Base.Int.{ℤ}
use icecream.Job.{Job, Environments, new_job, clamp_niceness, to_int, u32}
use icecream.Queue.{enqueue_job_request}
use icecream.CompileServer.Methods.{
  submitted_jobs_increment, insert_client_local_job_id, erase_client_local_job_id,
  get_client_local_job_id,
}
use icecream.Scheduler.{
  Scheduler, Net, mon_get_cs, mon_local_job_begin, job_local_done, with_server, with_job, server_of,
}
use icecream.Scheduler.Notify.{notify_monitors}

-- `CompileJob::Language` of services/job.h; the last stands for a value that is none of them.
pub data Language : Type 0 where
  c cxx objc objcxx custom other : Language

pub record GetCsMsg : Type 0 where
  pub versions : Environments
  pub filename : String
  pub lang : Language
  pub count : ℕ
  pub target : String
  pub arg_flags : ℕ
  pub client_id : ℕ
  pub preferred_host : String
  pub minimal_host_version : ℤ
  pub required_features : ℕ
  pub client_count : ℕ
  pub niceness : ℕ

-- The counter is an `unsigned int`.
abbrev pub next_id : ℕ → ℕ
next_id n = (n + 1) % u32

abbrev pub language_name : Language → String
language_name c = "C"
language_name cxx = "C++"
language_name objc = "ObjC"
language_name objcxx = "ObjC++"
language_name custom = "<custom>"
language_name other = "???"

-- create_new_job: the state holds the job under its new id, which is new_job_id.
unfoldable pub create_new_job : ℕ → Scheduler → Scheduler
create_new_job submitter s =
    let id = next_id s.new_job_id in
    with_server submitter submitted_jobs_increment
      (record s { new_job_id = id; jobs = insert id (new_job id submitter) s.jobs })

-- The setters that handle_cs_request calls on a new job.
unfoldable pub fill_job : GetCsMsg → Job → Job
fill_job m job = record job {
  environments = m.versions;
  target_platform = m.target;
  arg_flags = m.arg_flags;
  language = language_name m.lang;
  file_name = m.filename;
  local_client_id = m.client_id;
  preferred_host = m.preferred_host;
  minimal_host_version = m.minimal_host_version;
  required_features = m.required_features;
  niceness = clamp_niceness m.niceness;
}

-- `if (!master_job) master_job = job; else master_job->appendJob(job);`
abbrev pub join_master : Option ℕ → ℕ → Scheduler → Scheduler
join_master none id s = s
join_master (some master) id s =
    with_job master (λ j. record j { master_job_for = j.master_job_for ++ id ∷ [] }) s

abbrev pub or_first : Option ℕ → ℕ → Option ℕ
or_first none id = some id
or_first (some master) id = some master

pub record JobLocalBeginMsg : Type 0 where
  pub outfile : String
  pub stime : ℕ
  pub id : ℕ
  pub fulljob : Bool

module _ (net : Net) where
  -- One round of the loop of handle_cs_request, up to the master job.
  unfoldable pub request_one : ℕ → GetCsMsg → Scheduler → Scheduler
  request_one submitter m s =
      let t = create_new_job submitter s in
      let id = t.new_job_id in
      let u = with_job id (fill_job m) t in
      notify_monitors net (mon_get_cs id (server_of u submitter).host_id) (record u {
        job_requests = enqueue_job_request submitter (clamp_niceness m.niceness) id u.job_requests;
      })

  unfoldable pub request_loop : ℕ → Option ℕ → ℕ → GetCsMsg → Scheduler → Scheduler
  request_loop zero master submitter m s = s
  request_loop (suc count) master submitter m s =
      let t = request_one submitter m s in
      let id = t.new_job_id in
      request_loop count (or_first master id) submitter m (join_master master id t)

  unfoldable pub handle_cs_request : ℕ → GetCsMsg → Scheduler → Scheduler
  handle_cs_request cs m s =
      request_loop m.count none cs m
        (with_server cs (λ o. record o { client_count = to_int m.client_count }) s)

  unfoldable pub handle_local_job : ℕ → JobLocalBeginMsg → Scheduler → Scheduler
  handle_local_job cs m s =
      let id = next_id s.new_job_id in
      let t =
        with_server cs (insert_client_local_job_id m.id id m.fulljob)
          (record s { new_job_id = id }) in
      notify_monitors net (mon_local_job_begin id m.outfile m.stime (server_of t cs).host_id) t

  unfoldable pub handle_local_job_done : ℕ → ℕ → Scheduler → Scheduler
  handle_local_job_done cs job_id s =
      with_server cs (erase_client_local_job_id job_id)
        (notify_monitors net (job_local_done (get_client_local_job_id job_id (server_of s cs))) s)
