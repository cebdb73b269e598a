-- ===== src/Job.antt =====
-- scheduler/job.h and job.cpp: a compile job as the scheduler knows it. A server is named by its
-- address, a job by its id. The flags are those of services/job.h.
use Prim.Native.String.{String}
use icecream.Base.{
  ℕ, ltb, leb, bit_and, ◌==◌, if◌then◌else◌, ◌-◌, ◌%◌, Bool, not, Option, none, List, [],
}
use icecream.Base.Int.{ℤ, pos, negsuc}

-- `Environments` of services/comm.h: pairs of a host platform and an environment's name.
abbrev pub Environments : Type 0
Environments = List (String × String)

pub data JobState : Type 0 where
  pending waiting_for_cs compiling : JobState

abbrev pub u32 : ℕ
u32 = 4294967296

-- `int(x)` of a `uint32_t`.
abbrev pub to_int : ℕ → ℤ
to_int n = if ltb n 2147483648 then pos n else negsuc (u32 - n - 1)

-- A pointer that may be null is an `Option`; `startOnScheduler` and `doneTime` are left out, since
-- nothing reads them.
pub record Job : Type 0 where
  pub id : ℕ
  pub local_client_id : ℕ
  pub state : JobState
  pub server : Option ℕ
  pub submitter : ℕ
  pub environments : Environments
  pub start_time : ℕ
  pub target_platform : String
  pub file_name : String
  pub master_job_for : List ℕ
  pub arg_flags : ℕ
  pub language : String
  pub preferred_host : String
  pub minimal_host_version : ℤ
  pub required_features : ℕ
  pub niceness : ℕ

-- The constructor. Its call of submittedJobsIncrement stands where the job is made.
unfoldable pub new_job : ℕ → ℕ → Job
new_job id submitter = record {
  id = id;
  local_client_id = 0;
  state = pending;
  server = none;
  submitter = submitter;
  environments = [];
  start_time = 0;
  target_platform = "";
  file_name = "";
  master_job_for = [];
  arg_flags = 0;
  language = "";
  preferred_host = "";
  minimal_host_version = pos 0;
  required_features = 0;
  niceness = 0;
}

-- `argFlags() & flag`
abbrev pub has_flag : Job → ℕ → Bool
has_flag job flag = not (bit_and job.arg_flags flag == 0)

abbrev pub flag_g : ℕ
flag_g = 1

abbrev pub flag_g3 : ℕ
flag_g3 = 2

abbrev pub flag_O : ℕ
flag_O = 4

abbrev pub flag_O2 : ℕ
flag_O2 = 8

abbrev pub flag_Ol2 : ℕ
flag_Ol2 = 16

-- `max(0, min(20, int(niceness)))`
unfoldable pub clamp_niceness : ℕ → ℕ
clamp_niceness n = if leb 2147483648 (n % u32) then 0 else if leb (n % u32) 20 then n % u32 else 20
