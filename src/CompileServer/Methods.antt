-- ===== src/CompileServer/Methods.antt =====
-- The methods of CompileServer that decide which jobs a server may take.
use Prim.Native.String.{String}
use icecream.Base.{
  ℕ, bit_and, ltb, ◌==◌, str_eq, is_empty, if◌then◌else◌, Bool, true, false, not, ◌&&◌, ◌||◌, List,
  [], ◌∷◌, ◌++◌, remove, any, find_if, length, Option, none, some,
}
use icecream.Base.Map.{Map, lookup, insert, erase}
use icecream.Base.Int.{ℤ, pos, ltb_ℤ, leb_ℤ, ◌+ℤ◌, ◌-ℤ◌, div_ℤ}
use icecream.Job.{Job, Environments}
use icecream.CompileServer.{CompileServer, LocalJobInfo, server_at}
use mathlib.Core.Option

-- `appendJob`, which is also where m_lastPickId comes from.
unfoldable pub append_job : ℕ → CompileServer → CompileServer
append_job job cs = record cs { last_pick_id = job; job_list = cs.job_list ++ job ∷ [] }

unfoldable pub remove_job : ℕ → CompileServer → CompileServer
remove_job job cs = record cs { job_list = remove job cs.job_list }

unfoldable pub submitted_jobs_increment : CompileServer → CompileServer
submitted_jobs_increment cs = record cs { submitted_jobs_count = cs.submitted_jobs_count +ℤ pos 1 }

unfoldable pub submitted_jobs_decrement : CompileServer → CompileServer
submitted_jobs_decrement cs = record cs { submitted_jobs_count = cs.submitted_jobs_count -ℤ pos 1 }

unfoldable pub insert_client_local_job_id : ℕ → ℕ → Bool → CompileServer → CompileServer
insert_client_local_job_id local_id new_id full cs = record cs {
  client_local_map = insert local_id (record { id = new_id; fulljob = full }) cs.client_local_map;
}

unfoldable pub erase_client_local_job_id : ℕ → CompileServer → CompileServer
erase_client_local_job_id local_id cs = record cs {
  client_local_map = erase local_id cs.client_local_map;
}

-- `m_clientLocalMap[localJobId].id`, 0 for a job that was never announced. The source makes an
-- entry then, and erases it at once.
unfoldable pub get_client_local_job_id : ℕ → CompileServer → ℕ
get_client_local_job_id local_id cs = elim (lookup local_id cs.client_local_map) [
  | none ↦ 0
  | some info ↦ info.id
]

-- `m_blacklist[cs]`
unfoldable pub envs_for_blacklisted : ℕ → CompileServer → Environments
envs_for_blacklisted other cs = Option.get_or (lookup other cs.blacklist) []

unfoldable pub blacklist_compile_server : ℕ → String × String → CompileServer → CompileServer
blacklist_compile_server other env cs = record cs {
  blacklist = insert other (envs_for_blacklisted other cs ++ env ∷ []) cs.blacklist;
}

unfoldable pub erase_cs_from_blacklist : ℕ → CompileServer → CompileServer
erase_cs_from_blacklist other cs = record cs { blacklist = erase other cs.blacklist }

unfoldable pub matches : CompileServer → String → Bool
matches cs nm = str_eq cs.node_name nm || str_eq cs.name nm

-- The table of platforms_compatible: which host runs binaries of which target.
abbrev pub platform_map : List (String × String)
platform_map =
    ("i386", "i486")
    ∷ ("i386", "i586")
    ∷ ("i386", "i686")
    ∷ ("i386", "x86_64")
    ∷ ("i486", "i586")
    ∷ ("i486", "i686")
    ∷ ("i486", "x86_64")
    ∷ ("i586", "i686")
    ∷ ("i586", "x86_64")
    ∷ ("i686", "x86_64")
    ∷ ("ppc", "ppc64")
    ∷ ("s390", "s390x")
    ∷ []

unfoldable pub platforms_compatible : CompileServer → String → Bool
platforms_compatible cs target =
    str_eq target cs.host_platform
    || any (λ (from, to). str_eq from target && str_eq to cs.host_platform) platform_map

-- Pairs of texts are equal when both parts are.
abbrev pub env_eq : String × String → String × String → Bool
env_eq (a, b) (c, d) = str_eq a c && str_eq b d

unfoldable pub current_job_count_remote : CompileServer → ℕ
current_job_count_remote cs = length cs.job_list

-- `count += info.second.fulljob ? m_maxJobs : 1`
abbrev local_jobs : ℤ → Map LocalJobInfo → ℤ
local_jobs max_jobs [] = pos 0
local_jobs max_jobs ((_, info) ∷ m) =
    (if info.fulljob then max_jobs else pos 1) +ℤ local_jobs max_jobs m

unfoldable pub current_job_count_local : CompileServer → ℤ
current_job_count_local cs = local_jobs cs.max_jobs cs.client_local_map

unfoldable pub current_job_count : CompileServer → ℤ
current_job_count cs = pos (current_job_count_remote cs) +ℤ current_job_count_local cs

unfoldable pub max_preload_count : CompileServer → ℤ
max_preload_count cs = pos 1 +ℤ div_ℤ cs.max_jobs 4

unfoldable pub features_supported : CompileServer → ℕ → Bool
features_supported cs features = bit_and cs.features_supported features == features

-- The methods below compare `this` with other servers, so they take its address.
module _ (heap : Map CompileServer) (this : ℕ) (job : Job) where
  unfoldable pub blacklisted : String × String → Bool
  blacklisted environment =
      any (env_eq environment) (envs_for_blacklisted this (server_at heap job.submitter))

  unfoldable pub check_remote : Bool
  check_remote = job.submitter == this || not (server_at heap this).no_remote

  -- The platform of the first environment that fits; empty when there is none.
  abbrev first_platform : Option (String × String) → String
  first_platform none = ""
  first_platform (some (platform, _)) = platform

  unfoldable pub can_install : Bool → String
  can_install ignore_installing =
      let cs = server_at heap this in
      if not ignore_installing && not (cs.busy_installing == 0)
      then ""
      else first_platform
          (find_if (λ env. platforms_compatible cs env.0 && not (blacklisted env)) job.environments)

  unfoldable pub is_eligible_ever : Bool
  is_eligible_ever =
      let cs = server_at heap this in
      ltb_ℤ (pos 0) cs.max_jobs
      && (cs.chroot_possible || job.submitter == this)
      && leb_ℤ job.minimal_host_version (pos cs.maximum_remote_protocol)
      && features_supported cs job.required_features
      && cs.accepting_in_connection
      && not (is_empty (can_install true))
      && check_remote

  -- `jobs_okay` of is_eligible_now.
  abbrev pub jobs_okay : CompileServer → Bool
  jobs_okay cs =
      let local_jobs_now = current_job_count_local cs in
      let jobs_now = local_jobs_now +ℤ pos (current_job_count_remote cs) in
      ltb_ℤ jobs_now cs.max_jobs
      || (ltb_ℤ (pos 0) cs.max_jobs
          && ltb_ℤ jobs_now (cs.max_jobs +ℤ max_preload_count cs)
          && ltb_ℤ local_jobs_now cs.max_jobs)

  unfoldable pub is_eligible_now : Bool
  is_eligible_now =
      let cs = server_at heap this in
      is_eligible_ever && jobs_okay cs && ltb cs.load 1000 && not (is_empty (can_install false))
