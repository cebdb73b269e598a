-- ===== src/Scheduler/Pick.antt =====
-- pick_server of scheduler/scheduler.cpp: which server takes a job.
pub mod Sound
pub mod Progress
pub mod Capacity
use Prim.Native.String.{String}
use icecream.Base.{
  get_elem?, is_some, is_nil, ℕ, ◌%◌, ◌==◌, str_eq, is_empty, if◌then◌else◌, Bool, false, not, ◌&&◌,
  ◌||◌, Option, none, some, List, [], ◌∷◌, copy_if, find_if, length,
}
use icecream.Base.Map.{Map}
use icecream.Base.Int.{pos, ltb_ℤ, eqb_ℤ}
use icecream.Floats.{Floats}
use icecream.Job.{Job, Environments}
use icecream.CompileServer.{CompileServer, server_at}
use icecream.CompileServer.Methods.{
  matches, platforms_compatible, can_install, check_remote, is_eligible_now, current_job_count,
}
use icecream.Algo.{pick_server_round_robin, pick_server_least_busy, should_refresh_stats, has_slots}
use icecream.Scheduler.{Scheduler}
use icecream.Scheduler.Speed.{server_speed}

-- The environment of the job that an installed one matches, as the inner loop finds it.
abbrev pub env_for : CompileServer → String → Environments → Option (String × String)
env_for cs name = find_if (λ env. str_eq name env.1 && platforms_compatible cs env.0)

abbrev pub platform_or : Option (String × String) → String → String
platform_or none rest = rest
platform_or (some (platform, _)) rest = platform

-- The loop over the installed environments.
abbrev pub envs_loop : CompileServer → Job → Environments → String
envs_loop cs job [] = ""
envs_loop cs job ((target, name) ∷ installed) =
    let rest = envs_loop cs job installed in
    if str_eq target job.target_platform
    then platform_or (env_for cs name job.environments) rest
    else rest

unfoldable pub envs_match : Map CompileServer → ℕ → Job → String
envs_match heap p job =
    let cs = server_at heap p in
    if job.submitter == p then cs.host_platform else envs_loop cs job cs.compiler_versions

-- The lambda of filter_ineligible_servers, test by test.
abbrev pub is_usable : Map CompileServer → Job → ℕ → Bool
is_usable heap job p =
    is_eligible_now heap p job
    && not (is_empty (can_install heap p job false))
    && not (not (server_at heap p).chroot_possible && not (p == job.submitter))
    && check_remote heap p job

unfoldable pub filter_ineligible_servers : Map CompileServer → List ℕ → Job → List ℕ
filter_ineligible_servers heap css job = copy_if (is_usable heap job) css

-- `random` is what random() returns.
unfoldable pub pick_server_random : ℕ → List ℕ → Option ℕ
pick_server_random random eligible = get_elem? eligible (random % length eligible)

-- The loop of pick_server_new.
abbrev pub is_new : CompileServer → Bool
is_new cs = is_nil cs.compiled.last && eqb_ℤ (current_job_count cs) (pos 0) && has_slots cs

unfoldable pub pick_server_new : Map CompileServer → Job → Option ℕ → List ℕ → Option ℕ
pick_server_new heap job selected [] = selected
pick_server_new heap job selected (p ∷ eligible) =
    pick_server_new heap job
      (if is_new (server_at heap p)
          && (not (is_some selected) || not (is_empty (envs_match heap p job)))
        then some p
        else selected)
      eligible

-- The variables of the loop of pick_server_fastest.
pub record Bests : Type 0 where
  pub best : Option ℕ
  pub bestui : Option ℕ
  pub bestpre : Option ℕ

module _ (fl : Floats) (heap : Map CompileServer) (job : Job) where
  abbrev pub is_faster : ℕ → ℕ → Bool
  is_faster p held =
      not (is_nil (server_at heap held).compiled.last)
      && fl.lt (server_speed fl heap held (some job)) (server_speed fl heap p (some job))

  abbrev pub has_free_slot : ℕ → Bool
  has_free_slot p = ltb_ℤ (current_job_count (server_at heap p)) (server_at heap p).max_jobs

  abbrev pub try_installed : ℕ → Option ℕ → Bests → Bests
  try_installed p none b = record b { best = some p }
  try_installed p (some held) b =
      if is_faster p held
      then (if has_free_slot p then record b { best = some p } else record b { bestpre = some p })
      else b

  abbrev pub try_uninstalled : ℕ → Option ℕ → Bests → Bests
  try_uninstalled p none b = record b { bestui = some p }
  try_uninstalled p (some held) b =
      if is_faster p held
      then (if has_free_slot p then record b { bestui = some p } else record b { bestpre = some p })
      else b

  -- `count` is the number of eligible servers. A server whose figures are stale ends the loop.
  unfoldable pub fastest_loop : ℕ → Bests → List ℕ → Bests
  fastest_loop count b [] = b
  fastest_loop count b (p ∷ eligible) =
      let installed = fastest_loop count (try_installed p b.best b) eligible in
      let uninstalled = fastest_loop count (try_uninstalled p b.bestui b) eligible in
      if should_refresh_stats fl job.id (server_at heap p).last_pick_id count 120
      then record b { best = some p }
      else if not (is_empty (envs_match heap p job))
      then installed
      else uninstalled

  abbrev pub or_server : Option ℕ → Option ℕ → Option ℕ
  or_server none q = q
  or_server (some p) q = some p

  unfoldable pub pick_server_fastest : Bool → ℕ → List ℕ → Option ℕ
  pick_server_fastest no_stats random eligible =
      let found =
        fastest_loop (length eligible) (record { best = none; bestui = none; bestpre = none })
          eligible in
      if no_stats
      then pick_server_random random eligible
      else or_server (pick_server_new heap job none eligible)
          (or_server found.best (or_server found.bestui found.bestpre))

-- `SchedulerAlgorithmName` of scheduler/scheduler.h.
pub data SchedulerAlgorithmName : Type 0 where
  no_algorithm random round_robin least_busy fastest undefined : SchedulerAlgorithmName

-- What the choice depends on besides the state: the options of the program, and random().
pub record Options : Type 0 where
  pub algorithm : SchedulerAlgorithmName
  pub submission_weight : ℕ
  pub random : ℕ

module _ (fl : Floats) (o : Options) where
  abbrev pub by_algorithm : SchedulerAlgorithmName → Scheduler → Job → List ℕ → Option ℕ
  by_algorithm round_robin s job eligible = pick_server_round_robin s.heap eligible
  by_algorithm least_busy s job eligible =
      pick_server_least_busy fl s.heap eligible o.submission_weight
  by_algorithm fastest s job eligible =
      pick_server_fastest fl s.heap job (is_nil s.stats.last) o.random eligible
  by_algorithm random s job eligible = pick_server_random o.random eligible
  by_algorithm no_algorithm s job eligible = pick_server_random o.random eligible
  by_algorithm undefined s job eligible = pick_server_random o.random eligible

  -- No algorithm runs for fewer than two servers.
  abbrev pub among : Scheduler → Job → List ℕ → Option ℕ
  among s job [] = none
  among s job (p ∷ []) = some p
  among s job (p ∷ q ∷ ps) = by_algorithm o.algorithm s job (p ∷ q ∷ ps)

  unfoldable pub pick_server : Scheduler → Job → Option ℕ
  pick_server s job =
      if is_empty job.preferred_host
      then among s job (filter_ineligible_servers s.heap s.css job)
      else find_if
          (λ p. matches (server_at s.heap p) job.preferred_host && is_eligible_now s.heap p job)
          s.css
