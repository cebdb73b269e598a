-- ===== src/Algo.antt =====
-- scheduler/scheduling_algo.cpp: how one of several eligible servers is chosen. A list of servers
-- is a list of addresses, read through the heap.
pub mod RoundRobin
use icecream.Base.{
  ℕ, ◌-◌, ◌+◌, ◌%◌, ◌==◌, ltb, if◌then◌else◌, Bool, true, false, not, ◌&&◌, ◌||◌, Option, none,
  some, List, [], ◌∷◌, copy_if,
}
use icecream.Base.Map.{Map}
use icecream.Base.Int.{pos, negsuc, nonneg, eqb_ℤ}
use icecream.Job.{u32}
use icecream.CompileServer.{CompileServer, server_at}
use icecream.CompileServer.Methods.{current_job_count}
use icecream.Floats.{Floats}

-- The loop of pick_server_round_robin over the rest of the list; `selected` is its variable, and
-- oldest_job is the last pick of that server, 0 before there is one.
abbrev pub oldest_of : Map CompileServer → Option ℕ → ℕ
oldest_of heap none = 0
oldest_of heap (some cs) = (server_at heap cs).last_pick_id

unfoldable pub round_robin_loop : Map CompileServer → Option ℕ → List ℕ → Option ℕ
round_robin_loop heap selected [] = selected
round_robin_loop heap none (cs ∷ eligible) = round_robin_loop heap (some cs) eligible
round_robin_loop heap (some s) (cs ∷ eligible) =
    round_robin_loop heap
      (some (if ltb (server_at heap cs).last_pick_id (oldest_of heap (some s)) then cs else s))
      eligible

unfoldable pub pick_server_round_robin : Map CompileServer → List ℕ → Option ℕ
pick_server_round_robin heap eligible = round_robin_loop heap none eligible

-- `if (cs->maxJobs())`
abbrev pub has_slots : CompileServer → Bool
has_slots cs = not (eqb_ℤ cs.max_jobs (pos 0))

module _ (fl : Floats) where
  open fl use {F, of_int, lit, add, sub, mul, div, lt, le}

  unfoldable pub should_refresh_stats : ℕ → ℕ → ℕ → ℕ → Bool
  should_refresh_stats job_id last_picked_id eligible_count stats_update_weight =
      if stats_update_weight == 255
      then false
      else if last_picked_id == 0
      then true
      else let weight_factor =
          div (sub (lit (pos 255) 1) (of_int (pos stats_update_weight))) (lit (pos 255) 1) in
        lt (mul weight_factor (of_int (pos eligible_count)))
          (of_int (pos ((job_id + u32 - last_picked_id) % u32)))

  -- The lambda server_load.
  unfoldable pub server_load : ℕ → CompileServer → F
  server_load submission_weight cs =
      let jobs = of_int (pos (nonneg (current_job_count cs))) in
      let submitted =
        div (of_int (pos (nonneg cs.submitted_jobs_count))) (of_int (pos submission_weight)) in
      div (if ltb 0 submission_weight then add jobs submitted else jobs) (of_int cs.max_jobs)

  -- The loop that finds the least load; it starts from -1.
  unfoldable pub min_load_loop : Map CompileServer → ℕ → F → List ℕ → F
  min_load_loop heap w min_load [] = min_load
  min_load_loop heap w min_load (p ∷ eligible) =
      let cs = server_at heap p in
      let load = server_load w cs in
      min_load_loop heap w
        (if has_slots cs && (lt min_load (lit (pos 0) 1) || lt load min_load)
          then load
          else min_load)
        eligible

  unfoldable pub pick_server_least_busy : Map CompileServer → List ℕ → ℕ → Option ℕ
  pick_server_least_busy heap eligible submission_weight =
      let found = min_load_loop heap submission_weight (lit (negsuc 0) 1) eligible in
      let min_load = if lt found (lit (pos 0) 1) then lit (pos 0) 1 else found in
      let epsilon = lit (pos 1) 1000000 in
      pick_server_round_robin heap (
        copy_if
          (λ p.
            has_slots (server_at heap p)
            && le (server_load submission_weight (server_at heap p)) (add min_load epsilon))
          eligible)
