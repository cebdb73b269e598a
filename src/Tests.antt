-- ===== src/Tests.antt =====
-- Runs of the model on small inputs, and the theorems at concrete data.
pub mod Runs
pub mod Wire
pub mod CommandLine
pub mod Slots
use icecream.Base.{
  String, ltb, leb, ◌+◌, ◌-◌, ◌*◌, ◌/◌, ℕ, ◌≤◌, ◌<◌, ◌≡◌, refl, ◌⊎◌, inl, inr, true, is_some,
  is_empty, some, List, [], ◌∷◌, ◌++◌, All, Elem, copy_if, length, arith,
}
use mathlib.Core.List.{Perm}
use icecream.Base.Map.{lookup}
use icecream.Base.Int.{pos_part, pos, ◌+ℤ◌, div_ℤ}
use icecream.Floats.{Floats}
use icecream.Job.{Job, new_job}
use icecream.JobStat.{JobStat, StatWindow, new_stat, no_stats, push_stat}
use icecream.JobStat.Window.{IsSum, push_stat-IsSum, total}
use icecream.Queue.{
  JobRequestsGroup, JobRequestPosition, enqueue_job_request, enqueue_job_requests_group,
  remove_job_request, get_first_job_request,
}
use icecream.Queue.Order.{
  IsQueue, enqueue_job_request-IsQueue, remove_job_request-IsQueue,
  enqueue_job_requests_group-splits,
}
use icecream.Queue.Contents.{pending, pending-remove_job_request}
use icecream.Queue.Walk.{walk, walk-first}
use icecream.CompileServer.{CompileServer, daemon, logged_in, new_server, server_at}
use icecream.CompileServer.Methods.{
  matches, can_install, is_eligible_ever, is_eligible_now, platforms_compatible, blacklisted,
  check_remote, features_supported, current_job_count_local, current_job_count_remote,
  max_preload_count, envs_for_blacklisted,
}
use icecream.Algo.{pick_server_round_robin, round_robin_loop}
use icecream.Algo.RoundRobin.{last_pick, pick_server_round_robin-oldest}
use icecream.Scheduler.{Scheduler, Net}
use icecream.Scheduler.Live.{IsLive, IsSound}
use icecream.Scheduler.Pick.{Options, round_robin, pick_server, filter_ineligible_servers}
use icecream.Scheduler.Pick.Sound.{pick_server-eligible, filter_ineligible_servers-eligible}
use icecream.Scheduler.Pick.Progress.{pick_server-some}
use icecream.Scheduler.Dispatch.{choose_loop}
use icecream.Scheduler.Dispatch.Search.{choose_loop-first_only, first_only}
use icecream.Scheduler.End.{handle_end}
use icecream.Scheduler.End.Sweep.{IsGone}
use icecream.Scheduler.End.Leaves.{handle_end-IsGone, handle_end-IsLive}

-- Numbers in place of floating point numbers.
abbrev pub numbers : Floats
numbers = record {
  F = ℕ;
  of_int = λ a. pos_part a;
  lit = λ a b. ◌/◌ (pos_part a) b;
  add = λ a b. ◌+◌ a b;
  sub = λ a b. ◌-◌ a b;
  mul = λ a b. ◌*◌ a b;
  div = λ a b. ◌/◌ a b;
  lt = λ a b. ltb a b;
  le = λ a b. leb a b;
  to_ulong = λ a. a;
}

abbrev pub round_robin_options : Options
round_robin_options = record { algorithm = round_robin; submission_weight = 0; random = 5 }

-- Everybody takes every message.
abbrev pub good_net : Net
good_net = record { delivers = λ sent to message. true }

-- A daemon with four slots, and the address that it is known by.
abbrev pub idle_daemon : String → ℕ → CompileServer
idle_daemon node fd = record (new_server fd node fd 45) {
  node_name = node;
  host_platform = "x86_64";
  load = 10;
  max_jobs = pos 4;
  state = logged_in;
  type = daemon;
  chroot_possible = true;
}

-- A job of the daemon 10 that needs an environment for x86_64.
abbrev pub waiting_job : ℕ → Job
waiting_job id = record (new_job id 10) { environments = ("x86_64", "gcc") ∷ [] }

abbrev pub queue : List JobRequestsGroup
queue = record { l = 1 ∷ 2 ∷ []; submitter = 10; niceness = 0 } ∷ []

-- Two daemons, 10 and 11, and two jobs of the first in the queue.
abbrev pub two_daemons : Scheduler
two_daemons = record {
  heap = (10, idle_daemon "a" 3) ∷ (11, record (idle_daemon "b" 4) { last_pick_id = 7 }) ∷ [];
  fd2cs = (3, 10) ∷ (4, 11) ∷ [];
  css = 11 ∷ 10 ∷ [];
  monitors = [];
  controls = [];
  block_css = [];
  new_job_id = 2;
  host_id_counter = 2;
  jobs = (1, waiting_job 1) ∷ (2, waiting_job 2) ∷ [];
  job_requests = queue;
  stats = no_stats;
  sent = [];
}

two_daemons-IsSound :
    (k : ℕ) (job : Job) → lookup k two_daemons.jobs ≡ some job → IsSound two_daemons.css 2 k job
unfolding new_job
two_daemons-IsSound k job e = ground arith

pub two_daemons-IsLive : IsLive two_daemons
unfolding new_job
two_daemons-IsLive = record {
  unique = (refl, (refl, tt));
  sound = two_daemons-IsSound;
  ordered = (omega arith, λ e. cc, tt, tt);
  distinct = ((refl, (refl, tt)), tt);
  queued = (
    ((waiting_job 1, refl, refl, refl, refl), ((waiting_job 2, refl, refl, refl, refl), tt)),
    tt,
  );
}

handle_end-IsGone_example :
    IsGone 10 (handle_end good_net 10 two_daemons) × IsLive (handle_end good_net 10 two_daemons)
unfolding new_server server_at
handle_end-IsGone_example = handle_end-IsGone good_net 10 two_daemons two_daemons-IsLive refl

handle_end-IsLive_example : IsLive (handle_end good_net 11 two_daemons)
handle_end-IsLive_example = handle_end-IsLive good_net 11 two_daemons two_daemons-IsLive

now_eligible : is_eligible_now two_daemons.heap 11 (waiting_job 1) ≡ true
unfolding new_job new_server server_at is_eligible_now is_eligible_ever can_install blacklisted
    check_remote features_supported platforms_compatible envs_for_blacklisted
    current_job_count_local current_job_count_remote max_preload_count ◌+ℤ◌ div_ℤ
now_eligible = refl

-- Of two eligible daemons, the one that was never picked.
pub picked : pick_server numbers round_robin_options two_daemons (waiting_job 1) ≡ some 10
unfolding new_job new_server server_at is_eligible_now is_eligible_ever can_install blacklisted
    check_remote features_supported platforms_compatible envs_for_blacklisted
    current_job_count_local current_job_count_remote max_preload_count ◌+ℤ◌ div_ℤ pick_server
    pick_server_round_robin round_robin_loop filter_ineligible_servers matches
picked = refl

pick_server-eligible_example :
    Elem 10 two_daemons.css
    × (is_eligible_now two_daemons.heap 10 (waiting_job 1) ≡ true)
    × ((is_empty (waiting_job 1).preferred_host ≡ true)
        ⊎ (matches (server_at two_daemons.heap 10) (waiting_job 1).preferred_host ≡ true))
pick_server-eligible_example =
    pick_server-eligible numbers round_robin_options two_daemons (waiting_job 1) 10 picked

pick_server-some_example :
    is_some (pick_server numbers round_robin_options two_daemons (waiting_job 1)) ≡ true
unfolding new_job
pick_server-some_example =
    pick_server-some numbers round_robin_options two_daemons (waiting_job 1) 11 refl (λ e. cc)
      (inl refl) now_eligible

filter_ineligible_servers-eligible_example :
    filter_ineligible_servers two_daemons.heap two_daemons.css (waiting_job 1)
    ≡ copy_if (λ p. is_eligible_now two_daemons.heap p (waiting_job 1)) two_daemons.css
filter_ineligible_servers-eligible_example =
    filter_ineligible_servers-eligible two_daemons.heap two_daemons.css (waiting_job 1)

abbrev pub first_request : JobRequestPosition
first_request = record { group = record { l = 1 ∷ 2 ∷ []; submitter = 10; niceness = 0 }; job = 1 }

choose_loop-first_only_example :
    choose_loop numbers round_robin_options 3 two_daemons (waiting_job 1) first_request
    ≡ first_only numbers round_robin_options two_daemons
        (waiting_job 1)
        first_request
        (pick_server numbers round_robin_options two_daemons (waiting_job 1))
unfolding get_first_job_request
choose_loop-first_only_example =
    choose_loop-first_only numbers round_robin_options two_daemons 3 (waiting_job 1) first_request
      two_daemons-IsLive.ordered two_daemons-IsLive.distinct refl (omega arith)

walk-first_example : walk 5 queue (get_first_job_request queue) ≡ 1 ∷ 2 ∷ []
walk-first_example =
    walk-first 5 queue two_daemons-IsLive.ordered two_daemons-IsLive.distinct (omega arith)

pending-remove_job_request_example :
    Perm (pending queue) (2 ∷ pending (remove_job_request (record first_request { job = 2 }) queue))
pending-remove_job_request_example =
    pending-remove_job_request (record first_request { job = 2 }) queue two_daemons-IsLive.ordered
      (inl refl) (inr (inl refl))

remove_job_request-IsQueue_example : IsQueue (remove_job_request first_request queue)
remove_job_request-IsQueue_example =
    remove_job_request-IsQueue first_request queue two_daemons-IsLive.ordered

enqueue_job_request-IsQueue_example : IsQueue (enqueue_job_request 11 5 3 queue)
enqueue_job_request-IsQueue_example =
    enqueue_job_request-IsQueue 11 5 3 queue two_daemons-IsLive.ordered

enqueue_job_requests_group-splits_example :
    (before after : List JobRequestsGroup) × (queue ≡ before ++ after)
    × (enqueue_job_requests_group (record { l = 9 ∷ []; submitter = 11; niceness = 0 }) queue
        ≡ before ++ record { l = 9 ∷ []; submitter = 11; niceness = 0 } ∷ after)
    × All (λ g. g.niceness ≤ 0) before
    × All (λ g. 0 < g.niceness) after
enqueue_job_requests_group-splits_example =
    enqueue_job_requests_group-splits 0 (record { l = 9 ∷ []; submitter = 11; niceness = 0 }) queue
      two_daemons-IsLive.ordered

pick_server_round_robin-oldest_example :
    (r : ℕ) × (pick_server_round_robin two_daemons.heap two_daemons.css ≡ some r)
    × Elem r two_daemons.css
    × All (λ p. last_pick two_daemons.heap r ≤ last_pick two_daemons.heap p) two_daemons.css
pick_server_round_robin-oldest_example =
    pick_server_round_robin-oldest two_daemons.heap two_daemons.css (λ e. cc)

abbrev pub figure : JobStat
figure = record new_stat { output_size = 9000; compile_time_user = 30 }

abbrev pub one_figure : StatWindow
one_figure = record { last = figure ∷ []; cum = figure }

push_stat-IsSum_example :
    IsSum (push_stat 1 figure one_figure) × (length (push_stat 1 figure one_figure).last ≤ 1)
unfolding total
push_stat-IsSum_example = push_stat-IsSum 1 figure one_figure (omega arith) (omega arith)
