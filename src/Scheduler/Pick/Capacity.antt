-- ===== src/Scheduler/Pick/Capacity.antt =====
-- A server that is picked has room for the job.
use icecream.Base.{ℕ, ◌+◌, ◌≡◌, ap, true, some, [], ◌∷◌, length-append, arith}
use icecream.Base.Map.{Map}
use icecream.Base.Int.{ℤ, pos, negsuc, neg_part, ◌+ℤ◌, ◌≤ℤ◌, div_ℤ, +ℤ_parts}
use icecream.Floats.{Floats}
use icecream.Job.{Job}
use icecream.CompileServer.{CompileServer, server_at}
use icecream.CompileServer.Methods.{
  append_job, current_job_count, current_job_count_local, current_job_count_remote,
  max_preload_count, is_eligible_now,
}
use icecream.CompileServer.Eligible.{◌<ℤ◌, is_eligible_ever-IsEligible, now→ever}
use icecream.Scheduler.{Scheduler}
use icecream.Scheduler.Pick.{Options, pick_server}
use icecream.Scheduler.Pick.Sound.{pick_server-eligible}

div_ℤ-nonneg : (a : ℤ) → ◌<ℤ◌ (pos 0) a → neg_part (div_ℤ a 4) ≡ 0
unfolding div_ℤ
div_ℤ-nonneg (pos n) h = ground arith
div_ℤ-nonneg (negsuc n) h = absurd (omega arith)

-- The count with one job more.
append_job-count :
    (id : ℕ) (cs : CompileServer)
    → current_job_count (append_job id cs)
      ≡ pos (current_job_count_remote cs + 1) +ℤ current_job_count_local cs
unfolding append_job current_job_count current_job_count_remote current_job_count_local
append_job-count id cs =
    ap (λ n. pos n +ℤ current_job_count_local cs) (length-append cs.job_list (id ∷ []))

is_eligible_now-room :
    (heap : Map CompileServer) (p : ℕ) (job : Job) (id : ℕ)
    → is_eligible_now heap p job ≡ true
    → let cs = server_at heap p in
      current_job_count (append_job id cs) ≤ℤ cs.max_jobs +ℤ max_preload_count cs
unfolding max_preload_count
is_eligible_now-room heap p job id h =
    let cs = server_at heap p in
    let (ever, okay, _, _) = now→ever heap p job h in
    let slots = (is_eligible_ever-IsEligible heap p job ever).has_slots in
    let R = current_job_count_remote cs in
    let L = current_job_count_local cs in
    ground (
      arith,
      append_job-count id cs,
      div_ℤ-nonneg cs.max_jobs slots,
      +ℤ_parts (pos (R + 1)) L,
      +ℤ_parts L (pos R),
      +ℤ_parts (pos 1) (div_ℤ cs.max_jobs 4),
      +ℤ_parts cs.max_jobs (pos 1 +ℤ div_ℤ cs.max_jobs 4),
    )

-- A server that is picked, by whatever algorithm, has after one job more at most as many jobs as it
-- has slots, and its preload on top.
pub pick_server-room :
    (fl : Floats) (o : Options) (s : Scheduler) (job : Job) (p id : ℕ)
    → pick_server fl o s job ≡ some p
    → let cs = server_at s.heap p in
      current_job_count (append_job id cs) ≤ℤ cs.max_jobs +ℤ max_preload_count cs
pick_server-room fl o s job p id e =
    is_eligible_now-room s.heap p job id (pick_server-eligible fl o s job p e).1
