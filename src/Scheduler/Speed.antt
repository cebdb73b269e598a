-- ===== src/Scheduler/Speed.antt =====
-- server_speed and add_job_stats of scheduler/scheduler.cpp.
use icecream.Base.{
  is_nil, ℕ, ◌*◌, ◌-◌, ◌+◌, ◌/◌, ◌%◌, ◌==◌, ltb, leb, if◌then◌else◌, not, ◌||◌, Option, none, some,
  length,
}
use icecream.Base.Map.{Map}
use icecream.Base.Int.{ℤ, pos, negsuc, ltb_ℤ, leb_ℤ, eqb_ℤ, div_ℤ}
use icecream.Floats.{Floats}
use icecream.Job.{Job, u32, has_flag, flag_g, flag_g3, flag_O, flag_O2, flag_Ol2}
use icecream.JobStat.{JobStat, u64, push_stat}
use icecream.CompileServer.{CompileServer, server_at}
use icecream.CompileServer.Methods.{current_job_count}
use icecream.Scheduler.{Scheduler, with_server}

-- JobDoneMsg of services/comm.h. The exit code is the bit pattern of an `int`.
pub record JobDoneMsg : Type 0 where
  pub real_msec : ℕ
  pub user_msec : ℕ
  pub sys_msec : ℕ
  pub exitcode : ℕ
  pub flags : ℕ
  pub out_uncompressed : ℕ
  pub job_id : ℕ
  pub client_count : ℕ

module _ (fl : Floats) where
  open fl use {F, of_int, lit, add, sub, mul, div, lt, to_ulong}

  -- The client count, or what stands for it with older daemons.
  abbrev pub effective_clients : CompileServer → ℤ
  effective_clients cs =
      if eqb_ℤ cs.client_count (pos 0) then cs.submitted_jobs_count else cs.client_count

  -- How much the submitter itself is preferred to others or penalised.
  abbrev pub submitter_factor : CompileServer → F
  submitter_factor cs =
      let clients = effective_clients cs in
      if ltb_ℤ cs.max_jobs clients
      then lit (pos 1) 10
      else if eqb_ℤ clients cs.max_jobs
      then lit (pos 8) 10
      else if leb_ℤ clients (div_ℤ cs.max_jobs 2)
      then lit (pos 11) 10
      else lit (pos 1) 1

  -- `float(1000 - cs->load()) / 1000` of an `unsigned int` load.
  abbrev pub load_factor : CompileServer → F
  load_factor cs = div (of_int (pos ((1000 + (u32 - cs.load % u32)) % u32))) (of_int (pos 1000))

  -- The part that depends on the job, if there is one.
  unfoldable pub job_factor : ℕ → CompileServer → Option Job → F → F
  job_factor this cs none f = f
  job_factor this cs (some job) f =
      mul (mul f (if job.submitter == this then submitter_factor cs else load_factor cs)) (
        sub (lit (pos 1) 1)
          (div (mul (lit (pos 5) 10) (of_int (current_job_count cs))) (of_int cs.max_jobs)))

  -- The pessimism about a server with few figures.
  abbrev pub few_figures : CompileServer → F → F
  few_figures cs f =
      if ltb (length cs.compiled.last) 7
      then mul f
          (add (mul (lit (negsuc 4) 10) (of_int (pos (length cs.compiled.last)))) (lit (pos 45) 10))
      else f

  unfoldable pub server_speed : Map CompileServer → ℕ → Option Job → F
  server_speed heap this job =
      let cs = server_at heap this in
      if is_nil cs.compiled.last || cs.compiled.cum.compile_time_user == 0
      then of_int (pos 0)
      else few_figures cs (
          job_factor this cs job (
            div (of_int (pos cs.compiled.cum.output_size))
              (of_int (pos cs.compiled.cum.compile_time_user))))

  abbrev pub with_size : ℕ → JobStat → JobStat
  with_size n st = record st { output_size = n }

  -- The output size is scaled down for debug information, and up for optimisation.
  abbrev pub debug_scaled : Job → JobStat → JobStat
  debug_scaled job st =
      if has_flag job flag_g
      then with_size (st.output_size * 10 % u64 / 36) st
      else if has_flag job flag_g3
      then with_size (st.output_size * 10 % u64 / 45) st
      else st

  abbrev pub optimisation_scaled : Job → JobStat → JobStat
  optimisation_scaled job st =
      if has_flag job flag_O || has_flag job flag_O2 || has_flag job flag_Ol2
      then with_size (st.output_size * 58 % u64 / 35) st
      else st

  -- One job may not add more than a fifth to the speed of a server that has seven figures.
  unfoldable pub smoothed : Map CompileServer → ℕ → JobStat → JobStat
  smoothed heap server st =
      let user = of_int (pos st.compile_time_user) in
      let this_speed = div (of_int (pos st.output_size)) user in
      let cur_speed = server_speed heap server none in
      if leb 7 (length (server_at heap server).compiled.last)
      then (if lt cur_speed (div this_speed (lit (pos 12) 10))
          then with_size (to_ulong (mul (mul cur_speed (lit (pos 12) 10)) user)) st
          else if lt (mul this_speed (lit (pos 12) 10)) cur_speed
          then with_size (to_ulong (mul (div cur_speed (lit (pos 12) 10)) user)) st
          else st)
      else st

  unfoldable pub job_stat : Job → JobDoneMsg → JobStat
  job_stat job msg = optimisation_scaled job (
      debug_scaled job (record {
        output_size = msg.out_uncompressed;
        compile_time_real = msg.real_msec;
        compile_time_user = msg.user_msec;
        compile_time_sys = msg.sys_msec;
        job_id = job.id;
      }))

  -- `server` is `job->server()`, which the caller has looked through already.
  unfoldable pub add_job_stats : Job → ℕ → JobDoneMsg → Scheduler → Scheduler
  add_job_stats job server msg s =
      let st = smoothed s.heap server (job_stat job msg) in
      let t = with_server server (λ cs. record cs { compiled = push_stat 200 st cs.compiled }) s in
      let u =
        with_server job.submitter (λ cs. record cs { requested = push_stat 200 st cs.requested })
          t in
      if ltb msg.out_uncompressed 4096 || not (msg.exitcode == 0)
      then s
      else record u { stats = push_stat 2000 st u.stats }
