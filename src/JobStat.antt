-- ===== src/JobStat.antt =====
-- scheduler/jobstat.cpp and jobstat.h: the figures of a finished job, and sums of them. The four
-- sizes and times are `unsigned long` of 64 bits.
pub mod Window
use icecream.Base.{ℕ, ◌+◌, ◌-◌, ◌%◌, ltb, if◌then◌else◌, List, [], ◌∷◌, ◌++◌, length}

abbrev pub u64 : ℕ
u64 = 18446744073709551616

abbrev pub add64 : ℕ → ℕ → ℕ
add64 a b = (a + b) % u64

abbrev pub sub64 : ℕ → ℕ → ℕ
sub64 a b = (a + (u64 - b % u64)) % u64

pub record JobStat : Type 0 where
  pub output_size : ℕ
  pub compile_time_real : ℕ
  pub compile_time_user : ℕ
  pub compile_time_sys : ℕ
  pub job_id : ℕ

-- The constructor.
abbrev pub new_stat : JobStat
new_stat = record {
  output_size = 0;
  compile_time_real = 0;
  compile_time_user = 0;
  compile_time_sys = 0;
  job_id = 0;
}

-- `operator+=`
unfoldable pub add_stat : JobStat → JobStat → JobStat
add_stat a b = record {
  output_size = add64 a.output_size b.output_size;
  compile_time_real = add64 a.compile_time_real b.compile_time_real;
  compile_time_user = add64 a.compile_time_user b.compile_time_user;
  compile_time_sys = add64 a.compile_time_sys b.compile_time_sys;
  job_id = 0;
}

-- `operator-=`
unfoldable pub sub_stat : JobStat → JobStat → JobStat
sub_stat a b = record {
  output_size = sub64 a.output_size b.output_size;
  compile_time_real = sub64 a.compile_time_real b.compile_time_real;
  compile_time_user = sub64 a.compile_time_user b.compile_time_user;
  compile_time_sys = sub64 a.compile_time_sys b.compile_time_sys;
  job_id = 0;
}

-- The last figures and their sum, as a server keeps them for the jobs that it compiled and for
-- those that it requested, and the scheduler for all jobs.
pub record StatWindow : Type 0 where
  pub last : List JobStat
  pub cum : JobStat

abbrev pub no_stats : StatWindow
no_stats = record { last = []; cum = new_stat }

-- `setCum(cum() - *last().begin()); pop()` of a list with too many entries.
abbrev pub drop_oldest : List JobStat → JobStat → StatWindow
drop_oldest [] cum = record { last = []; cum = cum }
drop_oldest (oldest ∷ last) cum = record { last = last; cum = sub_stat cum oldest }

-- The three blocks of add_job_stats that append a figure, add it to the sum, and keep the list
-- within its limit.
unfoldable pub push_stat : ℕ → JobStat → StatWindow → StatWindow
unfolding add_stat sub_stat
push_stat limit st w =
    let last = w.last ++ st ∷ [] in
    let cum = add_stat w.cum st in
    if ltb limit (length last) then drop_oldest last cum else record { last = last; cum = cum }
