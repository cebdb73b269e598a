-- ===== src/Daemon/Jobs/Ends.antt =====
-- daemon/main.cpp: the end of a job that was compiled here, and of all clients when the scheduler is lost.
use icecream.Base.{ℕ, zero, suc, Option, none, some, List, [], ◌∷◌, length, ◌==◌, if◌then◌else◌}
use icecream.Comm.Done.{JobDone, new_job_done}
use icecream.Comm.Msg.{job_done_msg}
use icecream.Daemon.{Client}
use icecream.Daemon.Jobs.{
  Host, Daemon, sub32, or_zero, from_server, send_scheduler, reannounce_environments, handle_end,
}

-- What the compiling process writes into its pipe at the end, by the names of JobStatistics.
pub record JobStatistics : Type 0 where
  pub in_compressed : ℕ
  pub in_uncompressed : ℕ
  pub out_uncompressed : ℕ
  pub exit_code : ℕ
  pub real_msec : ℕ
  pub user_msec : ℕ
  pub sys_msec : ℕ
  pub sys_pfaults : ℕ

-- EXIT_COMPILER_MISSING
abbrev pub exit_compiler_missing : ℕ
exit_compiler_missing = 110

-- JobDoneMsg with exit code -1, or with what was read.
abbrev pub compiled : Option JobStatistics → JobDone → JobDone
compiled none m = m
compiled (some stat) m = record m {
  in_uncompressed = stat.in_uncompressed;
  in_compressed = stat.in_compressed;
  out_compressed = stat.out_uncompressed;
  out_uncompressed = stat.out_uncompressed;
  exitcode = stat.exit_code;
  real_msec = stat.real_msec;
  user_msec = stat.user_msec;
  sys_msec = stat.sys_msec;
  pfaults = stat.sys_pfaults;
}

abbrev pub end_status : Option JobStatistics → ℕ
end_status none = 151
end_status (some stat) = stat.exit_code

module _ (h : Host) where
  -- `none` if the pipe ends too early. The removal of a damaged environment is left out.
  unfoldable pub handle_compile_done : Client → Option JobStatistics → Daemon → Daemon
  handle_compile_done c read d =
      let msg =
        compiled read (new_job_done (or_zero c.job) 4294967295 from_server (length d.clients)) in
      let fewer = record d { current_kids = sub32 d.current_kids 1 } in
      let told =
        if end_status read == exit_compiler_missing
        then (reannounce_environments h fewer).0
        else fewer in
      handle_end h c.channel (end_status read) (send_scheduler h (job_done_msg msg) told).0

  -- The loop over the clients, on fuel; all children are waited for.
  unfoldable pub end_first : List Client → Daemon → Daemon
  end_first [] d = d
  end_first (c ∷ cs) d = handle_end h c.channel 116 d

  unfoldable pub end_all : ℕ → Daemon → Daemon
  end_all zero d = d
  end_all (suc rounds) d = end_all rounds (end_first d.clients d)

  unfoldable pub clear_children : Daemon → Daemon
  clear_children d = record (end_all (length d.clients) d) { current_kids = 0; new_client_id = 0 }
