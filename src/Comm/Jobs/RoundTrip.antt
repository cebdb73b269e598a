-- ===== src/Comm/Jobs/RoundTrip.antt =====
-- The messages about running jobs come over the wire as they were sent, up to what an older
-- protocol leaves out.
use icecream.Base.{ℕ, ◌≡◌, refl, false, if◌then◌else◌}
use icecream.Comm.{Bytes, IsWord, IsText, is_protocol_version}
use icecream.Comm.RoundTrip.{
  then_read, then_since, read_u32-put_u32, read_string-put_string, read_bool-put_bool,
}
use icecream.Comm.Path.{shorten_filename, shorten_filename-IsText}
use icecream.Comm.Jobs.{
  JobBegin, fill_job_begin, send_job_begin, JobLocalBegin, fill_job_local_begin,
  send_job_local_begin, JobLocalDone, fill_job_local_done, send_job_local_done, CompileResult,
  fill_compile_result, send_compile_result, MonJobBegin, fill_mon_job_begin, send_mon_job_begin,
  MonLocalJobBegin, fill_mon_local_job_begin, send_mon_local_job_begin,
}

abbrev pub IsJobBegin : JobBegin → Type 0
IsJobBegin m = IsWord m.job_id × IsWord m.stime × IsWord m.client_count

-- What a channel of the given version carries.
abbrev pub carried_job_begin : ℕ → JobBegin → JobBegin
carried_job_begin p m = record m {
  client_count = if is_protocol_version 39 p then m.client_count else 0;
}

pub fill_job_begin-send_job_begin :
    (p : ℕ) (m : JobBegin) (behind : Bytes)
    → IsJobBegin m
    → fill_job_begin p (send_job_begin p m behind) ≡ (carried_job_begin p m, behind)
unfolding fill_job_begin send_job_begin
fill_job_begin-send_job_begin p m behind h =
    then_read _ _ (read_u32-put_u32 h.0)
      (then_read _ _ (read_u32-put_u32 h.1) (then_since _ _ _ _ _ _ (read_u32-put_u32 h.2) refl))

abbrev pub IsJobLocalBegin : JobLocalBegin → Type 0
IsJobLocalBegin m = IsWord m.stime × IsText m.outfile × IsWord m.id × IsWord m.niceness

-- What a channel of the given version carries.
abbrev pub carried_job_local_begin : ℕ → JobLocalBegin → JobLocalBegin
carried_job_local_begin p m = record m {
  fulljob = if is_protocol_version 44 p then m.fulljob else false;
  niceness = if is_protocol_version 45 p then m.niceness else 0;
}

pub fill_job_local_begin-send_job_local_begin :
    (p : ℕ) (m : JobLocalBegin) (behind : Bytes)
    → IsJobLocalBegin m
    → fill_job_local_begin p (send_job_local_begin p m behind)
      ≡ (carried_job_local_begin p m, behind)
unfolding fill_job_local_begin send_job_local_begin
fill_job_local_begin-send_job_local_begin p m behind h = then_read _ _ (read_u32-put_u32 h.0) (
    then_read _ _ (read_string-put_string h.1) (
      then_read _ _ (read_u32-put_u32 h.2) (
        then_since _ _ _ _ _ _ (read_bool-put_bool)
          (then_since _ _ _ _ _ _ (read_u32-put_u32 h.3) refl))))

abbrev pub IsJobLocalDone : JobLocalDone → Type 0
IsJobLocalDone m = IsWord m.job_id

pub fill_job_local_done-send_job_local_done :
    (m : JobLocalDone) (behind : Bytes)
    → IsJobLocalDone m
    → fill_job_local_done (send_job_local_done m behind) ≡ (m, behind)
unfolding fill_job_local_done send_job_local_done
fill_job_local_done-send_job_local_done m behind h = then_read _ _ (read_u32-put_u32 h) refl

abbrev pub IsCompileResult : CompileResult → Type 0
IsCompileResult m = IsText m.err × IsText m.out × IsWord m.status

-- What a channel of the given version carries.
abbrev pub carried_compile_result : ℕ → CompileResult → CompileResult
carried_compile_result p m = record m {
  have_dwo_file = if is_protocol_version 35 p then m.have_dwo_file else false;
}

pub fill_compile_result-send_compile_result :
    (p : ℕ) (m : CompileResult) (behind : Bytes)
    → IsCompileResult m
    → fill_compile_result p (send_compile_result p m behind) ≡ (carried_compile_result p m, behind)
unfolding fill_compile_result send_compile_result
fill_compile_result-send_compile_result p m behind h = then_read _ _ (read_string-put_string h.0) (
    then_read _ _ (read_string-put_string h.1) (
      then_read _ _ (read_u32-put_u32 h.2)
        (then_read _ _ (read_bool-put_bool) (then_since _ _ _ _ _ _ (read_bool-put_bool) refl))))

abbrev pub IsMonJobBegin : MonJobBegin → Type 0
IsMonJobBegin m = IsWord m.job_id × IsWord m.stime × IsWord m.hostid

pub fill_mon_job_begin-send_mon_job_begin :
    (m : MonJobBegin) (behind : Bytes)
    → IsMonJobBegin m
    → fill_mon_job_begin (send_mon_job_begin m behind) ≡ (m, behind)
unfolding fill_mon_job_begin send_mon_job_begin
fill_mon_job_begin-send_mon_job_begin m behind h =
    then_read _ _ (read_u32-put_u32 h.0)
      (then_read _ _ (read_u32-put_u32 h.1) (then_read _ _ (read_u32-put_u32 h.2) refl))

abbrev pub IsMonLocalJobBegin : MonLocalJobBegin → Type 0
IsMonLocalJobBegin m = IsWord m.hostid × IsWord m.job_id × IsWord m.stime × IsText m.file

-- What a channel of the given version carries.
abbrev pub carried_mon_local_job_begin : MonLocalJobBegin → MonLocalJobBegin
carried_mon_local_job_begin m = record m { file = shorten_filename m.file }

pub fill_mon_local_job_begin-send_mon_local_job_begin :
    (m : MonLocalJobBegin) (behind : Bytes)
    → IsMonLocalJobBegin m
    → fill_mon_local_job_begin (send_mon_local_job_begin m behind)
      ≡ (carried_mon_local_job_begin m, behind)
unfolding fill_mon_local_job_begin send_mon_local_job_begin
fill_mon_local_job_begin-send_mon_local_job_begin m behind h =
    then_read _ _ (read_u32-put_u32 h.0) (
      then_read _ _ (read_u32-put_u32 h.1) (
        then_read _ _ (read_u32-put_u32 h.2)
          (then_read _ _ (read_string-put_string (shorten_filename-IsText _ h.3)) refl)))
