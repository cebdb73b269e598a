-- ===== src/Comm/Jobs.antt =====
-- services/comm.h and services/comm.cpp: the messages about the jobs that run, on a server or at their
-- submitter. JobBeginMsg is the record JobBegin here, and so on.
pub mod RoundTrip
use icecream.Base.{ℕ, Bool, false}
use icecream.Comm.{
  Bytes, Writer, Reader, pure, ◌>>=◌, put_u32, read_u32, put_string, read_string, put_since,
  read_since, put_bool, read_bool,
}
use icecream.Comm.Path.{shorten_filename}

pub record JobBegin : Type 0 where
  pub job_id : ℕ
  pub stime : ℕ
  pub client_count : ℕ

unfoldable pub fill_job_begin : ℕ → Reader JobBegin
fill_job_begin protocol = do
  job_id ← read_u32
  stime ← read_u32
  client_count ← read_since 39 protocol read_u32 0
  pure (record { job_id = job_id; stime = stime; client_count = client_count })

unfoldable pub send_job_begin : ℕ → JobBegin → Writer
send_job_begin protocol m behind =
    put_u32 m.job_id (put_u32 m.stime (put_since 39 protocol (put_u32 m.client_count) behind))

pub record JobLocalBegin : Type 0 where
  pub stime : ℕ
  pub outfile : Bytes
  pub id : ℕ
  pub fulljob : Bool
  pub niceness : ℕ

unfoldable pub fill_job_local_begin : ℕ → Reader JobLocalBegin
fill_job_local_begin protocol = do
  stime ← read_u32
  outfile ← read_string
  id ← read_u32
  fulljob ← read_since 44 protocol read_bool false
  niceness ← read_since 45 protocol read_u32 0
  pure
      (record { stime = stime; outfile = outfile; id = id; fulljob = fulljob; niceness = niceness })

unfoldable pub send_job_local_begin : ℕ → JobLocalBegin → Writer
send_job_local_begin protocol m behind = put_u32 m.stime (
    put_string m.outfile (
      put_u32 m.id (
        put_since 44 protocol (put_bool m.fulljob)
          (put_since 45 protocol (put_u32 m.niceness) behind))))

pub record JobLocalDone : Type 0 where
  pub job_id : ℕ

unfoldable pub fill_job_local_done : Reader JobLocalDone
fill_job_local_done = do job_id ← read_u32; pure (record { job_id = job_id })

unfoldable pub send_job_local_done : JobLocalDone → Writer
send_job_local_done m behind = put_u32 m.job_id behind

-- `status` is an `int`: its 32 bits.
pub record CompileResult : Type 0 where
  pub err : Bytes
  pub out : Bytes
  pub status : ℕ
  pub was_out_of_memory : Bool
  pub have_dwo_file : Bool

unfoldable pub fill_compile_result : ℕ → Reader CompileResult
fill_compile_result protocol = do
  err ← read_string
  out ← read_string
  status ← read_u32
  was_out_of_memory ← read_bool
  have_dwo_file ← read_since 35 protocol read_bool false
  pure (record {
    err = err;
    out = out;
    status = status;
    was_out_of_memory = was_out_of_memory;
    have_dwo_file = have_dwo_file;
  })

unfoldable pub send_compile_result : ℕ → CompileResult → Writer
send_compile_result protocol m behind = put_string m.err (
    put_string m.out (
      put_u32 m.status
        (put_bool m.was_out_of_memory (put_since 35 protocol (put_bool m.have_dwo_file) behind))))

pub record MonJobBegin : Type 0 where
  pub job_id : ℕ
  pub stime : ℕ
  pub hostid : ℕ

unfoldable pub fill_mon_job_begin : Reader MonJobBegin
fill_mon_job_begin = do
  job_id ← read_u32
  stime ← read_u32
  hostid ← read_u32
  pure (record { job_id = job_id; stime = stime; hostid = hostid })

unfoldable pub send_mon_job_begin : MonJobBegin → Writer
send_mon_job_begin m behind = put_u32 m.job_id (put_u32 m.stime (put_u32 m.hostid behind))

pub record MonLocalJobBegin : Type 0 where
  pub hostid : ℕ
  pub job_id : ℕ
  pub stime : ℕ
  pub file : Bytes

unfoldable pub fill_mon_local_job_begin : Reader MonLocalJobBegin
fill_mon_local_job_begin = do
  hostid ← read_u32
  job_id ← read_u32
  stime ← read_u32
  file ← read_string
  pure (record { hostid = hostid; job_id = job_id; stime = stime; file = file })

unfoldable pub send_mon_local_job_begin : MonLocalJobBegin → Writer
send_mon_local_job_begin m behind =
    put_u32 m.hostid
      (put_u32 m.job_id (put_u32 m.stime (put_string (shorten_filename m.file) behind)))
