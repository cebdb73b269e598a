-- ===== src/Comm/Done.antt =====
-- services/comm.h and services/comm.cpp: JobDoneMsg, which ends a job. Before protocol version 39 an
-- exit code of 200 stood for a job whose id is not known.
pub mod RoundTrip
use icecream.Base.{ℕ, ◌-◌, ◌+◌, ◌/◌, ◌%◌, Bool, ◌&&◌, not, ◌==◌, if◌then◌else◌}
use icecream.Comm.{
  Writer, Reader, pure, ◌>>=◌, put_u32, read_u32, put_since, read_since, is_protocol_version,
}

-- `exitcode` is an `int`: its 32 bits.
pub record JobDone : Type 0 where
  pub real_msec : ℕ
  pub user_msec : ℕ
  pub sys_msec : ℕ
  pub pfaults : ℕ
  pub exitcode : ℕ
  pub flags : ℕ
  pub in_compressed : ℕ
  pub in_uncompressed : ℕ
  pub out_compressed : ℕ
  pub out_uncompressed : ℕ
  pub job_id : ℕ
  pub client_count : ℕ

-- JobDoneMsg(id, exit, flags, client_count)
abbrev pub new_job_done : ℕ → ℕ → ℕ → ℕ → JobDone
new_job_done id exit flags client_count = record {
  real_msec = 0;
  user_msec = 0;
  sys_msec = 0;
  pfaults = 0;
  exitcode = exit;
  flags = flags;
  in_compressed = 0;
  in_uncompressed = 0;
  out_compressed = 0;
  out_uncompressed = 0;
  job_id = id;
  client_count = client_count;
}

-- `flags & UnknownJobId`, `flags | UnknownJobId` and `flags & ~UnknownJobId`: the bit is 2.
abbrev pub is_unknown : ℕ → Bool
is_unknown flags = flags / 2 % 2 == 1

abbrev pub with_unknown : ℕ → ℕ
with_unknown flags = if is_unknown flags then flags else flags + 2

abbrev pub without_unknown : ℕ → ℕ
without_unknown flags = if is_unknown flags then flags - 2 else flags

abbrev pub set_from : ℕ → JobDone → JobDone
set_from from m = record m {
  flags = if from == 1 && m.flags % 2 == 0 then m.flags + 1 else m.flags;
}

unfoldable pub set_unknown_job_client_id : ℕ → JobDone → JobDone
set_unknown_job_client_id client_id m = record m {
  flags = with_unknown m.flags;
  job_id = client_id;
}

unfoldable pub set_job_id : ℕ → JobDone → JobDone
set_job_id job_id m = record m { job_id = job_id; flags = without_unknown m.flags }

unfoldable pub unknown_client : JobDone → ℕ
unknown_client m = if is_unknown m.flags then m.job_id else 0

unfoldable pub fill_job_done : ℕ → Reader JobDone
fill_job_done protocol = do
  job_id ← read_u32
  exitcode ← read_u32
  real_msec ← read_u32
  user_msec ← read_u32
  sys_msec ← read_u32
  pfaults ← read_u32
  in_compressed ← read_u32
  in_uncompressed ← read_u32
  out_compressed ← read_u32
  out_uncompressed ← read_u32
  sent_flags ← read_u32
  let unknown = not (is_protocol_version 39 protocol) && exitcode == 200
  client_count ← read_since 39 protocol read_u32 0
  pure (record {
    real_msec = real_msec;
    user_msec = user_msec;
    sys_msec = sys_msec;
    pfaults = pfaults;
    exitcode = exitcode;
    flags = if unknown then with_unknown sent_flags else sent_flags;
    in_compressed = in_compressed;
    in_uncompressed = in_uncompressed;
    out_compressed = out_compressed;
    out_uncompressed = out_uncompressed;
    job_id = job_id;
    client_count = client_count;
  })

-- What goes over the wire as exit code.
abbrev pub sent_exitcode : ℕ → JobDone → ℕ
sent_exitcode protocol m =
    if not (is_protocol_version 39 protocol) && is_unknown m.flags then 200 else m.exitcode

unfoldable pub send_job_done : ℕ → JobDone → Writer
send_job_done protocol m behind = put_u32 m.job_id (
    put_u32 (sent_exitcode protocol m) (
      put_u32 m.real_msec (
        put_u32 m.user_msec (
          put_u32 m.sys_msec (
            put_u32 m.pfaults (
              put_u32 m.in_compressed (
                put_u32 m.in_uncompressed (
                  put_u32 m.out_compressed (
                    put_u32 m.out_uncompressed (
                      put_u32 m.flags
                        (put_since 39 protocol (put_u32 m.client_count) behind)))))))))))
