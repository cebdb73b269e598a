-- ===== src/Comm/Done/RoundTrip.antt =====
-- The end of a job comes over the wire as it was sent, and so does whether its id is known.
use icecream.Base.{ℕ, ◌≡◌, refl, ◌≢◌, ◌&&◌, not, ◌==◌, if◌then◌else◌, arith, ap, ◌∙◌}
use icecream.Comm.{Bytes, IsWord, is_protocol_version}
use icecream.Comm.RoundTrip.{then_read, then_since, read_u32-put_u32}
use icecream.Comm.Done.{
  JobDone, with_unknown, sent_exitcode, fill_job_done, send_job_done, set_unknown_job_client_id,
  set_job_id, unknown_client,
}

abbrev pub IsJobDone : JobDone → Type 0
IsJobDone m =
    IsWord m.real_msec
    × IsWord m.user_msec
    × IsWord m.sys_msec
    × IsWord m.pfaults
    × IsWord m.exitcode
    × IsWord m.flags
    × IsWord m.in_compressed
    × IsWord m.in_uncompressed
    × IsWord m.out_compressed
    × IsWord m.out_uncompressed
    × IsWord m.job_id
    × IsWord m.client_count

-- What a channel of the given version carries.
unfoldable pub carried_job_done : ℕ → JobDone → JobDone
carried_job_done p m = record m {
  exitcode = sent_exitcode p m;
  flags =
      if not (is_protocol_version 39 p) && sent_exitcode p m == 200
      then with_unknown m.flags
      else m.flags;
  client_count = if is_protocol_version 39 p then m.client_count else 0;
}

pub fill_job_done-send_job_done :
    (p : ℕ) (m : JobDone) (behind : Bytes)
    → IsJobDone m
    → fill_job_done p (send_job_done p m behind) ≡ (carried_job_done p m, behind)
unfolding fill_job_done send_job_done carried_job_done
fill_job_done-send_job_done p m behind
      (real, user, sys, pfaults, exitcode, flags, in_c, in_u, out_c, out_u, job_id, clients) =
    then_read _ _ (read_u32-put_u32 job_id) (
      then_read _ _ (read_u32-put_u32 {n = sent_exitcode p m} (ground (arith, exitcode))) (
        then_read _ _ (read_u32-put_u32 real) (
          then_read _ _ (read_u32-put_u32 user) (
            then_read _ _ (read_u32-put_u32 sys) (
              then_read _ _ (read_u32-put_u32 pfaults) (
                then_read _ _ (read_u32-put_u32 in_c) (
                  then_read _ _ (read_u32-put_u32 in_u) (
                    then_read _ _ (read_u32-put_u32 out_c) (
                      then_read _ _ (read_u32-put_u32 out_u) (
                        then_read _ _ (read_u32-put_u32 flags)
                          (then_since _ _ _ _ _ _ (read_u32-put_u32 clients) refl)))))))))))

-- On every version the receiver finds the client id of a job whose id is not known, and no client id
-- of another job, unless that one ends with the exit code 200 on an old channel.
pub unknown_client-fill_job_done :
    (p : ℕ) (m : JobDone) (behind : Bytes)
    → IsJobDone m
    → m.exitcode ≢ 200
    → unknown_client ((fill_job_done p (send_job_done p m behind)).0) ≡ unknown_client m
unfolding unknown_client carried_job_done
unknown_client-fill_job_done p m behind h k =
    ap (λ read. unknown_client read.0) (fill_job_done-send_job_done p m behind h) ∙ ground arith

-- A message for a job without an id gives the client's id until the job's own id is set.
pub unknown_client-set :
    (m : JobDone) (client_id job_id : ℕ)
    → (unknown_client (set_unknown_job_client_id client_id m) ≡ client_id)
      × (unknown_client (set_job_id job_id m) ≡ 0)
unfolding unknown_client set_unknown_job_client_id set_job_id
unknown_client-set m client_id job_id = (ground arith, ground arith)
