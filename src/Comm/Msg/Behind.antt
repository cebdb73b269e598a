-- ===== src/Comm/Msg/Behind.antt =====
-- What a message writes does not depend on what comes behind it.
use mathlib.Core.List.{append_assoc}
use icecream.Base.{◌∷◌, ℕ, ◌≡◌, refl, ap, ◌∙◌, Bool-cases, inl, inr, ◌++◌}
use icecream.Comm.{Bytes, is_protocol_version}
use icecream.Comm.Behind.{behind_laws}
use icecream.Comm.Requests.{
  GetCs, UseCs, NoCs, MonGetCs, send_get_cs, send_use_cs, send_no_cs, send_file, send_mon_request,
  send_mon_get_cs,
}
use icecream.Comm.Jobs.{
  JobBegin, JobLocalBegin, JobLocalDone, CompileResult, MonJobBegin, MonLocalJobBegin,
  send_job_begin, send_job_local_begin, send_job_local_done, send_compile_result,
  send_mon_job_begin, send_mon_local_job_begin,
}
use icecream.Comm.Hosts.{
  Login, Stats, GetNativeEnv, UseNativeEnv, EnvTransfer, MonStats, StatusText, VerifyEnv,
  VerifyEnvResult, BlacklistHostEnv, ConfCs, send_login, send_stats, send_get_native_env,
  send_use_native_env, send_env_transfer, send_mon_stats, send_status_text, send_verify_env,
  send_verify_env_result, send_blacklist_host_env, send_conf_cs,
}
use icecream.Comm.Done.{JobDone, send_job_done}
use icecream.Comm.CompileFile.{CompileJob, send_flags, send_compile_file}
use icecream.Comm.FileChunk.{Codec, FileChunk, writecompressed, send_file_chunk}
use icecream.Comm.Msg.{
  Msg, ping_msg, end_msg, get_native_env_msg, use_native_env_msg, get_cs_msg, use_cs_msg,
  compile_file_msg, file_chunk_msg, compile_result_msg, job_begin_msg, job_done_msg,
  job_local_begin_msg, job_local_done_msg, login_msg, stats_msg, mon_login_msg, mon_get_cs_msg,
  mon_job_begin_msg, mon_job_done_msg, mon_local_job_begin_msg, mon_stats_msg, env_transfer_msg,
  text_msg, status_text_msg, get_internals_msg, conf_cs_msg, verify_env_msg, verify_env_result_msg,
  blacklist_host_env_msg, no_cs_msg, lacks_newline, write_line, send_fields,
}

append-send_get_native_env :
    (p : ℕ) (m : GetNativeEnv) (a b : Bytes)
    → send_get_native_env p m a ++ b ≡ send_get_native_env p m (a ++ b)
unfolding send_get_native_env
append-send_get_native_env p m a b = simp behind_laws

append-send_use_native_env :
    (m : UseNativeEnv) (a b : Bytes) → send_use_native_env m a ++ b ≡ send_use_native_env m (a ++ b)
unfolding send_use_native_env
append-send_use_native_env m a b = simp behind_laws

append-send_get_cs :
    (p : ℕ) (m : GetCs) (a b : Bytes) → send_get_cs p m a ++ b ≡ send_get_cs p m (a ++ b)
unfolding send_get_cs
append-send_get_cs p m a b = simp behind_laws

append-send_use_cs :
    (p : ℕ) (m : UseCs) (a b : Bytes) → send_use_cs p m a ++ b ≡ send_use_cs p m (a ++ b)
unfolding send_use_cs
append-send_use_cs p m a b = simp behind_laws

append-send_compile_result :
    (p : ℕ) (m : CompileResult) (a b : Bytes)
    → send_compile_result p m a ++ b ≡ send_compile_result p m (a ++ b)
unfolding send_compile_result
append-send_compile_result p m a b = simp behind_laws

append-send_job_begin :
    (p : ℕ) (m : JobBegin) (a b : Bytes) → send_job_begin p m a ++ b ≡ send_job_begin p m (a ++ b)
unfolding send_job_begin
append-send_job_begin p m a b = simp behind_laws

append-send_job_done :
    (p : ℕ) (m : JobDone) (a b : Bytes) → send_job_done p m a ++ b ≡ send_job_done p m (a ++ b)
unfolding send_job_done
append-send_job_done p m a b = simp behind_laws

append-send_job_local_begin :
    (p : ℕ) (m : JobLocalBegin) (a b : Bytes)
    → send_job_local_begin p m a ++ b ≡ send_job_local_begin p m (a ++ b)
unfolding send_job_local_begin
append-send_job_local_begin p m a b = simp behind_laws

append-send_job_local_done :
    (m : JobLocalDone) (a b : Bytes) → send_job_local_done m a ++ b ≡ send_job_local_done m (a ++ b)
unfolding send_job_local_done
append-send_job_local_done m a b = simp behind_laws

append-send_login :
    (p : ℕ) (m : Login) (a b : Bytes) → send_login p m a ++ b ≡ send_login p m (a ++ b)
unfolding send_login
append-send_login p m a b = simp behind_laws

append-send_stats : (m : Stats) (a b : Bytes) → send_stats m a ++ b ≡ send_stats m (a ++ b)
unfolding send_stats
append-send_stats m a b = simp behind_laws

append-send_mon_job_begin :
    (m : MonJobBegin) (a b : Bytes) → send_mon_job_begin m a ++ b ≡ send_mon_job_begin m (a ++ b)
unfolding send_mon_job_begin
append-send_mon_job_begin m a b = simp behind_laws

append-send_mon_local_job_begin :
    (m : MonLocalJobBegin) (a b : Bytes)
    → send_mon_local_job_begin m a ++ b ≡ send_mon_local_job_begin m (a ++ b)
unfolding send_mon_local_job_begin
append-send_mon_local_job_begin m a b = simp behind_laws

append-send_mon_stats :
    (m : MonStats) (a b : Bytes) → send_mon_stats m a ++ b ≡ send_mon_stats m (a ++ b)
unfolding send_mon_stats
append-send_mon_stats m a b = simp behind_laws

append-send_env_transfer :
    (m : EnvTransfer) (a b : Bytes) → send_env_transfer m a ++ b ≡ send_env_transfer m (a ++ b)
unfolding send_env_transfer
append-send_env_transfer m a b = simp behind_laws

append-send_status_text :
    (m : StatusText) (a b : Bytes) → send_status_text m a ++ b ≡ send_status_text m (a ++ b)
unfolding send_status_text
append-send_status_text m a b = simp behind_laws

append-send_conf_cs : (m : ConfCs) (a b : Bytes) → send_conf_cs m a ++ b ≡ send_conf_cs m (a ++ b)
unfolding send_conf_cs
append-send_conf_cs m a b = simp behind_laws

append-send_verify_env :
    (m : VerifyEnv) (a b : Bytes) → send_verify_env m a ++ b ≡ send_verify_env m (a ++ b)
unfolding send_verify_env
append-send_verify_env m a b = simp behind_laws

append-send_verify_env_result :
    (m : VerifyEnvResult) (a b : Bytes)
    → send_verify_env_result m a ++ b ≡ send_verify_env_result m (a ++ b)
unfolding send_verify_env_result
append-send_verify_env_result m a b = simp behind_laws

append-send_blacklist_host_env :
    (m : BlacklistHostEnv) (a b : Bytes)
    → send_blacklist_host_env m a ++ b ≡ send_blacklist_host_env m (a ++ b)
unfolding send_blacklist_host_env
append-send_blacklist_host_env m a b = simp behind_laws

append-send_no_cs : (m : NoCs) (a b : Bytes) → send_no_cs m a ++ b ≡ send_no_cs m (a ++ b)
unfolding send_no_cs
append-send_no_cs m a b = simp behind_laws

append-send_mon_request :
    (p : ℕ) (m : GetCs) (a b : Bytes) → send_mon_request p m a ++ b ≡ send_mon_request p m (a ++ b)
unfolding send_mon_request send_file
append-send_mon_request p m a b = elim (Bool-cases (is_protocol_version 29 p)) [
  | inl new ↦ rw new (simp behind_laws)
  | inr older ↦ rw older (append-send_get_cs p m a b)
]

append-send_mon_get_cs :
    (p : ℕ) (m : MonGetCs) (a b : Bytes) → send_mon_get_cs p m a ++ b ≡ send_mon_get_cs p m (a ++ b)
unfolding send_mon_get_cs
append-send_mon_get_cs p m a b =
    append-send_mon_request p m.request _ b ∙ ap (send_mon_request p m.request) (simp behind_laws)

append-send_flags :
    (p : ℕ) (m : CompileJob) (a b : Bytes) → send_flags p m a ++ b ≡ send_flags p m (a ++ b)
unfolding send_flags
append-send_flags p m a b = elim (Bool-cases (is_protocol_version 41 p)) [
  | inl new ↦ rw new (simp behind_laws)
  | inr older ↦ rw older (simp behind_laws)
]

append-send_compile_file :
    (p : ℕ) (m : CompileJob) (a b : Bytes)
    → send_compile_file p m a ++ b ≡ send_compile_file p m (a ++ b)
unfolding send_compile_file
append-send_compile_file p m a b = simp (behind_laws, append-send_flags)

append-send_file_chunk :
    (codec : Codec) (p : ℕ) (m : FileChunk) (a b : Bytes)
    → send_file_chunk codec p m a ++ b ≡ send_file_chunk codec p m (a ++ b)
unfolding send_file_chunk writecompressed
append-send_file_chunk codec p m a b = simp behind_laws

append-write_line : (line a b : Bytes) → write_line line a ++ b ≡ write_line line (a ++ b)
unfolding write_line
append-write_line line a b = elim (Bool-cases (lacks_newline line)) [
  | inl bare ↦ rw bare (append_assoc line (b'\n' ∷ a) b)
  | inr ended ↦ rw ended (append_assoc line a b)
]

pub append-send_fields :
    (codec : Codec) (p : ℕ) (m : Msg) (a b : Bytes)
    → send_fields codec p m a ++ b ≡ send_fields codec p m (a ++ b)
unfolding send_fields
append-send_fields codec p ping_msg a b = refl
append-send_fields codec p end_msg a b = refl
append-send_fields codec p (get_native_env_msg m) a b = append-send_get_native_env p m a b
append-send_fields codec p (use_native_env_msg m) a b = append-send_use_native_env m a b
append-send_fields codec p (get_cs_msg m) a b = append-send_get_cs p m a b
append-send_fields codec p (use_cs_msg m) a b = append-send_use_cs p m a b
append-send_fields codec p (compile_file_msg m) a b = append-send_compile_file p m a b
append-send_fields codec p (file_chunk_msg m) a b = append-send_file_chunk codec p m a b
append-send_fields codec p (compile_result_msg m) a b = append-send_compile_result p m a b
append-send_fields codec p (job_begin_msg m) a b = append-send_job_begin p m a b
append-send_fields codec p (job_done_msg m) a b = append-send_job_done p m a b
append-send_fields codec p (job_local_begin_msg m) a b = append-send_job_local_begin p m a b
append-send_fields codec p (job_local_done_msg m) a b = append-send_job_local_done m a b
append-send_fields codec p (login_msg m) a b = append-send_login p m a b
append-send_fields codec p (stats_msg m) a b = append-send_stats m a b
append-send_fields codec p mon_login_msg a b = refl
append-send_fields codec p (mon_get_cs_msg m) a b = append-send_mon_get_cs p m a b
append-send_fields codec p (mon_job_begin_msg m) a b = append-send_mon_job_begin m a b
append-send_fields codec p (mon_job_done_msg m) a b = append-send_job_done p m a b
append-send_fields codec p (mon_local_job_begin_msg m) a b = append-send_mon_local_job_begin m a b
append-send_fields codec p (mon_stats_msg m) a b = append-send_mon_stats m a b
append-send_fields codec p (env_transfer_msg m) a b = append-send_env_transfer m a b
append-send_fields codec p (text_msg m) a b = append-write_line m a b
append-send_fields codec p (status_text_msg m) a b = append-send_status_text m a b
append-send_fields codec p get_internals_msg a b = refl
append-send_fields codec p (conf_cs_msg m) a b = append-send_conf_cs m a b
append-send_fields codec p (verify_env_msg m) a b = append-send_verify_env m a b
append-send_fields codec p (verify_env_result_msg m) a b = append-send_verify_env_result m a b
append-send_fields codec p (blacklist_host_env_msg m) a b = append-send_blacklist_host_env m a b
append-send_fields codec p (no_cs_msg m) a b = append-send_no_cs m a b
