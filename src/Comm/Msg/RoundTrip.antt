-- ===== src/Comm/Msg/RoundTrip.antt =====
-- Every message comes over the wire as it was sent, up to what an older protocol leaves out.
use icecream.Base.{ℕ, ◌≡◌, refl, ap, ◌≤◌, Bool, false, some, length, arith}
use icecream.Comm.{Bytes, IsWord}
use icecream.Comm.Requests.RoundTrip.{
  IsGetCs, carried_get_cs, fill_get_cs-send_get_cs, IsUseCs, carried_use_cs,
  fill_use_cs-send_use_cs, IsMonGetCs, carried_mon_get_cs, fill_mon_get_cs-send_mon_get_cs, IsNoCs,
  fill_no_cs-send_no_cs,
}
use icecream.Comm.Jobs.RoundTrip.{
  IsCompileResult, carried_compile_result, fill_compile_result-send_compile_result, IsJobBegin,
  carried_job_begin, fill_job_begin-send_job_begin, IsJobLocalBegin, carried_job_local_begin,
  fill_job_local_begin-send_job_local_begin, IsJobLocalDone,
  fill_job_local_done-send_job_local_done, IsMonJobBegin, fill_mon_job_begin-send_mon_job_begin,
  IsMonLocalJobBegin, carried_mon_local_job_begin,
  fill_mon_local_job_begin-send_mon_local_job_begin,
}
use icecream.Comm.Hosts.RoundTrip.{
  IsGetNativeEnv, carried_get_native_env, fill_get_native_env-send_get_native_env, IsUseNativeEnv,
  fill_use_native_env-send_use_native_env, IsLogin, carried_login, fill_login-send_login, IsStats,
  fill_stats-send_stats, IsMonStats, fill_mon_stats-send_mon_stats, IsEnvTransfer,
  fill_env_transfer-send_env_transfer, IsStatusText, fill_status_text-send_status_text, IsConfCs,
  fill_conf_cs-send_conf_cs, IsVerifyEnv, fill_verify_env-send_verify_env,
  fill_verify_env_result-send_verify_env_result, IsBlacklistHostEnv,
  fill_blacklist_host_env-send_blacklist_host_env,
}
use icecream.Comm.Done.RoundTrip.{IsJobDone, carried_job_done, fill_job_done-send_job_done}
use icecream.Comm.CompileFile.RoundTrip.{
  IsCompileJob, carried_job, fill_compile_file-send_compile_file,
}
use icecream.Comm.FileChunk.RoundTrip.{IsCodec, fill_file_chunk-writecompressed}
use icecream.Comm.FileChunk.{Codec, FileChunk, max_msg_size, compress, contents, send_file_chunk}
use icecream.Comm.Msg.{
  MsgType, m_unknown, m_ping, m_end, m_timeout, m_get_native_env, m_native_env, m_get_cs, m_use_cs,
  m_compile_file, m_file_chunk, m_compile_result, m_job_begin, m_job_done, m_job_local_begin,
  m_job_local_done, m_login, m_stats, m_mon_login, m_mon_get_cs, m_mon_job_begin, m_mon_job_done,
  m_mon_local_job_begin, m_mon_stats, m_tranfer_env, m_text, m_status_text, m_get_internals,
  m_cs_conf, m_verify_env, m_verify_env_result, m_blacklist_host_env, m_no_cs, number, msg_type,
  Msg, ping_msg, end_msg, get_native_env_msg, use_native_env_msg, get_cs_msg, use_cs_msg,
  compile_file_msg, file_chunk_msg, compile_result_msg, job_begin_msg, job_done_msg,
  job_local_begin_msg, job_local_done_msg, login_msg, stats_msg, mon_login_msg, mon_get_cs_msg,
  mon_job_begin_msg, mon_job_done_msg, mon_local_job_begin_msg, mon_stats_msg, env_transfer_msg,
  text_msg, status_text_msg, get_internals_msg, conf_cs_msg, verify_env_msg, verify_env_result_msg,
  blacklist_host_env_msg, no_cs_msg, Reading, fill_chunk, new_msg, type_of, send_fields,
}

-- A chunk within the limit of the size.
abbrev pub IsFileChunk : FileChunk → Type 0
IsFileChunk m = length (contents m) ≤ max_msg_size

abbrev pub carried_file_chunk : Codec → ℕ → FileChunk → FileChunk
carried_file_chunk codec p m = record {
  buffer = some (contents m);
  len = length (contents m);
  compressed = length (compress codec p (contents m));
}

-- The wire can carry the message's numbers, texts and lists. A text message is for channels of texts.
abbrev pub IsMsg : Msg → Type 0
IsMsg ping_msg = Unit
IsMsg end_msg = Unit
IsMsg (get_native_env_msg m) = IsGetNativeEnv m
IsMsg (use_native_env_msg m) = IsUseNativeEnv m
IsMsg (get_cs_msg m) = IsGetCs m
IsMsg (use_cs_msg m) = IsUseCs m
IsMsg (compile_file_msg m) = IsCompileJob m
IsMsg (file_chunk_msg m) = IsFileChunk m
IsMsg (compile_result_msg m) = IsCompileResult m
IsMsg (job_begin_msg m) = IsJobBegin m
IsMsg (job_done_msg m) = IsJobDone m
IsMsg (job_local_begin_msg m) = IsJobLocalBegin m
IsMsg (job_local_done_msg m) = IsJobLocalDone m
IsMsg (login_msg m) = IsLogin m
IsMsg (stats_msg m) = IsStats m
IsMsg mon_login_msg = Unit
IsMsg (mon_get_cs_msg m) = IsMonGetCs m
IsMsg (mon_job_begin_msg m) = IsMonJobBegin m
IsMsg (mon_job_done_msg m) = IsJobDone m
IsMsg (mon_local_job_begin_msg m) = IsMonLocalJobBegin m
IsMsg (mon_stats_msg m) = IsMonStats m
IsMsg (env_transfer_msg m) = IsEnvTransfer m
IsMsg (text_msg line) = ⊥
IsMsg (status_text_msg m) = IsStatusText m
IsMsg get_internals_msg = Unit
IsMsg (conf_cs_msg m) = IsConfCs m
IsMsg (verify_env_msg m) = IsVerifyEnv m
IsMsg (verify_env_result_msg m) = Unit
IsMsg (blacklist_host_env_msg m) = IsBlacklistHostEnv m
IsMsg (no_cs_msg m) = IsNoCs m

-- What a channel of the given version carries of a message.
unfoldable pub carried : Codec → ℕ → Msg → Msg
carried codec p ping_msg = ping_msg
carried codec p end_msg = end_msg
carried codec p (get_native_env_msg m) = get_native_env_msg (carried_get_native_env p m)
carried codec p (use_native_env_msg m) = use_native_env_msg m
carried codec p (get_cs_msg m) = get_cs_msg (carried_get_cs p m)
carried codec p (use_cs_msg m) = use_cs_msg (carried_use_cs p m)
carried codec p (compile_file_msg m) = compile_file_msg (carried_job p m)
carried codec p (file_chunk_msg m) = file_chunk_msg (carried_file_chunk codec p m)
carried codec p (compile_result_msg m) = compile_result_msg (carried_compile_result p m)
carried codec p (job_begin_msg m) = job_begin_msg (carried_job_begin p m)
carried codec p (job_done_msg m) = job_done_msg (carried_job_done p m)
carried codec p (job_local_begin_msg m) = job_local_begin_msg (carried_job_local_begin p m)
carried codec p (job_local_done_msg m) = job_local_done_msg m
carried codec p (login_msg m) = login_msg (carried_login p m)
carried codec p (stats_msg m) = stats_msg m
carried codec p mon_login_msg = mon_login_msg
carried codec p (mon_get_cs_msg m) = mon_get_cs_msg (carried_mon_get_cs p m)
carried codec p (mon_job_begin_msg m) = mon_job_begin_msg m
carried codec p (mon_job_done_msg m) = mon_job_done_msg (carried_job_done p m)
carried codec p (mon_local_job_begin_msg m) =
    mon_local_job_begin_msg (carried_mon_local_job_begin m)
carried codec p (mon_stats_msg m) = mon_stats_msg m
carried codec p (env_transfer_msg m) = env_transfer_msg m
carried codec p (text_msg line) = text_msg line
carried codec p (status_text_msg m) = status_text_msg m
carried codec p get_internals_msg = get_internals_msg
carried codec p (conf_cs_msg m) = conf_cs_msg m
carried codec p (verify_env_msg m) = verify_env_msg m
carried codec p (verify_env_result_msg m) = verify_env_result_msg m
carried codec p (blacklist_host_env_msg m) = blacklist_host_env_msg m
carried codec p (no_cs_msg m) = no_cs_msg m

reading-step {ℓ} :
    {A : Type ℓ} {x : A × Bytes} {a : A} {rest : Bytes} (msg : A → Msg)
    → x ≡ (a, rest)
    → ◌≡◌ {A = (Msg × Bool) × Bytes} ((msg x.0, false), x.1) ((msg a, false), rest)
reading-step msg e = ap (λ y. ((msg y.0, false), y.1)) e

fill_chunk-send_file_chunk :
    (codec : Codec) (p : ℕ) (m : FileChunk) (behind : Bytes)
    → IsCodec codec
    → IsFileChunk m
    → fill_chunk codec p (send_file_chunk codec p m behind)
      ≡ ((file_chunk_msg (carried_file_chunk codec p m), false), behind)
unfolding fill_chunk send_file_chunk
fill_chunk-send_file_chunk codec p m behind laws h =
    let read = fill_file_chunk-writecompressed codec p (contents m) behind laws h in
    ap (λ y. ((file_chunk_msg y.0.0, y.0.1), y.1)) read

pub read-send_fields :
    (codec : Codec) (p : ℕ) (m : Msg) (behind : Bytes)
    → IsCodec codec
    → IsMsg m
    → (r : Reading) × (new_msg codec p (type_of m) ≡ some r)
      × (r (send_fields codec p m behind) ≡ ((carried codec p m, false), behind))
unfolding new_msg send_fields carried
read-send_fields codec p ping_msg behind laws h = (_, refl, refl)
read-send_fields codec p end_msg behind laws h = (_, refl, refl)
read-send_fields codec p (get_native_env_msg m) behind laws h = (
  _,
  refl,
  reading-step get_native_env_msg (fill_get_native_env-send_get_native_env p m behind h),
)
read-send_fields codec p (use_native_env_msg m) behind laws h =
    (_, refl, reading-step use_native_env_msg (fill_use_native_env-send_use_native_env m behind h))
read-send_fields codec p (get_cs_msg m) behind laws h =
    (_, refl, reading-step get_cs_msg (fill_get_cs-send_get_cs p m behind h))
read-send_fields codec p (use_cs_msg m) behind laws h =
    (_, refl, reading-step use_cs_msg (fill_use_cs-send_use_cs p m behind h))
read-send_fields codec p (compile_file_msg m) behind laws h =
    (_, refl, reading-step compile_file_msg (fill_compile_file-send_compile_file p m behind h))
read-send_fields codec p (file_chunk_msg m) behind laws h =
    (_, refl, fill_chunk-send_file_chunk codec p m behind laws h)
read-send_fields codec p (compile_result_msg m) behind laws h = (
  _,
  refl,
  reading-step compile_result_msg (fill_compile_result-send_compile_result p m behind h),
)
read-send_fields codec p (job_begin_msg m) behind laws h =
    (_, refl, reading-step job_begin_msg (fill_job_begin-send_job_begin p m behind h))
read-send_fields codec p (job_done_msg m) behind laws h =
    (_, refl, reading-step job_done_msg (fill_job_done-send_job_done p m behind h))
read-send_fields codec p (job_local_begin_msg m) behind laws h = (
  _,
  refl,
  reading-step job_local_begin_msg (fill_job_local_begin-send_job_local_begin p m behind h),
)
read-send_fields codec p (job_local_done_msg m) behind laws h =
    (_, refl, reading-step job_local_done_msg (fill_job_local_done-send_job_local_done m behind h))
read-send_fields codec p (login_msg m) behind laws h =
    (_, refl, reading-step login_msg (fill_login-send_login p m behind h))
read-send_fields codec p (stats_msg m) behind laws h =
    (_, refl, reading-step stats_msg (fill_stats-send_stats m behind h))
read-send_fields codec p mon_login_msg behind laws h = (_, refl, refl)
read-send_fields codec p (mon_get_cs_msg m) behind laws h =
    (_, refl, reading-step mon_get_cs_msg (fill_mon_get_cs-send_mon_get_cs p m behind h))
read-send_fields codec p (mon_job_begin_msg m) behind laws h =
    (_, refl, reading-step mon_job_begin_msg (fill_mon_job_begin-send_mon_job_begin m behind h))
read-send_fields codec p (mon_job_done_msg m) behind laws h =
    (_, refl, reading-step mon_job_done_msg (fill_job_done-send_job_done p m behind h))
read-send_fields codec p (mon_local_job_begin_msg m) behind laws h = (
  _,
  refl,
  reading-step mon_local_job_begin_msg
      (fill_mon_local_job_begin-send_mon_local_job_begin m behind h),
)
read-send_fields codec p (mon_stats_msg m) behind laws h =
    (_, refl, reading-step mon_stats_msg (fill_mon_stats-send_mon_stats m behind h))
read-send_fields codec p (env_transfer_msg m) behind laws h =
    (_, refl, reading-step env_transfer_msg (fill_env_transfer-send_env_transfer m behind h))
read-send_fields codec p (text_msg line) behind laws h = absurd h
read-send_fields codec p (status_text_msg m) behind laws h =
    (_, refl, reading-step status_text_msg (fill_status_text-send_status_text m behind h))
read-send_fields codec p get_internals_msg behind laws h = (_, refl, refl)
read-send_fields codec p (conf_cs_msg m) behind laws h =
    (_, refl, reading-step conf_cs_msg (fill_conf_cs-send_conf_cs m behind h))
read-send_fields codec p (verify_env_msg m) behind laws h =
    (_, refl, reading-step verify_env_msg (fill_verify_env-send_verify_env m behind h))
read-send_fields codec p (verify_env_result_msg m) behind laws h = (
  _,
  refl,
  reading-step verify_env_result_msg (fill_verify_env_result-send_verify_env_result m behind),
)
read-send_fields codec p (blacklist_host_env_msg m) behind laws h = (
  _,
  refl,
  reading-step blacklist_host_env_msg (fill_blacklist_host_env-send_blacklist_host_env m behind h),
)
read-send_fields codec p (no_cs_msg m) behind laws h =
    (_, refl, reading-step no_cs_msg (fill_no_cs-send_no_cs m behind h))

pub msg_type-number : (type : MsgType) → msg_type (number type) ≡ some type
unfolding msg_type
msg_type-number m_unknown = refl
msg_type-number m_ping = refl
msg_type-number m_end = refl
msg_type-number m_timeout = refl
msg_type-number m_get_native_env = refl
msg_type-number m_native_env = refl
msg_type-number m_get_cs = refl
msg_type-number m_use_cs = refl
msg_type-number m_compile_file = refl
msg_type-number m_file_chunk = refl
msg_type-number m_compile_result = refl
msg_type-number m_job_begin = refl
msg_type-number m_job_done = refl
msg_type-number m_job_local_begin = refl
msg_type-number m_job_local_done = refl
msg_type-number m_login = refl
msg_type-number m_stats = refl
msg_type-number m_mon_login = refl
msg_type-number m_mon_get_cs = refl
msg_type-number m_mon_job_begin = refl
msg_type-number m_mon_job_done = refl
msg_type-number m_mon_local_job_begin = refl
msg_type-number m_mon_stats = refl
msg_type-number m_tranfer_env = refl
msg_type-number m_text = refl
msg_type-number m_status_text = refl
msg_type-number m_get_internals = refl
msg_type-number m_cs_conf = refl
msg_type-number m_verify_env = refl
msg_type-number m_verify_env_result = refl
msg_type-number m_blacklist_host_env = refl
msg_type-number m_no_cs = refl

pub number-IsWord : (type : MsgType) → IsWord (number type)
number-IsWord m_unknown = omega arith
number-IsWord m_ping = omega arith
number-IsWord m_end = omega arith
number-IsWord m_timeout = omega arith
number-IsWord m_get_native_env = omega arith
number-IsWord m_native_env = omega arith
number-IsWord m_get_cs = omega arith
number-IsWord m_use_cs = omega arith
number-IsWord m_compile_file = omega arith
number-IsWord m_file_chunk = omega arith
number-IsWord m_compile_result = omega arith
number-IsWord m_job_begin = omega arith
number-IsWord m_job_done = omega arith
number-IsWord m_job_local_begin = omega arith
number-IsWord m_job_local_done = omega arith
number-IsWord m_login = omega arith
number-IsWord m_stats = omega arith
number-IsWord m_mon_login = omega arith
number-IsWord m_mon_get_cs = omega arith
number-IsWord m_mon_job_begin = omega arith
number-IsWord m_mon_job_done = omega arith
number-IsWord m_mon_local_job_begin = omega arith
number-IsWord m_mon_stats = omega arith
number-IsWord m_tranfer_env = omega arith
number-IsWord m_text = omega arith
number-IsWord m_status_text = omega arith
number-IsWord m_get_internals = omega arith
number-IsWord m_cs_conf = omega arith
number-IsWord m_verify_env = omega arith
number-IsWord m_verify_env_result = omega arith
number-IsWord m_blacklist_host_env = omega arith
number-IsWord m_no_cs = omega arith
