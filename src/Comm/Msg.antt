-- ===== src/Comm/Msg.antt =====
-- services/comm.h and services/comm.cpp: the types of messages, and how get_msg and send_msg find the
-- reader and the writer of each.
pub mod RoundTrip
pub mod Behind
use icecream.Base.{
  ℕ, Bool, true, false, Option, none, some, List, [], ◌∷◌, ◌++◌, find_if, ◌==◌, ltb, leb, ◌||◌,
  if◌then◌else◌,
}
use icecream.Comm.{Bytes, Writer, Reader, put_u32}
use icecream.Comm.Requests.{
  GetCs, UseCs, NoCs, MonGetCs, fill_get_cs, send_get_cs, fill_use_cs, send_use_cs, fill_no_cs,
  send_no_cs, fill_mon_get_cs, send_mon_get_cs,
}
use icecream.Comm.Jobs.{
  JobBegin, fill_job_begin, send_job_begin, JobLocalBegin, fill_job_local_begin,
  send_job_local_begin, JobLocalDone, fill_job_local_done, send_job_local_done, CompileResult,
  fill_compile_result, send_compile_result, MonJobBegin, fill_mon_job_begin, send_mon_job_begin,
  MonLocalJobBegin, fill_mon_local_job_begin, send_mon_local_job_begin,
}
use icecream.Comm.Hosts.{
  Login, fill_login, send_login, Stats, fill_stats, send_stats, GetNativeEnv, fill_get_native_env,
  send_get_native_env, UseNativeEnv, fill_use_native_env, send_use_native_env, EnvTransfer,
  fill_env_transfer, send_env_transfer, MonStats, fill_mon_stats, send_mon_stats, StatusText,
  fill_status_text, send_status_text, VerifyEnv, fill_verify_env, send_verify_env, VerifyEnvResult,
  fill_verify_env_result, send_verify_env_result, BlacklistHostEnv, fill_blacklist_host_env,
  send_blacklist_host_env, ConfCs, fill_conf_cs, send_conf_cs,
}
use icecream.Comm.Done.{JobDone, fill_job_done, send_job_done}
use icecream.Comm.CompileFile.{CompileJob, fill_compile_file, send_compile_file}
use icecream.Comm.FileChunk.{Codec, FileChunk, fill_file_chunk, send_file_chunk}

pub data MsgType : Type 0 where
  m_unknown m_ping m_end m_timeout : MsgType
  m_get_native_env m_native_env m_get_cs m_use_cs : MsgType
  m_compile_file m_file_chunk m_compile_result m_job_begin : MsgType
  m_job_done m_job_local_begin m_job_local_done m_login : MsgType
  m_stats m_mon_login m_mon_get_cs m_mon_job_begin : MsgType
  m_mon_job_done m_mon_local_job_begin m_mon_stats m_tranfer_env : MsgType
  m_text m_status_text m_get_internals m_cs_conf : MsgType
  m_verify_env m_verify_env_result m_blacklist_host_env m_no_cs : MsgType

abbrev pub number : MsgType → ℕ
number m_unknown = b'A'
number m_ping = 66
number m_end = 67
number m_timeout = 68
number m_get_native_env = 69
number m_native_env = 70
number m_get_cs = 71
number m_use_cs = 72
number m_compile_file = 73
number m_file_chunk = 74
number m_compile_result = 75
number m_job_begin = 76
number m_job_done = 77
number m_job_local_begin = 78
number m_job_local_done = 79
number m_login = 80
number m_stats = 81
number m_mon_login = 82
number m_mon_get_cs = 83
number m_mon_job_begin = 84
number m_mon_job_done = 85
number m_mon_local_job_begin = 86
number m_mon_stats = 87
number m_tranfer_env = 88
number m_text = 89
number m_status_text = 90
number m_get_internals = 91
number m_cs_conf = 92
number m_verify_env = 93
number m_verify_env_result = 94
number m_blacklist_host_env = 95
number m_no_cs = 96

abbrev all_types : List MsgType
all_types =
    m_unknown ∷ m_ping ∷ m_end ∷ m_timeout ∷ m_get_native_env ∷ m_native_env ∷ m_get_cs ∷ m_use_cs
    ∷ m_compile_file ∷ m_file_chunk ∷ m_compile_result ∷ m_job_begin ∷ m_job_done
    ∷ m_job_local_begin ∷ m_job_local_done ∷ m_login ∷ m_stats ∷ m_mon_login ∷ m_mon_get_cs
    ∷ m_mon_job_begin ∷ m_mon_job_done ∷ m_mon_local_job_begin ∷ m_mon_stats ∷ m_tranfer_env
    ∷ m_text ∷ m_status_text ∷ m_get_internals ∷ m_cs_conf ∷ m_verify_env ∷ m_verify_env_result
    ∷ m_blacklist_host_env ∷ m_no_cs ∷ []

-- `(enum MsgType) t`, none if no message has the number.
unfoldable pub msg_type : ℕ → Option MsgType
msg_type t = find_if (λ type. number type == t) all_types

-- The subclasses of Msg.
pub data Msg : Type 0 where
  ping_msg : Msg
  end_msg : Msg
  get_native_env_msg : GetNativeEnv → Msg
  use_native_env_msg : UseNativeEnv → Msg
  get_cs_msg : GetCs → Msg
  use_cs_msg : UseCs → Msg
  compile_file_msg : CompileJob → Msg
  file_chunk_msg : FileChunk → Msg
  compile_result_msg : CompileResult → Msg
  job_begin_msg : JobBegin → Msg
  job_done_msg : JobDone → Msg
  job_local_begin_msg : JobLocalBegin → Msg
  job_local_done_msg : JobLocalDone → Msg
  login_msg : Login → Msg
  stats_msg : Stats → Msg
  mon_login_msg : Msg
  mon_get_cs_msg : MonGetCs → Msg
  mon_job_begin_msg : MonJobBegin → Msg
  mon_job_done_msg : JobDone → Msg
  mon_local_job_begin_msg : MonLocalJobBegin → Msg
  mon_stats_msg : MonStats → Msg
  env_transfer_msg : EnvTransfer → Msg
  text_msg : Bytes → Msg
  status_text_msg : StatusText → Msg
  get_internals_msg : Msg
  conf_cs_msg : ConfCs → Msg
  verify_env_msg : VerifyEnv → Msg
  verify_env_result_msg : VerifyEnvResult → Msg
  blacklist_host_env_msg : BlacklistHostEnv → Msg
  no_cs_msg : NoCs → Msg

-- A message read, and whether set_error was called on the way.
abbrev pub Reading : Type 0
Reading = Reader (Msg × Bool)

abbrev pub reading {ℓ} : {A : Type ℓ} → (A → Msg) → Reader A → Reading
reading msg r input = let (a, rest) = r input in ((msg a, false), rest)

abbrev pub bare : Msg → Reading
bare m input = ((m, false), input)

unfoldable pub fill_chunk : Codec → ℕ → Reading
fill_chunk codec protocol input =
    let ((chunk, failed), rest) = fill_file_chunk codec protocol input in
    ((file_chunk_msg chunk, failed), rest)

-- The switch of get_msg: the fill_from_channel of the new message. A text is a whole line on a
-- channel for texts, and empty on others.
unfoldable pub new_msg : Codec → ℕ → MsgType → Option Reading
new_msg codec protocol m_unknown = none
new_msg codec protocol m_ping = some (bare ping_msg)
new_msg codec protocol m_end = some (bare end_msg)
new_msg codec protocol m_timeout = none
new_msg codec protocol m_get_native_env =
    some (reading get_native_env_msg (fill_get_native_env protocol))
new_msg codec protocol m_native_env = some (reading use_native_env_msg fill_use_native_env)
new_msg codec protocol m_get_cs = some (reading get_cs_msg (fill_get_cs protocol))
new_msg codec protocol m_use_cs = some (reading use_cs_msg (fill_use_cs protocol))
new_msg codec protocol m_compile_file = some (reading compile_file_msg (fill_compile_file protocol))
new_msg codec protocol m_file_chunk = some (fill_chunk codec protocol)
new_msg codec protocol m_compile_result =
    some (reading compile_result_msg (fill_compile_result protocol))
new_msg codec protocol m_job_begin = some (reading job_begin_msg (fill_job_begin protocol))
new_msg codec protocol m_job_done = some (reading job_done_msg (fill_job_done protocol))
new_msg codec protocol m_job_local_begin =
    some (reading job_local_begin_msg (fill_job_local_begin protocol))
new_msg codec protocol m_job_local_done = some (reading job_local_done_msg fill_job_local_done)
new_msg codec protocol m_login = some (reading login_msg (fill_login protocol))
new_msg codec protocol m_stats = some (reading stats_msg fill_stats)
new_msg codec protocol m_mon_login = some (bare mon_login_msg)
new_msg codec protocol m_mon_get_cs = some (reading mon_get_cs_msg (fill_mon_get_cs protocol))
new_msg codec protocol m_mon_job_begin = some (reading mon_job_begin_msg fill_mon_job_begin)
new_msg codec protocol m_mon_job_done = some (reading mon_job_done_msg (fill_job_done protocol))
new_msg codec protocol m_mon_local_job_begin =
    some (reading mon_local_job_begin_msg fill_mon_local_job_begin)
new_msg codec protocol m_mon_stats = some (reading mon_stats_msg fill_mon_stats)
new_msg codec protocol m_tranfer_env = some (reading env_transfer_msg fill_env_transfer)
new_msg codec protocol m_text = some (bare (text_msg []))
new_msg codec protocol m_status_text = some (reading status_text_msg fill_status_text)
new_msg codec protocol m_get_internals = some (bare get_internals_msg)
new_msg codec protocol m_cs_conf = some (reading conf_cs_msg fill_conf_cs)
new_msg codec protocol m_verify_env = some (reading verify_env_msg fill_verify_env)
new_msg codec protocol m_verify_env_result =
    some (reading verify_env_result_msg fill_verify_env_result)
new_msg codec protocol m_blacklist_host_env =
    some (reading blacklist_host_env_msg fill_blacklist_host_env)
new_msg codec protocol m_no_cs = some (reading no_cs_msg fill_no_cs)

-- The bytes at which a line ends: `c < ' '` for a `char`, which is signed.
abbrev pub ends_line : ℕ → Bool
ends_line c = ltb c b' ' || leb 128 c

-- `line[len - 1] != '\n'`
abbrev pub lacks_newline : Bytes → Bool
lacks_newline [] = true
lacks_newline (c ∷ []) = if c == b'\n' then false else true
lacks_newline (c ∷ d ∷ line) = lacks_newline (d ∷ line)

-- write_line. What stands before the start of an empty text is taken to be no newline.
unfoldable pub write_line : Bytes → Writer
write_line line behind = line ++ (if lacks_newline line then b'\n' ∷ behind else behind)

-- `type`
abbrev pub type_of : Msg → MsgType
type_of ping_msg = m_ping
type_of end_msg = m_end
type_of (get_native_env_msg m) = m_get_native_env
type_of (use_native_env_msg m) = m_native_env
type_of (get_cs_msg m) = m_get_cs
type_of (use_cs_msg m) = m_use_cs
type_of (compile_file_msg m) = m_compile_file
type_of (file_chunk_msg m) = m_file_chunk
type_of (compile_result_msg m) = m_compile_result
type_of (job_begin_msg m) = m_job_begin
type_of (job_done_msg m) = m_job_done
type_of (job_local_begin_msg m) = m_job_local_begin
type_of (job_local_done_msg m) = m_job_local_done
type_of (login_msg m) = m_login
type_of (stats_msg m) = m_stats
type_of mon_login_msg = m_mon_login
type_of (mon_get_cs_msg m) = m_mon_get_cs
type_of (mon_job_begin_msg m) = m_mon_job_begin
type_of (mon_job_done_msg m) = m_mon_job_done
type_of (mon_local_job_begin_msg m) = m_mon_local_job_begin
type_of (mon_stats_msg m) = m_mon_stats
type_of (env_transfer_msg m) = m_tranfer_env
type_of (text_msg m) = m_text
type_of (status_text_msg m) = m_status_text
type_of get_internals_msg = m_get_internals
type_of (conf_cs_msg m) = m_cs_conf
type_of (verify_env_msg m) = m_verify_env
type_of (verify_env_result_msg m) = m_verify_env_result
type_of (blacklist_host_env_msg m) = m_blacklist_host_env
type_of (no_cs_msg m) = m_no_cs

-- What send_to_channel writes behind the type, on a channel that is not for texts.
unfoldable pub send_fields : Codec → ℕ → Msg → Writer
send_fields codec protocol ping_msg behind = behind
send_fields codec protocol end_msg behind = behind
send_fields codec protocol (get_native_env_msg m) behind = send_get_native_env protocol m behind
send_fields codec protocol (use_native_env_msg m) behind = send_use_native_env m behind
send_fields codec protocol (get_cs_msg m) behind = send_get_cs protocol m behind
send_fields codec protocol (use_cs_msg m) behind = send_use_cs protocol m behind
send_fields codec protocol (compile_file_msg m) behind = send_compile_file protocol m behind
send_fields codec protocol (file_chunk_msg m) behind = send_file_chunk codec protocol m behind
send_fields codec protocol (compile_result_msg m) behind = send_compile_result protocol m behind
send_fields codec protocol (job_begin_msg m) behind = send_job_begin protocol m behind
send_fields codec protocol (job_done_msg m) behind = send_job_done protocol m behind
send_fields codec protocol (job_local_begin_msg m) behind = send_job_local_begin protocol m behind
send_fields codec protocol (job_local_done_msg m) behind = send_job_local_done m behind
send_fields codec protocol (login_msg m) behind = send_login protocol m behind
send_fields codec protocol (stats_msg m) behind = send_stats m behind
send_fields codec protocol mon_login_msg behind = behind
send_fields codec protocol (mon_get_cs_msg m) behind = send_mon_get_cs protocol m behind
send_fields codec protocol (mon_job_begin_msg m) behind = send_mon_job_begin m behind
send_fields codec protocol (mon_job_done_msg m) behind = send_job_done protocol m behind
send_fields codec protocol (mon_local_job_begin_msg m) behind = send_mon_local_job_begin m behind
send_fields codec protocol (mon_stats_msg m) behind = send_mon_stats m behind
send_fields codec protocol (env_transfer_msg m) behind = send_env_transfer m behind
send_fields codec protocol (text_msg m) behind = write_line m behind
send_fields codec protocol (status_text_msg m) behind = send_status_text m behind
send_fields codec protocol get_internals_msg behind = behind
send_fields codec protocol (conf_cs_msg m) behind = send_conf_cs m behind
send_fields codec protocol (verify_env_msg m) behind = send_verify_env m behind
send_fields codec protocol (verify_env_result_msg m) behind = send_verify_env_result m behind
send_fields codec protocol (blacklist_host_env_msg m) behind = send_blacklist_host_env m behind
send_fields codec protocol (no_cs_msg m) behind = send_no_cs m behind

-- send_to_channel: a text has no type in front.
unfoldable pub send_to_channel : Codec → ℕ → Msg → Writer
send_to_channel codec protocol (text_msg line) behind = write_line line behind
send_to_channel codec protocol m behind =
    put_u32 (number (type_of m)) (send_fields codec protocol m behind)
