-- ===== src/Comm/Hosts/RoundTrip.antt =====
-- The messages about hosts come over the wire as they were sent, up to what an older protocol
-- leaves out.
use icecream.Base.{ℕ, ◌≡◌, refl, false, [], if◌then◌else◌, arith}
use icecream.Comm.{Bytes, IsWord, IsText, IsTexts, IsEnvironments, is_protocol_version}
use icecream.Comm.RoundTrip.{
  then_read, then_since, read_u32-put_u32, read_string-put_string, read_list-put_list,
  read_bool-put_bool, read_environments-write_environments,
}
use icecream.Comm.Hosts.{
  ConfCs, fill_conf_cs, send_conf_cs, Login, fill_login, send_login, Stats, fill_stats, send_stats,
  GetNativeEnv, fill_get_native_env, send_get_native_env, UseNativeEnv, fill_use_native_env,
  send_use_native_env, EnvTransfer, fill_env_transfer, send_env_transfer, MonStats, fill_mon_stats,
  send_mon_stats, StatusText, fill_status_text, send_status_text, VerifyEnv, fill_verify_env,
  send_verify_env, VerifyEnvResult, fill_verify_env_result, send_verify_env_result,
  BlacklistHostEnv, fill_blacklist_host_env, send_blacklist_host_env,
}

abbrev pub IsLogin : Login → Type 0
IsLogin m =
    IsWord m.port
    × IsWord m.max_kids
    × IsEnvironments m.envs
    × IsText m.nodename
    × IsText m.host_platform
    × IsWord m.supported_features

-- What a channel of the given version carries.
abbrev pub carried_login : ℕ → Login → Login
carried_login p m = record m {
  noremote = if is_protocol_version 26 p then m.noremote else false;
  supported_features = if is_protocol_version 42 p then m.supported_features else 0;
}

pub fill_login-send_login :
    (p : ℕ) (m : Login) (behind : Bytes)
    → IsLogin m
    → fill_login p (send_login p m behind) ≡ (carried_login p m, behind)
unfolding fill_login send_login
fill_login-send_login p m behind h = then_read _ _ (read_u32-put_u32 h.0) (
    then_read _ _ (read_u32-put_u32 h.1) (
      then_read _ _ (read_environments-write_environments h.2) (
        then_read _ _ (read_string-put_string h.3) (
          then_read _ _ (read_string-put_string h.4) (
            then_read _ _ (read_bool-put_bool) (
              then_since _ _ _ _ _ _ (read_bool-put_bool)
                (then_since _ _ _ _ _ _ (read_u32-put_u32 h.5) refl)))))))

abbrev pub IsStats : Stats → Type 0
IsStats m =
    IsWord m.load
    × IsWord m.load_avg1
    × IsWord m.load_avg5
    × IsWord m.load_avg10
    × IsWord m.free_mem

pub fill_stats-send_stats :
    (m : Stats) (behind : Bytes) → IsStats m → fill_stats (send_stats m behind) ≡ (m, behind)
unfolding fill_stats send_stats
fill_stats-send_stats m behind h = then_read _ _ (read_u32-put_u32 h.0) (
    then_read _ _ (read_u32-put_u32 h.1) (
      then_read _ _ (read_u32-put_u32 h.2)
        (then_read _ _ (read_u32-put_u32 h.3) (then_read _ _ (read_u32-put_u32 h.4) refl))))

abbrev pub IsGetNativeEnv : GetNativeEnv → Type 0
IsGetNativeEnv m = IsText m.compiler × IsTexts m.extrafiles × IsText m.compression

-- What a channel of the given version carries.
abbrev pub carried_get_native_env : ℕ → GetNativeEnv → GetNativeEnv
carried_get_native_env p m = record m {
  compiler = if is_protocol_version 32 p then m.compiler else [];
  extrafiles = if is_protocol_version 32 p then m.extrafiles else [];
  compression = if is_protocol_version 42 p then m.compression else [];
}

pub fill_get_native_env-send_get_native_env :
    (p : ℕ) (m : GetNativeEnv) (behind : Bytes)
    → IsGetNativeEnv m
    → fill_get_native_env p (send_get_native_env p m behind) ≡ (carried_get_native_env p m, behind)
unfolding fill_get_native_env send_get_native_env
fill_get_native_env-send_get_native_env p m behind h =
    then_since _ _ _ _ _ _ (read_string-put_string h.0) (
      then_since _ _ _ _ _ _ (read_list-put_list h.1)
        (then_since _ _ _ _ _ _ (read_string-put_string h.2) refl))

abbrev pub IsUseNativeEnv : UseNativeEnv → Type 0
IsUseNativeEnv m = IsText m.native_version

pub fill_use_native_env-send_use_native_env :
    (m : UseNativeEnv) (behind : Bytes)
    → IsUseNativeEnv m
    → fill_use_native_env (send_use_native_env m behind) ≡ (m, behind)
unfolding fill_use_native_env send_use_native_env
fill_use_native_env-send_use_native_env m behind h = then_read _ _ (read_string-put_string h) refl

abbrev pub IsEnvTransfer : EnvTransfer → Type 0
IsEnvTransfer m = IsText m.name × IsText m.target

pub fill_env_transfer-send_env_transfer :
    (m : EnvTransfer) (behind : Bytes)
    → IsEnvTransfer m
    → fill_env_transfer (send_env_transfer m behind) ≡ (m, behind)
unfolding fill_env_transfer send_env_transfer
fill_env_transfer-send_env_transfer m behind h =
    then_read _ _ (read_string-put_string h.0) (then_read _ _ (read_string-put_string h.1) refl)

abbrev pub IsMonStats : MonStats → Type 0
IsMonStats m = IsWord m.hostid × IsText m.statmsg

pub fill_mon_stats-send_mon_stats :
    (m : MonStats) (behind : Bytes)
    → IsMonStats m
    → fill_mon_stats (send_mon_stats m behind) ≡ (m, behind)
unfolding fill_mon_stats send_mon_stats
fill_mon_stats-send_mon_stats m behind h =
    then_read _ _ (read_u32-put_u32 h.0) (then_read _ _ (read_string-put_string h.1) refl)

abbrev pub IsStatusText : StatusText → Type 0
IsStatusText m = IsText m.text

pub fill_status_text-send_status_text :
    (m : StatusText) (behind : Bytes)
    → IsStatusText m
    → fill_status_text (send_status_text m behind) ≡ (m, behind)
unfolding fill_status_text send_status_text
fill_status_text-send_status_text m behind h = then_read _ _ (read_string-put_string h) refl

abbrev pub IsVerifyEnv : VerifyEnv → Type 0
IsVerifyEnv m = IsText m.environment × IsText m.target

pub fill_verify_env-send_verify_env :
    (m : VerifyEnv) (behind : Bytes)
    → IsVerifyEnv m
    → fill_verify_env (send_verify_env m behind) ≡ (m, behind)
unfolding fill_verify_env send_verify_env
fill_verify_env-send_verify_env m behind h =
    then_read _ _ (read_string-put_string h.0) (then_read _ _ (read_string-put_string h.1) refl)

pub fill_verify_env_result-send_verify_env_result :
    (m : VerifyEnvResult) (behind : Bytes)
    → fill_verify_env_result (send_verify_env_result m behind) ≡ (m, behind)
unfolding fill_verify_env_result send_verify_env_result
fill_verify_env_result-send_verify_env_result m behind = then_read _ _ (read_bool-put_bool) refl

abbrev pub IsBlacklistHostEnv : BlacklistHostEnv → Type 0
IsBlacklistHostEnv m = IsText m.environment × IsText m.target × IsText m.hostname

pub fill_blacklist_host_env-send_blacklist_host_env :
    (m : BlacklistHostEnv) (behind : Bytes)
    → IsBlacklistHostEnv m
    → fill_blacklist_host_env (send_blacklist_host_env m behind) ≡ (m, behind)
unfolding fill_blacklist_host_env send_blacklist_host_env
fill_blacklist_host_env-send_blacklist_host_env m behind h =
    then_read _ _ (read_string-put_string h.0)
      (then_read _ _ (read_string-put_string h.1) (then_read _ _ (read_string-put_string h.2) refl))

abbrev pub IsConfCs : ConfCs → Type 0
IsConfCs m = IsWord m.max_scheduler_pong × IsWord m.max_scheduler_ping

pub fill_conf_cs-send_conf_cs :
    (m : ConfCs) (behind : Bytes) → IsConfCs m → fill_conf_cs (send_conf_cs m behind) ≡ (m, behind)
unfolding fill_conf_cs send_conf_cs
fill_conf_cs-send_conf_cs m behind h = then_read _ _ (read_u32-put_u32 h.0) (
    then_read _ _ (read_u32-put_u32 h.1)
      (then_read _ _ (read_string-put_string (tt, omega arith)) refl))
