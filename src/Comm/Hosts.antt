-- ===== src/Comm/Hosts.antt =====
-- services/comm.h and services/comm.cpp: the messages about the hosts themselves, their load and their
-- environments. LoginMsg is the record Login here, and so on.
pub mod RoundTrip
use icecream.Base.{ℕ, Bool, false, List, []}
use icecream.Comm.{
  Bytes, WireEnvironments, Writer, Reader, pure, ◌>>=◌, put_u32, read_u32, put_string, read_string,
  put_list, read_list, write_environments, read_environments, put_since, read_since, put_bool,
  read_bool,
}

pub record Login : Type 0 where
  pub port : ℕ
  pub max_kids : ℕ
  pub envs : WireEnvironments
  pub nodename : Bytes
  pub host_platform : Bytes
  pub chroot_possible : Bool
  pub noremote : Bool
  pub supported_features : ℕ

unfoldable pub fill_login : ℕ → Reader Login
fill_login protocol = do
  port ← read_u32
  max_kids ← read_u32
  envs ← read_environments
  nodename ← read_string
  host_platform ← read_string
  chroot_possible ← read_bool
  noremote ← read_since 26 protocol read_bool false
  supported_features ← read_since 42 protocol read_u32 0
  pure (record {
    port = port;
    max_kids = max_kids;
    envs = envs;
    nodename = nodename;
    host_platform = host_platform;
    chroot_possible = chroot_possible;
    noremote = noremote;
    supported_features = supported_features;
  })

unfoldable pub send_login : ℕ → Login → Writer
send_login protocol m behind = put_u32 m.port (
    put_u32 m.max_kids (
      write_environments m.envs (
        put_string m.nodename (
          put_string m.host_platform (
            put_bool m.chroot_possible (
              put_since 26 protocol (put_bool m.noremote)
                (put_since 42 protocol (put_u32 m.supported_features) behind)))))))

-- client_count is not among what is sent: it is 0 at the receiver.
pub record Stats : Type 0 where
  pub load : ℕ
  pub load_avg1 : ℕ
  pub load_avg5 : ℕ
  pub load_avg10 : ℕ
  pub free_mem : ℕ

unfoldable pub fill_stats : Reader Stats
fill_stats = do
  load ← read_u32
  load_avg1 ← read_u32
  load_avg5 ← read_u32
  load_avg10 ← read_u32
  free_mem ← read_u32
  pure (record {
    load = load;
    load_avg1 = load_avg1;
    load_avg5 = load_avg5;
    load_avg10 = load_avg10;
    free_mem = free_mem;
  })

unfoldable pub send_stats : Stats → Writer
send_stats m behind =
    put_u32 m.load
      (put_u32 m.load_avg1 (put_u32 m.load_avg5 (put_u32 m.load_avg10 (put_u32 m.free_mem behind))))

pub record GetNativeEnv : Type 0 where
  pub compiler : Bytes
  pub extrafiles : List Bytes
  pub compression : Bytes

unfoldable pub fill_get_native_env : ℕ → Reader GetNativeEnv
fill_get_native_env protocol = do
  compiler ← read_since 32 protocol read_string []
  extrafiles ← read_since 32 protocol read_list []
  compression ← read_since 42 protocol read_string []
  pure (record { compiler = compiler; extrafiles = extrafiles; compression = compression })

unfoldable pub send_get_native_env : ℕ → GetNativeEnv → Writer
send_get_native_env protocol m behind = put_since 32 protocol (put_string m.compiler) (
    put_since 32 protocol (put_list m.extrafiles)
      (put_since 42 protocol (put_string m.compression) behind))

pub record UseNativeEnv : Type 0 where
  pub native_version : Bytes

unfoldable pub fill_use_native_env : Reader UseNativeEnv
fill_use_native_env = do
  native_version ← read_string
  pure (record { native_version = native_version })

unfoldable pub send_use_native_env : UseNativeEnv → Writer
send_use_native_env m behind = put_string m.native_version behind

pub record EnvTransfer : Type 0 where
  pub name : Bytes
  pub target : Bytes

unfoldable pub fill_env_transfer : Reader EnvTransfer
fill_env_transfer = do
  name ← read_string
  target ← read_string
  pure (record { name = name; target = target })

unfoldable pub send_env_transfer : EnvTransfer → Writer
send_env_transfer m behind = put_string m.name (put_string m.target behind)

pub record MonStats : Type 0 where
  pub hostid : ℕ
  pub statmsg : Bytes

unfoldable pub fill_mon_stats : Reader MonStats
fill_mon_stats = do
  hostid ← read_u32
  statmsg ← read_string
  pure (record { hostid = hostid; statmsg = statmsg })

unfoldable pub send_mon_stats : MonStats → Writer
send_mon_stats m behind = put_u32 m.hostid (put_string m.statmsg behind)

pub record StatusText : Type 0 where
  pub text : Bytes

unfoldable pub fill_status_text : Reader StatusText
fill_status_text = do text ← read_string; pure (record { text = text })

unfoldable pub send_status_text : StatusText → Writer
send_status_text m behind = put_string m.text behind

pub record VerifyEnv : Type 0 where
  pub environment : Bytes
  pub target : Bytes

unfoldable pub fill_verify_env : Reader VerifyEnv
fill_verify_env = do
  environment ← read_string
  target ← read_string
  pure (record { environment = environment; target = target })

unfoldable pub send_verify_env : VerifyEnv → Writer
send_verify_env m behind = put_string m.environment (put_string m.target behind)

pub record VerifyEnvResult : Type 0 where
  pub ok : Bool

unfoldable pub fill_verify_env_result : Reader VerifyEnvResult
fill_verify_env_result = do ok ← read_bool; pure (record { ok = ok })

unfoldable pub send_verify_env_result : VerifyEnvResult → Writer
send_verify_env_result m behind = put_bool m.ok behind

pub record BlacklistHostEnv : Type 0 where
  pub environment : Bytes
  pub target : Bytes
  pub hostname : Bytes

unfoldable pub fill_blacklist_host_env : Reader BlacklistHostEnv
fill_blacklist_host_env = do
  environment ← read_string
  target ← read_string
  hostname ← read_string
  pure (record { environment = environment; target = target; hostname = hostname })

unfoldable pub send_blacklist_host_env : BlacklistHostEnv → Writer
send_blacklist_host_env m behind =
    put_string m.environment (put_string m.target (put_string m.hostname behind))

pub record ConfCs : Type 0 where
  pub max_scheduler_pong : ℕ
  pub max_scheduler_ping : ℕ

-- An unused text, `bench_source`, is read over.
unfoldable pub fill_conf_cs : Reader ConfCs
fill_conf_cs = do
  max_scheduler_pong ← read_u32
  max_scheduler_ping ← read_u32
  bench_source ← read_string
  pure (record { max_scheduler_pong = max_scheduler_pong; max_scheduler_ping = max_scheduler_ping })

unfoldable pub send_conf_cs : ConfCs → Writer
send_conf_cs m behind =
    put_u32 m.max_scheduler_pong (put_u32 m.max_scheduler_ping (put_string [] behind))
