-- ===== src/Comm/Requests.antt =====
-- services/comm.h and services/comm.cpp: the messages by which a client gets a compile server, and
-- what a monitor is told of it. GetCSMsg is the record GetCs here, and so on.
pub mod RoundTrip
use icecream.Base.{ℕ, ◌^◌, Bool, ◌&&◌, not, [], ltb, leb, ◌==◌, if◌then◌else◌}
use icecream.Comm.{
  ◌>>=◌, Bytes, WireEnvironments, Writer, Reader, pure, put_u32, read_u32, put_string, read_string,
  write_environments, read_environments, put_since, read_since, is_protocol_version,
}
use icecream.Comm.Path.{shorten_filename}

-- An `int` is its 32 bits: from 2^31 on it is negative. `a >= b` for a `b` that is not.
abbrev pub int_geb : ℕ → ℕ → Bool
int_geb a b = ltb a (2 ^ 31) && leb b a

-- `max(a, b)` for an `a` that is not negative.
abbrev pub int_max : ℕ → ℕ → ℕ
int_max a b = if int_geb b a then b else a

pub record GetCs : Type 0 where
  pub versions : WireEnvironments
  pub filename : Bytes
  pub lang : ℕ
  pub count : ℕ
  pub target : Bytes
  pub arg_flags : ℕ
  pub client_id : ℕ
  pub preferred_host : Bytes
  pub minimal_host_version : ℕ
  pub required_features : ℕ
  pub client_count : ℕ
  pub niceness : ℕ

-- GetCSMsg(). The source gives minimal_host_version and required_features no value: 0 here.
abbrev pub new_get_cs : GetCs
new_get_cs = record {
  versions = [];
  filename = [];
  lang = 0;
  count = 1;
  target = [];
  arg_flags = 0;
  client_id = 0;
  preferred_host = [];
  minimal_host_version = 0;
  required_features = 0;
  client_count = 0;
  niceness = 0;
}

unfoldable pub fill_get_cs : ℕ → Reader GetCs
fill_get_cs protocol = do
  versions ← read_environments
  filename ← read_string
  lang ← read_u32
  count ← read_u32
  target ← read_string
  arg_flags ← read_u32
  client_id ← read_u32
  preferred_host ← read_since 22 protocol read_string []
  ign ← read_since 31 protocol read_u32 0
  let minimal = if not (ign == 0) then 31 else 0
  version ← read_since 34 protocol read_u32 0
  client_count ← read_since 39 protocol read_u32 0
  required_features ← read_since 42 protocol read_u32 0
  niceness ← read_since 43 protocol read_u32 0
  pure (record {
    versions = versions;
    filename = filename;
    lang = lang;
    count = count;
    target = target;
    arg_flags = arg_flags;
    client_id = client_id;
    preferred_host = preferred_host;
    minimal_host_version =
        if is_protocol_version 34 protocol then int_max minimal version else minimal;
    required_features = required_features;
    client_count = client_count;
    niceness = niceness;
  })

unfoldable pub send_get_cs : ℕ → GetCs → Writer
send_get_cs protocol m behind = write_environments m.versions (
    put_string (shorten_filename m.filename) (
      put_u32 m.lang (
        put_u32 m.count (
          put_string m.target (
            put_u32 m.arg_flags (
              put_u32 m.client_id (
                put_since 22 protocol (put_string m.preferred_host) (
                  put_since 31 protocol
                    (put_u32 (if int_geb m.minimal_host_version 31 then 1 else 0))
                    (put_since 34 protocol (put_u32 m.minimal_host_version) (
                      put_since 39 protocol (put_u32 m.client_count) (
                        put_since 42 protocol (put_u32 m.required_features)
                          (put_since 43 protocol (put_u32 m.niceness) behind))))))))))))

pub record UseCs : Type 0 where
  pub job_id : ℕ
  pub hostname : Bytes
  pub port : ℕ
  pub host_platform : Bytes
  pub got_env : ℕ
  pub client_id : ℕ
  pub matched_job_id : ℕ

unfoldable pub fill_use_cs : ℕ → Reader UseCs
fill_use_cs protocol = do
  job_id ← read_u32
  port ← read_u32
  hostname ← read_string
  host_platform ← read_string
  got_env ← read_u32
  client_id ← read_u32
  matched_job_id ← read_since 28 protocol read_u32 0
  pure (record {
    job_id = job_id;
    hostname = hostname;
    port = port;
    host_platform = host_platform;
    got_env = got_env;
    client_id = client_id;
    matched_job_id = matched_job_id;
  })

unfoldable pub send_use_cs : ℕ → UseCs → Writer
send_use_cs protocol m behind = put_u32 m.job_id (
    put_u32 m.port (
      put_string m.hostname (
        put_string m.host_platform (
          put_u32 m.got_env
            (put_u32 m.client_id (put_since 28 protocol (put_u32 m.matched_job_id) behind))))))

pub record NoCs : Type 0 where
  pub job_id : ℕ
  pub client_id : ℕ

unfoldable pub fill_no_cs : Reader NoCs
fill_no_cs = do
  job_id ← read_u32
  client_id ← read_u32
  pure (record { job_id = job_id; client_id = client_id })

unfoldable pub send_no_cs : NoCs → Writer
send_no_cs m behind = put_u32 m.job_id (put_u32 m.client_id behind)

-- A GetCSMsg with an id of its own, and the host that asked.
pub record MonGetCs : Type 0 where
  pub request : GetCs
  pub job_id : ℕ
  pub clientid : ℕ

-- From version 29 on, a monitor is told the file and its language only.
unfoldable pub fill_file : Reader GetCs
fill_file = do
  filename ← read_string
  lang ← read_u32
  pure (record new_get_cs { filename = filename; lang = lang })

unfoldable pub fill_mon_request : ℕ → Reader GetCs
fill_mon_request protocol =
    if is_protocol_version 29 protocol then fill_file else fill_get_cs protocol

unfoldable pub fill_mon_get_cs : ℕ → Reader MonGetCs
fill_mon_get_cs protocol = do
  request ← fill_mon_request protocol
  job_id ← read_u32
  clientid ← read_u32
  pure (record { request = request; job_id = job_id; clientid = clientid })

unfoldable pub send_file : GetCs → Writer
send_file m behind = put_string (shorten_filename m.filename) (put_u32 m.lang behind)

unfoldable pub send_mon_request : ℕ → GetCs → Writer
send_mon_request protocol m =
    if is_protocol_version 29 protocol then send_file m else send_get_cs protocol m

unfoldable pub send_mon_get_cs : ℕ → MonGetCs → Writer
send_mon_get_cs protocol m behind =
    send_mon_request protocol m.request (put_u32 m.job_id (put_u32 m.clientid behind))
