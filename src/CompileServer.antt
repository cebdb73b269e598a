-- ===== src/CompileServer.antt =====
-- scheduler/compileserver.h and compileserver.cpp: one connection of the scheduler, and what it
-- knows of the daemon behind it. Objects stand on a heap, keyed by their address.
pub mod Methods
pub mod Eligible
pub mod Connect
use Prim.Native.String.{String}
use icecream.Base.{ℕ, Bool, true, false, Option, none, List, []}
use icecream.Base.Map.{Map, lookup}
use icecream.Base.Int.{ℤ, pos}
use icecream.Job.{Environments}
use icecream.JobStat.{StatWindow, no_stats}
use mathlib.Core.Option

pub data State : Type 0 where
  connected logged_in : State

-- `CompileServer::Type`
pub data Kind : Type 0 where
  unknown daemon monitor line : Kind

pub record LocalJobInfo : Type 0 where
  pub id : ℕ
  pub fulljob : Bool

-- The first six fields are those of MsgChannel that the scheduler reads; `ip` is the address that
-- eq_ip compares. `in_fd` is `none` for -1.
pub record CompileServer : Type 0 where
  pub name : String
  pub ip : ℕ
  pub fd : ℕ
  pub protocol : ℕ
  pub maximum_remote_protocol : ℕ
  pub last_talk : ℕ
  pub remote_port : ℕ
  pub host_id : ℕ
  pub node_name : String
  pub busy_installing : ℕ
  pub host_platform : String
  pub load : ℕ
  pub max_jobs : ℤ
  pub no_remote : Bool
  pub job_list : List ℕ
  pub state : State
  pub type : Kind
  pub chroot_possible : Bool
  pub features_supported : ℕ
  pub client_count : ℤ
  pub submitted_jobs_count : ℤ
  pub last_pick_id : ℕ
  pub compiler_versions : Environments
  pub compiled : StatWindow
  pub requested : StatWindow
  pub client_local_map : Map LocalJobInfo
  pub blacklist : Map Environments
  pub in_fd : Option ℕ
  pub in_conn_attempt : ℕ
  pub next_conn_time : ℕ
  pub last_conn_start_time : ℕ
  pub accepting_in_connection : Bool

-- The constructor, for a channel of this file descriptor and peer.
unfoldable pub new_server : ℕ → String → ℕ → ℕ → CompileServer
new_server fd name ip protocol = record {
  name = name;
  ip = ip;
  fd = fd;
  protocol = protocol;
  maximum_remote_protocol = protocol;
  last_talk = 0;
  remote_port = 0;
  host_id = 0;
  node_name = "";
  busy_installing = 0;
  host_platform = "";
  load = 1000;
  max_jobs = pos 0;
  no_remote = false;
  job_list = [];
  state = connected;
  type = unknown;
  chroot_possible = false;
  features_supported = 0;
  client_count = pos 0;
  submitted_jobs_count = pos 0;
  last_pick_id = 0;
  compiler_versions = [];
  compiled = no_stats;
  requested = no_stats;
  client_local_map = [];
  blacklist = [];
  in_fd = none;
  in_conn_attempt = 0;
  next_conn_time = 0;
  last_conn_start_time = 0;
  accepting_in_connection = true;
}

-- `*p`. What a dangling pointer reads is left open in C++; here it reads a new object.
unfoldable pub server_at : Map CompileServer → ℕ → CompileServer
server_at heap p = Option.get_or (lookup p heap) (new_server 0 "" 0 0)
