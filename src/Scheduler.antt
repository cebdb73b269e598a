-- ===== src/Scheduler.antt =====
-- The globals of scheduler/scheduler.cpp as one state, the messages that it sends, and the peers
-- that take them or do not.
pub mod Live
pub mod Notify
pub mod End
pub mod Requests
pub mod Speed
pub mod Pick
pub mod Dispatch
pub mod Events
pub mod Done
pub mod Lines
pub mod Prune
pub mod Activity
use Prim.Native.String.{String}
use icecream.Base.{ℕ, Bool, Option, none, some, List, ◌∷◌}
use icecream.Base.Map.{Map, update}
use icecream.Job.{Job}
use icecream.JobStat.{StatWindow}
use icecream.Queue.{JobRequestsGroup}
use icecream.CompileServer.{CompileServer, server_at}

-- The messages of services/comm.h that the scheduler sends. The texts for people are left out.
pub data Message : Type 0 where
  mon_stats : ℕ → Message
  mon_offline : ℕ → Message
  mon_get_cs : ℕ → ℕ → Message
  mon_job_begin : ℕ → ℕ → ℕ → Message
  mon_job_done : ℕ → ℕ → Message
  mon_local_job_begin : ℕ → String → ℕ → ℕ → Message
  job_local_done : ℕ → Message
  use_cs : String → String → ℕ → ℕ → Bool → ℕ → ℕ → Message
  no_cs : ℕ → ℕ → Message
  conf_cs : Message
  ping_msg : Message
  text_msg : Message
  get_internal_status : Message

-- A message that was handed to send_msg, with the address of the channel.
pub record Sent : Type 0 where
  pub to : ℕ
  pub message : Message

-- The network: what send_msg answers, given all that was sent before (newest first).
pub record Net : Type 0 where
  pub delivers : List Sent → ℕ → Message → Bool

-- `heap` holds the CompileServer objects by address; `stats` is all_job_stats and cum_job_stats;
-- `host_id_counter` is CompileServer::s_hostIdCounter; `sent` is the log of send_msg.
pub record Scheduler : Type 0 where
  pub heap : Map CompileServer
  pub fd2cs : Map ℕ
  pub css : List ℕ
  pub monitors : List ℕ
  pub controls : List ℕ
  pub block_css : List String
  pub new_job_id : ℕ
  pub host_id_counter : ℕ
  pub jobs : Map Job
  pub job_requests : List JobRequestsGroup
  pub stats : StatWindow
  pub sent : List Sent

-- A method call on the object at an address.
abbrev pub with_server : ℕ → (CompileServer → CompileServer) → Scheduler → Scheduler
with_server p f s = record s { heap = update p f s.heap }

-- A method call through a pointer that is tested for null first.
abbrev pub with_server? : Option ℕ → (CompileServer → CompileServer) → Scheduler → Scheduler
with_server? none f s = s
with_server? (some p) f s = with_server p f s

abbrev pub with_job : ℕ → (Job → Job) → Scheduler → Scheduler
with_job id f s = record s { jobs = update id f s.jobs }

abbrev pub server_of : Scheduler → ℕ → CompileServer
server_of s p = server_at s.heap p

-- `send_msg`
unfoldable pub send : Net → ℕ → Message → Scheduler → Scheduler × Bool
send net to m s =
    (record s { sent = record { to = to; message = m } ∷ s.sent }, net.delivers s.sent to m)
