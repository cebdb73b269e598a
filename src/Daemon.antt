-- ===== src/Daemon.antt =====
-- daemon/main.cpp: struct Client, the clients of a daemon and the states that they go through.
pub mod Jobs
pub mod First
pub mod Order
use icecream.Base.{
  ℕ, Bool, true, false, ◌&&◌, ◌||◌, Option, none, some, List, [], ◌∷◌, length, find_if, copy_if,
  ltb, ◌==◌,
}
use icecream.Comm.{Bytes}
use icecream.Comm.Requests.{UseCs}

-- Client::Status
pub data Status : Type 0 where
  unknown gotnative pending_use_cs jobdone : Status
  linkjob toinstall waitinstall tocompile : Status
  waitforcs waitcompile clientwork waitforchild : Status
  waitcreateenv : Status

abbrev pub status_number : Status → ℕ
status_number unknown = 0
status_number gotnative = 1
status_number pending_use_cs = 2
status_number jobdone = 3
status_number linkjob = 4
status_number toinstall = 5
status_number waitinstall = 6
status_number tocompile = 7
status_number waitforcs = 8
status_number waitcompile = 9
status_number clientwork = 10
status_number waitforchild = 11
status_number waitcreateenv = 12

-- `channel` stands for the address of the MsgChannel, by which Clients is ordered, and `job` for the id of
-- the CompileJob. `none` is a null pointer, or -1. The pipes are left out.
pub record Client : Type 0 where
  pub status : Status
  pub job_id : ℕ
  pub outfile : Bytes
  pub channel : ℕ
  pub usecsmsg : Option UseCs
  pub job : Option ℕ
  pub client_id : ℕ
  pub niceness : ℕ
  pub child_pid : Option ℕ
  pub fulljob : Bool
  pub pending_create_env : Bytes

-- A Client as it is accepted.
unfoldable pub new_client : ℕ → ℕ → Client
new_client channel client_id = record {
  status = unknown;
  job_id = 0;
  outfile = [];
  channel = channel;
  usecsmsg = none;
  job = none;
  client_id = client_id;
  niceness = 0;
  child_pid = none;
  fulljob = false;
  pending_create_env = [];
}

abbrev pub is_status : Status → Client → Bool
is_status s c = status_number c.status == status_number s

pub find_by_client_id : ℕ → List Client → Option Client
find_by_client_id id clients = find_if (λ c. c.client_id == id) clients

-- The numbers of dump_per_status, for one status.
abbrev pub count_status : Status → List Client → ℕ
count_status s clients = length (copy_if (is_status s) clients)

-- The variables of get_earliest_client.
pub record Earliest : Type 0 where
  pub client : Option Client
  pub min_client_id : ℕ
  pub min_niceness : ℕ

abbrev pub max_niceness : ℕ
max_niceness = 4294967295

abbrev pub no_earliest : Earliest
no_earliest = record { client = none; min_client_id = 0; min_niceness = max_niceness }

abbrev pub is_earlier : Status → Client → Earliest → Bool
is_earlier s c e =
    (is_status s c && (e.min_client_id == 0 || ltb c.client_id e.min_client_id))
    && ltb c.niceness e.min_niceness

-- One round of the loop.
abbrev pub choose : Bool → Client → Earliest → Earliest
choose false c e = e
choose true c e = record { client = some c; min_client_id = c.client_id; min_niceness = c.niceness }

unfoldable pub earliest_loop : Status → List Client → Earliest → Earliest
earliest_loop s [] e = e
earliest_loop s (c ∷ cs) e = earliest_loop s cs (choose (is_earlier s c e) c e)

unfoldable pub get_earliest_client : Status → List Client → Option Client
get_earliest_client s clients = (earliest_loop s clients no_earliest).client
