-- ===== src/CompileServer/Connect.antt =====
-- The test of incoming connections in scheduler/compileserver.cpp: startInConnectionTest,
-- updateInConnectivity, isConnected and the timeouts. The clock and the answers of socket(),
-- connect() and getsockopt() are arguments.
use icecream.Base.{
  ℕ, zero, suc, ◌+◌, ◌-◌, ◌*◌, ◌^◌, ◌≤◌, ◌<◌, ◌≡◌, refl, ap, ◌∙◌, ltb, leb, ◌==◌, if◌then◌else◌,
  Bool, not, ◌&&◌, Bool-cases, inl, inr, true, false, ◌||◌, is_some, Option, none, some, List, [],
  ◌∷◌, length, get_elem?, if_of_both, arith,
}
use icecream.Base.Int.{ℤ, pos, negsuc}
use icecream.CompileServer.{CompileServer}
use mathlib.Core.Option

-- `time_offset_table`
abbrev pub time_offset_table : List ℕ
time_offset_table = 2 ∷ 4 ∷ 8 ∷ 16 ∷ 32 ∷ 64 ∷ 128 ∷ 256 ∷ 512 ∷ 1024 ∷ 2048 ∷ 4096 ∷ []

-- `sizeof(time_offset_table)`: twelve entries of eight bytes each.
abbrev pub table_size : ℕ
table_size = 12 * 8

abbrev pub accepted_in : ℕ → CompileServer → CompileServer
accepted_in now cs = record cs {
  accepting_in_connection = true;
  in_conn_attempt = if cs.accepting_in_connection then cs.in_conn_attempt else 0;
  next_conn_time = now + 60;
  in_fd = none;
}

abbrev pub refused_in : ℕ → CompileServer → ℕ → CompileServer
refused_in now cs offset = record cs {
  accepting_in_connection = false;
  next_conn_time = now + offset;
  in_conn_attempt =
      if ltb cs.in_conn_attempt (table_size - 1)
      then cs.in_conn_attempt + 1
      else cs.in_conn_attempt;
  in_fd = none;
}

-- updateInConnectivity. `none` means that it reads the table outside its bounds.
unfoldable pub update_in_connectivity : ℕ → Bool → CompileServer → Option CompileServer
update_in_connectivity now true cs = some (accepted_in now cs)
update_in_connectivity now false cs =
    Option.map (refused_in now cs) (get_elem? time_offset_table cs.in_conn_attempt)

-- getConnectionTimeout, of at most five seconds from the start.
unfoldable pub get_connection_timeout : ℕ → CompileServer → ℕ
get_connection_timeout now cs =
    if ltb now (cs.last_conn_start_time + 5) then cs.last_conn_start_time + 5 - now else 0

-- isConnected, where `healthy` is what getsockopt says of the socket.
unfoldable pub is_connected : ℕ → Bool → CompileServer → Bool
is_connected now healthy cs = if get_connection_timeout now cs == 0 then false else healthy

-- getNextTimeout; -1 is no timeout.
unfoldable pub get_next_timeout : ℕ → CompileServer → ℤ
get_next_timeout now cs =
    if cs.no_remote
    then negsuc 0
    else if is_some cs.in_fd
    then pos (get_connection_timeout now cs)
    else pos (cs.next_conn_time - now)

-- How connect() ends.
pub data Connecting : Type 0 where
  connects waits fails : Connecting

abbrev pub after_connect : Connecting → ℕ → Bool → CompileServer → Option CompileServer
after_connect connects now healthy cs = update_in_connectivity now (is_connected now healthy cs) cs
after_connect waits now healthy cs = some cs
after_connect fails now healthy cs = update_in_connectivity now false cs

-- startInConnectionTest, with the descriptor of the new socket.
unfoldable pub start_in_connection_test :
    ℕ → ℕ → Connecting → Bool → CompileServer → Option CompileServer
start_in_connection_test now fd status healthy cs =
    if cs.no_remote || is_some cs.in_fd || ltb now cs.next_conn_time
    then some cs
    else Option.map (λ (o : CompileServer). record o { last_conn_start_time = now })
        (after_connect status now healthy (record cs { in_fd = some fd }))

-- The end of a test in the main loop of scheduler/scheduler.cpp: `set` says that poll() names the
-- socket, `active_fds` how many descriptors it has left.
unfoldable pub poll_connection_test : ℕ → Bool → Bool → ℕ → CompileServer → Option CompileServer
poll_connection_test now healthy set active_fds cs =
    if not (is_some cs.in_fd)
    then some cs
    else if ltb 0 active_fds && set && is_connected now healthy cs
    then update_in_connectivity now true cs
    else if (active_fds == 0 || set) && not (is_connected now healthy cs)
    then update_in_connectivity now false cs
    else some cs

-- Failed tests at a list of times.
unfoldable pub fail_all : List ℕ → CompileServer → Option CompileServer
fail_all [] cs = some cs
fail_all (now ∷ nows) cs = elim (update_in_connectivity now false cs) [
  | none ↦ none
  | some cs' ↦ fail_all nows cs'
]

-- 2 ^ i and the powers behind it.
abbrev powers : ℕ → ℕ → List ℕ
powers zero i = []
powers (suc k) i = 2 ^ i ∷ powers k (suc i)

abbrev power_below : ℕ → ℕ → ℕ → Option ℕ
power_below k i n = if ltb n k then some (2 ^ (i + n)) else none

get_elem?-powers : (k i n : ℕ) → get_elem? (powers k i) n ≡ power_below k i n
get_elem?-powers zero i n = ground arith
get_elem?-powers (suc k) i zero =
    let e : i + 0 ≡ i = omega arith in ground (arith, ap (λ x. 2 ^ x) e)
get_elem?-powers (suc k) i (suc n) =
    let e : suc i + n ≡ i + suc n = omega arith in
    ground (arith, get_elem?-powers k (suc i) n, ap (λ x. 2 ^ x) e)

-- The table holds the first twelve powers of two.
get_elem?-time_offset_table : (n : ℕ) → get_elem? time_offset_table n ≡ power_below 12 1 n
get_elem?-time_offset_table n = get_elem?-powers 12 1 n

-- A failed test is tried again after twice the time of the last one, for the first twelve attempts.
pub update_in_connectivity-doubles :
    (now : ℕ) (cs : CompileServer)
    → cs.in_conn_attempt < 12
    → (t : CompileServer) × (update_in_connectivity now false cs ≡ some t)
      × (t.next_conn_time ≡ now + 2 ^ suc cs.in_conn_attempt)
      × (t.in_conn_attempt ≡ suc cs.in_conn_attempt)
      × (t.in_fd ≡ none)
unfolding update_in_connectivity
update_in_connectivity-doubles now cs h = (
  refused_in now cs (2 ^ suc cs.in_conn_attempt),
  ground (arith, get_elem?-time_offset_table cs.in_conn_attempt),
  refl,
  ground arith,
  refl,
)

-- A failed test behind the table.
update_in_connectivity-none :
    (now : ℕ) (cs : CompileServer)
    → 12 ≤ cs.in_conn_attempt
    → update_in_connectivity now false cs ≡ none
unfolding update_in_connectivity
update_in_connectivity-none now cs h =
    ground (arith, get_elem?-time_offset_table cs.in_conn_attempt)

-- A test reads outside the table only behind its twelve entries.
read_outside :
    (now : ℕ) (set : Bool) (cs : CompileServer)
    → update_in_connectivity now set cs ≡ none
    → 12 ≤ cs.in_conn_attempt
unfolding update_in_connectivity
read_outside now true cs e = cc
read_outside now false cs e = ground (arith, get_elem?-time_offset_table cs.in_conn_attempt)

after_connect-none :
    (status : Connecting) (now : ℕ) (healthy : Bool) (cs : CompileServer)
    → after_connect status now healthy cs ≡ none
    → 12 ≤ cs.in_conn_attempt
after_connect-none connects now healthy cs e = read_outside now (is_connected now healthy cs) cs e
after_connect-none waits now healthy cs e = cc
after_connect-none fails now healthy cs e = read_outside now false cs e

map-none : {A B : Type 0} (f : A → B) (o : Option A) → Option.map f o ≡ none → o ≡ none
map-none f none e = refl
map-none f (some a) e = cc

pub start_in_connection_test-none :
    (now fd : ℕ) (status : Connecting) (healthy : Bool) (cs : CompileServer)
    → start_in_connection_test now fd status healthy cs ≡ none
    → 12 ≤ cs.in_conn_attempt
unfolding start_in_connection_test
start_in_connection_test-none now fd status healthy cs =
    if_of_both (λ (o : Option CompileServer). o ≡ none → 12 ≤ cs.in_conn_attempt)
      (cs.no_remote || is_some cs.in_fd || ltb now cs.next_conn_time) _ _ (λ e. cc)
      (λ e.
        after_connect-none status now healthy (record cs { in_fd = some fd })
          (map-none _ (after_connect status now healthy (record cs { in_fd = some fd })) e))

abbrev then_all : List ℕ → Option CompileServer → Option CompileServer
then_all nows none = none
then_all nows (some cs) = fail_all nows cs

fail_all-step :
    (now : ℕ) (nows : List ℕ) (cs : CompileServer) (r : Option CompileServer)
    → update_in_connectivity now false cs ≡ r
    → fail_all (now ∷ nows) cs ≡ then_all nows r
unfolding fail_all
fail_all-step now nows cs r e = ap (then_all nows) e

-- Failed tests in a row read outside the table as soon as the attempts pass twelve, and not before.
pub fail_all-in_bounds :
    (nows : List ℕ) (cs : CompileServer)
    → cs.in_conn_attempt ≤ 12
    → is_some (fail_all nows cs) ≡ leb (cs.in_conn_attempt + length nows) 12
unfolding fail_all
fail_all-in_bounds [] cs h = ground arith
fail_all-in_bounds (now ∷ nows) cs h = elim (Bool-cases (ltb cs.in_conn_attempt 12)) [
  | inl inside ↦
      let (t, e, _, n, _) = update_in_connectivity-doubles now cs (ground arith) in
      ap is_some (fail_all-step now nows cs (some t) e)
      ∙ fail_all-in_bounds nows t (ground arith)
      ∙ ap (λ k. leb k 12) (omega (arith, n))
  | inr outside ↦
      ap is_some
        (fail_all-step now nows cs none (update_in_connectivity-none now cs (ground arith)))
      ∙ ground arith
]
