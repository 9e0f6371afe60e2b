-- ===== src/ServerInstance.antt =====
-- frontend/src/components/serverInstance.tsx with LogVisualizer of
-- frontend/src/components/raft/raftVisualizer.tsx and LogBarData of frontend/src/types/uiTypes.ts:
-- the panel of one server, its state, its term and its bars. `exits` holds the timeouts that the
-- browser still runs for bars. The container keeps its height, since nothing calls animateHeight.
pub mod Bars
pub mod Panel
pub mod Exits
pub mod Shown
use raft_in_motion.Prelude.{
  ℕ, zero, suc, ◌+◌, ◌*◌, ◌/◌, String, Bool, true, false, not, Option, none, some, List, [], ◌∷◌,
  ◌++◌, map, filter, length, slice_last, get_last?, has, leb, ltb, ◌==◌, if◌then◌else◌,
}
use raft_in_motion.Prelude.Int.{ℤ, pos}
use raft_in_motion.Value.{Value, num, str, Fields, property}
use raft_in_motion.Types.Enums.{
  RaftState, LogMessageType, state_transition, election_won, disconnecting_leader,
  service_disconnecting, reconnecting_original_leader, service_reconnected,
  disconnection_initialized, disconnection_complete, state_value, message_case,
}
use raft_in_motion.LogUtils.{LogTypeColors, get_log_color, get_log_speed, process_log_message}
use raft_in_motion.LogProcessorService.{
  LogProcessorService, process_state_transition, process_election_won, process_leader_connection,
  process_disconnection,
}

pub record LogBarData : Type 0 where
  pub id : ℕ
  pub color : LogTypeColors
  pub message : String
  pub speed : ℕ
  pub timestamp : String

pub record ServerInstance : Type 0 where
  pub raft_id : ℤ
  pub current_state : Value
  pub current_term : Value
  pub bars : List LogBarData
  pub container_height : ℕ
  pub exits : List ℕ

abbrev pub min_container_height : ℕ
min_container_height = 150

abbrev pub max_visible_bars : ℕ
max_visible_bars = 12

abbrev pub init : ℤ → ServerInstance
init raft_id = record {
  raft_id = raft_id;
  current_state = str (state_value RaftState.follower);
  current_term = num (pos 0);
  bars = [];
  container_height = min_container_height;
  exits = [];
}

-- Math.max(...ids), of one id or more.
abbrev pub max_of : List ℕ → ℕ
max_of [] = 0
max_of (n ∷ rest) = let m = max_of rest in if ltb n m then m else n

abbrev pub ids : List LogBarData → List ℕ
ids bars = map (λ bar. bar.id) bars

abbrev pub limited : List LogBarData → List LogBarData
limited bars =
    if leb (max_visible_bars * 2) (length bars) then slice_last max_visible_bars bars else bars

abbrev pub new_id : List LogBarData → ℕ
new_id bars = if ltb 0 (length bars) then max_of (ids bars) + 1 else 1

-- A bar for the log, at the time `now`.
abbrev pub new_bar : ℕ → String → Fields → LogBarData
new_bar id now log = record {
  id = id;
  color = get_log_color log;
  message = process_log_message log;
  speed = get_log_speed log;
  timestamp = now;
}

unfoldable pub add_log_bar : String → Fields → ServerInstance → ServerInstance
add_log_bar now log s =
    let bars = limited s.bars in record s { bars = bars ++ new_bar (new_id bars) now log ∷ [] }

unfoldable pub handle_bar_exit : ℕ → ServerInstance → ServerInstance
handle_bar_exit id s = record s { bars = filter (λ bar. not (bar.id == id)) s.bars }

abbrev pub log_processor : ℤ → LogProcessorService ServerInstance
log_processor raft_id = record {
  raft_id = raft_id;
  on_state_change = λ v s. record s { current_state = v };
  on_term_change = λ v s. record s { current_term = v };
}

-- The `switch` of processLog: the cases that only break stand with `default`.
abbrev pub switch_message :
    Option LogMessageType
    → LogProcessorService ServerInstance
    → Fields
    → ServerInstance
    → ServerInstance
switch_message (some state_transition) processor log s = process_state_transition processor log s
switch_message (some election_won) processor log s = process_election_won processor log s
switch_message (some disconnecting_leader) processor log s = process_leader_connection processor s
switch_message (some service_disconnecting) processor log s = process_leader_connection processor s
switch_message (some reconnecting_original_leader) processor log s =
    process_leader_connection processor s
switch_message (some service_reconnected) processor log s = process_leader_connection processor s
switch_message (some disconnection_initialized) processor log s = process_disconnection processor s
switch_message (some disconnection_complete) processor log s = process_disconnection processor s
switch_message _ processor log s = s

unfoldable pub process_log : String → Fields → ServerInstance → ServerInstance
unfolding add_log_bar process_state_transition process_election_won process_leader_connection
    process_disconnection
process_log now log s =
    switch_message (message_case (property "message" log)) (log_processor s.raft_id) log
      (add_log_bar now log s)

abbrev pub latest : String → Option Fields → ServerInstance → ServerInstance
latest now none s = s
latest now (some log) s = process_log now log s

-- The effect on the logs of the server: it processes the last one.
unfoldable pub server_logs_changed : String → List Fields → ServerInstance → ServerInstance
unfolding process_log
server_logs_changed now server_logs s = latest now (get_last? server_logs) s

-- The effect on the connection status, where it is CONNECTING.
unfoldable pub start_connecting : ServerInstance → ServerInstance
start_connecting s = record s {
  bars = [];
  current_state = str (state_value RaftState.follower);
  current_term = num (pos 1);
  container_height = min_container_height;
}

-- Math.ceil(containerHeight / 20)
abbrev pub visible_bar_count : ℕ → ℕ
visible_bar_count container_height = (container_height + 19) / 20

unfoldable pub visible_bars : ServerInstance → List LogBarData
visible_bars s = slice_last (visible_bar_count s.container_height) s.bars

abbrev erase : ℕ → List ℕ → List ℕ
erase id [] = []
erase id (x ∷ rest) = if x == id then rest else x ∷ erase id rest

-- What happens to the panel: logs of the server, the start of a connection, the start of a bar's
-- animation, which starts the timeout for it, and that timeout.
pub data Event : Type 0 where
  receives : String → List Fields → Event
  connects : Event
  animation_starts timeout_fires : ℕ → Event

unfoldable pub step : Event → ServerInstance → ServerInstance
unfolding server_logs_changed start_connecting handle_bar_exit visible_bars
step (receives now server_logs) s = server_logs_changed now server_logs s
step connects s = start_connecting s
step (animation_starts id) s =
    if has id (ids (visible_bars s)) then record s { exits = id ∷ s.exits } else s
step (timeout_fires id) s =
    if has id s.exits then handle_bar_exit id (record s { exits = erase id s.exits }) else s

unfoldable pub run : List Event → ServerInstance → ServerInstance
run [] s = s
run (e ∷ rest) s = run rest (step e s)
