-- ===== src/LogUtils.antt =====
-- frontend/src/lib/logUtils.ts, and the colours of frontend/src/components/styles/logStyles.ts.
-- Each `switch (log.message)` is a function by clauses on the case that it enters.
mod Messages
pub mod Categories
unfoldable pub use Messages.{process_log_message}
use raft_in_motion.Prelude.{ℕ, String, Bool, true, false, ◌||◌, Option, none, some, if◌then◌else◌}
use raft_in_motion.Value.{Fields, property}
use raft_in_motion.Types.Enums.{
  LogMessageType, server_listening, peer_connected, peer_disconnected, election_timer_started,
  election_timer_stopped_i, election_timer_stopped_ii, election_timeout, state_transition,
  request_vote, receive_vote, vote_failure, election_won, election_lost, put_request_initiated,
  response_not_leader, found_leader, put_request_completed, disconnecting_leader,
  service_disconnecting, reconnecting_original_leader, service_reconnected, node_dead,
  shutdown_initialized, shutdown_complete, disconnection_initialized, disconnection_complete,
  message_case,
}

pub record LogTypeColors : Type 0 where
  pub bg : String
  pub glow : String
  pub text : String

abbrev pub election_color : LogTypeColors
election_color = record { bg = "bg-blue-800/90"; glow = "bg-blue-600/20"; text = "text-white" }

abbrev pub state_color : LogTypeColors
state_color = record { bg = "bg-pink-800/90"; glow = "bg-emerald-500/20"; text = "text-white" }

abbrev pub server_color : LogTypeColors
server_color = record { bg = "bg-emerald-900/80"; glow = "bg-green-500/20"; text = "text-white" }

abbrev pub connection_color : LogTypeColors
connection_color = record { bg = "bg-gray-950/80"; glow = "bg-gray-700/20"; text = "text-white" }

abbrev pub log_case : Fields → Option LogMessageType
log_case log = message_case (property "message" log)

-- The tests of getLogColor, one after the other; an `includes` list is a clause for each member,
-- and `none` is a message that is equal to no member of the enum.
abbrev color_of : Option LogMessageType → LogTypeColors
color_of (some state_transition) = state_color
color_of (some peer_connected) = server_color
color_of (some peer_disconnected) = server_color
color_of (some election_timer_started) = election_color
color_of (some election_timeout) = election_color
color_of (some election_timer_stopped_i) = election_color
color_of (some election_timer_stopped_ii) = election_color
color_of (some request_vote) = election_color
color_of (some receive_vote) = election_color
color_of (some election_won) = election_color
color_of (some shutdown_initialized) = connection_color
color_of (some shutdown_complete) = connection_color
color_of _ = connection_color

unfoldable pub get_log_color : Fields → LogTypeColors
get_log_color log = color_of (log_case log)

abbrev speed_of : Option LogMessageType → ℕ
speed_of (some state_transition) = 7
speed_of (some election_won) = 7
speed_of (some node_dead) = 7
speed_of (some election_timeout) = 5
speed_of (some request_vote) = 5
speed_of (some receive_vote) = 5
speed_of (some vote_failure) = 5
speed_of (some disconnecting_leader) = 5
speed_of (some reconnecting_original_leader) = 5
speed_of (some election_timer_started) = 7
speed_of (some election_timer_stopped_i) = 7
speed_of (some election_timer_stopped_ii) = 7
speed_of (some peer_connected) = 7
speed_of (some peer_disconnected) = 7
speed_of (some shutdown_initialized) = 6
speed_of (some shutdown_complete) = 6
speed_of (some service_disconnecting) = 6
speed_of (some service_reconnected) = 6
speed_of (some disconnection_initialized) = 6
speed_of (some disconnection_complete) = 6
speed_of _ = 6

-- How many seconds the bar of a log takes to cross.
unfoldable pub get_log_speed : Fields → ℕ
get_log_speed log = speed_of (log_case log)

pub record Activity : Type 0 where
  pub activity_text : String
  pub color : String

abbrev pub election_activity : Activity
election_activity = record { activity_text = "General election happening"; color = "251,207,132" }

abbrev pub peer_activity : Activity
peer_activity = record {
  activity_text = "Peer connection activity occurring";
  color = "96, 165, 250";
}

abbrev pub service_activity : Activity
service_activity = record {
  activity_text = "Service connection status changing";
  color = "147, 197, 253";
}

abbrev pub transition_activity : Activity
transition_activity = record {
  activity_text = "System state is transitioning";
  color = "192, 132, 252";
}

abbrev pub dead_activity : Activity
dead_activity = record { activity_text = "A node has gone down"; color = "248, 113, 113" }

abbrev pub leader_activity : Activity
leader_activity = record {
  activity_text = "Leader node reconnection activity happening";
  color = "52, 211, 153";
}

abbrev pub idle_activity : Activity
idle_activity = record { activity_text = "System Idle..."; color = "156, 163, 175" }

abbrev activity_of : Option LogMessageType → Activity
activity_of (some election_timer_started) = election_activity
activity_of (some election_timeout) = election_activity
activity_of (some election_won) = election_activity
activity_of (some election_timer_stopped_i) = election_activity
activity_of (some election_timer_stopped_ii) = election_activity
activity_of (some request_vote) = election_activity
activity_of (some receive_vote) = election_activity
activity_of (some vote_failure) = election_activity
activity_of (some peer_connected) = peer_activity
activity_of (some peer_disconnected) = peer_activity
activity_of (some shutdown_initialized) = service_activity
activity_of (some shutdown_complete) = service_activity
activity_of (some service_disconnecting) = service_activity
activity_of (some service_reconnected) = service_activity
activity_of (some disconnection_initialized) = service_activity
activity_of (some disconnection_complete) = service_activity
activity_of (some state_transition) = transition_activity
activity_of (some node_dead) = dead_activity
activity_of (some reconnecting_original_leader) = leader_activity
activity_of (some disconnecting_leader) = leader_activity
activity_of _ = idle_activity

unfoldable pub process_activity : Fields → Activity
process_activity log = activity_of (log_case log)
