-- ===== src/LogsContext/Parse.antt =====
-- parseLog of frontend/src/context/logsContext.tsx: what is let in from the socket. The casts
-- (`rawLog as VoteLog`) check nothing, so every case returns the object as it came; the two
-- `console.warn` calls are not modelled.
pub mod Accepts
use text.Mathlib.Text.{◌==◌ as str_eq}
use raft_in_motion.Prelude.{not, ◌||◌, Option, none, some, if◌then◌else◌}
use raft_in_motion.Value.{
  Raw, scalar, log_object, Fields, truthy, truthy_raw, type_of_raw, property_raw,
}
use raft_in_motion.Types.Enums.{
  LogMessageType, server_listening, peer_connected, peer_disconnected, election_timer_started,
  election_timer_stopped_i, election_timer_stopped_ii, election_timeout, state_transition,
  request_vote, receive_vote, vote_failure, election_won, election_lost, put_request_initiated,
  response_not_leader, found_leader, put_request_completed, disconnecting_leader,
  service_disconnecting, reconnecting_original_leader, service_reconnected, node_dead,
  shutdown_initialized, shutdown_complete, disconnection_initialized, disconnection_complete,
  message_case,
}

-- The object itself; a scalar never gets so far.
abbrev as_log : Raw → Option Fields
as_log (scalar v) = none
as_log (log_object fs) = some fs

-- The `switch (message)`: the case entered, and the log.
abbrev parse_case : Option LogMessageType → Raw → Option Fields
parse_case (some server_listening) raw = as_log raw
parse_case (some peer_connected) raw = as_log raw
parse_case (some peer_disconnected) raw = as_log raw
parse_case (some election_timer_started) raw = as_log raw
parse_case (some election_timer_stopped_i) raw = as_log raw
parse_case (some election_timer_stopped_ii) raw = as_log raw
parse_case (some election_timeout) raw = as_log raw
parse_case (some state_transition) raw = as_log raw
parse_case (some request_vote) raw = as_log raw
parse_case (some receive_vote) raw = as_log raw
parse_case (some vote_failure) raw = as_log raw
parse_case (some election_won) raw = as_log raw
parse_case (some election_lost) raw = as_log raw
parse_case (some put_request_initiated) raw = as_log raw
parse_case (some response_not_leader) raw = as_log raw
parse_case (some found_leader) raw = as_log raw
parse_case (some put_request_completed) raw = as_log raw
parse_case (some disconnecting_leader) raw = as_log raw
parse_case (some service_disconnecting) raw = as_log raw
parse_case (some reconnecting_original_leader) raw = as_log raw
parse_case (some service_reconnected) raw = as_log raw
parse_case (some shutdown_initialized) raw = as_log raw
parse_case (some shutdown_complete) raw = as_log raw
parse_case (some node_dead) raw = as_log raw
parse_case (some disconnection_initialized) raw = as_log raw
parse_case (some disconnection_complete) raw = as_log raw
parse_case none raw = none

unfoldable pub parse_log : Raw → Option Fields
parse_log raw =
    if not (truthy_raw raw)
      || not (str_eq (type_of_raw raw) "object")
      || not (truthy (property_raw "message" raw))
    then none
    else parse_case (message_case (property_raw "message" raw)) raw
