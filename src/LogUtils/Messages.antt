-- ===== src/LogUtils/Messages.antt =====
-- processLogMessage of frontend/src/lib/logUtils.ts: the line shown for a log.
use Prim.Native.String.{◌++◌}
use raft_in_motion.Prelude.{String, Option, some}
use raft_in_motion.Value.{Fields, property, template}
use raft_in_motion.Types.Enums.{
  LogMessageType, server_listening, peer_connected, peer_disconnected, election_timer_started,
  election_timer_stopped_i, election_timer_stopped_ii, election_timeout, state_transition,
  request_vote, receive_vote, vote_failure, election_won, disconnecting_leader,
  service_disconnecting, reconnecting_original_leader, service_reconnected, node_dead,
  shutdown_initialized, shutdown_complete, disconnection_initialized, disconnection_complete,
  message_case,
}

-- `${log.key}`
abbrev show : Fields → String → String
show log key = template (property key log)

abbrev text_of : Option LogMessageType → Fields → String
text_of (some state_transition) log =
    "State: " ++ (show log "oldState" ++ (" → " ++ show log "newState"))
text_of (some peer_connected) log =
    "Peer " ++ (show log "peer" ++ (" Connected (" ++ (show log "address" ++ ")")))
text_of (some peer_disconnected) log = "Peer " ++ (show log "peer" ++ " Disconnected")
text_of (some election_timer_started) log = "Election Timer Started"
text_of (some election_timeout) log = "Election Timeout"
text_of (some election_won) log = "Election Won"
text_of (some election_timer_stopped_i) log = "Election Timer Stopped"
text_of (some election_timer_stopped_ii) log = "Election Timer Stopped"
text_of (some shutdown_initialized) log = "Shutdown Initialized"
text_of (some shutdown_complete) log = "Shutdown Complete"
text_of (some server_listening) log = "Server Listening at " ++ show log "address"
text_of (some request_vote) log = "Request Vote from Peer " ++ show log "peer"
text_of (some receive_vote) log =
    "Received Vote from Peer " ++ (show log "peer" ++ (" (" ++ (show log "voteGranted" ++ ")")))
text_of (some disconnecting_leader) log = "Disconnecting Leader"
text_of (some service_disconnecting) log = "Service Disconnecting"
text_of (some disconnection_initialized) log = "Disconnection Initialized"
text_of (some disconnection_complete) log = "Disconnection Complete"
text_of (some vote_failure) log = "Vote Failure (Term: " ++ (show log "term" ++ ")")
text_of (some reconnecting_original_leader) log = "Reconnecting Original Leader"
text_of (some service_reconnected) log = "Service Reconnected"
text_of (some node_dead) log = "Node Dead"
text_of _ log = show log "message"

unfoldable pub process_log_message : Fields → String
process_log_message log = text_of (message_case (property "message" log)) log
