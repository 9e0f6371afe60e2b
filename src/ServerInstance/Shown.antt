-- ===== src/ServerInstance/Shown.antt =====
-- The state and the term that a panel shows, for the logs that raftTypes.ts describes.
use raft_in_motion.Prelude.{◌≡◌, refl, String, Option, none, some}
use raft_in_motion.Value.{Value, num, str}
use raft_in_motion.Types.Enums.{RaftState, state_value, message_case}
use raft_in_motion.Types.Logs
use raft_in_motion.Types.Logs.{Log, fields, message}
use raft_in_motion.ServerInstance.{ServerInstance, process_log}

-- The state that a log announces.
abbrev pub announced_state : Log → Option RaftState
announced_state (Log.state_transition l) = some l.new_state
announced_state (Log.election_won l) = some l.state
announced_state (Log.leader_connection m l) = some RaftState.follower
announced_state (Log.disconnection m l) = some RaftState.disconnected
announced_state _ = none

abbrev pub shown_state : Option RaftState → Value → Value
shown_state none old = old
shown_state (some state) old = str (state_value state)

-- The term that is shown after a log: only a won election changes it.
abbrev pub shown_term : Log → Value → Value
shown_term (Log.election_won l) old = num l.term
shown_term _ old = old

-- Whatever log of raftTypes.ts a panel processes, it then shows the state that the log announces: the
-- new state of a transition, the state of an election won, `Follower` while a leader leaves or comes
-- back, `Disconnected` while a server disconnects, the old one otherwise; and the term of an election
-- won, the old one otherwise.
pub process_log-shown :
    (now : String) (l : Log) (s : ServerInstance)
    → ((process_log now (fields l) s).current_state
        ≡ shown_state (announced_state l) s.current_state)
      × ((process_log now (fields l) s).current_term ≡ shown_term l s.current_term)
unfolding process_log fields message_case
process_log-shown now (Log.election_timer Logs.timer_started l) s = (refl, refl)
process_log-shown now (Log.election_timer Logs.timer_stopped_i l) s = (refl, refl)
process_log-shown now (Log.election_timer Logs.timer_stopped_ii l) s = (refl, refl)
process_log-shown now (Log.election_timer Logs.timeout l) s = (refl, refl)
process_log-shown now (Log.vote Logs.request l) s = (refl, refl)
process_log-shown now (Log.vote Logs.receive l) s = (refl, refl)
process_log-shown now (Log.vote Logs.failure l) s = (refl, refl)
process_log-shown now (Log.response_leader Logs.not_leader l server) s = (refl, refl)
process_log-shown now (Log.response_leader Logs.found l server) s = (refl, refl)
process_log-shown now (Log.leader_connection Logs.disconnecting l) s = (refl, refl)
process_log-shown now (Log.leader_connection Logs.service_disconnecting l) s = (refl, refl)
process_log-shown now (Log.leader_connection Logs.reconnecting l) s = (refl, refl)
process_log-shown now (Log.leader_connection Logs.service_reconnected l) s = (refl, refl)
process_log-shown now (Log.shutdown Logs.initialized l) s = (refl, refl)
process_log-shown now (Log.shutdown Logs.complete l) s = (refl, refl)
process_log-shown now (Log.disconnection Logs.initialized l) s = (refl, refl)
process_log-shown now (Log.disconnection Logs.complete l) s = (refl, refl)
process_log-shown now (Log.server_listening l) s = (refl, refl)
process_log-shown now _ s = (refl, refl)
