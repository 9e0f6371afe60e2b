-- ===== src/Types/Enums.antt =====
-- frontend/src/types/raftEnums.ts. The members of a string enum are the constructors, and
-- `state_value` and `message_value` are the strings that stand for them at run time.
pub mod Wire
use text.Mathlib.Text.{◌==◌ as str_eq}
use raft_in_motion.Prelude.{String, Option, none, some, List, [], ◌∷◌, if◌then◌else◌}
use raft_in_motion.Value.{Value, undefined, null, bool, num, str, object}

pub data RaftState : Type 0 where
  follower candidate leader dead disconnected : RaftState

abbrev pub state_value : RaftState → String
state_value follower = "Follower"
state_value candidate = "Candidate"
state_value leader = "Leader"
state_value dead = "Dead"
state_value disconnected = "Disconnected"

pub data LogMessageType : Type 0 where
  server_listening peer_connected peer_disconnected : LogMessageType
  election_timer_started election_timer_stopped_i election_timer_stopped_ii : LogMessageType
  election_timeout state_transition request_vote receive_vote vote_failure : LogMessageType
  election_won election_lost : LogMessageType
  put_request_initiated response_not_leader found_leader put_request_completed : LogMessageType
  disconnecting_leader service_disconnecting : LogMessageType
  reconnecting_original_leader service_reconnected node_dead : LogMessageType
  shutdown_initialized shutdown_complete : LogMessageType
  disconnection_initialized disconnection_complete : LogMessageType

abbrev pub message_value : LogMessageType → String
message_value server_listening = "serverListening"
message_value peer_connected = "peerConnected"
message_value peer_disconnected = "peerDisconnected"
message_value election_timer_started = "electionTimerStarted"
message_value election_timer_stopped_i = "electionTimerStoppedI"
message_value election_timer_stopped_ii = "electionTimerStoppedII"
message_value election_timeout = "electionTimeout"
message_value state_transition = "stateTransition"
message_value request_vote = "requestVote"
message_value receive_vote = "recieveVote"
message_value vote_failure = "voteFailure"
message_value election_won = "electionWon"
message_value election_lost = "electionLost"
message_value put_request_initiated = "putRequestInitiated"
message_value response_not_leader = "responseNotLeader"
message_value found_leader = "foundLeader"
message_value put_request_completed = "putRequestCompleted"
message_value disconnecting_leader = "disconnectingLeader"
message_value service_disconnecting = "serviceDisconnecting"
message_value reconnecting_original_leader = "reconnectingOriginalleader"
message_value service_reconnected = "serviceReconnected"
message_value node_dead = "nodeDead"
message_value shutdown_initialized = "shutdownInitialized"
message_value shutdown_complete = "shutdownComplete"
message_value disconnection_initialized = "disconnectionInitialized"
message_value disconnection_complete = "disconnectionComplete"

abbrev pub all_messages : List LogMessageType
all_messages =
    server_listening ∷ peer_connected ∷ peer_disconnected ∷ election_timer_started
    ∷ election_timer_stopped_i ∷ election_timer_stopped_ii ∷ election_timeout ∷ state_transition
    ∷ request_vote ∷ receive_vote ∷ vote_failure ∷ election_won ∷ election_lost
    ∷ put_request_initiated ∷ response_not_leader ∷ found_leader ∷ put_request_completed
    ∷ disconnecting_leader ∷ service_disconnecting ∷ reconnecting_original_leader
    ∷ service_reconnected ∷ node_dead ∷ shutdown_initialized ∷ shutdown_complete
    ∷ disconnection_initialized ∷ disconnection_complete ∷ []

abbrev pub all_states : List RaftState
all_states = follower ∷ candidate ∷ leader ∷ dead ∷ disconnected ∷ []

-- The case that a `switch` on a text enters, among members with these strings: the first that is
-- equal to it (`===`), `none` for `default`.
pub find_value : {A : Type 0} → (A → String) → List A → String → Option A
find_value value [] s = none
find_value value (a ∷ rest) s = if str_eq (value a) s then some a else find_value value rest s

-- `switch (message)` over the members of `LogMessageType`.
unfoldable pub message_case : Value → Option LogMessageType
unfolding find_value
message_case (str s) = find_value message_value all_messages s
message_case _ = none

-- `switch (state)` over the members of `RaftState`.
unfoldable pub state_case : Value → Option RaftState
unfolding find_value
state_case (str s) = find_value state_value all_states s
state_case _ = none
