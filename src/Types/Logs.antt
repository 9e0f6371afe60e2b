-- ===== src/Types/Logs.antt =====
-- frontend/src/types/raftTypes.ts: an interface is a record, `extends` is an opened parent, and a
-- union of literals is a data type. `fields` is the object that a value of the union `Log` is.
use raft_in_motion.Prelude.{String, Bool, [], ◌∷◌, ◌++◌}
use raft_in_motion.Prelude.Int.{ℤ}
use raft_in_motion.Value.{bool, num, str, Fields}
use raft_in_motion.Types.Enums.{LogMessageType, RaftState, message_value, state_value}

-- BaseLog, less the message, which each interface of the union fixes
pub record BaseLog : Type 0 where
  pub level : String
  pub time : String

pub record ServerLog : Type 0 where
  pub base : BaseLog
  pub open base use *
  pub raft_id : ℤ

pub record NetworkAddressLog : Type 0 where
  pub server : ServerLog
  pub open server use *
  pub address : String

pub record PeerConnectedLog : Type 0 where
  pub server : ServerLog
  pub open server use *
  pub address : String
  pub peer : ℤ

pub record PeerDisconnectedLog : Type 0 where
  pub server : ServerLog
  pub open server use *
  pub peer : ℤ

pub record RaftStateLog : Type 0 where
  pub server : ServerLog
  pub open server use *
  pub state : RaftState
  pub term : ℤ

pub record StateTransitionLog : Type 0 where
  pub server : ServerLog
  pub open server use *
  pub old_state : RaftState
  pub new_state : RaftState

pub record VoteLog : Type 0 where
  pub server : ServerLog
  pub open server use *
  pub peer : ℤ
  pub state : String
  pub term : ℤ

pub record ClientRequestLog : Type 0 where
  pub base : BaseLog
  pub open base use *
  pub client_id : ℤ

pub record KeyValueLog : Type 0 where
  pub request : ClientRequestLog
  pub open request use *
  pub key : String
  pub value : String

pub record NodeDeadLog : Type 0 where
  pub server : ServerLog
  pub open server use *
  pub term : ℤ

pub data ElectionTimerMessage : Type 0 where
  timer_started timer_stopped_i timer_stopped_ii timeout : ElectionTimerMessage

pub data VoteMessage : Type 0 where
  request receive failure : VoteMessage

pub data LeaderMessage : Type 0 where
  not_leader found : LeaderMessage

pub data LeaderConnectionMessage : Type 0 where
  disconnecting service_disconnecting reconnecting service_reconnected : LeaderConnectionMessage

pub data ShutdownMessage : Type 0 where
  initialized complete : ShutdownMessage

pub data Log : Type 0 where
  server_listening : NetworkAddressLog → Log
  peer_connected : PeerConnectedLog → Log
  peer_disconnected : PeerDisconnectedLog → Log
  election_timer : ElectionTimerMessage → RaftStateLog → Log
  state_transition : StateTransitionLog → Log
  vote : VoteMessage → VoteLog → Log
  receive_vote : VoteLog → Bool → Log
  election_won election_lost : RaftStateLog → Log
  put_request_initiated : KeyValueLog → Log
  response_leader : LeaderMessage → ClientRequestLog → String → Log
  put_request_completed : KeyValueLog → Log
  leader_connection : LeaderConnectionMessage → ServerLog → Log
  shutdown : ShutdownMessage → ServerLog → Log
  node_dead : NodeDeadLog → Log
  disconnection : ShutdownMessage → ServerLog → Log

abbrev timer_message : ElectionTimerMessage → LogMessageType
timer_message timer_started = LogMessageType.election_timer_started
timer_message timer_stopped_i = LogMessageType.election_timer_stopped_i
timer_message timer_stopped_ii = LogMessageType.election_timer_stopped_ii
timer_message timeout = LogMessageType.election_timeout

abbrev vote_message : VoteMessage → LogMessageType
vote_message request = LogMessageType.request_vote
vote_message receive = LogMessageType.receive_vote
vote_message failure = LogMessageType.vote_failure

abbrev leader_message : LeaderMessage → LogMessageType
leader_message not_leader = LogMessageType.response_not_leader
leader_message found = LogMessageType.found_leader

abbrev connection_message : LeaderConnectionMessage → LogMessageType
connection_message disconnecting = LogMessageType.disconnecting_leader
connection_message service_disconnecting = LogMessageType.service_disconnecting
connection_message reconnecting = LogMessageType.reconnecting_original_leader
connection_message service_reconnected = LogMessageType.service_reconnected

abbrev shutdown_message : ShutdownMessage → LogMessageType
shutdown_message initialized = LogMessageType.shutdown_initialized
shutdown_message complete = LogMessageType.shutdown_complete

abbrev disconnection_message : ShutdownMessage → LogMessageType
disconnection_message initialized = LogMessageType.disconnection_initialized
disconnection_message complete = LogMessageType.disconnection_complete

-- The `message` of a log.
abbrev pub message : Log → LogMessageType
message (server_listening l) = LogMessageType.server_listening
message (peer_connected l) = LogMessageType.peer_connected
message (peer_disconnected l) = LogMessageType.peer_disconnected
message (election_timer m l) = timer_message m
message (state_transition l) = LogMessageType.state_transition
message (vote m l) = vote_message m
message (receive_vote l granted) = LogMessageType.receive_vote
message (election_won l) = LogMessageType.election_won
message (election_lost l) = LogMessageType.election_lost
message (put_request_initiated l) = LogMessageType.put_request_initiated
message (response_leader m l server) = leader_message m
message (put_request_completed l) = LogMessageType.put_request_completed
message (leader_connection m l) = connection_message m
message (shutdown m l) = shutdown_message m
message (node_dead l) = LogMessageType.node_dead
message (disconnection m l) = disconnection_message m

-- The object of a base, with its message.
abbrev base_fields : BaseLog → LogMessageType → Fields
base_fields b m =
    ("level", str b.level) ∷ ("message", str (message_value m)) ∷ ("time", str b.time) ∷ []

abbrev server_fields : ServerLog → LogMessageType → Fields
server_fields l m = base_fields l.base m ++ ("raftID", num l.raft_id) ∷ []

abbrev state_fields : RaftStateLog → LogMessageType → Fields
state_fields l m =
    server_fields l.server m ++ ("state", str (state_value l.state)) ∷ ("term", num l.term) ∷ []

abbrev vote_fields : VoteLog → LogMessageType → Fields
vote_fields l m =
    server_fields l.server m
    ++ ("peer", num l.peer) ∷ ("state", str l.state) ∷ ("term", num l.term) ∷ []

abbrev key_value_fields : KeyValueLog → LogMessageType → Fields
key_value_fields l m =
    base_fields l.base m
    ++ ("clientID", num l.client_id) ∷ ("key", str l.key) ∷ ("value", str l.value) ∷ []

-- The properties that a log has beside those of its base, by interface.
abbrev fields_at : Log → LogMessageType → Fields
fields_at (server_listening l) m = server_fields l.server m ++ ("address", str l.address) ∷ []
fields_at (peer_connected l) m =
    server_fields l.server m ++ ("address", str l.address) ∷ ("peer", num l.peer) ∷ []
fields_at (peer_disconnected l) m = server_fields l.server m ++ ("peer", num l.peer) ∷ []
fields_at (election_timer _ l) m = state_fields l m
fields_at (state_transition l) m =
    server_fields l.server m
    ++ ("oldState", str (state_value l.old_state))
      ∷ ("newState", str (state_value l.new_state))
      ∷ []
fields_at (vote _ l) m = vote_fields l m
fields_at (receive_vote l granted) m = vote_fields l m ++ ("voteGranted", bool granted) ∷ []
fields_at (election_won l) m = state_fields l m
fields_at (election_lost l) m = state_fields l m
fields_at (put_request_initiated l) m = key_value_fields l m
fields_at (response_leader _ l server) m =
    base_fields l.base m ++ ("clientID", num l.client_id) ∷ ("server", str server) ∷ []
fields_at (put_request_completed l) m = key_value_fields l m
fields_at (leader_connection _ l) m = server_fields l m
fields_at (shutdown _ l) m = server_fields l m
fields_at (node_dead l) m = server_fields l.server m ++ ("term", num l.term) ∷ []
fields_at (disconnection _ l) m = server_fields l m

-- The object that a log is at run time.
unfoldable pub fields : Log → Fields
fields l = fields_at l (message l)

-- `ServerLog` is among the interfaces that the log's interface extends.
abbrev pub is_server_log : Log → Bool
is_server_log (put_request_initiated l) = Bool.false
is_server_log (response_leader m l server) = Bool.false
is_server_log (put_request_completed l) = Bool.false
is_server_log _ = Bool.true
