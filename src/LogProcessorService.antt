-- ===== src/LogProcessorService.antt =====
-- frontend/src/services/logProcessorService.ts: what a log of a server changes of the state and the
-- term that are shown. The callbacks of the constructor are fields, on a state S of the component.
use raft_in_motion.Prelude.Int.{ℤ}
use raft_in_motion.Value.{Value, str, Fields, property}
use raft_in_motion.Types.Enums.{RaftState, state_value}

pub record LogProcessorService (S : Type 0) : Type 0 where
  pub raft_id : ℤ
  pub on_state_change : Value → S → S
  pub on_term_change : Value → S → S

module _ {S : Type 0} where
  unfoldable pub process_state_transition : LogProcessorService S → Fields → S → S
  process_state_transition processor log s = processor.on_state_change (property "newState" log) s

  unfoldable pub process_election_won : LogProcessorService S → Fields → S → S
  process_election_won processor log s =
      processor.on_term_change (property "term" log)
        (processor.on_state_change (property "state" log) s)

  unfoldable pub process_leader_connection : LogProcessorService S → S → S
  process_leader_connection processor s =
      processor.on_state_change (str (state_value RaftState.follower)) s

  unfoldable pub process_disconnection : LogProcessorService S → S → S
  process_disconnection processor s =
      processor.on_state_change (str (state_value RaftState.disconnected)) s
