-- ===== src/Raft.antt =====
-- internal/raft/raft.go: the state of a node. An `int` that is never negative is a natural number, the
-- others are integers, and -1 stands for none as it does there; overflow after 2⁶³ terms is left out.
-- `now` is the time of the call. A signal sent to a channel, and a goroutine that is started, are
-- counted: `commit_ready`, `trigger_ae`, `election_timers`. Log output is left out.
pub mod RequestVote
pub mod AppendEntries
pub mod Leader
pub mod Votes
pub mod Entries
pub mod Followers
pub mod Commit
pub mod Applied
pub mod Durable
pub mod Elections
pub mod Timer
pub mod Trigger
pub mod TwoLeaders
use raft_in_motion.Prelude.{
  ℕ, suc, ◌+◌, Bool, true, false, Option, none, some, List, [], ◌∷◌, ◌++◌, length, get_last?,
  if◌then◌else◌,
}
use raft_in_motion.Prelude.Int.{ℤ, pos, minus_one, pred_int}

pub data RfState : Type 0 where
  follower candidate leader dead : RfState

pub record LogEntry (C : Type 0) : Type 0 where
  pub command : C
  pub term : ℕ

-- What persistToStorage saves.
pub record Persistent (C : Type 0) : Type 0 where
  pub current_term : ℕ
  pub voted_for : ℤ
  pub log : List (LogEntry C)

pub record Raft (C : Type 0) : Type 0 where
  pub id : ℕ
  pub peer_ids : List ℕ
  pub current_term : ℕ
  pub voted_for : ℤ
  pub log : List (LogEntry C)
  pub commit_index : ℤ
  pub last_applied : ℤ
  pub state : RfState
  pub election_reset_event : ℕ
  pub next_index : ℕ → ℕ
  pub match_index : ℕ → ℤ
  pub storage : Option (Persistent C)
  pub commit_ready : ℕ
  pub trigger_ae : ℕ
  pub election_timers : ℕ

abbrev pub is_dead : RfState → Bool
is_dead dead = true
is_dead _ = false

abbrev pub is_follower : RfState → Bool
is_follower follower = true
is_follower _ = false

abbrev pub is_leader : RfState → Bool
is_leader leader = true
is_leader _ = false

module _ {C : Type 0} where
  abbrev last_of : Option (LogEntry C) → List (LogEntry C) → ℤ × ℤ
  last_of none log = (minus_one, minus_one)
  last_of (some entry) log = (pred_int (length log), pos entry.term)

  unfoldable pub last_log_index_and_term : Raft C → ℤ × ℤ
  last_log_index_and_term rf = last_of (get_last? rf.log) rf.log

  abbrev pub persist_to_storage : Raft C → Raft C
  persist_to_storage rf = record rf {
    storage =
        some (record { current_term = rf.current_term; voted_for = rf.voted_for; log = rf.log });
  }

  unfoldable pub become_follower : ℕ → ℕ → Raft C → Raft C
  become_follower now term rf = record rf {
    state = follower;
    current_term = term;
    voted_for = minus_one;
    election_reset_event = now;
    election_timers = suc rf.election_timers;
  }

  -- Submit: the index of the command, or -1.
  unfoldable pub submit : C → Raft C → ℤ × Raft C
  submit command rf =
      if is_leader rf.state
      then (let entry : LogEntry C = record { command = command; term = rf.current_term } in
          let stored = persist_to_storage (record rf { log = rf.log ++ entry ∷ [] }) in
          (pos (length rf.log), record stored { trigger_ae = suc rf.trigger_ae }))
      else (minus_one, rf)

  -- Make, for a storage with these data or none.
  unfoldable pub make : ℕ → List ℕ → Option (Persistent C) → Raft C
  make id peer_ids storage =
      let fresh : Raft C = record {
        id = id;
        peer_ids = peer_ids;
        current_term = 0;
        voted_for = minus_one;
        log = [];
        commit_index = minus_one;
        last_applied = minus_one;
        state = follower;
        election_reset_event = 0;
        next_index = λ p. 0;
        match_index = λ p. pos 0;
        storage = storage;
        commit_ready = 0;
        trigger_ae = 0;
        election_timers = 0;
      } in
      elim storage [
        | none ↦ fresh
        | some saved ↦ record fresh {
          current_term = saved.current_term;
          voted_for = saved.voted_for;
          log = saved.log;
        }
      ]
