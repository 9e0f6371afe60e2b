-- ===== src/Raft/AppendEntries.antt =====
-- internal/raft/heartbeat.go: the handler of AppendEntries. `none` is the panic of an index out of
-- range.
use raft_in_motion.Prelude.{
  ℕ, zero, suc, ◌+◌, ltb, ◌==◌, Bool, true, false, Option, none, some, List, [], ◌∷◌, ◌++◌, length,
  take, drop, get_elem?, if◌then◌else◌,
}
use raft_in_motion.Prelude.Int.{ℤ, pos, negsuc, int_eq, int_ltb, int_min, minus_one, pred_int}
use raft_in_motion.Raft.{Raft, LogEntry, is_dead, is_follower, persist_to_storage, become_follower}

pub record AppendEntriesArgs (C : Type 0) : Type 0 where
  pub term : ℕ
  pub leader_id : ℕ
  pub prev_log_index : ℤ
  pub prev_log_term : ℤ
  pub entries : List (LogEntry C)
  pub leader_commit : ℤ

pub record AppendEntriesReply : Type 0 where
  pub term : ℕ
  pub success : Bool
  pub conflict_index : ℕ
  pub conflict_term : ℤ

abbrev pub reply_of : ℕ → Bool → AppendEntriesReply
reply_of term success = record {
  term = term;
  success = success;
  conflict_index = 0;
  conflict_term = pos 0;
}

module _ {C : Type 0} where
  -- How far the terms of both lists agree: the loop of the handler.
  abbrev pub matching : List (LogEntry C) → List (LogEntry C) → ℕ
  matching [] entries = 0
  matching (e ∷ log) [] = 0
  matching (e ∷ log) (f ∷ entries) =
      let rest = matching log entries in if e.term == f.term then suc rest else 0

  -- The log after the entries that follow index n have been taken over.
  unfoldable pub insert_entries : ℕ → List (LogEntry C) → List (LogEntry C) → List (LogEntry C)
  insert_entries n entries log =
      let new_entries_index = matching (drop (suc n) log) entries in
      let log_insert_index = suc n + new_entries_index in
      if ltb new_entries_index (length entries)
      then take log_insert_index log ++ drop new_entries_index entries
      else log

  abbrev commit_to : ℤ → Raft C → Raft C
  commit_to leader_commit rf =
      if int_ltb rf.commit_index leader_commit
      then record rf {
        commit_index = int_min leader_commit (pred_int (length rf.log));
        commit_ready = suc rf.commit_ready;
      }
      else rf

  abbrev follow_at :
      ℕ → AppendEntriesArgs C → Option (LogEntry C) → Raft C → AppendEntriesReply × Raft C
  follow_at n args none rf = (reply_of rf.current_term false, rf)
  follow_at n args (some entry) rf =
      if int_eq args.prev_log_term (pos entry.term)
      then (
        reply_of rf.current_term true,
        commit_to args.leader_commit (record rf { log = insert_entries n args.entries rf.log }),
      )
      else (reply_of rf.current_term false, rf)

  abbrev from_start : List (LogEntry C) → Raft C → AppendEntriesReply × Raft C
  from_start [] rf = (reply_of rf.current_term true, rf)
  from_start (entry ∷ log) rf =
      (record (reply_of rf.current_term false) { conflict_term = pos entry.term }, rf)

  -- The branches on PrevLogIndex, for the leader of the node's own term.
  unfoldable pub follow : ℤ → AppendEntriesArgs C → Raft C → Option (AppendEntriesReply × Raft C)
  unfolding insert_entries
  follow (negsuc zero) args rf = some (from_start rf.log rf)
  follow (negsuc (suc k)) args rf = none
  follow (pos n) args rf = some (follow_at n args (get_elem? rf.log n) rf)

  -- The first index of the run of this term that ends before index n.
  abbrev pub first_of_term : ℕ → List (LogEntry C) → ℕ → ℕ
  first_of_term term log zero = 0
  first_of_term term log (suc i) =
      let rest = first_of_term term log i in
      elim (get_elem? log i) [
        | none ↦ suc i
        | some entry ↦ if entry.term == term then rest else suc i
      ]

  -- Whether the handler goes on to persistToStorage, with its reply to a stale leader.
  abbrev pub refuse : ℤ → Raft C → AppendEntriesReply × Raft C
  refuse (negsuc k) rf =
      (record (reply_of rf.current_term false) { conflict_index = length rf.log }, rf)
  refuse (pos n) rf = elim (get_elem? rf.log n) [
    | none ↦ (
      record (reply_of rf.current_term false) {
        conflict_index = length rf.log;
        conflict_term = minus_one;
      },
      persist_to_storage rf,
    )
    | some entry ↦ (
      record (reply_of rf.current_term false) {
        conflict_index = first_of_term entry.term rf.log n;
        conflict_term = pos entry.term;
      },
      persist_to_storage rf,
    )
  ]

  abbrev pub persisted : Option (AppendEntriesReply × Raft C) → Option (AppendEntriesReply × Raft C)
  persisted none = none
  persisted (some (reply, rf)) = some (reply, persist_to_storage rf)

  -- rf.electionResetEvent, after a candidate of this term has stepped down.
  abbrev pub step_down : ℕ → ℕ → Raft C → Raft C
  step_down now term rf =
      let quiet = if is_follower rf.state then rf else become_follower now term rf in
      record quiet { election_reset_event = now }

  abbrev pub adopt_leader : ℕ → ℕ → Raft C → Raft C
  adopt_leader now term rf = if ltb rf.current_term term then become_follower now term rf else rf

  unfoldable pub append_entries :
      ℕ → AppendEntriesArgs C → Raft C → Option (AppendEntriesReply × Raft C)
  unfolding become_follower follow
  append_entries now args rf =
      let adopted = adopt_leader now args.term rf in
      let reply =
        if args.term == adopted.current_term
        then persisted (follow args.prev_log_index args (step_down now args.term adopted))
        else some (refuse args.prev_log_index adopted) in
      if is_dead rf.state then some (reply_of 0 false, rf) else reply
