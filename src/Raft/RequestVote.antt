-- ===== src/Raft/RequestVote.antt =====
-- internal/raft/request_vote.go: the handler of a vote request.
use raft_in_motion.Prelude.{ℕ, ltb, ◌==◌, Bool, true, false, ◌&&◌, ◌||◌, if◌then◌else◌}
use raft_in_motion.Prelude.Int.{ℤ, pos, int_eq, int_leb, int_ltb, minus_one}
use raft_in_motion.Raft.{
  Raft, is_dead, last_log_index_and_term, persist_to_storage, become_follower,
}

pub record RequestVoteArgs : Type 0 where
  pub term : ℕ
  pub candidate_id : ℕ
  pub last_log_index : ℤ
  pub last_log_term : ℤ

pub record RequestVoteReply : Type 0 where
  pub term : ℕ
  pub vote_granted : Bool

-- The candidate's log is at least as up to date as one that ends so.
abbrev pub up_to_date : RequestVoteArgs → ℤ × ℤ → Bool
up_to_date args (local_last_index, local_last_term) =
    int_ltb local_last_term args.last_log_term
    || (int_eq args.last_log_term local_last_term && int_leb local_last_index args.last_log_index)

module _ {C : Type 0} where
  -- if args.Term > rf.currentTerm { rf.becomeFollower(args.Term) }
  abbrev pub adopt : ℕ → ℕ → Raft C → Raft C
  adopt now term rf = if ltb rf.current_term term then become_follower now term rf else rf

  abbrev pub can_vote : RequestVoteArgs → ℤ × ℤ → Raft C → Bool
  can_vote args last rf =
      (rf.current_term == args.term)
      && (int_eq rf.voted_for minus_one || int_eq rf.voted_for (pos args.candidate_id))
      && up_to_date args last

  abbrev grant : ℕ → RequestVoteArgs → Bool → Raft C → RequestVoteReply × Raft C
  grant now args true rf = (
    record { term = rf.current_term; vote_granted = true },
    persist_to_storage
        (record rf { voted_for = pos args.candidate_id; election_reset_event = now }),
  )
  grant now args false rf =
      (record { term = rf.current_term; vote_granted = false }, persist_to_storage rf)

  -- The reply of a dead node is left as it was given, with zeros.
  unfoldable pub request_vote : ℕ → RequestVoteArgs → Raft C → RequestVoteReply × Raft C
  unfolding last_log_index_and_term become_follower
  request_vote now args rf =
      let last = last_log_index_and_term rf in
      let adopted = adopt now args.term rf in
      if is_dead rf.state
      then (record { term = 0; vote_granted = false }, rf)
      else grant now args (can_vote args last adopted) adopted
