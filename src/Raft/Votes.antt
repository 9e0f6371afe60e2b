-- ===== src/Raft/Votes.antt =====
-- Whom a node votes for, and what an election counts.
use raft_in_motion.Prelude.{
  ℕ, ◌+◌, ◌*◌, ◌≤◌, ◌<◌, ◌≡◌, ◌≢◌, ◌↔◌, refl, ltb, ◌==◌, Bool, true, false, ◌&&◌, ◌||◌, some, List,
  [], ◌∷◌, length, arith,
}
use raft_in_motion.Prelude.Int.{pos, int_eq, int_eq_iff, minus_one}
use raft_in_motion.Raft.{Raft, candidate, leader, is_dead, last_log_index_and_term}
use raft_in_motion.Raft.RequestVote.{RequestVoteArgs, RequestVoteReply, up_to_date, request_vote}
use raft_in_motion.Raft.Leader.{Election, vote_reply}

-- In the term of this request the node has voted for nobody, or for the one who asks.
abbrev pub free_to_vote : {C : Type 0} → RequestVoteArgs → Raft C → Bool
free_to_vote args rf =
    ltb rf.current_term args.term
    || ((rf.current_term == args.term)
        && (int_eq rf.voted_for minus_one || int_eq rf.voted_for (pos args.candidate_id)))

module _ {C : Type 0} where
  -- A vote is granted exactly if the node is not dead, the request is of its term or a later one, it
  -- has not voted for another in that term, and the candidate's log is at least as up to date as its
  -- own.
  pub request_vote_grants :
      (now : ℕ) (args : RequestVoteArgs) (rf : Raft C)
      → ((request_vote now args rf).0.vote_granted ≡ true) ↔ (
          (is_dead rf.state ≡ false)
          × (free_to_vote args rf ≡ true)
          × (up_to_date args (last_log_index_and_term rf) ≡ true))
  unfolding request_vote
  request_vote_grants now args rf = ground arith

  -- What a handler of votes keeps: the term does not fall, and within a term a vote stays.
  abbrev pub Keeps : Raft C → Raft C → Type 0
  Keeps before after =
      (before.current_term ≤ after.current_term)
      × (after.current_term ≡ before.current_term
          → before.voted_for ≢ minus_one
          → after.voted_for ≡ before.voted_for)

  pub request_vote-Keeps :
      (now : ℕ) (args : RequestVoteArgs) (rf : Raft C) → Keeps rf (request_vote now args rf).1
  unfolding request_vote
  request_vote-Keeps now args rf = ground arith

  -- Where the last reply of an election is a vote granted in that election's term, and the votes are
  -- then enough, a candidate becomes the leader and its term stays: whatever term it is a candidate in
  -- by then, this need not be the term that the votes were given in.
  pub late_votes_win :
      (now : ℕ) (e : Election) (rf : Raft C)
      → rf.state ≡ candidate
      → e.replies_needed ≡ 1
      → length rf.peer_ids + 1 < (e.votes_received + 2) * 2
      → let reply : RequestVoteReply = record {
        term = e.saved_current_term;
        vote_granted = true;
      } in
        let after = (vote_reply now (some reply) e rf).1 in
        (after.state ≡ leader) × (after.current_term ≡ rf.current_term)
  unfolding vote_reply
  late_votes_win now e rf c n h = ground arith

  -- The requests are handled one after the other.
  abbrev pub vote_all : ℕ → List RequestVoteArgs → Raft C → Raft C
  vote_all now [] rf = rf
  vote_all now (args ∷ rest) rf = vote_all now rest (request_vote now args rf).1

  Keeps-trans : (a b c : Raft C) → Keeps a b → Keeps b c → Keeps a c
  Keeps-trans a b c f g = ground arith

  vote_all-Keeps :
      (now : ℕ) (requests : List RequestVoteArgs) (rf : Raft C)
      → Keeps rf (vote_all now requests rf)
  vote_all-Keeps now [] rf = (omega arith, λ e v. refl)
  vote_all-Keeps now (args ∷ rest) rf =
      let next = (request_vote now args rf).1 in
      Keeps-trans rf next (vote_all now rest next) (request_vote-Keeps now args rf)
        (vote_all-Keeps now rest next)

  pub granted :
      (now : ℕ) (args : RequestVoteArgs) (rf : Raft C)
      → (request_vote now args rf).0.vote_granted ≡ true
      → ((request_vote now args rf).1.current_term ≡ args.term)
        × ((request_vote now args rf).1.voted_for ≡ pos args.candidate_id)
  unfolding request_vote
  granted now args rf h = ground arith

  -- Through any requests for votes, a node votes for one candidate at most in a term: if it grants a
  -- vote, and after any further requests grants another of the same term, both are for the same one.
  pub one_vote_per_term :
      (now : ℕ) (first : RequestVoteArgs) (between : List RequestVoteArgs)
      (second : RequestVoteArgs) (rf : Raft C)
      → (request_vote now first rf).0.vote_granted ≡ true
      → let later = vote_all now between (request_vote now first rf).1 in
        (request_vote now second later).0.vote_granted ≡ true
        → first.term ≡ second.term
        → first.candidate_id ≡ second.candidate_id
  one_vote_per_term now first between second rf a b same =
      let voted = (request_vote now first rf).1 in
      let later = vote_all now between voted in
      let (t, v) = granted now first rf a in
      let (up, kept) = vote_all-Keeps now between voted in
      let (live, free, recent) = (request_vote_grants now second later).0 b in
      ground (
        arith,
        int_eq_iff later.voted_for minus_one,
        int_eq_iff later.voted_for (pos second.candidate_id),
      )
