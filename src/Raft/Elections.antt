-- ===== src/Raft/Elections.antt =====
-- The votes of a whole cluster: each node answers RequestVote (internal/raft/request_vote.go) and starts
-- elections (internal/raft/chunab.go), in which it votes for itself.
use raft_in_motion.Prelude.{
  ℕ, suc, ◌+◌, ◌*◌, ◌≤◌, ◌<◌, ◌≡◌, ◌⊎◌, inl, inr, sym, ◌==◌, Bool, true, false, ◌&&◌, ◌||◌,
  Bool-cases, List, [], ◌∷◌, length, arith, if◌then◌else◌,
}
use raft_in_motion.Prelude.Int.{pos, int_eq_iff, minus_one}
use raft_in_motion.Raft.{Raft}
use raft_in_motion.Raft.RequestVote.{RequestVoteArgs, request_vote}
use raft_in_motion.Raft.Leader.{start_election}
use raft_in_motion.Raft.Votes.{request_vote_grants, granted, request_vote-Keeps}

-- What a node does in elections: it is asked for its vote, or its election timer runs out.
pub data Turn : Type 0 where
  asked : RequestVoteArgs → Turn
  times_out : Turn

abbrev is_vote : ℕ → ℕ → ℕ → ℕ → Bool
is_vote term c t d = (t == term) && (d == c)

module _ {C : Type 0} where
  unfoldable pub take_turn : ℕ → Turn → Raft C → Raft C
  unfolding request_vote start_election
  take_turn now (asked args) rf = (request_vote now args rf).1
  take_turn now times_out rf = (start_election now rf).1

  -- The node votes for c in this term in its turn.
  unfoldable pub votes_for : ℕ → ℕ → ℕ → Turn → Raft C → Bool
  unfolding request_vote
  votes_for now term c (asked args) rf =
      (request_vote now args rf).0.vote_granted && is_vote term c args.term args.candidate_id
  votes_for now term c times_out rf = is_vote term c (suc rf.current_term) rf.id

  -- It does so in one of its turns.
  unfoldable pub backs : ℕ → ℕ → ℕ → List Turn → Raft C → Bool
  unfolding take_turn votes_for
  backs now term c [] rf = false
  backs now term c (turn ∷ rest) rf =
      votes_for now term c turn rf || backs now term c rest (take_turn now turn rf)

  -- From here on the node votes for no other than c in this term.
  Bound : ℕ → ℕ → Raft C → Type 0
  Bound term c rf = (term < rf.current_term) ⊎ ((rf.current_term ≡ term) × (rf.voted_for ≡ pos c))

  vote-Bound :
      (now term c : ℕ) (turn : Turn) (rf : Raft C)
      → votes_for now term c turn rf ≡ true
      → Bound term c (take_turn now turn rf)
  unfolding votes_for take_turn start_election Bound
  vote-Bound now term c (asked args) rf h =
      inr (ground (arith, granted now args rf, h), ground (arith, granted now args rf, h))
  vote-Bound now term c times_out rf h = inr (ground (arith, h), ground (arith, h))

  turn-Bound :
      (now term c : ℕ) (turn : Turn) (rf : Raft C)
      → Bound term c rf
      → Bound term c (take_turn now turn rf)
  unfolding take_turn start_election Bound
  turn-Bound now term c (asked args) rf h = ground (arith, request_vote-Keeps now args rf, h)
  turn-Bound now term c times_out rf h = ground (arith, h)

  Bound-vote :
      (now term c d : ℕ) (turn : Turn) (rf : Raft C)
      → Bound term c rf
      → votes_for now term d turn rf ≡ true
      → c ≡ d
  unfolding votes_for Bound
  Bound-vote now term c d (asked args) rf h v = ground (
    arith,
    request_vote_grants now args rf,
    int_eq_iff rf.voted_for minus_one,
    int_eq_iff rf.voted_for (pos args.candidate_id),
    h,
    v,
  )
  Bound-vote now term c d times_out rf h v = absurd (ground (arith, h, v))

  Bound-backs :
      (now term c d : ℕ) (turns : List Turn) (rf : Raft C)
      → Bound term c rf
      → backs now term d turns rf ≡ true
      → c ≡ d
  unfolding backs
  Bound-backs now term c d [] rf h b = cc
  Bound-backs now term c d (turn ∷ rest) rf h b = elim (Bool-cases (votes_for now term d turn rf)) [
    | inl here ↦ Bound-vote now term c d turn rf h here
    | inr not_here ↦
        Bound-backs now term c d rest (take_turn now turn rf) (turn-Bound now term c turn rf h)
          (ground (arith, not_here, b))
  ]

  same_vote :
      (now term c d : ℕ) (turn : Turn) (rf : Raft C)
      → votes_for now term c turn rf ≡ true
      → votes_for now term d turn rf ≡ true
      → c ≡ d
  unfolding votes_for
  same_vote now term c d (asked args) rf a b = ground (arith, a, b)
  same_vote now term c d times_out rf a b = ground (arith, a, b)

  backs_one :
      (now term c d : ℕ) (turns : List Turn) (rf : Raft C)
      → backs now term c turns rf ≡ true
      → backs now term d turns rf ≡ true
      → c ≡ d
  unfolding backs
  backs_one now term c d [] rf a b = cc
  backs_one now term c d (turn ∷ rest) rf a b =
      let next = take_turn now turn rf in
      elim (Bool-cases (votes_for now term c turn rf)) [
        | inl c_here ↦ elim (Bool-cases (votes_for now term d turn rf)) [
          | inl d_here ↦ same_vote now term c d turn rf c_here d_here
          | inr d_later ↦
              Bound-backs now term c d rest next (vote-Bound now term c turn rf c_here)
                (ground (arith, d_later, b))
        ]
        | inr c_later ↦ elim (Bool-cases (votes_for now term d turn rf)) [
          | inl d_here ↦ sym (
              Bound-backs now term d c rest next (vote-Bound now term d turn rf d_here)
                (ground (arith, c_later, a)))
          | inr d_later ↦
              backs_one now term c d rest next (ground (arith, c_later, a))
                (ground (arith, d_later, b))
        ]
      ]

  -- The nodes of a cluster that back a candidate in a term, each with its turns.
  unfoldable pub backers : ℕ → ℕ → ℕ → List (List Turn × Raft C) → ℕ
  unfolding backs
  backers now term c [] = 0
  backers now term c ((turns, rf) ∷ rest) =
      let n = backers now term c rest in if backs now term c turns rf then suc n else n

  backers-sum :
      (now term c d : ℕ) (nodes : List (List Turn × Raft C))
      → (c == d) ≡ false
      → backers now term c nodes + backers now term d nodes ≤ length nodes
  unfolding backers
  backers-sum now term c d [] differ = omega arith
  backers-sum now term c d ((turns, rf) ∷ rest) differ =
      ground (arith, backers-sum now term c d rest differ, backs_one now term c d turns rf)

  -- In a cluster in which every node starts in any state and then, in any order, answers requests for votes
  -- and starts elections, two candidates that each have the votes of a majority of the nodes in the same term,
  -- their own votes included, are the same.
  pub one_majority :
      (now term c d : ℕ) (nodes : List (List Turn × Raft C))
      → length nodes < backers now term c nodes * 2
      → length nodes < backers now term d nodes * 2
      → c ≡ d
  one_majority now term c d nodes a b = elim (Bool-cases (c == d)) [
    | inl same ↦ ground (arith, same)
    | inr differ ↦ absurd (omega (arith, backers-sum now term c d nodes differ))
  ]
