-- ===== src/Raft/Durable.antt =====
-- What a node has in its storage, and what a restart (Make with restoreFromStorage of
-- internal/raft/persist.go) brings back.
use raft_in_motion.Prelude.{
  ℕ, suc, ◌≡◌, inl, inr, refl, ltb, ◌==◌, true, Bool-cases, Option-cases, Option, none, some, List,
  [], ◌∷◌, arith, get_elem?,
}
use raft_in_motion.Prelude.Int.{ℤ, pos, negsuc}
use raft_in_motion.Raft.{
  Raft, is_dead, make, last_log_index_and_term, become_follower, persist_to_storage,
}
use raft_in_motion.Raft.RequestVote.{RequestVoteArgs, up_to_date, request_vote}
use raft_in_motion.Raft.AppendEntries.{
  AppendEntriesArgs, AppendEntriesReply, append_entries, persisted, refuse,
}
use raft_in_motion.Raft.Leader.{start_election}
use raft_in_motion.Raft.Followers.{Rpc, votes, appends, answer, answered, answer_all, answer_rest}

module _ {C : Type 0} where
  -- A restart of the node.
  abbrev pub restart : Raft C → Raft C
  restart rf = make rf.id rf.peer_ids rf.storage

  -- A restart would bring back the node's term, vote and log.
  abbrev pub IsDurable : Raft C → Type 0
  IsDurable rf =
      ((restart rf).current_term ≡ rf.current_term)
      × ((restart rf).voted_for ≡ rf.voted_for)
      × ((restart rf).log ≡ rf.log)

  request_vote-IsDurable :
      (now : ℕ) (args : RequestVoteArgs) (rf : Raft C)
      → IsDurable rf
      → IsDurable (request_vote now args rf).1
  unfolding make request_vote
  request_vote-IsDurable now args rf v = ground arith

  Durable : Option (Raft C) → Type 0
  Durable none = Unit
  Durable (some rf) = IsDurable rf

  stored : (rf : Raft C) → IsDurable (persist_to_storage rf)
  unfolding make
  stored rf = (refl, refl, refl)

  persisted-Durable : (o : Option (AppendEntriesReply × Raft C)) → Durable (answered (persisted o))
  unfolding Durable
  persisted-Durable none = tt
  persisted-Durable (some (reply, rf)) = stored rf

  refuse-IsDurable : (prev : ℤ) (rf : Raft C) → IsDurable rf → IsDurable (refuse prev rf).1
  refuse-IsDurable (negsuc k) rf v = v
  refuse-IsDurable (pos n) rf v = elim (Option-cases (get_elem? rf.log n)) [
    | inl e ↦ rw (refuse, e) (stored rf)
    | inr (entry, e) ↦ rw (refuse, e) (stored rf)
  ]

  append_entries-Durable :
      (now : ℕ) (args : AppendEntriesArgs C) (rf : Raft C)
      → IsDurable rf
      → Durable (answered (append_entries now args rf))
  unfolding append_entries Durable become_follower
  append_entries-Durable now args rf v = elim (Bool-cases (is_dead rf.state)) [
    | inl d ↦ rw d v
    | inr live ↦ elim (Bool-cases (ltb rf.current_term args.term)) [
      | inl newer ↦
          let same : args.term == args.term ≡ true = ground arith in
          rw (live, newer, same) (persisted-Durable _)
      | inr old ↦ elim (Bool-cases (args.term == rf.current_term)) [
        | inl same ↦ rw (live, old, same) (persisted-Durable _)
        | inr stale ↦ rw (live, old, stale) (refuse-IsDurable args.prev_log_index rf v)
      ]
    ]
  ]

  answer-Durable :
      (now : ℕ) (rpc : Rpc C) (rf : Raft C) → IsDurable rf → Durable (answer now rpc rf)
  unfolding Durable
  answer-Durable now (votes args) rf v = request_vote-IsDurable now args rf v
  answer-Durable now (appends args) rf v = append_entries-Durable now args rf v

  answered_one :
      (o : Option (Raft C)) (rest : Raft C → Option (Raft C)) {after : Raft C}
      → answer_rest rest o ≡ some after
      → Durable o
      → (middle : Raft C) × (rest middle ≡ some after) × IsDurable middle
  unfolding Durable
  answered_one none rest h d = cc
  answered_one (some middle) rest h d = (middle, h, d)

  -- Through any calls of RequestVote and AppendEntries a node's term, vote and log stay such that a
  -- restart would bring them back: each answer is stored before it is given.
  pub answer_all-IsDurable :
      (now : ℕ) (rpcs : List (Rpc C)) (rf after : Raft C)
      → IsDurable rf
      → answer_all now rpcs rf ≡ some after
      → IsDurable after
  answer_all-IsDurable now [] rf after v h = ground arith
  answer_all-IsDurable now (rpc ∷ rest) rf after v h =
      let (middle, e, d) =
        answered_one (answer now rpc rf) (answer_all now rest) h (answer-Durable now rpc rf v) in
      answer_all-IsDurable now rest middle after d e

  -- A node starts an election, in which it votes for itself, and crashes before it has stored anything
  -- else: after its restart it grants another candidate of the same term its vote.
  pub restart_votes_again :
      (now : ℕ) (vote : RequestVoteArgs) (rf : Raft C)
      → IsDurable rf
      → vote.term ≡ suc rf.current_term
      → up_to_date vote (last_log_index_and_term rf) ≡ true
      → let started = (start_election now rf).1 in
        (started.current_term ≡ vote.term)
        × (started.voted_for ≡ pos rf.id)
        × ((request_vote now vote (restart started)).0.vote_granted ≡ true)
  unfolding make request_vote start_election last_log_index_and_term
  restart_votes_again now vote rf v t u = ground arith
