-- ===== src/Raft/TwoLeaders.antt =====
-- Votes that arrive late (internal/raft/chunab.go): the handler of a reply does not ask whether the node is still
-- in the term of that election, so votes of one term make a leader of a later term.
use raft_in_motion.Prelude.{
  ℕ, suc, ◌≡◌, refl, ap, sym, ◌∙◌, true, none, some, [], ◌∷◌, length, arith,
}
use raft_in_motion.Prelude.Int.{pos}
use raft_in_motion.Raft.Votes.{granted}
use raft_in_motion.Raft.{Raft, candidate, leader, become_follower}
use raft_in_motion.Raft.RequestVote.{RequestVoteArgs, RequestVoteReply, request_vote}
use raft_in_motion.Raft.Leader.{
  Election, start_election, start_leader, vote_reply, count_votes, vote_args,
}

-- A vote granted in the election's term.
abbrev IsVote : Election → RequestVoteReply → Type 0
IsVote e reply = (reply.term ≡ e.saved_current_term) × (reply.vote_granted ≡ true)

module _ {C : Type 0} where
  -- The election with one more reply, which is not the last.
  vote_reply-more :
      (now : ℕ) (reply : RequestVoteReply) (e : Election) (rf : Raft C)
      → rf.state ≡ candidate
      → IsVote e reply
      → e.replies_needed ≡ 2
      → let after = vote_reply now (some reply) e rf in
        (after.1 ≡ rf)
        × (after.0.replies_needed ≡ 1)
        × (after.0.votes_received ≡ suc e.votes_received)
        × (after.0.saved_current_term ≡ e.saved_current_term)
  unfolding vote_reply
  vote_reply-more now reply e rf c v n = ground (arith, c, v, n)

  vote_reply-lost :
      (now : ℕ) (e : Election) (rf : Raft C)
      → e.replies_needed ≡ 2
      → let after = vote_reply now none e rf in
        (after.1 ≡ rf)
        × (after.0.replies_needed ≡ 1)
        × (after.0.votes_received ≡ e.votes_received)
        × (after.0.saved_current_term ≡ e.saved_current_term)
  unfolding vote_reply
  vote_reply-lost now e rf n = ground (arith, n)

  vote_reply-wins :
      (now : ℕ) (reply : RequestVoteReply) (e : Election) (rf : Raft C)
      → rf.state ≡ candidate
      → IsVote e reply
      → e.replies_needed ≡ 1
      → length rf.peer_ids ≡ 2
      → let after = (vote_reply now (some reply) e rf).1 in
        (after.state ≡ leader) × (after.current_term ≡ rf.current_term) × (after.id ≡ rf.id)
  unfolding vote_reply start_leader
  vote_reply-wins now reply e rf c v n p = ground (arith, c, v, n, p)

  request_vote-granted :
      (now : ℕ) (args : RequestVoteArgs) (rf : Raft C)
      → (request_vote now args rf).0.vote_granted ≡ true
      → let (reply, after) = request_vote now args rf in
        (reply.term ≡ args.term)
        × (after.current_term ≡ args.term)
        × (after.peer_ids ≡ rf.peer_ids)
        × (after.id ≡ rf.id)
  unfolding request_vote become_follower
  request_vote-granted now args rf h = ground (arith, h)

  -- Leader in its term, as the same node.
  abbrev Won : Raft C → Raft C → Type 0
  Won before after =
      (after.state ≡ leader) × (after.current_term ≡ before.current_term) × (after.id ≡ before.id)

  last_vote_wins :
      (now : ℕ) (reply : RequestVoteReply) (e next : Election) (rf same : Raft C)
      → same ≡ rf
      → next.replies_needed ≡ 1
      → next.saved_current_term ≡ e.saved_current_term
      → rf.state ≡ candidate
      → length rf.peer_ids ≡ 2
      → IsVote e reply
      → Won rf (vote_reply now (some reply) next same).1
  last_vote_wins now reply e next rf same s n t c p v =
      let (wins, term, id) =
        vote_reply-wins now reply next same (ap (λ r. r.state) s ∙ c) (v.0 ∙ sym t, v.1) n
          (ap (λ r. length r.peer_ids) s ∙ p) in
      (wins, term ∙ ap (λ r. r.current_term) s, id ∙ ap (λ r. r.id) s)

  two_votes_win :
      (now : ℕ) (x y : RequestVoteReply) (e : Election) (rf : Raft C)
      → rf.state ≡ candidate
      → length rf.peer_ids ≡ 2
      → e.replies_needed ≡ 2
      → IsVote e x
      → IsVote e y
      → Won rf (count_votes now (some x ∷ some y ∷ []) (e, rf)).1
  unfolding count_votes
  two_votes_win now x y e rf c p n v w =
      let after = vote_reply now (some x) e rf in
      let (same, needed, votes, term) = vote_reply-more now x e rf c v n in
      last_vote_wins now y e after.0 rf after.1 same needed term c p w

  one_vote_wins :
      (now : ℕ) (y : RequestVoteReply) (e : Election) (rf : Raft C)
      → rf.state ≡ candidate
      → length rf.peer_ids ≡ 2
      → e.replies_needed ≡ 2
      → IsVote e y
      → Won rf (count_votes now (none ∷ some y ∷ []) (e, rf)).1
  unfolding count_votes
  one_vote_wins now y e rf c p n w =
      let after = vote_reply now none e rf in
      let (same, needed, votes, term) = vote_reply-lost now e rf n in
      last_vote_wins now y e after.0 rf after.1 same needed term c p w

  -- Two leaders in one term. Of nodes with two peers, b and c vote for a, but their replies are late: a's timer
  -- runs out and it stands again, in the next term; c stands after its vote, gets the vote of b while its call
  -- to the other peer fails, and is a leader. Then a gets the replies to its first election, and is a leader of
  -- the same term, in which both b and c have voted for c.
  pub two_leaders :
      (now later : ℕ) (a b c : Raft C)
      → length a.peer_ids ≡ 2
      → length c.peer_ids ≡ 2
      → let first = start_election now a in
        let asked = vote_args first.0 first.1 in
        let from_b = request_vote now asked b in
        let from_c = request_vote now asked c in
        let second = start_election later first.1 in
        let other = start_election later from_c.1 in
        let again = request_vote later (vote_args other.0 other.1) from_b.1 in
        from_b.0.vote_granted ≡ true
        → from_c.0.vote_granted ≡ true
        → again.0.vote_granted ≡ true
        → let one =
            (count_votes later (some from_b.0 ∷ some from_c.0 ∷ []) (first.0, second.1)).1 in
          let two = (count_votes later (none ∷ some again.0 ∷ []) other).1 in
          ((one.state ≡ leader) × (one.id ≡ a.id))
          × ((two.state ≡ leader) × (two.id ≡ c.id))
          × (one.current_term ≡ two.current_term)
          × ((again.1.current_term ≡ one.current_term) × (again.1.voted_for ≡ pos c.id))
          × ((other.1.current_term ≡ one.current_term) × (other.1.voted_for ≡ pos c.id))
  unfolding start_election vote_args
  two_leaders now later a b c pa pc vb vc va =
      let first = start_election now a in
      let asked = vote_args first.0 first.1 in
      let from_b = request_vote now asked b in
      let from_c = request_vote now asked c in
      let second = start_election later first.1 in
      let other = start_election later from_c.1 in
      let asked_again = vote_args other.0 other.1 in
      let again = request_vote later asked_again from_b.1 in
      let b_first = request_vote-granted now asked b vb in
      let (c_reply, c_term, c_peers, c_id) = request_vote-granted now asked c vc in
      let b_again = request_vote-granted later asked_again from_b.1 va in
      let peers = ap length c_peers ∙ pc in
      let (one, one_term, one_id) =
        two_votes_win later from_b.0 from_c.0 first.0 second.1 refl pa pa (b_first.0, vb)
          (c_reply, vc) in
      let (two, two_term, two_id) =
        one_vote_wins later again.0 other.0 other.1 refl peers peers (b_again.0, va) in
      (
        (one, one_id),
        (two, two_id ∙ c_id),
        one_term ∙ sym (two_term ∙ ap suc c_term),
        (
          b_again.1 ∙ ap suc c_term ∙ sym one_term,
          (granted later asked_again from_b.1 va).1 ∙ ap pos c_id,
        ),
        (ap suc c_term ∙ sym one_term, ap pos c_id),
      )
