-- ===== src/Raft/Followers.antt =====
-- What AppendEntries does to a node with an empty log, and to a candidate of the same term.
use raft_in_motion.Prelude.{
  ℕ, zero, suc, ◌+◌, ◌≤◌, ◌≡◌, refl, ap, ◌∙◌, Bool, true, false, not, Option, none, some, List, [],
  ◌∷◌, any, any-false, length, arith,
}
use raft_in_motion.Prelude.Int.{ℤ, pos, negsuc, int_leb, minus_one, pred_int}
use raft_in_motion.Raft.{Raft, LogEntry, candidate, leader, is_dead, last_log_index_and_term}
use raft_in_motion.Raft.RequestVote.{RequestVoteArgs, up_to_date, request_vote}
use raft_in_motion.Raft.AppendEntries.{
  AppendEntriesArgs, AppendEntriesReply, append_entries, follow,
}
use raft_in_motion.Raft.Leader.{heartbeat_args, entries_reply, advance_commit, set_at}

-- The calls that a node answers.
pub data Rpc (C : Type 0) : Type 0 where
  votes : RequestVoteArgs → Rpc C
  appends : AppendEntriesArgs C → Rpc C

module _ {C : Type 0} where
  abbrev pub answered : Option (AppendEntriesReply × Raft C) → Option (Raft C)
  answered none = none
  answered (some (reply, rf)) = some rf

  abbrev pub answer : ℕ → Rpc C → Raft C → Option (Raft C)
  answer now (votes args) rf = some (request_vote now args rf).1
  answer now (appends args) rf = answered (append_entries now args rf)

  abbrev pub answer_rest : (Raft C → Option (Raft C)) → Option (Raft C) → Option (Raft C)
  answer_rest rest none = none
  answer_rest rest (some rf) = rest rf

  abbrev pub answer_all : ℕ → List (Rpc C) → Raft C → Option (Raft C)
  answer_all now [] rf = some rf
  answer_all now (rpc ∷ rest) rf = answer_rest (answer_all now rest) (answer now rpc rf)

  -- An index below -1, which no leader sends.
  abbrev pub is_malformed : Rpc C → Bool
  is_malformed (votes args) = false
  is_malformed (appends args) = not (int_leb minus_one args.prev_log_index)

  votes-log :
      (now : ℕ) (args : RequestVoteArgs) (rf : Raft C) → (request_vote now args rf).1.log ≡ rf.log
  unfolding request_vote
  votes-log now args rf = ground arith

  abbrev log_of : Option (Raft C) → Option (List (LogEntry C))
  log_of none = none
  log_of (some rf) = some rf.log

  appends-empty :
      (now : ℕ) (args : AppendEntriesArgs C) (prev : ℤ) (rf : Raft C)
      → args.prev_log_index ≡ prev
      → int_leb minus_one prev ≡ true
      → rf.log ≡ []
      → log_of (answered (append_entries now args rf)) ≡ some []
  unfolding append_entries follow
  appends-empty now args (pos n) rf at h e = ground arith
  appends-empty now args (negsuc zero) rf at h e = ground arith
  appends-empty now args (negsuc (suc k)) rf at h e = absurd (ground arith)

  answer-empty :
      (now : ℕ) (rpc : Rpc C) (rf : Raft C)
      → is_malformed rpc ≡ false
      → rf.log ≡ []
      → log_of (answer now rpc rf) ≡ some []
  answer-empty now (votes args) rf m e = ap some (votes-log now args rf ∙ e)
  answer-empty now (appends args) rf m e =
      appends-empty now args args.prev_log_index rf refl (ground arith) e

  log_of-some :
      (o : Option (Raft C))
      → log_of o ≡ some []
      → (after : Raft C) × (o ≡ some after) × (after.log ≡ [])
  log_of-some none h = cc
  log_of-some (some after) h = (after, refl, ground arith)

  -- A node with an empty log never gets an entry: through any calls of RequestVote and AppendEntries
  -- with indices from -1 on, whatever entries they carry, it answers them all and its log stays empty.
  pub empty_log_stays_empty :
      (now : ℕ) (rpcs : List (Rpc C)) (rf : Raft C)
      → any is_malformed rpcs ≡ false
      → rf.log ≡ []
      → (after : Raft C) × (answer_all now rpcs rf ≡ some after) × (after.log ≡ [])
  empty_log_stays_empty now [] rf m e = (rf, refl, e)
  empty_log_stays_empty now (rpc ∷ rest) rf m e =
      let (here, later) = any-false is_malformed rpc rest m in
      let (next, answers, empty) =
        log_of-some (answer now rpc rf) (answer-empty now rpc rf here e) in
      let (after, all, stays) = empty_log_stays_empty now rest next later empty in
      (after, ap (answer_rest (answer_all now rest)) answers ∙ all, stays)

  abbrev summary_of : Option (AppendEntriesReply × Raft C) → Option (Bool × ℕ × List (LogEntry C))
  summary_of none = none
  summary_of (some (reply, after)) = some (reply.success, reply.term, after.log)

  summary :
      (now : ℕ) (args : AppendEntriesArgs C) (f : Raft C)
      → args.prev_log_index ≡ minus_one
      → f.log ≡ []
      → is_dead f.state ≡ false
      → f.current_term ≤ args.term
      → summary_of (append_entries now args f) ≡ some (true, args.term, [])
  unfolding append_entries follow
  summary now args f p e live t = ground arith

  from_start_args :
      (saved peer : ℕ) (args : AppendEntriesArgs C) (rf : Raft C)
      → rf.next_index peer ≡ 0
      → heartbeat_args saved peer rf ≡ some args
      → (args.entries ≡ rf.log) × (args.prev_log_index ≡ minus_one) × (args.term ≡ saved)
  unfolding heartbeat_args
  from_start_args saved peer args rf n sent = ground arith

  advance_commit-match :
      (rf : Raft C) (p : ℕ) → (advance_commit rf).match_index p ≡ rf.match_index p
  unfolding advance_commit
  advance_commit-match rf p = ground arith

  counts :
      (now saved peer count : ℕ) (reply : AppendEntriesReply) (rf : Raft C)
      → rf.state ≡ leader
      → saved ≡ rf.current_term
      → reply.term ≡ rf.current_term
      → reply.success ≡ true
      → (entries_reply now saved peer 0 count reply rf).match_index peer ≡ pred_int count
  unfolding entries_reply
  counts now saved peer count reply rf l s t ok =
      let stored : Raft C = record rf {
        next_index = set_at peer (0 + count) rf.next_index;
        match_index = set_at peer (pred_int (0 + count)) rf.match_index;
      } in
      let same : 0 + count ≡ count = omega arith in
      let at : set_at peer (pred_int (0 + count)) rf.match_index peer ≡ pred_int (0 + count) =
        ground arith in
      let replicated : entries_reply now saved peer 0 count reply rf ≡ advance_commit stored =
        ground arith in
      ap (λ r. r.match_index peer) replicated
      ∙ advance_commit-match stored peer
      ∙ at
      ∙ ap pred_int same

  acknowledges :
      (now : ℕ) (args : AppendEntriesArgs C) (f : Raft C)
      → args.prev_log_index ≡ minus_one
      → f.log ≡ []
      → is_dead f.state ≡ false
      → f.current_term ≤ args.term
      → (reply : AppendEntriesReply) × (after : Raft C) × (append_entries now args f
          ≡ some (reply, after))
        × (reply.success ≡ true)
        × (reply.term ≡ args.term)
        × (after.log ≡ [])
  acknowledges now args f p e live t =
      parts (append_entries now args f) (summary now args f p e live t)
    where
      parts :
          (o : Option (AppendEntriesReply × Raft C))
          → summary_of o ≡ some (true, args.term, [])
          → (reply : AppendEntriesReply) × (after : Raft C) × (o ≡ some (reply, after))
            × (reply.success ≡ true)
            × (reply.term ≡ args.term)
            × (after.log ≡ [])
      parts none h = cc
      parts (some (reply, after)) h = (reply, after, refl, ground arith, ground arith, ground arith)

  -- A leader sends its whole log to a peer with an empty log that is in its term or an earlier one:
  -- the peer keeps an empty log, and the leader counts all the entries as stored there.
  pub counted_but_not_stored :
      (now peer : ℕ) (args : AppendEntriesArgs C) (rf f : Raft C)
      → rf.state ≡ leader
      → rf.next_index peer ≡ 0
      → heartbeat_args rf.current_term peer rf ≡ some args
      → f.log ≡ []
      → is_dead f.state ≡ false
      → f.current_term ≤ rf.current_term
      → (reply : AppendEntriesReply) × (after : Raft C) × (append_entries now args f
          ≡ some (reply, after))
        × (args.entries ≡ rf.log)
        × (after.log ≡ [])
        × ((entries_reply now rf.current_term peer 0 (length args.entries) reply rf).match_index
              peer
            ≡ pred_int (length rf.log))
  counted_but_not_stored now peer args rf f l n sent e live t =
      let (all, start, term) = from_start_args rf.current_term peer args rf n sent in
      let (reply, after, answers, ok, at, empty) =
        acknowledges now args f start e live (omega arith) in
      (
        reply,
        after,
        answers,
        all,
        empty,
        counts now rf.current_term peer (length args.entries) reply rf l refl (at ∙ term) ok
            ∙ ap (λ l. pred_int (length l)) all,
      )

  -- What becomes of a request for a vote after the answer.
  abbrev pub granted_after : ℕ → RequestVoteArgs → Option (AppendEntriesReply × Raft C) → Bool
  granted_after now vote none = false
  granted_after now vote (some (reply, after)) = (request_vote now vote after).0.vote_granted

  -- A candidate has voted for itself. When a leader of the same term reaches it with entries from the
  -- start, it steps down and forgets its vote: it then grants another candidate, whose log is up to
  -- date, a vote in the same term.
  pub candidate_votes_again :
      (now : ℕ) (args : AppendEntriesArgs C) (vote : RequestVoteArgs) (rf : Raft C)
      → rf.state ≡ candidate
      → args.term ≡ rf.current_term
      → args.prev_log_index ≡ minus_one
      → vote.term ≡ rf.current_term
      → up_to_date vote (last_log_index_and_term rf) ≡ true
      → granted_after now vote (append_entries now args rf) ≡ true
  unfolding append_entries follow request_vote last_log_index_and_term
  candidate_votes_again now args vote rf c t p v u = ground arith
