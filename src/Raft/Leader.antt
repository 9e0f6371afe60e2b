-- ===== src/Raft/Leader.antt =====
-- internal/raft/chunab.go, heartbeat.go and raft.go: an election from its start to its last reply, and
-- a leader's AppendEntries calls with what it does on each reply. The calls of peers run in
-- goroutines, each of which holds the lock while it handles its reply, so replies are handled one
-- after the other in any order; `none` is a call that returned an error.
use raft_in_motion.Prelude.{
  ℕ, suc, ◌+◌, ◌-◌, ◌*◌, ltb, ◌==◌, Bool, true, false, ◌&&◌, Option, none, some, List, [], ◌∷◌,
  length, drop, get_elem?, has, if◌then◌else◌,
}
use raft_in_motion.Prelude.Int.{ℤ, pos, negsuc, int_eq, int_leb, minus_one, pred_int}
use raft_in_motion.Raft.{
  Raft, RfState, LogEntry, candidate, leader, is_leader, become_follower, last_log_index_and_term,
}
use raft_in_motion.Raft.RequestVote.{RequestVoteArgs, RequestVoteReply}
use raft_in_motion.Raft.AppendEntries.{AppendEntriesArgs, AppendEntriesReply}

abbrev pub is_candidate : RfState → Bool
is_candidate candidate = true
is_candidate _ = false

-- The variables that the goroutines of one election share.
pub record Election : Type 0 where
  pub saved_current_term : ℕ
  pub votes_received : ℕ
  pub replies_needed : ℕ

abbrev pub match_count : ℕ → (ℕ → ℤ) → List ℕ → ℕ
match_count i match_index [] = 0
match_count i match_index (p ∷ rest) =
    let n = match_count i match_index rest in if int_leb (pos i) (match_index p) then suc n else n

-- commitIndex + 1
abbrev pub after : ℤ → ℕ
after (pos n) = suc n
after (negsuc k) = 0

abbrev pub set_at : {A : Type 0} → ℕ → A → (ℕ → A) → ℕ → A
set_at p a f q = if p == q then a else f q

module _ {C : Type 0} where
  unfoldable pub start_election : ℕ → Raft C → Election × Raft C
  start_election now rf = (
    record {
      saved_current_term = suc rf.current_term;
      votes_received = 0;
      replies_needed = length rf.peer_ids;
    },
    record rf {
      state = candidate;
      current_term = suc rf.current_term;
      election_reset_event = now;
      voted_for = pos rf.id;
      election_timers = suc rf.election_timers;
    },
  )

  unfoldable pub start_leader : Raft C → Raft C
  start_leader rf = record rf {
    state = leader;
    next_index = λ p. if has p rf.peer_ids then length rf.log else rf.next_index p;
    match_index = λ p. if has p rf.peer_ids then minus_one else rf.match_index p;
  }

  -- A vote's reply, before the last one is counted.
  abbrev pub count_vote : ℕ → Option RequestVoteReply → Election → Raft C → Election × Raft C
  count_vote now none e rf = (e, rf)
  count_vote now (some reply) e rf =
      if is_candidate rf.state
      then (if ltb e.saved_current_term reply.term
          then (e, become_follower now reply.term rf)
          else (if (reply.term == e.saved_current_term) && reply.vote_granted
              then (record e { votes_received = suc e.votes_received }, rf)
              else (e, rf)))
      else (e, rf)

  abbrev restart_timer : Raft C → Raft C
  restart_timer rf = record rf { election_timers = suc rf.election_timers }

  -- if repliesNeeded == 0
  abbrev pub finish : Election → Raft C → Election × Raft C
  finish e rf =
      let own = record e { votes_received = suc e.votes_received } in
      if e.replies_needed == 0
      then (if is_candidate rf.state
          then (if ltb (length rf.peer_ids + 1) (own.votes_received * 2)
              then (own, start_leader rf)
              else (own, restart_timer rf))
          else (own, restart_timer rf))
      else (e, rf)

  unfoldable pub vote_reply : ℕ → Option RequestVoteReply → Election → Raft C → Election × Raft C
  unfolding become_follower start_leader
  vote_reply now reply e rf =
      let waiting = record e { replies_needed = e.replies_needed - 1 } in
      let (counted, rf2) = count_vote now reply waiting rf in finish counted rf2

  -- The replies of an election, one after the other.
  unfoldable pub count_votes :
      ℕ → List (Option RequestVoteReply) → Election × Raft C → Election × Raft C
  unfolding vote_reply
  count_votes now [] (e, rf) = (e, rf)
  count_votes now (reply ∷ rest) (e, rf) = count_votes now rest (vote_reply now reply e rf)

  -- What a candidate asks its peers.
  unfoldable pub vote_args : Election → Raft C → RequestVoteArgs
  unfolding last_log_index_and_term
  vote_args e rf =
      let (index, term) = last_log_index_and_term rf in
      record {
        term = e.saved_current_term;
        candidate_id = rf.id;
        last_log_index = index;
        last_log_term = term;
      }

  -- The term before the entries that are sent; `none` is an index out of range.
  abbrev pub prev_term : ℤ → List (LogEntry C) → Option ℤ
  prev_term (negsuc k) log = some minus_one
  prev_term (pos n) log = elim (get_elem? log n) [
    | none ↦ none
    | some entry ↦ some (pos entry.term)
  ]

  abbrev args_with : Option ℤ → ℕ → ℕ → Raft C → Option (AppendEntriesArgs C)
  args_with none saved peer rf = none
  args_with (some term) saved peer rf = some (record {
    term = saved;
    leader_id = rf.id;
    prev_log_index = pred_int (rf.next_index peer);
    prev_log_term = term;
    entries = drop (rf.next_index peer) rf.log;
    leader_commit = rf.commit_index;
  })

  -- The arguments for a peer, at the term that the round of heartbeats was started in.
  unfoldable pub heartbeat_args : ℕ → ℕ → Raft C → Option (AppendEntriesArgs C)
  heartbeat_args saved peer rf =
      args_with (prev_term (pred_int (rf.next_index peer)) rf.log) saved peer rf

  -- The loop over the log from index i, with the commit index so far.
  abbrev pub advance : ℕ → List (LogEntry C) → ℤ → Raft C → ℤ
  advance i [] commit rf = commit
  advance i (entry ∷ rest) commit rf =
      let replicated =
        ltb (length rf.peer_ids + 1) ((match_count i rf.match_index rf.peer_ids + 1) * 2) in
      advance (suc i) rest (if (entry.term == rf.current_term) && replicated then pos i else commit)
        rf

  unfoldable pub advance_commit : Raft C → Raft C
  advance_commit rf =
      let start = after rf.commit_index in
      let commit = advance start (drop start rf.log) rf.commit_index rf in
      if int_eq commit rf.commit_index then rf else record rf {
        commit_index = commit;
        commit_ready = suc rf.commit_ready;
        trigger_ae = suc rf.trigger_ae;
      }

  -- The last index of an entry with this term, searched from the end.
  abbrev pub last_index_of : ℕ → ℤ → List (LogEntry C) → Option ℕ
  last_index_of i term [] = none
  last_index_of i term (entry ∷ rest) = elim (last_index_of (suc i) term rest) [
    | some j ↦ some j
    | none ↦ if int_eq (pos entry.term) term then some i else none
  ]

  abbrev pub back_up : AppendEntriesReply → List (LogEntry C) → ℕ
  back_up reply log = elim (last_index_of 0 reply.conflict_term log) [
    | none ↦ reply.conflict_index
    | some j ↦ if int_leb (pos 0) reply.conflict_term then suc j else reply.conflict_index
  ]

  -- The reply of a peer to the entries from nextIndexForPeer on, of which there were `count`.
  unfoldable pub entries_reply : ℕ → ℕ → ℕ → ℕ → ℕ → AppendEntriesReply → Raft C → Raft C
  unfolding become_follower advance_commit
  entries_reply now saved peer next_for_peer count reply rf =
      let next = next_for_peer + count in
      let replicated = advance_commit (record rf {
        next_index = set_at peer next rf.next_index;
        match_index = set_at peer (pred_int next) rf.match_index;
      }) in
      let backed_up = record rf { next_index = set_at peer (back_up reply rf.log) rf.next_index } in
      if ltb rf.current_term reply.term
      then become_follower now reply.term rf
      else (if is_leader rf.state && (saved == reply.term)
          then (if reply.success then replicated else backed_up)
          else rf)
