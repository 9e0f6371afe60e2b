-- ===== src/Examples/Raft.antt =====
-- A cluster of three nodes at concrete inputs; the commands are numbers.
use raft_in_motion.Prelude.{ℕ, ◌≤◌, ◌≡◌, ◌⊎◌, refl, true, none, some, List, [], ◌∷◌, length, arith}
use raft_in_motion.Prelude.Int.{ℤ, pos, minus_one, pred_int}
use raft_in_motion.Raft.Trigger.{
  Sync, move, move_all, new_leader, triggers, submit_locks, submit_unlocks, submit_sends,
  timer_fires, reply_locks, reply_commits, reply_notifies, loop_locks, other_locks,
  leader_blocks_itself,
}
use raft_in_motion.Raft.{Raft, LogEntry, follower, candidate, leader, make, last_log_index_and_term}
use raft_in_motion.Raft.RequestVote.{RequestVoteArgs, up_to_date, request_vote}
use raft_in_motion.Raft.AppendEntries.{
  AppendEntriesArgs, AppendEntriesReply, reply_of, append_entries, follow, insert_entries,
}
use raft_in_motion.Raft.Leader.{
  start_election, count_votes, vote_args, heartbeat_args, entries_reply, advance_commit, after,
}
use raft_in_motion.Raft.Votes.{vote_all}
use raft_in_motion.Raft.TwoLeaders.{two_leaders}
use raft_in_motion.Raft.Elections.{
  Turn, asked, times_out, backers, backs, votes_for, take_turn, one_majority,
}
use raft_in_motion.Raft.Entries.{Follows, append_entries_stores}
use raft_in_motion.Raft.Followers.{
  appends, answer_all, empty_log_stays_empty, counted_but_not_stored, granted_after,
  candidate_votes_again,
}
use raft_in_motion.Raft.Commit.{Replicated, advance_commit-Replicated}
use raft_in_motion.Raft.Applied.{rounds, Delivered, rounds_deliver}
use raft_in_motion.Raft.Durable.{restart, IsDurable, answer_all-IsDurable, restart_votes_again}

abbrev entry : ℕ → ℕ → LogEntry ℕ
entry command term = record { command = command; term = term }

-- A node of term 1 that has stored what it has.
abbrev node : List (LogEntry ℕ) → Raft ℕ
node log = record {
  id = 0;
  peer_ids = 1 ∷ 2 ∷ [];
  current_term = 1;
  voted_for = minus_one;
  log = log;
  commit_index = minus_one;
  last_applied = minus_one;
  state = follower;
  election_reset_event = 0;
  next_index = λ p. 0;
  match_index = λ p. minus_one;
  storage = some (record { current_term = 1; voted_for = minus_one; log = log });
  commit_ready = 0;
  trigger_ae = 0;
  election_timers = 0;
}

abbrev asks : ℕ → ℕ → RequestVoteArgs
asks id term = record {
  term = term;
  candidate_id = id;
  last_log_index = pos 4;
  last_log_term = pos 1;
}

voted : (request_vote 5 (asks 1 2) (node [])).0.vote_granted ≡ true
unfolding request_vote last_log_index_and_term
voted = refl

voted_later :
    (request_vote 5
      (asks 1 2)
      (vote_all 5 (asks 2 2 ∷ []) (request_vote 5 (asks 1 2) (node [])).1)).0.vote_granted
    ≡ true
unfolding request_vote last_log_index_and_term
voted_later = refl

-- A candidate of term 1.
abbrev running : Raft ℕ
running = record (node []) { state = candidate; voted_for = pos 0 }

-- Node `id` of three, a follower with no log.
abbrev one_of_three : ℕ → List ℕ → Raft ℕ
one_of_three id peers = record (node []) { id = id; peer_ids = peers }

three_vote :
    let first = start_election 5 (one_of_three 0 (1 ∷ 2 ∷ [])) in
    let asked = vote_args first.0 first.1 in
    let from_b = request_vote 5 asked (one_of_three 1 (0 ∷ 2 ∷ [])) in
    let from_c = request_vote 5 asked (one_of_three 2 (0 ∷ 1 ∷ [])) in
    let other = start_election 9 from_c.1 in
    let again = request_vote 9 (vote_args other.0 other.1) from_b.1 in
    (from_b.0.vote_granted ≡ true) × (from_c.0.vote_granted ≡ true) × (again.0.vote_granted ≡ true)
unfolding start_election vote_args request_vote last_log_index_and_term
three_vote = (refl, refl, refl)

two_leaders_example :
    let a = one_of_three 0 (1 ∷ 2 ∷ []) in
    let first = start_election 5 a in
    let asked = vote_args first.0 first.1 in
    let from_b = request_vote 5 asked (one_of_three 1 (0 ∷ 2 ∷ [])) in
    let from_c = request_vote 5 asked (one_of_three 2 (0 ∷ 1 ∷ [])) in
    let second = start_election 9 first.1 in
    let other = start_election 9 from_c.1 in
    let again = request_vote 9 (vote_args other.0 other.1) from_b.1 in
    let one = (count_votes 9 (some from_b.0 ∷ some from_c.0 ∷ []) (first.0, second.1)).1 in
    let two = (count_votes 9 (none ∷ some again.0 ∷ []) other).1 in
    ((one.state ≡ leader) × (one.id ≡ 0))
    × ((two.state ≡ leader) × (two.id ≡ 2))
    × (one.current_term ≡ two.current_term)
    × ((again.1.current_term ≡ one.current_term) × (again.1.voted_for ≡ pos 2))
    × ((other.1.current_term ≡ one.current_term) × (other.1.voted_for ≡ pos 2))
two_leaders_example =
    two_leaders 5 9 (one_of_three 0 (1 ∷ 2 ∷ [])) (one_of_three 1 (0 ∷ 2 ∷ []))
      (one_of_three 2 (0 ∷ 1 ∷ [])) refl refl three_vote.0 three_vote.1 three_vote.2

-- Three nodes: node 0 stands, nodes 1 and 2 are asked by it, and node 2 by another before.
abbrev cluster : List (List Turn × Raft ℕ)
cluster =
    (times_out ∷ [], node [])
    ∷ (asked (asks 0 2) ∷ [], record (node []) { id = 1 })
    ∷ (asked (asks 7 2) ∷ asked (asks 0 2) ∷ [], record (node []) { id = 2 })
    ∷ []

elected : backers 5 2 0 cluster ≡ 2
unfolding backers backs votes_for take_turn request_vote start_election last_log_index_and_term
elected = refl

one_majority_example : (node []).id ≡ (asks 0 2).candidate_id
one_majority_example =
    one_majority 5 2 (node []).id (asks 0 2).candidate_id cluster (rw elected (omega arith))
      (rw elected (omega arith))

-- A leader of term 1 that has entries from index n on.
abbrev sends : ℤ → ℤ → List (LogEntry ℕ) → AppendEntriesArgs ℕ
sends prev prev_term entries = record {
  term = 1;
  leader_id = 1;
  prev_log_index = prev;
  prev_log_term = prev_term;
  entries = entries;
  leader_commit = minus_one;
}

abbrev three : List (LogEntry ℕ)
three = entry 7 0 ∷ entry 8 0 ∷ entry 9 0 ∷ []

abbrev sent : List (LogEntry ℕ)
sent = entry 8 0 ∷ entry 5 1 ∷ []

-- The node with three entries, after it has taken over the two that are sent.
abbrev updated : Raft ℕ
updated = record (node (entry 7 0 ∷ entry 8 0 ∷ entry 5 1 ∷ [])) { election_reset_event = 5 }

taken : append_entries 5 (sends (pos 0) (pos 0) sent) (node three) ≡ some (reply_of 1 true, updated)
unfolding append_entries follow insert_entries
taken = refl

append_entries_stores_example : Follows 0 sent three updated.log
append_entries_stores_example =
    append_entries_stores 5 0 (sends (pos 0) (pos 0) sent) (node three) updated (reply_of 1 true)
      refl taken refl

empty_log_stays_empty_example :
    (after : Raft ℕ) × (answer_all 5
        (appends (sends minus_one minus_one three) ∷ appends (sends (pos 0) (pos 0) sent) ∷ [])
        (node [])
      ≡ some after)
    × (after.log ≡ [])
empty_log_stays_empty_example =
    empty_log_stays_empty 5
      (appends (sends minus_one minus_one three) ∷ appends (sends (pos 0) (pos 0) sent) ∷ [])
      (node []) refl refl

abbrev leading : Raft ℕ
leading = record (node three) { state = leader; match_index = λ p. pos 1 }

sent_all :
    heartbeat_args 1 1 leading ≡ some (record (sends minus_one minus_one three) { leader_id = 0 })
unfolding heartbeat_args
sent_all = refl

counted_but_not_stored_example :
    let args = record (sends minus_one minus_one three) { leader_id = 0 } in
    (reply : AppendEntriesReply) × (after : Raft ℕ) × (append_entries 5 args (node [])
      ≡ some (reply, after))
    × (args.entries ≡ three)
    × (after.log ≡ [])
    × ((entries_reply 5 1 1 0 (length args.entries) reply leading).match_index 1 ≡ pred_int 3)
counted_but_not_stored_example =
    counted_but_not_stored 5 1 (record (sends minus_one minus_one three) { leader_id = 0 }) leading
      (node []) refl refl sent_all refl refl (omega arith)

up_to_date-running : up_to_date (asks 2 1) (last_log_index_and_term running) ≡ true
unfolding last_log_index_and_term
up_to_date-running = refl

up_to_date_empty : up_to_date (asks 1 2) (last_log_index_and_term (node [])) ≡ true
unfolding last_log_index_and_term
up_to_date_empty = refl

candidate_votes_again_example :
    granted_after 5 (asks 2 1) (append_entries 5 (sends minus_one minus_one []) running) ≡ true
candidate_votes_again_example =
    candidate_votes_again 5 (sends minus_one minus_one []) (asks 2 1) running refl refl refl refl
      up_to_date-running

-- A leader whose entry of its own term both peers have.
abbrev ready : Raft ℕ
ready = record (node (entry 7 1 ∷ [])) { state = leader; match_index = λ p. pos 0 }

advance_commit-Replicated_example :
    (advance_commit ready ≡ ready)
    ⊎ ((i : ℕ) × ((advance_commit ready).commit_index ≡ pos i)
        × (after minus_one ≤ i)
        × Replicated ready i
        × ((advance_commit ready).commit_ready ≡ 1)
        × ((advance_commit ready).trigger_ae ≡ 1))
advance_commit-Replicated_example = advance_commit-Replicated ready

rounds_deliver_example :
    Delivered
      (node three)
      (rounds (pos 0 ∷ pos 2 ∷ []) (node three)).0
      (rounds (pos 0 ∷ pos 2 ∷ []) (node three)).1
rounds_deliver_example = rounds_deliver (pos 0 ∷ pos 2 ∷ []) (node three) (omega arith) refl

node-IsDurable : (log : List (LogEntry ℕ)) → IsDurable (node log)
unfolding make
node-IsDurable log = (refl, refl, refl)

answered_once : answer_all 5 (appends (sends (pos 0) (pos 0) sent) ∷ []) (node three) ≡ some updated
unfolding append_entries follow insert_entries
answered_once = refl

answer_all-IsDurable_example : IsDurable updated
answer_all-IsDurable_example =
    answer_all-IsDurable 5 (appends (sends (pos 0) (pos 0) sent) ∷ []) (node three) updated
      (node-IsDurable three) answered_once

restart_votes_again_example :
    let started = (start_election 5 (node [])).1 in
    (started.current_term ≡ 2)
    × (started.voted_for ≡ pos 0)
    × ((request_vote 5 (asks 1 2) (restart started)).0.vote_granted ≡ true)
restart_votes_again_example =
    restart_votes_again 5 (asks 1 2) (node []) (node-IsDurable []) refl up_to_date_empty

-- A command is submitted while the leader's loop goes for the lock.
abbrev submitted_once : Sync
unfolding move move_all
submitted_once =
    move_all (submit_locks ∷ submit_unlocks ∷ timer_fires ∷ submit_sends ∷ []) new_leader

leader_blocks_itself_example :
    (move_all
      (reply_locks ∷ reply_commits ∷ reply_notifies ∷ loop_locks ∷ other_locks ∷ [])
      submitted_once).holder
    ≡ triggers
unfolding move move_all submitted_once
leader_blocks_itself_example =
    leader_blocks_itself (loop_locks ∷ other_locks ∷ []) submitted_once refl refl refl (omega arith)
