-- ===== src/Raft/Timer.antt =====
-- The election timer of internal/raft/chunab.go, Kill of internal/raft/raft.go, and the loop that a leader
-- runs. Times are in milliseconds; the timeout is a parameter, 150 to 299 there.
use raft_in_motion.Prelude.{
  ℕ, ◌-◌, ◌≤◌, ◌<◌, ◌≡◌, inl, inr, refl, leb, ◌==◌, Bool, false, not, ◌&&◌, Bool-cases, Option,
  none, some, List, [], ◌∷◌, arith, if◌then◌else◌,
}
use raft_in_motion.Prelude.Int.{minus_one}
use raft_in_motion.Raft.{
  Raft, follower, candidate, dead, is_leader, is_dead, is_follower, become_follower,
}
use raft_in_motion.Raft.RequestVote.{RequestVoteReply}
use raft_in_motion.Raft.AppendEntries.{AppendEntriesReply}
use raft_in_motion.Raft.Leader.{Election, start_election, vote_reply, entries_reply, is_candidate}

-- What a turn of the election timer does.
pub data TimerTurn (C : Type 0) : Type 0 where
  stops waits : TimerTurn C
  starts : Election → Raft C → TimerTurn C

-- The first time at which the timeout has passed since this event.
abbrev pub first_due : ℕ → ℕ → List ℕ → Option ℕ
first_due timeout event [] = none
first_due timeout event (now ∷ later) =
    let rest = first_due timeout event later in if leb timeout (now - event) then some now else rest

module _ {C : Type 0} where
  -- Kill. The channels that it closes are newCommitReadyChan and triggerAEChan.
  unfoldable pub kill : Raft C → Raft C
  kill rf = if is_dead rf.state then rf else record rf { state = dead }

  unfoldable pub report : Raft C → ℕ × ℕ × Bool
  report rf = (rf.id, rf.current_term, is_leader rf.state)

  -- The loop of runElectionTimer at a time, for a timer that was started in a term.
  unfoldable pub timer_turn : ℕ → ℕ → ℕ → Raft C → TimerTurn C
  unfolding start_election
  timer_turn timeout term_started now rf =
      let started = start_election now rf in
      if not (is_candidate rf.state) && not (is_follower rf.state)
      then stops
      else if not (term_started == rf.current_term)
      then stops
      else if leb timeout (now - rf.election_reset_event)
      then starts started.0 started.1
      else waits

  -- The ticks of a timer at these times, while nothing else happens to the node.
  abbrev pub run_timer : ℕ → ℕ → List ℕ → Raft C → TimerTurn C
  unfolding timer_turn
  run_timer timeout term_started [] rf = waits
  run_timer timeout term_started (now ∷ later) rf =
      let rest = run_timer timeout term_started later rf in
      elim (timer_turn timeout term_started now rf) [
        | stops ↦ stops
        | waits ↦ rest
        | starts e after ↦ starts e after
      ]

  -- Whether the loop of a leader sends heartbeats when its timer fires or it is triggered.
  unfoldable pub sends_heartbeats : Raft C → Bool
  sends_heartbeats rf = is_leader rf.state

  -- What a timer does that is due at this time, if at all.
  abbrev pub started_at : Option ℕ → Raft C → TimerTurn C
  unfolding start_election
  started_at none rf = waits
  started_at (some now) rf = starts (start_election now rf).0 (start_election now rf).1

  timer_turn_cases :
      (timeout now : ℕ) (later : List ℕ) (rf : Raft C)
      → is_leader rf.state ≡ false
      → is_dead rf.state ≡ false
      → timer_turn timeout rf.current_term now rf
        ≡ (if leb timeout (now - rf.election_reset_event) then started_at (some now) rf else waits)
  unfolding timer_turn started_at
  timer_turn_cases timeout now later rf l d = ground (arith, l, d)

  -- While nothing else happens to a follower or a candidate, the timer of its term starts an election at the
  -- first tick at which the timeout has passed since the last event that reset it, at no other, and not
  -- before.
  pub run_timer-first_due :
      (timeout : ℕ) (ticks : List ℕ) (rf : Raft C)
      → is_leader rf.state ≡ false
      → is_dead rf.state ≡ false
      → run_timer timeout rf.current_term ticks rf
        ≡ started_at (first_due timeout rf.election_reset_event ticks) rf
  unfolding run_timer started_at
  run_timer-first_due timeout [] rf l d = refl
  run_timer-first_due timeout (now ∷ later) rf l d =
      elim (Bool-cases (leb timeout (now - rf.election_reset_event))) [
        | inl due ↦ ground (arith, timer_turn_cases timeout now later rf l d, due)
        | inr early ↦ ground (
          arith,
          timer_turn_cases timeout now later rf l d,
          early,
          run_timer-first_due timeout later rf l d,
        )
      ]

  -- A node that dies, and then gets the reply to an AppendEntries call that it made as a leader, from a later
  -- term, is a follower again, whose timer starts an election as soon as its timeout passes.
  pub dead_node_revives :
      (now saved peer next count timeout later : ℕ) (reply : AppendEntriesReply) (rf : Raft C)
      → rf.current_term < reply.term
      → timeout ≤ later - now
      → let revived = entries_reply now saved peer next count reply (kill rf) in
        ((kill rf).state ≡ dead)
        × (revived.state ≡ follower)
        × (timer_turn timeout reply.term later revived
            ≡ starts (start_election later revived).0 (start_election later revived).1)
        × ((start_election later revived).1.state ≡ candidate)
  unfolding kill entries_reply become_follower timer_turn start_election
  dead_node_revives now saved peer next count timeout later reply rf newer due =
      (ground arith, ground (arith, newer), ground (arith, newer, due), refl)

  -- An answer to an old election takes a candidate back to an older term, with no vote in it: the handler
  -- compares the term of the reply with that of the election, and not with the node's own.
  pub term_goes_back :
      (now : ℕ) (e : Election) (reply : RequestVoteReply) (rf : Raft C)
      → rf.state ≡ candidate
      → e.saved_current_term < reply.term
      → reply.term < rf.current_term
      → let after = (vote_reply now (some reply) e rf).1 in
        (after.current_term < rf.current_term)
        × (after.voted_for ≡ minus_one)
        × (after.state ≡ follower)
  unfolding vote_reply become_follower
  term_goes_back now e reply rf c newer older = ground (arith, c, newer, older)
