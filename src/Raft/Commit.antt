-- ===== src/Raft/Commit.antt =====
-- The commit index of a leader, and commitChanSender of internal/raft/heartbeat.go, which delivers the
-- committed entries.
use raft_in_motion.Prelude.{
  ℕ, zero, suc, ◌+◌, ◌-◌, ◌*◌, ◌≤◌, ◌<◌, ◌≡◌, ◌⊎◌, inl, inr, refl, ltb, ◌==◌, Bool, true, false,
  ◌&&◌, some, List, [], ◌∷◌, take, drop, length, get_elem?, arith, if◌then◌else◌,
}
use raft_in_motion.Prelude.Int.{ℤ, pos, int_eq_iff, int_ltb}
use raft_in_motion.Raft.{Raft, LogEntry}
use raft_in_motion.Raft.Leader.{match_count, after, advance, advance_commit}

pub record CommitEntry (C : Type 0) : Type 0 where
  pub command : C
  pub index : ℕ
  pub term : ℕ

module _ {C : Type 0} where
  -- The entries from index i on, as they are sent in this term.
  abbrev pub numbered : ℕ → ℕ → List (LogEntry C) → List (CommitEntry C)
  numbered i term [] = []
  numbered i term (e ∷ rest) =
      record { command = e.command; index = i; term = term } ∷ numbered (suc i) term rest

  -- One signal on newCommitReadyChan: what is sent on commitChan. The slice ends within the log, since
  -- the commit index does.
  unfoldable pub send_committed : Raft C → List (CommitEntry C) × Raft C
  send_committed rf =
      let from = after rf.last_applied in
      if int_ltb rf.last_applied rf.commit_index
      then (
        numbered from rf.current_term (take (after rf.commit_index - from) (drop from rf.log)),
        record rf { last_applied = rf.commit_index },
      )
      else ([], rf)

  -- Entry i is of the leader's term, and a majority of the cluster, the leader included, has it by
  -- matchIndex.
  abbrev pub Replicated : Raft C → ℕ → Type 0
  Replicated rf i =
      (e : LogEntry C) × (get_elem? rf.log i ≡ some e)
      × (e.term ≡ rf.current_term)
      × (length rf.peer_ids + 1 < (match_count i rf.match_index rf.peer_ids + 1) * 2)

  Advanced : Raft C → ℤ → ℤ → Type 0
  Advanced rf old new = (new ≡ old) ⊎ ((i : ℕ) × (new ≡ pos i) × (after old ≤ i) × Replicated rf i)

  drop_cons :
      (i : ℕ) (log rest : List (LogEntry C)) (e : LogEntry C)
      → drop i log ≡ e ∷ rest
      → (get_elem? log i ≡ some e) × (drop (suc i) log ≡ rest)
  drop_cons zero [] rest e h = cc
  drop_cons zero (f ∷ log) rest e h = ground arith
  drop_cons (suc i) [] rest e h = cc
  drop_cons (suc i) (f ∷ log) rest e h = drop_cons i log rest e h

  advance_once :
      (i : ℕ) (e : LogEntry C) (b : Bool) (old commit : ℤ) (rf : Raft C)
      → get_elem? rf.log i ≡ some e
      → b ≡ (
          (e.term == rf.current_term)
          && ltb (length rf.peer_ids + 1) ((match_count i rf.match_index rf.peer_ids + 1) * 2))
      → after old ≤ i
      → Advanced rf old commit
      → Advanced rf old (if b then pos i else commit)
  unfolding Advanced
  advance_once i e true old commit rf at h a v =
      inr (i, refl, a, (e, at, ground arith, ground arith))
  advance_once i e false old commit rf at h a v = v

  advance_replicated :
      (i : ℕ) (rest : List (LogEntry C)) (old commit : ℤ) (rf : Raft C)
      → drop i rf.log ≡ rest
      → after old ≤ i
      → Advanced rf old commit
      → Advanced rf old (advance i rest commit rf)
  advance_replicated i [] old commit rf d a h = h
  advance_replicated i (e ∷ rest) old commit rf d a h =
      let (at, next) = drop_cons i rf.log rest e d in
      advance_replicated (suc i) rest old _ rf next (omega arith)
        (advance_once i e _ old commit rf at refl a h)

  -- A leader's commit index stays, or it moves forward to an entry of its own term that a majority of
  -- the cluster has by matchIndex; in that case the senders of commits and of entries are signalled.
  pub advance_commit-Replicated :
      (rf : Raft C)
      → (advance_commit rf ≡ rf)
        ⊎ ((i : ℕ) × ((advance_commit rf).commit_index ≡ pos i)
            × (after rf.commit_index ≤ i)
            × Replicated rf i
            × ((advance_commit rf).commit_ready ≡ suc rf.commit_ready)
            × ((advance_commit rf).trigger_ae ≡ suc rf.trigger_ae))
  unfolding advance_commit Advanced
  advance_commit-Replicated rf =
      let start = after rf.commit_index in
      elim (advance_replicated start (drop start rf.log) rf.commit_index rf.commit_index rf refl
        (omega arith) (inl refl)) [
          | inl same ↦ inl (
              ground (
                arith,
                int_eq_iff (advance start (drop start rf.log) rf.commit_index rf) rf.commit_index,
              ))
          | inr (i, at, forward, there) ↦ inr (
            i,
            ground (arith, int_eq_iff (pos i) rf.commit_index),
            forward,
            there,
            ground (arith, int_eq_iff (pos i) rf.commit_index),
            ground (arith, int_eq_iff (pos i) rf.commit_index),
          )
        ]
