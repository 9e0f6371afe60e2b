-- ===== src/Kv/Replica.antt =====
-- The stores of the nodes (internal/kv/server/store.go) against their Raft logs, through commitChanSender
-- of internal/raft/heartbeat.go and the updater of internal/kv/server/server.go.
use raft_in_motion.Prelude.{
  ℕ, zero, suc, String, ◌-◌, ◌≡◌, refl, ap, ◌∙◌, true, false, none, some, List, [], ◌∷◌, take, any,
  arith,
}
use raft_in_motion.Prelude.Int.{ℤ, minus_one}
use raft_in_motion.Raft.{Raft, LogEntry}
use raft_in_motion.Raft.Leader.{after}
use raft_in_motion.Raft.Commit.{CommitEntry, numbered}
use raft_in_motion.Raft.Applied.{rounds, rounds_deliver, between, is_outside}
use raft_in_motion.Kv.{Command, DataStore, new_data_store}
use raft_in_motion.Kv.Log.{apply_all, all_valid, last_put, apply_all-last_put}

-- The commands of a log.
abbrev pub log_commands : List (LogEntry Command) → List Command
log_commands [] = []
log_commands (e ∷ rest) = e.command ∷ log_commands rest

abbrev pub entry_commands : List (CommitEntry Command) → List Command
entry_commands [] = []
entry_commands (e ∷ rest) = e.command ∷ entry_commands rest

numbered-commands :
    (i term : ℕ) (log : List (LogEntry Command))
    → entry_commands (numbered i term log) ≡ log_commands log
numbered-commands i term [] = refl
numbered-commands i term (e ∷ log) = ap (λ l. e.command ∷ l) (numbered-commands (suc i) term log)

all_valid-take :
    (n : ℕ) (log : List (LogEntry Command))
    → all_valid (log_commands log) ≡ true
    → all_valid (log_commands (take n log)) ≡ true
all_valid-take zero log h = refl
all_valid-take (suc n) [] h = refl
all_valid-take (suc n) (e ∷ log) h = ground (arith, all_valid-take n log, h)

-- A node that has applied nothing, through any rounds of its commit sender while its log and term stay and its
-- commit index stays within the log: the updater takes all that is delivered without a panic, if the log
-- holds only gets and puts, and the store then has for each key the value of its last put in the log up to
-- the last entry applied. So it depends on that part of the log alone, not on the rounds.
pub store_follows_log :
    (commits : List ℤ) (rf : Raft Command)
    → rf.last_applied ≡ minus_one
    → any (is_outside rf.log) commits ≡ false
    → all_valid (log_commands rf.log) ≡ true
    → let sent = rounds commits rf in
      (ds : DataStore) × (apply_all (entry_commands sent.0) new_data_store ≡ some ds)
      × ((key : String)
          → ds key ≡ last_put key (log_commands (take (after sent.1.last_applied) rf.log)) none)
store_follows_log commits rf start inside valid =
    let sent = rounds commits rf in
    let (numbers, up, within, log, term) =
      rounds_deliver commits rf (ground (arith, start)) inside in
    let from : after rf.last_applied ≡ 0 = ap after start in
    let part = take (after sent.1.last_applied) rf.log in
    let whole : after sent.1.last_applied - 0 ≡ after sent.1.last_applied = omega arith in
    let same : entry_commands sent.0 ≡ log_commands part =
      ap entry_commands (
        numbers
        ∙ ap (λ n. numbered n rf.current_term (between n (after sent.1.last_applied) rf.log)) from)
      ∙ ap (λ n. entry_commands (numbered 0 rf.current_term (take n rf.log))) whole
      ∙ numbered-commands 0 rf.current_term part in
    let (ds, all, puts) =
      apply_all-last_put (log_commands part) new_data_store
        (all_valid-take (after sent.1.last_applied) rf.log valid) in
    (ds, ap (λ l. apply_all l new_data_store) same ∙ all, puts)
