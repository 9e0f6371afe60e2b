-- ===== src/Kv/Steps.antt =====
-- The steps of internal/kv/server/server.go in a form that proofs use.
use raft_in_motion.Prelude.{
  ℕ, suc, String, ◌≡◌, ◌⊎◌, inl, inr, refl, ap, sym, ◌∙◌, true, false, Bool-cases, some_injective,
  Option, none, some, is_some, [], ◌∷◌, arith,
}
use raft_in_motion.Raft.Commit.{CommitEntry}
use raft_in_motion.Kv.{Command, DataStore, lookup, with_result, apply_command}
use raft_in_motion.Kv.Log.{last_put, Applies, apply_command-Applies, is_valid}
use raft_in_motion.Kv.Service.{
  waiting, crashed, KvService, set_at, set_handler, create_commit_subscription, send_entry, notify,
  update, start_waiting, pop_commit_subscription,
}

unfoldable pub subscribed : ℕ → KvService → KvService
subscribed index kvs = record kvs {
  commit_subs = set_at index (some kvs.next_channel) kvs.commit_subs;
  channels = set_at kvs.next_channel none kvs.channels;
  next_channel = suc kvs.next_channel;
}

pub subscribes_to :
    (r : ℕ) (cmd : Command) (index : ℕ) (kvs : KvService)
    → is_some (kvs.commit_subs index) ≡ false
    → start_waiting r cmd index kvs (create_commit_subscription index kvs)
      ≡ set_handler r (waiting cmd index kvs.next_channel) (subscribed index kvs)
unfolding create_commit_subscription subscribed
subscribes_to r cmd index kvs free = ground (arith, free)

pub crashes_at :
    (r : ℕ) (cmd : Command) (index : ℕ) (kvs : KvService)
    → is_some (kvs.commit_subs index) ≡ true
    → start_waiting r cmd index kvs (create_commit_subscription index kvs)
      ≡ set_handler r crashed kvs
unfolding create_commit_subscription
crashes_at r cmd index kvs taken = ground (arith, taken)

-- The service after the updater's turn, where the command and the store are these.
unfoldable pub updated : CommitEntry Command → Command → DataStore → KvService → KvService
updated entry cmd ds kvs =
    send_entry (kvs.commit_subs entry.index) (record entry { command = cmd })
      (record kvs { ds = ds; commit_subs = set_at entry.index none kvs.commit_subs })

pub updated-ids :
    (entry : CommitEntry Command) (cmd : Command) (ds : DataStore) (kvs : KvService)
    → let after = updated entry cmd ds kvs in
      (after.id ≡ kvs.id)
      × (after.next_channel ≡ kvs.next_channel)
      × (after.ds ≡ ds)
      × (after.handlers ≡ kvs.handlers)
      × (after.commit_subs ≡ set_at entry.index none kvs.commit_subs)
unfolding updated
updated-ids entry cmd ds kvs = ground arith

-- A channel after the turn holds what it held, or the entry that it was subscribed for.
pub updated-channel :
    (entry got : CommitEntry Command) (cmd : Command) (ds : DataStore) (kvs : KvService) (sub : ℕ)
    → (updated entry cmd ds kvs).channels sub ≡ some got
    → (kvs.channels sub ≡ some got)
      ⊎ ((kvs.commit_subs entry.index ≡ some sub) × (got ≡ record entry { command = cmd }))
unfolding updated
updated-channel entry got cmd ds kvs sub h = ground (arith, h)

pub set_none :
    (i j : ℕ) (f : ℕ → Option ℕ) (sub : ℕ) → set_at j none f i ≡ some sub → f i ≡ some sub
set_none i j f sub h = ground (arith, h)

invalid_panics :
    (entry : CommitEntry Command) (kvs : KvService)
    → is_valid entry.command.kind ≡ false
    → update entry kvs ≡ none
unfolding update apply_command notify
invalid_panics entry kvs invalid = ground (arith, invalid)

-- A turn of the updater, where it does not panic.
pub update-updated :
    (entry : CommitEntry Command) (kvs after : KvService)
    → update entry kvs ≡ some after
    → (ds : DataStore) × (updated entry
          (with_result entry.command (lookup (kvs.ds entry.command.key)))
          ds
          kvs
        ≡ after)
      × ((key : String) → ds key ≡ last_put key (entry.command ∷ []) (kvs.ds key))
unfolding Applies update notify updated pop_commit_subscription
update-updated entry kvs after e = elim (Bool-cases (is_valid entry.command.kind)) [
  | inr invalid ↦ absurd (ground (arith, invalid_panics entry kvs invalid, e))
  | inl valid ↦
      let (ds, applies, now) =
        apply_command-Applies entry.command entry.command.kind kvs.ds refl valid in
      (ds, some_injective _ after (sym (ap (λ o. notify entry o kvs) applies) ∙ e), now)
]
