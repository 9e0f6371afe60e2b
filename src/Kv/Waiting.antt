-- ===== src/Kv/Waiting.antt =====
-- What the handlers and the updater of internal/kv/server/server.go do to such a handler.
use raft_in_motion.Prelude.{
  ℕ, ◌<◌, ◌≡◌, inl, inr, refl, ap, sym, subst, ◌∙◌, ◌==◌, false, Bool-cases, Option-cases, Option,
  none, some, arith,
}
use raft_in_motion.Raft.Commit.{CommitEntry}
use raft_in_motion.Kv.{Command, DataStore, lookup, with_result}
use raft_in_motion.Kv.Service.{
  Handler, idle, bad_request, submitted, waiting, answered, given_up, crashed, KvService, update,
  receive_entry, receive, give_up,
}
use raft_in_motion.Kv.Steps.{updated, updated-ids, set_none, update-updated}
use raft_in_motion.Kv.Stuck.{Stuck, set_handler-Stuck}

pub receive_entry-Stuck :
    (r index q : ℕ) (cmd : Command) (at sub : ℕ) (kvs : KvService)
    (o : Option (CommitEntry Command))
    → kvs.channels sub ≡ o
    → kvs.handlers q ≡ waiting cmd at sub
    → Stuck r index kvs
    → Stuck r index (receive_entry q cmd at o kvs)
unfolding Stuck
receive_entry-Stuck r index q cmd at sub kvs none full was h = h
receive_entry-Stuck r index q cmd at sub kvs (some entry) full was h = elim (Bool-cases (q == r)) [
  | inl same ↦
      let here : q ≡ r = ground (arith, same) in
      absurd (ground (arith, ap kvs.handlers here, was, full, h))
  | inr other ↦ set_handler-Stuck r index q _ kvs other h
]

pub receive-Stuck :
    (r index q : ℕ) (h : Handler) (kvs : KvService)
    → kvs.handlers q ≡ h
    → Stuck r index kvs
    → Stuck r index (receive q h kvs)
receive-Stuck r index q idle kvs was h = h
receive-Stuck r index q bad_request kvs was h = h
receive-Stuck r index q given_up kvs was h = h
receive-Stuck r index q crashed kvs was h = h
receive-Stuck r index q (submitted cmd at) kvs was h = h
receive-Stuck r index q (answered cmd at response) kvs was h = h
receive-Stuck r index q (waiting cmd at sub) kvs was h =
    receive_entry-Stuck r index q cmd at sub kvs (kvs.channels sub) refl was h

pub give_up-Stuck :
    (r index q : ℕ) (h : Handler) (kvs : KvService)
    → Stuck r index kvs
    → Stuck r index (give_up q h kvs)
unfolding Stuck
give_up-Stuck r index q idle kvs h = h
give_up-Stuck r index q bad_request kvs h = h
give_up-Stuck r index q given_up kvs h = h
give_up-Stuck r index q crashed kvs h = h
give_up-Stuck r index q (submitted cmd at) kvs h = h
give_up-Stuck r index q (answered cmd at response) kvs h = h
give_up-Stuck r index q (waiting cmd at sub) kvs h = elim (Bool-cases (q == r)) [
  | inl same ↦ inr (ground (arith, same))
  | inr other ↦ set_handler-Stuck r index q given_up kvs other h
]

pub updated_empty :
    (entry : CommitEntry Command) (cmd : Command) (ds : DataStore) (kvs : KvService) (sub : ℕ)
    → kvs.channels sub ≡ none
    → (kvs.commit_subs entry.index ≡ some sub → ⊥)
    → (updated entry cmd ds kvs).channels sub ≡ none
unfolding updated
updated_empty entry cmd ds kvs sub empty other = elim (Option-cases (kvs.commit_subs entry.index)) [
  | inl free ↦ ground (arith, empty, free)
  | inr (s, taken) ↦ ground (arith, empty, taken, other)
]

pub updated-Stuck :
    (r index : ℕ) (entry : CommitEntry Command) (cmd : Command) (ds : DataStore) (kvs : KvService)
    → (entry.index == index) ≡ false
    → Stuck r index kvs
    → Stuck r index (updated entry cmd ds kvs)
unfolding Stuck
updated-Stuck r index entry cmd ds kvs other (inr gone) =
    let (i, n, d, hs, cs) = updated-ids entry cmd ds kvs in inr (ap (λ f. f r) hs ∙ gone)
updated-Stuck r index entry cmd ds kvs other (inl (c, sub, waits, empty, below, only)) =
    let (i, n, d, hs, cs) = updated-ids entry cmd ds kvs in
    inl (
      c,
      sub,
      ap (λ f. f r) hs ∙ waits,
      updated_empty entry cmd ds kvs sub empty
          (λ taken. absurd (ground (arith, other, only entry.index taken))),
      subst (λ m. sub < m) (sym n) below,
      λ j e. only j (set_none j entry.index kvs.commit_subs sub (ap (λ f. f j) (sym cs) ∙ e)),
    )

pub update-Stuck :
    (r index : ℕ) (entry : CommitEntry Command) (kvs after : KvService)
    → (entry.index == index) ≡ false
    → update entry kvs ≡ some after
    → Stuck r index kvs
    → Stuck r index after
unfolding Stuck
update-Stuck r index entry kvs after other e h =
    let (ds, same, now) = update-updated entry kvs after e in
    let new = with_result entry.command (lookup (kvs.ds entry.command.key)) in
    subst (Stuck r index) same (updated-Stuck r index entry new ds kvs other h)
