-- ===== src/Kv/Stuck.antt =====
-- A handler of internal/kv/server/server.go whose channel nothing will be sent to.
use raft_in_motion.Prelude.{
  ℕ, ◌<◌, ◌≡◌, ◌⊎◌, inl, inr, refl, ap, sym, subst, ◌∙◌, ◌==◌, Bool, false, Bool-cases, is_some,
  Option, none, some, arith,
}
use raft_in_motion.Prelude.Int.{ℤ, pos, negsuc}
use raft_in_motion.Raft.{submit}
use raft_in_motion.Kv.{Command}
use raft_in_motion.Kv.Service.{
  Handler, idle, bad_request, submitted, waiting, answered, given_up, crashed, KvService,
  set_handler, submit_command, submit_index, Event, puts, gets, commits, subscribe,
}
use raft_in_motion.Kv.Steps.{subscribed, subscribes_to, crashes_at}

-- An event that starts another request in the place of handler r, or commits an entry at the index.
abbrev pub disturbs : ℕ → ℕ → Event → Bool
disturbs r index (puts q request) = q == r
disturbs r index (gets q request) = q == r
disturbs r index (commits entry) = entry.index == index
disturbs r index _ = false

-- Handler r waits on a channel that holds nothing and that only its index leads to, or it was given up.
abbrev pub Unanswered : ℕ → KvService → Type 0
Unanswered r kvs =
    ((cmd : Command) × (index : ℕ) × (sub : ℕ) × (kvs.handlers r ≡ waiting cmd index sub))
    ⊎ (kvs.handlers r ≡ given_up)

unfoldable pub Stuck : ℕ → ℕ → KvService → Type 0
Stuck r index kvs =
    ((cmd : Command) × (sub : ℕ) × (kvs.handlers r ≡ waiting cmd index sub)
      × (kvs.channels sub ≡ none)
      × (sub < kvs.next_channel)
      × ((i : ℕ) → kvs.commit_subs i ≡ some sub → i ≡ index))
    ⊎ (kvs.handlers r ≡ given_up)

-- Another service in which nothing has changed for the handler.
pub Stuck-same :
    (r index : ℕ) (kvs next : KvService)
    → next.handlers r ≡ kvs.handlers r
    → next.commit_subs ≡ kvs.commit_subs
    → next.channels ≡ kvs.channels
    → next.next_channel ≡ kvs.next_channel
    → Stuck r index kvs
    → Stuck r index next
unfolding Stuck
Stuck-same r index kvs next h s c n (inr gone) = inr (h ∙ gone)
Stuck-same r index kvs next h s c n (inl (cmd, sub, waits, empty, below, only)) = inl (
  cmd,
  sub,
  h ∙ waits,
  ap (λ f. f sub) c ∙ empty,
  subst (λ m. sub < m) (sym n) below,
  λ i e. only i (ap (λ f. f i) (sym s) ∙ e),
)

pub set_handler-other :
    (r q : ℕ) (h : Handler) (kvs : KvService)
    → (q == r) ≡ false
    → (set_handler q h kvs).handlers r ≡ kvs.handlers r
set_handler-other r q h kvs other = ground (arith, other)

pub set_handler-Stuck :
    (r index q : ℕ) (h : Handler) (kvs : KvService)
    → (q == r) ≡ false
    → Stuck r index kvs
    → Stuck r index (set_handler q h kvs)
set_handler-Stuck r index q h kvs other s =
    Stuck-same r index kvs (set_handler q h kvs) (set_handler-other r q h kvs other) refl refl refl
      s

pub submitted-Stuck :
    (r index q : ℕ) (cmd : Command) (at : ℤ) (kvs : KvService)
    → (q == r) ≡ false
    → Stuck r index kvs
    → Stuck r index (submit_index q cmd at kvs)
submitted-Stuck r index q cmd (pos i) kvs other h = set_handler-Stuck r index q _ kvs other h
submitted-Stuck r index q cmd (negsuc i) kvs other h = set_handler-Stuck r index q _ kvs other h

pub submit_command-Stuck :
    (r index q : ℕ) (request : Option Command) (kvs : KvService)
    → (q == r) ≡ false
    → Stuck r index kvs
    → Stuck r index (submit_command q request kvs)
unfolding submit_command
submit_command-Stuck r index q none kvs other h = set_handler-Stuck r index q _ kvs other h
submit_command-Stuck r index q (some cmd) kvs other h =
    let sent = submit cmd kvs.rs in
    submitted-Stuck r index q cmd sent.0 (record kvs { rs = sent.1 }) other
      (Stuck-same r index kvs _ refl refl refl refl h)

-- A handler that is stuck has not only submitted its command.
pub submitted_is_other :
    (r index q : ℕ) (cmd : Command) (at : ℕ) (kvs : KvService)
    → kvs.handlers q ≡ submitted cmd at
    → Stuck r index kvs
    → (q == r) ≡ false
unfolding Stuck
submitted_is_other r index q cmd at kvs was h = elim (Bool-cases (q == r)) [
  | inr other ↦ other
  | inl same ↦
      let here : q ≡ r = ground (arith, same) in
      absurd (ground (arith, ap kvs.handlers here, was, h))
]

pub new_channel-Stuck :
    (r index q : ℕ) (cmd : Command) (at : ℕ) (kvs : KvService)
    → kvs.handlers q ≡ submitted cmd at
    → Stuck r index kvs
    → Stuck r index (set_handler q (waiting cmd at kvs.next_channel) (subscribed at kvs))
unfolding Stuck subscribed
new_channel-Stuck r index q cmd at kvs was (inr gone) =
    let other = submitted_is_other r index q cmd at kvs was (inr gone) in
    inr (ground (arith, other, gone))
new_channel-Stuck r index q cmd at kvs was (inl (c, sub, waits, empty, below, only)) =
    let other =
      submitted_is_other r index q cmd at kvs was (inl (c, sub, waits, empty, below, only)) in
    inl (
      c,
      sub,
      ground (arith, other, waits),
      ground (arith, below, empty),
      omega arith,
      λ i e. ground (arith, below, only i, e),
    )

pub subscribe-Stuck :
    (r index q : ℕ) (h : Handler) (kvs : KvService)
    → kvs.handlers q ≡ h
    → Stuck r index kvs
    → Stuck r index (subscribe q h kvs)
unfolding subscribe
subscribe-Stuck r index q (submitted cmd at) kvs was h =
    elim (Bool-cases (is_some (kvs.commit_subs at))) [
      | inl taken ↦ subst (Stuck r index) (sym (crashes_at q cmd at kvs taken)) (
          set_handler-Stuck r index q crashed kvs (submitted_is_other r index q cmd at kvs was h) h)
      | inr free ↦
          subst (Stuck r index) (sym (subscribes_to q cmd at kvs free))
            (new_channel-Stuck r index q cmd at kvs was h)
    ]
subscribe-Stuck r index q idle kvs was h = h
subscribe-Stuck r index q bad_request kvs was h = h
subscribe-Stuck r index q given_up kvs was h = h
subscribe-Stuck r index q crashed kvs was h = h
subscribe-Stuck r index q (waiting cmd at sub) kvs was h = h
subscribe-Stuck r index q (answered cmd at response) kvs was h = h
