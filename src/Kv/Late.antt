-- ===== src/Kv/Late.antt =====
-- A handler of internal/kv/server/server.go that subscribes after its entry was committed.
use raft_in_motion.Prelude.{
  ℕ, is_some, ◌<◌, ◌≡◌, inl, inr, refl, ap, sym, subst, ◌∙◌, false, Option-cases, some_injective,
  some, List, [], ◌∷◌, any, any-false, arith,
}
use raft_in_motion.Raft.{Raft}
use raft_in_motion.Kv.{Command}
use raft_in_motion.Kv.Service.{
  submitted, waiting, KvService, new_service, set_handler, Event, puts, gets, subscribes, receives,
  gives_up, commits, node_changes, subscribe, step, run, then_run,
}
use raft_in_motion.Kv.Answers.{run-subs}
use raft_in_motion.Kv.Steps.{subscribed, subscribes_to}
use raft_in_motion.Kv.Stuck.{
  disturbs, Unanswered, Stuck, Stuck-same, submit_command-Stuck, subscribe-Stuck,
}
use raft_in_motion.Kv.Waiting.{receive-Stuck, give_up-Stuck, update-Stuck}

step-Stuck :
    (r index : ℕ) (e : Event) (kvs after : KvService)
    → disturbs r index e ≡ false
    → step e kvs ≡ some after
    → Stuck r index kvs
    → Stuck r index after
unfolding step
step-Stuck r index (puts q request) kvs after d e h =
    subst (Stuck r index) (some_injective _ after e) (submit_command-Stuck r index q _ kvs d h)
step-Stuck r index (gets q request) kvs after d e h =
    subst (Stuck r index) (some_injective _ after e) (submit_command-Stuck r index q _ kvs d h)
step-Stuck r index (subscribes q) kvs after d e h =
    subst (Stuck r index) (some_injective _ after e)
      (subscribe-Stuck r index q (kvs.handlers q) kvs refl h)
step-Stuck r index (receives q) kvs after d e h =
    subst (Stuck r index) (some_injective _ after e)
      (receive-Stuck r index q (kvs.handlers q) kvs refl h)
step-Stuck r index (gives_up q) kvs after d e h =
    subst (Stuck r index) (some_injective _ after e)
      (give_up-Stuck r index q (kvs.handlers q) kvs h)
step-Stuck r index (commits entry) kvs after d e h = update-Stuck r index entry kvs after d e h
step-Stuck r index (node_changes rf) kvs after d e h =
    subst (Stuck r index) (some_injective _ after e)
      (Stuck-same r index kvs (record kvs { rs = rf }) refl refl refl refl h)

run-Stuck :
    (r index : ℕ) (events : List Event) (kvs after : KvService)
    → any (disturbs r index) events ≡ false
    → run events kvs ≡ some after
    → Stuck r index kvs
    → Stuck r index after
unfolding run
run-Stuck r index [] kvs after d e h = subst (Stuck r index) (some_injective kvs after e) h
run-Stuck r index (event ∷ rest) kvs after d e h =
    let (here, later) = any-false (disturbs r index) event rest d in
    elim (Option-cases (step event kvs)) [
      | inl panics ↦ absurd (ground (arith, e, panics))
      | inr (next, steps) ↦
          run-Stuck r index rest next after later (sym (ap (then_run (run rest)) steps) ∙ e)
            (step-Stuck r index event kvs next here steps h)
    ]

new-Stuck :
    (r : ℕ) (cmd : Command) (index : ℕ) (kvs : KvService)
    → ((i sub : ℕ) → kvs.commit_subs i ≡ some sub → sub < kvs.next_channel)
    → Stuck r index (set_handler r (waiting cmd index kvs.next_channel) (subscribed index kvs))
unfolding Stuck subscribed
new-Stuck r cmd index kvs fresh = inl (
  cmd,
  kvs.next_channel,
  ground arith,
  ground arith,
  omega arith,
  λ i e. ground (arith, fresh i kvs.next_channel, e),
)

-- A handler that subscribes after the entry of its command was committed, as it can since Submit and the
-- subscription are two steps, is never answered. Where nobody is subscribed to its index by then: through
-- everything that happens to the service while no other entry is committed at that index and no request takes
-- the handler's place, it waits until its client gives up.
pub late_subscription_waits :
    (id r : ℕ) (cmd : Command) (index : ℕ) (rs : Raft Command) (events later : List Event)
    (kvs after : KvService)
    → run events (new_service id rs) ≡ some kvs
    → kvs.handlers r ≡ submitted cmd index
    → is_some (kvs.commit_subs index) ≡ false
    → any (disturbs r index) later ≡ false
    → run (subscribes r ∷ later) kvs ≡ some after
    → Unanswered r after
unfolding run step subscribe Stuck
late_subscription_waits id r cmd index rs events later kvs after reached was free quiet e =
    let next = subscribe r (kvs.handlers r) kvs in
    let waits = ap (λ h. subscribe r h kvs) was ∙ subscribes_to r cmd index kvs free in
    let stuck =
      subst (Stuck r index) (sym waits)
        (new-Stuck r cmd index kvs (run-subs id rs events kvs reached)) in
    let last = run-Stuck r index later next after quiet e stuck in
    elim last [
      | inl (c, sub, held, empty, below, only) ↦ inl (c, index, sub, held)
      | inr gone ↦ inr gone
    ]
