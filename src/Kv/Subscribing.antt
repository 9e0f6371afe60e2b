-- ===== src/Kv/Subscribing.antt =====
-- A handler of internal/kv/server/server.go subscribes to its entry.
use raft_in_motion.Prelude.{
  ℕ, suc, ◌<◌, ◌≡◌, refl, sym, subst, inl, inr, some, is_some, Bool-cases, List, arith,
}
use raft_in_motion.Kv.{Command}
use raft_in_motion.Kv.Service.{
  Handler, idle, bad_request, submitted, waiting, answered, given_up, crashed, KvService, subscribe,
}
use raft_in_motion.Kv.Steps.{subscribed, subscribes_to, crashes_at}
use raft_in_motion.Kv.Sound.{Entry, HandlerOk, Sound, set_handler-Sound}

pub subscribed-old :
    (index : ℕ) (kvs : KvService) (applied : List Entry) (h : Handler)
    → HandlerOk kvs applied h
    → HandlerOk (subscribed index kvs) applied h
unfolding HandlerOk subscribed
subscribed-old index kvs applied idle h = refl
subscribed-old index kvs applied bad_request h = refl
subscribed-old index kvs applied (submitted cmd at) h = refl
subscribed-old index kvs applied given_up h = refl
subscribed-old index kvs applied crashed h = refl
subscribed-old index kvs applied (answered cmd at response) h = h
subscribed-old index kvs applied (waiting cmd at sub) (below, only, holds) = (
  omega arith,
  λ i e. ground (arith, below, only i, e),
  λ entry e. holds entry (ground (arith, below, e)),
)

pub subscribed-subs :
    (index : ℕ) (kvs : KvService) (applied : List Entry)
    → Sound kvs applied
    → (i sub : ℕ) → (subscribed index kvs).commit_subs i ≡ some sub
    → sub < suc kvs.next_channel
unfolding subscribed
subscribed-subs index kvs applied s i sub e = ground (arith, s.subs i sub, e)

pub subscribed-new :
    (cmd : Command) (index : ℕ) (kvs : KvService) (applied : List Entry)
    → Sound kvs applied
    → HandlerOk (subscribed index kvs) applied (waiting cmd index kvs.next_channel)
unfolding HandlerOk subscribed
subscribed-new cmd index kvs applied s = (
  omega arith,
  λ i e. ground (arith, s.subs i kvs.next_channel, e),
  λ entry e. absurd (ground (arith, e)),
)

pub subscribed-Sound :
    (index : ℕ) (kvs : KvService) (applied : List Entry)
    → Sound kvs applied
    → Sound (subscribed index kvs) applied
unfolding subscribed
subscribed-Sound index kvs applied s = record {
  store = s.store;
  subs = subscribed-subs index kvs applied s;
  handled = λ r. subscribed-old index kvs applied (kvs.handlers r) (s.handled r);
}

pub subscribe-Sound :
    (r : ℕ) (h : Handler) (kvs : KvService) (applied : List Entry)
    → Sound kvs applied
    → Sound (subscribe r h kvs) applied
unfolding subscribe HandlerOk
subscribe-Sound r (submitted cmd index) kvs applied s =
    elim (Bool-cases (is_some (kvs.commit_subs index))) [
      | inl taken ↦
          subst (λ k. Sound k applied) (sym (crashes_at r cmd index kvs taken))
            (set_handler-Sound r crashed kvs applied refl s)
      | inr free ↦
          subst (λ k. Sound k applied) (sym (subscribes_to r cmd index kvs free))
            (set_handler-Sound r (waiting cmd index kvs.next_channel) (subscribed index kvs) applied
              (subscribed-new cmd index kvs applied s) (subscribed-Sound index kvs applied s))
    ]
subscribe-Sound r idle kvs applied s = s
subscribe-Sound r bad_request kvs applied s = s
subscribe-Sound r given_up kvs applied s = s
subscribe-Sound r crashed kvs applied s = s
subscribe-Sound r (waiting cmd index sub) kvs applied s = s
subscribe-Sound r (answered cmd index response) kvs applied s = s
