-- ===== src/Kv/Answers.antt =====
-- What the service of internal/kv/server/server.go answers, against the committed entries.
use raft_in_motion.Prelude.{
  ℕ, String, ◌<◌, ◌≡◌, inl, inr, refl, ap, sym, subst, ◌∙◌, Option-cases, some_injective, Option,
  none, some, List, [], ◌∷◌, ◌++◌, append_assoc, append-nil, arith,
}
use raft_in_motion.Prelude.Int.{ℤ, pos}
use raft_in_motion.Raft.{Raft}
use raft_in_motion.Kv.{Command, Response, status_ok}
use raft_in_motion.Kv.Log.{last_put}
use raft_in_motion.Kv.Service.{
  Handler, idle, bad_request, submitted, waiting, answered, given_up, crashed, KvService,
  new_service, respond, Event, puts, gets, subscribes, receives, gives_up, commits, node_changes,
  receive_entry, receive, give_up, step, run, then_run,
}
use raft_in_motion.Kv.Sound.{
  Entry, commands, Resulted, Answers, HandlerOk, Sound, set_handler-Sound, node-Sound,
  submit_command-Sound,
}
use raft_in_motion.Kv.Subscribing.{subscribe-Sound}
use raft_in_motion.Kv.Updating.{update-Sound}

respond-Answers :
    (id index : ℕ) (applied : List Entry) (entry : Entry)
    → entry.index ≡ index
    → Resulted applied entry
    → (respond id entry.command).resp_status ≡ status_ok
    → Answers id applied (pos index) (respond id entry.command)
unfolding Resulted Answers
respond-Answers id index applied entry at (before, original, after, split, same, result) ok = (
  before,
  original,
  after,
  split,
  ap pos (sym at ∙ same),
  ground (arith, ok, result),
  ground (arith, ok, result),
)

received-Sound :
    (r : ℕ) (cmd : Command) (index : ℕ) (kvs : KvService) (applied : List Entry) (o : Option Entry)
    → ((entry : Entry) → o ≡ some entry → (entry.index ≡ index) × Resulted applied entry)
    → Sound kvs applied
    → Sound (receive_entry r cmd index o kvs) applied
unfolding HandlerOk
received-Sound r cmd index kvs applied none holds s = s
received-Sound r cmd index kvs applied (some entry) holds s =
    let (at, result) = holds entry refl in
    set_handler-Sound r (answered cmd (pos index) (respond kvs.id entry.command)) kvs applied
      (λ ok. respond-Answers kvs.id index applied entry at result ok) s

receive-Sound :
    (r : ℕ) (h : Handler) (kvs : KvService) (applied : List Entry)
    → HandlerOk kvs applied h
    → Sound kvs applied
    → Sound (receive r h kvs) applied
unfolding HandlerOk
receive-Sound r idle kvs applied ok s = s
receive-Sound r bad_request kvs applied ok s = s
receive-Sound r (submitted cmd index) kvs applied ok s = s
receive-Sound r given_up kvs applied ok s = s
receive-Sound r crashed kvs applied ok s = s
receive-Sound r (answered cmd index response) kvs applied ok s = s
receive-Sound r (waiting cmd index sub) kvs applied (below, only, holds) s =
    received-Sound r cmd index kvs applied (kvs.channels sub) holds s

give_up-Sound :
    (r : ℕ) (h : Handler) (kvs : KvService) (applied : List Entry)
    → Sound kvs applied
    → Sound (give_up r h kvs) applied
unfolding HandlerOk
give_up-Sound r idle kvs applied s = s
give_up-Sound r bad_request kvs applied s = s
give_up-Sound r (submitted cmd index) kvs applied s = s
give_up-Sound r given_up kvs applied s = s
give_up-Sound r crashed kvs applied s = s
give_up-Sound r (answered cmd index response) kvs applied s = s
give_up-Sound r (waiting cmd index sub) kvs applied s =
    set_handler-Sound r given_up kvs applied refl s

-- The entries that an event gives to the updater.
abbrev pub entries_of : Event → List Entry
entries_of (commits entry) = entry ∷ []
entries_of _ = []

abbrev pub committed : List Event → List Entry
committed [] = []
committed (e ∷ rest) = entries_of e ++ committed rest

same_entries :
    (kvs after : KvService) (applied : List Entry)
    → kvs ≡ after
    → Sound kvs applied
    → Sound after (applied ++ [])
same_entries kvs after applied same s =
    subst (Sound after) (sym (append-nil applied)) (subst (λ k. Sound k applied) same s)

step-Sound :
    (e : Event) (kvs after : KvService) (applied : List Entry)
    → step e kvs ≡ some after
    → Sound kvs applied
    → Sound after (applied ++ entries_of e)
unfolding step
step-Sound (commits entry) kvs after applied e s = update-Sound entry kvs after applied e s
step-Sound (puts r request) kvs after applied e s =
    same_entries _ after applied (some_injective _ after e) (submit_command-Sound r _ kvs applied s)
step-Sound (gets r request) kvs after applied e s =
    same_entries _ after applied (some_injective _ after e) (submit_command-Sound r _ kvs applied s)
step-Sound (subscribes r) kvs after applied e s = same_entries after after applied refl (
    subst (λ k. Sound k applied) (some_injective _ after e)
      (subscribe-Sound r (kvs.handlers r) kvs applied s))
step-Sound (receives r) kvs after applied e s =
    same_entries _ after applied (some_injective _ after e)
      (receive-Sound r (kvs.handlers r) kvs applied (s.handled r) s)
step-Sound (gives_up r) kvs after applied e s =
    same_entries _ after applied (some_injective _ after e)
      (give_up-Sound r (kvs.handlers r) kvs applied s)
step-Sound (node_changes rf) kvs after applied e s =
    same_entries _ after applied (some_injective _ after e) (node-Sound rf kvs applied s)

run-Sound :
    (events : List Event) (kvs after : KvService) (applied : List Entry)
    → run events kvs ≡ some after
    → Sound kvs applied
    → Sound after (applied ++ committed events)
unfolding run
run-Sound [] kvs after applied e s = same_entries kvs after applied (some_injective kvs after e) s
run-Sound (event ∷ rest) kvs after applied e s = elim (Option-cases (step event kvs)) [
  | inl panics ↦ absurd (ground (arith, e, panics))
  | inr (next, steps) ↦
      subst (Sound after) (append_assoc applied (entries_of event) (committed rest)) (
        run-Sound rest next after (applied ++ entries_of event)
          (sym (ap (then_run (run rest)) steps) ∙ e) (step-Sound event kvs next applied steps s))
]

new_service-Sound : (id : ℕ) (rs : Raft Command) → Sound (new_service id rs) []
unfolding HandlerOk
new_service-Sound id rs = record {
  store = λ key. refl;
  subs = λ i sub e. absurd (ground (arith, e));
  handled = λ r. refl;
}

-- Through any interleaving of the handlers of a service, its updater and its clients that give up, and
-- whatever happens to its Raft node, if the updater has not panicked: a handler has answered OK only with
-- an entry that was committed at the index where its command was submitted and that this service
-- submitted, and the value in its answer is that of the last put of that entry's key among the entries
-- committed before it, found if there is one. And the store has for each key the value of its last
-- committed put.
pub ok_is_committed :
    (id : ℕ) (rs : Raft Command) (events : List Event) (kvs : KvService) (r : ℕ) (cmd : Command)
    (index : ℤ) (response : Response)
    → run events (new_service id rs) ≡ some kvs
    → kvs.handlers r ≡ answered cmd index response
    → response.resp_status ≡ status_ok
    → Answers kvs.id (committed events) index response
      × ((key : String) → kvs.ds key ≡ last_put key (commands (committed events)) none)
unfolding HandlerOk
ok_is_committed id rs events kvs r cmd index response e h ok =
    let s = run-Sound events (new_service id rs) kvs [] e (new_service-Sound id rs) in
    (subst (HandlerOk kvs (committed events)) h (s.handled r) ok, s.store)

-- The channels that are subscribed were made before.
pub run-subs :
    (id : ℕ) (rs : Raft Command) (events : List Event) (kvs : KvService)
    → run events (new_service id rs) ≡ some kvs
    → (i sub : ℕ) → kvs.commit_subs i ≡ some sub
    → sub < kvs.next_channel
run-subs id rs events kvs e =
    (run-Sound events (new_service id rs) kvs [] e (new_service-Sound id rs)).subs
