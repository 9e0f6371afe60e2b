-- ===== src/Kv/Sound.antt =====
-- What holds of the handlers of internal/kv/server/server.go and of its store, as entries are committed.
use raft_in_motion.Prelude.{
  ℕ, String, ◌<◌, ◌≡◌, inl, inr, refl, ap, sym, subst, ◌∙◌, ◌==◌, Bool-cases, Option, none, some,
  List, ◌∷◌, ◌++◌, map,
}
use raft_in_motion.Prelude.Int.{ℤ, pos, negsuc}
use raft_in_motion.Raft.{Raft, submit}
use raft_in_motion.Raft.Commit.{CommitEntry}
use raft_in_motion.Kv.{Command, Response, status_ok, lookup, with_result}
use raft_in_motion.Kv.Log.{last_put}
use raft_in_motion.Kv.Service.{
  Handler, idle, bad_request, submitted, waiting, answered, given_up, crashed, KvService, set_at,
  set_handler, submit_command, submit_index,
}

abbrev pub Entry : Type 0
Entry = CommitEntry Command

abbrev pub commands : List Entry → List Command
commands entries = map (λ e. e.command) entries

-- An entry among these, with the result that the store had for it in its place.
unfoldable pub Resulted : List Entry → Entry → Type 0
Resulted applied entry =
    (before : List Entry) × (original : Entry) × (after : List Entry) × (applied
      ≡ before ++ original ∷ after)
    × (entry.index ≡ original.index)
    × (entry.command
        ≡ with_result original.command
            (lookup (last_put original.command.key (commands before) none)))

-- A response OK is that of an entry at this index that this node submitted.
unfoldable pub Answers : ℕ → List Entry → ℤ → Response → Type 0
Answers id applied index response =
    (before : List Entry) × (original : Entry) × (after : List Entry) × (applied
      ≡ before ++ original ∷ after)
    × (index ≡ pos original.index)
    × (original.command.id ≡ id)
    × ((response.value, response.key_found)
        ≡ lookup (last_put original.command.key (commands before) none))

-- What holds of a handler.
unfoldable pub HandlerOk : KvService → List Entry → Handler → Type 0
HandlerOk kvs applied (waiting cmd index sub) =
    (sub < kvs.next_channel)
    × ((i : ℕ) → kvs.commit_subs i ≡ some sub → i ≡ index)
    × ((entry : Entry)
        → kvs.channels sub ≡ some entry
        → (entry.index ≡ index) × Resulted applied entry)
HandlerOk kvs applied (answered cmd index response) =
    response.resp_status ≡ status_ok → Answers kvs.id applied index response
HandlerOk kvs applied _ = kvs ≡ kvs

pub record Sound (kvs : KvService) (applied : List Entry) : Type 0 where
  pub store : (key : String) → kvs.ds key ≡ last_put key (commands applied) none
  pub subs : (i sub : ℕ) → kvs.commit_subs i ≡ some sub → sub < kvs.next_channel
  pub handled : (r : ℕ) → HandlerOk kvs applied (kvs.handlers r)

pub set_at_cases {ℓ ℓ'} :
    {A : Type ℓ} (P : A → Type ℓ') (n : ℕ) (x : A) (f : ℕ → A) (m : ℕ)
    → P x
    → P (f m)
    → P (set_at n x f m)
set_at_cases P n x f m h k = elim (Bool-cases (m == n)) [
  | inl same ↦ rw same h
  | inr other ↦ rw other k
]

-- A handler keeps what holds of it in a service with the same channels.
pub HandlerOk-same :
    (kvs next : KvService) (applied : List Entry) (h : Handler)
    → next.id ≡ kvs.id
    → next.next_channel ≡ kvs.next_channel
    → next.commit_subs ≡ kvs.commit_subs
    → next.channels ≡ kvs.channels
    → HandlerOk kvs applied h
    → HandlerOk next applied h
unfolding HandlerOk
HandlerOk-same kvs next applied idle i n s c h = refl
HandlerOk-same kvs next applied bad_request i n s c h = refl
HandlerOk-same kvs next applied (submitted cmd index) i n s c h = refl
HandlerOk-same kvs next applied given_up i n s c h = refl
HandlerOk-same kvs next applied crashed i n s c h = refl
HandlerOk-same kvs next applied (waiting cmd index sub) i n s c (below, only, holds) = (
  subst (λ m. sub < m) (sym n) below,
  λ j e. only j (ap (λ f. f j) (sym s) ∙ e),
  λ entry e. holds entry (ap (λ f. f sub) (sym c) ∙ e),
)
HandlerOk-same kvs next applied (answered cmd index response) i n s c h =
    λ ok. subst (λ id. Answers id applied index response) (sym i) (h ok)

pub set_handler-Sound :
    (r : ℕ) (h : Handler) (kvs : KvService) (applied : List Entry)
    → HandlerOk kvs applied h
    → Sound kvs applied
    → Sound (set_handler r h kvs) applied
set_handler-Sound r h kvs applied ok s = record {
  store = s.store;
  subs = s.subs;
  handled = λ q.
      set_at_cases (HandlerOk (set_handler r h kvs) applied) r h kvs.handlers q
        (HandlerOk-same kvs (set_handler r h kvs) applied h refl refl refl refl ok)
        (HandlerOk-same kvs (set_handler r h kvs) applied (kvs.handlers q) refl refl refl refl
          (s.handled q));
}

pub node-Sound :
    (rf : Raft Command) (kvs : KvService) (applied : List Entry)
    → Sound kvs applied
    → Sound (record kvs { rs = rf }) applied
node-Sound rf kvs applied s = record {
  store = s.store;
  subs = s.subs;
  handled = λ q.
      HandlerOk-same kvs (record kvs { rs = rf }) applied (kvs.handlers q) refl refl refl refl
        (s.handled q);
}

pub submit_index-Sound :
    (r : ℕ) (cmd : Command) (index : ℤ) (kvs : KvService) (applied : List Entry)
    → Sound kvs applied
    → Sound (submit_index r cmd index kvs) applied
unfolding HandlerOk
submit_index-Sound r cmd (pos i) kvs applied s =
    set_handler-Sound r (submitted cmd i) kvs applied refl s
submit_index-Sound r cmd (negsuc i) kvs applied s =
    set_handler-Sound r (answered cmd (negsuc i) _) kvs applied (λ ok. cc) s

pub submit_command-Sound :
    (r : ℕ) (request : Option Command) (kvs : KvService) (applied : List Entry)
    → Sound kvs applied
    → Sound (submit_command r request kvs) applied
unfolding submit_command HandlerOk
submit_command-Sound r none kvs applied s = set_handler-Sound r bad_request kvs applied refl s
submit_command-Sound r (some cmd) kvs applied s =
    let sent = submit cmd kvs.rs in
    submit_index-Sound r cmd sent.0 (record kvs { rs = sent.1 }) applied
      (node-Sound sent.1 kvs applied s)
