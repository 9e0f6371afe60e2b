-- ===== src/Kv/Updating.antt =====
-- The updater of internal/kv/server/server.go applies an entry and sends it to its handler.
use raft_in_motion.Prelude.{
  ℕ, String, ◌<◌, ◌≡◌, inl, inr, refl, ap, sym, subst, ◌∙◌, none, some, List, [], ◌∷◌, ◌++◌,
  append_assoc,
}
use raft_in_motion.Prelude.Int.{ℤ}
use raft_in_motion.Kv.{Response, DataStore, lookup, with_result}
use raft_in_motion.Kv.Log.{last_put, last_put-append}
use raft_in_motion.Kv.Service.{
  Handler, idle, bad_request, submitted, waiting, answered, given_up, crashed, KvService, update,
}
use raft_in_motion.Kv.Steps.{updated, updated-ids, updated-channel, set_none, update-updated}
use raft_in_motion.Kv.Sound.{Entry, commands, Resulted, Answers, HandlerOk, Sound}

pub grow :
    (applied before after more : List Entry) (e : Entry)
    → applied ≡ before ++ e ∷ after
    → applied ++ more ≡ before ++ e ∷ (after ++ more)
grow applied before after more e h = ap (λ l. l ++ more) h ∙ append_assoc before (e ∷ after) more

pub Resulted-grow :
    (applied more : List Entry) (entry : Entry)
    → Resulted applied entry
    → Resulted (applied ++ more) entry
unfolding Resulted
Resulted-grow applied more entry (before, original, after, h, at, result) =
    (before, original, after ++ more, grow applied before after more original h, at, result)

pub Answers-grow :
    (id : ℕ) (applied more : List Entry) (index : ℤ) (response : Response)
    → Answers id applied index response
    → Answers id (applied ++ more) index response
unfolding Answers
Answers-grow id applied more index response (before, original, after, h, at, own, result) =
    (before, original, after ++ more, grow applied before after more original h, at, own, result)

pub map_snoc :
    (applied : List Entry) (e : Entry)
    → commands (applied ++ e ∷ []) ≡ commands applied ++ e.command ∷ []
map_snoc [] e = refl
map_snoc (x ∷ xs) e = ap (λ l. x.command ∷ l) (map_snoc xs e)

-- The entry that the updater sends.
pub received :
    (entry got : Entry) (kvs : KvService) (applied : List Entry) (index : ℕ)
    → entry.index ≡ index
    → got ≡ record entry { command = with_result entry.command (lookup (kvs.ds entry.command.key)) }
    → ((key : String) → kvs.ds key ≡ last_put key (commands applied) none)
    → (got.index ≡ index) × Resulted (applied ++ entry ∷ []) got
unfolding Resulted
received entry got kvs applied index at is store = (
  ap (λ e. e.index) is ∙ at,
  (
    applied,
    entry,
    [],
    refl,
    ap (λ e. e.index) is,
    ap (λ e. e.command) is
        ∙ ap (λ v. with_result entry.command (lookup v)) (store entry.command.key),
  ),
)

pub updated-handler :
    (entry : Entry) (ds : DataStore) (kvs : KvService) (applied : List Entry) (h : Handler)
    → Sound kvs applied
    → HandlerOk kvs applied h
    → HandlerOk
        (updated entry (with_result entry.command (lookup (kvs.ds entry.command.key))) ds kvs)
        (applied ++ entry ∷ [])
        h
unfolding HandlerOk
updated-handler entry ds kvs applied idle s h = refl
updated-handler entry ds kvs applied bad_request s h = refl
updated-handler entry ds kvs applied (submitted cmd at) s h = refl
updated-handler entry ds kvs applied given_up s h = refl
updated-handler entry ds kvs applied crashed s h = refl
updated-handler entry ds kvs applied (answered cmd index response) s h = λ ok.
    let after =
      updated entry (with_result entry.command (lookup (kvs.ds entry.command.key))) ds kvs in
    let same =
      (updated-ids entry (with_result entry.command (lookup (kvs.ds entry.command.key))) ds
        kvs).0 in
    subst (λ id. Answers id (applied ++ entry ∷ []) index response) (sym same)
      (Answers-grow kvs.id applied (entry ∷ []) index response (h ok))
updated-handler entry ds kvs applied (waiting cmd index sub) s (below, only, holds) =
    let new = with_result entry.command (lookup (kvs.ds entry.command.key)) in
    let (i, n, d, hs, cs) = updated-ids entry new ds kvs in
    (
      subst (λ m. sub < m) (sym n) below,
      λ j e. only j (set_none j entry.index kvs.commit_subs sub (ap (λ f. f j) (sym cs) ∙ e)),
      λ got e. elim (updated-channel entry got new ds kvs sub e) [
        | inl old ↦
            let (at, result) = holds got old in (at, Resulted-grow applied (entry ∷ []) got result)
        | inr (mine, is) ↦ received entry got kvs applied index (only entry.index mine) is s.store
      ],
    )

pub updated-Sound :
    (entry : Entry) (ds : DataStore) (kvs : KvService) (applied : List Entry)
    → ((key : String) → ds key ≡ last_put key (entry.command ∷ []) (kvs.ds key))
    → Sound kvs applied
    → Sound
        (updated entry (with_result entry.command (lookup (kvs.ds entry.command.key))) ds kvs)
        (applied ++ entry ∷ [])
updated-Sound entry ds kvs applied now s =
    let new = with_result entry.command (lookup (kvs.ds entry.command.key)) in
    let (i, n, d, hs, cs) = updated-ids entry new ds kvs in
    let after = updated entry new ds kvs in
    record {
      store = λ key.
          ap (λ f. f key) d
          ∙ now key
          ∙ ap (last_put key (entry.command ∷ [])) (s.store key)
          ∙ sym (last_put-append key (commands applied) (entry.command ∷ []) none)
          ∙ ap (λ l. last_put key l none) (sym (map_snoc applied entry));
      subs = λ j sub e.
          subst (λ m. sub < m) (sym n)
            (s.subs j sub
              (set_none j entry.index kvs.commit_subs sub (ap (λ f. f j) (sym cs) ∙ e)));
      handled = λ r.
          subst (λ f. HandlerOk after (applied ++ entry ∷ []) (f r)) (sym hs)
            (updated-handler entry ds kvs applied (kvs.handlers r) s (s.handled r));
    }

pub update-Sound :
    (entry : Entry) (kvs after : KvService) (applied : List Entry)
    → update entry kvs ≡ some after
    → Sound kvs applied
    → Sound after (applied ++ entry ∷ [])
update-Sound entry kvs after applied e s =
    let (ds, same, now) = update-updated entry kvs after e in
    subst (λ k. Sound k (applied ++ entry ∷ [])) same (updated-Sound entry ds kvs applied now s)
