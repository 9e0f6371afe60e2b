-- ===== src/Raft/Entries.antt =====
-- What a follower's log holds after AppendEntries has succeeded.
use raft_in_motion.Prelude.{
  ℕ, zero, suc, ◌+◌, ◌≤◌, ◌≡◌, inl, inr, refl, ap, sym, subst, Option-cases, ◌∙◌, ltb, ◌==◌, true,
  Bool-cases, some, List, [], ◌∷◌, ◌++◌, map, take, drop, length, get_elem?, arith, if◌then◌else◌,
  append_assoc, take-append-drop, take_all, take_add, length-take, take-append,
}
use raft_in_motion.Prelude.Int.{pos}
use raft_in_motion.Raft.{Raft, LogEntry}
use raft_in_motion.Raft.AppendEntries.{
  AppendEntriesArgs, AppendEntriesReply, matching, insert_entries, append_entries, follow,
}

module _ {C : Type 0} where
  abbrev pub terms : List (LogEntry C) → List ℕ
  terms entries = map (λ e. e.term) entries

  -- The entries after the ones that a message follows, once they have been taken over.
  abbrev merge : List (LogEntry C) → List (LogEntry C) → List (LogEntry C)
  merge log entries =
      let k = matching log entries in
      if ltb k (length entries) then take k log ++ drop k entries else log

  merge_cons :
      (e f : LogEntry C) (log entries : List (LogEntry C))
      → e.term ≡ f.term
      → merge (e ∷ log) (f ∷ entries) ≡ e ∷ merge log entries
  merge_cons e f log entries h = ground arith

  terms-merge :
      (log entries : List (LogEntry C))
      → terms (take (length entries) (merge log entries)) ≡ terms entries
  terms-merge log [] = ground arith
  terms-merge [] (f ∷ entries) = ground (arith, take_all entries)
  terms-merge (e ∷ log) (f ∷ entries) = elim (Bool-cases (e.term == f.term)) [
    | inl same ↦
        rw (merge_cons e f log entries (ground arith)) (ground (arith, terms-merge log entries))
    | inr other ↦ ground (arith, take_all entries)
  ]

  insert_merge :
      (n : ℕ) (entries log : List (LogEntry C))
      → suc n ≤ length log
      → insert_entries n entries log ≡ take (suc n) log ++ merge (drop (suc n) log) entries
  unfolding insert_entries
  insert_merge n entries log h =
      let k = matching (drop (suc n) log) entries in
      elim (Bool-cases (ltb k (length entries))) [
        | inl more ↦ rw more (
            ap (λ l. l ++ drop k entries) (take_add (suc n) k log)
            ∙ append_assoc (take (suc n) log) (take k (drop (suc n) log)) (drop k entries))
        | inr all ↦ rw all (sym (take-append-drop (suc n) log))
      ]

  take-append_add :
      (xs ys : List (LogEntry C)) (k : ℕ) → take (length xs + k) (xs ++ ys) ≡ xs ++ take k ys
  take-append_add [] ys k = ap (λ m. take m ys) (omega arith)
  take-append_add (x ∷ xs) ys k =
      let next : suc (length xs) + k ≡ suc (length xs + k) = omega arith in
      ap (λ m. take m (x ∷ xs ++ ys)) next ∙ ap (λ l. x ∷ l) (take-append_add xs ys k)

  terms-append : (xs ys : List (LogEntry C)) → terms (xs ++ ys) ≡ terms xs ++ terms ys
  terms-append [] ys = refl
  terms-append (x ∷ xs) ys = ap (λ l. x.term ∷ l) (terms-append xs ys)

  -- The log keeps what it has up to index n, and the entries follow.
  abbrev pub Follows : ℕ → List (LogEntry C) → List (LogEntry C) → List (LogEntry C) → Type 0
  Follows n entries before after =
      (take (suc n) after ≡ take (suc n) before)
      × (terms (take (suc n + length entries) after) ≡ terms (take (suc n) before) ++ terms entries)

  insert_entries-Follows :
      (n : ℕ) (entries log : List (LogEntry C))
      → suc n ≤ length log
      → Follows n entries log (insert_entries n entries log)
  insert_entries-Follows n entries log h =
      let kept = take (suc n) log in
      let new = merge (drop (suc n) log) entries in
      let size = length-take (suc n) log h in
      rw (insert_merge n entries log h) (
        ap (λ m. take m (kept ++ new)) (sym size) ∙ take-append kept new,
        ap terms (
              ap (λ m. take (m + length entries) (kept ++ new)) (sym size)
              ∙ take-append_add kept new (length entries))
            ∙ terms-append kept (take (length entries) new)
            ∙ ap (λ l. terms kept ++ l) (terms-merge (drop (suc n) log) entries),
      )

  get-length :
      (n : ℕ) (e : LogEntry C) (log : List (LogEntry C))
      → get_elem? log n ≡ some e
      → suc n ≤ length log
  get-length n e [] h = cc
  get-length zero e (f ∷ log) h = omega arith
  get-length (suc n) e (f ∷ log) h = omega (arith, get-length n e log h)

  acknowledged :
      (now n : ℕ) (args : AppendEntriesArgs C) (rf after : Raft C) (reply : AppendEntriesReply)
      → args.prev_log_index ≡ pos n
      → append_entries now args rf ≡ some (reply, after)
      → reply.success ≡ true
      → (e : LogEntry C) × (get_elem? rf.log n ≡ some e)
        × (after.log ≡ insert_entries n args.entries rf.log)
  unfolding append_entries follow
  acknowledged now n args rf after reply at_n result success =
      elim (Option-cases (get_elem? rf.log n)) [
        | inl missing ↦ absurd (ground arith)
        | inr (e, known) ↦ (e, known, ground arith)
      ]

  -- Whenever a follower acknowledges entries that come after its index n, it still has the log that it
  -- had up to n, and then entries with the terms of those that were sent, in order.
  pub append_entries_stores :
      (now n : ℕ) (args : AppendEntriesArgs C) (rf after : Raft C) (reply : AppendEntriesReply)
      → args.prev_log_index ≡ pos n
      → append_entries now args rf ≡ some (reply, after)
      → reply.success ≡ true
      → Follows n args.entries rf.log after.log
  append_entries_stores now n args rf after reply at_n result success =
      let (e, known, stored) = acknowledged now n args rf after reply at_n result success in
      subst (Follows n args.entries rf.log) (sym stored)
        (insert_entries-Follows n args.entries rf.log (get-length n e rf.log known))
