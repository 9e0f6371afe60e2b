-- ===== src/Raft/Applied.antt =====
-- What commitChanSender of internal/raft/heartbeat.go delivers through its rounds.
use raft_in_motion.Prelude.{
  ℕ, suc, ◌+◌, ◌-◌, ◌≤◌, ◌≡◌, inl, inr, refl, ap, sym, subst, ◌∙◌, ltb, Bool, true, false,
  Bool-cases, List, [], ◌∷◌, ◌++◌, take, drop, length, length-drop, drop_add, take_add, length-take,
  any, any-false, arith,
}
use raft_in_motion.Prelude.Int.{ℤ, pos, negsuc, int_ltb}
use raft_in_motion.Raft.{Raft, LogEntry}
use raft_in_motion.Raft.Leader.{after}
use raft_in_motion.Raft.Commit.{CommitEntry, numbered, send_committed}

after_less : (a b : ℤ) → int_ltb a b ≡ true → after a ≤ after b
after_less (pos a) (pos b) h = ground arith
after_less (pos a) (negsuc b) h = cc
after_less (negsuc a) (pos b) h = omega arith
after_less (negsuc a) (negsuc b) h = omega arith

module _ {C : Type 0} where
  -- The log and the term of a node stay while its commit index is raised, and each raise is followed by
  -- a signal.
  abbrev pub rounds : List ℤ → Raft C → List (CommitEntry C) × Raft C
  rounds [] rf = ([], rf)
  rounds (commit ∷ rest) rf =
      let sent = send_committed (record rf { commit_index = commit }) in
      let later = rounds rest sent.1 in (sent.0 ++ later.0, later.1)

  numbered-append :
      (i term : ℕ) (xs ys : List (LogEntry C))
      → numbered i term (xs ++ ys) ≡ numbered i term xs ++ numbered (i + length xs) term ys
  numbered-append i term [] ys = ap (λ n. numbered n term ys) (omega arith)
  numbered-append i term (x ∷ xs) ys =
      ap (λ l. record { command = x.command; index = i; term = term } ∷ l)
        (numbered-append (suc i) term xs ys
          ∙ ap (λ n. numbered (suc i) term xs ++ numbered n term ys) (omega arith))

  -- The entries with an index from `from` on and below `to`.
  abbrev pub between : ℕ → ℕ → List (LogEntry C) → List (LogEntry C)
  between from to log = take (to - from) (drop from log)

  slices :
      (a b c : ℕ) (log : List (LogEntry C))
      → a ≤ b
      → b ≤ c
      → b ≤ length log
      → (between a b log ++ between b c log ≡ between a c log) × (a + length (between a b log) ≡ b)
  slices a b c log h k l =
      let whole : (b - a) + (c - b) ≡ c - a = omega arith in
      let start : a + (b - a) ≡ b = omega arith in
      let rest = drop a log in
      let size = length-take (b - a) rest (omega (arith, length-drop a log)) in
      (
        ap (λ l. take (b - a) rest ++ take (c - b) l)
              (ap (λ m. drop m log) (sym start) ∙ sym (drop_add a (b - a) log))
            ∙ sym (take_add (b - a) (c - b) rest)
            ∙ ap (λ m. take m rest) whole,
        omega (arith, size),
      )

  -- A run from rf to r that has delivered these.
  abbrev pub Delivered : Raft C → List (CommitEntry C) → Raft C → Type 0
  Delivered rf sent r =
      (sent
        ≡ numbered (after rf.last_applied) rf.current_term
            (between (after rf.last_applied) (after r.last_applied) rf.log))
      × (after rf.last_applied ≤ after r.last_applied)
      × (after r.last_applied ≤ length rf.log)
      × (r.log ≡ rf.log)
      × (r.current_term ≡ rf.current_term)

  nothing_between : (a : ℕ) (log : List (LogEntry C)) → between a a log ≡ []
  nothing_between a log =
      let none_left : a - a ≡ 0 = omega arith in ap (λ m. take m (drop a log)) none_left

  send_committed-Delivered :
      (rf : Raft C)
      → after rf.last_applied ≤ length rf.log
      → after rf.commit_index ≤ length rf.log
      → Delivered rf (send_committed rf).0 (send_committed rf).1
  unfolding send_committed
  send_committed-Delivered rf l c = elim (Bool-cases (int_ltb rf.last_applied rf.commit_index)) [
    | inl more ↦ rw more (refl, after_less rf.last_applied rf.commit_index more, c, refl, refl)
    | inr less ↦ rw less (
      ap (numbered (after rf.last_applied) rf.current_term)
          (sym (nothing_between (after rf.last_applied) rf.log)),
      omega arith,
      l,
      refl,
      refl,
    )
  ]

  -- Commits within the log.
  abbrev pub is_outside : List (LogEntry C) → ℤ → Bool
  is_outside log commit = ltb (length log) (after commit)

  Delivered-trans :
      (rf r s : Raft C) (sent more : List (CommitEntry C))
      → Delivered rf sent r
      → Delivered r more s
      → Delivered rf (sent ++ more) s
  Delivered-trans rf r s sent more (d, up, l, g, t) (d', up', l', g', t') =
      let a = after rf.last_applied in
      let b = after r.last_applied in
      let c = after s.last_applied in
      let room : c ≤ length rf.log = subst (λ log. c ≤ length log) g l' in
      let (joined, reach) = slices a b c rf.log up up' l in
      let more_at : more
          ≡ numbered (a + length (between a b rf.log)) rf.current_term (between b c rf.log) =
        d'
        ∙ ap (λ t. numbered b t (between b c r.log)) t
        ∙ ap (λ log. numbered b rf.current_term (between b c log)) g
        ∙ ap (λ n. numbered n rf.current_term (between b c rf.log)) (sym reach) in
      (
        ap (λ l. l ++ more) d
            ∙ ap (λ l. numbered a rf.current_term (between a b rf.log) ++ l) more_at
            ∙ sym (numbered-append a rf.current_term (between a b rf.log) (between b c rf.log))
            ∙ ap (numbered a rf.current_term) joined,
        omega arith,
        room,
        g' ∙ g,
        t' ∙ t,
      )

  -- Through any rounds, while the log and the term stay and whatever commit indices within the log are
  -- reached, the node delivers each entry after the last one applied exactly once and in order, with
  -- its index, up to the one that is then the last applied.
  pub rounds_deliver :
      (commits : List ℤ) (rf : Raft C)
      → after rf.last_applied ≤ length rf.log
      → any (is_outside rf.log) commits ≡ false
      → Delivered rf (rounds commits rf).0 (rounds commits rf).1
  rounds_deliver [] rf l h = (
    ap (numbered (after rf.last_applied) rf.current_term)
        (sym (nothing_between (after rf.last_applied) rf.log)),
    omega arith,
    l,
    refl,
    refl,
  )
  rounds_deliver (commit ∷ rest) rf l h =
      let raised = record rf { commit_index = commit } in
      let (here, later) = any-false (is_outside rf.log) commit rest h in
      let first = send_committed-Delivered raised l (ground arith) in
      let after_round = (send_committed raised).1 in
      let same : after_round.log ≡ rf.log = first.3 in
      Delivered-trans rf after_round (rounds rest after_round).1 _ _ first (
        rounds_deliver rest after_round
          (subst (λ log. after after_round.last_applied ≤ length log) (sym same) first.2)
          (subst (λ log. any (is_outside log) rest ≡ false) (sym same) later))
