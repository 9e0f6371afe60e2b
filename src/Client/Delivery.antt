-- ===== src/Client/Delivery.antt =====
-- What WriteLoop of internal/client/client.go sends of the logs that wait, through its idle checks, the
-- checks of its goroutine and the end of its connection.
use raft_in_motion.Prelude.{
  ℕ, ◌+◌, ◌*◌, ◌≤◌, ◌≡◌, inl, inr, refl, ap, sym, subst, ◌∙◌, Bool, true, false, ◌&&◌, Option, List,
  [], ◌∷◌, ◌++◌, map, drop, length, Bool-cases, arith, append-nil, drop_add, drop_all,
  if◌then◌else◌,
}
use raft_in_motion.Value.{Fields}
use raft_in_motion.Logger.{MemoryLogger, get_and_flush_logs}
use raft_in_motion.Logger.Ring.{Represents}
use raft_in_motion.Logger.Flush.{Flushed, get_and_flush_logs-Flushed}
use raft_in_motion.Client.{
  Client, Event, step, run, tick, check_idle, check_logs, see_closed, read_error, clean_up,
  send_batch, receives, read_fails, logged, checks_idle, ticks, checks_logs, sees_closed,
  log_message, batch_size,
}
use raft_in_motion.Client.Batches.{
  contents, Kept, keeps, written, run-Kept, all_keep, all_written, account,
}

module _ {B : Type 0} where
  Represents-empty :
      (ml : MemoryLogger B) (rest : List B) → Represents ml [] → Represents ml rest → rest ≡ []
  unfolding Represents
  Represents-empty ml [] h k = refl
  Represents-empty ml (e ∷ rest) h k = absurd (omega (arith, h.2, k.2))

  -- An event that brings no log, and that is no failure to write a message.
  abbrev pub is_quiet : Event B → Bool
  is_quiet (receives now msg) = false
  is_quiet (logged entry) = false
  is_quiet (ticks ok now) = ok
  is_quiet _ = true

  abbrev pub all_quiet : List (Event B) → Bool
  all_quiet [] = true
  all_quiet (e ∷ rest) = is_quiet e && all_quiet rest

  -- A tick of logTicker while WriteLoop runs and the ticker is not stopped.
  abbrev pub takes_batch : Event B → Client B → ℕ
  takes_batch (ticks ok now) c = if c.writing && c.ticker_active then 1 else 0
  takes_batch _ c = 0

  module _ (unmarshal : B → Option Fields) where
    -- How many of these events are such ticks.
    abbrev pub batches : List (Event B) → ℕ → Client B → ℕ
    batches [] n c = 0
    batches (e ∷ rest) n c =
        let after = step unmarshal e n c in takes_batch e c + batches rest after.0 after.1

    send_batch-logger :
        (n : ℕ) (taken : List B) (c : Client B)
        → (send_batch unmarshal true n taken c).1.logger ≡ c.logger
    send_batch-logger n [] c = refl
    send_batch-logger n (e ∷ taken) c = refl

    tick_on :
        (now n : ℕ) (c : Client B)
        → (c.writing && c.ticker_active) ≡ true
        → let flushed = get_and_flush_logs batch_size c.logger in
          (tick unmarshal true now n c).1.logger ≡ flushed.1
    unfolding tick
    tick_on now n c on =
        let flushed = get_and_flush_logs batch_size c.logger in
        ground (
          arith,
          on,
          send_batch-logger n flushed.0 (record c { last_activity = now; logger = flushed.1 }),
        )

    tick_off :
        (now n : ℕ) (c : Client B)
        → (c.writing && c.ticker_active) ≡ false
        → (tick unmarshal true now n c).1.logger ≡ c.logger
    unfolding tick
    tick_off now n c off = ground (arith, off)

    same_queue :
        (ml : MemoryLogger B) (c : Client B) (queue : List B)
        → ml ≡ c.logger
        → Represents c.logger queue
        → Represents ml (drop (10 * 0) queue)
    same_queue ml c queue same h =
        let start : 0 ≡ 10 * 0 = omega arith in
        subst (λ m. Represents ml (drop m queue)) start
          (subst (λ l. Represents l queue) (sym same) h)

    step_drains :
        (e : Event B) (n : ℕ) (c : Client B) (queue : List B)
        → is_quiet e ≡ true
        → Represents c.logger queue
        → Represents (step unmarshal e n c).1.logger (drop (10 * takes_batch e c) queue)
    unfolding step read_error check_idle check_logs see_closed clean_up Flushed
    step_drains (receives now msg) n c queue q h = cc
    step_drains (logged entry) n c queue q h = cc
    step_drains read_fails n c queue q h = same_queue _ c queue (ground arith) h
    step_drains (checks_idle now) n c queue q h = same_queue _ c queue (ground arith) h
    step_drains checks_logs n c queue q h = same_queue _ c queue (ground arith) h
    step_drains sees_closed n c queue q h = same_queue _ c queue (ground arith) h
    step_drains (ticks false now) n c queue q h = cc
    step_drains (ticks true now) n c queue q h =
        let (took, rest) = get_and_flush_logs-Flushed batch_size c.logger queue h in
        let after = (tick unmarshal true now n c).1.logger in
        elim (Bool-cases (c.writing && c.ticker_active)) [
          | inl on ↦
              let ten : 10 ≡ 10 * takes_batch (ticks true now) c = ground (arith, on) in
              subst (λ m. Represents after (drop m queue)) ten
                (subst (λ l. Represents l (drop 10 queue)) (sym (tick_on now n c on)) rest)
          | inr off ↦
              let none_taken : 0 ≡ takes_batch (ticks true now) c = ground (arith, off) in
              subst (λ m. Represents after (drop (10 * m) queue)) none_taken
                (same_queue after c queue (tick_off now n c off) h)
        ]

    run_drains :
        (events : List (Event B)) (n : ℕ) (c : Client B) (queue : List B)
        → all_quiet events ≡ true
        → Represents c.logger queue
        → Represents (run unmarshal events n c).1.logger (drop (10 * batches events n c) queue)
    unfolding run
    run_drains [] n c queue q h = same_queue c.logger c queue refl h
    run_drains (e ∷ rest) n c queue q h =
        let after = step unmarshal e n c in
        let one = takes_batch e c in
        let more = batches rest after.0 after.1 in
        let count : 10 * one + 10 * more ≡ 10 * (one + more) = omega arith in
        subst (Represents (run unmarshal rest after.0 after.1).1.logger)
          (drop_add (10 * one) (10 * more) queue ∙ ap (λ m. drop m queue) count)
          (run_drains rest after.0 after.1 (drop (10 * one) queue) (ground (arith, q))
            (step_drains e n c queue (ground (arith, q)) h))

    quiet_keeps :
        (e : Event B) (c : Client B)
        → is_quiet e ≡ true
        → (keeps unmarshal e c ≡ true) × (written unmarshal e c ≡ [])
    quiet_keeps (receives now msg) c q = cc
    quiet_keeps (logged entry) c q = cc
    quiet_keeps (ticks ok now) c q = (q, refl)
    quiet_keeps read_fails c q = (refl, refl)
    quiet_keeps (checks_idle now) c q = (refl, refl)
    quiet_keeps checks_logs c q = (refl, refl)
    quiet_keeps sees_closed c q = (refl, refl)

    quiet_loses_none :
        (events : List (Event B)) (n : ℕ) (c : Client B)
        → all_quiet events ≡ true
        → (all_keep unmarshal events n c ≡ true) × (all_written unmarshal events n c ≡ [])
    quiet_loses_none [] n c q = (refl, refl)
    quiet_loses_none (e ∷ rest) n c q =
        let after = step unmarshal e n c in
        let (keep, new) = quiet_loses_none rest after.0 after.1 (ground (arith, q)) in
        let (kept, none_new) = quiet_keeps e c (ground (arith, q)) in
        (
          ground (arith, kept, keep),
          ap (λ l. l ++ all_written unmarshal rest after.0 after.1) none_new ∙ new,
        )

    -- While no log comes and no message fails, a client sends the logs that wait in its memory logger, in
    -- order and none twice: 10 with each tick at which its WriteLoop runs and its ticker is not stopped. With
    -- k such ticks among the events, all of up to 10 k logs are sent, whatever else happens.
    pub waiting_is_sent :
        (events : List (Event B)) (n : ℕ) (c : Client B) (queue : List B)
        → all_quiet events ≡ true
        → Represents c.logger queue
        → length queue ≤ 10 * batches events n c
        → let after = (run unmarshal events n c).1 in
          (contents after.sent ≡ contents c.sent ++ map (log_message unmarshal) queue)
          × Represents after.logger []
    unfolding Kept
    waiting_is_sent events n c queue q h enough =
        let after = (run unmarshal events n c).1 in
        let k = batches events n c in
        let (keep, new) = quiet_loses_none events n c q in
        let left = run_drains events n c queue q h in
        let empty = subst (Represents after.logger) (drop_all (10 * k) queue enough) left in
        let (rest, r, kept) = run-Kept unmarshal events n c queue keep h in
        let none_left = Represents-empty after.logger rest empty r in
        (
          sym (append-nil (contents after.sent))
              ∙ ap (account unmarshal after) (sym none_left)
              ∙ kept
              ∙ ap (λ l. account unmarshal c (queue ++ l)) new
              ∙ ap (account unmarshal c) (append-nil queue),
          empty,
        )
