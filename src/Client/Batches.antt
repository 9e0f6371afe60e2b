-- ===== src/Client/Batches.antt =====
-- What WriteLoop of internal/client/client.go sends, against the logs that were written to the memory
-- logger.
use raft_in_motion.Prelude.{
  ℕ, ◌≡◌, inl, inr, refl, ap, sym, subst, ◌∙◌, ltb, Bool, true, false, ◌&&◌, Option, List, [], ◌∷◌,
  ◌++◌, map, drop, Bool-cases, arith, append_assoc, append-nil, take-append-drop, if◌then◌else◌,
}
use raft_in_motion.Value.{Raw, Fields, Payload, array, single}
use raft_in_motion.Logger.{write, get_and_flush_logs}
use raft_in_motion.Logger.Ring.{Represents, enqueue, write-enqueue}
use raft_in_motion.Logger.Flush.{Flushed, get_and_flush_logs-Flushed}
use raft_in_motion.Client.{
  Client, Event, step, run, clean_up, read_error, check_idle, check_logs, see_closed, tick,
  send_batch, receive, receives, read_fails, logged, checks_idle, ticks, checks_logs, sees_closed,
  log_message, batch_size,
}

-- The logs in some messages.
abbrev pub contents : List Payload → List Raw
contents [] = []
contents (array raws ∷ rest) = raws ++ contents rest
contents (single raw ∷ rest) = raw ∷ contents rest

pub contents-append : (ds es : List Payload) → contents (ds ++ es) ≡ contents ds ++ contents es
contents-append [] es = refl
contents-append (array raws ∷ ds) es =
    ap (λ l. raws ++ l) (contents-append ds es)
    ∙ sym (append_assoc raws (contents ds) (contents es))
contents-append (single raw ∷ ds) es = ap (λ l. raw ∷ l) (contents-append ds es)

map-append {ℓ ℓ'} :
    {A : Type ℓ} {B : Type ℓ'} (f : A → B) (xs ys : List A)
    → map f (xs ++ ys) ≡ map f xs ++ map f ys
map-append f [] ys = refl
map-append f (x ∷ xs) ys = ap (λ l. f x ∷ l) (map-append f xs ys)

module _ {B : Type 0} (unmarshal : B → Option Fields) where
  -- What was sent, and then what waits in the memory logger.
  abbrev pub account : Client B → List B → List Raw
  account c queue = contents c.sent ++ map (log_message unmarshal) queue

  account-append :
      (c : Client B) (queue new : List B)
      → account c (queue ++ new) ≡ account c queue ++ map (log_message unmarshal) new
  account-append c queue new =
      ap (λ l. contents c.sent ++ l) (map-append (log_message unmarshal) queue new)
      ∙ sym (append_assoc (contents c.sent) (map (log_message unmarshal) queue) _)

  -- The logs that an event writes.
  abbrev pub written : Event B → Client B → List B
  written (receives now msg) c = if c.reading then msg ∷ [] else []
  written (logged entry) c = entry ∷ []
  written _ c = []

  -- An event that loses no log: its message is written, and the memory logger has room for its log.
  abbrev pub keeps : Event B → Client B → Bool
  keeps (receives now msg) c = ltb c.logger.current_size c.logger.max_logs
  keeps (logged entry) c = ltb c.logger.current_size c.logger.max_logs
  keeps (ticks ok now) c = ok
  keeps _ c = true

  -- The queue of a client after an event, with nothing lost.
  unfoldable pub Kept : Client B → List B → List B → Client B → Type 0
  Kept c queue new after =
      (rest : List B) × Represents after.logger rest
      × (account after rest ≡ account c (queue ++ new))

  same_Kept :
      (c d : Client B) (queue : List B)
      → d.logger ≡ c.logger
      → d.sent ≡ c.sent
      → Represents c.logger queue
      → Kept c queue [] d
  unfolding Kept
  same_Kept c d queue l s h = (
    queue,
    subst (λ ml. Represents ml queue) (sym l) h,
    ap (λ ds. contents ds ++ map (log_message unmarshal) queue) s
        ∙ ap (account c) (sym (append-nil queue)),
  )

  write-Kept :
      (e : B) (c d : Client B) (queue : List B)
      → d.logger ≡ write e c.logger
      → d.sent ≡ c.sent
      → ltb c.logger.current_size c.logger.max_logs ≡ true
      → Represents c.logger queue
      → Kept c queue (e ∷ []) d
  unfolding Kept Represents
  write-Kept e c d queue l s room h =
      let added : enqueue c.logger.max_logs e queue ≡ queue ++ e ∷ [] = ground (arith, h.2) in
      (
        queue ++ e ∷ [],
        subst (λ ml. Represents ml (queue ++ e ∷ [])) (sym l)
            (subst (Represents (write e c.logger)) added (write-enqueue e c.logger queue h)),
        ap (λ ds. contents ds ++ map (log_message unmarshal) (queue ++ e ∷ [])) s,
      )

  send_batch-Kept :
      (now n : ℕ) (taken : List B) (c d : Client B) (queue rest : List B)
      → Represents d.logger rest
      → taken ++ rest ≡ queue
      → d.sent ≡ c.sent
      → Kept c queue [] (send_batch unmarshal true n taken d).1
  unfolding Kept
  send_batch-Kept now n [] c d queue rest h parts s = (
    rest,
    h,
    ap (λ ds. contents ds ++ map (log_message unmarshal) rest) s
        ∙ ap (account c) (parts ∙ sym (append-nil queue)),
  )
  send_batch-Kept now n (e ∷ taken) c d queue rest h parts s =
      let f = log_message unmarshal in
      let batch = map f (e ∷ taken) in
      (
        rest,
        h,
        ap (λ l. l ++ map f rest) (contents-append d.sent (array batch ∷ []))
            ∙ append_assoc (contents d.sent) (batch ++ []) (map f rest)
            ∙ ap (λ l. contents d.sent ++ (l ++ map f rest)) (append-nil batch)
            ∙ ap (λ l. contents d.sent ++ l) (sym (map-append f (e ∷ taken) rest))
            ∙ ap (λ ds. contents ds ++ map f (e ∷ taken ++ rest)) s
            ∙ ap (account c) (parts ∙ sym (append-nil queue)),
      )

  if-Kept :
      (b : Bool) (c : Client B) (queue : List B) (x y : ℕ × Client B)
      → Kept c queue [] x.1
      → Kept c queue [] y.1
      → Kept c queue [] (if b then x else y).1
  if-Kept true c queue x y h k = h
  if-Kept false c queue x y h k = k

  tick-Kept :
      (now n : ℕ) (c : Client B) (queue : List B)
      → Represents c.logger queue
      → Kept c queue [] (tick unmarshal true now n c).1
  unfolding tick Flushed
  tick-Kept now n c queue h =
      let flushed = get_and_flush_logs batch_size c.logger in
      let (took, rest) = get_and_flush_logs-Flushed batch_size c.logger queue h in
      if-Kept _ c queue _ _
        (send_batch-Kept now n flushed.0 c (record c { last_activity = now; logger = flushed.1 })
          queue (drop batch_size queue) rest
          (ap (λ l. l ++ drop batch_size queue) took ∙ take-append-drop batch_size queue) refl)
        (same_Kept c c queue refl refl h)

  step-Kept :
      (e : Event B) (n : ℕ) (c : Client B) (queue : List B)
      → keeps e c ≡ true
      → Represents c.logger queue
      → Kept c queue (written e c) (step unmarshal e n c).1
  unfolding step receive read_error check_idle check_logs see_closed clean_up
  step-Kept (receives now msg) n c queue k h = elim (Bool-cases c.reading) [
    | inl reads ↦
        subst (λ new. Kept c queue new (receive now msg c)) (ground arith)
          (write-Kept msg c _ queue (ground arith) (ground arith) k h)
    | inr ended ↦
        subst (λ new. Kept c queue new (receive now msg c)) (ground arith)
          (same_Kept c _ queue (ground arith) (ground arith) h)
  ]
  step-Kept read_fails n c queue k h = same_Kept c _ queue (ground arith) (ground arith) h
  step-Kept (logged entry) n c queue k h = write-Kept entry c _ queue refl refl k h
  step-Kept (checks_idle now) n c queue k h = same_Kept c _ queue (ground arith) (ground arith) h
  step-Kept (ticks true now) n c queue k h = tick-Kept now n c queue h
  step-Kept (ticks false now) n c queue k h = cc
  step-Kept checks_logs n c queue k h = same_Kept c _ queue (ground arith) (ground arith) h
  step-Kept sees_closed n c queue k h = same_Kept c _ queue (ground arith) (ground arith) h

  -- The logs that some events write, and that they lose none.
  abbrev pub all_written : List (Event B) → ℕ → Client B → List B
  all_written [] n c = []
  all_written (e ∷ rest) n c =
      let after = step unmarshal e n c in written e c ++ all_written rest after.0 after.1

  abbrev pub all_keep : List (Event B) → ℕ → Client B → Bool
  all_keep [] n c = true
  all_keep (e ∷ rest) n c =
      let after = step unmarshal e n c in keeps e c && all_keep rest after.0 after.1

  -- Through any turns of a client's loops and any logs of the simulation, as long as every message is
  -- written and the memory logger is not full when a log comes: the logs that were sent, followed by those
  -- that still wait, are what was sent and waited before, followed by the logs that came, in order, where
  -- a log that is not a JSON object is a null.
  pub run-Kept :
      (events : List (Event B)) (n : ℕ) (c : Client B) (queue : List B)
      → all_keep events n c ≡ true
      → Represents c.logger queue
      → Kept c queue (all_written events n c) (run unmarshal events n c).1
  unfolding Kept run
  run-Kept [] n c queue k h = (queue, h, ap (account c) (sym (append-nil queue)))
  run-Kept (e ∷ events) n c queue k h =
      let after = step unmarshal e n c in
      let (rest, r, kept) = step-Kept e n c queue (ground arith) h in
      let (last, l, all) = run-Kept events after.0 after.1 rest (ground arith) r in
      let new = all_written events after.0 after.1 in
      (
        last,
        l,
        all
            ∙ account-append after.1 rest new
            ∙ ap (λ l. l ++ map (log_message unmarshal) new) kept
            ∙ sym (account-append c (queue ++ written e c) new)
            ∙ ap (account c) (append_assoc queue (written e c) new),
      )
