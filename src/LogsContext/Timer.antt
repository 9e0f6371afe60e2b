-- ===== src/LogsContext/Timer.antt =====
-- The flush interval of LogsProvider: there is never more than one, and what waits is shown.
use raft_in_motion.Prelude.{
  ◌⊎◌, Option-cases, ℕ, suc, String, ◌≡◌, refl, ap, ◌∙◌, Bool, true, false, Option, none, some,
  List, [], ◌∷◌, append-nil, length, arith, inl, inr, replicate, any, any-false,
}
use raft_in_motion.Value.{Raw, Fields, Payload, array, single}
use raft_in_motion.LogsContext.Parse.{parse_log}
use raft_in_motion.LogsContext.Page.{
  Page, Event, connects, disconnects, clears, socket_opens, socket_closes, socket_fails,
  socket_receives, interval_fires, init, push_log, push_all, push_payload, flush_if_idle,
  enqueue_log, flush, tick, step, run,
}
use raft_in_motion.LogsContext.Delivery.{backlog, flush-backlog}

abbrev pub timers : Option ℕ → List ℕ
timers none = []
timers (some t) = t ∷ []

-- The interval that fires is the one that flushIntervalRef holds.
pub record OneTimer (p : Page) : Type 0 where
  pub only : p.intervals ≡ timers p.flush_interval

-- The part of the page that flushing reads.
abbrev SameTimer : Page → Page → Type 0
SameTimer p q = (p.intervals ≡ q.intervals) × (p.flush_interval ≡ q.flush_interval)

push_log-timer : (o : Option Fields) (p : Page) → SameTimer (push_log o p) p
push_log-timer none p = (refl, refl)
push_log-timer (some log) p = (refl, refl)

push_all-timer : (raws : List Raw) (p : Page) → SameTimer (push_all raws p) p
unfolding push_all
push_all-timer [] p = (refl, refl)
push_all-timer (raw ∷ rest) p =
    let (a, b) = push_log-timer (parse_log raw) p in
    let (c, d) = push_all-timer rest (push_log (parse_log raw) p) in (c ∙ a, d ∙ b)

push_payload-timer : (d : Payload) (p : Page) → SameTimer (push_payload d p) p
unfolding push_payload
push_payload-timer (array raws) p = push_all-timer raws p
push_payload-timer (single raw) p = push_log-timer (parse_log raw) p

enqueue_log-OneTimer : (d : Payload) (p : Page) → OneTimer p → OneTimer (enqueue_log d p)
unfolding enqueue_log
enqueue_log-OneTimer d p v = ground (arith, push_payload-timer d p)

tick-OneTimer : (t : ℕ) (p : Page) → OneTimer p → OneTimer (tick t p)
unfolding tick
tick-OneTimer t p v = ground arith

step-OneTimer :
    (endpoint : String) (e : Event) (p : Page) → OneTimer p → OneTimer (step endpoint e p)
unfolding step
step-OneTimer endpoint (connects action true) p v = ground arith
step-OneTimer endpoint (connects action false) p v = ground arith
step-OneTimer endpoint disconnects p v = ground arith
step-OneTimer endpoint clears p v = ground arith
step-OneTimer endpoint (socket_opens k) p v = ground arith
step-OneTimer endpoint (socket_closes k) p v = ground arith
step-OneTimer endpoint (socket_fails k) p v = ground arith
step-OneTimer endpoint (socket_receives k none) p v = ground arith
step-OneTimer endpoint (socket_receives k (some d)) p v = ground (arith, enqueue_log-OneTimer d p)
step-OneTimer endpoint (interval_fires t) p v = tick-OneTimer t p v

init-OneTimer : OneTimer init
init-OneTimer = record { only = refl }

run-OneTimer :
    (endpoint : String) (events : List Event) (p : Page)
    → OneTimer p
    → OneTimer (run endpoint events p)
unfolding run
run-OneTimer endpoint [] p v = v
run-OneTimer endpoint (e ∷ rest) p v =
    run-OneTimer endpoint rest (step endpoint e p) (step-OneTimer endpoint e p v)

-- In every state that the page can reach, the browser fires no interval but the one that
-- flushIntervalRef holds: no restart leaves a second interval behind.
pub one_timer :
    (endpoint : String) (events : List Event)
    → (run endpoint events init).intervals ≡ timers (run endpoint events init).flush_interval
one_timer endpoint events = (run-OneTimer endpoint events init init-OneTimer).only

-- What waits has an interval to show it.
abbrev pub Flushing : Page → Type 0
Flushing p = (p.log_queue ≡ []) ⊎ ((t : ℕ) × (p.flush_interval ≡ some t))

abbrev pub is_disconnect : Event → Bool
is_disconnect disconnects = true
is_disconnect _ = false

flush_if_idle-Flushing : (p : Page) → Flushing (flush_if_idle p)
unfolding flush_if_idle
flush_if_idle-Flushing p = elim (Option-cases p.flush_interval) [
  | inl idle ↦ go p.log_queue refl idle
  | inr (t, busy) ↦ inr (t, ground arith)
]
  where
    go :
        (queue : List Fields)
        → p.log_queue ≡ queue
        → p.flush_interval ≡ none
        → Flushing (flush_if_idle p)
    go [] e idle = inl (ground arith)
    go (log ∷ rest) e idle = inr (p.next_interval, ground arith)

enqueue_log-Flushing : (d : Payload) (p : Page) → Flushing (enqueue_log d p)
unfolding enqueue_log
enqueue_log-Flushing d p = flush_if_idle-Flushing (push_payload d p)

tick-Flushing : (t : ℕ) (p : Page) → Flushing p → Flushing (tick t p)
unfolding tick
tick-Flushing t p v = ground arith

step-Flushing :
    (endpoint : String) (e : Event) (p : Page)
    → is_disconnect e ≡ false
    → Flushing p
    → Flushing (step endpoint e p)
unfolding step
step-Flushing endpoint (connects action true) p n v = inl (ground arith)
step-Flushing endpoint (connects action false) p n v = inl (ground arith)
step-Flushing endpoint disconnects p n v = cc
step-Flushing endpoint clears p n v = inl (ground arith)
step-Flushing endpoint (socket_opens k) p n v = ground arith
step-Flushing endpoint (socket_closes k) p n v = ground arith
step-Flushing endpoint (socket_fails k) p n v = ground arith
step-Flushing endpoint (socket_receives k none) p n v = ground arith
step-Flushing endpoint (socket_receives k (some d)) p n v = ground (arith, enqueue_log-Flushing d p)
step-Flushing endpoint (interval_fires t) p n v = tick-Flushing t p v

-- The page after everything that waited has been shown.
abbrev pub drained : Page → Page
drained p = record p { logs = backlog p; log_queue = []; flush_interval = none; intervals = [] }

tick-flush :
    (t : ℕ) (queue : List Fields) (p : Page)
    → p.log_queue ≡ queue
    → p.flush_interval ≡ some t
    → OneTimer p
    → tick t p ≡ flush queue p
unfolding tick
tick-flush t queue p q f v = ground arith

drain :
    (endpoint : String) (t : ℕ) (queue : List Fields) (p : Page)
    → p.log_queue ≡ queue
    → p.flush_interval ≡ some t
    → OneTimer p
    → run endpoint (replicate (suc (length queue)) (interval_fires t)) p ≡ drained p
unfolding run step
drain endpoint t [] p q f v = rw (tick-flush t [] p q f v) (ground (arith, append-nil p.logs))
drain endpoint t (log ∷ rest) p q f v =
    ap (run endpoint (replicate (suc (length rest)) (interval_fires t)))
      (tick-flush t (log ∷ rest) p q f v)
    ∙ drain endpoint t rest (flush (log ∷ rest) p) refl f (record { only = v.only })
    ∙ ap (λ l. record p { logs = l; log_queue = []; flush_interval = none; intervals = [] })
        (flush-backlog (log ∷ rest) p q)

run-Flushing :
    (endpoint : String) (events : List Event) (p : Page)
    → any is_disconnect events ≡ false
    → Flushing p
    → Flushing (run endpoint events p)
unfolding run
run-Flushing endpoint [] p n v = v
run-Flushing endpoint (e ∷ rest) p n v =
    let (now, later) = any-false is_disconnect e rest n in
    run-Flushing endpoint rest (step endpoint e p) later (step-Flushing endpoint e p now v)

-- From the first render, through any events but a call of `disconnect`: nothing waits, or
-- flushIntervalRef holds an interval, and as many ticks of it as there are waiting logs, and one
-- more, show them all in order, empty the queue, stop the interval and change nothing else.
pub waiting_is_shown :
    (endpoint : String) (events : List Event)
    → any is_disconnect events ≡ false
    → let p = run endpoint events init in
      (p.log_queue ≡ [])
      ⊎ ((t : ℕ) × (p.flush_interval ≡ some t)
          × (run endpoint (replicate (suc (length p.log_queue)) (interval_fires t)) p ≡ drained p))
waiting_is_shown endpoint events n = shown (run-Flushing endpoint events init n (inl refl))
  where
    p : Page
    p = run endpoint events init

    shown :
        Flushing p
        → (p.log_queue ≡ [])
          ⊎ ((t : ℕ) × (p.flush_interval ≡ some t)
              × (run endpoint (replicate (suc (length p.log_queue)) (interval_fires t)) p
                  ≡ drained p))
    shown (inl e) = inl e
    shown (inr (t, f)) = inr (
      t,
      f,
      drain endpoint t p.log_queue p refl f (run-OneTimer endpoint events init init-OneTimer),
    )
