-- ===== src/LogsContext/Delivery.antt =====
-- The logs of the page, and those that wait to be shown, against what arrived.
use raft_in_motion.Prelude.{
  ℕ, String, ◌≡◌, refl, ap, sym, ◌∙◌, Bool, true, false, Option, none, some, List, [], ◌∷◌, ◌++◌,
  append_assoc, append-nil, get_elem?, has, Bool-cases, arith, if◌then◌else◌, inl, inr,
}
use raft_in_motion.Value.{Raw, Fields, Payload, array, single}
use raft_in_motion.WsService.{Socket, is_opened}
use raft_in_motion.LogsContext.Parse.{parse_log}
use raft_in_motion.LogsContext.Page.{
  Page, Event, push_log, flush, connects, disconnects, clears, socket_opens, socket_closes,
  socket_fails, socket_receives, interval_fires, push_all, push_payload, enqueue_log, tick, step,
  run,
}

-- What is shown, and then what waits.
abbrev pub backlog : Page → List Fields
backlog p = p.logs ++ p.log_queue

abbrev pub as_list : Option Fields → List Fields
as_list none = []
as_list (some log) = log ∷ []

abbrev pub accepted_raws : List Raw → List Fields
accepted_raws [] = []
accepted_raws (raw ∷ rest) = as_list (parse_log raw) ++ accepted_raws rest

-- The logs of a message that parseLog accepts, in order.
abbrev pub accepted : Payload → List Fields
accepted (array raws) = accepted_raws raws
accepted (single raw) = as_list (parse_log raw)

abbrev pub socket_opened : Option Socket → Bool
socket_opened none = false
socket_opened (some s) = is_opened s.ready_state

-- What an event brings in: a message on an open socket.
abbrev pub arrivals : Event → Page → List Fields
arrivals (socket_receives k (some d)) p =
    if socket_opened (get_elem? p.sockets k) then accepted d else []
arrivals _ p = []

-- The events that empty the page.
abbrev pub history : Event → Page → List Fields → List Fields
history (connects action ok) p seen = []
history clears p seen = []
history e p seen = seen ++ arrivals e p

push_log-queue :
    (o : Option Fields) (p : Page)
    → ((push_log o p).logs ≡ p.logs) × ((push_log o p).log_queue ≡ p.log_queue ++ as_list o)
push_log-queue none p = (refl, sym (append-nil p.log_queue))
push_log-queue (some log) p = (refl, refl)

push_all-queue :
    (raws : List Raw) (p : Page)
    → ((push_all raws p).logs ≡ p.logs)
      × ((push_all raws p).log_queue ≡ p.log_queue ++ accepted_raws raws)
unfolding push_all
push_all-queue [] p = (refl, sym (append-nil p.log_queue))
push_all-queue (raw ∷ rest) p =
    let o = parse_log raw in
    let (l, q) = push_log-queue o p in
    let (ls, qs) = push_all-queue rest (push_log o p) in
    (
      ls ∙ l,
      qs
          ∙ ap (λ queue. queue ++ accepted_raws rest) q
          ∙ append_assoc p.log_queue (as_list o) (accepted_raws rest),
    )

pub push_payload-queue :
    (d : Payload) (p : Page)
    → ((push_payload d p).logs ≡ p.logs)
      × ((push_payload d p).log_queue ≡ p.log_queue ++ accepted d)
unfolding push_payload
push_payload-queue (array raws) p = push_all-queue raws p
push_payload-queue (single raw) p = push_log-queue (parse_log raw) p

pub enqueue_log-queue :
    (d : Payload) (p : Page)
    → ((enqueue_log d p).logs ≡ p.logs) × ((enqueue_log d p).log_queue ≡ p.log_queue ++ accepted d)
unfolding enqueue_log
enqueue_log-queue d p = ground (arith, push_payload-queue d p)

pub flush-backlog :
    (queue : List Fields) (p : Page) → p.log_queue ≡ queue → backlog (flush queue p) ≡ backlog p
flush-backlog [] p e = ground arith
flush-backlog (log ∷ rest) p e =
    append_assoc p.logs (log ∷ []) rest ∙ ap (λ queue. p.logs ++ queue) (sym e)

tick-backlog : (t : ℕ) (p : Page) → backlog (tick t p) ≡ backlog p
unfolding tick
tick-backlog t p = elim (Bool-cases (has t p.intervals)) [
  | inl fires ↦ rw fires (flush-backlog p.log_queue p refl)
  | inr stopped ↦ rw stopped
]

step-backlog :
    (endpoint : String) (e : Event) (p : Page)
    → backlog (step endpoint e p) ≡ history e p (backlog p)
unfolding step
step-backlog endpoint (connects action true) p = ground arith
step-backlog endpoint (connects action false) p = ground arith
step-backlog endpoint disconnects p = ground (arith, append-nil (backlog p))
step-backlog endpoint clears p = ground arith
step-backlog endpoint (socket_opens k) p = ground (arith, append-nil (backlog p))
step-backlog endpoint (socket_closes k) p = ground (arith, append-nil (backlog p))
step-backlog endpoint (socket_fails k) p = ground (arith, append-nil (backlog p))
step-backlog endpoint (socket_receives k none) p = ground (arith, append-nil (backlog p))
step-backlog endpoint (socket_receives k (some d)) p = ground (
  arith,
  enqueue_log-queue d p,
  append-nil (backlog p),
  append_assoc p.logs p.log_queue (accepted d),
)
step-backlog endpoint (interval_fires t) p = tick-backlog t p ∙ sym (append-nil (backlog p))

-- What is to be shown after some events, if `seen` was to be shown before.
abbrev pub history_of : String → List Event → Page → List Fields → List Fields
history_of endpoint [] p seen = seen
history_of endpoint (e ∷ rest) p seen =
    history_of endpoint rest (step endpoint e p) (history e p seen)

-- Through any sequence of calls, socket events and interval ticks, the logs that are shown followed
-- by those that wait are exactly the accepted logs of the messages that arrived on open sockets
-- since the page was last emptied, in the order of arrival: none is lost, doubled or reordered.
pub run-backlog :
    (endpoint : String) (events : List Event) (p : Page)
    → backlog (run endpoint events p) ≡ history_of endpoint events p (backlog p)
unfolding run
run-backlog endpoint [] p = refl
run-backlog endpoint (e ∷ rest) p =
    run-backlog endpoint rest (step endpoint e p)
    ∙ ap (history_of endpoint rest (step endpoint e p)) (step-backlog endpoint e p)
