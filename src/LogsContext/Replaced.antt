-- ===== src/LogsContext/Replaced.antt =====
-- A connection of LogsProvider (frontend/src/context/logsContext.tsx) that is replaced while it is alive, and its
-- close event, which the browser still owes it.
use Prim.Native.String.{◌++◌ as str_append}
use raft_in_motion.Prelude.{
  ℕ, zero, suc, subst, String, Option, modify, if◌then◌else◌, ◌≡◌, ◌≢◌, ◌<◌, refl, ap, sym, ◌∙◌,
  true, false, some, List, [], ◌∷◌, ◌++◌, length, get_elem?, get_elem?-modify_ne,
  get_elem?-modify_self, get_elem?-append_length, length-modify, arith,
}
use raft_in_motion.WsService
use raft_in_motion.WsService.{
  ReadyState, connecting, opened, closing, closed, Socket, WebSocketService, new_service, is_closed,
  is_connecting, close, close_old, start_closing, set_ready, open_socket, send_current, send_to,
  current, handle_open, handle_close,
}
use raft_in_motion.LogsContext.Page.{
  page_client, Page, disconnected, connected, connects, socket_opens, socket_closes, step, run,
  connect, cleanup_resources, reset_state,
}
use raft_in_motion.LogsContext.Live.{current_socket}

cleaned :
    (p : Page) (old : ℕ)
    → current_socket p.ws_service p.services ≡ some old
    → let q = reset_state (cleanup_resources p) in
      (q.sockets ≡ close old p.sockets) × (q.services ≡ p.services)
unfolding cleanup_resources reset_state
cleaned p old c = ground (arith, c)

-- The socket that `connect` makes, with its number.
abbrev fresh : String → String → ℕ → Socket
fresh endpoint action service = record {
  url = str_append endpoint (str_append "?simulate=" action);
  action = action;
  service = service;
  ready_state = connecting;
  sent = [];
}

-- That socket once it is open and has sent its message.
abbrev pub opened_socket : String → String → ℕ → Socket
opened_socket endpoint action service = record (fresh endpoint action service) {
  ready_state = opened;
  sent = action ∷ [];
}

connected_to :
    (endpoint action : String) (p : Page)
    → let q = reset_state (cleanup_resources p) in
      let after = connect endpoint action true p in
      (after.sockets ≡ q.sockets ++ fresh endpoint action (length q.services) ∷ [])
      × (after.ws_service ≡ some (length q.services))
      × (current (get_elem? after.services (length q.services)) ≡ some (length q.sockets))
unfolding connect WsService.connect
connected_to endpoint action p =
    let q = reset_state (cleanup_resources p) in
    (
      refl,
      refl,
      ap current (
          get_elem?-modify_self (length q.services) _ (q.services ++ new_service endpoint ∷ [])
            (get_elem?-append_length q.services (new_service endpoint))),
    )

-- The page when the socket k is open and has sent its message.
abbrev opened_page : ℕ → String → Page → Page
opened_page k action p =
    let mid = modify k (set_ready opened) p.sockets in
    record p {
      connection_status = connected;
      sockets = modify k (λ t. record t { sent = t.sent ++ action ∷ [] }) mid;
    }

opens_new :
    (endpoint : String) (p : Page) (k : ℕ) (s : Socket)
    → get_elem? p.sockets k ≡ some s
    → is_connecting s.ready_state ≡ true
    → current (get_elem? p.services s.service) ≡ some k
    → step endpoint (socket_opens k) p ≡ opened_page k s.action p
unfolding step handle_open
opens_new endpoint p k s at waits c =
    let mid = record p {
      connection_status = connected;
      sockets = modify k (set_ready opened) p.sockets;
    } in
    let sends : Option ℕ → Page = λ o. send_current page_client o s.action mid in
    ap (λ o. open_socket page_client k o p) at
    ∙ ap (λ b. if b then sends (current (get_elem? p.services s.service)) else p) waits
    ∙ ap sends c
    ∙ ap (λ o. send_to page_client (some k) o s.action mid)
        (get_elem?-modify_self k (set_ready opened) p.sockets at)

opened_at :
    (p : Page) (k : ℕ) (action : String) (s : Socket)
    → get_elem? p.sockets k ≡ some s
    → get_elem? (opened_page k action p).sockets k
      ≡ some (record s { ready_state = opened; sent = s.sent ++ action ∷ [] })
opened_at p k action s at =
    let mid = modify k (set_ready opened) p.sockets in
    get_elem?-modify_self k (λ t. record t { sent = t.sent ++ action ∷ [] }) mid
      (get_elem?-modify_self k (set_ready opened) p.sockets at)

opened_elsewhere :
    (p : Page) (k j : ℕ) (action : String)
    → k ≢ j
    → get_elem? (opened_page k action p).sockets j ≡ get_elem? p.sockets j
opened_elsewhere p k j action other =
    let mid = modify k (set_ready opened) p.sockets in
    get_elem?-modify_ne k j (λ t. record t { sent = t.sent ++ action ∷ [] }) mid other
    ∙ get_elem?-modify_ne k j (set_ready opened) p.sockets other

closes_old :
    (endpoint : String) (p : Page) (k : ℕ) (s : Socket)
    → get_elem? p.sockets k ≡ some s
    → is_closed s.ready_state ≡ false
    → let q = step endpoint (socket_closes k) p in
      (q.connection_status ≡ disconnected)
      × (q.services ≡ p.services)
      × (q.ws_service ≡ p.ws_service)
      × ((j : ℕ) → k ≢ j → get_elem? q.sockets j ≡ get_elem? p.sockets j)
unfolding step handle_close
closes_old endpoint p k s at waits = (
  ground (arith, at, waits),
  ground (arith, at, waits),
  ground (arith, at, waits),
  λ j other. ground (arith, at, waits, get_elem?-modify_ne k j (set_ready closed) p.sockets other),
)

-- A new socket opens, and then another one closes that was alive.
then_closes :
    (endpoint : String) (p : Page) (k old : ℕ) (t s : Socket)
    → get_elem? p.sockets k ≡ some t
    → is_connecting t.ready_state ≡ true
    → current (get_elem? p.services t.service) ≡ some k
    → get_elem? p.sockets old ≡ some s
    → is_closed s.ready_state ≡ false
    → k ≢ old
    → let q = run endpoint (socket_opens k ∷ socket_closes old ∷ []) p in
      (q.connection_status ≡ disconnected)
      × (q.services ≡ p.services)
      × (q.ws_service ≡ p.ws_service)
      × (get_elem? q.sockets k
          ≡ some (record t { ready_state = opened; sent = t.sent ++ t.action ∷ [] }))
unfolding run
then_closes endpoint p k old t s new waits c at alive other =
    let r = opened_page k t.action p in
    let held = opened_elsewhere p k old t.action other ∙ at in
    let (status, services, ws, rest) = closes_old endpoint r old s held alive in
    subst
      (λ x.
        let q = step endpoint (socket_closes old) x in
        (q.connection_status ≡ disconnected)
        × (q.services ≡ p.services)
        × (q.ws_service ≡ p.ws_service)
        × (get_elem? q.sockets k
            ≡ some (record t { ready_state = opened; sent = t.sent ++ t.action ∷ [] })))
      (sym (opens_new endpoint p k t new waits c))
      (status, services, ws, rest k (λ e. other (sym e)) ∙ opened_at p k t.action t new)

below :
    (old : ℕ) (sockets rest : List Socket) (s : Socket)
    → get_elem? sockets old ≡ some s
    → (get_elem? (sockets ++ rest) old ≡ some s) × (old < length sockets)
below old [] rest s h = cc
below zero (x ∷ xs) rest s h = (h, omega arith)
below (suc old) (x ∷ xs) rest s h =
    let (here, less) = below old xs rest s h in (here, omega (arith, less))

start_closing_not_closed :
    (r : ReadyState) → is_closed r ≡ false → is_closed (start_closing r) ≡ false
start_closing_not_closed connecting h = refl
start_closing_not_closed opened h = refl
start_closing_not_closed closing h = refl
start_closing_not_closed closed h = cc

-- While a connection is alive, the page connects again and the new connection opens; then the close event comes
-- that the browser still owes the old one. The status is DISCONNECTED, although the new socket is open, has
-- sent its message and is the one in use.
pub replaced_while_alive :
    (endpoint action : String) (p : Page) (old : ℕ) (s : Socket)
    → current_socket p.ws_service p.services ≡ some old
    → get_elem? p.sockets old ≡ some s
    → is_closed s.ready_state ≡ false
    → let k = length p.sockets in
      let q = run endpoint (connects action true ∷ socket_opens k ∷ socket_closes old ∷ []) p in
      (q.connection_status ≡ disconnected)
      × (current_socket q.ws_service q.services ≡ some k)
      × (get_elem? q.sockets k ≡ some (opened_socket endpoint action (length p.services)))
unfolding run step
replaced_while_alive endpoint action p old s c at alive =
    let q = reset_state (cleanup_resources p) in
    let after = connect endpoint action true p in
    let new = fresh endpoint action (length q.services) in
    let (closing_old, same) = cleaned p old c in
    let (sockets, ws, holds) = connected_to endpoint action p in
    let k = length q.sockets in
    let old_closing = set_ready (start_closing s.ready_state) s in
    let modified =
      get_elem?-modify_self old (λ t. set_ready (start_closing t.ready_state) t) p.sockets at in
    let was : get_elem? q.sockets old ≡ some old_closing =
      ap (λ l. get_elem? l old) closing_old ∙ modified in
    let (still, less) = below old q.sockets (new ∷ []) old_closing was in
    let other : k ≢ old = λ e. omega (arith, e, less) in
    let (status, services, held, opens) =
      then_closes endpoint after k old new old_closing
        (ap (λ l. get_elem? l k) sockets ∙ get_elem?-append_length q.sockets new) refl holds
        (ap (λ l. get_elem? l old) sockets ∙ still) (start_closing_not_closed s.ready_state alive)
        other in
    let size : length q.sockets ≡ length p.sockets =
      ap length closing_old
      ∙ length-modify old (λ t. set_ready (start_closing t.ready_state) t) p.sockets in
    let last = run endpoint (socket_opens k ∷ socket_closes old ∷ []) after in
    let in_use : current_socket last.ws_service last.services ≡ some k =
      ap (λ w. current_socket w last.services) (held ∙ ws)
      ∙ ap (λ l. current_socket (some (length q.services)) l) services
      ∙ holds in
    subst
      (λ m.
        let x = run endpoint (connects action true ∷ socket_opens m ∷ socket_closes old ∷ []) p in
        (x.connection_status ≡ disconnected)
        × (current_socket x.ws_service x.services ≡ some m)
        × (get_elem? x.sockets m ≡ some (opened_socket endpoint action (length p.services))))
      size
      (status, in_use, opens ∙ ap (λ i. some (opened_socket endpoint action i)) (ap length same))
