-- ===== src/WsService.antt =====
-- frontend/src/services/wsService.ts, and the part of the browser's WebSocket that it drives: the
-- ready state, `close`, `send`, and the events. An event that the browser would not deliver in the
-- socket's state changes nothing.
use Prim.Native.String.{◌++◌ as str_append}
use raft_in_motion.Prelude.{
  ℕ, String, Bool, true, false, Option, none, some, List, [], ◌∷◌, ◌++◌, length, get_elem?, modify,
  if◌then◌else◌,
}
use raft_in_motion.Value.{Payload}

pub data ReadyState : Type 0 where
  connecting opened closing closed : ReadyState

-- A WebSocket object. Its handlers hold the action and the service that made it.
pub record Socket : Type 0 where
  pub url : String
  pub action : String
  pub service : ℕ
  pub ready_state : ReadyState
  pub sent : List String

-- The fields of a service; its callbacks are in `Client`.
pub record WebSocketService : Type 0 where
  pub base_url : String
  pub ws : Option ℕ

abbrev pub new_service : String → WebSocketService
new_service base_url = record { base_url = base_url; ws = none }

abbrev pub is_opened : ReadyState → Bool
is_opened opened = true
is_opened _ = false

abbrev pub is_connecting : ReadyState → Bool
is_connecting connecting = true
is_connecting _ = false

abbrev pub is_closed : ReadyState → Bool
is_closed closed = true
is_closed _ = false

-- ws.close() starts the closing handshake; the close event comes later.
abbrev pub start_closing : ReadyState → ReadyState
start_closing closed = closed
start_closing _ = closing

abbrev pub set_ready : ReadyState → Socket → Socket
set_ready r s = record s { ready_state = r }

abbrev pub close : ℕ → List Socket → List Socket
close = λ k. modify k (λ s. set_ready (start_closing s.ready_state) s)

abbrev pub close_old : Option ℕ → List Socket → List Socket
close_old none sockets = sockets
close_old (some k) sockets = close k sockets

-- connect(action) of the service with number `id`. `ok` is false where `new WebSocket` throws; the
-- old socket is closed and forgotten all the same, and the exception leaves the method.
unfoldable pub connect :
    String → Bool → ℕ → WebSocketService → List Socket → Bool × WebSocketService × List Socket
connect action ok id service sockets =
    let kept = close_old service.ws sockets in
    if ok
    then (
      true,
      record service { ws = some (length kept) },
      kept
          ++ record {
            url = str_append service.base_url (str_append "?simulate=" action);
            action = action;
            service = id;
            ready_state = connecting;
            sent = [];
          }
            ∷ [],
    )
    else (false, record service { ws = none }, kept)

-- What the handlers reach: the sockets and services of the page, and the callbacks
-- `onOpen`, `onClose` and `onLogReceived` of a service, where they are set.
pub record Client (P : Type 0) : Type 0 where
  pub sockets : P → List Socket
  pub set_sockets : List Socket → P → P
  pub service : ℕ → P → Option WebSocketService
  pub on_open : ℕ → Option (P → P)
  pub on_close : ℕ → Option (P → P)
  pub on_log_received : ℕ → Option (Payload → P → P)

-- if (this.callback) this.callback()
abbrev pub call : {P : Type 0} → Option (P → P) → P → P
call none p = p
call (some f) p = f p

abbrev call_with : {P : Type 0} → Option (Payload → P → P) → Payload → P → P
call_with none d p = p
call_with (some f) d p = f d p

-- this.ws
abbrev pub current : Option WebSocketService → Option ℕ
current none = none
current (some service) = service.ws

module _ {P : Type 0} (c : Client P) where
  abbrev pub send_to : Option ℕ → Option Socket → String → P → P
  send_to (some k) (some s) action p =
      if is_opened s.ready_state
      then c.set_sockets (modify k (λ t. record t { sent = t.sent ++ action ∷ [] }) (c.sockets p)) p
      else p
  send_to _ _ action p = p

  -- if (this.ws && this.ws.readyState === WebSocket.OPEN) this.ws.send(action)
  abbrev pub send_current : Option ℕ → String → P → P
  send_current none action p = p
  send_current (some k) action p = send_to (some k) (get_elem? (c.sockets p) k) action p

  abbrev pub open_socket : ℕ → Option Socket → P → P
  open_socket k none p = p
  open_socket k (some s) p =
      if is_connecting s.ready_state
      then (let q =
            call (c.on_open s.service)
              (c.set_sockets (modify k (set_ready opened) (c.sockets p)) p) in
          send_current (current (c.service s.service q)) s.action q)
      else p

  -- The socket opens, and ws.onopen runs.
  unfoldable pub handle_open : ℕ → P → P
  handle_open k p = open_socket k (get_elem? (c.sockets p) k) p

  abbrev message_socket : Option Socket → Option Payload → P → P
  message_socket none d p = p
  message_socket (some s) none p = p
  message_socket (some s) (some d) p =
      if is_opened s.ready_state then call_with (c.on_log_received s.service) d p else p

  -- A message arrives, and ws.onmessage runs; `none` is data that `JSON.parse` rejects.
  unfoldable pub handle_message : ℕ → Option Payload → P → P
  handle_message k d p = message_socket (get_elem? (c.sockets p) k) d p

  abbrev pub close_socket : ℕ → Option Socket → P → P
  close_socket k none p = p
  close_socket k (some s) p =
      if is_closed s.ready_state
      then p
      else call (c.on_close s.service) (c.set_sockets (modify k (set_ready closed) (c.sockets p)) p)

  -- The connection has ended, and ws.onclose runs.
  unfoldable pub handle_close : ℕ → P → P
  handle_close k p = close_socket k (get_elem? (c.sockets p) k) p

  abbrev pub error_socket : Option Socket → P → P
  error_socket none p = p
  error_socket (some s) p =
      if is_closed s.ready_state
      then p
      else c.set_sockets (close_old (current (c.service s.service p)) (c.sockets p)) p

  -- ws.onerror runs: it closes the socket that is the service's now.
  unfoldable pub handle_error : ℕ → P → P
  handle_error k p = error_socket (get_elem? (c.sockets p) k) p
