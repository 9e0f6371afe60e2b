-- ===== src/LogsContext/Page.antt =====
-- The state of LogsProvider (frontend/src/context/logsContext.tsx), with what its refs point at in
-- the browser: the sockets, the services and the intervals that still fire. `setLogs` and
-- `setConnectionStatus` take effect at once.
use raft_in_motion.Prelude.{
  ℕ, suc, String, Bool, true, false, Option, none, some, is_some, List, [], ◌∷◌, ◌++◌, length,
  get_elem?, modify, filter, not, has, ◌==◌, ◌&&◌, if◌then◌else◌,
}
use raft_in_motion.Value.{Raw, Fields, Payload, array, single}
use raft_in_motion.WsService
use raft_in_motion.WsService.{Socket, WebSocketService, Client, new_service, close}
use raft_in_motion.LogsContext.Parse.{parse_log}

pub data ConnectionStatus : Type 0 where
  disconnected connecting connected : ConnectionStatus

pub record Page : Type 0 where
  pub sockets : List Socket
  pub services : List WebSocketService
  pub ws_service : Option ℕ  -- wsServiceRef.current
  pub log_queue : List Fields  -- logQueueRef.current
  pub flush_interval : Option ℕ  -- flushIntervalRef.current
  pub intervals : List ℕ  -- the intervals that fire
  pub next_interval : ℕ  -- the id of the next one
  pub logs : List Fields
  pub connection_status : ConnectionStatus

-- The first render; the browser numbers intervals from 1.
abbrev pub init : Page
init = record {
  sockets = [];
  services = [];
  ws_service = none;
  log_queue = [];
  flush_interval = none;
  intervals = [];
  next_interval = 1;
  logs = [];
  connection_status = disconnected;
}

abbrev pub clear_interval : ℕ → Page → Page
clear_interval t p = record p { intervals = filter (λ u. not (u == t)) p.intervals }

abbrev clear_flush : Option ℕ → Page → Page
clear_flush none p = p
clear_flush (some t) p = record (clear_interval t p) { flush_interval = none }

-- if (flushIntervalRef.current) { clearInterval(…); flushIntervalRef.current = null }
abbrev pub stop_flushing : Page → Page
stop_flushing p = clear_flush p.flush_interval p

abbrev close_current : Option ℕ → Option WebSocketService → Page → Page
close_current none s p = p
close_current (some i) none p = p
close_current (some i) (some s) p = elim s.ws [
  | none ↦ p
  | some k ↦ record p { sockets = close k p.sockets; ws_service = none }
]

abbrev service_of : Option ℕ → List WebSocketService → Option WebSocketService
service_of none services = none
service_of (some i) services = get_elem? services i

unfoldable pub cleanup_resources : Page → Page
cleanup_resources p =
    let q = stop_flushing p in
    let r = close_current q.ws_service (service_of q.ws_service q.services) q in
    record r { connection_status = disconnected }

abbrev clear_old : Option ℕ → Page → Page
clear_old none p = p
clear_old (some t) p = clear_interval t p

unfoldable pub start_flushing : Page → Page
start_flushing p =
    let q = clear_old p.flush_interval p in
    record q {
      flush_interval = some q.next_interval;
      intervals = q.intervals ++ q.next_interval ∷ [];
      next_interval = suc q.next_interval;
    }

abbrev pub flush : List Fields → Page → Page
flush [] p = record (clear_old p.flush_interval p) { flush_interval = none }
flush (next_log ∷ rest) p = record p { log_queue = rest; logs = p.logs ++ next_log ∷ [] }

-- The interval t fires: the callback that startFlushing gave to setInterval.
unfoldable pub tick : ℕ → Page → Page
tick t p = if has t p.intervals then flush p.log_queue p else p

abbrev pub push_log : Option Fields → Page → Page
push_log none p = p
push_log (some log) p = record p { log_queue = p.log_queue ++ log ∷ [] }

unfoldable pub push_all : List Raw → Page → Page
push_all [] p = p
push_all (raw ∷ rest) p = push_all rest (push_log (parse_log raw) p)

unfoldable pub push_payload : Payload → Page → Page
unfolding push_all
push_payload (array raws) p = push_all raws p
push_payload (single raw) p = push_log (parse_log raw) p

abbrev is_nonempty : List Fields → Bool
is_nonempty [] = false
is_nonempty (x ∷ xs) = true

-- if (!flushIntervalRef.current && logQueueRef.current.length > 0) startFlushing()
unfoldable pub flush_if_idle : Page → Page
unfolding start_flushing
flush_if_idle p =
    if not (is_some p.flush_interval) && is_nonempty p.log_queue then start_flushing p else p

unfoldable pub enqueue_log : Payload → Page → Page
unfolding flush_if_idle
enqueue_log payload p = flush_if_idle (push_payload payload p)

unfoldable pub reset_state : Page → Page
reset_state p = stop_flushing (record p { logs = []; log_queue = [] })

abbrev pub set_status : ConnectionStatus → Page → Page
set_status s p = record p { connection_status = s }

-- The callbacks that `connect` gives to each service, and what the handlers reach.
abbrev pub page_client : Client Page
page_client = record {
  sockets = λ p. p.sockets;
  set_sockets = λ sockets p. record p { sockets = sockets };
  service = λ i p. get_elem? p.services i;
  on_open = λ i. some (set_status connected);
  on_close = λ i. some (set_status disconnected);
  on_log_received = λ i. some enqueue_log;
}

-- newWsService.connect(action), then the assignment to wsServiceRef, or the `catch`.
abbrev finish_connect : ℕ → Bool × WebSocketService × List Socket → Page → Page
finish_connect i (true, service, sockets) p = record p {
  sockets = sockets;
  services = modify i (λ _. service) p.services;
  ws_service = some i;
}
finish_connect i (false, service, sockets) p = record p {
  sockets = sockets;
  services = modify i (λ _. service) p.services;
  connection_status = disconnected;
}

-- connect(action) at the endpoint. `ok` is false where `new WebSocket` throws, which is caught and
-- thrown again after the status is set.
unfoldable pub connect : String → String → Bool → Page → Page
connect endpoint action ok p =
    let q = set_status connecting (reset_state (cleanup_resources p)) in
    let i = length q.services in
    let fresh = record q { services = q.services ++ new_service endpoint ∷ [] } in
    finish_connect i (WsService.connect action ok i (new_service endpoint) fresh.sockets) fresh

unfoldable pub clear_logs : Page → Page
unfolding reset_state
clear_logs p = reset_state p

unfoldable pub disconnect : Page → Page
unfolding cleanup_resources
disconnect p = cleanup_resources p

-- What happens to the page: the calls of its context value, the events of its sockets, and its
-- intervals.
pub data Event : Type 0 where
  connects : String → Bool → Event
  disconnects clears : Event
  socket_opens socket_closes socket_fails : ℕ → Event
  socket_receives : ℕ → Option Payload → Event
  interval_fires : ℕ → Event

-- WS_ENDPOINT is a parameter: it comes from the environment of the build.
unfoldable pub step : String → Event → Page → Page
unfolding connect cleanup_resources reset_state disconnect clear_logs WsService.connect
    WsService.handle_open WsService.handle_close WsService.handle_error WsService.handle_message
step endpoint (connects action ok) p = connect endpoint action ok p
step endpoint disconnects p = disconnect p
step endpoint clears p = clear_logs p
step endpoint (socket_opens k) p = WsService.handle_open page_client k p
step endpoint (socket_closes k) p = WsService.handle_close page_client k p
step endpoint (socket_fails k) p = WsService.handle_error page_client k p
step endpoint (socket_receives k d) p = WsService.handle_message page_client k d p
step endpoint (interval_fires t) p = tick t p

unfoldable pub run : String → List Event → Page → Page
run endpoint [] p = p
run endpoint (e ∷ rest) p = run endpoint rest (step endpoint e p)
