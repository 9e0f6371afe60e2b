-- ===== src/LogsContext/Sockets.antt =====
-- The WebSocket connections of LogsProvider: at most one is alive.
use raft_in_motion.Prelude.{
  ℕ, String, ◌≡◌, refl, inl, inr, Bool, true, false, some, List, [], ◌∷◌, ◌++◌, length, get_elem?,
  get_elem?-modify_self, get_elem?-append_length, arith, Option-cases,
}
use raft_in_motion.WsService
use raft_in_motion.WsService.{
  ReadyState, connecting, opened, closing, closed, Socket, WebSocketService, new_service, is_closed,
  is_connecting, close, close_old, set_ready, open_socket, error_socket, send_current, current,
  handle_open, handle_close, handle_error, handle_message,
}
use raft_in_motion.LogsContext.Page.{
  Page, Event, connects, disconnects, clears, socket_opens, socket_closes, socket_fails,
  socket_receives, interval_fires, init, step, run, connect, cleanup_resources, reset_state,
}
use raft_in_motion.LogsContext.Live.{live_at-close, live_at-append, live_at, current_socket}
use raft_in_motion.LogsContext.Follows.{
  OneSocket, Follows-OneSocket, opens-Follows, closes-Follows, fails-Follows,
}
use raft_in_motion.LogsContext.SameSockets.{
  SameSockets-OneSocket, tick-SameSockets, receives-SameSockets, clear_logs-SameSockets,
}

-- After cleanupResources no socket is alive.
cleanup_resources-dead :
    (p : Page) (k : ℕ) → OneSocket p → live_at k (cleanup_resources p).sockets ≡ false
unfolding cleanup_resources
cleanup_resources-dead p k v = elim (Option-cases (current_socket p.ws_service p.services)) [
  | inl e ↦ ground (arith, v.only k)
  | inr (c, e) ↦ ground (arith, v.only k, live_at-close c k p.sockets)
]

reset_state-sockets :
    (p : Page) → ((reset_state p).sockets ≡ p.sockets) × ((reset_state p).services ≡ p.services)
unfolding reset_state
reset_state-sockets p = ground arith

cleanup_resources-current :
    (p : Page)
    → OneSocket p
    → (k : ℕ) → live_at k (reset_state (cleanup_resources p)).sockets ≡ false
cleanup_resources-current p v k =
    rw (reset_state-sockets (cleanup_resources p)).0 (cleanup_resources-dead p k v)

connect-OneSocket :
    (endpoint action : String) (ok : Bool) (p : Page)
    → OneSocket p
    → OneSocket (connect endpoint action ok p)
unfolding connect WsService.connect
connect-OneSocket endpoint action true p v =
    let q = reset_state (cleanup_resources p) in
    record {
      only = λ k live. elim (live_at-append k _ q.sockets live) [
        | inl old ↦ cc (old, cleanup_resources-current p v k)
        | inr last ↦
            rw
              (get_elem?-modify_self (length q.services) _ (q.services ++ new_service endpoint ∷ [])
                (get_elem?-append_length q.services (new_service endpoint)))
              (rw last)
      ];
    }
connect-OneSocket endpoint action false p v = record {
  only = λ k live. cc (live, cleanup_resources-current p v k);
}

step-OneSocket :
    (endpoint : String) (e : Event) (p : Page) → OneSocket p → OneSocket (step endpoint e p)
unfolding step
step-OneSocket endpoint (connects action ok) p v = connect-OneSocket endpoint action ok p v
step-OneSocket endpoint disconnects p v = record {
  only = λ k live. cc (live, cleanup_resources-dead p k v);
}
step-OneSocket endpoint clears p v = SameSockets-OneSocket (clear_logs-SameSockets p) v
step-OneSocket endpoint (socket_opens k) p v =
    Follows-OneSocket (opens-Follows k (get_elem? p.sockets k) p refl) v
step-OneSocket endpoint (socket_closes k) p v = Follows-OneSocket (closes-Follows k p) v
step-OneSocket endpoint (socket_fails k) p v =
    Follows-OneSocket (fails-Follows (get_elem? p.sockets k) p) v
step-OneSocket endpoint (socket_receives k d) p v =
    SameSockets-OneSocket (receives-SameSockets k d p) v
step-OneSocket endpoint (interval_fires t) p v = SameSockets-OneSocket (tick-SameSockets t p) v

run-OneSocket :
    (endpoint : String) (events : List Event) (p : Page)
    → OneSocket p
    → OneSocket (run endpoint events p)
unfolding run
run-OneSocket endpoint [] p v = v
run-OneSocket endpoint (e ∷ rest) p v =
    run-OneSocket endpoint rest (step endpoint e p) (step-OneSocket endpoint e p v)

init-OneSocket : OneSocket init
init-OneSocket = record { only = λ k live. cc }

-- In every state that the page can reach, a socket that is connecting or open is the one that the
-- service in wsServiceRef holds: no call of `connect` or `disconnect` leaves a connection behind.
pub one_live_socket :
    (endpoint : String) (events : List Event) (k : ℕ)
    → let p = run endpoint events init in
      live_at k p.sockets ≡ true → current_socket p.ws_service p.services ≡ some k
one_live_socket endpoint events k = (run-OneSocket endpoint events init init-OneSocket).only k
