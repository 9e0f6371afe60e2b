-- ===== src/Client/Handler.antt =====
-- internal/ws/handler.go: the requests for a WebSocket, and the clients that they make
-- (internal/client/client.go). Parameters: strconv.Atoi, whether the upgrade of the connection succeeds, and
-- the logs that the simulation writes before the loops of the client start.
use raft_in_motion.Prelude.{
  ℕ, String, Bool, true, false, not, Option, none, some, List, [], ◌∷◌, ◌++◌, modify, get_elem?,
  if◌then◌else◌,
}
use text.Mathlib.Text.{◌==◌ as str_eq}
use raft_in_motion.Prelude.Int.{ℤ, pos, int_eq}
use raft_in_motion.Value.{Fields}
use raft_in_motion.Logger.{MemoryLogger, new_memory_logger, write}
use raft_in_motion.Client.{Client, Event, active, log_client_connection, start_writing, step}

-- The answer of HandleWebSocket: an HTTP error, or a connection.
pub data Answer : Type 0 where
  missing_parameter invalid_parameter upgrade_error connected : Answer

-- The variable activeClients, and every client that was made.
pub record Clients (B : Type 0) : Type 0 where
  pub active_clients : ℕ
  pub clients : List (Client B)

abbrev is_simulation : Option ℤ → Bool
is_simulation none = false
is_simulation (some n) = int_eq n (pos 6)

-- A request with its parameter, whether it is upgraded and the logs of its simulation; or an event
-- of a client, by its number.
pub data ServerEvent (B : Type 0) : Type 0 where
  requests : String → Bool → List B → ServerEvent B
  happens : ℕ → Event B → ServerEvent B

module _ {B : Type 0} where
  abbrev pub write_all : List B → MemoryLogger B → MemoryLogger B
  write_all [] logger = logger
  write_all (e ∷ rest) logger = write_all rest (write e logger)

  -- The client of the handler: it has no LastActivity, which is the zero time.
  unfoldable pub make_client : List B → Client B
  unfolding new_memory_logger write
  make_client logs = record {
    state = active;
    is_closed = false;
    once = false;
    logger = write_all logs (new_memory_logger 100);
    last_activity = 0;
    reading = false;
    writing = false;
    ticker_active = false;
    sent = [];
  }

  unfoldable pub handle_web_socket :
      (String → Option ℤ) → String → Bool → List B → Clients B → Answer × Clients B
  unfolding log_client_connection make_client start_writing
  handle_web_socket atoi simulate upgrades logs s =
      let c : Client B = start_writing (record (make_client logs) { reading = true }) in
      if str_eq simulate ""
      then (missing_parameter, s)
      else if not (is_simulation (atoi simulate))
      then (invalid_parameter, s)
      else if not upgrades
      then (upgrade_error, s)
      else (
        connected,
        record {
          active_clients = log_client_connection true s.active_clients;
          clients = s.clients ++ c ∷ [];
        },
      )

  abbrev pub put_back : ℕ → Clients B → ℕ × Client B → Clients B
  put_back i s (n, c) = record s { active_clients = n; clients = modify i (λ d. c) s.clients }

  module _ (atoi : String → Option ℤ) (unmarshal : B → Option Fields) where
    unfoldable pub happen : ℕ → Event B → Clients B → Option (Client B) → Clients B
    unfolding step
    happen i e s none = s
    happen i e s (some c) = put_back i s (step unmarshal e s.active_clients c)

    unfoldable pub serve : ServerEvent B → Clients B → Clients B
    unfolding handle_web_socket happen
    serve (requests simulate upgrades logs) s = (handle_web_socket atoi simulate upgrades logs s).1
    serve (happens i e) s = happen i e s (get_elem? s.clients i)

    unfoldable pub serve_all : List (ServerEvent B) → Clients B → Clients B
    serve_all [] s = s
    serve_all (e ∷ rest) s = serve_all rest (serve e s)
