-- ===== src/Client.antt =====
-- internal/client/client.go: a client of the simulation's WebSocket, its loops, and the number of
-- clients. Each event is one turn of a loop or of a goroutine, at a time in seconds; a loop that has
-- returned takes no more turns. A message that is sent is what the page's `JSON.parse` makes of it.
-- Parameters: the bytes of a log and `json.Unmarshal` of them. A connection that fails is an event.
pub mod Handler
pub mod Count
pub mod Limit
pub mod Batches
pub mod Startup
pub mod Delivery
pub mod EndToEnd
use raft_in_motion.Prelude.{
  ℕ, suc, ◌-◌, ltb, leb, Bool, true, false, not, ◌&&◌, Option, none, some, List, [], ◌∷◌, ◌++◌, map,
  if◌then◌else◌,
}
use raft_in_motion.Value.{Raw, Fields, Payload, null, scalar, log_object, array}
use raft_in_motion.Logger.{MemoryLogger, write, get_and_flush_logs, has_logs}

abbrev pub max_clients : ℕ
max_clients = 3

abbrev pub idle_timeout : ℕ
idle_timeout = 5

abbrev pub batch_size : ℕ
batch_size = 10

pub data ClientState : Type 0 where
  active disconnected closed : ClientState

pub record Client (B : Type 0) : Type 0 where
  pub state : ClientState
  pub is_closed : Bool  -- the channel Closed is closed
  pub once : Bool  -- Once has run its function
  pub logger : MemoryLogger B
  pub last_activity : ℕ
  pub reading : Bool  -- ReadLoop runs
  pub writing : Bool  -- WriteLoop runs
  pub ticker_active : Bool
  pub sent : List Payload

unfoldable pub can_accept_new_client : ℕ → Bool
can_accept_new_client active_clients = ltb active_clients max_clients

-- activeClients after LogClientConnection(connected)
unfoldable pub log_client_connection : Bool → ℕ → ℕ
log_client_connection true n = if leb max_clients n then n else suc n
log_client_connection false n = if ltb 0 n then n - 1 else n

abbrev pub is_active : ClientState → Bool
is_active active = true
is_active _ = false

module _ {B : Type 0} where
  -- NewClient, with ErrMaxClientsReached as `none`.
  unfoldable pub new_client : MemoryLogger B → ℕ → ℕ → Option (ℕ × Client B)
  unfolding can_accept_new_client log_client_connection
  new_client logger now n =
      if can_accept_new_client n
      then some (
        log_client_connection true n,
        record {
          state = active;
          is_closed = false;
          once = false;
          logger = logger;
          last_activity = now;
          reading = false;
          writing = false;
          ticker_active = false;
          sent = [];
        },
      )
      else none

  -- CleanUp, with the counter.
  unfoldable pub clean_up : ℕ → Client B → ℕ × Client B
  unfolding log_client_connection
  clean_up n c = if c.once then (n, c) else (
    log_client_connection false n,
    record c { once = true; is_closed = true; state = closed },
  )

  -- The start of WriteLoop.
  unfoldable pub start_writing : Client B → Client B
  start_writing c = record c { writing = true; ticker_active = has_logs c.logger }

  -- One turn of ReadLoop with a message, and with an error.
  unfoldable pub receive : ℕ → B → Client B → Client B
  receive now msg c =
      if c.reading then record c { last_activity = now; logger = write msg c.logger } else c

  unfoldable pub read_error : ℕ → Client B → ℕ × Client B
  unfolding clean_up
  read_error n c =
      if c.reading then clean_up n (record c { reading = false; state = disconnected }) else (n, c)

  -- WriteLoop returns.
  abbrev pub exit_writing : ℕ → Client B → ℕ × Client B
  exit_writing n c = clean_up n (record c { writing = false; ticker_active = false })

  -- idleChecker
  unfoldable pub check_idle : ℕ → ℕ → Client B → ℕ × Client B
  unfolding clean_up
  check_idle now n c =
      if c.writing && leb idle_timeout (now - c.last_activity) && is_active c.state
      then exit_writing n c
      else (n, c)

  -- checkTicker of the goroutine, and what WriteLoop does with its message on tickerControl.
  unfoldable pub check_logs : Client B → Client B
  check_logs c =
      if c.writing && has_logs c.logger && not c.ticker_active
      then record c { ticker_active = true }
      else c

  -- <-c.Closed
  unfoldable pub see_closed : ℕ → Client B → ℕ × Client B
  unfolding clean_up
  see_closed n c = if c.writing && c.is_closed then exit_writing n c else (n, c)

  module _ (unmarshal : B → Option Fields) where
    -- An entry of logMessages: nil where json.Unmarshal fails, which json.Marshal writes as null.
    abbrev pub log_message : B → Raw
    log_message entry = elim (unmarshal entry) [
      | none ↦ scalar null
      | some log_data ↦ log_object log_data
    ]

    abbrev pub send_batch : Bool → ℕ → List B → Client B → ℕ × Client B
    send_batch ok n [] c = (n, record c { ticker_active = false })
    send_batch true n (e ∷ logs) c =
        (n, record c { sent = c.sent ++ array (map log_message (e ∷ logs)) ∷ [] })
    send_batch false n (e ∷ logs) c = exit_writing n c

    -- logTicker, where `ok` is false if WriteMessage fails.
    unfoldable pub tick : Bool → ℕ → ℕ → Client B → ℕ × Client B
    unfolding clean_up
    tick ok now n c =
        let flushed = get_and_flush_logs batch_size c.logger in
        if c.writing && c.ticker_active
        then send_batch ok n flushed.0 (record c { last_activity = now; logger = flushed.1 })
        else (n, c)

-- What happens to a client; `logged` is a log of the simulation.
pub data Event (B : Type 0) : Type 0 where
  receives : ℕ → B → Event B
  read_fails : Event B
  logged : B → Event B
  checks_idle : ℕ → Event B
  ticks : Bool → ℕ → Event B
  checks_logs sees_closed : Event B

module _ {B : Type 0} (unmarshal : B → Option Fields) where
  unfoldable pub step : Event B → ℕ → Client B → ℕ × Client B
  unfolding receive read_error check_idle check_logs see_closed tick
  step (receives now msg) n c = (n, receive now msg c)
  step read_fails n c = read_error n c
  step (logged entry) n c = (n, record c { logger = write entry c.logger })
  step (checks_idle now) n c = check_idle now n c
  step (ticks ok now) n c = tick unmarshal ok now n c
  step checks_logs n c = (n, check_logs c)
  step sees_closed n c = see_closed n c

  unfoldable pub run : List (Event B) → ℕ → Client B → ℕ × Client B
  run [] n c = (n, c)
  run (e ∷ rest) n c = let after = step e n c in run rest after.0 after.1
