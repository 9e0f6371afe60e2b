-- ===== src/Examples/Server.antt =====
-- The memory logger, the clients of the WebSocket and the harness at concrete inputs; a log is a number.
use raft_in_motion.Prelude.{
  ℕ, String, ◌≡◌, ◌≤◌, ◌*◌, refl, true, false, not, Option, none, some, List, [], ◌∷◌, map,
  slice_last, length, arith, ◌==◌, if◌then◌else◌,
}
use raft_in_motion.Prelude.Int.{ℤ, pos}
use raft_in_motion.Value.{Fields}
use raft_in_motion.Logger.{new_memory_logger, write, get_and_flush_logs, has_logs}
use raft_in_motion.Logger.Queue.{
  Operation, written, flushed, asked, run, run_queue, memory_logger-queue,
  new_memory_logger-Represents,
}
use raft_in_motion.Client
use raft_in_motion.Client.{
  Client, Event, active, receives, logged, checks_idle, checks_logs, ticks, read_fails, sees_closed,
  log_message, step, receive, check_logs, tick, log_client_connection, start_writing, read_error,
  see_closed, clean_up, check_idle,
}
use raft_in_motion.Client.Batches.{Kept, all_keep, all_written, run-Kept}
use raft_in_motion.Client.Handler.{
  Clients, ServerEvent, requests, happens, serve, serve_all, happen, handle_web_socket, make_client,
}
use raft_in_motion.Client.Count.{live, is_within, counter_exact}
use raft_in_motion.Client.Delivery.{batches}
use raft_in_motion.Client.EndToEnd.{arrivals_at, greeted, served, simulation_reaches_page}
use raft_in_motion.WsService.{opened}
use raft_in_motion.LogsContext.Page
use raft_in_motion.LogsContext.Page.{Page, connected}
use raft_in_motion.LogsContext.Delivery.{backlog, accepted_raws}
use raft_in_motion.Harness.Nodes.{
  Cluster, Disturbance, isolates, crashes, rejoins, restarts, new_harness, link, disconnect_service,
  reconnect_peer, reconnect_service, crash_service, restart_service, disturb, disturb_all,
  is_allowed, are_allowed, is_linked,
}
use raft_in_motion.Harness.Simulated.{services_stay_linked, isolated_is_reached}
use raft_in_motion.RpcServer.{new_server, connect_to_peer, disconnect_peer, disconnect_all}
use raft_in_motion.RpcServer.Connections.{
  Change, connects, disconnects, disconnects_all, change_all, Matched, connections-Matched,
}
use raft_in_motion.Examples.{endpoint, won_log}

-- Three logs in a ring of two, of which the oldest is lost.
abbrev operations : List (Operation ℕ)
operations = written 7 ∷ written 8 ∷ written 9 ∷ asked ∷ flushed 5 ∷ flushed 5 ∷ []

memory_logger-queue_example : run operations (new_memory_logger 2) ≡ run_queue 2 operations []
memory_logger-queue_example = memory_logger-queue 1 operations

-- A log is an object where it is not 6.
abbrev unmarshal : ℕ → Option Fields
unmarshal n = if n == 6 then none else some (won_log (pos n))

abbrev idle_client : Client ℕ
idle_client = record {
  state = active;
  is_closed = false;
  once = false;
  logger = new_memory_logger 3;
  last_activity = 0;
  reading = true;
  writing = true;
  ticker_active = false;
  sent = [];
}

abbrev turns : List (Event ℕ)
turns = receives 1 6 ∷ logged 1 ∷ checks_logs ∷ ticks true 3 ∷ logged 2 ∷ []

turns_keep : all_keep unmarshal turns 1 idle_client ≡ true
unfolding new_memory_logger step receive write check_logs has_logs tick get_and_flush_logs
turns_keep = refl

run-Kept_example :
    Kept unmarshal idle_client []
      (all_written unmarshal turns 1 idle_client)
      (Client.run unmarshal turns 1 idle_client).1
run-Kept_example =
    run-Kept unmarshal turns 1 idle_client [] turns_keep
      (new_memory_logger-Represents 2 (new_memory_logger 3) refl)

abbrev atoi : String → Option ℤ
atoi text = some (pos 6)

abbrev nobody : Clients ℕ
nobody = record { active_clients = 0; clients = [] }

abbrev visits : List (ServerEvent ℕ)
visits =
    requests "6" true [] ∷ requests "6" true [] ∷ happens 0 read_fails ∷ happens 0 sees_closed ∷ []

visits_within : is_within atoi unmarshal visits nobody ≡ true
unfolding serve happen handle_web_socket make_client log_client_connection start_writing step
    read_error see_closed clean_up new_memory_logger has_logs
visits_within = refl

counter_exact_example :
    (serve_all atoi unmarshal visits nobody).active_clients
    ≡ live (serve_all atoi unmarshal visits nobody).clients
counter_exact_example = counter_exact atoi unmarshal visits nobody refl visits_within

-- A page that is connected.
abbrev open_page : Page
open_page = record {
  sockets =
      record { url = endpoint; action = "6"; service = 0; ready_state = opened; sent = [] } ∷ [];
  services = [];
  ws_service = none;
  log_queue = [];
  flush_interval = none;
  intervals = [];
  next_interval = 1;
  logs = [];
  connection_status = connected;
}

-- Two logs, the page's message at 100 s, and the turns of four seconds.
abbrev seconds : List (Event ℕ)
seconds =
    checks_idle 101
    ∷ checks_logs
    ∷ ticks true 102
    ∷ checks_idle 102
    ∷ checks_logs
    ∷ checks_idle 103
    ∷ ticks true 104
    ∷ checks_idle 104
    ∷ []

one_batch :
    length {A = ℕ} (slice_last 100 (1 ∷ 2 ∷ 6 ∷ []))
    ≤ 10 * batches unmarshal seconds 1 (greeted 100 6 (1 ∷ 2 ∷ []))
unfolding step receive start_writing make_client new_memory_logger has_logs write check_logs
    check_idle tick get_and_flush_logs
one_batch = omega arith

simulation_reaches_page_example :
    backlog
      (Page.run endpoint (arrivals_at 0 (served unmarshal 100 6 seconds 1 (1 ∷ 2 ∷ []))) open_page)
    ≡ accepted_raws (map (log_message unmarshal) (slice_last 100 (1 ∷ 2 ∷ 6 ∷ [])))
simulation_reaches_page_example =
    simulation_reaches_page unmarshal endpoint 100 1 0 6 (1 ∷ 2 ∷ []) seconds open_page refl
      one_batch refl

-- Node 0 crashes and is started again while its dial of node 2 fails; node 1 is cut off and returns.
abbrev disturbances : List Disturbance
disturbances =
    crashes 0 ∷ restarts (λ i j. not (j == 2)) 0 ∷ isolates 1 ∷ rejoins (λ i j. true) 1 ∷ []

disturbances_allowed : are_allowed disturbances (new_harness (λ i j. true) 3) ≡ true
unfolding new_harness link disconnect_service reconnect_peer reconnect_service crash_service
    restart_service disturb is_allowed are_allowed connect_to_peer disconnect_peer disconnect_all
disturbances_allowed = refl

disturbances_connect :
    let h = disturb_all disturbances (new_harness (λ i j. true) 3) in
    (h.n ≡ 3) × ((h.connected 1 ≡ true) × (h.connected 2 ≡ true))
unfolding new_harness link disconnect_service reconnect_peer reconnect_service crash_service
    restart_service disturb disturb_all connect_to_peer disconnect_peer disconnect_all
disturbances_connect = (refl, (refl, refl))

services_stay_linked_example :
    let h = disturb_all disturbances (new_harness (λ i j. true) 3) in
    (h.alive 1 ≡ true) × (is_linked h 1 2 ≡ true)
services_stay_linked_example =
    services_stay_linked 3 disturbances 1 2 disturbances_allowed
      (omega (arith, disturbances_connect.0)) (omega (arith, disturbances_connect.0)) refl
      disturbances_connect.1.0 disturbances_connect.1.1

abbrev changes : List Change
changes =
    connects true 1
    ∷ connects true 2
    ∷ connects true 1
    ∷ disconnects 1
    ∷ disconnects_all (1 ∷ 2 ∷ [])
    ∷ []

connections-Matched_example : Matched (change_all changes (new_server 0))
connections-Matched_example = connections-Matched 0 changes

-- Of three nodes, 0 and 1 are cut off.
abbrev cut_off : Cluster
cut_off = record { n = 3; services = new_server; connected = λ i. i == 2; alive = λ i. true }

cut_off_returns : (reconnect_service (λ i j. true) 0 cut_off).connected 0 ≡ true
unfolding link reconnect_peer reconnect_service connect_to_peer
cut_off_returns = refl

isolated_is_reached_example :
    let r = reconnect_service (λ i j. true) 0 cut_off in
    (r.connected 1 ≡ false) × ((is_linked r 0 1 ≡ true) × (is_linked r 1 0 ≡ true))
isolated_is_reached_example =
    isolated_is_reached (λ i j. true) 0 1 cut_off (omega arith) refl refl refl refl cut_off_returns
