-- ===== src/Examples/Page.antt =====
-- The page and the dispatcher at concrete inputs.
use raft_in_motion.Prelude.{
  List, String, ap, get_last?, ℕ, ◌≡◌, ◌⊎◌, ◌↔◌, refl, true, some, [], ◌∷◌, ◌++◌, length, get_elem?,
  replicate, filter, suc,
}
use raft_in_motion.Value.{Fields}
use raft_in_motion.Prelude.Int.{pos}
use raft_in_motion.Value.{str, property, log_object}
use raft_in_motion.Types.Enums.{LogMessageType, leader, message_value}
use raft_in_motion.Types.Logs.{Log}
use raft_in_motion.LogsContext.Parse.{parse_log}
use raft_in_motion.LogsContext.Parse.Accepts.{parse_log_exact}
use raft_in_motion.LogsContext.Page.{
  connects, socket_opens, socket_closes, disconnected, init, run, interval_fires,
}
use raft_in_motion.LogsContext.Delivery.{backlog, history_of, run-backlog}
use raft_in_motion.LogsContext.Timer.{waiting_is_shown, drained}
use raft_in_motion.LogsContext.Sockets.{one_live_socket}
use raft_in_motion.LogsContext.Replaced.{opened_socket, replaced_while_alive}
use raft_in_motion.LogsContext.Live.{current_socket}
use raft_in_motion.LogsDispatcher.Inbox
use raft_in_motion.LogsDispatcher.Inbox.{
  Render, View, grows, status_changes, connects as connects_page, clears, render, mount,
}
use raft_in_motion.LogsDispatcher.Routes.{is_about}
use raft_in_motion.LogsDispatcher.Mirror.{delivered}
use raft_in_motion.ServerInstance
use raft_in_motion.ServerInstance.{process_log}
use raft_in_motion.Dashboard.{start, show_log, show_all, lose_connection}
use raft_in_motion.Dashboard.Panels.{process_all, panels_follow_logs}
use raft_in_motion.Dashboard.Replay.{replayed_after_close}
use raft_in_motion.Examples.{
  session_live, session_open, endpoint, session, servers, candidate_log, won_log,
}

run-backlog_example :
    backlog (run endpoint session init) ≡ history_of endpoint session init (backlog init)
run-backlog_example = run-backlog endpoint session init

waiting_is_shown_example :
    let p = run endpoint session init in
    (p.log_queue ≡ [])
    ⊎ ((t : ℕ) × (p.flush_interval ≡ some t)
        × (run endpoint (replicate (suc (length p.log_queue)) (interval_fires t)) p ≡ drained p))
waiting_is_shown_example = waiting_is_shown endpoint session refl

one_live_socket_example :
    let p = run endpoint session init in current_socket p.ws_service p.services ≡ some 0
one_live_socket_example = one_live_socket endpoint session 0 session_live

replaced_while_alive_example :
    let p = run endpoint session init in
    let k = length p.sockets in
    let q = run endpoint (connects "6" true ∷ socket_opens k ∷ socket_closes 0 ∷ []) p in
    (q.connection_status ≡ disconnected)
    × (current_socket q.ws_service q.services ≡ some k)
    × (get_elem? q.sockets k ≡ some (opened_socket endpoint "6" (length p.services)))
replaced_while_alive_example =
    replaced_while_alive endpoint "6" (run endpoint session init) 0 (opened_socket endpoint "6" 0)
      (one_live_socket endpoint session 0 session_live) session_open refl

delivered_example :
    let v =
      Inbox.run
        (status_changes ∷ grows (candidate_log (pos 1) ∷ []) ∷ [])
        (record { logs = []; dispatch = mount servers }) in
    get_elem? (render (grows (won_log (pos 1) ∷ won_log (pos 2) ∷ [])) v).dispatch.inboxes 1
    ≡ some (record {
      raft_id = pos 1;
      server_logs = filter (is_about (pos 1)) (v.logs ++ won_log (pos 1) ∷ won_log (pos 2) ∷ []);
    })
delivered_example =
    delivered servers refl (status_changes ∷ grows (candidate_log (pos 1) ∷ []) ∷ [])
      (won_log (pos 1) ∷ won_log (pos 2) ∷ []) refl 1 (pos 1) refl

-- The servers have received two logs.
abbrev two_received : View
two_received = record {
  logs = won_log (pos 1) ∷ won_log (pos 2) ∷ [];
  dispatch = record {
    dispatcher = record { unprocessed_from = 2; server_callbacks = [] };
    inboxes = record { raft_id = pos 1; server_logs = won_log (pos 1) ∷ [] } ∷ [];
  };
}

parse_log_exact_example : (parse_log (log_object (won_log (pos 1))) ≡ some (won_log (pos 1))) ↔ (
    (log_object (won_log (pos 1)) ≡ log_object (won_log (pos 1)))
    × ((m : LogMessageType) × (property "message" (won_log (pos 1)) ≡ str (message_value m))))
parse_log_exact_example = parse_log_exact (log_object (won_log (pos 1))) (won_log (pos 1))

abbrev won : Log
won = Log.election_won (record {
  server = record { base = record { level = "INFO"; time = "12:00:00" }; raft_id = pos 1 };
  state = leader;
  term = pos 3;
})

abbrev two_shown : List (String × Fields)
two_shown = ("t1", candidate_log (pos 1)) ∷ ("t2", won_log (pos 1)) ∷ []

panels_follow_logs_example :
    get_elem? (show_all two_shown (start servers)).panels 1
    ≡ some (process_all (pos 1) two_shown (ServerInstance.init (pos 1)))
panels_follow_logs_example = panels_follow_logs servers refl two_shown 1 (pos 1) refl

logs_of_two_shown :
    (show_all two_shown (start servers)).view.logs ≡ candidate_log (pos 1) ∷ won_log (pos 1) ∷ []
unfolding show_all show_log render start
logs_of_two_shown = refl

replayed_after_close_example :
    get_elem?
      (show_log "t3"
        (won_log (pos 2))
        (lose_connection (show_all two_shown (start servers)))).panels
      1
    ≡ some (
        process_log "t3"
          (won_log (pos 1))
          (process_all (pos 1) two_shown (ServerInstance.init (pos 1))))
replayed_after_close_example =
    replayed_after_close servers refl two_shown "t3" (won_log (pos 2)) (won_log (pos 1)) 1 (pos 1)
      (process_all (pos 1) two_shown (ServerInstance.init (pos 1))) refl refl
      (panels_follow_logs servers refl two_shown 1 (pos 1) refl)
      (ap (λ l. get_last? (filter (is_about (pos 1)) l)) logs_of_two_shown)
