-- ===== src/LogsDispatcher/Inbox.antt =====
-- useServerLogs of frontend/src/context/logsDispatcher.tsx: the hook of one server instance. All the
-- instances of the page share the dispatcher; instance n is the n-th of a list.
use raft_in_motion.Prelude.{ℕ, suc, List, [], ◌∷◌, ◌++◌, map, modify}
use raft_in_motion.Prelude.Int.{ℤ}
use raft_in_motion.Value.{Fields}
use raft_in_motion.LogsDispatcher.{
  LogCallback, LogDispatcher, init, register_server, unregister_server, reset_log_processing,
  process_logs,
}

pub record Inbox : Type 0 where
  pub raft_id : ℤ
  pub server_logs : List Fields

-- setServerLogs(prev => [...prev, log]) of instance n
abbrev pub log_callback : ℕ → LogCallback (List Inbox)
log_callback n log = modify n (λ i. record i { server_logs = i.server_logs ++ log ∷ [] })

abbrev pub empty_inbox : Inbox → Inbox
empty_inbox i = record i { server_logs = [] }

-- The callbacks of the instances from number n on are registered, in the order of the effects.
unfoldable pub register_all :
    ℕ → List Inbox → LogDispatcher (List Inbox) → LogDispatcher (List Inbox)
unfolding register_server
register_all n [] d = d
register_all n (i ∷ rest) d =
    register_all (suc n) rest (register_server i.raft_id (log_callback n) d)

unfoldable pub unregister_all : List Inbox → LogDispatcher (List Inbox) → LogDispatcher (List Inbox)
unfolding unregister_server
unregister_all [] d = d
unregister_all (i ∷ rest) d = unregister_all rest (unregister_server i.raft_id d)

pub record Dispatch : Type 0 where
  pub dispatcher : LogDispatcher (List Inbox)
  pub inboxes : List Inbox

abbrev pub fresh : List ℤ → List Inbox
fresh [] = []
fresh (id ∷ rest) = record { raft_id = id; server_logs = [] } ∷ fresh rest

-- The first render of instances for these servers, and its effects: each registers its callback.
unfoldable pub mount : List ℤ → Dispatch
unfolding register_all
mount servers = record { dispatcher = register_all 0 (fresh servers) init; inboxes = fresh servers }

-- The effects of a render with new logs.
unfoldable pub logs_changed : List Fields → Dispatch → Dispatch
unfolding process_logs
logs_changed logs w =
    let (d, inboxes) = process_logs logs w.dispatcher w.inboxes in
    record { dispatcher = d; inboxes = inboxes }

-- The effects of a render with a new connection status: the clean-ups unregister the callbacks, each
-- instance empties its logs and registers again, and the dispatcher starts again from the first log.
unfoldable pub status_changed : Dispatch → Dispatch
unfolding register_all unregister_all reset_log_processing
status_changed w = record {
  dispatcher =
      reset_log_processing (register_all 0 w.inboxes (unregister_all w.inboxes w.dispatcher));
  inboxes = map empty_inbox w.inboxes;
}

-- The renders of the page, as far as the dispatcher sees them: logs are appended, the connection
-- status changes, `connect` empties the logs and changes the status in one render, and `clearLogs`
-- empties the logs alone.
pub data Render : Type 0 where
  grows : List Fields → Render
  status_changes connects clears : Render

pub record View : Type 0 where
  pub logs : List Fields
  pub dispatch : Dispatch

unfoldable pub render : Render → View → View
render (grows more) v =
    let all = v.logs ++ more in record { logs = all; dispatch = logs_changed all v.dispatch }
render status_changes v = record v { dispatch = status_changed v.dispatch }
render connects v = record { logs = []; dispatch = status_changed (logs_changed [] v.dispatch) }
render clears v = record { logs = []; dispatch = logs_changed [] v.dispatch }

unfoldable pub run : List Render → View → View
run [] v = v
run (r ∷ rest) v = run rest (render r v)
