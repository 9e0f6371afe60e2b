-- ===== src/Dashboard.antt =====
-- frontend/src/app/page.tsx: the dispatcher with a panel for each server, as the page mounts them. The
-- logs arrive one after the other, as the interval of LogsProvider shows them, and each is rendered
-- before the next.
pub mod Panels
pub mod Replay
use raft_in_motion.Prelude.{ℕ, String, List, [], ◌∷◌, map, length, ◌==◌, if◌then◌else◌}
use raft_in_motion.Prelude.Int.{ℤ}
use raft_in_motion.Value.{Fields}
use raft_in_motion.LogsDispatcher.Inbox.{Inbox, View, grows, status_changes, render, mount}
use raft_in_motion.ServerInstance.{ServerInstance, init, server_logs_changed}

pub record Dashboard : Type 0 where
  pub view : View
  pub panels : List ServerInstance

-- A panel's effect on serverLogs runs when useServerLogs has appended to them.
abbrev pub refresh : String → Inbox → Inbox → ServerInstance → ServerInstance
refresh now before after panel =
    if length after.server_logs == length before.server_logs
    then panel
    else server_logs_changed now after.server_logs panel

abbrev pub refresh_all :
    String → List Inbox → List Inbox → List ServerInstance → List ServerInstance
refresh_all now (i ∷ before) (j ∷ after) (s ∷ panels) =
    refresh now i j s ∷ refresh_all now before after panels
refresh_all now _ _ panels = panels

-- instances.map((id) => <ServerInstance raftID={id} />), and the first render.
unfoldable pub start : List ℤ → Dashboard
unfolding mount
start servers = record {
  view = record { logs = []; dispatch = mount servers };
  panels = map init servers;
}

-- A log is shown at the time `now`.
unfoldable pub show_log : String → Fields → Dashboard → Dashboard
unfolding render
show_log now log page =
    let view = render (grows (log ∷ [])) page.view in
    record {
      view = view;
      panels = refresh_all now page.view.dispatch.inboxes view.dispatch.inboxes page.panels;
    }

unfoldable pub show_all : List (String × Fields) → Dashboard → Dashboard
unfolding show_log
show_all [] page = page
show_all ((now, log) ∷ rest) page = show_all rest (show_log now log page)

-- The status becomes DISCONNECTED: useServerLogs empties its logs, and the panels, whose effects look
-- for CONNECTING and for a last log, stay as they are.
unfoldable pub lose_connection : Dashboard → Dashboard
unfolding render
lose_connection page = record page { view = render status_changes page.view }
