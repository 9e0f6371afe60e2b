-- ===== src/Dashboard/Replay.antt =====
-- What a log does that is shown after the connection is gone.
use raft_in_motion.Prelude.{
  ℕ, String, ◌≡◌, ap, ◌∙◌, true, false, some, List, [], ◌∷◌, ◌++◌, length, filter, filter-append,
  get_elem?, get_last?, append-nil, ◌==◌, arith,
}
use raft_in_motion.Prelude.Int.{ℤ}
use raft_in_motion.Value.{Fields}
use raft_in_motion.LogsDispatcher.Inbox.{Inbox, render, status_changed}
use raft_in_motion.LogsDispatcher.Routes.{distinct, is_about}
use raft_in_motion.LogsDispatcher.Registry.{get_of_ids, get-empty}
use raft_in_motion.LogsDispatcher.Mirror.{
  Mirrors, status_changed-Mirrors, logs_changed-Mirrors, logs_changed-collected,
}
use raft_in_motion.ServerInstance.{ServerInstance, process_log, server_logs_changed}
use raft_in_motion.Dashboard.{Dashboard, refresh, start, show_log, show_all, lose_connection}
use raft_in_motion.Dashboard.Panels.{Synced, start-Synced, show_all-Synced, get-refresh_all}

status_changed-empty :
    (n : ℕ) (i : Inbox) (page : Dashboard)
    → get_elem? (lose_connection page).view.dispatch.inboxes n ≡ some i
    → i.server_logs ≡ []
unfolding lose_connection render status_changed
status_changed-empty n i page h = get-empty n i page.view.dispatch.inboxes h

nonempty : (l : List Fields) (old : Fields) → get_last? l ≡ some old → (length l == 0) ≡ false
nonempty [] old h = cc
nonempty (x ∷ l) old h = ground arith

refresh-last :
    (now : String) (old : Fields) (i j : Inbox) (s : ServerInstance)
    → i.server_logs ≡ []
    → get_last? j.server_logs ≡ some old
    → refresh now i j s ≡ process_log now old s
unfolding server_logs_changed
refresh-last now old i j s a b = ground (arith, nonempty j.server_logs old b)

module _ (servers : List ℤ) (apart : distinct servers ≡ true) where
  lost :
      (page : Dashboard)
      → Synced servers page
      → Mirrors servers page.view.logs (lose_connection page).view.dispatch
  unfolding lose_connection render
  lost page v =
      status_changed-Mirrors servers apart page.view.logs page.view.logs page.view.dispatch
        v.mirrors

  replayed :
      (now : String) (log old : Fields) (page : Dashboard) (n : ℕ) (id : ℤ) (s : ServerInstance)
      → Synced servers page
      → get_elem? servers n ≡ some id
      → get_elem? page.panels n ≡ some s
      → is_about id log ≡ false
      → get_last? (filter (is_about id) page.view.logs) ≡ some old
      → get_elem? (show_log now log (lose_connection page)).panels n ≡ some (process_log now old s)
  unfolding show_log render lose_connection
  replayed now log old page n id s v h p other last =
      let closed = lose_connection page in
      let m = lost page v in
      let after =
        logs_changed-Mirrors servers apart page.view.logs (log ∷ []) closed.view.dispatch m in
      let (i, at_i, e) = get_of_ids n id closed.view.dispatch.inboxes (rw m.same_ids h) in
      let (j, at_j, f) = get_of_ids n id _ (rw after.same_ids h) in
      let held =
        logs_changed-collected servers apart page.view.logs (log ∷ []) closed.view.dispatch m n j
          at_j in
      let same : filter (is_about id) (page.view.logs ++ log ∷ [])
          ≡ filter (is_about id) page.view.logs =
        filter-append (is_about id) page.view.logs (log ∷ [])
        ∙ ap (λ l. filter (is_about id) page.view.logs ++ l) (ground arith)
        ∙ append-nil (filter (is_about id) page.view.logs) in
      let logs_of : j.server_logs ≡ filter (is_about id) page.view.logs =
        held ∙ ap (λ r. filter (is_about r) (page.view.logs ++ log ∷ [])) f ∙ same in
      get-refresh_all now n closed.view.dispatch.inboxes
        (show_log now log closed).view.dispatch.inboxes closed.panels i j s at_i at_j p
      ∙ ap some (
          refresh-last now old i j s (status_changed-empty n i page at_i)
            (ap get_last? logs_of ∙ last))

-- After the connection is lost, the next log that is shown makes the panels of the other servers
-- process again the last log that they had: the dispatcher starts again from the first log, and a
-- panel looks at the last one that it is given.
pub replayed_after_close :
    (servers : List ℤ)
    → distinct servers ≡ true
    → (shown : List (String × Fields)) (now : String) (log old : Fields) (n : ℕ) (id : ℤ)
      (s : ServerInstance)
    → get_elem? servers n ≡ some id
    → is_about id log ≡ false
    → let page = show_all shown (start servers) in
      get_elem? page.panels n ≡ some s
      → get_last? (filter (is_about id) page.view.logs) ≡ some old
      → get_elem? (show_log now log (lose_connection page)).panels n ≡ some (process_log now old s)
replayed_after_close servers apart shown now log old n id s h other p last =
    let page = show_all shown (start servers) in
    let v = show_all-Synced servers apart shown (start servers) (start-Synced servers apart) in
    replayed servers apart now log old page n id s v h p other last
