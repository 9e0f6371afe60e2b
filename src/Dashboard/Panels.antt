-- ===== src/Dashboard/Panels.antt =====
-- Every log that the page shows reaches the panel of its server, and no other.
use raft_in_motion.Prelude.{
  ℕ, zero, suc, String, ◌≡◌, ap, sym, ◌∙◌, true, Bool-cases, inl, inr, some, List, [], ◌∷◌, ◌++◌,
  map, length-append, filter, filter-append, get_elem?, get_last?-append, append-nil, if◌then◌else◌,
  arith,
}
use raft_in_motion.Prelude.Int.{ℤ}
use raft_in_motion.Value.{Fields}
use raft_in_motion.LogsDispatcher.Inbox.{Inbox, render, mount}
use raft_in_motion.LogsDispatcher.Routes.{distinct, is_about}
use raft_in_motion.LogsDispatcher.Registry.{get_of_ids, get-fresh}
use raft_in_motion.LogsDispatcher.Mirror.{
  Mirrors, mount-Mirrors, logs_changed-Mirrors, logs_changed-collected,
}
use raft_in_motion.ServerInstance.{ServerInstance, init, process_log, server_logs_changed}
use raft_in_motion.Dashboard.{Dashboard, refresh, refresh_all, start, show_log, show_all}

pub get-refresh_all :
    (now : String) (n : ℕ) (before after : List Inbox) (panels : List ServerInstance) (i j : Inbox)
    (s : ServerInstance)
    → get_elem? before n ≡ some i
    → get_elem? after n ≡ some j
    → get_elem? panels n ≡ some s
    → get_elem? (refresh_all now before after panels) n ≡ some (refresh now i j s)
get-refresh_all now n [] after panels i j s a b c = cc
get-refresh_all now n (x ∷ before) [] panels i j s a b c = cc
get-refresh_all now n (x ∷ before) (y ∷ after) [] i j s a b c = cc
get-refresh_all now zero (x ∷ before) (y ∷ after) (z ∷ panels) i j s a b c = ground arith
get-refresh_all now (suc n) (x ∷ before) (y ∷ after) (z ∷ panels) i j s a b c =
    get-refresh_all now n before after panels i j s a b c

-- What a panel for this server makes of one log.
abbrev pub process_one : ℤ → String → Fields → ServerInstance → ServerInstance
process_one id now log s =
    let processed = process_log now log s in if is_about id log then processed else s

refresh-process :
    (now : String) (id : ℤ) (log : Fields) (logs : List Fields) (i j : Inbox) (s : ServerInstance)
    → i.server_logs ≡ filter (is_about id) logs
    → j.server_logs ≡ filter (is_about id) (logs ++ log ∷ [])
    → refresh now i j s ≡ process_one id now log s
unfolding server_logs_changed
refresh-process now id log logs i j s a b =
    let more = filter-append (is_about id) logs (log ∷ []) in
    elim (Bool-cases (is_about id log)) [
      | inl about ↦
          (let grown : j.server_logs ≡ i.server_logs ++ log ∷ [] = ground (arith, more) in
            ground
              (arith, length-append i.server_logs (log ∷ []), get_last?-append i.server_logs log))
      | inr other ↦
          (let same : j.server_logs ≡ i.server_logs =
              b
              ∙ more
              ∙ ap (λ l. filter (is_about id) logs ++ l) (ground arith)
              ∙ append-nil (filter (is_about id) logs)
              ∙ sym a in
            ground arith)
    ]

-- Every instance holds the logs about its server among all that the page has.
pub record Synced (servers : List ℤ) (page : Dashboard) : Type 0 where
  pub mirrors : Mirrors servers page.view.logs page.view.dispatch
  pub complete :
      (n : ℕ) (i : Inbox)
      → get_elem? page.view.dispatch.inboxes n ≡ some i
      → i.server_logs ≡ filter (is_about i.raft_id) page.view.logs

-- The panel after all these logs: each that is about its server is processed, in order.
abbrev pub process_all : ℤ → List (String × Fields) → ServerInstance → ServerInstance
process_all id [] s = s
process_all id ((now, log) ∷ rest) s = process_all id rest (process_one id now log s)

module _ (servers : List ℤ) (apart : distinct servers ≡ true) where
  pub show_log-Synced :
      (now : String) (log : Fields) (page : Dashboard)
      → Synced servers page
      → Synced servers (show_log now log page)
  unfolding show_log render
  show_log-Synced now log page v = record {
    mirrors =
        logs_changed-Mirrors servers apart page.view.logs (log ∷ []) page.view.dispatch v.mirrors;
    complete =
        logs_changed-collected servers apart page.view.logs (log ∷ []) page.view.dispatch v.mirrors;
  }

  pub start-Synced : Synced servers (start servers)
  unfolding start mount
  start-Synced = record {
    mirrors = mount-Mirrors servers apart;
    complete = λ n i h. get-fresh n i servers h;
  }

  pub inbox_of :
      (page : Dashboard) (n : ℕ) (id : ℤ)
      → Synced servers page
      → get_elem? servers n ≡ some id
      → (i : Inbox) × (get_elem? page.view.dispatch.inboxes n ≡ some i)
        × (i.server_logs ≡ filter (is_about id) page.view.logs)
  inbox_of page n id v h =
      let (i, at, e) = get_of_ids n id page.view.dispatch.inboxes (rw v.mirrors.same_ids h) in
      (i, at, v.complete n i at ∙ ap (λ r. filter (is_about r) page.view.logs) e)

  show_log-panel :
      (now : String) (log : Fields) (page : Dashboard) (n : ℕ) (id : ℤ) (s : ServerInstance)
      → Synced servers page
      → get_elem? servers n ≡ some id
      → get_elem? page.panels n ≡ some s
      → get_elem? (show_log now log page).panels n ≡ some (process_one id now log s)
  unfolding show_log render
  show_log-panel now log page n id s v h p =
      let (i, at_i, before) = inbox_of page n id v h in
      let (j, at_j, after) =
        inbox_of (show_log now log page) n id (show_log-Synced now log page v) h in
      get-refresh_all now n page.view.dispatch.inboxes (show_log now log page).view.dispatch.inboxes
        page.panels i j s at_i at_j p
      ∙ ap some (refresh-process now id log page.view.logs i j s before after)

  pub show_all-Synced :
      (shown : List (String × Fields)) (page : Dashboard)
      → Synced servers page
      → Synced servers (show_all shown page)
  unfolding show_all
  show_all-Synced [] page v = v
  show_all-Synced ((now, log) ∷ rest) page v =
      show_all-Synced rest (show_log now log page) (show_log-Synced now log page v)

  show_all-panel :
      (shown : List (String × Fields)) (page : Dashboard) (n : ℕ) (id : ℤ) (s : ServerInstance)
      → Synced servers page
      → get_elem? servers n ≡ some id
      → get_elem? page.panels n ≡ some s
      → get_elem? (show_all shown page).panels n ≡ some (process_all id shown s)
  unfolding show_all
  show_all-panel [] page n id s v h p = p
  show_all-panel ((now, log) ∷ rest) page n id s v h p =
      show_all-panel rest (show_log now log page) n id (process_one id now log s)
        (show_log-Synced now log page v) h (show_log-panel now log page n id s v h p)

get-map-init :
    (n : ℕ) (id : ℤ) (servers : List ℤ)
    → get_elem? servers n ≡ some id
    → get_elem? (map init servers) n ≡ some (init id)
get-map-init n id [] h = cc
get-map-init zero id (x ∷ rest) h = ground arith
get-map-init (suc n) id (x ∷ rest) h = get-map-init n id rest h

panels_at :
    (servers : List ℤ) (n : ℕ) (id : ℤ)
    → get_elem? servers n ≡ some id
    → get_elem? (start servers).panels n ≡ some (init id)
unfolding start
panels_at servers n id h = get-map-init n id servers h

-- On a page whose servers have different ids, while the connection status stays, the logs that are
-- shown one after the other each reach the panel of the server that they are about, once and in
-- order, and no other panel.
pub panels_follow_logs :
    (servers : List ℤ)
    → distinct servers ≡ true
    → (shown : List (String × Fields)) (n : ℕ) (id : ℤ) → get_elem? servers n ≡ some id
    → get_elem? (show_all shown (start servers)).panels n ≡ some (process_all id shown (init id))
panels_follow_logs servers apart shown n id h =
    show_all-panel servers apart shown (start servers) n id (init id) (start-Synced servers apart) h
      (panels_at servers n id h)
