-- ===== src/LogsDispatcher/Mirror.antt =====
-- The logs of every instance, through any sequence of renders.
use raft_in_motion.Prelude.{
  ℕ, ◌≤◌, ◌≡◌, refl, ap, sym, subst, ◌∙◌, Bool, true, false, some, List, [], ◌∷◌, ◌++◌, length,
  length-append, take, take_all, take-append-drop, take-append_le, drop, filter, filter-append,
  get_elem?, any, any-false, arith,
}
use raft_in_motion.Prelude.Int.{ℤ}
use raft_in_motion.Value.{Fields}
use raft_in_motion.LogsDispatcher.{LogDispatcher, init, process_logs}
use raft_in_motion.LogsDispatcher.Inbox.{
  Inbox, Dispatch, Render, View, grows, status_changes, connects, clears, render, run, register_all,
  unregister_all, fresh, mount, logs_changed, status_changed,
}
use raft_in_motion.LogsDispatcher.Routes.{Routes, ids, distinct, is_about, get-ids}
use raft_in_motion.LogsDispatcher.Delivery.{ids-process_logs, process_logs-inbox}
use raft_in_motion.LogsDispatcher.Registry.{
  unregister_all-unknown, register_all-Routes, ids-empty, get-empty, get_of_ids, ids-fresh,
  get-fresh, from-register_all,
}

-- The logs that an instance holds are those about its server among the logs seen so far.
pub record Mirrors (servers : List ℤ) (logs : List Fields) (w : Dispatch) : Type 0 where
  pub same_ids : ids w.inboxes ≡ servers
  pub routes : Routes w.dispatcher.server_callbacks servers
  pub upto : w.dispatcher.unprocessed_from ≤ length logs
  pub collected :
      (n : ℕ) (i : Inbox)
      → get_elem? w.inboxes n ≡ some i
      → i.server_logs ≡ filter (is_about i.raft_id) (take w.dispatcher.unprocessed_from logs)

process_logs-dispatcher :
    (logs : List Fields) (d : LogDispatcher (List Inbox)) (inboxes : List Inbox)
    → d.unprocessed_from ≤ length logs
    → ((process_logs logs d inboxes).0.server_callbacks ≡ d.server_callbacks)
      × ((process_logs logs d inboxes).0.unprocessed_from ≡ length logs)
unfolding process_logs
process_logs-dispatcher logs d inboxes h = ground arith

abbrev pub is_clear : Render → Bool
is_clear clears = true
is_clear _ = false

module _ (servers : List ℤ) (apart : distinct servers ≡ true) where
  pub mount-Mirrors : Mirrors servers [] (mount servers)
  unfolding mount
  mount-Mirrors = record {
    same_ids = ids-fresh servers;
    routes =
        subst (Routes (register_all 0 (fresh servers) init).server_callbacks) (ids-fresh servers)
          (register_all-Routes (fresh servers) init (rw (ids-fresh servers) apart) (λ r h. refl));
    upto = rw (from-register_all 0 (fresh servers) init) (omega arith);
    collected = λ n i h. rw (from-register_all 0 (fresh servers) init) (get-fresh n i servers h);
  }

  pub status_changed-Mirrors :
      (logs after : List Fields) (w : Dispatch)
      → Mirrors servers logs w
      → Mirrors servers after (status_changed w)
  unfolding status_changed
  status_changed-Mirrors logs after w v = record {
    same_ids = ids-empty w.inboxes ∙ v.same_ids;
    routes =
        subst
          (Routes
            (register_all 0 w.inboxes (unregister_all w.inboxes w.dispatcher)).server_callbacks)
          v.same_ids
          (register_all-Routes w.inboxes (unregister_all w.inboxes w.dispatcher)
            (rw v.same_ids apart)
            (λ r h.
              unregister_all-unknown w.inboxes w.dispatcher r h
              ∙ v.routes.unknown r (rw (← v.same_ids) h)));
    upto = omega arith;
    collected = λ n i h. get-empty n i w.inboxes h;
  }

  same_ids_after :
      (all : List Fields) (w : Dispatch) {logs : List Fields}
      → Mirrors servers logs w
      → ids (process_logs all w.dispatcher w.inboxes).1 ≡ servers
  same_ids_after all w v =
      ids-process_logs all w.dispatcher servers v.routes apart w.inboxes v.same_ids

  collected_after :
      (logs more : List Fields) (w : Dispatch)
      → Mirrors servers logs w
      → (n : ℕ) (i : Inbox)
      → get_elem? (process_logs (logs ++ more) w.dispatcher w.inboxes).1 n ≡ some i
      → i.server_logs ≡ filter (is_about i.raft_id) (take (length (logs ++ more)) (logs ++ more))
  collected_after logs more w v n i h =
      let all = logs ++ more in
      let from = w.dispatcher.unprocessed_from in
      let (j, at_j, e) =
        get_of_ids n i.raft_id w.inboxes
          (rw (v.same_ids ∙ sym (same_ids_after all w v)) (get-ids n i _ h)) in
      let after =
        process_logs-inbox all w.dispatcher servers v.routes apart n j w.inboxes v.same_ids at_j in
      let about = is_about j.raft_id in
      let now : i.server_logs ≡ j.server_logs ++ filter about (drop from all) = cc (h, after) in
      let before : j.server_logs ≡ filter about (take from all) =
        v.collected n j at_j ∙ ap (filter about) (sym (take-append_le from logs more v.upto)) in
      rw (← e) (
        now
        ∙ ap (λ l. l ++ filter about (drop from all)) before
        ∙ sym (filter-append about (take from all) (drop from all))
        ∙ ap (filter about) (take-append-drop from all ∙ sym (take_all all)))

  pub logs_changed-Mirrors :
      (logs more : List Fields) (w : Dispatch)
      → Mirrors servers logs w
      → Mirrors servers (logs ++ more) (logs_changed (logs ++ more) w)
  unfolding logs_changed
  logs_changed-Mirrors logs more w v =
      let all = logs ++ more in
      let room : w.dispatcher.unprocessed_from ≤ length all =
        omega (arith, v.upto, length-append logs more) in
      let (same_callbacks, done) = process_logs-dispatcher all w.dispatcher w.inboxes room in
      record {
        same_ids = same_ids_after all w v;
        routes = rw same_callbacks v.routes;
        upto = rw done (omega arith);
        collected = λ n i h. rw done (collected_after logs more w v n i h);
      }

  pub logs_changed-collected :
      (logs more : List Fields) (w : Dispatch)
      → Mirrors servers logs w
      → (n : ℕ) (i : Inbox) → get_elem? (logs_changed (logs ++ more) w).inboxes n ≡ some i
      → i.server_logs ≡ filter (is_about i.raft_id) (logs ++ more)
  unfolding logs_changed
  logs_changed-collected logs more w v n i h =
      collected_after logs more w v n i h
      ∙ ap (filter (is_about i.raft_id)) (take_all (logs ++ more))

  nothing_new : (w : Dispatch) → logs_changed [] w ≡ w
  unfolding logs_changed process_logs
  nothing_new w = ground arith

  render-Mirrors :
      (r : Render) (v : View)
      → is_clear r ≡ false
      → Mirrors servers v.logs v.dispatch
      → Mirrors servers (render r v).logs (render r v).dispatch
  unfolding render
  render-Mirrors (grows more) v c m = logs_changed-Mirrors v.logs more v.dispatch m
  render-Mirrors status_changes v c m = status_changed-Mirrors v.logs v.logs v.dispatch m
  render-Mirrors connects v c m =
      rw (nothing_new v.dispatch) (status_changed-Mirrors v.logs [] v.dispatch m)
  render-Mirrors clears v c m = cc

  run-Mirrors :
      (renders : List Render) (v : View)
      → any is_clear renders ≡ false
      → Mirrors servers v.logs v.dispatch
      → Mirrors servers (run renders v).logs (run renders v).dispatch
  unfolding run
  run-Mirrors [] v c m = m
  run-Mirrors (r ∷ rest) v c m =
      let (now, later) = any-false is_clear r rest c in
      run-Mirrors rest (render r v) later (render-Mirrors r v now m)

-- Instances for servers with different ids are mounted, and logs arrive, the status changes and
-- `connect` starts again, in any order but with no call of clearLogs. Whenever logs have just
-- arrived, instance n holds exactly the logs about its server among those of the page, in order.
pub delivered :
    (servers : List ℤ)
    → distinct servers ≡ true
    → (renders : List Render) (more : List Fields) → any is_clear renders ≡ false
    → (n : ℕ) (id : ℤ) → get_elem? servers n ≡ some id
    → let v = run renders (record { logs = []; dispatch = mount servers }) in
      let after = render (grows more) v in
      get_elem? after.dispatch.inboxes n
      ≡ some (record { raft_id = id; server_logs = filter (is_about id) (v.logs ++ more) })
unfolding render
delivered servers apart renders more c n id h =
    let v = run renders (record { logs = []; dispatch = mount servers }) in
    let m = run-Mirrors servers apart renders _ c (mount-Mirrors servers apart) in
    let after = logs_changed-Mirrors servers apart v.logs more v.dispatch m in
    let (i, at_i, e) = get_of_ids n id _ (rw after.same_ids h) in
    let held = logs_changed-collected servers apart v.logs more v.dispatch m n i at_i in
    let about : i.server_logs ≡ filter (is_about id) (v.logs ++ more) =
      held ∙ ap (λ r. filter (is_about r) (v.logs ++ more)) e in
    at_i ∙ λ k. some (record { raft_id = e k; server_logs = about k })
