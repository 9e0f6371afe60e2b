-- ===== src/Client/EndToEnd.antt =====
-- The logs of a simulation, from the handler of the request (internal/ws/handler.go) to the page
-- (frontend/src/context/logsContext.tsx) that made it.
use raft_in_motion.Prelude.{
  ℕ, String, ◌*◌, ◌≤◌, ◌≡◌, refl, ap, sym, subst, ◌∙◌, true, Option, some, List, [], ◌∷◌, ◌++◌, map,
  length, slice_last, get_elem?, append_assoc, append-nil, arith,
}
use raft_in_motion.Value.{Raw, Fields, Payload, array, single}
use raft_in_motion.Logger.{MemoryLogger, new_memory_logger, write}
use raft_in_motion.Logger.Ring.{Represents}
use raft_in_motion.Client.{Client, Event, run, log_message, receive, start_writing}
use raft_in_motion.Client.Handler.{make_client, write_all}
use raft_in_motion.Client.Startup.{make_client-Represents}
use raft_in_motion.Client.Batches.{contents}
use raft_in_motion.Client.Delivery.{all_quiet, batches, waiting_is_sent}
use raft_in_motion.LogsContext.Page
use raft_in_motion.LogsContext.Page.{Page, socket_receives}
use raft_in_motion.LogsContext.Parse.{parse_log}
use raft_in_motion.LogsContext.SameSockets.{receives-SameSockets}
use raft_in_motion.LogsContext.Delivery.{
  backlog, accepted, accepted_raws, as_list, socket_opened, history_of, run-backlog,
}

-- The events of the page for messages that arrive at a socket.
abbrev pub arrivals_at : ℕ → List Payload → List Page.Event
arrivals_at k [] = []
arrivals_at k (d ∷ ds) = socket_receives k (some d) ∷ arrivals_at k ds

accepted_append :
    (xs ys : List Raw) → accepted_raws (xs ++ ys) ≡ accepted_raws xs ++ accepted_raws ys
accepted_append [] ys = refl
accepted_append (x ∷ xs) ys =
    ap (λ l. as_list (parse_log x) ++ l) (accepted_append xs ys)
    ∙ sym (append_assoc (as_list (parse_log x)) (accepted_raws xs) (accepted_raws ys))

accepted-contents :
    (d : Payload) (ds : List Payload)
    → accepted_raws (contents (d ∷ ds)) ≡ accepted d ++ accepted_raws (contents ds)
accepted-contents (array raws) ds = accepted_append raws (contents ds)
accepted-contents (single raw) ds = refl

history_of-arrivals :
    (endpoint : String) (k : ℕ) (ds : List Payload) (p : Page) (seen : List Fields)
    → socket_opened (get_elem? p.sockets k) ≡ true
    → history_of endpoint (arrivals_at k ds) p seen ≡ seen ++ accepted_raws (contents ds)
unfolding Page.step
history_of-arrivals endpoint k [] p seen h = sym (append-nil seen)
history_of-arrivals endpoint k (d ∷ ds) p seen h =
    let next = Page.step endpoint (socket_receives k (some d)) p in
    let same = (receives-SameSockets k (some d) p).0 in
    let still = subst (λ s. socket_opened (get_elem? s k) ≡ true) (sym same) h in
    let arrived = accepted d in
    history_of-arrivals endpoint k ds next _ still
    ∙ ap (λ l. l ++ accepted_raws (contents ds)) (ground (arith, h))
    ∙ append_assoc seen arrived (accepted_raws (contents ds))
    ∙ ap (λ l. seen ++ l) (sym (accepted-contents d ds))

module _ {B : Type 0} where
  -- The client of a new connection, once the simulation has run, its loops have started and the message that
  -- the page sends on opening has come.
  abbrev pub greeted : ℕ → B → List B → Client B
  unfolding receive start_writing make_client
  greeted at msg logs =
      receive at msg (start_writing (record (make_client logs) { reading = true }))

  write_last :
      (logs : List B) (msg : B) (ml : MemoryLogger B)
      → write_all (logs ++ msg ∷ []) ml ≡ write msg (write_all logs ml)
  write_last [] msg ml = refl
  write_last (e ∷ logs) msg ml = write_last logs msg (write e ml)

  greeted-Represents :
      (at : ℕ) (msg : B) (logs : List B)
      → Represents (greeted at msg logs).logger (slice_last 100 (logs ++ msg ∷ []))
  unfolding greeted receive start_writing make_client
  greeted-Represents at msg logs =
      subst (λ l. Represents l (slice_last 100 (logs ++ msg ∷ [])))
        (write_last logs msg (new_memory_logger 100)) (make_client-Represents (logs ++ msg ∷ []))

module _ {B : Type 0} (unmarshal : B → Option Fields) where
  -- What the client has sent after the message of the page and these events.
  abbrev pub served : ℕ → B → List (Event B) → ℕ → List B → List Payload
  served at msg events n logs = (run unmarshal events n (greeted at msg logs)).1.sent

  -- The logs of a simulation reach the page that asked for it, but for those that the memory logger has lost:
  -- it holds 100, and the page's own message on opening is one. After that message, let any idle checks, checks
  -- for logs, ticks and ends of the connection follow in any order and at any time, while no further log
  -- comes, no message fails to be written, and there are enough ticks at which WriteLoop runs and its ticker
  -- is not stopped, one for each 10 logs. When all that was sent has come to the open socket of the page, the
  -- page's logs and those that wait to be shown are what they were, followed by those that parseLog accepts
  -- of the last 100 among the simulation's logs and the message, in the order in which they were written.
  pub simulation_reaches_page :
      (endpoint : String) (at n socket : ℕ) (msg : B) (logs : List B) (events : List (Event B))
      (p : Page)
      → let last = slice_last 100 (logs ++ msg ∷ []) in
        all_quiet events ≡ true
        → length last ≤ 10 * batches unmarshal events n (greeted at msg logs)
        → socket_opened (get_elem? p.sockets socket) ≡ true
        → backlog (Page.run endpoint (arrivals_at socket (served at msg events n logs)) p)
          ≡ backlog p ++ accepted_raws (map (log_message unmarshal) last)
  unfolding receive start_writing make_client
  simulation_reaches_page endpoint at n socket msg logs events p quiet enough opens =
      let last = slice_last 100 (logs ++ msg ∷ []) in
      let sent = served at msg events n logs in
      let (all, empty) =
        waiting_is_sent unmarshal events n (greeted at msg logs) last quiet
          (greeted-Represents at msg logs) enough in
      run-backlog endpoint (arrivals_at socket sent) p
      ∙ history_of-arrivals endpoint socket sent p (backlog p) opens
      ∙ ap (λ l. backlog p ++ accepted_raws l) all
