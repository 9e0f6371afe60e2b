-- ===== src/LogsDispatcher/Clear.antt =====
-- clearLogs alone, with no change of the status.
use raft_in_motion.Prelude.{
  ◌+◌, ◌≤◌, ◌≡◌, refl, ap, ◌∙◌, List, [], ◌∷◌, ◌++◌, length, length-append, flatten, map, arith,
}
use raft_in_motion.Value.{Fields}
use raft_in_motion.LogsDispatcher.{process_logs}
use raft_in_motion.LogsDispatcher.Inbox.{Dispatch, View, grows, clears, render, run, logs_changed}

old_logs :
    (logs : List Fields) (w : Dispatch)
    → length logs ≤ w.dispatcher.unprocessed_from
    → logs_changed logs w ≡ w
unfolding logs_changed process_logs
old_logs logs w h = ground arith

skipped :
    (batches : List (List Fields)) (v : View)
    → length v.logs + length (flatten batches) ≤ v.dispatch.dispatcher.unprocessed_from
    → (run (map grows batches) v).dispatch ≡ v.dispatch
unfolding run render
skipped [] v h = refl
skipped (batch ∷ rest) v h =
    let all = v.logs ++ batch in
    let same =
      old_logs all v.dispatch
        (omega (arith, length-append v.logs batch, length-append batch (flatten rest))) in
    ap (λ w. (run (map grows rest) (record { logs = all; dispatch = w })).dispatch) same
    ∙ skipped rest (record { logs = all; dispatch = v.dispatch })
        (omega (arith, length-append v.logs batch, length-append batch (flatten rest)))

-- After clearLogs alone the dispatcher goes on from its old position: while the page has had no more
-- logs than it had processed before, no instance receives any of them.
pub clear_logs_skips :
    (batches : List (List Fields)) (v : View)
    → length (flatten batches) ≤ v.dispatch.dispatcher.unprocessed_from
    → (run (clears ∷ map grows batches) v).dispatch ≡ v.dispatch
unfolding run render
clear_logs_skips batches v h =
    ap (λ w. (run (map grows batches) (record { logs = []; dispatch = w })).dispatch)
      (old_logs [] v.dispatch (omega arith))
    ∙ skipped batches (record { logs = []; dispatch = v.dispatch }) (omega arith)
