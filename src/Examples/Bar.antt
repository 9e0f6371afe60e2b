-- ===== src/Examples/Bar.antt =====
-- The action bar at concrete inputs.
use raft_in_motion.Prelude.{◌≡◌, refl, false, none, some, [], ◌∷◌}
use raft_in_motion.LogsContext.Page.{ConnectionStatus}
use raft_in_motion.SimulateButton.{failed}
use raft_in_motion.ActionBar.{ActionBar, Event, handle, step, run, click}
use raft_in_motion.ActionBar.Settle.{Settled, shown, step-Settled}
use raft_in_motion.ActionBar.Failed.{failed_stays}

-- A bar whose attempt to connect has just failed.
abbrev failing : ActionBar
failing = record {
  is_open = false;
  selected_action =
      some (record { id = "6"; label = "Kill & Respawn"; end = "Kill & respawn leader" });
  now = record { status = ConnectionStatus.disconnected; count = 0; button = failed };
  ran = some (record { status = ConnectionStatus.disconnected; count = 0; button = failed });
  timer = false;
}

failing-Settled : Settled failing
failing-Settled = record { ran = refl; fixed = refl; no_timeout = refl }

step-Settled_example :
    let e = Event.context_changes ConnectionStatus.connecting 0 in
    let d = (handle e failing).now in
    Settled (step e failing)
    × ((step e failing).now ≡ record d { button = shown d.status d.count d.button })
step-Settled_example =
    step-Settled (Event.context_changes ConnectionStatus.connecting 0) failing failing-Settled

failed_stays_example :
    let events = Event.timeout_fires ∷ Event.toggles ∷ [] in
    ((run events failing).now.button ≡ failed) × (click (run events failing) ≡ none)
failed_stays_example =
    failed_stays (Event.timeout_fires ∷ Event.toggles ∷ []) failing failing-Settled refl refl refl
