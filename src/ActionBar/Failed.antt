-- ===== src/ActionBar/Failed.antt =====
-- What ends the status `failed` of the action bar, and what does not.
use raft_in_motion.Prelude.{
  ◌≡◌, refl, ◌∙◌, ap, Bool, true, false, none, List, [], ◌∷◌, any, any-false, arith,
}
use raft_in_motion.LogsContext.Page.{ConnectionStatus}
use raft_in_motion.SimulateButton.{failed, handle_click, is_disabled}
use raft_in_motion.ActionBar.{ActionBar, Event, init, settle, run_effect, handle, step, run, click}
use raft_in_motion.ActionBar.Settle.{Settled, step-Settled}

mounted-Settled : Settled (settle 3 init)
unfolding settle run_effect
mounted-Settled = record { ran = refl; fixed = refl; no_timeout = refl }

run-Settled : (events : List Event) (bar : ActionBar) → Settled bar → Settled (run events bar)
unfolding run
run-Settled [] bar v = v
run-Settled (e ∷ rest) bar v = run-Settled rest (step e bar) (step-Settled e bar v).0

-- Whatever happens to a mounted action bar, every event leaves it at rest, so that between events
-- its timeout is never pending: it is always cleared by the effect that starts it.
pub never_pending : (events : List Event) → (run events (settle 3 init)).timer ≡ false
never_pending events = (run-Settled events (settle 3 init) mounted-Settled).no_timeout

-- The selection of a simulation, or a connection that is no longer `disconnected`.
abbrev pub renews : Event → Bool
renews (Event.context_changes ConnectionStatus.disconnected count) = false
renews (Event.context_changes status count) = true
renews (Event.selects action) = true
renews Event.toggles = false
renews Event.timeout_fires = false

record HasFailed (bar : ActionBar) : Type 0 where
  rests : Settled bar
  status : bar.now.status ≡ ConnectionStatus.disconnected
  button : bar.now.button ≡ failed

handled_failed :
    (e : Event) (bar : ActionBar)
    → HasFailed bar
    → renews e ≡ false
    → ((handle e bar).now.status ≡ ConnectionStatus.disconnected)
      × ((handle e bar).now.button ≡ failed)
unfolding handle
handled_failed (Event.context_changes ConnectionStatus.disconnected count) bar v h =
    (refl, v.button)
handled_failed (Event.context_changes ConnectionStatus.connecting count) bar v h = cc
handled_failed (Event.context_changes ConnectionStatus.connected count) bar v h = cc
handled_failed (Event.selects action) bar v h = cc
handled_failed Event.toggles bar v h = ground (arith, v.status, v.button)
handled_failed Event.timeout_fires bar v h = ground (arith, v.rests.no_timeout, v.status, v.button)

step_failed :
    (e : Event) (bar : ActionBar) → HasFailed bar → renews e ≡ false → HasFailed (step e bar)
step_failed e bar v h = record {
  rests = (step-Settled e bar v.rests).0;
  status = ap (λ d. d.status) (step-Settled e bar v.rests).1 ∙ (handled_failed e bar v h).0;
  button =
      ap (λ d. d.button) (step-Settled e bar v.rests).1
      ∙ (rw ((handled_failed e bar v h).0, (handled_failed e bar v h).1));
}

run_failed :
    (events : List Event) (bar : ActionBar)
    → HasFailed bar
    → any renews events ≡ false
    → HasFailed (run events bar)
unfolding run
run_failed [] bar v h = v
run_failed (e ∷ rest) bar v h =
    run_failed rest (step e bar) (step_failed e bar v (any-false renews e rest h).0)
      (any-false renews e rest h).1

click_failed : (bar : ActionBar) → bar.now.button ≡ failed → click bar ≡ none
unfolding click handle_click is_disabled
click_failed bar h = ground arith

-- Once an attempt to connect has failed, nothing but the selection of a simulation or a connection
-- that is no longer `disconnected` ends the status `failed`: through any other events, an expired
-- timeout included, the button stays `failed` and a click on it asks for nothing.
pub failed_stays :
    (events : List Event) (bar : ActionBar)
    → Settled bar
    → bar.now.status ≡ ConnectionStatus.disconnected
    → bar.now.button ≡ failed
    → any renews events ≡ false
    → ((run events bar).now.button ≡ failed) × (click (run events bar) ≡ none)
failed_stays events bar v status button h =
    let after = run_failed events bar (record { rests = v; status = status; button = button }) h in
    (after.button, click_failed (run events bar) after.button)
