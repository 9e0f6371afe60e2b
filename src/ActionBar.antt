-- ===== src/ActionBar.antt =====
-- frontend/src/components/ui/actionBar.tsx: the choice of a simulation and the status of the button.
-- `bar.ran` holds the values that the effect depends on as they were when it last ran: after a
-- render it runs again, its clean-up first, if one of them has changed.
pub mod Settle
pub mod Failed
use raft_in_motion.Prelude.{
  ℕ, zero, suc, String, Bool, true, false, not, ◌&&◌, ◌||◌, Option, none, some, List, [], ◌∷◌, leb,
  ltb, ◌==◌, if◌then◌else◌,
}
use raft_in_motion.LogsContext.Page.{ConnectionStatus}
use raft_in_motion.SimulateButton.{
  ButtonStatus, idle, connecting, failed, simulating, cancel, Callback, on_click, on_cancel,
  handle_click, is_disabled,
}

pub record Action : Type 0 where
  pub id : String
  pub label : String
  pub end : String

abbrev pub all_actions : List Action
all_actions =
    record { id = "6"; label = "Kill & Respawn"; end = "Kill & respawn leader" }
    ∷ record { id = "1"; label = "Setup Harness"; end = "Available soon" }
    ∷ record { id = "2"; label = "Request Before Consensus"; end = "Available soon" }
    ∷ record { id = "3"; label = "Put/Get Single Client"; end = "Available soon" }
    ∷ record { id = "4"; label = "Concurrent Requests"; end = "Available soon" }
    ∷ record { id = "5"; label = "Crash Follower"; end = "Available soon" }
    ∷ []

-- The dependencies of the effect: [connectionStatus, logs.length, buttonStatus].
pub record Deps : Type 0 where
  pub status : ConnectionStatus
  pub count : ℕ
  pub button : ButtonStatus

pub record ActionBar : Type 0 where
  pub is_open : Bool
  pub selected_action : Option Action
  pub now : Deps  -- connectionStatus, logs.length and buttonStatus of the last render
  pub ran : Option Deps
  pub timer : Bool  -- the timeout of 3000 ms is pending

abbrev pub init : ActionBar
init = record {
  is_open = false;
  selected_action = none;
  now = record { status = ConnectionStatus.disconnected; count = 0; button = idle };
  ran = none;
  timer = false;
}

abbrev pub same_status : ConnectionStatus → ConnectionStatus → Bool
same_status ConnectionStatus.disconnected ConnectionStatus.disconnected = true
same_status ConnectionStatus.connecting ConnectionStatus.connecting = true
same_status ConnectionStatus.connected ConnectionStatus.connected = true
same_status _ _ = false

abbrev pub same_button : ButtonStatus → ButtonStatus → Bool
same_button idle idle = true
same_button connecting connecting = true
same_button failed failed = true
same_button simulating simulating = true
same_button cancel cancel = true
same_button _ _ = false

-- Object.is on each dependency.
abbrev pub up_to_date : Option Deps → Deps → Bool
up_to_date none d = false
up_to_date (some e) d =
    same_status e.status d.status && (e.count == d.count) && same_button e.button d.button

-- The body of the effect: the status that it sets, and whether it starts the timeout.
abbrev pub effect : ConnectionStatus → ℕ → ButtonStatus → ButtonStatus × Bool
effect ConnectionStatus.connecting count button = (connecting, false)
effect ConnectionStatus.connected count button =
    (if ltb 0 count then (if leb 10 count then cancel else simulating) else button, false)
effect ConnectionStatus.disconnected count connecting = (failed, true)
effect ConnectionStatus.disconnected count failed = (failed, false)
effect ConnectionStatus.disconnected count _ = (idle, false)

-- The effect runs: the clean-up of its last run clears the timeout, and then its body.
unfoldable pub run_effect : ActionBar → ActionBar
run_effect bar =
    let (button, timer) = effect bar.now.status bar.now.count bar.now.button in
    record bar { now = record bar.now { button = button }; ran = some bar.now; timer = timer }

-- Renders and effects until no dependency changes any more, for at most this many rounds.
unfoldable pub settle : ℕ → ActionBar → ActionBar
settle zero bar = bar
settle (suc rounds) bar =
    let rest = settle rounds (run_effect bar) in if up_to_date bar.ran bar.now then bar else rest

-- What happens to the bar.
pub data Event : Type 0 where
  context_changes : ConnectionStatus → ℕ → Event
  selects : Action → Event
  toggles timeout_fires : Event

abbrev pub can_toggle : ButtonStatus → Bool
can_toggle idle = true
can_toggle failed = true
can_toggle _ = false

unfoldable pub handle : Event → ActionBar → ActionBar
handle (context_changes status count) bar = record bar {
  now = record bar.now { status = status; count = count };
}
handle (selects action) bar = record bar {
  selected_action = some action;
  is_open = false;
  now = record bar.now { button = idle };
}
handle toggles bar =
    if can_toggle bar.now.button then record bar { is_open = not bar.is_open } else bar
handle timeout_fires bar =
    if bar.timer then record bar { now = record bar.now { button = idle }; timer = false } else bar

-- Three rounds are enough: see the child module Settle.
unfoldable pub step : Event → ActionBar → ActionBar
step e bar = settle 3 (handle e bar)

unfoldable pub run : List Event → ActionBar → ActionBar
run [] bar = bar
run (e ∷ rest) bar = run rest (step e bar)

-- What a click on the button asks of the context.
pub data Request : Type 0 where
  connect : String → Request
  disconnect : Request

-- handleSimulateClick
abbrev simulate : Option Action → ButtonStatus → Option Request
simulate (some action) idle = some (connect action.id)
simulate _ _ = none

abbrev call : Option Callback → ActionBar → Option Request
call none bar = none
call (some on_click) bar = simulate bar.selected_action bar.now.button
call (some on_cancel) bar = some disconnect

-- A click: a disabled button receives none.
unfoldable pub click : ActionBar → Option Request
unfolding handle_click is_disabled
click bar = if is_disabled bar.now.button then none else call (handle_click bar.now.button) bar
