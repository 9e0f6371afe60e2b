-- ===== src/SimulateButton.antt =====
-- frontend/src/components/ui/simulateButton.tsx: the text, the disabled state and the click.
pub mod Clicks
use raft_in_motion.Prelude.{String, Bool, true, false, Option, none, some}

pub data ButtonStatus : Type 0 where
  idle connecting failed simulating cancel : ButtonStatus

unfoldable pub button_text : ButtonStatus → String
button_text idle = "Simulate"
button_text connecting = "Connecting"
button_text failed = "Failed"
button_text simulating = "Simulating"
button_text cancel = "Cancel"

-- Which of its two callbacks a click calls.
pub data Callback : Type 0 where
  on_click on_cancel : Callback

-- handleClick
unfoldable pub handle_click : ButtonStatus → Option Callback
handle_click cancel = some on_cancel
handle_click idle = some on_click
handle_click _ = none

unfoldable pub is_disabled : ButtonStatus → Bool
is_disabled connecting = true
is_disabled failed = true
is_disabled simulating = true
is_disabled _ = false
