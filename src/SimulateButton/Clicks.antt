-- ===== src/SimulateButton/Clicks.antt =====
-- The click of simulateButton.tsx against its disabled state.
use raft_in_motion.Prelude.{◌≡◌, ◌↔◌, true, none, arith}
use raft_in_motion.SimulateButton.{ButtonStatus, handle_click, is_disabled}

-- The button is disabled exactly in the states in which its click handler would do nothing.
pub is_disabled_iff_click_ignored :
    (s : ButtonStatus) → (is_disabled s ≡ true) ↔ (handle_click s ≡ none)
unfolding is_disabled handle_click
is_disabled_iff_click_ignored s = ground arith
