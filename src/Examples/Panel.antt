-- ===== src/Examples/Panel.antt =====
-- The panel of a server, the history and the grid at concrete inputs.
use raft_in_motion.Prelude.{ℕ, ◌≡◌, ◌≤◌, refl, true, false, List, [], ◌∷◌, length}
use raft_in_motion.Prelude.Int.{pos}
use raft_in_motion.Value.{str}
use raft_in_motion.Types.Logs.{Log, fields, initialized}
use raft_in_motion.ServerInstance.{
  ServerInstance, receives, animation_starts, timeout_fires, init, ids, new_bar, process_log,
  visible_bars, run,
}
use raft_in_motion.ServerInstance.Bars.{increasing}
use raft_in_motion.ServerInstance.Panel.{bars_bounded}
use raft_in_motion.ServerInstance.Shown.{process_log-shown}
use raft_in_motion.PixelGrid
use raft_in_motion.PixelGrid.{Frame, config}
use raft_in_motion.PixelGrid.Inside.{all, inside, active_inside}
use raft_in_motion.Examples.{candidate_log, won_log}

bars_bounded_example :
    let s =
      run
        (receives "t1" (won_log (pos 1) ∷ []) ∷ animation_starts 1 ∷ timeout_fires 1 ∷ [])
        (init (pos 1)) in
    (increasing (ids s.bars) ≡ true) × (length s.bars ≤ 24) × (length (visible_bars s) ≤ 8)
bars_bounded_example =
    bars_bounded (pos 1)
      (receives "t1" (won_log (pos 1) ∷ []) ∷ animation_starts 1 ∷ timeout_fires 1 ∷ [])

abbrev leaving : Log
leaving =
    Log.disconnection initialized
      (record { base = record { level = "INFO"; time = "12:00:00" }; raft_id = pos 1 })

process_log-shown_example :
    ((process_log "t1" (fields leaving) (init (pos 1))).current_state ≡ str "Disconnected")
    × ((process_log "t1" (fields leaving) (init (pos 1))).current_term
        ≡ (init (pos 1)).current_term)
process_log-shown_example = process_log-shown "t1" leaving (init (pos 1))

-- A panel with three bars, and the timeout of the first.
abbrev three_bars : ServerInstance
three_bars = record (init (pos 1)) {
  bars =
      new_bar 1 "t1" (candidate_log (pos 1))
      ∷ new_bar 2 "t2" (won_log (pos 1))
      ∷ new_bar 3 "t3" (candidate_log (pos 1))
      ∷ [];
  exits = 1 ∷ [];
}

abbrev frames : List (Frame ℕ)
frames =
    record { radius_squared = 22500; draws = [] }
    ∷ record { radius_squared = 15625; draws = (649, 1) ∷ (6399, 1) ∷ [] }
    ∷ []

active_inside_example :
    all
      (inside (config false false))
      (PixelGrid.run (config false false) frames PixelGrid.init).active_pixels
    ≡ true
active_inside_example = active_inside false false frames refl
