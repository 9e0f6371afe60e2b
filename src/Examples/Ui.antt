-- ===== src/Examples/Ui.antt =====
-- The media queries and the drawing of the grid at concrete inputs.
use raft_in_motion.Prelude.{ℕ, ◌≡◌, true, false, none, List, [], ◌∷◌, ◌==◌, arith}
use raft_in_motion.MediaQuery.{Event, renders, unmounts, changes}
use raft_in_motion.PixelGrid.{ActivePixel, config}
use raft_in_motion.PixelGrid.Draw.{perform, draw, squares, draw-squares}

abbrev queries : List Event
queries =
    renders "(max-width: 640px)" false
    ∷ changes 0 true
    ∷ renders "(max-width: 1024px)" true
    ∷ changes 0 false
    ∷ unmounts
    ∷ []

-- Three pixels, two of one opacity.
abbrev pixels : List (ℕ × ActivePixel ℕ)
pixels =
    (1, record { x = 22; y = 0; opacity = 5 })
    ∷ (2, record { x = 44; y = 0; opacity = 5 })
    ∷ (3, record { x = 66; y = 0; opacity = 7 })
    ∷ []

draw-squares_example :
    perform ◌==◌ none [] (draw ◌==◌ (config false false) pixels) ≡ (none, squares ◌==◌ 8 pixels)
draw-squares_example =
    draw-squares ◌==◌ (config false false) none [] pixels (λ a b h. ground (arith, h))
