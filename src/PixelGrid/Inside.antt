-- ===== src/PixelGrid/Inside.antt =====
-- The active pixels stay inside the canvas, and each stands where its index says.
use native.Mathlib.Nat.{mul-le-mul_left, mul-le-mul_right, le_trans}
use raft_in_motion.Prelude.{
  ℕ, suc, ◌+◌, ◌*◌, ◌/◌, ◌%◌, ◌≤◌, ◌<◌, ◌≡◌, refl, ◌==◌, leb, Bool, true, false, ◌&&◌, List, [],
  ◌∷◌, Bool-cases, inl, inr, arith,
}
use raft_in_motion.PixelGrid.{
  ActivePixel, Config, Frame, Animation, config, dist, distance_squared, map_set, map_delete,
  update_pixel, update_pixels, animate, run, init,
}

abbrev pub all {ℓ} : {A : Type ℓ} → (A → Bool) → List A → Bool
all p [] = true
all p (x ∷ xs) = p x && all p xs

module _ {O : Type 0} where
  -- The square of the pixel lies inside the canvas, at the place of its index in the grid.
  abbrev pub inside : Config → ℕ × ActivePixel O → Bool
  inside c (index, pixel) =
      (pixel.x == index % c.grid_size * (c.pixel_size + c.gap))
      && (pixel.y == index / c.grid_size * (c.pixel_size + c.gap))
      && leb (pixel.x + c.pixel_size) c.canvas_size
      && leb (pixel.y + c.pixel_size) c.canvas_size

  all-map_set :
      (p : ℕ × ActivePixel O → Bool) (index : ℕ) (pixel : ActivePixel O)
      (m : List (ℕ × ActivePixel O))
      → p (index, pixel) ≡ true
      → all p m ≡ true
      → all p (map_set index pixel m) ≡ true
  all-map_set p index pixel [] h a = ground arith
  all-map_set p index pixel ((i, q) ∷ rest) h a = ground (arith, all-map_set p index pixel rest h)

  all-map_delete :
      (p : ℕ × ActivePixel O → Bool) (index : ℕ) (m : List (ℕ × ActivePixel O))
      → all p m ≡ true
      → all p (map_delete index m) ≡ true
  all-map_delete p index [] a = refl
  all-map_delete p index ((i, q) ∷ rest) a = ground (arith, all-map_delete p index rest)

root_le : (a k n : ℕ) → a * a ≤ n → n < suc k * suc k → a ≤ k
root_le a k n h b = ground (arith, square)
  where
    square : suc k ≤ a → suc k * suc k ≤ a * a
    square l = le_trans (mul-le-mul_left (suc k) l) (mul-le-mul_right a l)

-- A distance whose square is at most n is at most k, where n is less than (k + 1)².
in_circle : (k n dx dy : ℕ) → n < suc k * suc k → distance_squared dx dy ≤ n → (dx ≤ k) × (dy ≤ k)
in_circle k n dx dy b h = (root_le dx k n (omega arith) b, root_le dy k n (omega arith) b)

-- The radius is at most 0.375 of the canvas.
abbrev pub fits : Config → ℕ → Bool
fits c radius_squared = leb (64 * radius_squared) (9 * (c.canvas_size * c.canvas_size))

fits_canvas :
    (is_mobile is_tablet : Bool) (radius_squared px py : ℕ)
    → let c = config is_mobile is_tablet in
      fits c radius_squared ≡ true
      → distance_squared
          (dist (px + c.pixel_size / 2) (c.canvas_size / 2))
          (dist (py + c.pixel_size / 2) (c.canvas_size / 2))
        ≤ radius_squared
      → (px + c.pixel_size ≤ c.canvas_size) × (py + c.pixel_size ≤ c.canvas_size)
fits_canvas true is_tablet r px py f h =
    let (a, b) = in_circle 112 r (dist (px + 3) 150) (dist (py + 3) 150) (ground arith) h in
    (omega arith, omega arith)
fits_canvas false true r px py f h =
    let (a, b) = in_circle 131 r (dist (px + 4) 175) (dist (py + 4) 175) (ground arith) h in
    (omega arith, omega arith)
fits_canvas false false r px py f h =
    let (a, b) = in_circle 150 r (dist (px + 4) 200) (dist (py + 4) 200) (ground arith) h in
    (omega arith, omega arith)

module _ {O : Type 0} (is_mobile is_tablet : Bool) where
  update_pixel-inside :
      (r : ℕ) (draw : ℕ × O) (m : List (ℕ × ActivePixel O))
      → let c = config is_mobile is_tablet in
        fits c r ≡ true → all (inside c) m ≡ true → all (inside c) (update_pixel c r draw m) ≡ true
  unfolding update_pixel
  update_pixel-inside r (index, opacity) m f a =
      let c = config is_mobile is_tablet in
      let px = index % c.grid_size * (c.pixel_size + c.gap) in
      let py = index / c.grid_size * (c.pixel_size + c.gap) in
      let far =
        distance_squared (dist (px + c.pixel_size / 2) (c.canvas_size / 2))
          (dist (py + c.pixel_size / 2) (c.canvas_size / 2)) in
      let pixel : ActivePixel O = record { x = px; y = py; opacity = opacity } in
      elim (Bool-cases (leb far r)) [
        | inl near ↦
            (let (right, bottom) = fits_canvas is_mobile is_tablet r px py f (ground arith) in
              rw near (all-map_set (inside c) index pixel m (ground arith) a))
        | inr away ↦ rw away (all-map_delete (inside c) index m a)
      ]

  update_pixels-inside :
      (r : ℕ) (draws : List (ℕ × O)) (m : List (ℕ × ActivePixel O))
      → let c = config is_mobile is_tablet in
        fits c r ≡ true
        → all (inside c) m ≡ true
        → all (inside c) (update_pixels c r draws m) ≡ true
  unfolding update_pixels
  update_pixels-inside r [] m f a = a
  update_pixels-inside r (draw ∷ rest) m f a =
      let c = config is_mobile is_tablet in
      update_pixels-inside r rest (update_pixel c r draw m) f (update_pixel-inside r draw m f a)

  run-inside :
      (frames : List (Frame O)) (a : Animation O)
      → let c = config is_mobile is_tablet in
        all (λ frame. fits c frame.radius_squared) frames ≡ true
        → all (inside c) a.active_pixels ≡ true
        → all (inside c) (run c frames a).active_pixels ≡ true
  unfolding run animate
  run-inside [] a f h = h
  run-inside (frame ∷ rest) a f h =
      let c = config is_mobile is_tablet in
      run-inside rest (animate c frame a) (ground arith)
        (ground (arith, update_pixels-inside frame.radius_squared frame.draws a.active_pixels))

-- On each of the three layouts, and whatever pixels and opacities are drawn at random: while the
-- radius is at most 0.375 of the canvas, every active pixel is at all frames the square of its own
-- index in the grid, and lies wholly inside the canvas.
pub active_inside :
    {O : Type 0} (is_mobile is_tablet : Bool) (frames : List (Frame O))
    → let c = config is_mobile is_tablet in
      all (λ frame. fits c frame.radius_squared) frames ≡ true
      → all (inside c) (run c frames init).active_pixels ≡ true
active_inside is_mobile is_tablet frames f = run-inside is_mobile is_tablet frames init f refl
