-- ===== src/PixelGrid.antt =====
-- frontend/src/components/pixelGrid.tsx: the active pixels of the canvas. `Math.random` is a
-- parameter: each draw is an index and an opacity. The radius of the circle is one too, since it is
-- computed with `Math.sin`: a frame is given the integer part of its square, which decides the test
-- `distanceSquared <= radiusSquared` as well, the centres of the pixels and of the canvas being whole.
-- `dx` and `dy` are the distances, whose squares are those of the signed differences.
pub mod Inside
pub mod Draw
use raft_in_motion.Prelude.{
  ℕ, suc, ◌+◌, ◌-◌, ◌*◌, ◌/◌, ◌%◌, ◌==◌, leb, Bool, true, false, List, [], ◌∷◌, if◌then◌else◌,
}

-- An opacity, `Math.random() * 0.8 + 0.2`, is of any type: it is only stored and drawn.
pub record ActivePixel (O : Type 0) : Type 0 where
  pub x : ℕ
  pub y : ℕ
  pub opacity : O

pub record Config : Type 0 where
  pub pixel_size : ℕ
  pub gap : ℕ
  pub grid_size : ℕ
  pub canvas_size : ℕ

-- The memoized config, from isMobile and isTablet.
abbrev pub config : Bool → Bool → Config
config is_mobile is_tablet = record {
  pixel_size = if is_mobile then 6 else 8;
  gap = if is_mobile then 12 else 14;
  grid_size = if is_mobile then 60 else (if is_tablet then 70 else 80);
  canvas_size = if is_mobile then 300 else (if is_tablet then 350 else 400);
}

-- |a - b|
abbrev pub dist : ℕ → ℕ → ℕ
dist a b = (a - b) + (b - a)

abbrev pub distance_squared : ℕ → ℕ → ℕ
distance_squared dx dy = dx * dx + dy * dy

abbrev pub pixels_to_update : Config → ℕ
pixels_to_update c = c.grid_size * c.grid_size * 3 / 100

module _ {O : Type 0} where
  -- activePixels.set(index, pixel)
  abbrev pub map_set : ℕ → ActivePixel O → List (ℕ × ActivePixel O) → List (ℕ × ActivePixel O)
  map_set index pixel [] = (index, pixel) ∷ []
  map_set index pixel ((i, q) ∷ rest) =
      if i == index then (i, pixel) ∷ rest else (i, q) ∷ map_set index pixel rest

  -- activePixels.delete(index)
  abbrev pub map_delete : ℕ → List (ℕ × ActivePixel O) → List (ℕ × ActivePixel O)
  map_delete index [] = []
  map_delete index ((i, q) ∷ rest) = if i == index then rest else (i, q) ∷ map_delete index rest

  -- One round of the loop, on the pixel that is drawn.
  unfoldable pub update_pixel :
      Config → ℕ → ℕ × O → List (ℕ × ActivePixel O) → List (ℕ × ActivePixel O)
  update_pixel c radius_squared (index, opacity) active_pixels =
      let y = index / c.grid_size in
      let x = index % c.grid_size in
      let pitch = c.pixel_size + c.gap in
      let pixel_center_x = x * pitch + c.pixel_size / 2 in
      let pixel_center_y = y * pitch + c.pixel_size / 2 in
      let dx = dist pixel_center_x (c.canvas_size / 2) in
      let dy = dist pixel_center_y (c.canvas_size / 2) in
      if leb (distance_squared dx dy) radius_squared
      then map_set index (record { x = x * pitch; y = y * pitch; opacity = opacity }) active_pixels
      else map_delete index active_pixels

  -- The loop, for the draws of one frame: pixelsToUpdate of them.
  unfoldable pub update_pixels :
      Config → ℕ → List (ℕ × O) → List (ℕ × ActivePixel O) → List (ℕ × ActivePixel O)
  unfolding update_pixel
  update_pixels c radius_squared [] active_pixels = active_pixels
  update_pixels c radius_squared (draw ∷ rest) active_pixels =
      update_pixels c radius_squared rest (update_pixel c radius_squared draw active_pixels)

-- An animation frame: the number of frames, and the active pixels.
pub record Animation (O : Type 0) : Type 0 where
  pub frame_count : ℕ
  pub active_pixels : List (ℕ × ActivePixel O)

-- What the browser gives to a frame.
pub record Frame (O : Type 0) : Type 0 where
  pub radius_squared : ℕ
  pub draws : List (ℕ × O)

module _ {O : Type 0} where
  abbrev pub init : Animation O
  init = record { frame_count = 0; active_pixels = [] }

  unfoldable pub animate : Config → Frame O → Animation O → Animation O
  unfolding update_pixels
  animate c frame a =
      let n = suc a.frame_count in
      if n % 8 == 0
      then record {
        frame_count = n;
        active_pixels = update_pixels c frame.radius_squared frame.draws a.active_pixels;
      }
      else record { frame_count = n; active_pixels = a.active_pixels }

  unfoldable pub run : Config → List (Frame O) → Animation O → Animation O
  run c [] a = a
  run c (frame ∷ rest) a = run c rest (animate c frame a)
