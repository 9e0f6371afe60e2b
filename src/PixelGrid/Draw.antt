-- ===== src/PixelGrid/Draw.antt =====
-- The drawing of frontend/src/components/pixelGrid.tsx: globalAlpha is only set where the opacity of a pixel
-- differs from that of the one before it. Parameter: `===` on opacities, where -1 is the one of no pixel.
use raft_in_motion.Prelude.{
  ℕ, ◌≡◌, ◌⊎◌, inl, inr, refl, ap, sym, ◌∙◌, Bool, true, false, Bool-cases, Option, none, some,
  List, [], ◌∷◌, ◌++◌, append_assoc, append-nil, if◌then◌else◌,
}
use raft_in_motion.PixelGrid.{ActivePixel, Config}

-- A call or an assignment on the context of the canvas.
pub data Command (O : Type 0) : Type 0 where
  clear_rect : ℕ → Command O
  set_fill_style : Command O
  set_alpha : O → Command O
  reset_alpha : Command O
  fill_rect : ℕ → ℕ → ℕ → Command O

-- A square on the canvas, with the opacity that it was filled at; `none` is 1.
pub record Filled (O : Type 0) : Type 0 where
  pub x : ℕ
  pub y : ℕ
  pub size : ℕ
  pub alpha : Option O

module _ {O : Type 0} (same : O → O → Bool) where
  abbrev is_current : O → Option O → Bool
  is_current opacity none = false
  is_current opacity (some current) = same opacity current

  -- The loop over the active pixels, with currentOpacity.
  unfoldable pub draw_pixels : ℕ → Option O → List (ℕ × ActivePixel O) → List (Command O)
  draw_pixels pixel_size current [] = []
  draw_pixels pixel_size current ((index, pixel) ∷ rest) =
      let unchanged = fill_rect pixel.x pixel.y pixel_size ∷ draw_pixels pixel_size current rest in
      let changed =
        set_alpha pixel.opacity
        ∷ fill_rect pixel.x pixel.y pixel_size
        ∷ draw_pixels pixel_size (some pixel.opacity) rest in
      if is_current pixel.opacity current then unchanged else changed

  unfoldable pub draw : Config → List (ℕ × ActivePixel O) → List (Command O)
  unfolding draw_pixels
  draw c active_pixels =
      clear_rect c.canvas_size
      ∷ set_fill_style
      ∷ (draw_pixels c.pixel_size none active_pixels ++ reset_alpha ∷ [])

  -- What the canvas holds after some commands, from an opacity on and with these squares.
  abbrev pub perform : Option O → List (Filled O) → List (Command O) → Option O × List (Filled O)
  perform alpha filled [] = (alpha, filled)
  perform alpha filled (clear_rect size ∷ rest) = perform alpha [] rest
  perform alpha filled (set_fill_style ∷ rest) = perform alpha filled rest
  perform alpha filled (set_alpha a ∷ rest) = perform (some a) filled rest
  perform alpha filled (reset_alpha ∷ rest) = perform none filled rest
  perform alpha filled (fill_rect x y size ∷ rest) =
      perform alpha (filled ++ record { x = x; y = y; size = size; alpha = alpha } ∷ []) rest

  -- Each active pixel at its own opacity.
  abbrev pub squares : ℕ → List (ℕ × ActivePixel O) → List (Filled O)
  squares pixel_size [] = []
  squares pixel_size ((index, pixel) ∷ rest) =
      record { x = pixel.x; y = pixel.y; size = pixel_size; alpha = some pixel.opacity }
      ∷ squares pixel_size rest

  perform-append :
      (alpha : Option O) (filled : List (Filled O)) (xs ys : List (Command O))
      → perform alpha filled (xs ++ ys)
        ≡ perform (perform alpha filled xs).0 (perform alpha filled xs).1 ys
  perform-append alpha filled [] ys = refl
  perform-append alpha filled (clear_rect size ∷ xs) ys = perform-append alpha [] xs ys
  perform-append alpha filled (set_fill_style ∷ xs) ys = perform-append alpha filled xs ys
  perform-append alpha filled (set_alpha a ∷ xs) ys = perform-append (some a) filled xs ys
  perform-append alpha filled (reset_alpha ∷ xs) ys = perform-append none filled xs ys
  perform-append alpha filled (fill_rect x y size ∷ xs) ys = perform-append alpha _ xs ys

  already_set :
      (current alpha : Option O) (opacity : O)
      → ((a b : O) → same a b ≡ true → a ≡ b)
      → (current ≡ none) ⊎ (current ≡ alpha)
      → is_current opacity current ≡ true
      → alpha ≡ some opacity
  already_set none alpha opacity equal known h = cc
  already_set (some current) alpha opacity equal (inl nothing) h = cc
  already_set (some current) alpha opacity equal (inr set) h =
      sym set ∙ ap some (sym (equal opacity current h))

  draw_pixels-squares :
      (pixel_size : ℕ) (current alpha : Option O) (filled : List (Filled O))
      (active_pixels : List (ℕ × ActivePixel O))
      → ((a b : O) → same a b ≡ true → a ≡ b)
      → (current ≡ none) ⊎ (current ≡ alpha)
      → (perform alpha filled (draw_pixels pixel_size current active_pixels)).1
        ≡ filled ++ squares pixel_size active_pixels
  unfolding draw_pixels
  draw_pixels-squares pixel_size current alpha filled [] equal known = sym (append-nil filled)
  draw_pixels-squares pixel_size current alpha filled ((index, pixel) ∷ rest) equal known =
      let square : Option O → Filled O =
        λ a. record { x = pixel.x; y = pixel.y; size = pixel_size; alpha = a } in
      let more = squares pixel_size rest in
      elim (Bool-cases (is_current pixel.opacity current)) [
        | inl unchanged ↦
            let here = already_set current alpha pixel.opacity equal known unchanged in
            rw unchanged (
              draw_pixels-squares pixel_size current alpha (filled ++ square alpha ∷ []) rest equal
                known
              ∙ append_assoc filled (square alpha ∷ []) more
              ∙ ap (λ a. filled ++ square a ∷ more) here)
        | inr changed ↦ rw changed (
            draw_pixels-squares pixel_size (some pixel.opacity) (some pixel.opacity)
              (filled ++ square (some pixel.opacity) ∷ []) rest equal (inr refl)
            ∙ append_assoc filled (square (some pixel.opacity) ∷ []) more)
      ]

  -- A frame leaves exactly the active pixels on the canvas, each drawn once, at its place and at its own
  -- opacity, whatever was drawn before and at whatever opacity; and the opacity is then 1 again. So leaving out
  -- an assignment of the opacity that is already set changes nothing.
  pub draw-squares :
      (c : Config) (alpha : Option O) (filled : List (Filled O))
      (active_pixels : List (ℕ × ActivePixel O))
      → ((a b : O) → same a b ≡ true → a ≡ b)
      → perform alpha filled (draw c active_pixels) ≡ (none, squares c.pixel_size active_pixels)
  unfolding draw
  draw-squares c alpha filled active_pixels equal =
      perform-append alpha [] (draw_pixels c.pixel_size none active_pixels) (reset_alpha ∷ [])
      ∙ ap (λ l. (none, l))
          (draw_pixels-squares c.pixel_size none alpha [] active_pixels equal (inl refl))
