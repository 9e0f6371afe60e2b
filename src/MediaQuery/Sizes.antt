-- ===== src/MediaQuery/Sizes.antt =====
-- The sizes by the width of the window: the configs of frontend/src/components/ui/actionBar.tsx and
-- frontend/src/components/eventHistory.tsx, the box of frontend/src/components/pixelGrid.tsx, and the
-- classes of the columns in frontend/src/app/page.tsx. Tailwind's breakpoints sm and md are 640 and 768 pixels wide.
use raft_in_motion.Prelude.{
  ℕ, String, ◌+◌, ◌*◌, ◌<◌, ◌≡◌, ◌⊎◌, ◌↔◌, leb, Bool, arith, if◌then◌else◌,
}
use raft_in_motion.PixelGrid.{config}

pub record Box : Type 0 where
  pub canvas_size : ℕ
  pub padding : ℕ

-- The memoized config of ActionSearchBar.
abbrev pub bar_config : Bool → Bool → Box
bar_config is_mobile is_tablet = record {
  canvas_size = if is_mobile then 300 else (if is_tablet then 350 else 400);
  padding = if is_mobile then 8 else (if is_tablet then 12 else 16);
}

-- The memoized config of EventHistory.
abbrev pub history_config : Bool → Bool → Box
history_config is_mobile is_tablet = record {
  canvas_size = if is_mobile then 300 else (if is_tablet then 350 else 400);
  padding = if is_mobile then 8 else (if is_tablet then 12 else 16);
}

abbrev pub total_width : Box → ℕ
total_width box = box.canvas_size + box.padding * 2

-- The media queries, by the width of the window.
abbrev pub is_mobile : ℕ → Bool
is_mobile width = leb width 640

abbrev pub is_tablet : ℕ → Bool
is_tablet width = leb width 1024

abbrev pub bar_width : ℕ → ℕ
bar_width width = total_width (bar_config (is_mobile width) (is_tablet width))

abbrev pub history_width : ℕ → ℕ
history_width width = total_width (history_config (is_mobile width) (is_tablet width))

-- p-2 sm:p-3 md:p-4
abbrev pub grid_padding : ℕ → ℕ
grid_padding width = if leb 768 width then 16 else (if leb 640 width then 12 else 8)

-- The canvas of PixelGrid in its box.
abbrev pub grid_width : ℕ → ℕ
grid_width width = (config (is_mobile width) (is_tablet width)).canvas_size + grid_padding width * 2

-- The queries of the page are of its own: max-width 768 and 1024.
abbrev pub page_direction : ℕ → String
page_direction width = if leb width 768 then "flex-col" else "flex-row"

abbrev pub column_width : ℕ → String
column_width width =
    if leb width 768 then "w-full" else (if leb width 1024 then "w-1/2" else "w-2/5")

-- The action bar and the event history are equally wide at every width of the window. They are as wide as the
-- box of the pixel grid, whose sizing they are to match, at all widths but 640 and those from 768 to 1024.
pub widths_agree_iff :
    (width : ℕ)
    → (bar_width width ≡ history_width width)
      × ((grid_width width ≡ history_width width)
          ↔ ((width < 640) ⊎ (((640 < width) × (width < 768)) ⊎ (1024 < width))))
widths_agree_iff width = ground arith
