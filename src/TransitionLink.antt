-- ===== src/TransitionLink.antt =====
-- frontend/src/lib/tansitionLink.tsx: a click on a TransitionLink. Parameter: whether the page has an element
-- .transition-wrapper. The default of a click on a link is to open its address, in its target.
pub mod Opens
use text.Mathlib.Text.{starts_with}
use raft_in_motion.Prelude.{
  ℕ, String, ◌+◌, leb, Bool, true, false, Option, none, some, List, [], ◌∷◌, ◌++◌, filter, map, not,
  if◌then◌else◌,
}

-- A call of router.push that waits for its time.
pub record Timeout : Type 0 where
  pub due : ℕ
  pub href : String

-- What the clicks did: the addresses that the browser opened by default, with a new tab or not, those
-- that the router went to, the timeouts, and the class of the wrapper.
pub record Browser : Type 0 where
  pub defaults : List (String × Bool)
  pub pushed : List String
  pub timeouts : List Timeout
  pub page_transition : Bool

abbrev pub init : Browser
init = record { defaults = []; pushed = []; timeouts = []; page_transition = false }

abbrev pub is_external : String → Bool
is_external href = starts_with href "http"

-- target={href.startsWith("http") ? "_blank" : undefined}
abbrev pub opens_tab : String → Bool
opens_tab href = is_external href

-- handleClick, and the default of the click where it is not prevented.
unfoldable pub handle_click : Bool → ℕ → String → Browser → Browser
handle_click wrapper now href b =
    let opened = record b { defaults = b.defaults ++ (href, opens_tab href) ∷ [] } in
    let delayed = record b {
      page_transition = true;
      timeouts = b.timeouts ++ record { due = now + 150; href = href } ∷ [];
    } in
    let went = record b { pushed = b.pushed ++ href ∷ [] } in
    if is_external href then opened else if wrapper then delayed else went

abbrev pub hrefs : List Timeout → List String
hrefs [] = []
hrefs (t ∷ rest) = t.href ∷ hrefs rest

-- The timeouts that are due by now, and those that are not.
abbrev pub due_by : ℕ → List Timeout → List Timeout
due_by now ts = filter (λ t. leb t.due now) ts

abbrev pub later_than : ℕ → List Timeout → List Timeout
later_than now ts = filter (λ t. not (leb t.due now)) ts

unfoldable pub fire : ℕ → Browser → Browser
fire now b = record b {
  pushed = b.pushed ++ hrefs (due_by now b.timeouts);
  timeouts = later_than now b.timeouts;
}
