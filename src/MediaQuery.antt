-- ===== src/MediaQuery.antt =====
-- frontend/src/context/mediaQuery.tsx: useMediaQuery with the MediaQueryList objects of the browser, each a
-- number in the order of `matchMedia`; a listener reads the object that it was made for. The server has no
-- window: there the effect never runs. React runs the cleanup before the effect of another query.
pub mod Listens
pub mod Sizes
use raft_in_motion.Prelude.{
  ℕ, suc, String, Bool, true, false, not, ◌==◌, Option, none, some, List, [], ◌∷◌, ◌++◌, length,
  get_elem?, modify, filter, if◌then◌else◌,
}

pub record MediaQueryList : Type 0 where
  pub query : String
  pub matches : Bool

pub record MediaQuery : Type 0 where
  pub media : List MediaQueryList
  pub listeners : List ℕ  -- the objects with a listener of this component
  pub current : Option ℕ  -- the object of the effect that last ran, while mounted
  pub matches : Bool  -- the state

abbrev pub init : MediaQuery
init = record { media = []; listeners = []; current = none; matches = false }

-- media.removeEventListener("change", listener)
abbrev pub remove_listener : ℕ → List ℕ → List ℕ
remove_listener m listeners = filter (λ n. not (n == m)) listeners

-- The cleanup of the effect.
abbrev pub cleanup : Option ℕ → MediaQuery → MediaQuery
cleanup none q = q
cleanup (some m) q = record q { listeners = remove_listener m q.listeners; current = none }

-- The effect for a query, which matches now or not.
unfoldable pub effect : String → Bool → MediaQuery → MediaQuery
effect query matches q =
    let m = length q.media in
    record q {
      media = q.media ++ record { query = query; matches = matches } ∷ [];
      listeners = m ∷ q.listeners;
      current = some m;
      matches = matches;
    }

abbrev listen : Option MediaQueryList → MediaQuery → MediaQuery
listen none q = q
listen (some media) q = record q { matches = media.matches }

-- An object changes: its event reaches the listeners that it has.
abbrev pub hears : ℕ → List ℕ → Bool
hears m [] = false
hears m (n ∷ rest) = if n == m then true else hears m rest

unfoldable pub change : ℕ → Bool → MediaQuery → MediaQuery
change m matches q =
    let media = modify m (λ l. record l { matches = matches }) q.media in
    let changed = record q { media = media } in
    if hears m q.listeners then listen (get_elem? media m) changed else changed

-- The query of a render is a new one, or the component goes, or an object changes.
pub data Event : Type 0 where
  renders : String → Bool → Event
  unmounts : Event
  changes : ℕ → Bool → Event

unfoldable pub step : Event → MediaQuery → MediaQuery
unfolding effect change
step (renders query matches) q = effect query matches (cleanup q.current q)
step unmounts q = cleanup q.current q
step (changes m matches) q = change m matches q

unfoldable pub run : List Event → MediaQuery → MediaQuery
run [] q = q
run (e ∷ rest) q = run rest (step e q)
