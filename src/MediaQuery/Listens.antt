-- ===== src/MediaQuery/Listens.antt =====
-- The listeners and the state of useMediaQuery (frontend/src/context/mediaQuery.tsx).
use raft_in_motion.Prelude.{ℕ, ◌≡◌, Bool, Option, none, some, List, [], ◌∷◌, get_elem?}
use raft_in_motion.MediaQuery.{MediaQuery}

abbrev listeners_of : Option ℕ → List ℕ
listeners_of none = []
listeners_of (some m) = m ∷ []

-- What the object of the effect says, if there is one.
abbrev pub matches_of : Option ℕ → MediaQuery → Option Bool
matches_of none q = some q.matches
matches_of (some m) q = elim (get_elem? q.media m) [ none ↦ none | some media ↦ some media.matches ]

-- One listener while the component is mounted and none after, and the state is what its object says.
pub Follows : MediaQuery → Type 0
Follows q = (q.listeners ≡ listeners_of q.current) × (matches_of q.current q ≡ some q.matches)
