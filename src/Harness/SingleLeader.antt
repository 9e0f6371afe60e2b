-- ===== src/Harness/SingleLeader.antt =====
-- The leader that CheckSingleLeader of internal/harness/harness.go finds.
use raft_in_motion.Prelude.{
  ℕ, suc, ◌≡◌, inl, inr, refl, Bool, ◌&&◌, Bool-cases, Option, none, some, List, [], ◌∷◌, arith,
  if◌then◌else◌,
}
use raft_in_motion.Prelude.Int.{ℤ, pos, negsuc, minus_one}
use raft_in_motion.Harness.{find_leader, check_rounds}

-- The connected nodes that say that they lead, from node i on.
abbrev pub leaders : ℕ → List (Bool × Bool) → List ℕ
leaders i [] = []
leaders i ((connected, is_leader) ∷ rest) =
    let later = leaders (suc i) rest in if connected && is_leader then i ∷ later else later

-- What a list of leaders means for a round.
abbrev pub verdict : List ℕ → Option ℤ
verdict [] = some minus_one
verdict (i ∷ []) = some (pos i)
verdict (i ∷ j ∷ rest) = none

abbrev verdict_from : ℤ → List ℕ → Option ℤ
verdict_from (negsuc n) found = verdict found
verdict_from (pos i) [] = some (pos i)
verdict_from (pos i) (j ∷ rest) = none

find_leader-pos :
    (i j : ℕ) (nodes : List (Bool × Bool))
    → find_leader i (pos j) nodes ≡ verdict_from (pos j) (leaders i nodes)
find_leader-pos i j [] = refl
find_leader-pos i j ((c, l) ∷ rest) = ground (arith, find_leader-pos (suc i) j rest)

verdict_cons : (i : ℕ) (found : List ℕ) → verdict_from (pos i) found ≡ verdict (i ∷ found)
verdict_cons i [] = refl
verdict_cons i (j ∷ found) = refl

find_leader-verdict :
    (i : ℕ) (nodes : List (Bool × Bool)) → find_leader i minus_one nodes ≡ verdict (leaders i nodes)
find_leader-verdict i [] = refl
find_leader-verdict i ((c, l) ∷ rest) = elim (Bool-cases (c && l)) [
  | inl leads ↦
      ground (arith, leads, find_leader-pos (suc i) i rest, verdict_cons i (leaders (suc i) rest))
  | inr other ↦ ground (arith, other, find_leader-verdict (suc i) rest)
]

-- CheckSingleLeader looks at the rounds until one has a leader: it finds the node that is then the only one to lead
-- among the connected nodes, and gives up with -1 as soon as there are two, or after the last round.
abbrev pub first_verdict : List (List (Bool × Bool)) → ℤ
first_verdict [] = minus_one
first_verdict (nodes ∷ rest) =
    let later = first_verdict rest in
    elim (leaders 0 nodes) [ [] ↦ later | i ∷ [] ↦ pos i | i ∷ j ∷ more ↦ minus_one ]

pub check_rounds-first_verdict :
    (rounds : List (List (Bool × Bool))) → check_rounds rounds ≡ first_verdict rounds
unfolding check_rounds
check_rounds-first_verdict [] = refl
check_rounds-first_verdict (nodes ∷ rest) =
    ground (arith, find_leader-verdict 0 nodes, check_rounds-first_verdict rest)
