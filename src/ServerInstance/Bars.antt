-- ===== src/ServerInstance/Bars.antt =====
-- The bars of a panel: their ids, their number, and the removal of one.
use raft_in_motion.Prelude.{
  ℕ, zero, suc, ◌-◌, ◌≤◌, ◌<◌, ◌≡◌, refl, ap, ◌∙◌, String, Bool, true, ◌&&◌, List, [], ◌∷◌, ◌++◌,
  length, length-append, length-drop, filter, drop, ltb, arith,
}
use raft_in_motion.Value.{Fields}
use raft_in_motion.ServerInstance.{
  LogBarData, ServerInstance, ids, max_of, limited, new_id, new_bar, add_log_bar,
}

-- Every number is less than the one after it.
abbrev pub increasing : List ℕ → Bool
increasing [] = true
increasing (x ∷ []) = true
increasing (x ∷ y ∷ rest) = ltb x y && increasing (y ∷ rest)

abbrev below : ℕ → List ℕ → Bool
below n [] = true
below n (x ∷ rest) = ltb x n && below n rest

below-max : (n : ℕ) (l : List ℕ) → max_of l < n → below n l ≡ true
below-max n [] h = refl
below-max n (x ∷ rest) h = ground (arith, below-max n rest)

increasing-append :
    (l : List ℕ) (n : ℕ) → increasing l ≡ true → below n l ≡ true → increasing (l ++ n ∷ []) ≡ true
increasing-append [] n h b = refl
increasing-append (x ∷ []) n h b = ground arith
increasing-append (x ∷ y ∷ rest) n h b = ground (arith, increasing-append (y ∷ rest) n)

pub increasing-tail : (x : ℕ) (l : List ℕ) → increasing (x ∷ l) ≡ true → increasing l ≡ true
increasing-tail x [] h = refl
increasing-tail x (y ∷ l) h = ground arith

increasing-drop :
    (n : ℕ) (bars : List LogBarData)
    → increasing (ids bars) ≡ true
    → increasing (ids (drop n bars)) ≡ true
increasing-drop zero bars h = h
increasing-drop (suc n) [] h = refl
increasing-drop (suc n) (b ∷ rest) h = increasing-drop n rest (increasing-tail b.id (ids rest) h)

-- x is less than all of l.
abbrev pub above : ℕ → List ℕ → Bool
above x [] = true
above x (y ∷ rest) = ltb x y && above x rest

above_trans : (x y : ℕ) (l : List ℕ) → x < y → above y l ≡ true → above x l ≡ true
above_trans x y [] h a = refl
above_trans x y (z ∷ l) h a = ground (arith, above_trans x y l)

pub increasing-above : (x : ℕ) (l : List ℕ) → increasing (x ∷ l) ≡ true → above x l ≡ true
increasing-above x [] h = refl
increasing-above x (y ∷ l) h = ground (arith, increasing-above y l, above_trans x y l)

increasing-cons :
    (x : ℕ) (l : List ℕ) → above x l ≡ true → increasing l ≡ true → increasing (x ∷ l) ≡ true
increasing-cons x [] a h = refl
increasing-cons x (y ∷ l) a h = ground arith

above-filter :
    (x : ℕ) (p : LogBarData → Bool) (bars : List LogBarData)
    → above x (ids bars) ≡ true
    → above x (ids (filter p bars)) ≡ true
above-filter x p [] a = refl
above-filter x p (b ∷ rest) a = ground (arith, above-filter x p rest)

pub increasing-filter :
    (p : LogBarData → Bool) (bars : List LogBarData)
    → increasing (ids bars) ≡ true
    → increasing (ids (filter p bars)) ≡ true
increasing-filter p [] h = refl
increasing-filter p (b ∷ rest) h =
    let tail = increasing-filter p rest (increasing-tail b.id (ids rest) h) in
    let up = above-filter b.id p rest (increasing-above b.id (ids rest) h) in
    ground (arith, increasing-cons b.id (ids (filter p rest)) up tail)

ids-append : (l m : List LogBarData) → ids (l ++ m) ≡ ids l ++ ids m
ids-append [] m = refl
ids-append (b ∷ l) m = ap (λ r. b.id ∷ r) (ids-append l m)

-- The bars of a panel: their ids increase, and there are never more than 24.
pub record WellFormed (s : ServerInstance) : Type 0 where
  pub ordered : increasing (ids s.bars) ≡ true
  pub few : length s.bars ≤ 24

limited-ordered :
    (bars : List LogBarData) → increasing (ids bars) ≡ true → increasing (ids (limited bars)) ≡ true
limited-ordered bars h = ground (arith, increasing-drop (length bars - 12) bars h)

limited-few : (bars : List LogBarData) → length (limited bars) ≤ 23
limited-few bars = ground (arith, length-drop (length bars - 12) bars)

new_id-above : (bars : List LogBarData) → below (new_id bars) (ids bars) ≡ true
new_id-above [] = refl
new_id-above (b ∷ rest) = below-max (new_id (b ∷ rest)) (ids (b ∷ rest)) (ground arith)

pub add_log_bar-WellFormed :
    (now : String) (log : Fields) (s : ServerInstance)
    → WellFormed s
    → WellFormed (add_log_bar now log s)
unfolding add_log_bar
add_log_bar-WellFormed now log s v =
    let bars = limited s.bars in
    let bar = new_bar (new_id bars) now log in
    record {
      ordered =
          ap increasing (ids-append bars (bar ∷ []))
          ∙ increasing-append (ids bars) (new_id bars) (limited-ordered s.bars v.ordered)
              (new_id-above bars);
      few = omega (arith, length-append bars (bar ∷ []), limited-few s.bars);
    }
