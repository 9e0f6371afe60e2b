-- ===== src/Value/Decimal.antt =====
-- The decimal text of an integer, as JavaScript converts a number to a string.
use Prim.Native.Char.{Char}
use Prim.Native.String.{[], ◌∷◌, ◌++◌}
use raft_in_motion.Prelude.{
  ℕ, zero, suc, ◌/◌, ◌%◌, ◌<◌, String, ◌≡◌, refl, arith, ltb, ◌==◌, if◌then◌else◌,
}
use raft_in_motion.Prelude.Int.{ℤ, pos, negsuc}

abbrev digit : ℕ → Char
digit n =
    if n == 0
    then "0"
    else if n == 1
    then "1"
    else if n == 2
    then "2"
    else if n == 3
    then "3"
    else if n == 4
    then "4"
    else if n == 5
    then "5"
    else if n == 6
    then "6"
    else if n == 7
    then "7"
    else if n == 8
    then "8"
    else "9"

-- The digits of n before those already found. The number of rounds left bounds the recursion.
digits : ℕ → ℕ → String → String
digits zero n found = found
digits (suc fuel) n found =
    let more = digits fuel (n / 10) (digit (n % 10) ∷ found) in
    if ltb n 10 then digit n ∷ found else more

-- n + 1 rounds are enough, since n / 10 < n from the second digit on.
unfoldable pub decimal : ℕ → String
unfolding digits
decimal n = digits (suc n) n []

unfoldable pub decimal_ℤ : ℤ → String
unfolding decimal
decimal_ℤ (pos n) = decimal n
decimal_ℤ (negsuc n) = "-" ++ decimal (suc n)

-- Any two numbers of rounds above n give the same text: the bound is never reached.
digits_enough : (f g n : ℕ) (found : String) → n < f → n < g → digits f n found ≡ digits g n found
unfolding digits
digits_enough zero g n found h k = absurd (omega arith)
digits_enough (suc f) zero n found h k = absurd (omega arith)
digits_enough (suc f) (suc g) n found h k =
    ground (arith, digits_enough f g (n / 10) (digit (n % 10) ∷ found))

decimal_runs : decimal 1024 ≡ "1024"
unfolding decimal
decimal_runs = refl
