-- ===== src/Harness/Ports.antt =====
-- The ports that internal/harness/harness.go gives to the services of a simulation.
use raft_in_motion.Prelude.{
  ℕ, zero, suc, ◌+◌, ◌≤◌, ◌<◌, ◌≡◌, ◌↔◌, inl, inr, refl, ap, ◌∙◌, leb, ltb, ◌==◌, Bool, true, false,
  ◌&&◌, Bool-cases, List, [], ◌∷◌, has, any, arith,
}
use raft_in_motion.Harness.{PortManager, range, next_port_range, restart_port}

pub has-range :
    (p start count : ℕ) → has p (range start count) ≡ (leb start p && ltb p (start + count))
has-range p start zero = ground arith
has-range p start (suc count) = ground (arith, has-range p (suc start) count)

-- A port of both lists.
abbrev pub overlaps : List ℕ → List ℕ → Bool
overlaps xs ys = any (λ p. has p ys) xs

overlaps-has : (p : ℕ) (xs ys : List ℕ) → has p xs ≡ true → has p ys ≡ true → overlaps xs ys ≡ true
overlaps-has p [] ys h k = cc
overlaps-has p (x ∷ xs) ys h k = elim (Bool-cases (x == p)) [
  | inl here ↦ let same : x ≡ p = ground arith in ground (arith, ap (λ q. has q ys) same, k)
  | inr later ↦ ground (arith, overlaps-has p xs ys (ground (arith, h, later)) k)
]

no_overlap :
    (start count : ℕ) (ys : List ℕ)
    → ((p : ℕ) → start ≤ p → p < start + count → has p ys ≡ false)
    → overlaps (range start count) ys ≡ false
no_overlap start zero ys h = refl
no_overlap start (suc count) ys h = ground (
  arith,
  h start (omega arith) (omega arith),
  no_overlap (suc start) count ys (λ p a b. h p (omega arith) (omega arith)),
)

-- Of two simulations one after the other, the second has a port of the first exactly if it has fewer nodes than the
-- first, and at least one. The port manager takes the number after its addition as the first port, so a
-- range starts where the base was raised to and ends above it.
pub overlap_iff_fewer :
    (first second : ℕ) (pm : PortManager)
    → let one = next_port_range first pm in
      let two = next_port_range second one.1 in
      (overlaps one.0 two.0 ≡ true) ↔ ((second < first) × (0 < second))
unfolding next_port_range
overlap_iff_fewer first second pm =
    let start = pm.base_port + first in
    let p = start + second in
    let two = range p second in
    (
      λ both. elim (Bool-cases (ltb second first && ltb 0 second)) [
        | inl fewer ↦ (ground (arith, fewer), ground (arith, fewer))
        | inr enough ↦
            let apart =
              no_overlap start first two (λ q a b. has-range q p second ∙ ground (arith, enough)) in
            absurd (ground (arith, both, apart))
      ],
      λ fewer.
          overlaps-has p (range start first) two (has-range p start first ∙ ground (arith, fewer))
            (has-range p p second ∙ ground (arith, fewer)),
    )

-- A service that is restarted in the first simulation serves on none of the ports that the addresses of the
-- simulation name.
pub restarts_elsewhere :
    (id n : ℕ)
    → id < n
    → has (restart_port id) (next_port_range n (record { base_port = 14200 })).0 ≡ false
unfolding next_port_range
restarts_elsewhere id n h = ground (arith, has-range (restart_port id) (14200 + n) n)
