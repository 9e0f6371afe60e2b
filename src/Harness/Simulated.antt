-- ===== src/Harness/Simulated.antt =====
-- What a simulation finds of the services of internal/harness/harness.go, from NewHarness on.
use raft_in_motion.Prelude.{
  ℕ, zero, suc, ◌+◌, ◌≤◌, ◌<◌, ◌≡◌, inl, inr, refl, ap, subst, ◌∙◌, ltb, ◌==◌, Bool, true, false,
  Bool-cases, List, if◌then◌else◌, arith,
}
use raft_in_motion.RpcServer.{new_server, connect_to_peer}
use raft_in_motion.Harness.Nodes.{
  Cluster, put_at, is_linked, link, link_row, link_rows, new_harness, reconnect_peers,
  reconnect_service, Disturbance, disturb_all, are_allowed,
}
use raft_in_motion.Harness.Linked.{
  Both, reconnect_peers-Grows, reconnect_peers-Both, Grows, Grows-refl, Grows-trans, link-Grows,
  link-holds,
}
use raft_in_motion.Harness.Meshed.{Meshed, all-Meshed}

dialled : (i j : ℕ) (c : Cluster) → (link true i j c).0 ≡ true
unfolding link connect_to_peer
dialled i j c = ground arith

if-link_Grows : (b : Bool) (c d : Cluster) → Grows c d → Grows c (if b then c else d)
if-link_Grows true c d g = Grows-refl c
if-link_Grows false c d g = g

link_row-Grows : (i j count : ℕ) (c : Cluster) → Grows c (link_row (λ i j. true) i j count c)
link_row-Grows i j zero c = Grows-refl c
link_row-Grows i j (suc count) c =
    let d = (link true i j c).1 in
    let e = if i == j then c else d in
    Grows-trans c e (link_row (λ i j. true) i (suc j) count e)
      (if-link_Grows (i == j) c d (link-Grows true i j c)) (link_row-Grows i (suc j) count e)

link_row-links :
    (i j count : ℕ) (c : Cluster) (k : ℕ)
    → j ≤ k
    → k < j + count
    → (i == k) ≡ false
    → is_linked (link_row (λ i j. true) i j count c) i k ≡ true
link_row-links i j zero c k from below ne = absurd (omega (arith, from, below))
link_row-links i j (suc count) c k from below ne =
    let e = if i == j then c else (link true i j c).1 in
    let rest = link_row-Grows i (suc j) count e in
    elim (Bool-cases (k == j)) [
      | inl here ↦
          let same : j ≡ k = ground arith in
          let holds = link-holds true i j c (dialled i j c) in
          rest.kept i k (ground (arith, same, ne, holds))
      | inr later ↦
          link_row-links i (suc j) count e k (ground (arith, from, later)) (omega (arith, below)) ne
    ]

-- The nodes below i are connected to all, and the others are not yet.
record Linked (n i : ℕ) (c : Cluster) : Type 0 where
  size : c.n ≡ n
  all_alive : (k : ℕ) → c.alive k ≡ ltb k n
  marked : (k : ℕ) → c.connected k ≡ ltb k i
  links : (a b : ℕ) → a < i → b < n → (a == b) ≡ false → is_linked c a b ≡ true

link_rows-Linked :
    (n i count : ℕ) (c : Cluster)
    → Linked n i c
    → Linked n (i + count) (link_rows (λ i j. true) i count c)
link_rows-Linked n i zero c l = subst (λ m. Linked n m c) (omega arith) l
link_rows-Linked n i (suc count) c l =
    let row = link_row (λ i j. true) i 0 c.n c in
    let g = link_row-Grows i 0 c.n c in
    let next = record row { connected = put_at i true row.connected } in
    let rest = link_rows-Linked n (suc i) count next (record {
      size = g.same_n ∙ l.size;
      all_alive = λ k. ap (λ f. f k) g.same_alive ∙ l.all_alive k;
      marked = λ k. let same = ap (λ f. f k) g.same_connected in ground (arith, same, l.marked k);
      links = λ a b below in_size ne. elim (Bool-cases (a == i)) [
        | inl here ↦
            let same : i ≡ a = ground arith in
            let new = link_row-links i 0 c.n c b (omega arith) (omega (arith, l.size, in_size)) in
            ground (arith, same, ne, new)
        | inr other ↦ g.kept a b (l.links a b (ground (arith, below, other)) in_size ne)
      ];
    }) in
    subst (λ m. Linked n m (link_rows (λ i j. true) i (suc count) c)) (omega arith) rest

new_harness-Meshed : (n : ℕ) → Meshed (new_harness (λ i j. true) n)
unfolding new_harness
new_harness-Meshed n =
    let start : Cluster = record {
      n = n;
      services = new_server;
      connected = λ i. false;
      alive = λ i. ltb i n;
    } in
    let l = link_rows-Linked n 0 n start (record {
      size = refl;
      all_alive = λ k. refl;
      marked = λ k. ground arith;
      links = λ a b below in_size ne. absurd (omega (arith, below));
    }) in
    record {
      lives = λ i h. ground (arith, h, l.marked i, l.all_alive i);
      meshed =
          λ i j a b ne h k. l.links i j (omega (arith, a, l.size)) (omega (arith, b, l.size)) ne;
    }

-- From a start at which every dial succeeds, whatever a simulation then does to nodes of the cluster, and
-- whichever dials fail: a node that is counted as connected is alive, and it holds a connection to each other
-- node that is counted as connected. Only a live node is reconnected, which is what the simulations do.
pub services_stay_linked :
    (n : ℕ) (ds : List Disturbance) (i j : ℕ)
    → let start = new_harness (λ i j. true) n in
      let h = disturb_all ds start in
      are_allowed ds start ≡ true
      → i < h.n
      → j < h.n
      → (i == j) ≡ false
      → h.connected i ≡ true
      → h.connected j ≡ true
      → (h.alive i ≡ true) × (is_linked h i j ≡ true)
services_stay_linked n ds i j ok a b ne h k =
    let m = all-Meshed ds (new_harness (λ i j. true) n) ok (new_harness-Meshed n) in
    (m.lives i h, m.meshed i j a b ne h k)

-- A node that is cut off is reached again as soon as another is: when a disconnected node is reconnected and
-- counts as connected again, it and each live node that is still counted as disconnected hold connections to
-- each other.
pub isolated_is_reached :
    (dials : ℕ → ℕ → Bool) (id j : ℕ) (h : Cluster)
    → j < h.n
    → (j == id) ≡ false
    → h.alive j ≡ true
    → h.connected j ≡ false
    → h.connected id ≡ false
    → let r = reconnect_service dials id h in
      r.connected id ≡ true
      → (r.connected j ≡ false) × ((is_linked r id j ≡ true) × (is_linked r j id ≡ true))
unfolding reconnect_service Both
isolated_is_reached dials id j h below ne live off id_off on =
    let g = reconnect_peers-Grows dials id 0 h.n h in
    let one = ap (λ f. f j) g.same_connected in
    let two = ap (λ f. f id) g.same_connected in
    elim (Bool-cases (reconnect_peers dials id 0 h.n h).0) [
      | inl all ↦
          let both =
            reconnect_peers-Both dials id 0 h.n h j all (omega arith) (omega (arith, below)) ne
              live in
          ground (arith, all, one, off, ne, both)
      | inr stopped ↦ absurd (ground (arith, stopped, two, id_off, on))
    ]
