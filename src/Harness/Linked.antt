-- ===== src/Harness/Linked.antt =====
-- The connections that internal/harness/harness.go keeps between the services.
use raft_in_motion.Prelude.{
  ℕ, zero, suc, ◌+◌, ◌≤◌, ◌<◌, ◌≡◌, inl, inr, refl, ap, ◌∙◌, ◌==◌, Bool, true, false, not, ◌&&◌,
  Bool-cases, is_some, if◌then◌else◌, arith,
}
use raft_in_motion.RpcServer.{Server, connect_to_peer}
use raft_in_motion.Harness.Nodes.{Cluster, is_linked, link, reconnect_peer, reconnect_peers}

-- The second has the connections of the first, and the same flags.
pub record Grows (c d : Cluster) : Type 0 where
  pub kept : (i j : ℕ) → is_linked c i j ≡ true → is_linked d i j ≡ true
  pub same_n : d.n ≡ c.n
  pub same_connected : d.connected ≡ c.connected
  pub same_alive : d.alive ≡ c.alive

pub Grows-refl : (c : Cluster) → Grows c c
Grows-refl c = record { kept = λ i j h. h; same_n = refl; same_connected = refl; same_alive = refl }

pub Grows-trans : (c d e : Cluster) → Grows c d → Grows d e → Grows c e
Grows-trans c d e g k = record {
  kept = λ i j h. k.kept i j (g.kept i j h);
  same_n = k.same_n ∙ g.same_n;
  same_connected = k.same_connected ∙ g.same_connected;
  same_alive = k.same_alive ∙ g.same_alive;
}

connect-keeps :
    (dials : Bool) (j p : ℕ) (s : Server)
    → is_some (s.peer_clients p) ≡ true
    → is_some ((connect_to_peer dials j s).1.peer_clients p) ≡ true
unfolding connect_to_peer
connect-keeps dials j p s h = ground (arith, h)

connect-holds :
    (dials : Bool) (j : ℕ) (s : Server)
    → (connect_to_peer dials j s).0 ≡ true
    → is_some ((connect_to_peer dials j s).1.peer_clients j) ≡ true
unfolding connect_to_peer
connect-holds dials j s h = ground (arith, h)

pub link-Grows : (dials : Bool) (i j : ℕ) (c : Cluster) → Grows c (link dials i j c).1
unfolding link
link-Grows dials i j c = record {
  kept = λ a b h. ground (arith, h, connect-keeps dials j b (c.services i));
  same_n = refl;
  same_connected = refl;
  same_alive = refl;
}

pub link-holds :
    (dials : Bool) (i j : ℕ) (c : Cluster)
    → (link dials i j c).0 ≡ true
    → is_linked (link dials i j c).1 i j ≡ true
unfolding link
link-holds dials i j c h = ground (arith, connect-holds dials j (c.services i) h)

-- Of either branch of a test.
pub if-Grows :
    (b : Bool) (c : Cluster) (x y : Bool × Cluster)
    → Grows c x.1
    → Grows c y.1
    → Grows c (if b then x else y).1
if-Grows true c x y g k = g
if-Grows false c x y g k = k

-- What a reconnection gives: the connections between id and a live peer.
unfoldable pub Both : ℕ → ℕ → Cluster → Type 0
Both id j c = (is_linked c id j ≡ true) × (is_linked c j id ≡ true)

reconnect_peer-Grows :
    (dials : ℕ → ℕ → Bool) (id j : ℕ) (c : Cluster) → Grows c (reconnect_peer dials id j c).1
unfolding reconnect_peer
reconnect_peer-Grows dials id j c =
    let to = link (dials id j) id j c in
    let one = link-Grows (dials id j) id j c in
    let back = link (dials j id) j id to.1 in
    let two = Grows-trans c to.1 back.1 one (link-Grows (dials j id) j id to.1) in
    if-Grows (not (j == id) && c.alive j) c (if to.0 then back else to) (true, c)
      (if-Grows to.0 c back to two one) (Grows-refl c)

reconnect_peer-Both :
    (dials : ℕ → ℕ → Bool) (id j : ℕ) (c : Cluster)
    → (reconnect_peer dials id j c).0 ≡ true
    → (j == id) ≡ false
    → c.alive j ≡ true
    → Both id j (reconnect_peer dials id j c).1
unfolding reconnect_peer Both
reconnect_peer-Both dials id j c h ne a =
    let to = link (dials id j) id j c in
    let one = link-holds (dials id j) id j c in
    let back = link-holds (dials j id) j id to.1 in
    let grows = link-Grows (dials j id) j id to.1 in
    ground (arith, h, ne, a, one, back, grows.kept id j)

pub reconnect_peers-Grows :
    (dials : ℕ → ℕ → Bool) (id j count : ℕ) (c : Cluster)
    → Grows c (reconnect_peers dials id j count c).1
reconnect_peers-Grows dials id j zero c = Grows-refl c
reconnect_peers-Grows dials id j (suc count) c =
    let r = reconnect_peer dials id j c in
    let one = reconnect_peer-Grows dials id j c in
    let rest = reconnect_peers-Grows dials id (suc j) count r.1 in
    let later = reconnect_peers dials id (suc j) count r.1 in
    if-Grows r.0 c later r (Grows-trans c r.1 later.1 one rest) one

pub reconnect_peers-Both :
    (dials : ℕ → ℕ → Bool) (id j count : ℕ) (c : Cluster) (k : ℕ)
    → (reconnect_peers dials id j count c).0 ≡ true
    → j ≤ k
    → k < j + count
    → (k == id) ≡ false
    → c.alive k ≡ true
    → Both id k (reconnect_peers dials id j count c).1
unfolding Both
reconnect_peers-Both dials id j zero c k h from below ne a = absurd (omega (arith, from, below))
reconnect_peers-Both dials id j (suc count) c k h from below ne a =
    let r = reconnect_peer dials id j c in
    let grows = reconnect_peer-Grows dials id j c in
    let rest = reconnect_peers-Grows dials id (suc j) count r.1 in
    let alive_still : r.1.alive k ≡ true = ap (λ f. f k) grows.same_alive ∙ a in
    elim (Bool-cases (k == j)) [
      | inl here ↦
          let same : j ≡ k = ground arith in
          let both = reconnect_peer-Both dials id j c in
          ground (arith, h, ne, a, same, both, rest.kept id j, rest.kept j id)
      | inr later ↦
          let both = reconnect_peers-Both dials id (suc j) count r.1 k in
          ground (arith, h, ne, alive_still, from, below, later, both)
    ]
