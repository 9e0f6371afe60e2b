-- ===== src/Harness/Meshed.antt =====
-- The connected services of internal/harness/harness.go are alive and linked to each other, whatever a
-- simulation does to them.
use raft_in_motion.Prelude.{
  ℕ, ◌<◌, ◌≡◌, inl, inr, refl, ap, sym, ◌∙◌, ◌==◌, Bool, true, false, Bool-cases, List, [], ◌∷◌,
  if◌then◌else◌, arith,
}
use raft_in_motion.RpcServer.{Server, new_server, disconnect_peer}
use raft_in_motion.Harness.Nodes.{
  Cluster, put_at, is_linked, disconnect_service, reconnect_peers, reconnect_service, crash_service,
  restart_service, shut_down, Disturbance, isolates, crashes, rejoins, restarts, shuts_down,
  disturb, is_allowed, disturb_all, are_allowed,
}
use raft_in_motion.Harness.Linked.{Both, reconnect_peers-Grows, reconnect_peers-Both}

-- A connected node is alive, and of two connected nodes the first holds a connection to the second.
pub record Meshed (c : Cluster) : Type 0 where
  pub lives : (i : ℕ) → c.connected i ≡ true → c.alive i ≡ true
  pub meshed :
      (i j : ℕ)
      → i < c.n
      → j < c.n
      → (i == j) ≡ false
      → c.connected i ≡ true
      → c.connected j ≡ true
      → is_linked c i j ≡ true

disconnect_peer-keeps :
    (id p : ℕ) (s : Server)
    → (p == id) ≡ false
    → (disconnect_peer id s).peer_clients p ≡ s.peer_clients p
unfolding disconnect_peer
disconnect_peer-keeps id p s ne = ground (arith, ne)

disconnect_service-Meshed : (id : ℕ) (c : Cluster) → Meshed c → Meshed (disconnect_service id c)
unfolding disconnect_service
disconnect_service-Meshed id c m = record {
  lives = λ i h. ground (arith, h, m.lives i);
  meshed = λ i j a b ne h k.
      ground (arith, a, ne, h, k, m.meshed i j a b ne, disconnect_peer-keeps id j (c.services i));
}

crash_service-Meshed : (id : ℕ) (c : Cluster) → Meshed c → Meshed (crash_service id c)
unfolding crash_service disconnect_service
crash_service-Meshed id c m = record {
  lives = λ i h. ground (arith, h, m.lives i);
  meshed = (disconnect_service-Meshed id c m).meshed;
}

shut_down-Meshed : (c : Cluster) → Meshed c → Meshed (shut_down c)
unfolding shut_down
shut_down-Meshed c m = record {
  lives = λ i h. ground (arith, h, m.lives i);
  meshed = λ i j a b ne h k. ground (arith, a, h);
}

-- A reconnection, before the flag of its node is set.
same_flags :
    (dials : ℕ → ℕ → Bool) (id : ℕ) (c : Cluster)
    → ((reconnect_service dials id c).n ≡ c.n) × ((reconnect_service dials id c).alive ≡ c.alive)
unfolding reconnect_service
same_flags dials id c =
    let r = reconnect_peers dials id 0 c.n c in
    let g = reconnect_peers-Grows dials id 0 c.n c in
    elim r.0
      as (λ b.
        let d = if b then record r.1 { connected = put_at id true r.1.connected } else r.1 in
        (d.n ≡ c.n) × (d.alive ≡ c.alive)) [
          | true ↦ (g.same_n, g.same_alive)
          | false ↦ (g.same_n, g.same_alive)
        ]

-- No other node is connected by it.
others_connected :
    (dials : ℕ → ℕ → Bool) (id : ℕ) (c : Cluster) (i : ℕ)
    → (i == id) ≡ false
    → (reconnect_service dials id c).connected i ≡ c.connected i
unfolding reconnect_service
others_connected dials id c i ne =
    let same = ap (λ f. f i) (reconnect_peers-Grows dials id 0 c.n c).same_connected in
    ground (arith, ne, same)

links_after_reconnect :
    (dials : ℕ → ℕ → Bool) (id : ℕ) (c : Cluster)
    → Meshed c
    → (i j : ℕ) → i < c.n
    → j < c.n
    → (i == j) ≡ false
    → (reconnect_service dials id c).connected i ≡ true
    → (reconnect_service dials id c).connected j ≡ true
    → is_linked (reconnect_service dials id c) i j ≡ true
unfolding reconnect_service Both
links_after_reconnect dials id c m i j a b ne h k =
    let g = reconnect_peers-Grows dials id 0 c.n c in
    let both = reconnect_peers-Both dials id 0 c.n c in
    let one = ap (λ f. f i) g.same_connected in
    let two = ap (λ f. f j) g.same_connected in
    let old = m.meshed i j a b ne in
    let linked = g.kept i j in
    elim (Bool-cases (reconnect_peers dials id 0 c.n c).0) [
      | inl all ↦ elim (Bool-cases (i == id)) [
        | inl first ↦
            let same : i ≡ id = ground arith in
            let apart : (j == id) ≡ false = ground (arith, ne, first) in
            let was : c.connected j ≡ true = ground (arith, all, k, two, apart) in
            let link = (both j all (omega arith) (omega (arith, b)) apart (m.lives j was)).0 in
            ground (arith, all, same, link)
        | inr other ↦ elim (Bool-cases (j == id)) [
          | inl second ↦
              let same : j ≡ id = ground arith in
              let was : c.connected i ≡ true = ground (arith, all, h, one, other) in
              let link = (both i all (omega arith) (omega (arith, a)) other (m.lives i was)).1 in
              ground (arith, all, same, link)
          | inr neither ↦ ground (arith, all, h, k, one, two, other, neither, linked, old)
        ]
      ]
      | inr stopped ↦ ground (arith, stopped, h, k, one, two, g.kept i j, m.meshed i j a b ne)
    ]

rejoin-Meshed :
    (dials : ℕ → ℕ → Bool) (id : ℕ) (c : Cluster)
    → Meshed c
    → c.alive id ≡ true
    → Meshed (reconnect_service dials id c)
rejoin-Meshed dials id c m live =
    let flags = same_flags dials id c in
    record {
      lives = λ i h.
          let alive_still = ap (λ f. f i) flags.1 in
          elim (Bool-cases (i == id)) [
            | inl here ↦ let same : i ≡ id = ground arith in ground (arith, alive_still, same, live)
            | inr other ↦ alive_still ∙ m.lives i (sym (others_connected dials id c i other) ∙ h)
          ];
      meshed = λ i j a b.
          links_after_reconnect dials id c m i j (ground (arith, a, flags.0))
            (ground (arith, b, flags.0));
    }

fresh-Meshed :
    (id : ℕ) (c : Cluster)
    → Meshed c
    → c.connected id ≡ false
    → Meshed (record c { services = put_at id (new_server id) c.services })
fresh-Meshed id c m off = record {
  lives = m.lives;
  meshed = λ i j a b ne h k. elim (Bool-cases (i == id)) [
    | inl here ↦ let same : i ≡ id = ground arith in absurd (ground (arith, off, h, same))
    | inr other ↦ ground (arith, other, m.meshed i j a b ne h k)
  ];
}

revived-Meshed :
    (dials : ℕ → ℕ → Bool) (id : ℕ) (c : Cluster)
    → Meshed c
    → let r = reconnect_service dials id c in Meshed (record r { alive = put_at id true r.alive })
revived-Meshed dials id c m =
    let flags = same_flags dials id c in
    record {
      lives = λ i h.
          let alive_still = ap (λ f. f i) flags.1 in
          let same = others_connected dials id c i in
          ground (arith, h, same, alive_still, m.lives i);
      meshed = λ i j a b.
          links_after_reconnect dials id c m i j (ground (arith, a, flags.0))
            (ground (arith, b, flags.0));
    }

either-Meshed :
    (b : Bool) (x y : Cluster) → Meshed x → (b ≡ false → Meshed y) → Meshed (if b then x else y)
either-Meshed true x y m k = m
either-Meshed false x y m k = k refl

restart_service-Meshed :
    (dials : ℕ → ℕ → Bool) (id : ℕ) (c : Cluster) → Meshed c → Meshed (restart_service dials id c)
unfolding restart_service
restart_service-Meshed dials id c m =
    let fresh = record c { services = put_at id (new_server id) c.services } in
    let r = reconnect_service dials id fresh in
    either-Meshed (c.alive id) c (record r { alive = put_at id true r.alive }) m
      (λ dead.
        revived-Meshed dials id fresh (fresh-Meshed id c m (ground (arith, dead, m.lives id))))

disturb-Meshed :
    (d : Disturbance) (c : Cluster) → is_allowed d c ≡ true → Meshed c → Meshed (disturb d c)
unfolding is_allowed disturb
disturb-Meshed (isolates id) c ok m = disconnect_service-Meshed id c m
disturb-Meshed (crashes id) c ok m = crash_service-Meshed id c m
disturb-Meshed (rejoins dials id) c ok m = rejoin-Meshed dials id c m (ground (arith, ok))
disturb-Meshed (restarts dials id) c ok m = restart_service-Meshed dials id c m
disturb-Meshed shuts_down c ok m = shut_down-Meshed c m

pub all-Meshed :
    (ds : List Disturbance) (c : Cluster)
    → are_allowed ds c ≡ true
    → Meshed c
    → Meshed (disturb_all ds c)
unfolding are_allowed disturb_all
all-Meshed [] c ok m = m
all-Meshed (d ∷ rest) c ok m =
    all-Meshed rest (disturb d c) (ground (arith, ok)) (disturb-Meshed d c (ground (arith, ok)) m)
