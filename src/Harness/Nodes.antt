-- ===== src/Harness/Nodes.antt =====
-- internal/harness/harness.go: which services are connected and alive, through disconnects, crashes and
-- restarts, and the connections between their Raft servers. Parameters: which dials succeed, from a node to
-- another. An id is below n: the source panics on another. The services' addresses and shutdowns are left out.
use raft_in_motion.Prelude.{
  ℕ, zero, suc, ltb, ◌==◌, Bool, true, false, not, ◌&&◌, is_some, List, [], ◌∷◌, if◌then◌else◌,
}
use raft_in_motion.RpcServer.{Server, new_server, connect_to_peer, disconnect_peer, disconnect_all}
use raft_in_motion.Harness.{range}

pub record Cluster : Type 0 where
  pub n : ℕ
  pub services : ℕ → Server  -- the Raft server of each service of kvCluster
  pub connected : ℕ → Bool
  pub alive : ℕ → Bool

-- xs[i] = x
abbrev pub put_at {ℓ} : {A : Type ℓ} → ℕ → A → (ℕ → A) → ℕ → A
put_at i x xs k = if k == i then x else xs k

-- Service i holds a connection to j.
abbrev pub is_linked : Cluster → ℕ → ℕ → Bool
is_linked h i j = is_some ((h.services i).peer_clients j)

-- kvCluster[i].ConnectToRaftPeer(j, ...), with whether it returns no error.
unfoldable pub link : Bool → ℕ → ℕ → Cluster → Bool × Cluster
link dials i j h =
    let r = connect_to_peer dials j (h.services i) in
    (r.0, record h { services = put_at i r.1 h.services })

-- NewHarness: the connections of i to the `count` nodes from j on, and those of the nodes from i on. Its
-- errors are ignored.
abbrev pub link_row : (ℕ → ℕ → Bool) → ℕ → ℕ → ℕ → Cluster → Cluster
link_row dials i j zero h = h
link_row dials i j (suc count) h =
    link_row dials i (suc j) count (if i == j then h else (link (dials i j) i j h).1)

abbrev pub link_rows : (ℕ → ℕ → Bool) → ℕ → ℕ → Cluster → Cluster
link_rows dials i zero h = h
link_rows dials i (suc count) h =
    let row = link_row dials i 0 h.n h in
    link_rows dials (suc i) count (record row { connected = put_at i true row.connected })

unfoldable pub new_harness : (ℕ → ℕ → Bool) → ℕ → Cluster
new_harness dials n =
    link_rows dials 0 n
      (record { n = n; services = new_server; connected = λ i. false; alive = λ i. ltb i n })

-- kvCluster[j].DisconnectFromRaftPeer(id) for the nodes other than id, and all of id's own connections.
unfoldable pub disconnect_service : ℕ → Cluster → Cluster
disconnect_service id h = record h {
  services = λ j.
      if j == id
      then disconnect_all (range 0 h.n) (h.services j)
      else if ltb j h.n
      then disconnect_peer id (h.services j)
      else h.services j;
  connected = put_at id false h.connected;
}

-- The loop body of ReconnectServiceToPeers, with whether the loop goes on.
unfoldable pub reconnect_peer : (ℕ → ℕ → Bool) → ℕ → ℕ → Cluster → Bool × Cluster
reconnect_peer dials id j h =
    let to = link (dials id j) id j h in
    let back = link (dials j id) j id to.1 in
    if not (j == id) && h.alive j then if to.0 then back else to else (true, h)

abbrev pub reconnect_peers : (ℕ → ℕ → Bool) → ℕ → ℕ → ℕ → Cluster → Bool × Cluster
reconnect_peers dials id j zero h = (true, h)
reconnect_peers dials id j (suc count) h =
    let r = reconnect_peer dials id j h in
    let later = reconnect_peers dials id (suc j) count r.1 in if r.0 then later else r

unfoldable pub reconnect_service : (ℕ → ℕ → Bool) → ℕ → Cluster → Cluster
reconnect_service dials id h =
    let r = reconnect_peers dials id 0 h.n h in
    if r.0 then record r.1 { connected = put_at id true r.1.connected } else r.1

unfoldable pub crash_service : ℕ → Cluster → Cluster
crash_service id h = let d = disconnect_service id h in record d { alive = put_at id false d.alive }

unfoldable pub restart_service : (ℕ → ℕ → Bool) → ℕ → Cluster → Cluster
restart_service dials id h =
    let r =
      reconnect_service dials id (record h { services = put_at id (new_server id) h.services }) in
    if h.alive id then h else record r { alive = put_at id true r.alive }

-- Shutdown: every node loses its connections, and no node is connected or alive.
unfoldable pub shut_down : Cluster → Cluster
shut_down h = record h {
  services = λ i. if ltb i h.n then disconnect_all (range 0 h.n) (h.services i) else h.services i;
  connected = λ i. if ltb i h.n then false else h.connected i;
  alive = λ i. if ltb i h.n then false else h.alive i;
}

-- What a simulation does to the services; the functions say which dials succeed.
pub data Disturbance : Type 0 where
  isolates crashes : ℕ → Disturbance
  rejoins restarts : (ℕ → ℕ → Bool) → ℕ → Disturbance
  shuts_down : Disturbance

unfoldable pub disturb : Disturbance → Cluster → Cluster
disturb (isolates id) h = disconnect_service id h
disturb (crashes id) h = crash_service id h
disturb (rejoins dials id) h = reconnect_service dials id h
disturb (restarts dials id) h = restart_service dials id h
disturb shuts_down h = shut_down h

-- The id is a node's, and only a live node is connected again.
unfoldable pub is_allowed : Disturbance → Cluster → Bool
is_allowed (isolates id) h = ltb id h.n
is_allowed (crashes id) h = ltb id h.n
is_allowed (rejoins dials id) h = ltb id h.n && h.alive id
is_allowed (restarts dials id) h = ltb id h.n
is_allowed shuts_down h = true

unfoldable pub disturb_all : List Disturbance → Cluster → Cluster
disturb_all [] h = h
disturb_all (d ∷ rest) h = disturb_all rest (disturb d h)

unfoldable pub are_allowed : List Disturbance → Cluster → Bool
are_allowed [] h = true
are_allowed (d ∷ rest) h = is_allowed d h && are_allowed rest (disturb d h)
