-- ===== src/RpcServer/Connections.antt =====
-- The connections of internal/raft/rpc_server.go to the peers of a node.
use raft_in_motion.Prelude.{
  ℕ, suc, ◌<◌, ◌≡◌, ◌⊎◌, inl, inr, ap, sym, subst, ◌∙◌, ◌==◌, Bool, true, false, Bool-cases, Option,
  none, some, List, [], ◌∷◌, has, Option-cases, arith, if◌then◌else◌,
}
use raft_in_motion.RpcServer.{
  Server, new_server, set_peer, connect_to_peer, disconnect_peer, disconnect_all, close_peer, close,
}

-- The calls of Server that change its connections.
pub data Change : Type 0 where
  connects : Bool → ℕ → Change
  disconnects : ℕ → Change
  disconnects_all : List ℕ → Change

abbrev pub change : Change → Server → Server
unfolding connect_to_peer disconnect_peer disconnect_all
change (connects dials id) s = (connect_to_peer dials id s).1
change (disconnects id) s = disconnect_peer id s
change (disconnects_all ids) s = disconnect_all ids s

abbrev pub change_all : List Change → Server → Server
unfolding change
change_all [] s = s
change_all (c ∷ rest) s = change_all rest (change c s)

-- The open connections are those of the table, each of one peer.
pub record Matched (s : Server) : Type 0 where
  pub older : (c : ℕ) → has c s.opened ≡ true → c < s.dialled
  pub held : (c : ℕ) → has c s.opened ≡ true → (id : ℕ) × (s.peer_clients id ≡ some c)
  pub in_use : (id c : ℕ) → s.peer_clients id ≡ some c → has c s.opened ≡ true
  pub one_peer :
      (id other c : ℕ) → s.peer_clients id ≡ some c → s.peer_clients other ≡ some c → id ≡ other

has-close :
    (c d : ℕ) (opened : List ℕ) → has c (close d opened) ≡ (if c == d then false else has c opened)
has-close c d [] = ground arith
has-close c d (e ∷ opened) = ground (arith, has-close c d opened)

set_peer_self : (id : ℕ) (c : Option ℕ) (peers : ℕ → Option ℕ) → set_peer id c peers id ≡ c
set_peer_self id c peers = ground arith

set_peer_ne :
    (id other : ℕ) (c : Option ℕ) (peers : ℕ → Option ℕ)
    → (other == id) ≡ false
    → set_peer id c peers other ≡ peers other
set_peer_ne id other c peers h = ground (arith, h)

another :
    (id other c d : ℕ) (s : Server)
    → s.peer_clients id ≡ some c
    → s.peer_clients other ≡ some d
    → (d == c) ≡ false
    → (other == id) ≡ false
another id other c d s at e differ = elim (Bool-cases (other == id)) [
  | inr other_id ↦ other_id
  | inl same ↦
      let here : other ≡ id = ground (arith, same) in
      absurd (ground (arith, ap s.peer_clients here, at, e, differ))
]

-- The server with one more connection.
connected : ℕ → Server → Server
connected id s = record s {
  peer_clients = set_peer id (some s.dialled) s.peer_clients;
  opened = s.dialled ∷ s.opened;
  dialled = suc s.dialled;
}

closed-Matched :
    (id c : ℕ) (s : Server)
    → s.peer_clients id ≡ some c
    → Matched s
    → Matched (close_peer id (some c) s)
closed-Matched id c s at m = record {
  older = λ d has_d. m.older d (ground (arith, has-close d c s.opened, has_d));
  held = λ d has_d.
      let (other, e) = m.held d (ground (arith, has-close d c s.opened, has_d)) in
      let differ : (other == id) ≡ false =
        another id other c d s at e (ground (arith, has-close d c s.opened, has_d)) in
      (other, set_peer_ne id other none s.peer_clients differ ∙ e);
  in_use = λ other d e.
      ground (arith, has-close d c s.opened, e, m.in_use other d, m.one_peer id other c at, at);
  one_peer = λ a b d e f. m.one_peer a b d (ground (arith, e)) (ground (arith, f));
}

connected-Matched :
    (id : ℕ) (s : Server) → s.peer_clients id ≡ none → Matched s → Matched (connected id s)
unfolding connected
connected-Matched id s free m = record {
  older = λ d has_d. ground (arith, m.older d, has_d);
  held = λ d has_d. elim (Bool-cases (d == s.dialled)) [
    | inl new ↦ (id, ground (arith, new))
    | inr old ↦
        let (other, e) = m.held d (ground (arith, has_d, old)) in (other, ground (arith, e, free))
  ];
  in_use = λ other d e. ground (arith, e, m.in_use other d);
  one_peer =
      λ a b d e f. ground (arith, e, f, m.one_peer a b d, m.in_use a d, m.in_use b d, m.older d);
}

disconnect_peer-Matched : (id : ℕ) (s : Server) → Matched s → Matched (disconnect_peer id s)
unfolding disconnect_peer
disconnect_peer-Matched id s m = elim (Option-cases (s.peer_clients id)) [
  | inl free ↦ subst Matched (sym (ap (λ o. close_peer id o s) free)) m
  | inr (c, at) ↦ subst Matched (sym (ap (λ o. close_peer id o s) at)) (closed-Matched id c s at m)
]

disconnect_all-Matched : (ids : List ℕ) (s : Server) → Matched s → Matched (disconnect_all ids s)
unfolding disconnect_all
disconnect_all-Matched [] s m = m
disconnect_all-Matched (id ∷ rest) s m =
    disconnect_all-Matched rest (disconnect_peer id s) (disconnect_peer-Matched id s m)

connect_to_peer-cases :
    (dials : Bool) (id : ℕ) (s : Server)
    → ((connect_to_peer dials id s).1 ≡ s)
      ⊎ ((s.peer_clients id ≡ none) × ((connect_to_peer dials id s).1 ≡ connected id s))
unfolding connect_to_peer connected
connect_to_peer-cases dials id s = ground arith

change-Matched : (c : Change) (s : Server) → Matched s → Matched (change c s)
unfolding change
change-Matched (connects dials id) s m = elim (connect_to_peer-cases dials id s) [
  | inl same ↦ subst Matched (sym same) m
  | inr (free, new) ↦ subst Matched (sym new) (connected-Matched id s free m)
]
change-Matched (disconnects id) s m = disconnect_peer-Matched id s m
change-Matched (disconnects_all ids) s m = disconnect_all-Matched ids s m

new_server-Matched : (id : ℕ) → Matched (new_server id)
new_server-Matched id = record {
  older = λ c h. absurd (ground (arith, h));
  held = λ c h. absurd (ground (arith, h));
  in_use = λ p c h. absurd (ground (arith, h));
  one_peer = λ a b c h k. absurd (ground (arith, h));
}

change_all-Matched :
    (changes : List Change) (s : Server) → Matched s → Matched (change_all changes s)
unfolding change_all
change_all-Matched [] s m = m
change_all-Matched (c ∷ rest) s m = change_all-Matched rest (change c s) (change-Matched c s m)

-- Through any calls of ConnectToPeer, with a dial that succeeds or fails, DisconnectPeer and DisconnectAll, the
-- connections of a server that are open are those in its table, each for one peer: none is left open when
-- it leaves the table, and none in the table is closed.
pub connections-Matched :
    (id : ℕ) (changes : List Change) → Matched (change_all changes (new_server id))
connections-Matched id changes = change_all-Matched changes (new_server id) (new_server-Matched id)
