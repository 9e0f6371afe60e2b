-- ===== src/RpcServer/Dropped.antt =====
-- The calls that get through RPCProxy of internal/raft/rpc_server.go.
use raft_in_motion.Prelude.{
  ℕ, zero, suc, ◌≡◌, inl, inr, refl, Option, none, some, List, [], ◌∷◌, take, Option-cases, arith,
}
use raft_in_motion.Prelude.Int.{pos, negsuc}
use raft_in_motion.RpcServer.{
  Server, Called, peer_closed, dropped, forwarded, call, drop_calls_after_n, dont_drop_calls,
}

-- Calls of these peers, one after the other.
abbrev pub call_all : List ℕ → Server → List Called
call_all [] s = []
call_all (id ∷ rest) s = let (called, after) = call id s in called ∷ call_all rest after

-- The connections that calls went to.
abbrev pub received : List Called → List ℕ
received [] = []
received (forwarded peer ∷ rest) = peer ∷ received rest
received (peer_closed ∷ rest) = received rest
received (dropped ∷ rest) = received rest

-- The connections of those of these peers that have one.
abbrev pub connected_of : (ℕ → Option ℕ) → List ℕ → List ℕ
connected_of peers [] = []
connected_of peers (id ∷ rest) = elim (peers id) [
  | none ↦ connected_of peers rest
  | some c ↦ c ∷ connected_of peers rest
]

drops_after :
    (ids : List ℕ) (n : ℕ) (s : Server)
    → s.num_calls_before_drop ≡ pos n
    → received (call_all ids s) ≡ take n (connected_of s.peer_clients ids)
unfolding call
drops_after [] zero s h = refl
drops_after [] (suc n) s h = refl
drops_after (id ∷ rest) zero s h = elim (Option-cases (s.peer_clients id)) [
  | inl closed ↦ ground (arith, closed, h, drops_after rest zero s h)
  | inr (c, at) ↦ ground (arith, at, h, drops_after rest zero s h)
]
drops_after (id ∷ rest) (suc n) s h = elim (Option-cases (s.peer_clients id)) [
  | inl closed ↦ ground (arith, closed, h, drops_after rest (suc n) s h)
  | inr (c, at) ↦
      ground (arith, at, h, drops_after rest n (record s { num_calls_before_drop = pos n }) refl)
]

none_dropped :
    (ids : List ℕ) (m : ℕ) (s : Server)
    → s.num_calls_before_drop ≡ negsuc m
    → received (call_all ids s) ≡ connected_of s.peer_clients ids
unfolding call
none_dropped [] m s h = refl
none_dropped (id ∷ rest) m s h = elim (Option-cases (s.peer_clients id)) [
  | inl closed ↦ ground (arith, closed, h, none_dropped rest m s h)
  | inr (c, at) ↦ ground (arith, at, h, none_dropped rest m s h)
]

-- After DropCallsAfterN(n), of any calls of any peers the first n to a peer with a connection go through, to
-- that connection and in order, and no others; a call of a peer without one is not counted. After
-- DontDropCalls all calls of peers with a connection go through.
pub first_calls_pass :
    (ids : List ℕ) (n : ℕ) (s : Server)
    → (received (call_all ids (drop_calls_after_n (pos n) s))
        ≡ take n (connected_of s.peer_clients ids))
      × (received (call_all ids (dont_drop_calls s)) ≡ connected_of s.peer_clients ids)
unfolding drop_calls_after_n dont_drop_calls
first_calls_pass ids n s = (
  drops_after ids n (record s { num_calls_before_drop = pos n }) refl,
  none_dropped ids 0 (record s { num_calls_before_drop = negsuc 0 }) refl,
)
