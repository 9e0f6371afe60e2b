-- ===== src/RpcServer.antt =====
-- internal/raft/rpc_server.go: the connections of a node to its peers, and the proxy that drops calls. A
-- connection is a number in the order of dialling. Parameters: whether rpc.Dial succeeds, the environment
-- variable RAFT_UNRELIABLE_RPC, and the dice. The listener, the goroutines of net/rpc and delays are left out.
pub mod Dropped
pub mod Connections
use raft_in_motion.Prelude.{
  ℕ, zero, suc, ◌==◌, Bool, true, false, ◌&&◌, ◌||◌, Option, none, some, is_some, List, [], ◌∷◌,
  length, has, filter, not, if◌then◌else◌,
}
use raft_in_motion.Prelude.Int.{ℤ, pos, negsuc, minus_one}
use raft_in_motion.Raft.{Raft}
use raft_in_motion.Raft.RequestVote.{RequestVoteArgs, RequestVoteReply, request_vote}
use raft_in_motion.Raft.AppendEntries.{AppendEntriesArgs, AppendEntriesReply, append_entries}

pub record Server : Type 0 where
  pub server_id : ℕ
  pub peer_clients : ℕ → Option ℕ
  pub opened : List ℕ  -- the connections that are not closed
  pub dialled : ℕ  -- how many were made
  pub num_calls_before_drop : ℤ

-- NewServer and NewProxy
abbrev pub new_server : ℕ → Server
new_server id = record {
  server_id = id;
  peer_clients = λ p. none;
  opened = [];
  dialled = 0;
  num_calls_before_drop = minus_one;
}

-- peerClients[id] = c
abbrev pub set_peer : ℕ → Option ℕ → (ℕ → Option ℕ) → ℕ → Option ℕ
set_peer id c peers p = if p == id then c else peers p

abbrev close : ℕ → List ℕ → List ℕ
close c opened = filter (λ d. not (d == c)) opened

-- ConnectToPeer, with whether it returns no error.
unfoldable pub connect_to_peer : Bool → ℕ → Server → Bool × Server
connect_to_peer dials id s =
    if is_some (s.peer_clients id)
    then (true, s)
    else if dials
    then (
      true,
      record s {
        peer_clients = set_peer id (some s.dialled) s.peer_clients;
        opened = s.dialled ∷ s.opened;
        dialled = suc s.dialled;
      },
    )
    else (false, s)

abbrev close_peer : ℕ → Option ℕ → Server → Server
close_peer id none s = s
close_peer id (some c) s = record s {
  peer_clients = set_peer id none s.peer_clients;
  opened = close c s.opened;
}

unfoldable pub disconnect_peer : ℕ → Server → Server
disconnect_peer id s = close_peer id (s.peer_clients id) s

-- DisconnectAll, over the ids of the map.
unfoldable pub disconnect_all : List ℕ → Server → Server
unfolding disconnect_peer
disconnect_all [] s = s
disconnect_all (id ∷ rest) s = disconnect_all rest (disconnect_peer id s)

-- What becomes of a call: an error, or the peer gets it.
pub data Called : Type 0 where
  peer_closed dropped : Called
  forwarded : ℕ → Called

-- RPCProxy.Call
abbrev pub proxy_call : ℕ → ℤ → Server → Called × Server
proxy_call peer (pos zero) s = (dropped, s)
proxy_call peer (pos (suc n)) s = (forwarded peer, record s { num_calls_before_drop = pos n })
proxy_call peer (negsuc n) s = (forwarded peer, s)

abbrev call_client : Option ℕ → Server → Called × Server
call_client none s = (peer_closed, s)
call_client (some peer) s = proxy_call peer s.num_calls_before_drop s

-- Server.Call
unfoldable pub call : ℕ → Server → Called × Server
call id s = call_client (s.peer_clients id) s

unfoldable pub drop_calls_after_n : ℤ → Server → Server
drop_calls_after_n n s = record s { num_calls_before_drop = n }

unfoldable pub dont_drop_calls : Server → Server
dont_drop_calls s = record s { num_calls_before_drop = minus_one }

-- The proxy's RequestVote and AppendEntries: `none` is the call that it drops.
abbrev is_dropped : Bool → ℕ → Bool
is_dropped unreliable dice = unreliable && dice == 9

module _ {C : Type 0} where
  unfoldable pub proxy_request_vote :
      Bool → ℕ → ℕ → RequestVoteArgs → Raft C → Option (RequestVoteReply × Raft C)
  unfolding request_vote
  proxy_request_vote unreliable dice now args rf =
      if is_dropped unreliable dice then none else some (request_vote now args rf)

  unfoldable pub proxy_append_entries :
      Bool → ℕ → ℕ → AppendEntriesArgs C → Raft C → Option (Option (AppendEntriesReply × Raft C))
  unfolding append_entries
  proxy_append_entries unreliable dice now args rf =
      if is_dropped unreliable dice then none else some (append_entries now args rf)
