-- ===== src/Harness.antt =====
-- internal/harness/harness.go: the ports, the leader, and the connections and lives of the nodes that a
-- simulation keeps. Parameters: which nodes say that they are leaders in each round. The services
-- themselves are in Kv, Raft and RpcServer; the additions to the port do not overflow.
pub mod Nodes
pub mod Linked
pub mod Meshed
pub mod Simulated
pub mod Ports
pub mod SingleLeader
use raft_in_motion.Prelude.{
  ℕ, zero, suc, ◌+◌, Bool, true, false, ◌&&◌, Option, none, some, List, [], ◌∷◌, length, modify,
  get_elem?, map, if◌then◌else◌,
}
use raft_in_motion.Prelude.Int.{ℤ, pos, negsuc, minus_one}

pub record PortManager : Type 0 where
  pub base_port : ℕ

-- `count` numbers from `start` on.
abbrev pub range : ℕ → ℕ → List ℕ
range start zero = []
range start (suc count) = start ∷ range (suc start) count

-- NextPortRange: atomic.AddInt32 returns the number after the addition.
unfoldable pub next_port_range : ℕ → PortManager → List ℕ × PortManager
next_port_range count pm =
    let start = pm.base_port + count in (range start count, record { base_port = start })

-- The loop of CheckSingleLeader over the nodes from i on, with the leader so far: `none` is its return
-- with -1 in the middle, since there are two.
abbrev pub find_leader : ℕ → ℤ → List (Bool × Bool) → Option ℤ
find_leader i leader_id [] = some leader_id
find_leader i leader_id ((connected, is_leader) ∷ rest) =
    let later = find_leader (suc i) leader_id rest in
    let found = find_leader (suc i) (pos i) rest in
    if connected && is_leader then elim leader_id [ negsuc n ↦ found | pos j ↦ none ] else later

-- The rounds of CheckSingleLeader: in each, whether a node is connected and says that it leads.
unfoldable pub check_rounds : List (List (Bool × Bool)) → ℤ
check_rounds [] = minus_one
check_rounds (nodes ∷ rest) =
    let later = check_rounds rest in
    elim (find_leader 0 minus_one nodes) [
      | none ↦ minus_one
      | some (pos i) ↦ pos i
      | some (negsuc n) ↦ later
    ]

-- The port that RestartService serves on.
abbrev pub restart_port : ℕ → ℕ
restart_port id = 14200 + id
