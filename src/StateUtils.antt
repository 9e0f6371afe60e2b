-- ===== src/StateUtils.antt =====
-- frontend/src/lib/stateUtils.ts. Each function is a `switch` over the state, which at run time is
-- whatever the log carried.
pub mod Known
use raft_in_motion.Prelude.{String, Option, none, some}
use raft_in_motion.Value.{Value}
use raft_in_motion.Types.Enums.{
  RaftState, follower, candidate, leader, dead, disconnected, state_case,
}

abbrev pub state_name_of : Option RaftState → String
state_name_of (some follower) = "Follower"
state_name_of (some candidate) = "Candidate"
state_name_of (some leader) = "Leader"
state_name_of (some dead) = "Dead"
state_name_of (some disconnected) = "Disconnected"
state_name_of none = "Unknown"

unfoldable pub get_state_name : Value → String
get_state_name state = state_name_of (state_case state)

abbrev pub state_color_of : Option RaftState → String
state_color_of (some follower) = "text-blue-400"
state_color_of (some candidate) = "text-yellow-400"
state_color_of (some leader) = "text-emerald-400"
state_color_of (some dead) = "text-zinc-400"
state_color_of (some disconnected) = "text-pink-500"
state_color_of none = "text-gray-400"

unfoldable pub get_state_color : Value → String
get_state_color state = state_color_of (state_case state)

abbrev pub state_bg_color_of : Option RaftState → String
state_bg_color_of (some follower) = "bg-blue-400"
state_bg_color_of (some candidate) = "bg-yellow-400"
state_bg_color_of (some leader) = "bg-green-500"
state_bg_color_of (some dead) = "bg-gray-500"
state_bg_color_of (some disconnected) = "bg-pink-500/90"
state_bg_color_of none = "bg-gray-400"

unfoldable pub get_state_bg_color : Value → String
get_state_bg_color state = state_bg_color_of (state_case state)
