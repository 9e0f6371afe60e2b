-- ===== src/StateUtils/Known.antt =====
-- The three functions of stateUtils.ts agree on which states they know.
use text.Mathlib.TextEquality.{eq_iff}
use raft_in_motion.Prelude.{◌≡◌, ◌↔◌, Option, none, some, arith}
use raft_in_motion.Value.{Value}
use raft_in_motion.Types.Enums.{RaftState, state_case}
use raft_in_motion.StateUtils.{
  get_state_name, get_state_color, get_state_bg_color, state_name_of, state_color_of,
  state_bg_color_of,
}

unknown_name : (o : Option RaftState) → (state_name_of o ≡ "Unknown") ↔ (o ≡ none)
unknown_name none = ground arith
unknown_name (some RaftState.follower) =
    ground (arith, eq_iff (state_name_of (some RaftState.follower)) "Unknown")
unknown_name (some RaftState.candidate) =
    ground (arith, eq_iff (state_name_of (some RaftState.candidate)) "Unknown")
unknown_name (some RaftState.leader) =
    ground (arith, eq_iff (state_name_of (some RaftState.leader)) "Unknown")
unknown_name (some RaftState.dead) =
    ground (arith, eq_iff (state_name_of (some RaftState.dead)) "Unknown")
unknown_name (some RaftState.disconnected) =
    ground (arith, eq_iff (state_name_of (some RaftState.disconnected)) "Unknown")

unknown_color : (o : Option RaftState) → (state_color_of o ≡ "text-gray-400") ↔ (o ≡ none)
unknown_color none = ground arith
unknown_color (some RaftState.follower) =
    ground (arith, eq_iff (state_color_of (some RaftState.follower)) "text-gray-400")
unknown_color (some RaftState.candidate) =
    ground (arith, eq_iff (state_color_of (some RaftState.candidate)) "text-gray-400")
unknown_color (some RaftState.leader) =
    ground (arith, eq_iff (state_color_of (some RaftState.leader)) "text-gray-400")
unknown_color (some RaftState.dead) =
    ground (arith, eq_iff (state_color_of (some RaftState.dead)) "text-gray-400")
unknown_color (some RaftState.disconnected) =
    ground (arith, eq_iff (state_color_of (some RaftState.disconnected)) "text-gray-400")

unknown_bg_color : (o : Option RaftState) → (state_bg_color_of o ≡ "bg-gray-400") ↔ (o ≡ none)
unknown_bg_color none = ground arith
unknown_bg_color (some RaftState.follower) =
    ground (arith, eq_iff (state_bg_color_of (some RaftState.follower)) "bg-gray-400")
unknown_bg_color (some RaftState.candidate) =
    ground (arith, eq_iff (state_bg_color_of (some RaftState.candidate)) "bg-gray-400")
unknown_bg_color (some RaftState.leader) =
    ground (arith, eq_iff (state_bg_color_of (some RaftState.leader)) "bg-gray-400")
unknown_bg_color (some RaftState.dead) =
    ground (arith, eq_iff (state_bg_color_of (some RaftState.dead)) "bg-gray-400")
unknown_bg_color (some RaftState.disconnected) =
    ground (arith, eq_iff (state_bg_color_of (some RaftState.disconnected)) "bg-gray-400")

-- Whatever value stands for the state of a server, its name is `Unknown` exactly if its text colour
-- is the fallback, exactly if its background is: the three switches know the same states.
pub fallbacks_agree :
    (state : Value)
    → ((get_state_name state ≡ "Unknown") ↔ (get_state_color state ≡ "text-gray-400"))
      × ((get_state_color state ≡ "text-gray-400") ↔ (get_state_bg_color state ≡ "bg-gray-400"))
unfolding get_state_name get_state_color get_state_bg_color
fallbacks_agree state = ground (
  arith,
  unknown_name (state_case state),
  unknown_color (state_case state),
  unknown_bg_color (state_case state),
)
