-- ===== src/Types/Enums/Wire.antt =====
-- The strings of the enums of raftEnums.ts: a `switch` enters the case of a member exactly at its
-- own string.
use text.Mathlib.TextEquality.{eq_iff}
use raft_in_motion.Prelude.{String, ◌≡◌, refl, ap, ◌↔◌, some, List, [], ◌∷◌, arith}
use raft_in_motion.Value.{Value, undefined, null, bool, num, str, object}
use raft_in_motion.Types.Enums.{
  LogMessageType, RaftState, message_value, state_value, all_messages, all_states, find_value,
  message_case, state_case,
}

-- What the search finds has the string that was looked for.
find_value_sound :
    {A : Type 0} (value : A → String) (members : List A) (s : String) (a : A)
    → find_value value members s ≡ some a
    → s ≡ value a
unfolding find_value
find_value_sound value [] s a h = cc
find_value_sound value (b ∷ rest) s a h =
    ground (arith, eq_iff (value b) s, find_value_sound value rest s a)

message_case-value : (m : LogMessageType) → message_case (str (message_value m)) ≡ some m
unfolding message_case
message_case-value LogMessageType.server_listening = refl
message_case-value _ = refl

state_case-value : (s : RaftState) → state_case (str (state_value s)) ≡ some s
unfolding state_case
state_case-value RaftState.follower = refl
state_case-value _ = refl

message_case_sound :
    (v : Value) (m : LogMessageType) → message_case v ≡ some m → v ≡ str (message_value m)
unfolding message_case
message_case_sound (str s) m h = ap str (find_value_sound message_value all_messages s m h)
message_case_sound undefined m h = cc
message_case_sound null m h = cc
message_case_sound (bool b) m h = cc
message_case_sound (num n) m h = cc
message_case_sound (object s) m h = cc

state_case_sound : (v : Value) (s : RaftState) → state_case v ≡ some s → v ≡ str (state_value s)
unfolding state_case
state_case_sound (str t) s h = ap str (find_value_sound state_value all_states t s h)
state_case_sound undefined s h = cc
state_case_sound null s h = cc
state_case_sound (bool b) s h = cc
state_case_sound (num n) s h = cc
state_case_sound (object t) s h = cc

-- A switch over `LogMessageType` enters the case of a member exactly when the value switched on is
-- the string of that member: the 26 strings are different, and nothing else enters a case.
pub message_case_exact :
    (v : Value) (m : LogMessageType) → (message_case v ≡ some m) ↔ (v ≡ str (message_value m))
message_case_exact v m = (message_case_sound v m, λ e. rw e (message_case-value m))

-- A switch over `RaftState` enters the case of a member exactly when the value switched on is the
-- string of that member.
pub state_case_exact :
    (v : Value) (s : RaftState) → (state_case v ≡ some s) ↔ (v ≡ str (state_value s))
state_case_exact v s = (state_case_sound v s, λ e. rw e (state_case-value s))
