-- ===== src/Kv.antt =====
-- internal/kv: the commands of the key-value service (internal/kv/server/cmd.go), its store (store.go)
-- and the answers to requests (internal/kv/types/types.go).
pub mod Log
pub mod Service
pub mod Steps
pub mod Sound
pub mod Subscribing
pub mod Updating
pub mod Answers
pub mod Reuse
pub mod Stuck
pub mod Waiting
pub mod Late
pub mod Replica
pub mod KvClient
pub mod Leader
use text.Mathlib.Text.{◌==◌ as str_eq}
use raft_in_motion.Prelude.{
  ℕ, String, Bool, true, false, Option, none, some, is_some, if◌then◌else◌,
}

pub data CommandKind : Type 0 where
  command_invalid command_get command_put : CommandKind

pub record Command : Type 0 where
  pub kind : CommandKind
  pub key : String
  pub value : String
  pub compare_value : String
  pub result_value : String
  pub result_found : Bool
  pub id : ℕ

pub data ResponseStatus : Type 0 where
  status_invalid status_ok status_not_leader status_failed_commit : ResponseStatus

-- PutResponse and GetResponse; `value` is PrevValue of the first and Value of the second.
pub record Response : Type 0 where
  pub resp_status : ResponseStatus
  pub key_found : Bool
  pub value : String

abbrev pub DataStore : Type 0
DataStore = String → Option String

abbrev pub new_data_store : DataStore
new_data_store key = none

-- A map's `value, ok := m[key]`: the empty text where there is no key.
abbrev pub lookup : Option String → String × Bool
lookup none = ("", false)
lookup (some v) = (v, true)

unfoldable pub get : String → DataStore → String × Bool
get key ds = lookup (ds key)

unfoldable pub put : String → String → DataStore → (String × Bool) × DataStore
put key value ds = (lookup (ds key), λ k. if str_eq k key then some value else ds k)

-- The switch of runUpdater: the command with its result, or the panic for another kind.
abbrev pub with_result : Command → String × Bool → Command
with_result cmd (value, found) = record cmd { result_value = value; result_found = found }

abbrev apply_kind : CommandKind → Command → DataStore → Option (Command × DataStore)
unfolding get put
apply_kind command_get cmd ds = some (with_result cmd (get cmd.key ds), ds)
apply_kind command_put cmd ds =
    let stored = put cmd.key cmd.value ds in some (with_result cmd stored.0, stored.1)
apply_kind command_invalid cmd ds = none

unfoldable pub apply_command : Command → DataStore → Option (Command × DataStore)
unfolding get put
apply_command cmd ds = apply_kind cmd.kind cmd ds
