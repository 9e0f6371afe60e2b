-- ===== src/LogsDispatcher.antt =====
-- frontend/src/context/logsDispatcher.tsx: LogDispatcherProvider hands each new log to the callback
-- of the server it is about, and useServerLogs collects them for one server. An effect is a function
-- that runs after a render in which a value that it depends on has changed.
pub mod Inbox
pub mod Routes
mod Delivery
pub mod Registry
pub mod Mirror
pub mod Clear
use raft_in_motion.Prelude.{
  ℕ, Bool, true, false, not, Option, none, some, is_some, List, [], ◌∷◌, ◌++◌, length, drop, filter,
  leb, ◌==◌, if◌then◌else◌,
}
use raft_in_motion.Prelude.Int.{ℤ, int_eq}
use raft_in_motion.Value.{Value, num, Fields, property}

-- LogCallback: what a call does to the state S of the servers.
abbrev pub LogCallback : Type 0 → Type 0
LogCallback S = Fields → S → S

-- A `Map<number, V>`, in insertion order.
module _ {V : Type 0} where
  -- map.get(k)
  abbrev pub map_get : ℤ → List (ℤ × V) → Option V
  map_get k [] = none
  map_get k ((j, v) ∷ rest) = if int_eq j k then some v else map_get k rest

  -- map.set(k, v)
  abbrev pub map_set : ℤ → V → List (ℤ × V) → List (ℤ × V)
  map_set k v [] = (k, v) ∷ []
  map_set k v ((j, w) ∷ rest) = if int_eq j k then (j, v) ∷ rest else (j, w) ∷ map_set k v rest

  -- map.delete(k)
  abbrev pub map_delete : ℤ → List (ℤ × V) → List (ℤ × V)
  map_delete k [] = []
  map_delete k ((j, w) ∷ rest) = if int_eq j k then rest else (j, w) ∷ map_delete k rest

pub record LogDispatcher (S : Type 0) : Type 0 where
  pub unprocessed_from : ℕ  -- lastProcessedIndexRef.current + 1
  pub server_callbacks : List (ℤ × LogCallback S)  -- serverCallbacksRef.current

-- The raftID of a log with one that is a number: the test of the `filter`.
abbrev raft_id_of : Value → Option ℤ
raft_id_of (num n) = some n
raft_id_of _ = none

abbrev pub raft_id : Fields → Option ℤ
raft_id log = raft_id_of (property "raftID" log)

module _ {S : Type 0} where
  abbrev pub init : LogDispatcher S
  init = record { unprocessed_from = 0; server_callbacks = [] }

  unfoldable pub reset_log_processing : LogDispatcher S → LogDispatcher S
  reset_log_processing d = record d { unprocessed_from = 0 }

  unfoldable pub register_server : ℤ → LogCallback S → LogDispatcher S → LogDispatcher S
  register_server id callback d = record d {
    server_callbacks = map_set id callback d.server_callbacks;
  }

  unfoldable pub unregister_server : ℤ → LogDispatcher S → LogDispatcher S
  unregister_server id d = record d { server_callbacks = map_delete id d.server_callbacks }

  abbrev call_back : Option (LogCallback S) → LogCallback S
  call_back none log s = s
  call_back (some callback) log s = callback log s

  abbrev call_for : List (ℤ × LogCallback S) → Option ℤ → LogCallback S
  call_for callbacks none log s = s
  call_for callbacks (some id) log s = call_back (map_get id callbacks) log s

  -- unprocessedLogs.forEach(…)
  unfoldable pub call_all : List (ℤ × LogCallback S) → List Fields → S → S
  call_all callbacks [] s = s
  call_all callbacks (log ∷ rest) s =
      call_all callbacks rest (call_for callbacks (raft_id log) log s)

  -- The effect on `logs`.
  unfoldable pub process_logs : List Fields → LogDispatcher S → S → LogDispatcher S × S
  unfolding call_all
  process_logs logs d s =
      if leb (length logs) d.unprocessed_from
      then (d, s)
      else (let unprocessed =
            filter (λ log. is_some (raft_id log)) (drop d.unprocessed_from logs) in
          let done = record d { unprocessed_from = length logs } in
          if length unprocessed == 0
          then (done, s)
          else (done, call_all d.server_callbacks unprocessed s))
