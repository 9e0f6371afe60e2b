-- ===== src/LogsContext/Parse/Accepts.antt =====
-- Which logs parseLog lets in.
use raft_in_motion.Prelude.{
  ◌≡◌, refl, ap, ◌↔◌, Option, none, some, Bool, true, false, arith, if◌then◌else◌,
}
use raft_in_motion.Value.{str, Raw, scalar, log_object, Fields, property, truthy}
use raft_in_motion.Types.Enums.{LogMessageType, message_value, message_case}
use raft_in_motion.Types.Enums.Wire.{message_case_exact}
use raft_in_motion.Types.Logs.{Log, fields, message}
use raft_in_motion.LogsContext.Parse.{parse_log, parse_case, as_log}

parse_case_known : (m : LogMessageType) (raw : Raw) → parse_case (some m) raw ≡ as_log raw
parse_case_known LogMessageType.server_listening raw = refl
parse_case_known _ raw = refl

-- The string of every member is not empty, so `!rawLog.message` does not stop it.
message_value-truthy : (m : LogMessageType) → truthy (str (message_value m)) ≡ true
message_value-truthy LogMessageType.server_listening = refl
message_value-truthy _ = refl

parse_log_of_message :
    (fs : Fields) (m : LogMessageType)
    → property "message" fs ≡ str (message_value m)
    → parse_log (log_object fs) ≡ some fs
unfolding parse_log
parse_log_of_message fs m e =
    rw (e, message_value-truthy m, (message_case_exact _ m).1 refl)
      (parse_case_known m (log_object fs))

parse_case_inverts :
    (stop : Bool) (o : Option LogMessageType) (fs log : Fields)
    → (if stop then none else parse_case o (log_object fs)) ≡ some log
    → (m : LogMessageType) × (o ≡ some m) × (fs ≡ log)
parse_case_inverts true o fs log h = cc
parse_case_inverts false none fs log h = cc
parse_case_inverts false (some m) fs log h = (m, refl, cc (h, parse_case_known m (log_object fs)))

parse_log_inverts :
    (raw : Raw) (log : Fields)
    → parse_log raw ≡ some log
    → (raw ≡ log_object log)
      × ((m : LogMessageType) × (property "message" log ≡ str (message_value m)))
unfolding parse_log
parse_log_inverts (scalar v) log h = absurd (ground arith)
parse_log_inverts (log_object fs) log h =
    let (m, e, same) = parse_case_inverts _ (message_case (property "message" fs)) fs log h in
    (ap log_object same, (m, rw (← same) ((message_case_exact _ m).0 e)))

-- parseLog accepts exactly the objects whose `message` is the string of a member of
-- LogMessageType, and it returns such an object unchanged.
pub parse_log_exact :
    (raw : Raw) (log : Fields)
    → (parse_log raw ≡ some log) ↔ (
        (raw ≡ log_object log)
        × ((m : LogMessageType) × (property "message" log ≡ str (message_value m))))
parse_log_exact raw log =
    (parse_log_inverts raw log, λ h. let (m, e) = h.1 in rw h.0 (parse_log_of_message log m e))

message_of_fields : (l : Log) → property "message" (fields l) ≡ str (message_value (message l))
unfolding fields
message_of_fields (Log.server_listening l) = refl
message_of_fields _ = refl

-- Every log that the union type `Log` describes is accepted, as the object that it is, and the
-- case entered for it is that of the `message` its interface fixes.
pub parse_log-fields :
    (l : Log)
    → (parse_log (log_object (fields l)) ≡ some (fields l))
      × (message_case (property "message" (fields l)) ≡ some (message l))
parse_log-fields l = (
  parse_log_of_message (fields l) (message l) (message_of_fields l),
  (message_case_exact _ (message l)).1 (message_of_fields l),
)
