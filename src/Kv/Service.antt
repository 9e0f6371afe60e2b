-- ===== src/Kv/Service.antt =====
-- internal/kv/server/server.go and parser.go: the service on one node. Each event is a step of a goroutine
-- between two locks: a handler submits its command, subscribes, and then receives the entry or is given up
-- by its client; the updater takes one committed entry; the Raft node changes in any other way. A channel
-- is a number and holds the entry that was sent to it. A panic in a handler ends that handler alone, since
-- net/http recovers it; `none` is a panic of the updater, which ends the program.
use raft_in_motion.Prelude.{
  ℕ, suc, String, ◌==◌, false, Option, none, some, is_some, List, [], ◌∷◌, if◌then◌else◌,
}
use text.Mathlib.Text.{◌==◌ as str_eq}
use raft_in_motion.Prelude.Int.{ℤ, pos, negsuc}
use raft_in_motion.Raft.{Raft, submit}
use raft_in_motion.Raft.Commit.{CommitEntry}
use raft_in_motion.Kv.{
  Command, command_get, command_put, Response, ResponseStatus, status_ok, status_not_leader,
  status_failed_commit, DataStore, new_data_store, apply_command,
}

-- A handler, with its command and the index that it has.
pub data Handler : Type 0 where
  idle : Handler
  bad_request : Handler
  submitted : Command → ℕ → Handler
  waiting : Command → ℕ → ℕ → Handler
  answered : Command → ℤ → Response → Handler
  given_up : Handler
  crashed : Handler

pub record KvService : Type 0 where
  pub id : ℕ
  pub rs : Raft Command
  pub commit_subs : ℕ → Option ℕ
  pub channels : ℕ → Option (CommitEntry Command)
  pub next_channel : ℕ
  pub ds : DataStore
  pub handlers : ℕ → Handler

-- m[n] = x
abbrev pub set_at {ℓ} : {A : Type ℓ} → ℕ → A → (ℕ → A) → ℕ → A
set_at n x f m = if m == n then x else f m

abbrev pub new_service : ℕ → Raft Command → KvService
new_service id rs = record {
  id = id;
  rs = rs;
  commit_subs = λ i. none;
  channels = λ c. none;
  next_channel = 0;
  ds = new_data_store;
  handlers = λ r. idle;
}

abbrev pub set_handler : ℕ → Handler → KvService → KvService
set_handler r h kvs = record kvs { handlers = set_at r h kvs.handlers }

-- readRequestJSON. Parameters: mime.ParseMediaType of the content type, and the decoder.
unfoldable pub read_request_json :
    {A : Type 0} → (String → Option String) → (String → Option A) → String → String → Option A
read_request_json parse_media_type decode content_type body = elim (parse_media_type content_type) [
  | none ↦ none
  | some media_type ↦ if str_eq media_type "application/json" then decode body else none
]

-- The command of a PutRequest, and of a GetRequest, at the node `id`.
abbrev pub put_command : ℕ → String × String → Command
put_command id (key, value) = record {
  kind = command_put;
  key = key;
  value = value;
  compare_value = "";
  result_value = "";
  result_found = false;
  id = id;
}

abbrev pub get_command : ℕ → String → Command
get_command id key = record {
  kind = command_get;
  key = key;
  value = "";
  compare_value = "";
  result_value = "";
  result_found = false;
  id = id;
}

abbrev pub status_response : ResponseStatus → Response
status_response status = record { resp_status = status; key_found = false; value = "" }

-- The start of a handler with its command, or the error of its request.
abbrev pub submit_index : ℕ → Command → ℤ → KvService → KvService
submit_index r cmd (negsuc i) kvs =
    set_handler r (answered cmd (negsuc i) (status_response status_not_leader)) kvs
submit_index r cmd (pos i) kvs = set_handler r (submitted cmd i) kvs

unfoldable pub submit_command : ℕ → Option Command → KvService → KvService
unfolding submit
submit_command r none kvs = set_handler r bad_request kvs
submit_command r (some cmd) kvs =
    let sent = submit cmd kvs.rs in submit_index r cmd sent.0 (record kvs { rs = sent.1 })

-- createCommitSubsciption, with its channel; `none` is its panic, after which the lock is released.
unfoldable pub create_commit_subscription : ℕ → KvService → Option (ℕ × KvService)
create_commit_subscription index kvs =
    if is_some (kvs.commit_subs index)
    then none
    else some (
      kvs.next_channel,
      record kvs {
        commit_subs = set_at index (some kvs.next_channel) kvs.commit_subs;
        channels = set_at kvs.next_channel none kvs.channels;
        next_channel = suc kvs.next_channel;
      },
    )

-- popCommitSubscription
unfoldable pub pop_commit_subscription : ℕ → KvService → Option ℕ × KvService
pop_commit_subscription index kvs =
    (kvs.commit_subs index, record kvs { commit_subs = set_at index none kvs.commit_subs })

-- sub <- newEntry; close(sub)
abbrev pub send_entry : Option ℕ → CommitEntry Command → KvService → KvService
send_entry none entry kvs = kvs
send_entry (some sub) entry kvs = record kvs { channels = set_at sub (some entry) kvs.channels }

unfoldable pub notify :
    CommitEntry Command → Option (Command × DataStore) → KvService → Option KvService
unfolding pop_commit_subscription
notify entry none kvs = none
notify entry (some (cmd, ds)) kvs =
    let popped = pop_commit_subscription entry.index (record kvs { ds = ds }) in
    some (send_entry popped.0 (record entry { command = cmd }) popped.1)

-- One turn of the updater.
unfoldable pub update : CommitEntry Command → KvService → Option KvService
unfolding apply_command notify
update entry kvs = notify entry (apply_command entry.command kvs.ds) kvs

-- The response of a handler that has received its entry.
abbrev pub respond : ℕ → Command → Response
respond id cmd =
    if cmd.id == id
    then record { resp_status = status_ok; key_found = cmd.result_found; value = cmd.result_value }
    else status_response status_failed_commit

pub data Event : Type 0 where
  puts : ℕ → Option (String × String) → Event
  gets : ℕ → Option String → Event
  subscribes receives gives_up : ℕ → Event
  commits : CommitEntry Command → Event
  node_changes : Raft Command → Event

abbrev pub command_of {ℓ} : {A : Type ℓ} → (A → Command) → Option A → Option Command
command_of f none = none
command_of f (some a) = some (f a)

abbrev pub start_waiting : ℕ → Command → ℕ → KvService → Option (ℕ × KvService) → KvService
start_waiting r cmd index kvs none = set_handler r crashed kvs
start_waiting r cmd index kvs (some (sub, after)) = set_handler r (waiting cmd index sub) after

unfoldable pub subscribe : ℕ → Handler → KvService → KvService
unfolding create_commit_subscription
subscribe r (submitted cmd index) kvs =
    start_waiting r cmd index kvs (create_commit_subscription index kvs)
subscribe r _ kvs = kvs

abbrev pub receive_entry : ℕ → Command → ℕ → Option (CommitEntry Command) → KvService → KvService
receive_entry r cmd index none kvs = kvs
receive_entry r cmd index (some entry) kvs =
    set_handler r (answered cmd (pos index) (respond kvs.id entry.command)) kvs

abbrev pub receive : ℕ → Handler → KvService → KvService
receive r (waiting cmd index sub) kvs = receive_entry r cmd index (kvs.channels sub) kvs
receive r _ kvs = kvs

-- <-req.Context().Done(): the handler returns, and its subscription stays.
abbrev pub give_up : ℕ → Handler → KvService → KvService
give_up r (waiting cmd index sub) kvs = set_handler r given_up kvs
give_up r _ kvs = kvs

unfoldable pub step : Event → KvService → Option KvService
unfolding submit_command subscribe update
step (puts r request) kvs = some (submit_command r (command_of (put_command kvs.id) request) kvs)
step (gets r request) kvs = some (submit_command r (command_of (get_command kvs.id) request) kvs)
step (subscribes r) kvs = some (subscribe r (kvs.handlers r) kvs)
step (receives r) kvs = some (receive r (kvs.handlers r) kvs)
step (gives_up r) kvs = some (give_up r (kvs.handlers r) kvs)
step (commits entry) kvs = update entry kvs
step (node_changes rf) kvs = some (record kvs { rs = rf })

abbrev pub then_run : (KvService → Option KvService) → Option KvService → Option KvService
then_run rest none = none
then_run rest (some kvs) = rest kvs

unfoldable pub run : List Event → KvService → Option KvService
run [] kvs = some kvs
run (e ∷ rest) kvs = then_run (run rest) (step e kvs)
