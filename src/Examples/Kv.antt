-- ===== src/Examples/Kv.antt =====
-- The key-value service and its client at concrete inputs.
use text.Mathlib.Text.{◌==◌ as str_eq}
use raft_in_motion.Prelude.{
  ℕ, zero, suc, String, some_injective, is_some, ◌≡◌, refl, subst, true, false, Option, none, some,
  List, [], ◌∷◌, take, length, get_elem?, arith, if◌then◌else◌, ◌==◌,
}
use raft_in_motion.Prelude.Int.{pos, minus_one}
use raft_in_motion.Raft.{Raft, LogEntry, leader, is_leader, submit}
use raft_in_motion.Raft.RequestVote.{RequestVoteReply}
use raft_in_motion.Raft.AppendEntries.{
  AppendEntriesArgs, AppendEntriesReply, reply_of, append_entries, follow, insert_entries,
}
use raft_in_motion.Raft.Leader.{after, count_votes, start_election, start_leader, vote_reply}
use raft_in_motion.Raft.Commit.{CommitEntry}
use raft_in_motion.Raft.Applied.{rounds}
use raft_in_motion.Kv.{
  Command, Response, DataStore, status_ok, status_invalid, status_not_leader, new_data_store,
  with_result, get, put, apply_command,
}
use raft_in_motion.Kv.Log.{apply_all, last_put}
use raft_in_motion.Kv.Service.{
  Handler, crashed, waiting, answered, submitted, KvService, new_service, put_command, get_command,
  Event, puts, subscribes, receives, gives_up, commits, node_changes, step, run, respond,
  status_response, submit_command, subscribe, create_commit_subscription, update, notify,
  pop_commit_subscription,
}
use raft_in_motion.Kv.Sound.{Answers}
use raft_in_motion.Kv.Answers.{ok_is_committed}
use raft_in_motion.Kv.Replica.{log_commands, entry_commands, store_follows_log}
use raft_in_motion.Kv.Reuse.{entry_reaches_handler, reused_index_fails}
use raft_in_motion.Kv.Stuck.{Unanswered}
use raft_in_motion.Kv.Late.{late_subscription_waits}
use raft_in_motion.Kv.KvClient.{KvClient, Try, replies, fails, request, send, returned, new_client}
use raft_in_motion.Kv.Leader.{goes_on, Leads, Leaderless, leader_is_found, failure_is_not_reported}

abbrev node : List (LogEntry Command) → Raft Command
node log = record {
  id = 0;
  peer_ids = 1 ∷ 2 ∷ [];
  current_term = 1;
  voted_for = pos 0;
  log = log;
  commit_index = minus_one;
  last_applied = minus_one;
  state = leader;
  election_reset_event = 0;
  next_index = λ p. 0;
  match_index = λ p. minus_one;
  storage = none;
  commit_ready = 0;
  trigger_ae = 0;
  election_timers = 0;
}

abbrev put_one : Command
put_one = put_command 0 ("llave", "cosa")

abbrev one_entry : CommitEntry Command
one_entry = record { command = put_one; index = 0; term = 1 }

abbrev service_of : Option KvService → KvService
service_of none = new_service 0 (node [])
service_of (some kvs) = kvs

-- A put, from its request to its answer.
abbrev answered_put : List Event
answered_put = puts 0 (some ("llave", "cosa")) ∷ subscribes 0 ∷ commits one_entry ∷ receives 0 ∷ []

answered_put_runs :
    run answered_put (new_service 0 (node []))
    ≡ some (service_of (run answered_put (new_service 0 (node []))))
unfolding run step submit_command submit subscribe create_commit_subscription update apply_command
    get put notify pop_commit_subscription
answered_put_runs = refl

abbrev stored : Response
stored = record { resp_status = status_ok; key_found = false; value = "" }

put_is_answered :
    (service_of (run answered_put (new_service 0 (node [])))).handlers 0
    ≡ answered put_one (pos 0) stored
unfolding run step submit_command submit subscribe create_commit_subscription update apply_command
    get put notify pop_commit_subscription
put_is_answered = refl

ok_is_committed_example :
    let kvs = service_of (run answered_put (new_service 0 (node []))) in
    Answers kvs.id (one_entry ∷ []) (pos 0) stored
    × ((key : String) → kvs.ds key ≡ last_put key (put_one ∷ []) none)
ok_is_committed_example =
    ok_is_committed 0 (node []) answered_put
      (service_of (run answered_put (new_service 0 (node [])))) 0 put_one (pos 0) stored
      answered_put_runs put_is_answered refl

abbrev put_log : List (LogEntry Command)
put_log =
    record { command = put_one; term = 1 }
    ∷ record { command = get_command 1 "llave"; term = 1 }
    ∷ record { command = put_command 0 ("llave", "otra"); term = 1 }
    ∷ []

store_follows_log_example :
    let sent = rounds (pos 0 ∷ pos 1 ∷ []) (node put_log) in
    (ds : DataStore) × (apply_all (entry_commands sent.0) new_data_store ≡ some ds)
    × ((key : String)
        → ds key ≡ last_put key (log_commands (take (after sent.1.last_applied) put_log)) none)
store_follows_log_example = store_follows_log (pos 0 ∷ pos 1 ∷ []) (node put_log) refl refl refl

-- Handler 0 waits on channel 0 for the entry at index 0.
abbrev waits : KvService
waits = record (new_service 0 (node [])) {
  commit_subs = λ i. if i == 0 then some 0 else none;
  next_channel = 1;
  handlers = λ r. if r == 0 then waiting put_one 0 0 else Handler.idle;
}

entry_reaches_handler_example :
    (after : KvService) × (run (commits one_entry ∷ receives 0 ∷ []) waits ≡ some after)
    × (after.handlers 0 ≡ answered put_one (pos 0) (respond 0 (with_result put_one ("", false))))
    × (after.commit_subs 0 ≡ none)
entry_reaches_handler_example = entry_reaches_handler 0 put_one 0 one_entry waits (refl, refl) refl

-- Handler 0 waits at index 2; the leader of term 2 has another entry at index 1.
abbrev waits_at_two : KvService
waits_at_two = record (new_service 0 (node put_log)) {
  commit_subs = λ i. if i == 2 then some 0 else none;
  next_channel = 1;
  handlers = λ r. if r == 0 then waiting put_one 2 0 else Handler.idle;
}

abbrev other_entry : AppendEntriesArgs Command
other_entry = record {
  term = 2;
  leader_id = 1;
  prev_log_index = pos 0;
  prev_log_term = pos 1;
  entries = record { command = get_command 1 "llave"; term = 2 } ∷ [];
  leader_commit = minus_one;
}

abbrev reply_or_none :
    Option (AppendEntriesReply × Raft Command) → AppendEntriesReply × Raft Command
reply_or_none none = (reply_of 0 false, node [])
reply_or_none (some answer) = answer

abbrev cut_log : AppendEntriesReply × Raft Command
unfolding append_entries
cut_log = reply_or_none (append_entries 5 other_entry (node put_log))

log_is_cut : append_entries 5 other_entry (node put_log) ≡ some (cut_log.0, cut_log.1)
unfolding append_entries follow insert_entries cut_log
log_is_cut = refl

cut_to_two : length cut_log.1.log ≡ 2
unfolding append_entries follow insert_entries cut_log
cut_to_two = refl

abbrev two_votes : List (Option RequestVoteReply)
two_votes = let vote = some (record { term = 3; vote_granted = true }) in vote ∷ vote ∷ []

wins_again : is_leader (count_votes 9 two_votes (start_election 9 cut_log.1)).1.state ≡ true
unfolding append_entries follow insert_entries cut_log start_election vote_reply count_votes
    start_leader
wins_again = refl

reused_index_fails_example :
    let won = (count_votes 9 two_votes (start_election 9 cut_log.1)).1 in
    (after : KvService) × (run
        (gives_up 0
          ∷ node_changes cut_log.1
          ∷ node_changes won
          ∷ puts 1 (some ("llave", "otra"))
          ∷ subscribes 1
          ∷ [])
        waits_at_two
      ≡ some after)
    × (after.handlers 1 ≡ crashed)
    × (get_elem? after.rs.log 2
        ≡ some (record { command = put_command 0 ("llave", "otra"); term = won.current_term }))
reused_index_fails_example =
    reused_index_fails 0 1 put_one 2 0 5 9 ("llave", "otra") other_entry cut_log.0 cut_log.1
      two_votes waits_at_two (refl, refl) log_is_cut cut_to_two wins_again

-- The entry of handler 0 is committed before it subscribes.
abbrev early : List Event
early = puts 0 (some ("llave", "cosa")) ∷ commits one_entry ∷ []

early_runs :
    run early (new_service 0 (node [])) ≡ some (service_of (run early (new_service 0 (node []))))
unfolding run step submit_command submit update apply_command get put notify pop_commit_subscription
early_runs = refl

early_submitted :
    (service_of (run early (new_service 0 (node [])))).handlers 0 ≡ submitted put_one 0
unfolding run step submit_command submit update apply_command get put notify pop_commit_subscription
early_submitted = refl

abbrev late : Event → KvService
late e = service_of (run (subscribes 0 ∷ e ∷ []) (service_of (run early (new_service 0 (node [])))))

late_runs :
    run (subscribes 0 ∷ receives 0 ∷ []) (service_of (run early (new_service 0 (node []))))
    ≡ some (late (receives 0))
unfolding run step submit_command submit subscribe create_commit_subscription update apply_command
    get put notify pop_commit_subscription
late_runs = refl

early_free : is_some ((service_of (run early (new_service 0 (node [])))).commit_subs 0) ≡ false
unfolding run step submit_command submit update apply_command get put notify pop_commit_subscription
early_free = refl

late_subscription_waits_example : Unanswered 0 (late (receives 0))
late_subscription_waits_example =
    late_subscription_waits 0 0 put_one 0 (node []) early (receives 0 ∷ [])
      (service_of (run early (new_service 0 (node [])))) (late (receives 0)) early_runs
      early_submitted early_free refl late_runs

abbrev found : Response
found = record { resp_status = status_ok; key_found = true; value = "cosa" }

abbrev two_servers : KvClient
two_servers = new_client ("localhost:14203" ∷ "localhost:14204" ∷ []) 0

-- The second server is the leader.
abbrev network : ℕ → String → Try
network try address =
    if str_eq address "localhost:14204"
    then replies found
    else replies (status_response status_not_leader)

first_goes_on :
    (try i : ℕ) (address : String)
    → (i == 1) ≡ false
    → get_elem? two_servers.addrs i ≡ some address
    → goes_on (network try address) ≡ true
first_goes_on try zero address other at =
    subst (λ a. goes_on (network try a) ≡ true) (some_injective _ address at) refl
first_goes_on try (suc zero) address other at = absurd (ground (arith, other))
first_goes_on try (suc (suc i)) address other at = cc

network-Leads : Leads network two_servers.addrs 1 found
unfolding Leads
network-Leads = (
  omega arith,
  refl,
  λ try address at. subst (λ a. network try a ≡ replies found) (some_injective _ address at) refl,
  λ try i address other at. first_goes_on try i address other at,
)

leader_is_found_example :
    (request network 2 two_servers ≡ some ("cosa", true, false))
    × (send network 2 0 (status_response status_invalid) two_servers
        ≡ some (returned false found (record two_servers { assumed_leader = 1 })))
leader_is_found_example =
    leader_is_found network 2 1 found two_servers network-Leads (omega arith) (omega arith)

-- No server answers.
abbrev silence : ℕ → String → Try
silence try address = fails false (try == 0)

silence-Leaderless : Leaderless silence two_servers.addrs
unfolding Leaderless
silence-Leaderless try i address response at e = cc

silence_ends : is_some (request silence 5 two_servers) ≡ true
unfolding request send
silence_ends = refl

failure_is_not_reported_example : request silence 5 two_servers ≡ some ("", false, false)
failure_is_not_reported_example =
    failure_is_not_reported silence 5 two_servers silence-Leaderless silence_ends
