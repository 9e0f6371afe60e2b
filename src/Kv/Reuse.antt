-- ===== src/Kv/Reuse.antt =====
-- Handlers of internal/kv/server/server.go whose entry is committed while they wait, before they subscribe,
-- or never.
use raft_in_motion.Prelude.{
  is_some, ◌++◌, List, Option, some, get_elem?, get_elem?-append_length, sym, ℕ, String, ◌≡◌, refl,
  ap, ◌∙◌, true, none, [], ◌∷◌, length, arith,
}
use raft_in_motion.Prelude.Int.{pos}
use raft_in_motion.Raft.{Raft, LogEntry, submit, is_leader, become_follower}
use raft_in_motion.Raft.AppendEntries.{AppendEntriesArgs, AppendEntriesReply, append_entries}
use raft_in_motion.Raft.RequestVote.{RequestVoteReply}
use raft_in_motion.Raft.Leader.{Election, count_votes, start_election, start_leader, vote_reply}
use raft_in_motion.Raft.Commit.{CommitEntry}
use raft_in_motion.Kv.{Command, DataStore, lookup, with_result}
use raft_in_motion.Kv.Steps.{crashes_at}
use raft_in_motion.Kv.Log.{Applies, apply_command-Applies, is_valid}
use raft_in_motion.Kv.Service.{
  Handler, idle, bad_request, submitted, waiting, answered, given_up, crashed, KvService, set_at,
  set_handler, put_command, submit_command, notify, update, respond, puts, subscribes, receives,
  gives_up, commits, node_changes, subscribe, receive, give_up, step, run, then_run,
  pop_commit_subscription,
}

-- A handler that waits on the channel of its index.
abbrev pub Subscribed : ℕ → Command → ℕ → ℕ → KvService → Type 0
Subscribed r cmd index sub kvs =
    (kvs.handlers r ≡ waiting cmd index sub) × (kvs.commit_subs index ≡ some sub)

-- The service after the updater's turn.
notified : CommitEntry Command → Command → DataStore → ℕ → KvService → KvService
notified entry new ds sub kvs = record kvs {
  ds = ds;
  commit_subs = set_at entry.index none kvs.commit_subs;
  channels = set_at sub (some (record entry { command = new })) kvs.channels;
}

sends :
    (entry : CommitEntry Command) (new : Command) (ds : DataStore) (sub : ℕ) (kvs : KvService)
    → kvs.commit_subs entry.index ≡ some sub
    → notify entry (some (new, ds)) kvs ≡ some (notified entry new ds sub kvs)
unfolding notify notified pop_commit_subscription
sends entry new ds sub kvs registered = ground (arith, registered)

receives_entry :
    (r : ℕ) (cmd : Command) (sub : ℕ) (entry : CommitEntry Command) (new : Command) (ds : DataStore)
    (kvs : KvService)
    → kvs.handlers r ≡ waiting cmd entry.index sub
    → let next = notified entry new ds sub kvs in
      receive r (next.handlers r) next
      ≡ set_handler r (answered cmd (pos entry.index) (respond kvs.id new)) next
unfolding notified
receives_entry r cmd sub entry new ds kvs waits =
    let next = notified entry new ds sub kvs in ap (λ h. receive r h next) waits ∙ ground arith

-- When the entry at its index is committed, a handler that is subscribed to it gets it, with the store's
-- result before it, and answers; the updater does not panic, for any command that is a get or a put.
pub entry_reaches_handler :
    (r : ℕ) (cmd : Command) (sub : ℕ) (entry : CommitEntry Command) (kvs : KvService)
    → Subscribed r cmd entry.index sub kvs
    → is_valid entry.command.kind ≡ true
    → (after : KvService) × (run (commits entry ∷ receives r ∷ []) kvs ≡ some after)
      × (after.handlers r
          ≡ answered cmd
              (pos entry.index)
              (respond kvs.id (with_result entry.command (lookup (kvs.ds entry.command.key)))))
      × (after.commit_subs entry.index ≡ none)
unfolding run step update notify pop_commit_subscription Applies notified
entry_reaches_handler r cmd sub entry kvs (waits, registered) valid =
    let (ds, applies, now) =
      apply_command-Applies entry.command entry.command.kind kvs.ds refl valid in
    let new = with_result entry.command (lookup (kvs.ds entry.command.key)) in
    let next = notified entry new ds sub kvs in
    let updates : update entry kvs ≡ some next =
      ap (λ o. notify entry o kvs) applies ∙ sends entry new ds sub kvs registered in
    (
      set_handler r (answered cmd (pos entry.index) (respond kvs.id new)) next,
      ap (then_run (λ k. then_run (λ l. some l) (step (receives r) k))) updates
          ∙ ap some (receives_entry r cmd sub entry new ds kvs waits),
      ground arith,
      ground arith,
    )

give_up-keeps :
    (r : ℕ) (h : Handler) (kvs : KvService)
    → ((give_up r h kvs).commit_subs ≡ kvs.commit_subs) × ((give_up r h kvs).id ≡ kvs.id)
give_up-keeps r idle kvs = (refl, refl)
give_up-keeps r bad_request kvs = (refl, refl)
give_up-keeps r given_up kvs = (refl, refl)
give_up-keeps r crashed kvs = (refl, refl)
give_up-keeps r (submitted cmd i) kvs = (refl, refl)
give_up-keeps r (waiting cmd i sub) kvs = (refl, refl)
give_up-keeps r (answered cmd i response) kvs = (refl, refl)

-- A put at a leader, where a subscription to the next index is left.
put_crashes :
    (q index sub : ℕ) (new : Command) (kvs : KvService)
    → kvs.commit_subs index ≡ some sub
    → is_leader kvs.rs.state ≡ true
    → length kvs.rs.log ≡ index
    → let begun = submit_command q (some new) kvs in
      let after = subscribe q (begun.handlers q) begun in
      (after.handlers q ≡ crashed)
      × (get_elem? after.rs.log index ≡ some (record { command = new; term = kvs.rs.current_term }))
unfolding submit_command submit subscribe
put_crashes q index sub new kvs registered leads at_end =
    let begun = submit_command q (some new) kvs in
    let at : begun.handlers q ≡ submitted new index = ground (arith, leads, at_end) in
    let taken : is_some (begun.commit_subs index) ≡ true = ground (arith, leads, registered) in
    let ends = ap (λ h. subscribe q h begun) at ∙ crashes_at q new index begun taken in
    let entry : LogEntry Command = record { command = new; term = kvs.rs.current_term } in
    let stored : begun.rs.log ≡ kvs.rs.log ++ entry ∷ [] = ground (arith, leads) in
    (
      ap (λ k. k.handlers q) ends ∙ ground arith,
      ap (λ k. get_elem? k.rs.log index) ends
          ∙ ap (λ l. get_elem? l index) stored
          ∙ ap (λ i. get_elem? (kvs.rs.log ++ entry ∷ []) i) (sym at_end)
          ∙ get_elem?-append_length kvs.rs.log entry,
    )

count_votes-log :
    (now : ℕ) (replies : List (Option RequestVoteReply)) (e : Election) (rf : Raft Command)
    → (count_votes now replies (e, rf)).1.log ≡ rf.log
unfolding count_votes vote_reply become_follower start_leader
count_votes-log now [] e rf = refl
count_votes-log now (reply ∷ rest) e rf =
    let next = vote_reply now reply e rf in count_votes-log now rest next.0 next.1 ∙ ground arith

-- A client gives up while its handler waits at an index; then a new leader's entries cut the node's log before
-- this index, and the node wins an election. The next put gets the same index: it is in the node's log, and
-- its handler panics all the same, since the subscription of the handler that has returned is still there.
pub reused_index_fails :
    (r q : ℕ) (cmd : Command) (index sub now later : ℕ) (request : String × String)
    (args : AppendEntriesArgs Command) (reply : AppendEntriesReply) (cut : Raft Command)
    (replies : List (Option RequestVoteReply)) (kvs : KvService)
    → Subscribed r cmd index sub kvs
    → append_entries now args kvs.rs ≡ some (reply, cut)
    → length cut.log ≡ index
    → let won = (count_votes later replies (start_election later cut)).1 in
      is_leader won.state ≡ true
      → (after : KvService) × (run
            (gives_up r
              ∷ node_changes cut
              ∷ node_changes won
              ∷ puts q (some request)
              ∷ subscribes q
              ∷ [])
            kvs
          ≡ some after)
        × (after.handlers q ≡ crashed)
        × (get_elem? after.rs.log index
            ≡ some (record { command = put_command kvs.id request; term = won.current_term }))
unfolding run step start_election
reused_index_fails r q cmd index sub now later request args reply cut replies kvs s cuts shorter
      leads =
    let e = start_election later cut in
    let won = (count_votes later replies e).1 in
    let left = record (give_up r (kvs.handlers r) kvs) { rs = won } in
    let (subs, same_id) = give_up-keeps r (kvs.handlers r) kvs in
    let log = count_votes-log later replies e.0 e.1 in
    let begun = submit_command q (some (put_command left.id request)) left in
    let (fails, stored) =
      put_crashes q index sub (put_command left.id request) left (ap (λ f. f index) subs ∙ s.1)
        leads (ap length log ∙ shorter) in
    (
      subscribe q (begun.handlers q) begun,
      refl,
      fails,
      stored
          ∙ ap (λ i. some (record { command = put_command i request; term = won.current_term }))
              same_id,
    )
