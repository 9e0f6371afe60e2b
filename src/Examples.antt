-- ===== src/Examples.antt =====
-- The theorems at concrete inputs: two logs of an election as the server sends them, on a page with
-- the three servers of frontend/src/app/page.tsx. The children hold one part of the program each.
mod Page
mod Panel
mod Bar
mod Raft
mod Server
mod Kv
mod Ui
use raft_in_motion.Prelude.{String, ◌≡◌, refl, Bool, true, Option, some, List, [], ◌∷◌, get_elem?}
use raft_in_motion.Prelude.Int.{ℤ, pos}
use raft_in_motion.Value.{Fields, Raw, Payload, array, single, str, num, scalar, null, log_object}
use raft_in_motion.Types.Enums.{message_case}
use raft_in_motion.WsService
use raft_in_motion.LogsContext.Parse.{parse_log}
use raft_in_motion.LogsContext.Live.{live_at}
use raft_in_motion.LogsContext.Replaced.{opened_socket}
use raft_in_motion.LogsContext.Page.{
  step, connect, cleanup_resources, reset_state, enqueue_log, push_payload, push_all, flush_if_idle,
  start_flushing, tick, Event, connects, socket_opens, socket_receives, interval_fires, init, run,
}

abbrev pub endpoint : String
endpoint = "ws://localhost:8081/ws"

-- A server becomes a candidate.
abbrev pub candidate_log : ℤ → Fields
candidate_log id =
    ("level", str "INFO")
    ∷ ("raftID", num id)
    ∷ ("time", str "12:00:00")
    ∷ ("message", str "stateTransition")
    ∷ ("oldState", str "Follower")
    ∷ ("newState", str "Candidate")
    ∷ []

abbrev pub won_log : ℤ → Fields
won_log id =
    ("level", str "INFO")
    ∷ ("raftID", num id)
    ∷ ("message", str "electionWon")
    ∷ ("state", str "Leader")
    ∷ ("term", num (pos 3))
    ∷ []

abbrev pub servers : List ℤ
servers = pos 0 ∷ pos 1 ∷ pos 2 ∷ []

-- A connection opens, two messages arrive, one of which is no log, and the interval fires.
abbrev pub session : List Event
session =
    connects "6" true
    ∷ socket_opens 0
    ∷ socket_receives 0 (some (array (log_object (candidate_log (pos 1)) ∷ scalar null ∷ [])))
    ∷ socket_receives 0 (some (single (log_object (won_log (pos 1)))))
    ∷ interval_fires 1
    ∷ []

session_shows : (run endpoint session init).logs ≡ candidate_log (pos 1) ∷ []
unfolding run step connect WsService.connect cleanup_resources reset_state WsService.handle_open
    WsService.handle_message enqueue_log push_payload push_all flush_if_idle start_flushing tick
    parse_log message_case
session_shows = refl

pub session_live : live_at 0 (run endpoint session init).sockets ≡ true
unfolding run step connect WsService.connect cleanup_resources reset_state WsService.handle_open
    WsService.handle_message enqueue_log push_payload push_all flush_if_idle start_flushing tick
    parse_log message_case
session_live = refl

pub session_open :
    get_elem? (run endpoint session init).sockets 0 ≡ some (opened_socket endpoint "6" 0)
unfolding run step connect WsService.connect cleanup_resources reset_state WsService.handle_open
    WsService.handle_message enqueue_log push_payload push_all flush_if_idle start_flushing tick
    parse_log message_case
session_open = refl
