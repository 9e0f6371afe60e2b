-- ===== src/LogsContext/SameSockets.antt =====
-- The operations of the page that leave its sockets and services as they are.
use raft_in_motion.Prelude.{ℕ, ◌≡◌, refl, ◌∙◌, Option, none, some, List, [], ◌∷◌, arith}
use raft_in_motion.Value.{Raw, Fields, Payload, array, single}
use raft_in_motion.LogsContext.Parse.{parse_log}
use raft_in_motion.WsService.{handle_message}
use raft_in_motion.LogsContext.Page.{
  Page, page_client, tick, push_log, push_all, push_payload, enqueue_log, clear_logs,
}
use raft_in_motion.LogsContext.Follows.{OneSocket, Follows-OneSocket}

-- A page whose sockets, services and service in use are those of p.
abbrev pub SameSockets : Page → Page → Type 0
SameSockets p q =
    (q.sockets ≡ p.sockets) × (q.services ≡ p.services) × (q.ws_service ≡ p.ws_service)

pub SameSockets-OneSocket : {p q : Page} → SameSockets p q → OneSocket p → OneSocket q
SameSockets-OneSocket same v =
    Follows-OneSocket
      (record { same_service = same.2; same_services = same.1; fewer = λ k h. rw same.0 at h }) v

pub tick-SameSockets : (t : ℕ) (p : Page) → SameSockets p (tick t p)
unfolding tick
tick-SameSockets t p = ground arith

pub push_log-SameSockets : (o : Option Fields) (p : Page) → SameSockets p (push_log o p)
push_log-SameSockets none p = (refl, refl, refl)
push_log-SameSockets (some log) p = (refl, refl, refl)

pub push_all-SameSockets : (raws : List Raw) (p : Page) → SameSockets p (push_all raws p)
unfolding push_all
push_all-SameSockets [] p = (refl, refl, refl)
push_all-SameSockets (raw ∷ rest) p =
    let (a, b, c) = push_log-SameSockets (parse_log raw) p in
    let (a', b', c') = push_all-SameSockets rest (push_log (parse_log raw) p) in
    (a' ∙ a, b' ∙ b, c' ∙ c)

pub push_payload-SameSockets : (d : Payload) (p : Page) → SameSockets p (push_payload d p)
unfolding push_payload
push_payload-SameSockets (array raws) p = push_all-SameSockets raws p
push_payload-SameSockets (single raw) p = push_log-SameSockets (parse_log raw) p

pub enqueue_log-SameSockets : (d : Payload) (p : Page) → SameSockets p (enqueue_log d p)
unfolding enqueue_log
enqueue_log-SameSockets d p = ground (arith, push_payload-SameSockets d p)

pub receives-SameSockets :
    (k : ℕ) (d : Option Payload) (p : Page) → SameSockets p (handle_message page_client k d p)
unfolding handle_message
receives-SameSockets k none p = ground arith
receives-SameSockets k (some d) p = ground (arith, enqueue_log-SameSockets d p)

pub clear_logs-SameSockets : (p : Page) → SameSockets p (clear_logs p)
unfolding clear_logs
clear_logs-SameSockets p = ground arith
