-- ===== src/Kv/KvClient.antt =====
-- internal/kv/client/client.go: the client that looks for the leader. Parameters: what each try gives, by its
-- number and the address that it goes to: a response, or an error, with whether the caller's context is done
-- and whether the 50 ms of the try have passed. The endless loop runs on fuel; `none` is that it goes on.
use raft_in_motion.Prelude.{
  ℕ, suc, zero, String, ◌+◌, ◌%◌, Bool, true, false, Option, none, some, List, length, get_elem?,
  if◌then◌else◌,
}
use raft_in_motion.Kv.{
  Response, ResponseStatus, status_invalid, status_ok, status_not_leader, status_failed_commit,
}
use raft_in_motion.Kv.Service.{status_response}

pub record KvClient : Type 0 where
  pub addrs : List String
  pub assumed_leader : ℕ
  pub client_id : ℕ

-- New, for the number of clients that were made before.
abbrev pub new_client : List String → ℕ → KvClient
new_client addrs count = record { addrs = addrs; assumed_leader = 0; client_id = suc count }

pub data Try : Type 0 where
  replies : Response → Try
  fails : Bool → Bool → Try

-- `send` returns with an error or without, or it panics.
pub data Sent : Type 0 where
  returned : Bool → Response → KvClient → Sent
  panicked : Sent

abbrev pub next_server : KvClient → KvClient
next_server c = record c { assumed_leader = (c.assumed_leader + 1) % length c.addrs }

-- One turn of the loop, where `again` is the rest of it.
abbrev pub on_status :
    (KvClient → Response → Option Sent) → ResponseStatus → Response → KvClient → Option Sent
on_status again status_not_leader resp c = again (next_server c) resp
on_status again status_ok resp c = some (returned false resp c)
on_status again status_failed_commit resp c = some (returned true resp c)
on_status again status_invalid resp c = some panicked

abbrev pub on_try : (KvClient → Response → Option Sent) → Try → Response → KvClient → Option Sent
on_try again (replies r) resp c = on_status again r.resp_status r c
on_try again (fails context_done deadline) resp c =
    if context_done
    then some (returned false resp c)
    else if deadline
    then again (next_server c) resp
    else some (returned false resp c)

-- What Put and Get return: a value, whether it was found, and whether there was an error.
abbrev pub result_of : Option Sent → Option (String × Bool × Bool)
result_of none = none
result_of (some panicked) = none
result_of (some (returned error resp c)) = some (resp.value, resp.key_found, error)

module _ (env : ℕ → String → Try) where
  abbrev pub on_address :
      (KvClient → Response → Option Sent) → ℕ → Option String → Response → KvClient → Option Sent
  on_address again try none resp c = some panicked
  on_address again try (some address) resp c = on_try again (env try address) resp c

  unfoldable pub send : ℕ → ℕ → Response → KvClient → Option Sent
  send zero try resp c = none
  send (suc fuel) try resp c =
      on_address (λ d r. send fuel (suc try) r d) try (get_elem? c.addrs c.assumed_leader) resp c

  -- Put and Get, whose requests only differ in what the servers do.
  unfoldable pub request : ℕ → KvClient → Option (String × Bool × Bool)
  unfolding send
  request fuel c = result_of (send fuel 0 (status_response status_invalid) c)
