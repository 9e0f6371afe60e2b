-- ===== src/Kv/Leader.antt =====
-- The search for the leader of internal/kv/client/client.go: that it ends, and what it reports when it fails.
use raft_in_motion.Prelude.{
  ℕ, suc, zero, String, ◌+◌, ◌-◌, ◌%◌, ◌≤◌, ◌<◌, ◌≡◌, inl, inr, refl, ap, sym, subst, ◌∙◌, Bool,
  true, false, ◌==◌, Bool-cases, Option-cases, is_some, Option, some, List, [], ◌∷◌, length,
  get_elem?, leb, arith, if◌then◌else◌,
}
use native.Mathlib.Nat.{mod-eq_of_lt, mod_self}
use raft_in_motion.Kv.{Response, status_invalid, status_ok, status_not_leader}
use raft_in_motion.Kv.Service.{status_response}
use raft_in_motion.Kv.KvClient.{
  KvClient, Try, replies, fails, Sent, returned, next_server, on_status, on_try, on_address, send,
  result_of, request,
}

next_index : (a n : ℕ) → a < n → (a + 1) % n ≡ (if suc a == n then 0 else suc a)
next_index a n h = elim (Bool-cases (suc a == n)) [
  | inl last ↦
      let whole : a + 1 ≡ n = ground arith in ap (λ m. m % n) whole ∙ mod_self n ∙ ground arith
  | inr inside ↦ mod-eq_of_lt (ground arith) ∙ ground arith
]

-- How many servers come before server k, from server a on.
abbrev pub distance : ℕ → ℕ → ℕ → ℕ
distance n a k = if leb a k then k - a else n + k - a

-- A try that the client goes on from: a server that is not the leader, or that is too slow.
abbrev pub goes_on : Try → Bool
goes_on (fails false true) = true
goes_on (replies r) = elim r.resp_status [ status_not_leader ↦ true | _ ↦ false ]
goes_on _ = false

on_try-again :
    (again : KvClient → Response → Option Sent) (t : Try) (resp : Response) (c : KvClient)
    → goes_on t ≡ true
    → (r : Response) × (on_try again t resp c ≡ again (next_server c) r)
on_try-again again (fails false true) resp c h = (resp, refl)
on_try-again again (fails false false) resp c h = cc
on_try-again again (fails true b) resp c h = cc
on_try-again again (replies r) resp c h = (r, ground (arith, h))

module _ (env : ℕ → String → Try) where
  -- Server k is the leader and answers with this response, and no other server does.
  unfoldable pub Leads : List String → ℕ → Response → Type 0
  Leads addrs k response =
      (k < length addrs)
      × (response.resp_status ≡ status_ok)
      × ((try : ℕ) (address : String)
          → get_elem? addrs k ≡ some address
          → env try address ≡ replies response)
      × ((try i : ℕ) (address : String)
          → (i == k) ≡ false
          → get_elem? addrs i ≡ some address
          → goes_on (env try address) ≡ true)

  address_at :
      (addrs : List String) (i : ℕ) → i < length addrs → (a : String) × (get_elem? addrs i ≡ some a)
  address_at [] i h = absurd (omega arith)
  address_at (a ∷ rest) zero h = (a, refl)
  address_at (a ∷ rest) (suc i) h = address_at rest i (omega arith)

  send_again :
      (fuel try : ℕ) (address : String) (resp : Response) (c : KvClient)
      → get_elem? c.addrs c.assumed_leader ≡ some address
      → goes_on (env try address) ≡ true
      → (r : Response) × (send env (suc fuel) try resp c
          ≡ send env fuel (suc try) r (next_server c))
  unfolding send
  send_again fuel try address resp c at goes =
      let (r, on) =
        on_try-again (λ d r. send env fuel (suc try) r d) (env try address) resp c goes in
      (r, ap (λ o. on_address env (λ d r. send env fuel (suc try) r d) try o resp c) at ∙ on)

  -- From any server on, with enough turns for those that come before the leader.
  finds :
      (d fuel try k : ℕ) (resp response : Response) (c : KvClient)
      → Leads c.addrs k response
      → c.assumed_leader < length c.addrs
      → distance (length c.addrs) c.assumed_leader k ≡ d
      → d < fuel
      → send env fuel try resp c ≡ some (returned false response (record c { assumed_leader = k }))
  unfolding Leads send
  finds d zero try k resp response c leads inside at enough = absurd (omega arith)
  finds zero (suc fuel) try k resp response c (range, ok, mine, others) inside at enough =
      let here : c.assumed_leader ≡ k = ground (arith, at) in
      let (address, there) = address_at c.addrs c.assumed_leader inside in
      let its = subst (λ i. get_elem? c.addrs i ≡ some address) here there in
      ap (λ o. on_address env (λ d r. send env fuel (suc try) r d) try o resp c) there
      ∙ ap (λ t. on_try (λ d r. send env fuel (suc try) r d) t resp c) (mine try address its)
      ∙ ap (λ s. on_status (λ d r. send env fuel (suc try) r d) s response c) ok
      ∙ ap (λ i. some (returned false response (record c { assumed_leader = i }))) here
  finds (suc d) (suc fuel) try k resp response c (range, ok, mine, others) inside at enough =
      let n = length c.addrs in
      let (address, there) = address_at c.addrs c.assumed_leader inside in
      let other : (c.assumed_leader == k) ≡ false = ground (arith, at) in
      let (r, on) =
        send_again fuel try address resp c there
          (others try c.assumed_leader address other there) in
      let moves = next_index c.assumed_leader n inside in
      on
      ∙ finds d fuel (suc try) k r response (next_server c) (range, ok, mine, others)
          (ground (arith, moves)) (ground (arith, moves, at)) (omega arith)

  -- With a leader among its servers, and every other server saying that it is not the leader or being too
  -- slow, a request ends within as many tries as there are servers, from whichever of them the client
  -- starts: with the leader's answer and no error, and the client asks the leader first the next time.
  pub leader_is_found :
      (fuel k : ℕ) (response : Response) (c : KvClient)
      → Leads c.addrs k response
      → c.assumed_leader < length c.addrs
      → length c.addrs ≤ fuel
      → (request env fuel c ≡ some (response.value, response.key_found, false))
        × (send env fuel 0 (status_response status_invalid) c
            ≡ some (returned false response (record c { assumed_leader = k })))
  unfolding request Leads
  leader_is_found fuel k response c leads inside enough =
      let n = length c.addrs in
      let near : distance n c.assumed_leader k < n = ground (arith, leads.0) in
      let found =
        finds (distance n c.assumed_leader k) fuel 0 k (status_response status_invalid) response c
          leads inside refl (omega arith) in
      (ap result_of found, found)

  -- No server is the leader, as far as their responses say.
  unfoldable pub Leaderless : List String → Type 0
  Leaderless addrs =
      (try i : ℕ) (address : String) (response : Response)
      → get_elem? addrs i ≡ some address
      → env try address ≡ replies response
      → response ≡ status_response status_not_leader

  Empty : Response → Type 0
  Empty resp = (resp.value ≡ "") × (resp.key_found ≡ false)

  -- One turn, where the rest of the loop reports nothing.
  unreported_try :
      (again : KvClient → Response → Option Sent) (t : Try) (resp : Response) (c : KvClient)
      (result : String × Bool × Bool)
      → ((response : Response)
          → t ≡ replies response
          → response ≡ status_response status_not_leader)
      → ((r : Response)
          → Empty r
          → result_of (again (next_server c) r) ≡ some result
          → result ≡ ("", false, false))
      → Empty resp
      → result_of (on_try again t resp c) ≡ some result
      → result ≡ ("", false, false)
  unfolding Empty
  unreported_try again (replies r) resp c result none_leads rest empty e =
      let says = none_leads r refl in
      rest r (ground (arith, says), ground (arith, says))
        (sym (ap (λ s. result_of (on_status again s r c)) (ap (λ r. r.resp_status) says)) ∙ e)
  unreported_try again (fails true d) resp c result none_leads rest empty e =
      ground (arith, e, empty)
  unreported_try again (fails false false) resp c result none_leads rest empty e =
      ground (arith, e, empty)
  unreported_try again (fails false true) resp c result none_leads rest empty e = rest resp empty e

  unreported :
      (fuel try : ℕ) (resp : Response) (c : KvClient) (result : String × Bool × Bool)
      → Leaderless c.addrs
      → Empty resp
      → result_of (send env fuel try resp c) ≡ some result
      → result ≡ ("", false, false)
  unfolding Leaderless Empty send
  unreported zero try resp c result none_leads empty e = cc
  unreported (suc fuel) try resp c result none_leads empty e =
      elim (Option-cases (get_elem? c.addrs c.assumed_leader)) [
        | inl outside ↦ absurd (ground (arith, outside, e))
        | inr (address, at) ↦
            let again : KvClient → Response → Option Sent = λ d r. send env fuel (suc try) r d in
            unreported_try again (env try address) resp c result
              (λ response. none_leads try c.assumed_leader address response at)
              (λ r. unreported fuel (suc try) r (next_server c) result none_leads) empty
              (sym (ap (λ o. result_of (on_address env again try o resp c)) at) ∙ e)
      ]

  -- While every server that answers says that it is not the leader, a request that ends, since the caller's
  -- context is done or a try fails at once, reports no error: the result is an empty value that is not found.
  pub failure_is_not_reported :
      (fuel : ℕ) (c : KvClient)
      → Leaderless c.addrs
      → is_some (request env fuel c) ≡ true
      → request env fuel c ≡ some ("", false, false)
  unfolding request Empty
  failure_is_not_reported fuel c none_leads ends = elim (Option-cases (request env fuel c)) [
    | inl goes_on_for_ever ↦ absurd (ground (arith, ends, goes_on_for_ever))
    | inr (result, e) ↦
        e
        ∙ ap some
            (unreported fuel 0 (status_response status_invalid) c result none_leads (refl, refl) e)
  ]
