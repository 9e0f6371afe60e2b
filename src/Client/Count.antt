-- ===== src/Client/Count.antt =====
-- The number of clients of internal/client/client.go, against the clients whose connection is open.
use raft_in_motion.Prelude.{
  ℕ, zero, suc, String, ◌+◌, ◌-◌, ◌≤◌, ◌≡◌, ◌⊎◌, inl, inr, refl, leb, Bool, true, false, ◌&&◌,
  Option, none, some, List, [], ◌∷◌, ◌++◌, modify, get_elem?, Bool-cases, arith, if◌then◌else◌,
}
use raft_in_motion.Prelude.Int.{ℤ}
use raft_in_motion.Value.{Fields}
use raft_in_motion.Client.{
  Client, Event, log_client_connection, start_writing, step, clean_up, read_error, check_idle,
  check_logs, see_closed, tick, send_batch, receive, receives, read_fails, logged, checks_idle,
  ticks, checks_logs, sees_closed,
}
use raft_in_motion.Client.Handler.{
  Clients, ServerEvent, requests, happens, make_client, handle_web_socket, put_back, happen, serve,
  serve_all,
}

module _ {B : Type 0} where
  -- 1 for a client that CleanUp has not run for.
  abbrev pub counts : Client B → ℕ
  counts c = if c.once then 0 else 1

  abbrev pub live : List (Client B) → ℕ
  live [] = 0
  live (c ∷ cs) = counts c + live cs

  live-append : (cs : List (Client B)) (c : Client B) → live (cs ++ c ∷ []) ≡ live cs + counts c
  live-append [] c = omega arith
  live-append (d ∷ cs) c = omega (arith, live-append cs c)

  pub live-modify :
      (i : ℕ) (c d : Client B) (cs : List (Client B))
      → get_elem? cs i ≡ some c
      → live (modify i (λ e. d) cs) + counts c ≡ live cs + counts d
  live-modify i c d [] at = cc
  live-modify zero c d (x ∷ cs) at = let same : counts x ≡ counts c = ground arith in omega arith
  live-modify (suc i) c d (x ∷ cs) at = omega (arith, live-modify i c d cs at)

  -- What an event does to the counter and to a client: nothing to either, or CleanUp.
  Cleaned : ℕ → Client B → ℕ × Client B → Type 0
  Cleaned n c after =
      ((after.0 ≡ n) × (counts after.1 ≡ counts c))
      ⊎ ((after.0 ≡ n - 1) × (counts c ≡ 1) × (counts after.1 ≡ 0))

  clean_up-Cleaned : (n : ℕ) (c d : Client B) → d.once ≡ c.once → Cleaned n c (clean_up n d)
  unfolding Cleaned clean_up log_client_connection
  clean_up-Cleaned n c d same = elim (Bool-cases c.once) [
    | inl ran ↦ inl (ground arith, ground arith)
    | inr first ↦ inr (ground arith, ground arith, ground arith)
  ]

  same_Cleaned : (n : ℕ) (c d : Client B) → d.once ≡ c.once → Cleaned n c (n, d)
  unfolding Cleaned
  same_Cleaned n c d same = inl (refl, ground arith)

  -- A turn that either runs CleanUp or leaves Once as it was.
  if-Cleaned :
      (n : ℕ) (c : Client B) (b : Bool) (x y : ℕ × Client B)
      → Cleaned n c x
      → Cleaned n c y
      → Cleaned n c (if b then x else y)
  if-Cleaned n c true x y h k = h
  if-Cleaned n c false x y h k = k

  send_batch-Cleaned :
      (unmarshal : B → Option Fields) (ok : Bool) (n : ℕ) (logs : List B) (c d : Client B)
      → d.once ≡ c.once
      → Cleaned n c (send_batch unmarshal ok n logs d)
  unfolding clean_up
  send_batch-Cleaned unmarshal ok n [] c d same = same_Cleaned n c _ same
  send_batch-Cleaned unmarshal true n (e ∷ logs) c d same = same_Cleaned n c _ same
  send_batch-Cleaned unmarshal false n (e ∷ logs) c d same = clean_up-Cleaned n c _ same

  step-Cleaned :
      (unmarshal : B → Option Fields) (e : Event B) (n : ℕ) (c : Client B)
      → Cleaned n c (step unmarshal e n c)
  unfolding step receive read_error check_idle check_logs see_closed tick clean_up
  step-Cleaned unmarshal (receives now msg) n c = same_Cleaned n c _ (ground arith)
  step-Cleaned unmarshal read_fails n c =
      if-Cleaned n c c.reading _ _ (clean_up-Cleaned n c _ refl) (same_Cleaned n c c refl)
  step-Cleaned unmarshal (logged entry) n c = same_Cleaned n c _ refl
  step-Cleaned unmarshal (checks_idle now) n c =
      if-Cleaned n c _ _ _ (clean_up-Cleaned n c _ refl) (same_Cleaned n c c refl)
  step-Cleaned unmarshal (ticks ok now) n c =
      if-Cleaned n c _ _ _ (send_batch-Cleaned unmarshal ok n _ c _ refl) (same_Cleaned n c c refl)
  step-Cleaned unmarshal checks_logs n c = same_Cleaned n c _ (ground arith)
  step-Cleaned unmarshal sees_closed n c =
      if-Cleaned n c _ _ _ (clean_up-Cleaned n c _ refl) (same_Cleaned n c c refl)

  -- The counter: at most 3, and at most the clients that are live.
  pub Counted : Clients B → Type 0
  Counted s = (s.active_clients ≤ 3) × (s.active_clients ≤ live s.clients)

  -- One step of the counter and the number of live clients.
  Moved : ℕ → ℕ → Clients B → Type 0
  Moved n l s =
      ((s.active_clients ≡ n) × (live s.clients ≡ l))
      ⊎ (((s.active_clients ≡ n - 1) × (suc (live s.clients) ≡ l))
          ⊎ ((s.active_clients ≡ (if leb 3 n then n else suc n)) × (live s.clients ≡ suc l)))

  put_back-Moved :
      (i : ℕ) (s : Clients B) (c : Client B) (after : ℕ × Client B)
      → get_elem? s.clients i ≡ some c
      → Cleaned s.active_clients c after
      → Moved s.active_clients (live s.clients) (put_back i s after)
  unfolding Moved Cleaned
  put_back-Moved i s c (n, d) at (inl (same, once)) =
      inl (same, omega (arith, live-modify i c d s.clients at))
  put_back-Moved i s c (n, d) at (inr (less, was, is)) =
      inr (inl (less, omega (arith, live-modify i c d s.clients at)))

  module _ (atoi : String → Option ℤ) (unmarshal : B → Option Fields) where
    happen-Moved :
        (i : ℕ) (e : Event B) (s : Clients B) (o : Option (Client B))
        → get_elem? s.clients i ≡ o
        → Moved s.active_clients (live s.clients) (happen atoi unmarshal i e s o)
    unfolding happen Moved
    happen-Moved i e s none at = inl (refl, refl)
    happen-Moved i e s (some c) at =
        put_back-Moved i s c _ at (step-Cleaned unmarshal e s.active_clients c)

    serve-Moved :
        (e : ServerEvent B) (s : Clients B)
        → Moved s.active_clients (live s.clients) (serve atoi unmarshal e s)
    unfolding Moved serve handle_web_socket log_client_connection start_writing make_client
    serve-Moved (requests simulate upgrades logs) s = ground (
      arith,
      live-append s.clients (start_writing (record (make_client logs) { reading = true })),
    )
    serve-Moved (happens i e) s = happen-Moved i e s (get_elem? s.clients i) refl

    -- The number of live clients never passes 3.
    abbrev pub is_within : List (ServerEvent B) → Clients B → Bool
    is_within [] s = true
    is_within (e ∷ rest) s =
        let after = serve atoi unmarshal e s in leb (live after.clients) 3 && is_within rest after

    serve-Counted :
        (e : ServerEvent B) (s : Clients B) → Counted s → Counted (serve atoi unmarshal e s)
    unfolding Counted Moved
    serve-Counted e s h = ground (arith, serve-Moved e s)

    serve_exact :
        (e : ServerEvent B) (s : Clients B)
        → s.active_clients ≡ live s.clients
        → live (serve atoi unmarshal e s).clients ≤ 3
        → (serve atoi unmarshal e s).active_clients ≡ live (serve atoi unmarshal e s).clients
    unfolding Moved
    serve_exact e s h l = ground (arith, serve-Moved e s)

    -- Through any requests and events of the clients, the counter stays at most 3 and at most the number of
    -- clients that are connected, from a state where it is both.
    pub serve_all-Counted :
        (events : List (ServerEvent B)) (s : Clients B)
        → Counted s
        → Counted (serve_all atoi unmarshal events s)
    unfolding serve_all
    serve_all-Counted [] s h = h
    serve_all-Counted (e ∷ rest) s h =
        serve_all-Counted rest (serve atoi unmarshal e s) (serve-Counted e s h)

    -- As long as no more than 3 clients are connected at once, the counter is the number of connected
    -- clients, whatever loop of a client ends first and however often CleanUp runs for it.
    pub counter_exact :
        (events : List (ServerEvent B)) (s : Clients B)
        → s.active_clients ≡ live s.clients
        → is_within events s ≡ true
        → (serve_all atoi unmarshal events s).active_clients
          ≡ live (serve_all atoi unmarshal events s).clients
    unfolding serve_all
    counter_exact [] s h w = h
    counter_exact (e ∷ rest) s h w =
        counter_exact rest (serve atoi unmarshal e s) (serve_exact e s h (ground arith))
          (ground arith)
