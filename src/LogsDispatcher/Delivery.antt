-- ===== src/LogsDispatcher/Delivery.antt =====
-- Every instance receives exactly the logs of its server.
use native.Mathlib.Decide.{ℕ_discrete}
use raft_in_motion.Prelude.{
  ℕ, ◌≡◌, ◌≢◌, refl, ap, sym, ◌∙◌, inl, inr, true, false, Option, none, some, is_some, List, [],
  ◌∷◌, ◌++◌, append_assoc, append-nil, length, drop, drop_all, filter, get_elem?,
  get_elem?-modify_self, get_elem?-modify_ne, leb, ◌==◌, arith, Bool-cases, Option-cases,
  if◌then◌else◌,
}
use raft_in_motion.Prelude.Int.{ℤ, int_eq, int_eq_iff}
use raft_in_motion.Value.{Fields}
use raft_in_motion.LogsDispatcher.{
  LogCallback, LogDispatcher, raft_id, call_for, call_all, process_logs,
}
use raft_in_motion.LogsDispatcher.Inbox.{Inbox, log_callback}
use raft_in_motion.LogsDispatcher.Routes.{
  Routes, ids, has_id, distinct, about, is_about, has_id-get, get-has_id, distinct-get, ids-modify,
  get-ids,
}

-- The instance with these logs more.
abbrev pub receive : List Fields → Inbox → Inbox
receive logs i = record i { server_logs = i.server_logs ++ logs }

abbrev Callbacks : Type 0
Callbacks = List (ℤ × LogCallback (List Inbox))

receive_none : (i : Inbox) → i ≡ receive [] i
receive_none i = ap (λ l. record i { server_logs = l }) (sym (append-nil i.server_logs))

receive-if :
    (log : Fields) (rest : List Fields) (i : Inbox)
    → receive
        (filter (is_about i.raft_id) rest)
        (receive (if is_about i.raft_id log then log ∷ [] else []) i)
      ≡ receive (filter (is_about i.raft_id) (log ∷ rest)) i
receive-if log rest i = elim (Bool-cases (is_about i.raft_id log)) [
  | inl h ↦ rw h (ap (λ l. record i { server_logs = l }) (append_assoc i.server_logs (log ∷ []) _))
  | inr h ↦ rw h (
      ap (λ l. record i { server_logs = l ++ filter (is_about i.raft_id) rest })
        (append-nil i.server_logs))
]

nil_of_length : (l : List Fields) → (length l == 0) ≡ true → l ≡ []
nil_of_length [] h = refl
nil_of_length (x ∷ xs) h = absurd (ground arith)

-- The filter on raftID drops no log that is about a server.
filter_numbered :
    (id : ℤ) (logs : List Fields)
    → filter (is_about id) (filter (λ log. is_some (raft_id log)) logs) ≡ filter (is_about id) logs
filter_numbered id [] = refl
filter_numbered id (log ∷ rest) = elim (Option-cases (raft_id log)) [
  | inl e ↦ rw e (filter_numbered id rest)
  | inr (r, e) ↦ rw e (
      rw (ap (about id) e) (ap (λ l. if int_eq id r then log ∷ l else l) (filter_numbered id rest)))
]

module _ (callbacks : Callbacks) (servers : List ℤ) (routes : Routes callbacks servers)
    (apart : distinct servers ≡ true) where
  -- One call: the instance n receives the log if it is about its server, and nothing else.
  record Receives (o : Option ℤ) (log : Fields) (n : ℕ) (i : Inbox) (after : List Inbox)
      : Type 0 where
    same_ids : ids after ≡ servers
    received : get_elem? after n ≡ some (receive (if about i.raft_id o then log ∷ [] else []) i)

  module _ (log : Fields) (n : ℕ) (i : Inbox) (inboxes : List Inbox) (same : ids inboxes ≡ servers)
      (at_n : get_elem? inboxes n ≡ some i) where
    id_at_n : get_elem? servers n ≡ some i.raft_id
    id_at_n = rw (← same) (get-ids n i inboxes at_n)

    not_about :
        (r : ℤ) (after : List Inbox)
        → ids after ≡ servers
        → get_elem? after n ≡ some i
        → int_eq i.raft_id r ≡ false
        → Receives (some r) log n i after
    not_about r after s at_after e = record {
      same_ids = s;
      received = rw e (at_after ∙ ap some (receive_none i));
    }

    unknown_server : (r : ℤ) → has_id r servers ≡ false → Receives (some r) log n i inboxes
    unknown_server r u =
        not_about r inboxes same at_n
          (ground (arith, get-has_id n i.raft_id servers id_at_n, int_eq_iff i.raft_id r))

    elsewhere : (r : ℤ) (m : ℕ) → get_elem? servers m ≡ some r → m ≢ n → int_eq i.raft_id r ≡ false
    elsewhere r m at_m q = elim (Bool-cases (int_eq i.raft_id r)) [
      | inl e ↦ absurd (
          q (
            distinct-get m n r servers apart at_m
              (id_at_n ∙ ap some ((int_eq_iff i.raft_id r).0 e))))
      | inr e ↦ e
    ]

    known_server :
        (r : ℤ) (m : ℕ)
        → get_elem? servers m ≡ some r
        → Dec (m ≡ n)
        → Receives (some r) log n i (log_callback m log inboxes)
    known_server r m at_m (yes p) = record {
      same_ids = ids-modify m log inboxes ∙ same;
      received =
          let here : i.raft_id ≡ r = cc (id_at_n, at_m, p) in
          rw (p, (int_eq_iff i.raft_id r).1 here) (get_elem?-modify_self n _ inboxes at_n);
    }
    known_server r m at_m (no q) =
        not_about r (log_callback m log inboxes) (ids-modify m log inboxes ∙ same)
          (get_elem?-modify_ne m n _ inboxes q ∙ at_n) (elsewhere r m at_m q)

    call_for-Receives : (o : Option ℤ) → Receives o log n i (call_for callbacks o log inboxes)
    call_for-Receives none = record { same_ids = same; received = at_n ∙ ap some (receive_none i) }
    call_for-Receives (some r) = elim (Bool-cases (has_id r servers)) [
      | inl h ↦
          let (m, at_m) = has_id-get r servers h in
          rw (routes.known m r at_m) (known_server r m at_m (ℕ_discrete m n))
      | inr u ↦ rw (routes.unknown r u) (unknown_server r u)
    ]

  ids-call_for :
      (o : Option ℤ) (log : Fields) (inboxes : List Inbox)
      → ids inboxes ≡ servers
      → ids (call_for callbacks o log inboxes) ≡ servers
  ids-call_for none log inboxes same = same
  ids-call_for (some r) log inboxes same = elim (Bool-cases (has_id r servers)) [
    | inl h ↦
        let (m, at_m) = has_id-get r servers h in
        rw (routes.known m r at_m) (ids-modify m log inboxes ∙ same)
    | inr u ↦ rw (routes.unknown r u) same
  ]

  ids-call_all :
      (logs : List Fields) (inboxes : List Inbox)
      → ids inboxes ≡ servers
      → ids (call_all callbacks logs inboxes) ≡ servers
  unfolding call_all
  ids-call_all [] inboxes same = same
  ids-call_all (log ∷ rest) inboxes same =
      ids-call_all rest (call_for callbacks (raft_id log) log inboxes)
        (ids-call_for (raft_id log) log inboxes same)

  -- All the calls: the instance n receives the logs about its server, in order.
  call_all-inbox :
      (logs : List Fields) (n : ℕ) (i : Inbox) (inboxes : List Inbox)
      → ids inboxes ≡ servers
      → get_elem? inboxes n ≡ some i
      → get_elem? (call_all callbacks logs inboxes) n
        ≡ some (receive (filter (is_about i.raft_id) logs) i)
  unfolding call_all
  call_all-inbox [] n i inboxes same at_n = at_n ∙ ap some (receive_none i)
  call_all-inbox (log ∷ rest) n i inboxes same at_n =
      let step = call_for-Receives log n i inboxes same at_n (raft_id log) in
      call_all-inbox rest n _ _ step.same_ids step.received ∙ ap some (receive-if log rest i)

module _ (logs : List Fields) (d : LogDispatcher (List Inbox)) (servers : List ℤ)
    (routes : Routes d.server_callbacks servers) (apart : distinct servers ≡ true) where
  abbrev pub unprocessed : List Fields
  unprocessed = drop d.unprocessed_from logs

  abbrev numbered : List Fields
  numbered = filter (λ log. is_some (raft_id log)) unprocessed

  nothing :
      (n : ℕ) (i : Inbox) (inboxes : List Inbox) {l : List Fields}
      → get_elem? inboxes n ≡ some i
      → l ≡ []
      → get_elem? inboxes n ≡ some (receive l i)
  nothing n i inboxes at_n e = at_n ∙ ap some (receive_none i ∙ ap (λ l. receive l i) (sym e))

  pub ids-process_logs :
      (inboxes : List Inbox) → ids inboxes ≡ servers → ids (process_logs logs d inboxes).1 ≡ servers
  unfolding process_logs
  ids-process_logs inboxes same =
      ground (arith, ids-call_all d.server_callbacks servers routes apart numbered inboxes same)

  pub process_logs-inbox :
      (n : ℕ) (i : Inbox) (inboxes : List Inbox)
      → ids inboxes ≡ servers
      → get_elem? inboxes n ≡ some i
      → get_elem? (process_logs logs d inboxes).1 n
        ≡ some (receive (filter (is_about i.raft_id) unprocessed) i)
  unfolding process_logs
  process_logs-inbox n i inboxes same at_n =
      elim (Bool-cases (leb (length logs) d.unprocessed_from)) [
        | inl old ↦ rw old (
            nothing n i inboxes at_n
              (ap (filter (is_about i.raft_id)) (drop_all d.unprocessed_from logs (ground arith))))
        | inr new ↦ rw new (elim (Bool-cases (length numbered == 0)) [
          | inl none_left ↦ rw none_left (
              nothing n i inboxes at_n (
                sym (filter_numbered i.raft_id unprocessed)
                ∙ ap (filter (is_about i.raft_id)) (nil_of_length numbered none_left)))
          | inr some_left ↦ rw some_left (
              call_all-inbox d.server_callbacks servers routes apart numbered n i inboxes same at_n
              ∙ ap (λ l. some (receive l i)) (filter_numbered i.raft_id unprocessed))
        ])
      ]
