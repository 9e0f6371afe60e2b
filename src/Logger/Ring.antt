-- ===== src/Logger/Ring.antt =====
-- The ring of internal/logger/zlog.go against a queue that drops its oldest log when it is full.
use raft_in_motion.Prelude.{
  Bool-cases, inl, inr, ℕ, zero, suc, ◌+◌, ◌-◌, ◌≤◌, ◌<◌, ◌≡◌, refl, ap, sym, subst, ◌∙◌, ltb, ◌==◌,
  false, Option, some, List, [], ◌∷◌, ◌++◌, length, modify, drop, arith, length-modify,
  length-append, if◌then◌else◌,
}
use raft_in_motion.Logger.{MemoryLogger, next, move_back, value_at, write}

-- Position i + j in a ring of n nodes, for i and j up to n.
abbrev pub wrap : ℕ → ℕ → ℕ
wrap n s = if ltb s n then s else s - n

pub move_back-wrap : (n k i : ℕ) → i < n → k ≤ n → move_back n k i ≡ wrap n (i + (n - k))
move_back-wrap n zero i h l = ground arith
move_back-wrap n (suc k) zero h l = ground (arith, move_back-wrap n k (n - 1))
move_back-wrap n (suc k) (suc i) h l = ground (arith, move_back-wrap n k i)

module _ {E : Type 0} where
  value_at-modify_self :
      (i : ℕ) (v : Option E) (ring : List (Option E))
      → i < length ring
      → value_at (modify i (λ w. v) ring) i ≡ v
  value_at-modify_self i v [] h = absurd (omega arith)
  value_at-modify_self zero v (w ∷ ring) h = refl
  value_at-modify_self (suc i) v (w ∷ ring) h = value_at-modify_self i v ring (omega arith)

  value_at-modify_ne :
      (i j : ℕ) (v : Option E) (ring : List (Option E))
      → (i == j) ≡ false
      → value_at (modify i (λ w. v) ring) j ≡ value_at ring j
  value_at-modify_ne i j v [] h = refl
  value_at-modify_ne zero zero v (w ∷ ring) h = absurd (ground arith)
  value_at-modify_ne zero (suc j) v (w ∷ ring) h = refl
  value_at-modify_ne (suc i) zero v (w ∷ ring) h = refl
  value_at-modify_ne (suc i) (suc j) v (w ∷ ring) h = value_at-modify_ne i j v ring (ground arith)

  -- The nodes from a position on hold these entries.
  unfoldable pub Holds : ℕ → List (Option E) → ℕ → List E → Type 0
  Holds n ring at [] = at ≡ at
  Holds n ring at (e ∷ es) = (value_at ring at ≡ some e) × Holds n ring (next n at) es

  -- A ring stands for a queue: the entries behind the position of the next log.
  unfoldable pub Represents : MemoryLogger E → List E → Type 0
  Represents ml queue =
      (ml.logs < ml.max_logs)
      × (length ml.ring ≡ ml.max_logs)
      × (ml.current_size ≡ length queue)
      × (length queue ≤ ml.max_logs)
      × Holds ml.max_logs ml.ring (move_back ml.max_logs ml.current_size ml.logs) queue

  -- A write elsewhere in the ring changes nothing for these entries.
  pub Holds-modify :
      (n at i : ℕ) (v : Option E) (ring : List (Option E)) (es : List E)
      → at < n
      → i < n
      → length es ≤ wrap n (i + (n - at))
      → Holds n ring at es
      → Holds n (modify i (λ w. v) ring) at es
  unfolding Holds
  Holds-modify n at i v ring [] a b l h = refl
  Holds-modify n at i v ring (e ∷ es) a b l (here, rest) = (
    value_at-modify_ne i at v ring (ground arith) ∙ here,
    Holds-modify n (next n at) i v ring es (ground arith) b (ground arith) rest,
  )

  -- An entry that follows the last of these.
  Holds-append :
      (n at : ℕ) (ring : List (Option E)) (es : List E) (e : E)
      → at < n
      → length es < n
      → Holds n ring at es
      → value_at ring (wrap n (at + length es)) ≡ some e
      → Holds n ring at (es ++ e ∷ [])
  unfolding Holds
  Holds-append n at ring [] e a l h last =
      let same : wrap n (at + 0) ≡ at = ground arith in (sym (ap (value_at ring) same) ∙ last, refl)
  Holds-append n at ring (x ∷ es) e a l (here, rest) last =
      let same : wrap n (at + suc (length es)) ≡ wrap n (next n at + length es) = ground arith in
      (
        here,
        Holds-append n (next n at) ring es e (ground arith) (omega arith) rest
            (sym (ap (value_at ring) same) ∙ last),
      )

  -- The queue: at most `max_logs` entries, and the oldest makes room for the new one.
  abbrev pub enqueue : ℕ → E → List E → List E
  enqueue max_logs entry queue =
      if ltb (length queue) max_logs then queue ++ entry ∷ [] else drop 1 queue ++ entry ∷ []

  pub Holds-start :
      (n at b : ℕ) (ring : List (Option E)) (es : List E)
      → at ≡ b
      → Holds n ring at es
      → Holds n ring b es
  Holds-start n at b ring es same h = subst (λ i. Holds n ring i es) same h

  write-room :
      (e : E) (ml : MemoryLogger E) (queue : List E)
      → length queue < ml.max_logs
      → Represents ml queue
      → Represents (write e ml) (queue ++ e ∷ [])
  unfolding Represents write
  write-room e ml queue room (l, r, s, m, h) =
      let n = ml.max_logs in
      let i = ml.logs in
      let at = move_back n ml.current_size i in
      let ring = modify i (λ v. some e) ml.ring in
      let start = move_back-wrap n ml.current_size i l (omega arith) in
      let start' = move_back-wrap n (suc ml.current_size) (next n i) (ground arith) (omega arith) in
      let longer = length-append queue (e ∷ []) in
      let last : wrap n (at + length queue) ≡ i = ground arith in
      let value = ap (value_at ring) last ∙ value_at-modify_self i (some e) ml.ring (omega arith) in
      let kept = Holds-modify n at i (some e) ml.ring queue (ground arith) l (ground arith) h in
      let all = Holds-append n at ring queue e (ground arith) room kept value in
      (
        ground arith,
        length-modify i (λ v. some e) ml.ring ∙ r,
        ground arith,
        omega arith,
        Holds-start n at _ ring (queue ++ e ∷ []) (ground arith) all,
      )

  write-full :
      (e x : E) (ml : MemoryLogger E) (queue : List E)
      → length (x ∷ queue) ≡ ml.max_logs
      → Represents ml (x ∷ queue)
      → Represents (write e ml) (queue ++ e ∷ [])
  unfolding Represents write Holds
  write-full e x ml queue full (l, r, s, m, (first, h)) =
      let n = ml.max_logs in
      let i = ml.logs in
      let at = next n (move_back n ml.current_size i) in
      let ring = modify i (λ v. some e) ml.ring in
      let start = move_back-wrap n ml.current_size i l (omega arith) in
      let start' = move_back-wrap n ml.current_size (next n i) (ground arith) (omega arith) in
      let longer = length-append queue (e ∷ []) in
      let last : wrap n (at + length queue) ≡ i = ground arith in
      let value = ap (value_at ring) last ∙ value_at-modify_self i (some e) ml.ring (omega arith) in
      let kept = Holds-modify n at i (some e) ml.ring queue (ground arith) l (ground arith) h in
      let all = Holds-append n at ring queue e (ground arith) (omega arith) kept value in
      (
        ground arith,
        length-modify i (λ v. some e) ml.ring ∙ r,
        ground arith,
        omega arith,
        Holds-start n at _ ring (queue ++ e ∷ []) (ground arith) all,
      )

  write-full_queue :
      (e : E) (ml : MemoryLogger E) (queue : List E)
      → ltb (length queue) ml.max_logs ≡ false
      → Represents ml queue
      → Represents (write e ml) (drop 1 queue ++ e ∷ [])
  unfolding Represents
  write-full_queue e ml [] full h = absurd (ground (arith, h.0))
  write-full_queue e ml (x ∷ queue) full h = write-full e x ml queue (ground (arith, h.3)) h

  pub write-enqueue :
      (e : E) (ml : MemoryLogger E) (queue : List E)
      → Represents ml queue
      → Represents (write e ml) (enqueue ml.max_logs e queue)
  write-enqueue e ml queue h = elim (Bool-cases (ltb (length queue) ml.max_logs)) [
    | inl room ↦ rw room (write-room e ml queue (ground arith) h)
    | inr full ↦ rw full (write-full_queue e ml queue full h)
  ]
