-- ===== src/Logger/Flush.antt =====
-- What GetAndFlushLogs of internal/logger/zlog.go takes from the ring.
use raft_in_motion.Prelude.{
  ℕ, zero, suc, ◌+◌, ◌-◌, ◌≤◌, ◌<◌, ◌≡◌, refl, ap, sym, subst, ◌∙◌, ◌==◌, false, Option, none, some,
  List, [], ◌∷◌, length, modify, take, drop, arith, length-modify, length-drop, length-take,
}
use raft_in_motion.Logger.{
  MemoryLogger, next, move_back, value_at, take_logs, get_and_flush_logs, min,
}
use raft_in_motion.Logger.Ring.{wrap, move_back-wrap, Holds, Holds-modify, Holds-start, Represents}

module _ {E : Type 0} where
  take_logs_step :
      (n count at : ℕ) (ring : List (Option E)) (e : E)
      → value_at ring at ≡ some e
      → take_logs n (suc count) at ring ≡ (
        e ∷ (take_logs n count (next n at) (modify at (λ v. none) ring)).0,
        (take_logs n count (next n at) (modify at (λ v. none) ring)).1,
      )
  take_logs_step n count at ring e here = ground (arith, here)

  Taken : ℕ → ℕ → ℕ → List (Option E) → List E → List E × List (Option E) → Type 0
  Taken n count at ring queue taken =
      (taken.0 ≡ take count queue)
      × (length taken.1 ≡ length ring)
      × Holds n taken.1 (wrap n (at + count)) (drop count queue)

  take_logs-Taken :
      (n count at : ℕ) (ring : List (Option E)) (queue : List E)
      → at < n
      → length ring ≡ n
      → length queue ≤ n
      → count ≤ length queue
      → Holds n ring at queue
      → Taken n count at ring queue (take_logs n count at ring)
  unfolding Taken Holds
  take_logs-Taken n zero at ring queue a r q c h =
      (refl, refl, Holds-start n at _ ring queue (ground arith) h)
  take_logs-Taken n (suc count) at ring [] a r q c h = absurd (omega arith)
  take_logs-Taken n (suc count) at ring (e ∷ queue) a r q c (here, h) =
      let emptied = modify at (λ v. none) ring in
      let same = length-modify at (λ v. none) ring in
      let kept = Holds-modify n (next n at) at none ring queue (ground arith) a (ground arith) h in
      let (took, size, rest) =
        take_logs-Taken n count (next n at) emptied queue (ground arith) (same ∙ r) (omega arith)
          (omega arith) kept in
      subst (Taken n (suc count) at ring (e ∷ queue)) (sym (take_logs_step n count at ring e here))
        (
          ap (λ es. e ∷ es) took,
          size ∙ same,
          Holds-start n _ _ _ (drop count queue) (ground arith) rest,
        )

  flush_none :
      (limit : ℕ) (ml : MemoryLogger E)
      → ml.current_size ≡ 0
      → get_and_flush_logs (suc limit) ml ≡ ([], ml)
  unfolding get_and_flush_logs
  flush_none limit ml empty = ground arith

  flush_some :
      (limit : ℕ) (ml : MemoryLogger E)
      → (ml.current_size == 0) ≡ false
      → let taken =
          take_logs ml.max_logs
            (min (suc limit) ml.current_size)
            (move_back ml.max_logs ml.current_size ml.logs)
            ml.ring in
        get_and_flush_logs (suc limit) ml
        ≡ (taken.0, record ml { ring = taken.1; current_size = ml.current_size - length taken.0 })
  unfolding get_and_flush_logs
  flush_some limit ml more = ground (arith, more)

  take-min : (n : ℕ) (xs : List E) → take (min n (length xs)) xs ≡ take n xs
  take-min zero xs = ground arith
  take-min (suc n) [] = ground arith
  take-min (suc n) (x ∷ xs) = ground (arith, take-min n xs)

  drop-min : (n : ℕ) (xs : List E) → drop (min n (length xs)) xs ≡ drop n xs
  drop-min zero xs = ground arith
  drop-min (suc n) [] = ground arith
  drop-min (suc n) (x ∷ xs) = ground (arith, drop-min n xs)

  unfoldable pub Flushed : ℕ → List E → List E × MemoryLogger E → Type 0
  Flushed limit queue flushed =
      (flushed.0 ≡ take limit queue) × Represents flushed.1 (drop limit queue)

  pub get_and_flush_logs-Flushed :
      (limit : ℕ) (ml : MemoryLogger E) (queue : List E)
      → Represents ml queue
      → Flushed limit queue (get_and_flush_logs limit ml)
  unfolding get_and_flush_logs Represents Flushed Taken
  get_and_flush_logs-Flushed zero ml queue h = (refl, h)
  get_and_flush_logs-Flushed (suc limit) ml [] h =
      subst (Flushed (suc limit) []) (sym (flush_none limit ml h.2)) (refl, h)
  get_and_flush_logs-Flushed (suc limit) ml (x ∷ queue) (l, r, s, m, h) =
      let n = ml.max_logs in
      let all = x ∷ queue in
      let count = min (suc limit) ml.current_size in
      let at = move_back n ml.current_size ml.logs in
      let start = move_back-wrap n ml.current_size ml.logs l (omega arith) in
      let (took, size, rest) =
        take_logs-Taken n count at ml.ring all (ground arith) r m (ground arith) h in
      let counted = length-take count all (ground arith) in
      let left = length-drop count all in
      let start' = move_back-wrap n (ml.current_size - count) ml.logs l (omega arith) in
      let smaller : count ≡ min (suc limit) (length all) = ap (min (suc limit)) s in
      let dropped = ap (λ c. drop c all) smaller ∙ drop-min (suc limit) all in
      let one = ap length took ∙ counted in
      let fewer = ap length dropped in
      let position : wrap n (at + count)
          ≡ move_back n (ml.current_size - length (take_logs n count at ml.ring).0) ml.logs =
        ground arith in
      subst (Flushed (suc limit) all) (sym (flush_some limit ml (ground arith))) (
        took ∙ ap (λ c. take c all) smaller ∙ take-min (suc limit) all,
        (
          l,
          size ∙ r,
          omega arith,
          omega arith,
          subst (Holds n _ _) dropped (Holds-start n _ _ _ (drop count all) position rest),
        ),
      )

  pub get_and_flush_logs_max :
      (limit : ℕ) (ml : MemoryLogger E) → (get_and_flush_logs limit ml).1.max_logs ≡ ml.max_logs
  unfolding get_and_flush_logs
  get_and_flush_logs_max zero ml = refl
  get_and_flush_logs_max (suc limit) ml = ground arith
