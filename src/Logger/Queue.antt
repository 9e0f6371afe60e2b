-- ===== src/Logger/Queue.antt =====
-- The memory logger of internal/logger/zlog.go is a queue that drops its oldest log when it is full.
use raft_in_motion.Prelude.{
  ℕ, zero, suc, ◌≡◌, refl, ap, sym, subst, ◌∙◌, ltb, Bool, Option, none, List, [], ◌∷◌, length,
  take, drop, replicate, arith,
}
use raft_in_motion.Logger.{MemoryLogger, new_memory_logger, write, get_and_flush_logs, has_logs}
use raft_in_motion.Logger.Ring.{Represents, Holds, enqueue, write-enqueue}
use raft_in_motion.Logger.Flush.{Flushed, get_and_flush_logs-Flushed, get_and_flush_logs_max}

-- The operations of a memory logger, and what they return.
pub data Operation (E : Type 0) : Type 0 where
  written : E → Operation E
  flushed : ℕ → Operation E
  asked : Operation E

pub data Answer (E : Type 0) : Type 0 where
  done : Answer E
  logs : List E → Answer E
  present : Bool → Answer E

module _ {E : Type 0} where
  abbrev pub apply : Operation E → MemoryLogger E → Answer E × MemoryLogger E
  apply (written e) ml = (done, write e ml)
  apply (flushed limit) ml = let taken = get_and_flush_logs limit ml in (logs taken.0, taken.1)
  apply asked ml = (present (has_logs ml), ml)

  abbrev pub apply_queue : ℕ → Operation E → List E → Answer E × List E
  apply_queue max_logs (written e) queue = (done, enqueue max_logs e queue)
  apply_queue max_logs (flushed limit) queue = (logs (take limit queue), drop limit queue)
  apply_queue max_logs asked queue = (present (ltb 0 (length queue)), queue)

  abbrev pub run : List (Operation E) → MemoryLogger E → List (Answer E)
  run [] ml = []
  run (op ∷ ops) ml = let (answer, after) = apply op ml in answer ∷ run ops after

  abbrev pub run_queue : ℕ → List (Operation E) → List E → List (Answer E)
  run_queue max_logs [] queue = []
  run_queue max_logs (op ∷ ops) queue =
      let (answer, after) = apply_queue max_logs op queue in answer ∷ run_queue max_logs ops after

  Applied : ℕ → Answer E × MemoryLogger E → Answer E × List E → Type 0
  Applied n ring queue = (ring.0 ≡ queue.0) × Represents ring.1 queue.1 × (ring.1.max_logs ≡ n)

  apply-Applied :
      (op : Operation E) (ml : MemoryLogger E) (queue : List E)
      → Represents ml queue
      → Applied ml.max_logs (apply op ml) (apply_queue ml.max_logs op queue)
  unfolding Applied write has_logs Represents Flushed
  apply-Applied (written e) ml queue h = (refl, write-enqueue e ml queue h, refl)
  apply-Applied (flushed limit) ml queue h =
      let (took, rest) = get_and_flush_logs-Flushed limit ml queue h in
      (ap logs took, rest, get_and_flush_logs_max limit ml)
  apply-Applied asked ml queue h = (ap (λ n. present (ltb 0 n)) h.2, h, refl)

  run-queue_from :
      (ops : List (Operation E)) (n : ℕ) (ml : MemoryLogger E) (queue : List E)
      → ml.max_logs ≡ n
      → Represents ml queue
      → run ops ml ≡ run_queue n ops queue
  unfolding Applied
  run-queue_from [] n ml queue m h = refl
  run-queue_from (op ∷ ops) n ml queue m h =
      let (answer, rest, max) =
        subst (λ k. Applied k (apply op ml) (apply_queue k op queue)) m
          (apply-Applied op ml queue h) in
      ap (λ a. a ∷ run ops (apply op ml).1) answer
      ∙ ap (λ rest. (apply_queue n op queue).0 ∷ rest)
          (run-queue_from ops n (apply op ml).1 _ max rest)

  length-replicate : (n : ℕ) (v : Option E) → length (replicate n v) ≡ n
  length-replicate zero v = refl
  length-replicate (suc n) v = ap suc (length-replicate n v)

  pub new_memory_logger-Represents :
      (n : ℕ) (ml : MemoryLogger E) → ml ≡ new_memory_logger (suc n) → Represents ml []
  unfolding Represents new_memory_logger Holds
  new_memory_logger-Represents n ml same =
      subst (λ m. Represents m []) (sym same)
        (omega arith, length-replicate (suc n) none, refl, omega arith, refl)

  -- A memory logger made for n logs, n positive, answers every sequence of writes, flushes and
  -- questions whether there are logs as a queue does that takes n logs at most: a write to a full
  -- queue drops its oldest log, and a flush takes the oldest ones, up to its limit, in order.
  pub memory_logger-queue :
      (n : ℕ) (ops : List (Operation E))
      → run ops (new_memory_logger (suc n)) ≡ run_queue (suc n) ops []
  unfolding new_memory_logger
  memory_logger-queue n ops =
      run-queue_from ops (suc n) (new_memory_logger (suc n)) [] refl
        (new_memory_logger-Represents n (new_memory_logger (suc n)) refl)
