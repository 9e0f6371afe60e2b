-- ===== src/Logger.antt =====
-- internal/logger/zlog.go: MemoryLogger, a ring of the last logs. The nodes of container/ring are the
-- positions of a list, and `logs` is the position where the next log is written. An `int` that is
-- never negative is a natural number; the lock is held through each operation.
pub mod Ring
pub mod Flush
pub mod Queue
use raft_in_motion.Prelude.{
  ℕ, zero, suc, ◌-◌, ltb, ◌==◌, Bool, Option, none, some, List, [], ◌∷◌, length, get_elem?, modify,
  replicate, if◌then◌else◌,
}

pub record MemoryLogger (E : Type 0) : Type 0 where
  pub max_logs : ℕ
  pub ring : List (Option E)
  pub logs : ℕ
  pub current_size : ℕ

-- r.Next(), in a ring of n nodes.
abbrev pub next : ℕ → ℕ → ℕ
next n i = if suc i == n then 0 else suc i

-- r.Prev()
abbrev pub prev : ℕ → ℕ → ℕ
prev n zero = n - 1
prev n (suc i) = i

-- r.Move(-k)
abbrev pub move_back : ℕ → ℕ → ℕ → ℕ
move_back n zero i = i
move_back n (suc k) i = move_back n k (prev n i)

abbrev pub min : ℕ → ℕ → ℕ
min a b = if ltb a b then a else b

abbrev size_of : ℕ → ℕ
size_of zero = 150
size_of (suc n) = suc n

module _ {E : Type 0} where
  -- r.Value, `none` for nil.
  abbrev pub value_at : List (Option E) → ℕ → Option E
  value_at [] i = none
  value_at (v ∷ ring) zero = v
  value_at (v ∷ ring) (suc i) = value_at ring i

  -- NewMemoryLogger, where 0 stands for every number that is not positive.
  unfoldable pub new_memory_logger : ℕ → MemoryLogger E
  new_memory_logger max_logs = record {
    max_logs = size_of max_logs;
    ring = replicate (size_of max_logs) none;
    logs = 0;
    current_size = 0;
  }

  unfoldable pub write : E → MemoryLogger E → MemoryLogger E
  write entry ml = record ml {
    current_size = if ltb ml.current_size ml.max_logs then suc ml.current_size else ml.current_size;
    ring = modify ml.logs (λ v. some entry) ml.ring;
    logs = next ml.max_logs ml.logs;
  }

  -- The loop of GetAndFlushLogs: the entries taken, and the ring without them.
  abbrev pub take_logs : ℕ → ℕ → ℕ → List (Option E) → List E × List (Option E)
  take_logs n zero pos ring = ([], ring)
  take_logs n (suc count) pos ring =
      let rest = take_logs n count (next n pos) (modify pos (λ v. none) ring) in
      elim (value_at ring pos) [ none ↦ ([], ring) | some entry ↦ (entry ∷ rest.0, rest.1) ]

  -- GetAndFlushLogs, where 0 stands for every limit that is not positive.
  unfoldable pub get_and_flush_logs : ℕ → MemoryLogger E → List E × MemoryLogger E
  get_and_flush_logs zero ml = ([], ml)
  get_and_flush_logs (suc limit) ml =
      let count = min (suc limit) ml.current_size in
      let oldest = move_back ml.max_logs ml.current_size ml.logs in
      let taken = take_logs ml.max_logs count oldest ml.ring in
      if ml.current_size == 0
      then ([], ml)
      else (taken.0, record ml { ring = taken.1; current_size = ml.current_size - length taken.0 })

  unfoldable pub has_logs : MemoryLogger E → Bool
  has_logs ml = ltb 0 ml.current_size
