-- ===== src/Client/Startup.antt =====
-- The memory logger of a new client (internal/ws/handler.go): the last logs of its simulation.
use raft_in_motion.Prelude.{
  ℕ, suc, ◌+◌, ◌-◌, ◌≡◌, inl, inr, refl, ap, sym, subst, ◌∙◌, ltb, false, List, [], ◌∷◌, ◌++◌, drop,
  length, slice_last, Bool-cases, arith, append_assoc, append-nil, length-append, length-drop,
  drop_add, drop-append_le,
}
use raft_in_motion.Logger.{MemoryLogger, new_memory_logger, write}
use raft_in_motion.Logger.Ring.{Represents, enqueue, write-enqueue}
use raft_in_motion.Logger.Queue.{new_memory_logger-Represents}
use raft_in_motion.Client.Handler.{make_client, write_all}

module _ {B : Type 0} where
  enqueue_slice :
      (n : ℕ) (e : B) (xs : List B)
      → enqueue (suc n) e (slice_last (suc n) xs) ≡ slice_last (suc n) (xs ++ e ∷ [])
  enqueue_slice n e xs =
      let m = length xs - suc n in
      let kept = length-drop m xs in
      let longer = length-append xs (e ∷ []) in
      elim (Bool-cases (ltb (length xs) (suc n))) [
        | inl room ↦
            let none_over : m ≡ 0 = ground arith in
            let still : length (xs ++ e ∷ []) - suc n ≡ 0 = ground arith in
            let whole : slice_last (suc n) xs ≡ xs = ap (λ k. drop k xs) none_over in
            ap (enqueue (suc n) e) whole
            ∙ ground arith
            ∙ sym (ap (λ k. drop k (xs ++ e ∷ [])) still)
        | inr full ↦
            let full_size : ltb (length (drop m xs)) (suc n) ≡ false = ground arith in
            let one_more : m + 1 ≡ length (xs ++ e ∷ []) - suc n = ground arith in
            ground (arith, full_size)
            ∙ ap (λ l. l ++ e ∷ []) (drop_add m 1 xs)
            ∙ sym (drop-append_le (m + 1) xs (e ∷ []) (ground arith))
            ∙ ap (λ k. drop k (xs ++ e ∷ [])) one_more
      ]

  write_all-Represents :
      (n : ℕ) (logs seen : List B) (ml : MemoryLogger B)
      → ml.max_logs ≡ suc n
      → Represents ml (slice_last (suc n) seen)
      → Represents (write_all logs ml) (slice_last (suc n) (seen ++ logs))
  unfolding write
  write_all-Represents n [] seen ml m h =
      subst (λ l. Represents ml (slice_last (suc n) l)) (sym (append-nil seen)) h
  write_all-Represents n (e ∷ logs) seen ml m h =
      subst (λ l. Represents (write_all logs (write e ml)) (slice_last (suc n) l))
        (append_assoc seen (e ∷ []) logs)
        (write_all-Represents n logs (seen ++ e ∷ []) (write e ml) m (
          subst (Represents (write e ml))
            (ap (λ k. enqueue k e (slice_last (suc n) seen)) m ∙ enqueue_slice n e seen)
            (write-enqueue e ml (slice_last (suc n) seen) h)))

  pub make_client-Represents :
      (logs : List B) → Represents (make_client logs).logger (slice_last 100 logs)
  unfolding make_client new_memory_logger
  make_client-Represents logs =
      write_all-Represents 99 logs [] (new_memory_logger 100) refl
        (new_memory_logger-Represents 99 (new_memory_logger 100) refl)
