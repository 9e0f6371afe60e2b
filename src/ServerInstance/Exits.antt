-- ===== src/ServerInstance/Exits.antt =====
-- Which bar a panel gains with a log, and which it loses with a timeout.
use raft_in_motion.Prelude.{
  ℕ, ◌+◌, ◌-◌, ◌/◌, ◌≤◌, ◌<◌, ◌≡◌, refl, ap, inl, inr, String, true, not, some, List, [], ◌∷◌, ◌++◌,
  length, length-append, filter, drop, get_last?, get_last?-append, has, ◌==◌, Bool-cases, arith,
  drop-append_le,
}
use raft_in_motion.Value.{Fields}
use raft_in_motion.ServerInstance.{
  LogBarData, ServerInstance, receives, connects, timeout_fires, ids, limited, new_id, new_bar,
  add_log_bar, handle_bar_exit, process_log, server_logs_changed, start_connecting, visible_bars,
  step, run,
}
use raft_in_motion.ServerInstance.Bars.{increasing, above, increasing-tail, increasing-above}
use raft_in_motion.ServerInstance.Panel.{process_log-bars}

drop_few :
    (n : ℕ) (bars : List LogBarData) (bar : LogBarData)
    → n ≤ length bars
    → get_last? (drop n (bars ++ bar ∷ [])) ≡ some bar
drop_few n bars bar h = rw (drop-append_le n bars (bar ∷ []) h) (get_last?-append (drop n bars) bar)

-- While the container is at least one pixel high, the last bar that is shown after a log is
-- processed is the one made from this log: its colour, its text, its speed and the time.
pub newest_is_visible :
    (now : String) (log : Fields) (s : ServerInstance)
    → 0 < s.container_height
    → get_last? (visible_bars (process_log now log s))
      ≡ some (new_bar (new_id (limited s.bars)) now log)
unfolding visible_bars add_log_bar
newest_is_visible now log s h =
    let bars = limited s.bars in
    let bar = new_bar (new_id bars) now log in
    let (b, c, _) = process_log-bars now log s in
    rw (b, c)
      (drop_few (length (bars ++ bar ∷ []) - (s.container_height + 19) / 20) bars bar
        (omega (arith, length-append bars (bar ∷ []))))

keep_above :
    (id : ℕ) (bars : List LogBarData)
    → above id (ids bars) ≡ true
    → filter (λ bar. not (bar.id == id)) bars ≡ bars
keep_above id [] a = refl
keep_above id (b ∷ rest) a = ground (arith, keep_above id rest)

-- The bars less the one with this id, of which there is one at most.
removed :
    (id : ℕ) (bars : List LogBarData)
    → increasing (ids bars) ≡ true
    → has id (ids bars) ≡ true
    → (before after : List LogBarData) × (bar : LogBarData) × (bar.id ≡ id)
      × (bars ≡ before ++ bar ∷ after)
      × (filter (λ b. not (b.id == id)) bars ≡ before ++ after)
removed id [] i h = cc
removed id (b ∷ rest) i h = elim (Bool-cases (b.id == id)) [
  | inl e ↦ (
    [],
    rest,
    b,
    ground arith,
    refl,
    rw e (keep_above id rest (ground (arith, increasing-above b.id (ids rest) i))),
  )
  | inr n ↦
      (let (before, after, bar, same, split, less) =
          removed id rest (increasing-tail b.id (ids rest) i) (ground arith) in
        (b ∷ before, after, bar, same, ap (λ l. b ∷ l) split, rw n (ap (λ l. b ∷ l) less)))
]

-- Where the ids of the bars increase, the exit of an id that a bar has removes this bar alone and
-- keeps the others in order.
pub exit_removes_one :
    (id : ℕ) (s : ServerInstance)
    → increasing (ids s.bars) ≡ true
    → has id (ids s.bars) ≡ true
    → (before after : List LogBarData) × (bar : LogBarData) × (bar.id ≡ id)
      × (s.bars ≡ before ++ bar ∷ after)
      × ((handle_bar_exit id s).bars ≡ before ++ after)
unfolding handle_bar_exit
exit_removes_one id s i h = removed id s.bars i h

-- Where a bar with id 1 still has its timeout when a connection starts, that timeout removes the
-- first bar of the new connection, which has the same id, at whatever time it fires.
pub stale_timeout :
    (now : String) (log : Fields) (s : ServerInstance)
    → has 1 s.exits ≡ true
    → ((run (connects ∷ receives now (log ∷ []) ∷ []) s).bars ≡ new_bar 1 now log ∷ [])
      × ((run (connects ∷ receives now (log ∷ []) ∷ timeout_fires 1 ∷ []) s).bars ≡ [])
unfolding run step start_connecting server_logs_changed handle_bar_exit add_log_bar
stale_timeout now log s h =
    let (b, _, e) = process_log-bars now log (start_connecting s) in
    (b, rw e (rw h (ap (filter (λ bar. not (bar.id == 1))) b)))
