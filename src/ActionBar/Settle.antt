-- ===== src/ActionBar/Settle.antt =====
-- The renders of the action bar come to rest, and on which status.
use raft_in_motion.Prelude.{
  ℕ, ◌≡◌, sym, subst, inl, inr, suc, Bool-cases, true, false, leb, ltb, arith, if◌then◌else◌,
}
use raft_in_motion.LogsContext.Page.{ConnectionStatus}
use raft_in_motion.SimulateButton.{ButtonStatus, idle, connecting, failed, simulating, cancel}
use raft_in_motion.ActionBar.{
  ActionBar, Deps, Event, effect, up_to_date, run_effect, settle, handle, step,
}

-- The effect has run on what the last render shows, it would change nothing, and no timeout is left.
pub record Settled (bar : ActionBar) : Type 0 where
  pub ran : up_to_date bar.ran bar.now ≡ true
  pub fixed : effect bar.now.status bar.now.count bar.now.button ≡ (bar.now.button, false)
  pub no_timeout : bar.timer ≡ false

-- The status of the button after a render with these values, from its status before.
abbrev pub shown : ConnectionStatus → ℕ → ButtonStatus → ButtonStatus
shown ConnectionStatus.connecting count button = connecting
shown ConnectionStatus.connected count button =
    if ltb 0 count then (if leb 10 count then cancel else simulating) else button
shown ConnectionStatus.disconnected count connecting = failed
shown ConnectionStatus.disconnected count failed = failed
shown ConnectionStatus.disconnected count _ = idle

-- The deps that a bar settles on.
abbrev shown_deps : Deps → Deps
shown_deps d = record d { button = shown d.status d.count d.button }

settle_rested :
    (rounds : ℕ) (bar : ActionBar)
    → up_to_date bar.ran bar.now ≡ true
    → settle (suc rounds) bar ≡ bar
unfolding settle
settle_rested rounds bar u = rw u

settle_ran :
    (rounds : ℕ) (bar : ActionBar)
    → up_to_date bar.ran bar.now ≡ false
    → settle (suc rounds) bar ≡ settle rounds (run_effect bar)
unfolding settle
settle_ran rounds bar u = rw u

after_effect :
    (bar : ActionBar)
    → Settled (settle 2 (run_effect bar)) × ((settle 2 (run_effect bar)).now ≡ shown_deps bar.now)
unfolding settle run_effect
after_effect bar = ground arith

handle-Settled :
    (e : Event) (bar : ActionBar)
    → Settled bar
    → up_to_date (handle e bar).ran (handle e bar).now ≡ true
    → Settled (handle e bar) × ((handle e bar).now ≡ shown_deps (handle e bar).now)
unfolding handle
handle-Settled (Event.context_changes status count) bar v u = ground arith
handle-Settled (Event.selects action) bar v u = ground arith
handle-Settled Event.toggles bar v u = ground arith
handle-Settled Event.timeout_fires bar v u = ground arith

abbrev Rests : ActionBar → ActionBar → Type 0
Rests bar after = Settled after × (after.now ≡ shown_deps bar.now)

settle-Rests :
    (bar : ActionBar)
    → (up_to_date bar.ran bar.now ≡ true → Rests bar bar)
    → Rests bar (settle 3 bar)
settle-Rests bar ready = elim (Bool-cases (up_to_date bar.ran bar.now)) [
  | inl u ↦ subst (Rests bar) (sym (settle_rested 2 bar u)) (ready u)
  | inr n ↦ subst (Rests bar) (sym (settle_ran 2 bar n)) (after_effect bar)
]

-- From a bar at rest, every event leads to a bar at rest: three rounds of rendering are always
-- enough. The effect has then run on what is shown and would change nothing, no timeout is pending,
-- and the button shows `connecting` while connecting; `cancel` from ten logs on and `simulating`
-- with fewer while connected, unchanged with none; and while disconnected `failed` if it showed
-- `connecting` or `failed`, else `idle`.
pub step-Settled :
    (e : Event) (bar : ActionBar)
    → Settled bar
    → let d = (handle e bar).now in
      Settled (step e bar)
      × ((step e bar).now ≡ record d { button = shown d.status d.count d.button })
unfolding step
step-Settled e bar v = settle-Rests (handle e bar) (handle-Settled e bar v)
