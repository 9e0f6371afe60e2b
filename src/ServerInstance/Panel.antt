-- ===== src/ServerInstance/Panel.antt =====
-- The bars of a panel through everything that happens to it.
use raft_in_motion.Prelude.{
  ℕ, ◌-◌, ◌≤◌, ◌≡◌, refl, ◌∙◌, inl, inr, String, true, not, Option, none, some, List, [], ◌∷◌, ◌++◌,
  length, length-drop, length-filter-le, get_last?, has, ◌==◌, Bool-cases, arith,
}
use raft_in_motion.Prelude.Int.{ℤ}
use raft_in_motion.Value.{Fields, property}
use raft_in_motion.Types.Enums.{LogMessageType, message_case}
use raft_in_motion.ServerInstance.{
  LogBarData, ServerInstance, Event, receives, connects, animation_starts, timeout_fires, init,
  latest, switch_message, log_processor, ids, limited, new_id, new_bar, add_log_bar,
  handle_bar_exit, process_log, server_logs_changed, start_connecting, visible_bars, step, run,
}
use raft_in_motion.LogProcessorService.{
  process_state_transition, process_election_won, process_leader_connection, process_disconnection,
}
use raft_in_motion.ServerInstance.Bars.{
  increasing, increasing-filter, WellFormed, add_log_bar-WellFormed,
}

-- What a panel keeps of its bars and its height.
abbrev SameBars : ServerInstance → ServerInstance → Type 0
SameBars s t = (s.bars ≡ t.bars) × (s.container_height ≡ t.container_height) × (s.exits ≡ t.exits)

switch_message-bars :
    (m : Option LogMessageType) (log : Fields) (s : ServerInstance)
    → SameBars (switch_message m (log_processor s.raft_id) log s) s
unfolding process_state_transition process_election_won process_leader_connection
    process_disconnection
switch_message-bars m log s = ground arith

add_log_bar-bars :
    (now : String) (log : Fields) (s : ServerInstance)
    → ((add_log_bar now log s).bars
        ≡ limited s.bars ++ new_bar (new_id (limited s.bars)) now log ∷ [])
      × ((add_log_bar now log s).container_height ≡ s.container_height)
unfolding add_log_bar
add_log_bar-bars now log s = (refl, refl)

pub process_log-bars :
    (now : String) (log : Fields) (s : ServerInstance)
    → SameBars (process_log now log s) (add_log_bar now log s)
unfolding process_log add_log_bar
process_log-bars now log s =
    switch_message-bars (message_case (property "message" log)) log (add_log_bar now log s)

-- The shape of a panel.
record Sound (s : ServerInstance) : Type 0 where
  bars : WellFormed s
  height : s.container_height ≡ 150

process_log-Sound :
    (now : String) (log : Fields) (s : ServerInstance) → Sound s → Sound (process_log now log s)
process_log-Sound now log s v =
    let (b, h, _) = process_log-bars now log s in
    let w = add_log_bar-WellFormed now log s v.bars in
    record {
      bars = record { ordered = rw b w.ordered; few = rw b w.few };
      height = h ∙ (add_log_bar-bars now log s).1 ∙ v.height;
    }

server_logs_changed-Sound :
    (now : String) (logs : List Fields) (s : ServerInstance)
    → Sound s
    → Sound (server_logs_changed now logs s)
unfolding server_logs_changed
server_logs_changed-Sound now logs s v = go (get_last? logs)
  where
    go : (o : Option Fields) → Sound (latest now o s)
    go none = v
    go (some log) = process_log-Sound now log s v

handle_bar_exit-Sound : (id : ℕ) (s : ServerInstance) → Sound s → Sound (handle_bar_exit id s)
unfolding handle_bar_exit
handle_bar_exit-Sound id s v =
    let keep = λ (bar : LogBarData). not (bar.id == id) in
    record {
      bars = record {
        ordered = increasing-filter keep s.bars v.bars.ordered;
        few = omega (arith, length-filter-le keep s.bars, v.bars.few);
      };
      height = v.height;
    }

step-Sound : (e : Event) (s : ServerInstance) → Sound s → Sound (step e s)
unfolding step start_connecting
step-Sound (receives now logs) s v = server_logs_changed-Sound now logs s v
step-Sound connects s v = record {
  bars = record { ordered = refl; few = omega arith };
  height = refl;
}
step-Sound (animation_starts id) s v = ground (arith, v.bars.ordered, v.bars.few)
step-Sound (timeout_fires id) s v = elim (Bool-cases (has id s.exits)) [
  | inl h ↦ rw h (
      handle_bar_exit-Sound id _ (record {
        bars = record { ordered = v.bars.ordered; few = v.bars.few };
        height = v.height;
      }))
  | inr h ↦ rw h v
]

run-Sound : (events : List Event) (s : ServerInstance) → Sound s → Sound (run events s)
unfolding run
run-Sound [] s v = v
run-Sound (e ∷ rest) s v = run-Sound rest (step e s) (step-Sound e s v)

init-Sound : (id : ℤ) → Sound (init id)
init-Sound id = record { bars = record { ordered = refl; few = omega arith }; height = refl }

-- In every state that the panel of a server can reach, the ids of its bars increase from each to the
-- next, so that no two have the same key, there are at most 24 bars, and at most 8 are shown.
pub bars_bounded :
    (raft_id : ℤ) (events : List Event)
    → let s = run events (init raft_id) in
      (increasing (ids s.bars) ≡ true) × (length s.bars ≤ 24) × (length (visible_bars s) ≤ 8)
unfolding visible_bars
bars_bounded raft_id events =
    let s = run events (init raft_id) in
    let v = run-Sound events (init raft_id) (init-Sound raft_id) in
    (
      v.bars.ordered,
      v.bars.few,
      rw v.height (omega (arith, length-drop (length s.bars - 8) s.bars)),
    )
