-- ===== src/GridContext.antt =====
-- frontend/src/context/gridContext.tsx: the colour and the activity of the pixel grid, which follow
-- every tenth log. `string | null` is an Option.
use raft_in_motion.Prelude.{
  ◌*◌, ◌/◌, ◌%◌, ◌==◌, String, ◌≡◌, ◌≢◌, append-nil, append_assoc, refl, ap, sym, ◌∙◌, Option, none,
  some, List, [], ◌∷◌, ◌++◌, length, length-append, take, take_all, take-append_le, get_last?,
  get_last?-append, if◌then◌else◌, Bool-cases, inl, inr, arith,
}
use raft_in_motion.Value.{Fields}
use raft_in_motion.LogUtils.{process_activity}

pub record LogVisualization : Type 0 where
  pub color : Option String
  pub activity : Option String

abbrev pub init : LogVisualization
init = record { color = some "220, 220, 220"; activity = some "Nothing much happenning rn" }

abbrev pub show_latest : Option Fields → LogVisualization → LogVisualization
show_latest none v = v
show_latest (some latest_log) v = record {
  color = some (process_activity latest_log).color;
  activity = some (process_activity latest_log).activity_text;
}

-- The effect on the logs and the connection status.
unfoldable pub effect : List Fields → LogVisualization → LogVisualization
effect logs v =
    if length logs == 0
    then v
    else (if length logs % 10 == 0 then show_latest (get_last? logs) v else v)

-- The logs arrive one after the other, each with a render.
unfoldable pub grow : List Fields → List Fields → LogVisualization → LogVisualization
unfolding effect
grow logs [] v = v
grow logs (log ∷ rest) v = let now = logs ++ log ∷ [] in grow now rest (effect now v)

-- The logs up to the last tenth one.
abbrev pub tenth : List Fields → List Fields
tenth logs = take (length logs / 10 * 10) logs

tenth_full : (logs : List Fields) → length logs % 10 ≡ 0 → tenth logs ≡ logs
tenth_full logs h = ap (λ n. take n logs) (omega arith) ∙ take_all logs

tenth_kept :
    (logs : List Fields) (log : Fields)
    → length (logs ++ log ∷ []) % 10 ≢ 0
    → tenth (logs ++ log ∷ []) ≡ tenth logs
tenth_kept logs log h =
    ap (λ n. take n (logs ++ log ∷ [])) (omega (arith, length-append logs (log ∷ [])))
    ∙ take-append_le (length logs / 10 * 10) logs (log ∷ []) (omega arith)

show_latest_again :
    (log : Fields) (o : Option Fields) (old : LogVisualization)
    → show_latest (some log) (show_latest o old) ≡ show_latest (some log) old
show_latest_again log o old = refl

effect-tenth :
    (logs : List Fields) (log : Fields) (old : LogVisualization)
    → effect (logs ++ log ∷ []) (show_latest (get_last? (tenth logs)) old)
      ≡ show_latest (get_last? (tenth (logs ++ log ∷ []))) old
unfolding effect
effect-tenth logs log old = elim (Bool-cases (length (logs ++ log ∷ []) % 10 == 0)) [
  | inl e ↦ ground (
    arith,
    length-append logs (log ∷ []),
    get_last?-append logs log,
    tenth_full (logs ++ log ∷ []),
  )
  | inr n ↦ ground (arith, tenth_kept logs log)
]

grow-tenth :
    (logs more : List Fields) (old : LogVisualization)
    → grow logs more (show_latest (get_last? (tenth logs)) old)
      ≡ show_latest (get_last? (tenth (logs ++ more))) old
unfolding grow
grow-tenth logs [] old = ap (λ l. show_latest (get_last? (tenth l)) old) (sym (append-nil logs))
grow-tenth logs (log ∷ rest) old =
    ap (grow (logs ++ log ∷ []) rest) (effect-tenth logs log old)
    ∙ grow-tenth (logs ++ log ∷ []) rest old
    ∙ ap (λ l. show_latest (get_last? (tenth l)) old) (append_assoc logs (log ∷ []) rest)

-- Logs that arrive one after the other on a page that had none leave the grid with the colour and
-- the activity of the last one whose number is a multiple of ten, and with what it had before while
-- there are fewer than ten.
pub grow_follows_tenth :
    (logs : List Fields) (old : LogVisualization)
    → grow [] logs old ≡ show_latest (get_last? (take (length logs / 10 * 10) logs)) old
grow_follows_tenth logs old = grow-tenth [] logs old
