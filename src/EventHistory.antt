-- ===== src/EventHistory.antt =====
-- frontend/src/components/eventHistory.tsx: the current event and the events before it, newest first.
use raft_in_motion.Prelude.{
  ℕ, String, ◌≡◌, refl, ap, sym, ◌∙◌, Option, none, some, List, [], ◌∷◌, ◌++◌, map, length,
  length-append, get_last?, drop_last, subst, ◌⊎◌, inl, inr, arith,
}
use raft_in_motion.Value.{Fields}
use raft_in_motion.LogUtils.{get_log_color, process_log_message}

abbrev pub reverse {ℓ} : {A : Type ℓ} → List A → List A
reverse [] = []
reverse (x ∷ xs) = reverse xs ++ x ∷ []

pub record EventHistory : Type 0 where
  pub events : ℕ  -- the number in the header
  pub color : String  -- logColor.bg
  pub current : Option String  -- the line under "Current Event"
  pub earlier : List String  -- the lines below it

abbrev color_of_last : Option Fields → String
color_of_last none = ""
color_of_last (some log) = (get_log_color log).bg

abbrev line_of_last : Option Fields → Option String
line_of_last none = none
line_of_last (some log) = some (process_log_message log)

-- What is shown for the logs; each `logs.length > 0` is a case of the last log.
unfoldable pub event_history : List Fields → EventHistory
event_history logs = record {
  events = length logs;
  color = color_of_last (get_last? logs);
  current = line_of_last (get_last? logs);
  earlier = map process_log_message (reverse (drop_last logs));
}

-- The lines that are shown, from the top.
abbrev pub lines : EventHistory → List String
lines h = elim h.current [ none ↦ h.earlier | some line ↦ line ∷ h.earlier ]

reverse-append_last : {A : Type 0} (xs : List A) (x : A) → reverse (xs ++ x ∷ []) ≡ x ∷ reverse xs
reverse-append_last [] x = refl
reverse-append_last (y ∷ xs) x = ap (λ zs. zs ++ y ∷ []) (reverse-append_last xs x)

length-reverse : {A : Type 0} (xs : List A) → length (reverse xs) ≡ length xs
length-reverse [] = refl
length-reverse (x ∷ xs) = omega (arith, length-append (reverse xs) (x ∷ []), length-reverse xs)

length-map : {A B : Type 0} (f : A → B) (xs : List A) → length (map f xs) ≡ length xs
length-map f [] = refl
length-map f (x ∷ xs) = omega (arith, length-map f xs)

-- A list is empty, or its last item stands after the others.
last_split :
    {A : Type 0} (xs : List A)
    → (xs ≡ []) ⊎ ((x : A) × (get_last? xs ≡ some x) × (xs ≡ drop_last xs ++ x ∷ []))
last_split [] = inl refl
last_split (x ∷ []) = inr (x, refl, refl)
last_split (x ∷ y ∷ xs) = elim (last_split (y ∷ xs)) [
  | inl e ↦ absurd (cc)
  | inr (z, l, e) ↦ inr (z, l, ap (λ zs. x ∷ zs) e)
]

lines_of_last :
    (logs : List Fields) (x : Fields)
    → get_last? logs ≡ some x
    → logs ≡ drop_last logs ++ x ∷ []
    → lines (event_history logs) ≡ map process_log_message (reverse logs)
unfolding event_history
lines_of_last logs x l e =
    rw l refl
    ∙ ap (map process_log_message) (sym (ap reverse e ∙ reverse-append_last (drop_last logs) x))

lines_of :
    (logs : List Fields) → lines (event_history logs) ≡ map process_log_message (reverse logs)
unfolding event_history
lines_of logs = elim (last_split logs) [
  | inl e ↦ subst (λ l. lines (event_history l) ≡ map process_log_message (reverse l)) (sym e) empty
  | inr (x, l, e) ↦ lines_of_last logs x l e
]
  where
    empty : lines (event_history []) ≡ map process_log_message (reverse [])
    empty = refl

-- Whatever logs the page has, the history shows the line of each, newest first, with no log missing
-- or shown twice although the newest stands apart from the others; and its header counts them.
pub event_history-lines :
    (logs : List Fields)
    → (lines (event_history logs) ≡ map process_log_message (reverse logs))
      × ((event_history logs).events ≡ length (lines (event_history logs)))
unfolding event_history
event_history-lines logs = (
  lines_of logs,
  sym (
      ap length (lines_of logs)
      ∙ length-map process_log_message (reverse logs)
      ∙ length-reverse logs),
)
