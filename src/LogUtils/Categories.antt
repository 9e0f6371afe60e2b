-- ===== src/LogUtils/Categories.antt =====
-- How the classifications of logUtils.ts fit together.
use text.Mathlib.Text.{◌==◌ as str_eq}
use raft_in_motion.Prelude.{
  ◌≡◌, refl, ◌↔◌, ◌⊎◌, inl, inr, Option, some, arith, Bool, true, false, ◌||◌,
}
use raft_in_motion.Value.{Fields}
use raft_in_motion.Types.Enums.{LogMessageType, vote_failure}
use raft_in_motion.LogUtils.{
  log_case, get_log_color, process_activity, election_color, election_activity, color_of,
  activity_of, LogTypeColors, Activity,
}

abbrev has_election_color : LogTypeColors → Bool
has_election_color c = str_eq c.bg election_color.bg

abbrev has_election_text : Activity → Bool
has_election_text a = str_eq a.activity_text election_activity.activity_text

abbrev is_vote_failure : Option LogMessageType → Bool
is_vote_failure (some vote_failure) = true
is_vote_failure _ = false

text-color :
    (o : Option LogMessageType)
    → has_election_text (activity_of o) ≡ (has_election_color (color_of o) || is_vote_failure o)
text-color (some LogMessageType.server_listening) = refl
text-color _ = refl

color_of_bg :
    (o : Option LogMessageType)
    → has_election_color (color_of o) ≡ true
    → color_of o ≡ election_color
color_of_bg (some LogMessageType.server_listening) h = cc
color_of_bg _ h = ground arith

activity_of_text :
    (o : Option LogMessageType)
    → has_election_text (activity_of o) ≡ true
    → activity_of o ≡ election_activity
activity_of_text (some LogMessageType.server_listening) h = cc
activity_of_text _ h = ground arith

is_vote_failure_sound :
    (o : Option LogMessageType) → is_vote_failure o ≡ true → o ≡ some vote_failure
is_vote_failure_sound (some LogMessageType.server_listening) h = cc
is_vote_failure_sound _ h = ground arith

activity-color_of :
    (o : Option LogMessageType)
    → (activity_of o ≡ election_activity)
      ↔ ((color_of o ≡ election_color) ⊎ (o ≡ some vote_failure))
activity-color_of o = (to, back)
  where
    split :
        (a b : Bool)
        → has_election_text (activity_of o) ≡ (a || b)
        → has_election_text (activity_of o) ≡ true
        → (a ≡ true) ⊎ (b ≡ true)
    split a b e h = ground arith

    classify :
        (has_election_color (color_of o) ≡ true) ⊎ (is_vote_failure o ≡ true)
        → (color_of o ≡ election_color) ⊎ (o ≡ some vote_failure)
    classify (inl c) = inl (color_of_bg o c)
    classify (inr f) = inr (is_vote_failure_sound o f)

    to : activity_of o ≡ election_activity → (color_of o ≡ election_color) ⊎ (o ≡ some vote_failure)
    to e = classify (split _ _ (text-color o) (rw e))

    back :
        (color_of o ≡ election_color) ⊎ (o ≡ some vote_failure) → activity_of o ≡ election_activity
    back (inl e) = activity_of_text o (rw (text-color o, e))
    back (inr e) = rw e

-- The activity line says that an election is happening exactly when the bar of the log has the
-- election colour or the log is a vote failure, the one election message whose bar has another
-- colour.
pub process_activity-color :
    (log : Fields)
    → (process_activity log ≡ election_activity)
      ↔ ((get_log_color log ≡ election_color) ⊎ (log_case log ≡ some vote_failure))
unfolding process_activity get_log_color
process_activity-color log = activity-color_of (log_case log)
