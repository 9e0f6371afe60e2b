-- ===== src/Kv/Log.antt =====
-- The store of internal/kv/server/store.go against the commands that were applied to it: a value is
-- that of the last put of its key.
use text.Mathlib.Text.{◌==◌ as str_eq}
use raft_in_motion.Prelude.{
  String, ◌≡◌, refl, ap, ◌∙◌, Bool, true, false, ◌&&◌, Option, none, some, List, [], ◌∷◌, ◌++◌,
  arith, if◌then◌else◌,
}
use raft_in_motion.Kv.{
  Command, CommandKind, command_get, command_put, command_invalid, DataStore, lookup, get, put,
  with_result, apply_command,
}

abbrev pub is_put : CommandKind → Bool
is_put command_put = true
is_put _ = false

abbrev pub is_valid : CommandKind → Bool
is_valid command_invalid = false
is_valid _ = true

-- The value of the last put of a key, or `earlier` if there is none.
abbrev pub last_put : String → List Command → Option String → Option String
last_put key [] earlier = earlier
last_put key (cmd ∷ rest) earlier =
    last_put key rest (if is_put cmd.kind && str_eq key cmd.key then some cmd.value else earlier)

abbrev pub then_apply :
    (DataStore → Option DataStore) → Option (Command × DataStore) → Option DataStore
then_apply rest none = none
then_apply rest (some (cmd, ds)) = rest ds

-- The store after some commands, `none` where the updater panics.
abbrev pub apply_all : List Command → DataStore → Option DataStore
apply_all [] ds = some ds
apply_all (cmd ∷ rest) ds = then_apply (apply_all rest) (apply_command cmd ds)

abbrev pub all_valid : List Command → Bool
all_valid [] = true
all_valid (cmd ∷ rest) = is_valid cmd.kind && all_valid rest

-- What a command does to the store and to its result.
unfoldable pub Applies : Command → DataStore → Option (Command × DataStore) → Type 0
Applies cmd ds result =
    (after : DataStore) × (result ≡ some (with_result cmd (lookup (ds cmd.key)), after))
    × ((key : String) → after key ≡ last_put key (cmd ∷ []) (ds key))

pub apply_command-Applies :
    (cmd : Command) (kind : CommandKind) (ds : DataStore)
    → cmd.kind ≡ kind
    → is_valid kind ≡ true
    → Applies cmd ds (apply_command cmd ds)
unfolding apply_command Applies get put
apply_command-Applies cmd command_invalid ds k v = cc
apply_command-Applies cmd command_get ds k v = (ds, ground (arith, k), λ key. ground (arith, k))
apply_command-Applies cmd command_put ds k v =
    ((put cmd.key cmd.value ds).1, ground (arith, k), λ key. ground (arith, k))

-- The updater applies any commands that are gets and puts, and then the store has for each key the value
-- of its last put, or what it had before where there is none.
pub apply_all-last_put :
    (cmds : List Command) (ds : DataStore)
    → all_valid cmds ≡ true
    → (after : DataStore) × (apply_all cmds ds ≡ some after)
      × ((key : String) → after key ≡ last_put key cmds (ds key))
unfolding Applies
apply_all-last_put [] ds v = (ds, refl, λ key. refl)
apply_all-last_put (cmd ∷ rest) ds v =
    let (next, applied, now) = apply_command-Applies cmd cmd.kind ds refl (ground arith) in
    let (after, all, later) = apply_all-last_put rest next (ground arith) in
    (
      after,
      ap (then_apply (apply_all rest)) applied ∙ all,
      λ key. later key ∙ ap (last_put key rest) (now key),
    )

pub last_put-append :
    (key : String) (xs ys : List Command) (earlier : Option String)
    → last_put key (xs ++ ys) earlier ≡ last_put key ys (last_put key xs earlier)
last_put-append key [] ys earlier = refl
last_put-append key (cmd ∷ xs) ys earlier = last_put-append key xs ys _
