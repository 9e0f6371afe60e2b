-- ===== src/LogsDispatcher/Routes.antt =====
-- The routing table of the dispatcher: which callback `serverCallbacksRef` holds for which server.
use raft_in_motion.Prelude.{
  ℕ, zero, suc, ◌≡◌, refl, ap, inl, inr, Bool, true, false, not, ◌&&◌, Option, none, some, List, [],
  ◌∷◌, get_elem?, any, arith, Bool-cases, if◌then◌else◌,
}
use raft_in_motion.Prelude.Int.{ℤ, int_eq, int_eq_iff}
use raft_in_motion.Value.{Fields}
use raft_in_motion.LogsDispatcher.{LogCallback, map_get, map_set, map_delete, raft_id}
use raft_in_motion.LogsDispatcher.Inbox.{Inbox, log_callback}

abbrev pub ids : List Inbox → List ℤ
ids [] = []
ids (i ∷ rest) = i.raft_id ∷ ids rest

abbrev pub has_id : ℤ → List ℤ → Bool
has_id r = any (λ id. int_eq id r)

abbrev pub distinct : List ℤ → Bool
distinct [] = true
distinct (id ∷ rest) = not (has_id id rest) && distinct rest

abbrev pub about : ℤ → Option ℤ → Bool
about id none = false
about id (some r) = int_eq id r

-- The log is about the server with this id.
abbrev pub is_about : ℤ → Fields → Bool
is_about id log = about id (raft_id log)

-- The registered callbacks are those of the instances.
pub record Routes (callbacks : List (ℤ × LogCallback (List Inbox))) (servers : List ℤ)
    : Type 0 where
  pub known :
      (n : ℕ) (id : ℤ)
      → get_elem? servers n ≡ some id
      → map_get id callbacks ≡ some (log_callback n)
  pub unknown : (r : ℤ) → has_id r servers ≡ false → map_get r callbacks ≡ none

pub map_get-set :
    {V : Type 0} (r k : ℤ) (v : V) (m : List (ℤ × V))
    → map_get r (map_set k v m) ≡ (if int_eq k r then some v else map_get r m)
map_get-set r k v [] = refl
map_get-set r k v ((j, w) ∷ rest) =
    ground (arith, map_get-set r k v rest, int_eq_iff j k, int_eq_iff j r, int_eq_iff k r)

pub map_get-delete :
    {V : Type 0} (r k : ℤ) (m : List (ℤ × V))
    → int_eq k r ≡ false
    → map_get r (map_delete k m) ≡ map_get r m
map_get-delete r k [] h = refl
map_get-delete r k ((j, w) ∷ rest) h =
    ground (arith, map_get-delete r k rest h, int_eq_iff j k, int_eq_iff j r, int_eq_iff k r)

pub has_id-get :
    (r : ℤ) (servers : List ℤ) → has_id r servers ≡ true → (m : ℕ) × (get_elem? servers m ≡ some r)
has_id-get r [] h = cc
has_id-get r (id ∷ rest) h = elim (Bool-cases (int_eq id r)) [
  | inl same ↦ (0, ap some ((int_eq_iff id r).0 same))
  | inr other ↦ let (m, e) = has_id-get r rest (ground arith) in (suc m, e)
]

pub get-has_id :
    (n : ℕ) (r : ℤ) (servers : List ℤ) → get_elem? servers n ≡ some r → has_id r servers ≡ true
get-has_id n r [] h = cc
get-has_id zero r (id ∷ rest) h = ground (arith, int_eq_iff id r)
get-has_id (suc n) r (id ∷ rest) h = ground (arith, get-has_id n r rest h)

pub distinct-get :
    (m n : ℕ) (r : ℤ) (servers : List ℤ)
    → distinct servers ≡ true
    → get_elem? servers m ≡ some r
    → get_elem? servers n ≡ some r
    → m ≡ n
distinct-get m n r [] d a b = cc
distinct-get zero zero r (id ∷ rest) d a b = refl
distinct-get zero (suc n) r (id ∷ rest) d a b = ground (arith, get-has_id n r rest b)
distinct-get (suc m) zero r (id ∷ rest) d a b = ground (arith, get-has_id m r rest a)
distinct-get (suc m) (suc n) r (id ∷ rest) d a b =
    ap suc (distinct-get m n r rest (ground arith) a b)

pub ids-modify :
    (n : ℕ) (log : Fields) (inboxes : List Inbox) → ids (log_callback n log inboxes) ≡ ids inboxes
ids-modify n log [] = refl
ids-modify zero log (i ∷ rest) = refl
ids-modify (suc n) log (i ∷ rest) = ap (λ l. i.raft_id ∷ l) (ids-modify n log rest)

pub get-ids :
    (n : ℕ) (i : Inbox) (inboxes : List Inbox)
    → get_elem? inboxes n ≡ some i
    → get_elem? (ids inboxes) n ≡ some i.raft_id
get-ids n i [] h = cc
get-ids zero i (j ∷ rest) h = ground arith
get-ids (suc n) i (j ∷ rest) h = get-ids n i rest h
