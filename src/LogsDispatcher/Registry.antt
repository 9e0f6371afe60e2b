-- ===== src/LogsDispatcher/Registry.antt =====
-- The instances register their callbacks, and empty what they hold.
use raft_in_motion.Prelude.{
  ℕ, zero, suc, ◌+◌, ◌≡◌, refl, ap, ◌∙◌, true, false, none, some, List, [], ◌∷◌, map, get_elem?,
  arith,
}
use raft_in_motion.Prelude.Int.{ℤ, int_eq_iff}
use raft_in_motion.LogsDispatcher.{LogDispatcher, map_get, register_server, unregister_server}
use raft_in_motion.LogsDispatcher.Inbox.{
  Inbox, log_callback, empty_inbox, register_all, unregister_all, fresh,
}
use raft_in_motion.LogsDispatcher.Routes.{
  Routes, ids, has_id, distinct, map_get-set, map_get-delete,
}

pub register_all-unknown :
    (n : ℕ) (l : List Inbox) (d : LogDispatcher (List Inbox)) (r : ℤ)
    → has_id r (ids l) ≡ false
    → map_get r (register_all n l d).server_callbacks ≡ map_get r d.server_callbacks
unfolding register_all
register_all-unknown n [] d r h = refl
register_all-unknown n (i ∷ rest) d r h =
    register_all-unknown (suc n) rest (register_server i.raft_id (log_callback n) d) r
      (ground arith)
    ∙ map_get-set r i.raft_id (log_callback n) d.server_callbacks
    ∙ ground arith

pub register_all-known :
    (n k : ℕ) (l : List Inbox) (d : LogDispatcher (List Inbox)) (id : ℤ)
    → distinct (ids l) ≡ true
    → get_elem? (ids l) k ≡ some id
    → map_get id (register_all n l d).server_callbacks ≡ some (log_callback (n + k))
unfolding register_all
register_all-known n k [] d id a h = cc
register_all-known n zero (i ∷ rest) d id a h =
    let e : i.raft_id ≡ id = ground arith in
    register_all-unknown (suc n) rest (register_server i.raft_id (log_callback n) d) id
      (ground arith)
    ∙ map_get-set id i.raft_id (log_callback n) d.server_callbacks
    ∙ rw ((int_eq_iff i.raft_id id).1 e) (ap (λ m. some (log_callback m)) (omega arith))
register_all-known n (suc k) (i ∷ rest) d id a h =
    register_all-known (suc n) k rest (register_server i.raft_id (log_callback n) d) id
      (ground arith) h
    ∙ ap (λ m. some (log_callback m)) (omega arith)

pub unregister_all-unknown :
    (l : List Inbox) (d : LogDispatcher (List Inbox)) (r : ℤ)
    → has_id r (ids l) ≡ false
    → map_get r (unregister_all l d).server_callbacks ≡ map_get r d.server_callbacks
unfolding unregister_all
unregister_all-unknown [] d r h = refl
unregister_all-unknown (i ∷ rest) d r h =
    unregister_all-unknown rest (unregister_server i.raft_id d) r (ground arith)
    ∙ map_get-delete r i.raft_id d.server_callbacks (ground arith)

pub register_all-Routes :
    (l : List Inbox) (d : LogDispatcher (List Inbox))
    → distinct (ids l) ≡ true
    → ((r : ℤ) → has_id r (ids l) ≡ false → map_get r d.server_callbacks ≡ none)
    → Routes (register_all 0 l d).server_callbacks (ids l)
register_all-Routes l d a free = record {
  known =
      λ n id h. register_all-known 0 n l d id a h ∙ ap (λ m. some (log_callback m)) (omega arith);
  unknown = λ r h. register_all-unknown 0 l d r h ∙ free r h;
}

pub ids-empty : (l : List Inbox) → ids (map empty_inbox l) ≡ ids l
ids-empty [] = refl
ids-empty (i ∷ rest) = ap (λ r. i.raft_id ∷ r) (ids-empty rest)

pub get-empty :
    (n : ℕ) (i : Inbox) (l : List Inbox)
    → get_elem? (map empty_inbox l) n ≡ some i
    → i.server_logs ≡ []
get-empty n i [] h = cc
get-empty zero i (j ∷ rest) h = ground arith
get-empty (suc n) i (j ∷ rest) h = get-empty n i rest h

pub get_of_ids :
    (n : ℕ) (r : ℤ) (l : List Inbox)
    → get_elem? (ids l) n ≡ some r
    → (i : Inbox) × (get_elem? l n ≡ some i) × (i.raft_id ≡ r)
get_of_ids n r [] h = cc
get_of_ids zero r (i ∷ rest) h = (i, refl, ground arith)
get_of_ids (suc n) r (i ∷ rest) h = get_of_ids n r rest h

pub ids-fresh : (servers : List ℤ) → ids (fresh servers) ≡ servers
ids-fresh [] = refl
ids-fresh (id ∷ rest) = ap (λ r. id ∷ r) (ids-fresh rest)

pub get-fresh :
    (n : ℕ) (i : Inbox) (servers : List ℤ)
    → get_elem? (fresh servers) n ≡ some i
    → i.server_logs ≡ []
get-fresh n i [] h = cc
get-fresh zero i (id ∷ rest) h = ground arith
get-fresh (suc n) i (id ∷ rest) h = get-fresh n i rest h

pub from-register_all :
    (n : ℕ) (l : List Inbox) (d : LogDispatcher (List Inbox))
    → (register_all n l d).unprocessed_from ≡ d.unprocessed_from
unfolding register_all
from-register_all n [] d = refl
from-register_all n (i ∷ rest) d =
    from-register_all (suc n) rest (register_server i.raft_id (log_callback n) d)
