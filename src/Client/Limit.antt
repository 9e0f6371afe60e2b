-- ===== src/Client/Limit.antt =====
-- The limit on the number of clients (internal/client/client.go), where internal/ws/handler.go lets more of
-- them in.
use raft_in_motion.Prelude.{
  ℕ, suc, String, ◌≤◌, ◌<◌, ◌≡◌, refl, ap, sym, subst, ◌∙◌, true, false, Option, some, get_elem?,
  arith,
}
use raft_in_motion.Prelude.Int.{ℤ}
use raft_in_motion.Value.{Fields}
use raft_in_motion.Client.{
  Client, closed, can_accept_new_client, log_client_connection, step, clean_up, read_error,
  read_fails,
}
use raft_in_motion.Client.Handler.{Clients, happens, put_back, happen, serve}
use raft_in_motion.Client.Count.{live, live-modify}

module _ {B : Type 0} where
  module _ (atoi : String → Option ℤ) (unmarshal : B → Option Fields) where
    ended : Client B → Client B
    ended c = record c { reading = false; state = closed; once = true; is_closed = true }

    read_error_ends :
        (i : ℕ) (s : Clients B) (c : Client B)
        → c.once ≡ false
        → c.reading ≡ true
        → happen atoi unmarshal i read_fails s (some c)
          ≡ put_back i s (log_client_connection false s.active_clients, ended c)
    unfolding happen step read_error clean_up ended
    read_error_ends i s c once reads = ground (arith, once, reads)

    end_counts :
        (i : ℕ) (s : Clients B) (c : Client B)
        → get_elem? s.clients i ≡ some c
        → c.once ≡ false
        → c.reading ≡ true
        → let after = serve atoi unmarshal (happens i read_fails) s in
          (after.active_clients ≡ log_client_connection false s.active_clients)
          × (suc (live after.clients) ≡ live s.clients)
    unfolding serve ended
    end_counts i s c at once reads =
        let cleaned : serve atoi unmarshal (happens i read_fails) s
            ≡ put_back i s (log_client_connection false s.active_clients, ended c) =
          ap (happen atoi unmarshal i read_fails s) at ∙ read_error_ends i s c once reads in
        subst
          (λ t.
            (t.active_clients ≡ log_client_connection false s.active_clients)
            × (suc (live t.clients) ≡ live s.clients))
          (sym cleaned) (refl, ground (arith, live-modify i c (ended c) s.clients at))

    -- With the counter at its limit of 3 and more clients than that connected, the end of any client takes
    -- one off the counter, also of a client that was never counted: the server then says that it can accept
    -- a new client, while at least as many as the limit are still connected.
    pub limit_forgotten :
        (i : ℕ) (s : Clients B) (c : Client B)
        → s.active_clients ≡ 3
        → 3 < live s.clients
        → get_elem? s.clients i ≡ some c
        → c.once ≡ false
        → c.reading ≡ true
        → let after = serve atoi unmarshal (happens i read_fails) s in
          (can_accept_new_client after.active_clients ≡ true)
          × (3 ≤ live after.clients)
          × (suc (live after.clients) ≡ live s.clients)
    unfolding can_accept_new_client log_client_connection
    limit_forgotten i s c full more at once reads =
        let (less, fewer) = end_counts i s c at once reads in (ground arith, omega arith, fewer)
