-- ===== src/LogsContext/Follows.antt =====
-- The handlers of a socket's events leave the services and open no other socket.
use raft_in_motion.Prelude.{
  ℕ, String, ◌≡◌, refl, sym, ◌∙◌, inl, inr, true, Option, none, some, List, get_elem?, modify,
  arith, Bool-cases,
}
use raft_in_motion.WsService.{
  opened, Socket, is_closed, is_connecting, close_old, set_ready, open_socket, error_socket,
  send_current, handle_close,
}
use raft_in_motion.LogsContext.Page.{Page, connected, set_status, page_client}
use raft_in_motion.LogsContext.Live.{
  live_at-close, live_at-closed, live_at-opened, live_at-sent, live_at, current_socket,
}

pub record OneSocket (p : Page) : Type 0 where
  pub only : (k : ℕ) → live_at k p.sockets ≡ true → current_socket p.ws_service p.services ≡ some k

-- q has the services of p, and no live socket that p has not.
pub record Follows (p q : Page) : Type 0 where
  pub same_service : q.ws_service ≡ p.ws_service
  pub same_services : q.services ≡ p.services
  pub fewer : (k : ℕ) → live_at k q.sockets ≡ true → live_at k p.sockets ≡ true

pub Follows-OneSocket : {p q : Page} → Follows p q → OneSocket p → OneSocket q
Follows-OneSocket f v = record {
  only = λ k live. rw (f.same_service, f.same_services) (v.only k (f.fewer k live));
}

pub Follows-refl : (p : Page) → Follows p p
Follows-refl p = record { same_service = refl; same_services = refl; fewer = λ k h. h }

pub Follows-trans : {p q r : Page} → Follows p q → Follows q r → Follows p r
Follows-trans f g = record {
  same_service = g.same_service ∙ f.same_service;
  same_services = g.same_services ∙ f.same_services;
  fewer = λ k h. f.fewer k (g.fewer k h);
}

pub send-Follows :
    (c : Option ℕ) (action : String) (q : Page) → Follows q (send_current page_client c action q)
send-Follows none action q = record { same_service = refl; same_services = refl; fewer = λ k h. h }
send-Follows (some c) action q = record {
  same_service = ground arith;
  same_services = ground arith;
  fewer = λ k h. ground (arith, live_at-sent c k action q.sockets);
}

pub opens-Follows :
    (k : ℕ) (o : Option Socket) (p : Page)
    → get_elem? p.sockets k ≡ o
    → Follows p (open_socket page_client k o p)
opens-Follows k none p e = Follows-refl p
opens-Follows k (some s) p e = elim (Bool-cases (is_connecting s.ready_state)) [
  | inl c ↦ rw c (Follows-trans (opening (ground arith)) (send-Follows _ s.action _))
  | inr n ↦ rw n (Follows-refl p)
]
  where
    opening :
        live_at k p.sockets ≡ true
        → Follows p
            (set_status connected (record p { sockets = modify k (set_ready opened) p.sockets }))
    opening live = record {
      same_service = refl;
      same_services = refl;
      fewer = λ j h. sym (live_at-opened k j p.sockets live) ∙ h;
    }

pub closes-Follows : (k : ℕ) (p : Page) → Follows p (handle_close page_client k p)
unfolding handle_close
closes-Follows k p = record {
  same_service = ground arith;
  same_services = ground arith;
  fewer = λ j h. ground (arith, live_at-closed k j p.sockets);
}

pub close_old-live :
    (c : Option ℕ) (j : ℕ) (sockets : List Socket)
    → live_at j (close_old c sockets) ≡ true
    → live_at j sockets ≡ true
close_old-live none j sockets h = h
close_old-live (some c) j sockets h = ground (arith, live_at-close c j sockets)

pub fails-Follows : (o : Option Socket) (p : Page) → Follows p (error_socket page_client o p)
fails-Follows none p = Follows-refl p
fails-Follows (some s) p = elim (Bool-cases (is_closed s.ready_state)) [
  | inl c ↦ rw c (Follows-refl p)
  | inr n ↦ rw n (record {
    same_service = refl;
    same_services = refl;
    fewer = λ j h. close_old-live _ j p.sockets h;
  })
]
