-- ===== src/LogsContext/Live.antt =====
-- Which sockets of the page are connecting or open, and what each operation on the list of sockets
-- changes of that.
use raft_in_motion.Prelude.{
  ℕ, zero, suc, String, ◌≡◌, refl, ◌⊎◌, inl, inr, Bool, true, false, Option, none, some, List, [],
  ◌∷◌, ◌++◌, length, get_elem?, modify, arith, ◌==◌, if◌then◌else◌,
}
use raft_in_motion.WsService.{
  ReadyState, connecting, opened, closed, Socket, WebSocketService, close, set_ready, current,
}

abbrev pub is_live : ReadyState → Bool
is_live connecting = true
is_live opened = true
is_live _ = false

abbrev pub live_socket : Option Socket → Bool
live_socket none = false
live_socket (some s) = is_live s.ready_state

-- Socket k is connecting or open.
abbrev pub live_at : ℕ → List Socket → Bool
live_at k sockets = live_socket (get_elem? sockets k)

-- wsServiceRef.current?.ws
abbrev pub current_socket : Option ℕ → List WebSocketService → Option ℕ
current_socket none services = none
current_socket (some i) services = current (get_elem? services i)

pub live_at-close :
    (c k : ℕ) (sockets : List Socket)
    → live_at k (close c sockets) ≡ (if c == k then false else live_at k sockets)
live_at-close c k [] = ground arith
live_at-close zero zero (s ∷ rest) = ground arith
live_at-close zero (suc k) (s ∷ rest) = ground arith
live_at-close (suc c) zero (s ∷ rest) = ground arith
live_at-close (suc c) (suc k) (s ∷ rest) = ground (arith, live_at-close c k rest)

pub live_at-closed :
    (c k : ℕ) (sockets : List Socket)
    → live_at k (modify c (set_ready closed) sockets)
      ≡ (if c == k then false else live_at k sockets)
live_at-closed c k [] = ground arith
live_at-closed zero zero (s ∷ rest) = ground arith
live_at-closed zero (suc k) (s ∷ rest) = ground arith
live_at-closed (suc c) zero (s ∷ rest) = ground arith
live_at-closed (suc c) (suc k) (s ∷ rest) = ground (arith, live_at-closed c k rest)

pub live_at-opened :
    (c k : ℕ) (sockets : List Socket)
    → live_at c sockets ≡ true
    → live_at k (modify c (set_ready opened) sockets) ≡ live_at k sockets
live_at-opened c k [] h = cc
live_at-opened zero zero (s ∷ rest) h = ground arith
live_at-opened zero (suc k) (s ∷ rest) h = refl
live_at-opened (suc c) zero (s ∷ rest) h = refl
live_at-opened (suc c) (suc k) (s ∷ rest) h = live_at-opened c k rest h

pub live_at-sent :
    (c k : ℕ) (action : String) (sockets : List Socket)
    → live_at k (modify c (λ s. record s { sent = s.sent ++ action ∷ [] }) sockets)
      ≡ live_at k sockets
live_at-sent c k action [] = refl
live_at-sent zero zero action (s ∷ rest) = refl
live_at-sent zero (suc k) action (s ∷ rest) = refl
live_at-sent (suc c) zero action (s ∷ rest) = refl
live_at-sent (suc c) (suc k) action (s ∷ rest) = live_at-sent c k action rest

pub live_at-append :
    (k : ℕ) (s : Socket) (sockets : List Socket)
    → live_at k (sockets ++ s ∷ []) ≡ true
    → (live_at k sockets ≡ true) ⊎ (k ≡ length sockets)
live_at-append zero s [] h = inr refl
live_at-append (suc k) s [] h = cc
live_at-append zero s (t ∷ rest) h = inl h
live_at-append (suc k) s (t ∷ rest) h = ground (arith, live_at-append k s rest h)
