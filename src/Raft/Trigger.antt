-- ===== src/Raft/Trigger.antt =====
-- The lock of a leader and its channels newCommitReadyChan and triggerAEChan, of internal/raft/raft.go and
-- heartbeat.go: who holds the lock, and what each channel's buffer holds. A goroutine's move that is blocked
-- leaves the state as it is. The two times that the leader's loop holds the lock before it sends heartbeats are
-- one here. The channels are open, since to close them needs the lock too; commitChan takes what is sent, and
-- the node stays the leader.
use raft_in_motion.Prelude.{ℕ, zero, suc, ◌<◌, ◌≡◌, ltb, List, [], ◌∷◌, if◌then◌else◌, arith}

-- Who holds the lock: nobody, Submit, the handler of a reply to a leader's entries before it looks at the
-- commit index, then before each of its two sends, the leader's loop, commitChanSender, or another handler.
pub data Holder : Type 0 where
  free submits handles notifies triggers checks collects serves : Holder

-- A goroutine with a loop waits for its channels, or has received and goes for the lock.
pub data Loop : Type 0 where
  receives wants_lock : Loop

pub record Sync : Type 0 where
  pub holder : Holder
  pub ready : ℕ  -- in the buffer of newCommitReadyChan
  pub triggered : ℕ  -- in the buffer of triggerAEChan
  pub submitted : ℕ  -- the calls of Submit that have released the lock, and send on triggerAEChan
  pub leader_loop : Loop
  pub sender_loop : Loop

pub data Move : Type 0 where
  submit_locks submit_unlocks submit_sends : Move
  reply_locks reply_unlocks reply_commits reply_notifies reply_triggers : Move
  timer_fires loop_receives loop_locks loop_unlocks : Move
  sender_receives sender_locks sender_unlocks : Move
  other_locks other_unlocks : Move

-- rf.mu.Lock() and rf.mu.Unlock()
abbrev lock_for : Holder → Sync → Sync
lock_for h s = elim s.holder [ free ↦ record s { holder = h } | _ ↦ s ]

abbrev trigger_to : Holder → ℕ → Sync → Sync
trigger_to h n s =
    if ltb s.triggered 1
    then record s { holder = h; triggered = suc s.triggered; submitted = n }
    else s

abbrev lock_loop : Loop → Sync → Sync
lock_loop receives s = s
lock_loop wants_lock s = lock_for checks s

abbrev lock_sender : Loop → Sync → Sync
lock_sender receives s = s
lock_sender wants_lock s = lock_for collects s

abbrev receive_trigger : Loop → ℕ → Sync → Sync
receive_trigger receives (suc n) s = record s { triggered = n; leader_loop = wants_lock }
receive_trigger _ _ s = s

abbrev receive_ready : Loop → ℕ → Sync → Sync
receive_ready receives (suc n) s = record s { ready = n; sender_loop = wants_lock }
receive_ready _ _ s = s

unfoldable pub move : Move → Sync → Sync
move submit_locks s = lock_for submits s
move submit_unlocks s = elim s.holder [
  | submits ↦ record s { holder = free; submitted = suc s.submitted }
  | _ ↦ s
]
move submit_sends s = elim s.submitted [ zero ↦ s | suc n ↦ trigger_to s.holder n s ]
move reply_locks s = lock_for handles s
move reply_unlocks s = elim s.holder [ handles ↦ record s { holder = free } | _ ↦ s ]
move reply_commits s = elim s.holder [ handles ↦ record s { holder = notifies } | _ ↦ s ]
move reply_notifies s = elim s.holder [
  | notifies ↦ if ltb s.ready 16 then record s { holder = triggers; ready = suc s.ready } else s
  | _ ↦ s
]
move reply_triggers s = elim s.holder [ triggers ↦ trigger_to free s.submitted s | _ ↦ s ]
move timer_fires s = record s { leader_loop = wants_lock }
move loop_receives s = receive_trigger s.leader_loop s.triggered s
move loop_locks s = lock_loop s.leader_loop s
move loop_unlocks s = elim s.holder [
  | checks ↦ record s { holder = free; leader_loop = receives }
  | _ ↦ s
]
move sender_receives s = receive_ready s.sender_loop s.ready s
move sender_locks s = lock_sender s.sender_loop s
move sender_unlocks s = elim s.holder [
  | collects ↦ record s { holder = free; sender_loop = receives }
  | _ ↦ s
]
move other_locks s = lock_for serves s
move other_unlocks s = elim s.holder [ serves ↦ record s { holder = free } | _ ↦ s ]

unfoldable pub move_all : List Move → Sync → Sync
move_all [] s = s
move_all (m ∷ rest) s = move_all rest (move m s)

-- startLeader, with its loop's goroutine
abbrev pub new_leader : Sync
new_leader = record {
  holder = free;
  ready = 0;
  triggered = 0;
  submitted = 0;
  leader_loop = receives;
  sender_loop = receives;
}

-- The handler of a reply waits to send its trigger, and the loop that would receive it waits for the lock.
record Blocked (s : Sync) : Type 0 where
  held : s.holder ≡ triggers
  full : s.triggered ≡ 1
  waits : s.leader_loop ≡ wants_lock

move-Blocked : (m : Move) (s : Sync) → Blocked s → Blocked (move m s)
unfolding move
move-Blocked m s b = record {
  held = ground (arith, b.held, b.full, b.waits);
  full = ground (arith, b.held, b.full, b.waits);
  waits = ground (arith, b.held, b.full, b.waits);
}

all-Blocked : (ms : List Move) (s : Sync) → Blocked s → Blocked (move_all ms s)
unfolding move_all
all-Blocked [] s b = b
all-Blocked (m ∷ rest) s b = all-Blocked rest (move m s) (move-Blocked m s b)

-- When a trigger is in the buffer while the leader's loop has received one and goes for the lock, a reply that
-- takes the lock first and moves the commit index keeps it for ever, whatever the goroutines do then: it waits
-- to send the next trigger, which only the loop receives.
pub leader_blocks_itself :
    (ms : List Move) (s : Sync)
    → s.holder ≡ free
    → s.triggered ≡ 1
    → s.leader_loop ≡ wants_lock
    → s.ready < 16
    → (move_all (reply_locks ∷ reply_commits ∷ reply_notifies ∷ ms) s).holder ≡ triggers
unfolding move move_all
leader_blocks_itself ms s h t l r =
    (all-Blocked ms (move reply_notifies (move reply_commits (move reply_locks s))) (record {
      held = ground (arith, h, r);
      full = ground (arith, h, t, r);
      waits = ground (arith, h, l, r);
    })).held
