-- ===== src/WebSocket/Queue/Ring.antt =====
-- The ring of finished packets stays in range, and has room for one more after every call.
use sasy_server.Base.{◌<◌, ◌==◌, none, some, arith, Bool-cases, inl, inr}
use sasy_server.WebSocket.Queue.{
  NetPack, Queue, Slot, get_queue, expand_queue, push_entry, push_data, lpop, lclear,
}

-- `tail` and `head` are indices of the ring, which `get_queue` makes with room for 1024 packets.
pub record IsValid (q : Queue) : Type 0 where
  pub head_in : q.head < q.cap
  pub tail_in : q.tail < q.cap

abbrev pub SlotIsValid : Slot → Type 0
SlotIsValid none = Unit
SlotIsValid (some q) = IsValid q

-- A new queue is a valid ring, and one that is there is handed on.
pub get_queue-IsValid : (slot : Slot) → SlotIsValid slot → IsValid (get_queue slot)
unfolding get_queue
get_queue-IsValid none v = omega arith
get_queue-IsValid (some q) v = v

pub push_entry-IsValid : (q : Queue) (p : NetPack) → IsValid q → IsValid (push_entry q p)
unfolding push_entry expand_queue
push_entry-IsValid q p v = ground arith

-- A packet that is pushed, also where the queue is made or grows for it, leaves a ring whose head and
-- tail are indices of it, when they were before.
pub push_data-IsValid : (slot : Slot) (p : NetPack) → SlotIsValid slot → IsValid (push_data slot p)
unfolding push_data
push_data-IsValid slot p v = push_entry-IsValid (get_queue slot) p (get_queue-IsValid slot v)

-- `lpop` leaves a ring whose head and tail are indices of it, when they were before.
pub lpop-IsValid : (slot : Slot) → SlotIsValid slot → SlotIsValid (lpop slot).1
unfolding lpop
lpop-IsValid none v = tt
lpop-IsValid (some q) v = elim (Bool-cases (q.head == q.tail)) [
  | inl e ↦ rw e v
  | inr ne ↦ rw ne (record { head_in = ground arith; tail_in = v.tail_in })
]

pub lclear-IsValid : (slot : Slot) → SlotIsValid slot → SlotIsValid (lclear slot).1
unfolding lclear
lclear-IsValid none v = tt
lclear-IsValid (some q) v = ground arith
