-- ===== src/WebSocket/Queue/Fifo.antt =====
-- The ring against a first-in, first-out list of packets.
use native.Mathlib.Nat.{mod-eq_of_lt, mod-eq-sub-mod}
use native.Mathlib.Decide.{dec_lt}
use sasy_server.Base.{
  ℕ, suc, ◌+◌, ◌-◌, ◌%◌, ◌≤◌, ◌<◌, ◌≡◌, refl, ap, ap₂, ◌∙◌, ◌≢◌, List, [], ◌∷◌, ◌++◌, ltb, leb,
  ◌==◌, if◌then◌else◌, Option, none, some, update, update_self, arith, Bool-cases, inl, inr, ==_iff,
  ◌⊎◌,
}
use sasy_server.WebSocket.Queue.{
  NetPack, Queue, Slot, queue_size, get_queue, expand_queue, push_entry, push_data, lpop, lclear,
  entries,
}
use sasy_server.WebSocket.Table.{find_uncomplete, unlink}
use sasy_server.WebSocket.Queue.Entries.{
  entries-concat, entries-update, entries-mod, entries-expand,
}
use sasy_server.WebSocket.Queue.Ring.{
  IsValid, SlotIsValid, get_queue-IsValid, push_data-IsValid, lpop-IsValid,
}

abbrev pub count : Queue → ℕ
count q = if ltb q.tail q.head then q.tail + q.cap - q.head else q.tail - q.head

-- The packets of a ring, the oldest first.
abbrev pub contents : Queue → List NetPack
contents q = entries q.queue q.cap q.head (count q)

abbrev pub slot_contents : Slot → List NetPack
slot_contents none = []
slot_contents (some q) = contents q

-- What an abstract first-in, first-out list does.
abbrev pub fifo_pop : List NetPack → Option NetPack × List NetPack
fifo_pop [] = (none, [])
fifo_pop (p ∷ ps) = (some p, ps)

count-lt-cap : (q : Queue) → IsValid q → count q < q.cap
count-lt-cap q v = ground arith

mod_cases :
    (x cap : ℕ) → x < cap + cap → ((x < cap) × (x % cap ≡ x)) ⊎ ((cap ≤ x) × (x % cap ≡ x - cap))
mod_cases x cap h = elim (dec_lt x cap) [
  | yes p ↦ inl (p, mod-eq_of_lt p)
  | no p ↦
      inr (omega arith, mod-eq-sub-mod {n = x} {m = cap} (omega arith) ∙ mod-eq_of_lt (omega arith))
]

-- No place from `head` to `tail` is `tail`.
before_tail : (q : Queue) (k : ℕ) → IsValid q → k < count q → (q.head + k) % q.cap ≢ q.tail
before_tail q k v h = ground (arith, count-lt-cap q v, mod_cases (q.head + k) q.cap)

tail_place : (q : Queue) → IsValid q → (q.head + count q) % q.cap ≡ q.tail
tail_place q v = ground (arith, count-lt-cap q v, mod_cases (q.head + count q) q.cap)

abbrev next : Queue → ℕ
next q = if leb q.cap (q.tail + 1) then q.tail + 1 - q.cap else q.tail + 1

abbrev written : Queue → NetPack → Queue
written q p = record q { tail = next q; queue = update q.queue q.tail p }

written-contents :
    (q : Queue) (p : NetPack)
    → IsValid q
    → entries (written q p).queue q.cap q.head (suc (count q)) ≡ contents q ++ (p ∷ [])
written-contents q p v =
    entries-concat (written q p).queue q.cap q.head (count q)
    ∙ ap₂ ◌++◌ (entries-update q.queue q.cap q.tail p q.head (count q) (λ k h. before_tail q k v h))
        (ap (λ x. x ∷ []) (rw (tail_place q v) (update_self q.queue q.tail p)))

expanded-contents :
    (q : Queue) (p : NetPack)
    → IsValid q
    → q.head ≡ next q
    → contents (expand_queue (written q p)) ≡ contents q ++ (p ∷ [])
unfolding expand_queue
expanded-contents q p v e =
    ap (entries (expand_queue (written q p)).queue (q.cap + queue_size) 0) cap_count
    ∙ entries-expand (written q p).queue q.cap q.head 0 q.cap (omega arith)
    ∙ ap₂ (entries (written q p).queue q.cap) (omega arith) (ground arith)
    ∙ written-contents q p v
  where
    cap_count : count (expand_queue (written q p)) ≡ q.cap
    cap_count = ground arith

-- A queued packet is the last of the contents, whether the ring has grown for it or not.
pub push_entry-contents :
    (q : Queue) (p : NetPack) → IsValid q → contents (push_entry q p) ≡ contents q ++ (p ∷ [])
unfolding push_entry
push_entry-contents q p v = elim (Bool-cases (q.head == next q)) [
  | inl full ↦ rw full (expanded-contents q p v ((==_iff q.head (next q)).0 full))
  | inr room ↦
      rw room
        (ap (entries (written q p).queue q.cap q.head) (ground arith) ∙ written-contents q p v)
]

contents_empty : (q : Queue) → q.head ≡ q.tail → contents q ≡ []
unfolding entries
contents_empty q e = let none_there : count q ≡ 0 = ground arith in rw none_there refl

abbrev popped : Queue → Queue
popped q = record q { head = if leb q.cap (q.head + 1) then 0 else q.head + 1 }

contents_step :
    (q : Queue) → IsValid q → q.head ≢ q.tail → contents q ≡ q.queue q.head ∷ contents (popped q)
contents_step q v ne =
    ap (entries q.queue q.cap q.head) counts
    ∙ unfold entries in
      ap₂ ◌∷◌ (ap q.queue (mod-eq_of_lt v.head_in))
        (entries-mod q.queue q.cap (q.head + 1) (popped q).head (count (popped q)) places)
  where
    counts : count q ≡ suc (count (popped q))
    counts = ground arith

    places : (q.head + 1) % q.cap ≡ (popped q).head % q.cap
    places = ground (arith, mod_cases (q.head + 1) q.cap, mod_cases (q.head + 1 - q.cap) q.cap)

-- The oldest packet is handed out, and the others stay in order.
pub lpop-contents :
    (q : Queue)
    → IsValid q
    → ((lpop (some q)).0, slot_contents (lpop (some q)).1) ≡ fifo_pop (contents q)
unfolding lpop
lpop-contents q v = elim (Bool-cases (q.head == q.tail)) [
  | inl e ↦ rw e (rw (contents_empty q ((==_iff q.head q.tail).0 e)))
  | inr ne ↦ rw ne (rw (contents_step q v (ground arith)))
]

-- What a client of the queue does: a packet comes in, or one is asked for.
pub data Op : Type 0 where
  push : NetPack → Op
  pop : Op

-- The packets that the calls hand out, by the code and by the abstract list.
unfoldable pub run : Slot → List Op → List (Option NetPack)
run slot [] = []
run slot (push p ∷ ops) = run (some (push_data slot p)) ops
run slot (pop ∷ ops) = let (out, slot') = lpop slot in out ∷ run slot' ops

unfoldable pub run_fifo : List NetPack → List Op → List (Option NetPack)
run_fifo ps [] = []
run_fifo ps (push p ∷ ops) = run_fifo (ps ++ (p ∷ [])) ops
run_fifo ps (pop ∷ ops) = let (out, ps') = fifo_pop ps in out ∷ run_fifo ps' ops

pub get_queue-contents : (slot : Slot) → contents (get_queue slot) ≡ slot_contents slot
unfolding get_queue entries
get_queue-contents none = refl
get_queue-contents (some q) = refl

pub push_data-contents :
    (slot : Slot) (p : NetPack)
    → SlotIsValid slot
    → contents (push_data slot p) ≡ slot_contents slot ++ (p ∷ [])
unfolding push_data
push_data-contents slot p v =
    push_entry-contents (get_queue slot) p (get_queue-IsValid slot v)
    ∙ ap (λ ps. ps ++ (p ∷ [])) (get_queue-contents slot)

slot_pop :
    (slot : Slot)
    → SlotIsValid slot
    → ((lpop slot).0, slot_contents (lpop slot).1) ≡ fifo_pop (slot_contents slot)
slot_pop none v = unfold lpop in refl
slot_pop (some q) v = lpop-contents q v

-- From no queue or a valid ring on, no sequence of `push_data` and `lpop` tells the ring from the
-- list of its packets, however often it grows.
pub run_refines :
    (ops : List Op) (slot : Slot)
    → SlotIsValid slot
    → run slot ops ≡ run_fifo (slot_contents slot) ops
unfolding run run_fifo
run_refines [] slot v = refl
run_refines (push p ∷ ops) slot v =
    run_refines ops (some (push_data slot p)) (push_data-IsValid slot p v)
    ∙ ap (λ ps. run_fifo ps ops) (push_data-contents slot p v)
run_refines (pop ∷ ops) slot v =
    rw (run_refines ops (lpop slot).1 (lpop-IsValid slot v), ← slot_pop slot v)

-- On a valid ring, `lclear` frees the buffers of exactly the packets that wait, and leaves no packet
-- in the queue and no entry of any socket in the table.
pub lclear-contents :
    (q : Queue) (fd : ℕ)
    → IsValid q
    → ((lclear (some q)).0 ≡ contents q)
      × (slot_contents (lclear (some q)).1 ≡ [])
      × (find_uncomplete (lclear (some q)).1 fd ≡ none)
unfolding lclear find_uncomplete entries unlink
lclear-contents q fd v = (ground arith, refl, refl)
