-- ===== src/WebSocket/Queue.antt =====
-- The packet queue of game_room/luaclib-src/lua-websocketnetpack.c: `struct queue` with its ring of
-- finished packets, which is replaced by a larger one when it is full.
pub mod Ring
pub mod Entries
pub mod Fifo
use sasy_server.Base.{
  ℕ, zero, suc, ◌+◌, ◌-◌, ◌%◌, ◌<◌, Bool, List, [], ◌∷◌, ltb, leb, ◌==◌, if◌then◌else◌, Bytes,
  Option, none, some, update,
}
use sasy_server.Base.Int.{ℤ}

abbrev pub queue_size : ℕ
queue_size = 1024

abbrev pub hash_size : ℕ
hash_size = 4096

-- `struct netpack`. The buffer is the block that the packet owns.
pub record NetPack : Type 0 where
  pub id : ℕ
  pub size : ℕ
  pub buffer : Bytes

-- `struct uncomplete`, less the `next` of its list. `header` holds the first `header_size` bytes of
-- the field, and `pack.buffer` the bytes that have been copied into the block so far.
pub record Uncomplete : Type 0 where
  pub pack : NetPack
  pub header : Bytes
  pub read : ℤ
  pub mask : Bytes
  pub ismask : Bool
  pub hasunmask_size : ℕ

-- `struct queue`. An array is a function of its index; `Ring` shows that the code stays inside.
pub record Queue : Type 0 where
  pub cap : ℕ
  pub head : ℕ
  pub tail : ℕ
  pub hash : ℕ → List Uncomplete
  pub queue : ℕ → NetPack

-- What an entry holds before it is written.
abbrev pub no_pack : NetPack
no_pack = record { id = 0; size = 0; buffer = [] }

-- The first argument of the Lua functions: `nil`, or the queue.
abbrev pub Slot : Type 0
Slot = Option Queue

abbrev pub new_queue : Queue
new_queue = record { cap = queue_size; head = 0; tail = 0; hash = λ h. []; queue = λ i. no_pack }

unfoldable pub get_queue : Slot → Queue
get_queue none = new_queue
get_queue (some q) = q

-- The queue that takes the place of a full one: the entries from the oldest on, and the hash table.
unfoldable pub expand_queue : Queue → Queue
expand_queue q = record {
  cap = q.cap + queue_size;
  head = 0;
  tail = q.cap;
  hash = q.hash;
  queue = λ i. if ltb i q.cap then q.queue ((q.head + i) % q.cap) else no_pack;
}

-- The entry is written, and the queue grows when that was the last free one.
unfoldable pub push_entry : Queue → NetPack → Queue
push_entry q p =
    let tail = if leb q.cap (q.tail + 1) then q.tail + 1 - q.cap else q.tail + 1 in
    let q' = record q { tail = tail; queue = update q.queue q.tail p } in
    if q.head == tail then expand_queue q' else q'

unfoldable pub push_data : Slot → NetPack → Queue
unfolding get_queue push_entry
push_data slot p = push_entry (get_queue slot) p

unfoldable pub lpop : Slot → Option NetPack × Slot
lpop none = (none, none)
lpop (some q) = if q.head == q.tail then (none, some q) else (
  some (q.queue q.head),
  some (record q { head = if leb q.cap (q.head + 1) then 0 else q.head + 1 }),
)

-- The entries at `i`, `i + 1`, … (`n` of them), modulo the capacity.
unfoldable pub entries : (ℕ → NetPack) → ℕ → ℕ → ℕ → List NetPack
entries queue cap i zero = []
entries queue cap i (suc n) = queue (i % cap) ∷ entries queue cap (i + 1) n

-- `lclear`: the packets whose buffers it frees, and the queue that it leaves. (The lists of
-- uncomplete packets are freed with all that they hold.)
unfoldable pub lclear : Slot → List NetPack × Slot
unfolding entries
lclear none = ([], none)
lclear (some q) =
    let tail = if ltb q.tail q.head then q.tail + q.cap else q.tail in
    (
      entries q.queue q.cap q.head (tail - q.head),
      some (record q { head = 0; tail = 0; hash = λ h. [] }),
    )
