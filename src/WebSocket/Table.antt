-- ===== src/WebSocket/Table.antt =====
-- The hash table of unfinished packets in game_room/luaclib-src/lua-websocketnetpack.c.
pub mod Lookup
pub mod Apart
use sasy_server.Base.{
  ℕ, ◌+◌, ◌/◌, ◌%◌, ◌^◌, Bool, false, List, [], ◌∷◌, ◌==◌, if◌then◌else◌, Bytes, Option, none, some,
  update, u32,
}
use sasy_server.Base.Int.{ℤ, pos}
use sasy_server.WebSocket.Frame.{no_mask}
use sasy_server.WebSocket.Queue.{NetPack, Uncomplete, Queue, Slot, hash_size, get_queue}

-- `fd` is a socket id, not negative.
unfoldable pub hash_fd : ℕ → ℕ
hash_fd fd = u32 (fd / 2 ^ 24 + fd / 2 ^ 12 + fd) % hash_size

-- The walk along one list: the entry of `fd`, and the list without it.
unfoldable pub unlink : ℕ → List Uncomplete → Option (Uncomplete × List Uncomplete)
unlink fd [] = none
unlink fd (uc ∷ next) =
    if uc.pack.id == fd
    then some (uc, next)
    else elim (unlink fd next) [ none ↦ none | some (found, rest) ↦ some (found, uc ∷ rest) ]

-- A found entry leaves the table. No entry, and the queue is as it was.
unfoldable pub find_uncomplete : Slot → ℕ → Option (Uncomplete × Queue)
unfolding unlink
find_uncomplete none fd = none
find_uncomplete (some q) fd = elim (unlink fd (q.hash (hash_fd fd))) [
  | none ↦ none
  | some (uc, rest) ↦ some (uc, record q { hash = update q.hash (hash_fd fd) rest })
]

-- `uc->next = q->hash[h]; q->hash[h] = uc;`
unfoldable pub link : Queue → ℕ → Uncomplete → Queue
link q fd uc = record q { hash = update q.hash (hash_fd fd) (uc ∷ q.hash (hash_fd fd)) }

-- The entry that `save_uncomplete` links, before the caller fills it.
abbrev pub blank : ℕ → Uncomplete
blank fd = record {
  pack = record { id = fd; size = 0; buffer = [] };
  header = [];
  read = pos 0;
  mask = no_mask;
  ismask = false;
  hasunmask_size = 0;
}

-- `save_uncomplete`, with what the caller then writes to the entry.
unfoldable pub save_uncomplete : Slot → ℕ → Uncomplete → Queue
unfolding get_queue link
save_uncomplete slot fd uc = link (get_queue slot) fd uc

unfoldable pub close_uncomplete : Slot → ℕ → Slot
unfolding find_uncomplete
close_uncomplete slot fd = elim (find_uncomplete slot fd) [ none ↦ slot | some (uc, q) ↦ some q ]
