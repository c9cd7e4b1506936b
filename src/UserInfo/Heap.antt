-- ===== src/UserInfo/Heap.antt =====
-- The blocks that `l_new` and `l_destroy` of game_room/luaclib-src/lua-sui.c make and free, and that the
-- services share by their addresses.
use sasy_server.Base.{
  ℕ, List, [], ◌∷◌, Option, none, some, Call, returns, raises, crashes, ◌>=>◌, update,
}
use sasy_server.UserInfo.Members.{Value, Table, Lua, UserInfo, zeroed}
use sasy_server.UserInfo.Attributes.{initialize, set_attribute, add_attribute, reset}
use sasy_server.UserInfo.Score.{write_user_score, Distilled, distill_variation}

-- The calls of the services on one object.
pub data Op : Type 0 where
  initializes : Table → Table → Op
  sets : Table → Op
  adds : Table → Op
  writes : Table → Value → Value → Op
  distills : Op
  resets : Op

abbrev pub object : Call (Option Distilled × UserInfo) → Call UserInfo
object (returns (d, p)) = returns p
object (raises e) = raises e
object crashes = crashes

abbrev pub act : Lua → Op → UserInfo → Call UserInfo
act lua (initializes base more) p = initialize lua p base more
act lua (sets t) p = set_attribute lua p t
act lua (adds t) p = add_attribute lua p t
act lua (writes scores type time) p = write_user_score lua p scores type time
act lua distills p = object (distill_variation p)
act lua resets p = returns (reset p)

-- The block at an address, if there is one.
abbrev pub Heap : Type 0
Heap = ℕ → Option UserInfo

-- `malloc` gives the address of no block that is in use.
abbrev pub new_block : Heap → ℕ → Option UserInfo → Call Heap
new_block heap address none = returns (update heap address (some zeroed))
new_block heap address (some p) = crashes

-- `l_destroy`; a block is not freed twice.
abbrev pub destroy : Heap → ℕ → Option UserInfo → Call Heap
destroy heap address none = crashes
destroy heap address (some p) = returns (update heap address none)

-- A call on the block leaves it as it was where it raises an error.
abbrev pub put_back : Heap → ℕ → Call UserInfo → Call Heap
put_back heap address (returns p) = returns (update heap address (some p))
put_back heap address (raises e) = returns heap
put_back heap address crashes = crashes

abbrev pub on_block : Lua → Op → Heap → ℕ → Option UserInfo → Call Heap
on_block lua op heap address none = crashes
on_block lua op heap address (some p) = put_back heap address (act lua op p)

-- The calls of all services, in their order: `l_new` with the address that `malloc` gives, `l_destroy`,
-- and the others.
pub data HeapCall : Type 0 where
  news : ℕ → HeapCall
  destroys : ℕ → HeapCall
  calls : ℕ → Op → HeapCall

abbrev pub heap_step : Lua → HeapCall → Heap → Call Heap
heap_step lua (news address) heap = new_block heap address (heap address)
heap_step lua (destroys address) heap = destroy heap address (heap address)
heap_step lua (calls address op) heap = on_block lua op heap address (heap address)

unfoldable pub run_heap : Lua → List HeapCall → Heap → Call Heap
run_heap lua [] heap = returns heap
run_heap lua (c ∷ cs) heap = heap_step lua c heap >=> run_heap lua cs
