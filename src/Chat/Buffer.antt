-- ===== src/Chat/Buffer.antt =====
-- The buffer of a socket in chat_room/lualib-src/lua-socket.c: `lpushbuffer`, `return_free_node` and
-- `lreadall_chat`. The links of the nodes and the pool that
-- they come from are in Chat/Pool.
pub mod Pending
pub mod Rounds
pub mod Messages
pub mod Split
pub mod Ends
use sasy_server.Base.{
  ℕ, zero, suc, ◌+◌, ◌-◌, ◌%◌, ◌^◌, List, [], ◌∷◌, ◌++◌, ltb, leb, ◌==◌, if◌then◌else◌, Bytes,
  length, take, drop, u32, Call, returns, raises, crashes, Option, none, some, Outcome, ok, fault,
  spent, ◌>>=◌,
}
use sasy_server.Base.Int.{ℤ, pos, negsuc}
use sasy_server.Chat.Packet.{header_size, text_size, int_at}

-- `struct socket_buffer`: the nodes from `head` to `tail`, and what was read of the first one.
-- `size` is the pattern of an `int`.
pub record SocketBuffer : Type 0 where
  pub size : ℕ
  pub offset : ℤ
  pub nodes : List Bytes

-- `lnewbuffer`
abbrev pub new_buffer : SocketBuffer
new_buffer = record { size = 0; offset = pos 0; nodes = [] }

-- `lpushbuffer`; its result is the size.
unfoldable pub push_buffer : Option SocketBuffer → Option Bytes → Call SocketBuffer
push_buffer none msg = raises "need buffer object at param 1"
push_buffer (some sb) none = raises "need message block at param 3"
push_buffer (some sb) (some msg) =
    returns (record sb { size = u32 (sb.size + length msg); nodes = sb.nodes ++ (msg ∷ []) })

-- a - b
abbrev pub minus : ℕ → ℕ → ℤ
minus a b = if leb b a then pos (a - b) else negsuc (b - a - 1)

-- What a round does when the bytes of its node are in the buffer.
pub data Round : Type 0 where
  again : Round
  next_node : Round
  last : Round
  cut : ℕ → Round
  outside : Round

-- `buffer` has 2060 bytes, of which `size` are written. A packet of negative size makes `memset` write
-- before the buffer.
unfoldable pub judge : Bytes → Round
judge buffer =
    let pack_size = u32 (header_size + int_at buffer 8) in
    if ltb (text_size + header_size) (length buffer)
    then outside
    else if ltb (length buffer) header_size
    then again
    else if leb (2 ^ 31) pack_size
    then outside
    else if ltb (length buffer) pack_size
    then next_node
    else if pack_size == length buffer
    then last
    else cut pack_size

-- `while(sb->head)`: the bytes that are in the buffer at the end, the nodes and the offset. The head
-- stays where it is as long as the buffer has less than a packet's head.
unfoldable pub read_loop : ℕ → List Bytes → ℤ → Bytes → Outcome (Bytes × List Bytes × ℤ)
read_loop fuel [] offset buffer = ok (buffer, [], offset)
read_loop zero (node ∷ nodes) offset buffer = spent
read_loop (suc fuel) (node ∷ nodes) (negsuc n) buffer = fault
read_loop (suc fuel) (node ∷ nodes) (pos offset) buffer =
    let copied = buffer ++ drop offset node in
    let round = if ltb (length node) offset then outside else judge copied in
    elim round [
      | again ↦ read_loop fuel (node ∷ nodes) (pos offset) copied
      | next_node ↦ read_loop fuel nodes (pos 0) copied
      | last ↦ ok (copied, nodes, pos 0)
      | cut pack_size ↦
          ok (take pack_size copied, node ∷ nodes, minus (offset + pack_size) (length buffer))
      | outside ↦ fault
    ]

-- The results of `lreadall_chat`; the integers of the head are patterns of an `int`.
pub record Line : Type 0 where
  pub size : ℕ
  pub uin : ℕ
  pub cmd : ℕ
  pub len : ℕ
  pub text : Bytes

-- The bytes behind `size` are zero. Lua is asked for a string of `len` bytes, also of a negative one.
abbrev pub zeros : ℕ → Bytes
zeros zero = []
zeros (suc n) = 0 ∷ zeros n

unfoldable pub push_line : Bytes → Call Line
push_line buffer =
    let len = int_at buffer 8 in
    if leb (2 ^ 31) len
    then raises "memory allocation error: block too big"
    else if ltb text_size len
    then crashes
    else returns (record {
      size = length buffer;
      uin = int_at buffer 0;
      cmd = int_at buffer 4;
      len = len;
      text = take len (drop header_size buffer ++ zeros text_size);
    })

-- `lreadall_chat`. A round takes a node away, or the buffer has less than a head before it and more
-- bytes behind it.
unfoldable pub readall_chat : Option SocketBuffer → Outcome (Call Line × Option SocketBuffer)
unfolding read_loop push_line
readall_chat none = ok (raises "Need buffer object at param 1", none)
readall_chat (some sb) = read_loop (length sb.nodes + header_size) sb.nodes sb.offset [] >>= λ r.
    ok (
      push_line r.0,
      some (record { size = u32 (sb.size + 2 ^ 32 - length r.0); offset = r.2; nodes = r.1 }),
    )
