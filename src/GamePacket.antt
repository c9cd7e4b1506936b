-- ===== src/GamePacket.antt =====
-- game_room/luaclib-src/lua-pbcc.c: the packets of the game protocol, a protocol number with a
-- protocol buffer.
pub mod RoundTrip
mod Tests
use sasy_server.Base.{
  ℕ, ◌+◌, ◌-◌, ◌*◌, ◌/◌, ◌%◌, ◌^◌, Bool, true, false, List, [], ◌∷◌, ◌++◌, ltb, if◌then◌else◌,
  Bytes, length, get_or, take, drop, Call, returns, raises, crashes,
}
use sasy_server.Base.Int.{ℤ, pos, negsuc}

-- The first argument of the Lua functions: a block of memory, or a string.
pub data Argument : Type 0 where
  block : Bytes → Argument
  string : Bytes → Argument
  other : Argument

-- What `l_packNetPBPacket` pushes.
pub data Packed : Type 0 where
  as_block : Bytes → ℕ → Packed
  as_string : Bytes → ℕ → Packed

-- What `l_unpackNetPayload` pushes: the protocol's number, the protocol buffer, 0, and the first byte.
pub record Payload : Type 0 where
  pub proto_no : ℕ
  pub body : Bytes
  pub check : ℕ
  pub first : ℕ

-- `buffer[0]` to `buffer[5]`, of a size that is not negative; `proto_no` is a `lua_Unsigned`.
unfoldable pub packet_head : ℕ → ℕ → Bytes
packet_head size proto_no =
    (size + 4) / 2 ^ 8 % 2 ^ 8
    ∷ (size + 4) % 2 ^ 8
    ∷ 0
    ∷ proto_no / 2 ^ 16 % 2 ^ 8
    ∷ proto_no / 2 ^ 8 % 2 ^ 8
    ∷ proto_no % 2 ^ 8
    ∷ []

abbrev push_packed : Bool → Bytes → ℕ → Packed
push_packed true bytes n = as_string bytes n
push_packed false bytes n = as_block bytes n

-- `l_packNetPBPacket`. A negative size gives a block that is too small for the head, and a size beyond
-- the block's end makes the copy read behind it. (The sum that the code takes of the bytes is not
-- used.)
unfoldable pub pack_net_packet : Argument → ℤ → ℕ → Bool → Call Packed
unfolding packet_head
pack_net_packet (string bytes) size proto_no test = raises "expect lightuserdata"
pack_net_packet other size proto_no test = raises "expect lightuserdata"
pack_net_packet (block bytes) (negsuc n) proto_no test = crashes
pack_net_packet (block bytes) (pos n) proto_no test =
    if ltb n 0x10000
    then (if ltb (length bytes) n
        then crashes
        else returns (push_packed test (packet_head n proto_no ++ take n bytes) (n + 6)))
    else raises "message length exceed the upper limit"

-- `l_unpackNetPayload` from the block on. `ptr[0]` to `ptr[3]` are read in any case. With a size of 3,
-- Lua is asked for a string of 2 ^ 64 - 1 bytes.
unpack_block : Bytes → ℤ → Call Payload
unpack_block bytes (negsuc n) = raises "parse protobuf packet failed, invalid format"
unpack_block bytes (pos n) =
    if ltb n 3
    then raises "parse protobuf packet failed, invalid format"
    else if ltb (length bytes) 4
    then crashes
    else if ltb n 4
    then raises "memory allocation error: block too big"
    else if ltb (length bytes) n
    then crashes
    else returns (record {
      proto_no = get_or bytes 1 0 * 2 ^ 16 + get_or bytes 2 0 * 2 ^ 8 + get_or bytes 3 0;
      body = take (n - 4) (drop 4 bytes);
      check = 0;
      first = get_or bytes 0 0;
    })

-- `l_unpackNetPayload`. Of a string, the length is a `size_t`, which is written over the `int` `size` and
-- the four bytes behind it. What is neither a string nor a block is
-- `NULL` for `lua_touserdata`.
unfoldable pub unpack_net_payload : Argument → ℤ → Call Payload
unfolding unpack_block
unpack_net_payload (block bytes) size = unpack_block bytes size
unpack_net_payload (string bytes) size = crashes
unpack_net_payload other (negsuc n) = raises "parse protobuf packet failed, invalid format"
unpack_net_payload other (pos n) =
    if ltb n 3 then raises "parse protobuf packet failed, invalid format" else crashes
