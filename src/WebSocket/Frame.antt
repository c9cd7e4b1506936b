-- ===== src/WebSocket/Frame.antt =====
-- `ntoh64` and `read_size` of game_room/luaclib-src/lua-websocketnetpack.c: the header of a frame.
-- The host is little-endian, as the servers' is.
pub mod Read
pub mod Bounds
use sasy_server.Base.{
  ℕ, ◌+◌, ◌-◌, ◌*◌, ◌/◌, ◌%◌, ◌^◌, Bool, true, false, ◌||◌, not, List, [], ◌∷◌, ltb, ◌==◌,
  if◌then◌else◌, Bytes, length, get_or, take, drop, u32,
}
use sasy_server.Base.Int.{ℤ, pos, negsuc, int32}

abbrev pub header_len : ℕ
header_len = 2

abbrev pub mask_len : ℕ
mask_len = 4

-- The result of `read_size` with what it writes through its pointers. On a negative result the
-- callers use none of these.
pub record Scan : Type 0 where
  pub pack_size : ℤ
  pub head_length : ℕ
  pub mask : Bytes
  pub ismask : Bool

abbrev pub no_mask : Bytes
no_mask = 0 ∷ 0 ∷ 0 ∷ 0 ∷ []

-- `return -1`, `-2` and `-3`
abbrev pub stop : ℤ → Scan
stop code = record { pack_size = code; head_length = 0; mask = no_mask; ismask = false }

abbrev pub incomplete : ℤ
incomplete = negsuc 0

abbrev pub invalid : ℤ
invalid = negsuc 1

abbrev pub closing : ℤ
closing = negsuc 2

-- A load of two, four or eight bytes at an offset.
unfoldable pub load16 : Bytes → ℕ → ℕ
load16 buf i = get_or buf i 0 + 2 ^ 8 * get_or buf (i + 1) 0

unfoldable pub load32 : Bytes → ℕ → ℕ
unfolding load16
load32 buf i = load16 buf i + 2 ^ 16 * load16 buf (i + 2)

unfoldable pub load64 : Bytes → ℕ → ℕ
unfolding load32
load64 buf i = load32 buf i + 2 ^ 32 * load32 buf (i + 4)

unfoldable pub ntohs : ℕ → ℕ
ntohs x = x % 2 ^ 8 * 2 ^ 8 + x / 2 ^ 8 % 2 ^ 8

unfoldable pub ntohl : ℕ → ℕ
unfolding ntohs
ntohl x = ntohs (x % 2 ^ 16) * 2 ^ 16 + ntohs (x / 2 ^ 16 % 2 ^ 16)

unfoldable pub ntoh64 : ℕ → ℕ
ntoh64 host = ntohl (u32 host) * 2 ^ 32 + ntohl (u32 (host / 2 ^ 32))

-- The end of `read_size`, after the length: the mask, and the results.
unfoldable pub finish : Bytes → Bool → ℤ → ℕ → Scan
finish buf is_mask size offset =
    if is_mask
    then (if ltb (length buf) (offset + mask_len) then stop incomplete else record {
      pack_size = size;
      head_length = offset + mask_len;
      mask = take mask_len (drop offset buf);
      ismask = true;
    })
    else record { pack_size = size; head_length = offset; mask = no_mask; ismask = false }

-- The payload length: 7 bits, 7+16 bits or 7+64 bits. The 64-bit length is cut down to an `int`.
unfoldable pub read_payload : Bytes → Bool → ℕ → Scan
read_payload buf is_mask payload_length =
    if ltb payload_length 0x7e
    then finish buf is_mask (pos payload_length) header_len
    else if payload_length == 0x7e
    then (if ltb (length buf) (header_len + 2)
        then stop incomplete
        else finish buf is_mask (pos (ntohs (load32 buf header_len % 2 ^ 16))) (header_len + 2))
    else if ltb (length buf) (header_len + 8)
    then stop incomplete
    else finish buf is_mask (int32 (ntoh64 (load64 buf header_len))) (header_len + 8)

-- The two bytes that every header begins with, and the buffer that they stand in.
unfoldable pub read_head : Bytes → ℕ → ℕ → Scan
read_head buf b0 b1 =
    let fin = b0 / 2 ^ 7 % 2 in
    let rsv1 = b0 / 2 ^ 6 % 2 in
    let rsv2 = b0 / 2 ^ 5 % 2 in
    let rsv3 = b0 / 2 ^ 4 % 2 in
    let opcode = b0 % 2 ^ 4 in
    let is_mask = b1 / 2 ^ 7 % 2 in
    if not (rsv1 == 0) || not (rsv2 == 0) || not (rsv3 == 0)
    then stop invalid
    else if fin == 0 || opcode == 0
    then stop invalid
    else if opcode == 8
    then stop closing
    else read_payload buf (not (is_mask == 0)) (b1 % 2 ^ 7)

unfoldable pub read_size : Bytes → Scan
unfolding read_head
read_size [] = stop incomplete
read_size (b0 ∷ []) = stop incomplete
read_size (b0 ∷ b1 ∷ bs) = read_head (b0 ∷ b1 ∷ bs) b0 b1
