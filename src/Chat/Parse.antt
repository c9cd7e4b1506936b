-- ===== src/Chat/Parse.antt =====
-- chat_room/lualib-src/lua-parsedata.c, of which testsocket/lua-parsedata.c is a copy with other names.
use sasy_server.Base.{
  ℕ, ◌+◌, ◌-◌, ◌^◌, ◌≤◌, ◌≡◌, ◌∙◌, [], ◌∷◌, ◌++◌, ltb, leb, if◌then◌else◌, Bytes, length,
  length-append, take, take-all, u32, arith, Call, returns, raises, crashes,
}
use sasy_server.Chat.Packet.{header_size, int_at, int_at-append, IsSent, read-IsSent}

-- The results of `l_parsepacket`.
pub record Parsed : Type 0 where
  pub err : ℕ
  pub id : ℕ
  pub sz : ℕ
  pub packet : Bytes
  pub left : ℕ
  pub rest : Bytes

-- `len`, as the pattern of an `int`
abbrev pub packet_length : Bytes → ℕ
packet_length buffer =
    if ltb (length buffer) header_size then 0 else u32 (header_size + int_at buffer 8)

-- `l_parsepacket` on a string of less than 2 ^ 31 bytes. Lua keeps a zero byte behind the string, which
-- is all that may be read from `buffer+sz` on; a negative size is too big for a string of Lua.
unfoldable pub parse_packet : ℕ → Bytes → Call Parsed
parse_packet id buffer =
    let len = packet_length buffer in
    if leb (2 ^ 31) len
    then raises "memory allocation error: block too big"
    else if ltb (length buffer + 1) len
    then crashes
    else if ltb (length buffer) len
    then raises "memory allocation error: block too big"
    else if ltb (len + 1) (length buffer)
    then crashes
    else returns (record {
      err = if ltb (length buffer) header_size then 0 else 1;
      id = id;
      sz = length buffer;
      packet = take len buffer;
      left = length buffer - len;
      rest = take (length buffer - len) (0 ∷ []);
    })

-- A string that is one message of `lsend_chat` is parsed as that message with nothing left. When two
-- bytes or more stand behind the message, the parser reads behind the string.
pub parse_packet-message :
    (id : ℕ) (message rest : Bytes)
    → IsSent message
    → 2 ≤ length rest
    → (parse_packet id message
        ≡ returns (record {
          err = 1;
          id = id;
          sz = length message;
          packet = message;
          left = 0;
          rest = [];
        }))
      × (parse_packet id (message ++ rest) ≡ crashes)
unfolding parse_packet
parse_packet-message id message rest s h =
    let w = read-IsSent message s in
    (
      rw w.len_of (ground (arith, w.long, w.fits, take-all (length message) message)),
      rw (int_at-append message rest 8 (omega (arith, w.long)) ∙ w.len_of)
          (ground (arith, w.long, w.fits, length-append message rest)),
    )
