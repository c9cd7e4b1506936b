-- ===== src/WebSocket/Pack.antt =====
-- `lpack` of game_room/luaclib-src/lua-websocketnetpack.c: the frame round a message to a client.
use sasy_server.Base.{
  ℕ, ◌+◌, ◌*◌, ◌/◌, ◌%◌, ◌^◌, ◌<◌, ◌≡◌, refl, ap, ◌∙◌, false, [], ◌∷◌, ◌++◌, ltb, Bool-cases, inl,
  inr, if◌then◌else◌, Bytes, length, arith,
}
use sasy_server.Base.Int.{pos}
use sasy_server.WebSocket.Frame.{no_mask, read_size, finish}
use sasy_server.WebSocket.Frame.Read.{read_size-head}
use sasy_server.WebSocket.Wire.{head, IsOpcode}

-- `FRAME_SET_LENGTH(len, idx)`: one byte of the length.
frame_set_length : ℕ → ℕ → ℕ
frame_set_length len idx = len / 2 ^ (idx * 8) % 2 ^ 8

-- `FRAME_SET_FIN(1) | FRAME_SET_OPCODE(1)`
abbrev first_byte : ℕ
first_byte = 0x80 + 0x01

frame_header : ℕ → Bytes
unfolding frame_set_length
frame_header len =
    if ltb len 126
    then first_byte ∷ frame_set_length len 0 ∷ []
    else if ltb len 65536
    then first_byte ∷ 126 ∷ frame_set_length len 1 ∷ frame_set_length len 0 ∷ []
    else first_byte
      ∷ 127
      ∷ frame_set_length len 7
      ∷ frame_set_length len 6
      ∷ frame_set_length len 5
      ∷ frame_set_length len 4
      ∷ frame_set_length len 3
      ∷ frame_set_length len 2
      ∷ frame_set_length len 1
      ∷ frame_set_length len 0
      ∷ []

-- The block that is handed to Lua; its size is the block's.
pub lpack : Bytes → Bytes
lpack message = frame_header (length message) ++ message

-- The header is that of an unmasked text frame.
frame_header-eq-head : (len : ℕ) → frame_header len ≡ head 1 0 len
unfolding frame_header
frame_header-eq-head len = elim (Bool-cases (ltb len 126)) [
  | inl short ↦ rw short (ap (λ b. 129 ∷ b ∷ []) (ground arith))
  | inr long ↦
      rw long
        (elim (Bool-cases (ltb len 65536)) [ inl medium ↦ rw medium | inr longest ↦ rw longest ])
]

text-IsOpcode : IsOpcode 1
text-IsOpcode = record {
  small = omega arith;
  no_continuation = omega arith;
  no_close = omega arith;
}

-- A message of less than 2 ^ 31 bytes is framed so that the reader of frames finds its length and
-- no mask, and the message itself follows the header at once.
pub read_size-lpack :
    (message : Bytes)
    → length message < 2 ^ 31
    → (read_size (lpack message) ≡ record {
      pack_size = pos (length message);
      head_length = length (head 1 0 (length message));
      mask = no_mask;
      ismask = false;
    })
      × (lpack message ≡ head 1 0 (length message) ++ message)
unfolding lpack
read_size-lpack message h =
    let e = frame_header-eq-head (length message) in
    rw e (
      read_size-head 1 text-IsOpcode false (length message) message h ∙ unfold finish in refl,
      refl,
    )
