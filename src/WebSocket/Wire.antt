-- ===== src/WebSocket/Wire.antt =====
-- The frames of RFC 6455 as a peer writes them: the description that the code is held against.
use sasy_server.Base.{
  ℕ, zero, suc, ◌+◌, ◌*◌, ◌/◌, ◌%◌, ◌^◌, ◌<◌, ◌≢◌, [], ◌∷◌, ◌++◌, ltb, if◌then◌else◌, Bytes, length,
}
use sasy_server.WebSocket.Mask.{unmask}

-- The low `k` bytes of a number, the highest first.
abbrev pub big_endian : ℕ → ℕ → Bytes
big_endian zero n = []
big_endian (suc k) n = n / 2 ^ (8 * k) % 2 ^ 8 ∷ big_endian k n

abbrev pub length_code : ℕ → ℕ
length_code n = if ltb n 126 then n else if ltb n 65536 then 126 else 127

abbrev pub extension : ℕ → Bytes
extension n = if ltb n 126 then [] else if ltb n 65536 then big_endian 2 n else big_endian 8 n

-- The header of the last (here the only) fragment of a message, up to the mask. `bit` is 128 in a
-- masked frame and 0 in one that is not.
abbrev pub head : ℕ → ℕ → ℕ → Bytes
head opcode bit n = (128 + opcode) ∷ (bit + length_code n) ∷ extension n

-- What a client sends: every frame of a client is masked.
abbrev pub client_head : ℕ → Bytes → ℕ → Bytes
client_head opcode key n = head opcode 128 n ++ key

abbrev pub client_frame : ℕ → Bytes → Bytes → Bytes
client_frame opcode key payload = client_head opcode key (length payload) ++ unmask key 0 payload

-- A data or control frame that neither continues a message nor closes the connection.
pub record IsOpcode (opcode : ℕ) : Type 0 where
  pub small : opcode < 16
  pub no_continuation : opcode ≢ 0
  pub no_close : opcode ≢ 8
