-- ===== src/Client/Packets.antt =====
-- The packets that game_room/client/httpclient.c writes for the gate.
pub mod Sent
use sasy_server.Base.{
  ℕ, ◌+◌, ◌/◌, ◌%◌, ◌^◌, ◌≡◌, Outcome, ok, ◌>>=◌, [], ◌∷◌, ◌++◌, ltb, leb, if◌then◌else◌, Bytes,
  length, Option, none, some,
}

-- What the client has of the library of protocol buffers and of its files: the message of a heart beat
-- with its index, and the message of a login. There is none where a file or a type is missing. `freed` is
-- what `memcpy` finds at a message that `pbc_wmessage_delete` has freed: as many bytes, whatever they are,
-- or a fault.
pub record Messages : Type 0 where
  pub heart_beat : ℕ → Option Bytes
  pub login : Option Bytes
  pub freed : Bytes → Outcome Bytes
  pub freed_length : (slice copy : Bytes) → freed slice ≡ ok copy → length copy ≡ length slice

-- `_heartBeatIndex += 1`, from 0 again before the largest `int`
abbrev pub next_index : ℕ → ℕ
next_index i = if leb 2147483647 (i + 1) then 0 else i + 1

-- `get_loginServer_heartBeat_c2s_HeartBeat_pbc_slice`: the message, which is freed, and
-- `_heartBeatIndex`.
unfoldable pub heart_beat_slice : Messages → ℕ → Option Bytes × ℕ
heart_beat_slice messages i = elim (messages.heart_beat i) [
  | none ↦ (none, i)
  | some bytes ↦ (some bytes, next_index i)
]

-- `buffer` from `buffer[0]` to the message, and the result.
unfoldable pub framed : ℕ → Bytes → Bytes × ℕ
framed proto_no slice =
    let pack_size = (4 + length slice) % 2 ^ 16 in
    (
      pack_size / 2 ^ 8 % 2 ^ 8
          ∷ pack_size % 2 ^ 8
          ∷ 0
          ∷ proto_no / 2 ^ 16 % 2 ^ 8
          ∷ proto_no / 2 ^ 8 % 2 ^ 8
          ∷ proto_no % 2 ^ 8
          ∷ slice,
      (pack_size + 2) % 2 ^ 16,
    )

-- A message that does not fit the buffer gives 0, as no message does.
unfoldable pub into_buffer : ℕ → Option Bytes → ℕ → Option (Bytes × ℕ)
unfolding framed
into_buffer proto_no none size = none
into_buffer proto_no (some slice) size =
    if ltb size (length slice + 6) then none else some (framed proto_no slice)

-- The same of a message that is freed.
unfoldable pub freed_into_buffer : Messages → ℕ → Option Bytes → ℕ → Outcome (Option (Bytes × ℕ))
unfolding framed
freed_into_buffer messages proto_no none size = ok none
freed_into_buffer messages proto_no (some slice) size =
    if ltb size (length slice + 6)
    then ok none
    else (messages.freed slice >>= λ copy. ok (some (framed proto_no copy)))

-- `get_loginServer_heartBeat_c2s_HeartBeat_wbuffer`
unfoldable pub heart_beat_wbuffer : Messages → ℕ → ℕ → Outcome (Option (Bytes × ℕ) × ℕ)
unfolding heart_beat_slice freed_into_buffer
heart_beat_wbuffer messages i size =
    let (slice, i') = heart_beat_slice messages i in
    freed_into_buffer messages 0x000000 slice size >>= λ o. ok (o, i')

-- `get_loginServer_login_c2s_Login_wbuffer`
unfoldable pub login_wbuffer : Messages → ℕ → Option (Bytes × ℕ)
unfolding into_buffer
login_wbuffer messages size = into_buffer 0x000100 messages.login size
