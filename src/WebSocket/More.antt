-- ===== src/WebSocket/More.antt =====
-- `push_more` of game_room/luaclib-src/lua-websocketnetpack.c: packets behind the first one of a
-- buffer go to the queue.
pub mod Frames
pub mod Total
use sasy_server.Base.{
  ℕ, zero, suc, Bool, ◌&&◌, not, [], ◌∷◌, ltb, ◌==◌, if◌then◌else◌, Bytes, length, take, drop, some,
  Outcome, ok, fault, spent,
}
use sasy_server.Base.Int.{ℤ, pos, negsuc}
use sasy_server.WebSocket.Frame.{Scan}
use sasy_server.WebSocket.Queue.{Queue, Slot, push_data}
use sasy_server.WebSocket.Table.{save_uncomplete}
use sasy_server.WebSocket.Scan.{decode_wsmask_data, scan_front, save_header, start_body, fill}

-- One round of `push_more`: the entry is saved, or a packet is queued and the rest is to be read.
-- A negative size that is not -1 (a closing frame, or a 64-bit length) ends in a copy of a negative
-- count.
pub data Round : Type 0 where
  saved : Slot → Round
  queued : Queue → Bytes → Round
  broken : Round

unfoldable pub round_of_header : Outcome Slot → Round
round_of_header (ok slot) = saved slot
round_of_header fault = broken
round_of_header spent = broken

unfoldable pub take_pack : Slot → ℕ → Bool → Scan → ℕ → Bytes → Round
unfolding start_body fill
take_pack slot fd handshake s size buffer =
    if ltb (length buffer) size && not handshake
    then saved (some (save_uncomplete slot fd (fill (start_body fd size s) 0 buffer)))
    else (let body = (decode_wsmask_data (take size buffer) (start_body fd size s)).0 in
        queued (push_data slot (record { id = fd; size = size; buffer = body })) (drop size buffer))

unfoldable pub push_round_sized : ℤ → Slot → ℕ → Bool → Bytes → Scan → Round
unfolding save_header round_of_header take_pack
push_round_sized (negsuc n) slot fd handshake rest s =
    if n == 0 then round_of_header (save_header slot fd handshake rest) else broken
push_round_sized (pos size) slot fd handshake rest s =
    take_pack slot fd handshake s size (drop s.head_length rest)

unfoldable pub push_round : Slot → ℕ → Bool → Bytes → Round
unfolding push_round_sized
push_round slot fd handshake buffer =
    let (rest, s) = scan_front handshake buffer in
    push_round_sized s.pack_size slot fd handshake rest s

-- The recursion; each round but the last takes at least one byte off the buffer.
unfoldable pub push_more : ℕ → Slot → ℕ → Bytes → Bool → Outcome Slot
unfolding push_round
push_more zero slot fd buffer handshake = spent
push_more (suc fuel) slot fd buffer handshake = elim (push_round slot fd handshake buffer) [
  | saved slot' ↦ ok slot'
  | broken ↦ fault
  | queued q [] ↦ ok (some q)
  | queued q (b ∷ bs) ↦ push_more fuel (some q) fd (b ∷ bs) handshake
]
