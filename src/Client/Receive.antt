-- ===== src/Client/Receive.antt =====
-- `thread_gate_read` of game_room/client/httpclient.c: the packets of the server.
pub mod Stream
pub mod Packed
use sasy_server.Base.{
  ℕ, ◌+◌, ◌-◌, ◌*◌, ◌^◌, ◌||◌, Bool, List, [], ◌∷◌, ◌++◌, ltb, if◌then◌else◌, Bytes, length, get_or,
  take, drop,
}

abbrev pub max_read_size : ℕ
max_read_size = 65535

-- A packet with its length, as it is taken from the buffer.
abbrev pub proto_no : Bytes → ℕ
proto_no packet = get_or packet 3 0 * 2 ^ 16 + get_or packet 4 0 * 2 ^ 8 + get_or packet 5 0

abbrev pub payload : Bytes → Bytes
payload packet = drop 6 packet

-- One round on the `rlenght` bytes that are there: a packet and the bytes behind it; or too few bytes; or
-- a length that ends the thread.
pub data Unpacked : Type 0 where
  packet : Bytes → Bytes → Unpacked
  too_few : Unpacked
  wrong_length : Unpacked

unfoldable pub unpack : Bytes → Unpacked
unpack rbuffer =
    let plenght = get_or rbuffer 0 0 * 2 ^ 8 + get_or rbuffer 1 0 in
    if ltb (length rbuffer) 2
    then too_few
    else if ltb plenght 4 || ltb max_read_size plenght
    then wrong_length
    else if ltb (length rbuffer) (plenght + 2)
    then too_few
    else packet (take (plenght + 2) rbuffer) (drop (plenght + 2) rbuffer)

-- How the thread stands: it reads on, with the bytes in its buffer, or it is at its end.
pub data Thread : Type 0 where
  reading : Bytes → Thread
  stopped : Thread

-- What `unpack` makes of a buffer, with the packets of the reads behind it.
abbrev pub after_read : Unpacked → Bytes → (Bytes → List Bytes × Thread) → List Bytes × Thread
after_read too_few rbuffer k = k rbuffer
after_read wrong_length rbuffer k = ([], stopped)
after_read (packet p rest) rbuffer k = let (ps, t) = k rest in (p ∷ ps, t)

-- The reads that bring bytes, of which the buffer has room for each, and the packets in their order.
-- (A read that is interrupted or has no data yet changes nothing.)
unfoldable pub read_all : List Bytes → Bytes → List Bytes × Thread
unfolding unpack
read_all [] rbuffer = ([], reading rbuffer)
read_all (bytes ∷ reads) rbuffer =
    after_read (unpack (rbuffer ++ bytes)) (rbuffer ++ bytes) (read_all reads)
