-- ===== src/Chat/Stream.antt =====
-- The packets that `thread_socket` of chat_room/client/client.c takes from its buffer.
pub mod Order
pub mod Reads
use sasy_server.Base.{
  ℕ, zero, suc, ◌+◌, ◌-◌, ◌^◌, List, [], ◌∷◌, ◌++◌, ltb, leb, ◌||◌, if◌then◌else◌, Bytes, length,
  take, drop, Outcome, ok, fault, spent, ◌>>=◌,
}
use sasy_server.Chat.Packet.{header_size, int_at}

-- `sizeof(tbuffer)`
abbrev pub packet_room : ℕ
packet_room = 16384

-- What a round finds: less than a head; a packet that has not come to its end; a packet of so many
-- bytes; one that is longer than `tbuffer`.
pub data Found : Type 0 where
  short : Found
  waits : Found
  whole : ℕ → Found
  overrun : Found

-- The comparison is one of `size_t`, in which a negative length is more than any buffer has.
unfoldable pub find : Bytes → Found
find rbuffer =
    let len = int_at rbuffer 8 in
    if ltb (length rbuffer) header_size
    then short
    else if leb (2 ^ 31) len || ltb (length rbuffer - header_size) len
    then waits
    else if ltb packet_room (header_size + len)
    then overrun
    else whole (header_size + len)

-- `while(rlenght >= sizeof(struct packet_header))`: the packets, and what stays in the buffer. A packet
-- that has not come to its end leaves everything as it is.
unfoldable pub take_packets : ℕ → Bytes → Outcome (List Bytes × Bytes)
take_packets zero rbuffer = spent
take_packets (suc fuel) rbuffer = elim (find rbuffer) [
  | short ↦ ok ([], rbuffer)
  | waits ↦ take_packets fuel rbuffer
  | whole pack_size ↦
      take_packets fuel (drop pack_size rbuffer) >>= λ r. ok (take pack_size rbuffer ∷ r.0, r.1)
  | overrun ↦ fault
]

-- The loop of `thread_socket`, on reads for which the buffer of 81920 bytes has room: the packets in their
-- order, and what stays in the buffer. The inner loop has a round for each byte and one more; it takes
-- at least 12 bytes in a round, or it never ends.
unfoldable pub read_packets : List Bytes → Bytes → Outcome (List Bytes × Bytes)
read_packets [] rbuffer = ok ([], rbuffer)
read_packets (bytes ∷ reads) rbuffer =
    take_packets (suc (length (rbuffer ++ bytes))) (rbuffer ++ bytes) >>= λ r.
    read_packets reads r.1 >>= λ later. ok (r.0 ++ later.0, later.1)
