-- ===== src/Client/Receive/Packed.antt =====
-- What the server packs against what the client reads.
use sasy_server.Base.{
  joined, ℕ, ◌%◌, ◌^◌, ◌≤◌, ◌≡◌, ◌≢◌, refl, ap, ◌∙◌, sym, false, List, [], ◌∷◌, ◌++◌, Bytes, length,
  All, arith, Call, returns,
}
use sasy_server.Base.Int.{pos}
use sasy_server.GamePacket.{block, as_block, packet_head, Packed, pack_net_packet}
use sasy_server.GamePacket.RoundTrip.{pack_body}
use sasy_server.Client.Receive.{proto_no, payload, reading, read_all}
use sasy_server.Client.Receive.Stream.{IsPacket, read_all-parts}

packet_head-IsPacket :
    (body : Bytes) (number : ℕ)
    → length body ≤ 65529
    → IsPacket (packet_head (length body) number ++ body)
unfolding packet_head
packet_head-IsPacket body number h = record {
  says = omega arith;
  some_payload = omega arith;
  small = omega arith;
}

abbrev sent_block : Call Packed → Bytes
sent_block (returns (as_block bytes n)) = bytes
sent_block _ = []

head-Nonempty : (size number : ℕ) (body : Bytes) → packet_head size number ++ body ≢ []
unfolding packet_head
head-Nonempty size number body e = omega (arith, ap length e)

head-proto_no :
    (size number : ℕ) (body : Bytes) → proto_no (packet_head size number ++ body) ≡ number % 2 ^ 24
unfolding packet_head
head-proto_no size number body = omega arith

head-payload : (size number : ℕ) (body : Bytes) → payload (packet_head size number ++ body) ≡ body
unfolding packet_head
head-payload size number body = refl

-- A protocol buffer of at most 65529 bytes that the server packs comes to the client, in whatever parts
-- the socket delivers the packet, as that protocol buffer with the low 24 bits of the protocol's number.
pub read_all-pack_net_packet :
    (body : Bytes) (number : ℕ) (sent : Bytes) (size : ℕ) (reads : List Bytes)
    → length body ≤ 65529
    → pack_net_packet (block body) (pos (length body)) number false ≡ returns (as_block sent size)
    → joined reads ≡ sent
    → All (λ bytes. bytes ≢ []) reads
    → (packet : Bytes) × (read_all reads [] ≡ (packet ∷ [], reading []))
      × (proto_no packet ≡ number % 2 ^ 24)
      × (payload packet ≡ body)
read_all-pack_net_packet body number sent size reads h e j a =
    let packet = packet_head (length body) number ++ body in
    let same : packet ≡ sent = ap sent_block (sym (pack_body body number (omega arith)) ∙ e) in
    let whole : joined reads ≡ packet = j ∙ sym same in
    (
      packet,
      read_all-parts reads [] packet (packet_head-IsPacket body number h) whole
          (λ z. head-Nonempty (length body) number body (sym whole ∙ z)) a,
      head-proto_no (length body) number body,
      head-payload (length body) number body,
    )
