-- ===== src/GamePacket/RoundTrip.antt =====
-- A packet that one side packs is unpacked by the other.
use sasy_server.Base.{
  ℕ, ◌+◌, ◌*◌, ◌%◌, ◌^◌, ◌<◌, ◌≡◌, refl, false, ◌++◌, lt→ltb, le→ltb, Bytes, length, get_or, drop,
  take-all, arith, returns,
}
use sasy_server.Base.Int.{pos}
use sasy_server.GamePacket.{block, as_block, packet_head, pack_net_packet, unpack_net_payload}

module _ (body : Bytes) (proto_no : ℕ) (small : length body < 0x10000) where
  pub pack_body :
      pack_net_packet (block body) (pos (length body)) proto_no false
      ≡ returns (as_block (packet_head (length body) proto_no ++ body) (length body + 6))
  unfolding pack_net_packet
  pack_body =
      rw
        (
          lt→ltb (length body) 0x10000 small,
          le→ltb (length body) (length body) (omega arith),
          take-all (length body) body (omega arith),
        )
        refl

  -- A protocol buffer of less than 65536 bytes is packed, and what stands behind the two bytes of the
  -- length is unpacked, as a block, to the same protocol buffer and the low 24 bits of the protocol's
  -- number. The two bytes hold the length of that part modulo 2 ^ 16.
  pub unpack_net_payload-pack_net_packet :
      (packet : Bytes) × (pack_net_packet (block body) (pos (length body)) proto_no false
        ≡ returns (as_block packet (length body + 6)))
      × (unpack_net_payload (block (drop 2 packet)) (pos (length body + 4))
          ≡ returns (record { proto_no = proto_no % 2 ^ 24; body = body; check = 0; first = 0 }))
      × ((get_or packet 0 0 * 2 ^ 8 + get_or packet 1 0) ≡ (length body + 4) % 2 ^ 16)
  unfolding packet_head unpack_net_payload
  unpack_net_payload-pack_net_packet = (
    packet_head (length body) proto_no ++ body,
    pack_body,
    ground (arith, take-all (length body) body),
    omega arith,
  )
