-- ===== src/GamePacket/Tests.antt =====
-- Packets of the game protocol.
use sasy_server.Base.{
  ◌+◌, ◌*◌, ◌^◌, ◌≡◌, refl, false, [], ◌∷◌, Bytes, get_or, drop, arith, returns, raises,
}
use sasy_server.Base.Int.{pos}
use sasy_server.GamePacket.{block, as_block, pack_net_packet, unpack_net_payload}
use sasy_server.GamePacket.RoundTrip.{unpack_net_payload-pack_net_packet}

abbrev body : Bytes
body = 8 ∷ 1 ∷ []

unpack_net_payload-pack_net_packet_example :
    (packet : Bytes) × (pack_net_packet (block body) (pos 2) 0x100 false
      ≡ returns (as_block packet 8))
    × (unpack_net_payload (block (drop 2 packet)) (pos 6)
        ≡ returns (record { proto_no = 0x100; body = body; check = 0; first = 0 }))
    × ((get_or packet 0 0 * 2 ^ 8 + get_or packet 1 0) ≡ 6)
unpack_net_payload-pack_net_packet_example =
    unpack_net_payload-pack_net_packet body 0x100 (omega arith)

pack_two :
    pack_net_packet (block body) (pos 2) 0x100 false
    ≡ returns (as_block (0 ∷ 6 ∷ 0 ∷ 0 ∷ 1 ∷ 0 ∷ 8 ∷ 1 ∷ []) 8)
unfolding pack_net_packet
pack_two = refl

unpack_three :
    unpack_net_payload (block (0 ∷ 0 ∷ 1 ∷ 0 ∷ [])) (pos 3)
    ≡ raises "memory allocation error: block too big"
unfolding unpack_net_payload
unpack_three = refl
