-- ===== src/Client/Packets/Sent.antt =====
-- The server's side of the client's packets.
use sasy_server.Base.{
  ℕ, ◌+◌, ◌*◌, ◌^◌, ◌<◌, ◌≤◌, ◌≡◌, ap, le→ltb, Bytes, length, get_or, drop, take-all, arith, some,
  ok, ◌>>=◌, returns,
}
use sasy_server.Base.Int.{pos}
use sasy_server.GamePacket.{block, unpack_net_payload}
use sasy_server.Client.Packets.{
  Messages, next_index, heart_beat_slice, framed, into_buffer, freed_into_buffer,
  heart_beat_wbuffer, login_wbuffer,
}

-- What the server's `l_unpackNetPayload` makes of a packet of the client, less the two bytes of its
-- length.
unpack-framed :
    (proto_no : ℕ) (slice : Bytes)
    → proto_no < 2 ^ 24
    → unpack_net_payload (block (drop 2 (framed proto_no slice).0)) (pos (length slice + 4))
      ≡ returns (record { proto_no = proto_no; body = slice; check = 0; first = 0 })
unfolding framed unpack_net_payload
unpack-framed proto_no slice h = ground (arith, take-all (length slice) slice)

-- That a packet starts with the length of what follows the first two bytes, and that the server unpacks
-- that part to the protocol's number and the message.
abbrev pub Delivers : Bytes → ℕ → Bytes → Type 0
Delivers packet proto_no slice =
    (get_or packet 0 0 * 2 ^ 8 + get_or packet 1 0 ≡ length (drop 2 packet))
    × (unpack_net_payload (block (drop 2 packet)) (pos (length slice + 4))
        ≡ returns (record { proto_no = proto_no; body = slice; check = 0; first = 0 }))

pub framed-Delivers :
    (proto_no : ℕ) (slice : Bytes)
    → proto_no < 2 ^ 24
    → length slice ≤ 16378
    → Delivers (framed proto_no slice).0 proto_no slice
unfolding framed
framed-Delivers proto_no slice p h = (omega arith, unpack-framed proto_no slice p)

framed-size :
    (proto_no : ℕ) (slice : Bytes)
    → length slice ≤ 16378
    → (framed proto_no slice).1 ≡ length (framed proto_no slice).0
unfolding framed
framed-size proto_no slice h = omega arith

into_buffer-framed :
    (proto_no : ℕ) (slice : Bytes)
    → length slice ≤ 16378
    → into_buffer proto_no (some slice) 16384
      ≡ some ((framed proto_no slice).0, length (framed proto_no slice).0)
unfolding into_buffer framed
into_buffer-framed proto_no slice h =
    rw (le→ltb 16384 (length slice + 6) (omega arith))
      (ap (λ n. some ((framed proto_no slice).0, n)) (omega arith))

pub length-framed :
    (proto_no : ℕ) (slice : Bytes) → length slice + 6 ≡ length (framed proto_no slice).0
unfolding framed
length-framed proto_no slice = omega arith

freed_into_buffer-framed :
    (messages : Messages) (slice copy : Bytes)
    → messages.freed slice ≡ ok copy
    → length copy ≤ 16378
    → freed_into_buffer messages 0 (some slice) 16384
      ≡ ok (some ((framed 0 copy).0, length (framed 0 copy).0))
unfolding freed_into_buffer
freed_into_buffer-framed messages slice copy f h =
    let l = messages.freed_length slice copy f in
    rw (le→ltb 16384 (length slice + 6) (omega (arith, l)), f)
      (ap (λ n. ok (some ((framed 0 copy).0, n))) (framed-size 0 copy h))

pub heart_beat_wbuffer-framed :
    (messages : Messages) (i : ℕ) (slice copy : Bytes)
    → messages.heart_beat i ≡ some slice
    → messages.freed slice ≡ ok copy
    → length copy ≤ 16378
    → heart_beat_wbuffer messages i 16384
      ≡ ok (some ((framed 0 copy).0, length (framed 0 copy).0), next_index i)
unfolding heart_beat_wbuffer
heart_beat_wbuffer-framed messages i slice copy e f h =
    rw (e, heart_beat_slice)
      (ap (λ o. o >>= λ p. ok (p, next_index i)) (freed_into_buffer-framed messages slice copy f h))

pub login_wbuffer-framed :
    (messages : Messages) (slice : Bytes)
    → messages.login ≡ some slice
    → length slice ≤ 16378
    → login_wbuffer messages 16384 ≡ some ((framed 0x100 slice).0, length (framed 0x100 slice).0)
unfolding login_wbuffer
login_wbuffer-framed messages slice e h = rw e (into_buffer-framed 0x100 slice h)
