-- ===== src/WebSocket/More/Frames.antt =====
-- `push_more` on whole frames: each becomes a packet at the end of the queue.
use sasy_server.Base.{
  ℕ, zero, suc, ◌+◌, ◌≤◌, ◌≡◌, refl, ap, ◌∙◌, ◌≢◌, sym, Bool, true, false, List, [], ◌∷◌, ◌++◌,
  append_assoc, All, map, Bytes, length, length-append, take-append, drop-append, le→ltb, arith, ok,
  some,
}
use sasy_server.Base.Int.{pos}
use sasy_server.WebSocket.Mask.{unmask, length-unmask, unmask-unmask}
use sasy_server.WebSocket.Queue.{NetPack, Queue, Slot, push_data}
use sasy_server.WebSocket.Queue.Ring.{SlotIsValid, push_data-IsValid}
use sasy_server.WebSocket.Queue.Fifo.{contents, slot_contents, push_data-contents}
use sasy_server.WebSocket.Wire.{client_head, client_frame, IsOpcode}
use sasy_server.WebSocket.Scan.{max_pack_size, decode_wsmask_data, start_body}
use sasy_server.WebSocket.Scan.Front.{scan_front_whole}
use sasy_server.WebSocket.More.{queued, push_round, push_round_sized, push_more}

-- A frame as a client means it.
pub record Frame : Type 0 where
  pub opcode : ℕ
  pub key : Bytes
  pub payload : Bytes

-- What the code accepts: no continuation, no closing frame, no payload that it cuts down.
pub record IsAccepted (f : Frame) : Type 0 where
  pub plain : IsOpcode f.opcode
  pub key_length : length f.key ≡ 4
  pub fits : length f.payload ≤ max_pack_size

abbrev pub wire : Frame → Bytes
wire f = client_frame f.opcode f.key f.payload

abbrev pub wires : List Frame → Bytes
wires [] = []
wires (f ∷ fs) = wire f ++ wires fs

abbrev pub packet : ℕ → Frame → NetPack
packet fd f = record { id = fd; size = length f.payload; buffer = f.payload }

-- One header `h` with its payload, masked by `key`.
take_pack_whole :
    (slot : Slot) (fd n : ℕ) (h key bytes rest : Bytes)
    → length bytes ≡ n
    → push_round_sized
        (pos n)
        slot
        fd
        false
        (h ++ (bytes ++ rest))
        (record { pack_size = pos n; head_length = length h; mask = key; ismask = true })
      ≡ queued (push_data slot (record { id = fd; size = n; buffer = unmask key 0 bytes })) rest
unfolding push_round_sized decode_wsmask_data start_body
take_pack_whole slot fd n h key bytes rest e = rw (
  drop-append h (bytes ++ rest) (length h) refl,
  length-append bytes rest,
  le→ltb (length bytes + length rest) n (omega arith),
  take-append bytes rest n (sym e),
  drop-append bytes rest n (sym e),
)

push_round_frame :
    (slot : Slot) (fd : ℕ) (f : Frame) (rest : Bytes)
    → IsAccepted f
    → push_round slot fd false (wire f ++ rest) ≡ queued (push_data slot (packet fd f)) rest
unfolding push_round
push_round_frame slot fd f rest a =
    let n = length f.payload in
    let front = client_head f.opcode f.key n in
    let body = unmask f.key 0 f.payload in
    rw
      (
        append_assoc front body rest,
        scan_front_whole f.opcode n f.key a.plain a.key_length (body ++ rest) a.fits,
      )
      (take_pack_whole slot fd n front f.key body rest (length-unmask f.key 0 f.payload)
        ∙ ap (λ b. queued (push_data slot (record { id = fd; size = n; buffer = b })) rest)
            (unmask-unmask f.key 0 f.payload))

push_more_end :
    (fuel : ℕ) (slot : Slot) (fd : ℕ) (buffer : Bytes) (handshake : Bool) (q : Queue)
    → push_round slot fd handshake buffer ≡ queued q []
    → push_more (suc fuel) slot fd buffer handshake ≡ ok (some q)
unfolding push_more
push_more_end fuel slot fd buffer handshake q e = rw (e, push_more)

push_more_on :
    (fuel : ℕ) (slot : Slot) (fd : ℕ) (buffer : Bytes) (handshake : Bool) (q : Queue) (rest : Bytes)
    → push_round slot fd handshake buffer ≡ queued q rest
    → rest ≢ []
    → push_more (suc fuel) slot fd buffer handshake ≡ push_more fuel (some q) fd rest handshake
unfolding push_more
push_more_on fuel slot fd buffer handshake q [] e ne = absurd (ne refl)
push_more_on fuel slot fd buffer handshake q (b ∷ bs) e ne = rw (e, push_more)

-- Frames that stand one behind the other in a buffer are queued in their order, with their payloads
-- unmasked, when there is fuel for one round for each and the ring is valid.
pub push_more-frames :
    (fuel : ℕ) (slot : Slot) (fd : ℕ) (f : Frame) (fs : List Frame)
    → length (f ∷ fs) ≤ fuel
    → SlotIsValid slot
    → All IsAccepted (f ∷ fs)
    → (q : Queue) × (push_more fuel slot fd (wires (f ∷ fs)) false ≡ ok (some q))
      × (contents q ≡ slot_contents slot ++ map (packet fd) (f ∷ fs))
push_more-frames zero slot fd f fs h v a = absurd (omega arith)
push_more-frames (suc fuel) slot fd f [] h v a = (
  push_data slot (packet fd f),
  push_more_end fuel slot fd _ false _ (push_round_frame slot fd f [] a.0),
  push_data-contents slot (packet fd f) v,
)
push_more-frames (suc fuel) slot fd f (g ∷ fs) h v a =
    let next = push_data slot (packet fd f) in
    let (q, runs, c) =
      push_more-frames fuel (some next) fd g fs (omega arith)
        (push_data-IsValid slot (packet fd f) v) a.1 in
    (
      q,
      push_more_on fuel slot fd _ false next (wires (g ∷ fs))
            (push_round_frame slot fd f (wires (g ∷ fs)) a.0) (λ z. cc)
          ∙ runs,
      c
          ∙ ap (λ ps. ps ++ map (packet fd) (g ∷ fs)) (push_data-contents slot (packet fd f) v)
          ∙ append_assoc (slot_contents slot) (packet fd f ∷ []) (map (packet fd) (g ∷ fs)),
    )
