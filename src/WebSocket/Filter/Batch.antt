-- ===== src/WebSocket/Filter/Batch.antt =====
-- Several frames in one buffer.
use sasy_server.Base.{
  ℕ, ◌+◌, ◌≤◌, ◌≡◌, ap, ◌∙◌, false, List, [], ◌∷◌, ◌++◌, All, map, append_assoc, Bytes, length,
  length-append, arith, ok, some, none,
}
use sasy_server.WebSocket.Mask.{unmask, length-unmask, unmask-unmask}
use sasy_server.WebSocket.Queue.{Queue, Slot, push_data}
use sasy_server.WebSocket.Queue.Ring.{SlotIsValid, push_data-IsValid}
use sasy_server.WebSocket.Queue.Fifo.{contents, slot_contents, push_data-contents}
use sasy_server.WebSocket.Table.{find_uncomplete}
use sasy_server.WebSocket.Wire.{client_head}
use sasy_server.WebSocket.Scan.Front.{scan_front_whole}
use sasy_server.WebSocket.More.Frames.{Frame, IsAccepted, wire, wires, packet, push_more-frames}
use sasy_server.WebSocket.Filter.{more, filter_data, push_rest}
use sasy_server.WebSocket.Filter.Entry.{fresh_sized-more}

-- The first frame of a buffer, with `rest` behind it.
pub filter_data-first :
    (slot : Slot) (fd : ℕ) (f : Frame) (c : ℕ) (rest : Bytes)
    → find_uncomplete slot fd ≡ none
    → IsAccepted f
    → filter_data slot fd (wire f ++ (c ∷ rest)) false
      ≡ push_rest (some (push_data slot (packet fd f))) fd (c ∷ rest) false
unfolding filter_data
filter_data-first slot fd f c rest free a =
    let n = length f.payload in
    let front = client_head f.opcode f.key n in
    let body = unmask f.key 0 f.payload in
    rw (free, filter_data)
      (rw
        (
          append_assoc front body (c ∷ rest),
          scan_front_whole f.opcode n f.key a.plain a.key_length (body ++ (c ∷ rest)) a.fits,
        )
        (fresh_sized-more fd n f.key front slot body c rest (length-unmask f.key 0 f.payload)
          ∙ ap
              (λ b.
                push_rest (some (push_data slot (record { id = fd; size = n; buffer = b }))) fd
                  (c ∷ rest) false)
              (unmask-unmask f.key 0 f.payload)))

length-wires : (fs : List Frame) → length fs ≤ length (wires fs)
length-wires [] = omega arith
length-wires (f ∷ fs) = omega (arith, length-wires fs, length-append (wire f) (wires fs))

-- Two or more whole frames in one buffer are answered by "more", and their unmasked payloads stand
-- at the end of the queue in the order of the wire, when the ring is valid and the table has no
-- entry for the socket. The frames are masked, not closing, and of at most 10240 bytes each.
pub filter_data-frames :
    (slot : Slot) (fd : ℕ) (f g : Frame) (fs : List Frame)
    → SlotIsValid slot
    → find_uncomplete slot fd ≡ none
    → All IsAccepted (f ∷ g ∷ fs)
    → (q : Queue) × (filter_data slot fd (wires (f ∷ g ∷ fs)) false ≡ ok (some q, more))
      × (contents q ≡ slot_contents slot ++ map (packet fd) (f ∷ g ∷ fs))
unfolding push_rest
filter_data-frames slot fd f g fs v free a =
    let first = push_data slot (packet fd f) in
    let (q, runs, c) =
      push_more-frames (length (wires (g ∷ fs)) + 1) (some first) fd g fs
        (omega (arith, length-wires (g ∷ fs))) (push_data-IsValid slot (packet fd f) v) a.1 in
    (
      q,
      filter_data-first slot fd f _ _ free a.0 ∙ rw runs,
      c
          ∙ ap (λ ps. ps ++ map (packet fd) (g ∷ fs)) (push_data-contents slot (packet fd f) v)
          ∙ append_assoc (slot_contents slot) (packet fd f ∷ []) (map (packet fd) (g ∷ fs)),
    )
