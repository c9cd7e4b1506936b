-- ===== src/WebSocket/Filter/Closing.antt =====
-- A closing frame that comes with another frame.
use sasy_server.Base.{
  ℕ, zero, suc, ◌+◌, ◌<◌, ◌≡◌, refl, ◌∙◌, false, ◌∷◌, ◌++◌, Bytes, length, arith, fault, none, ok,
  some,
}
use sasy_server.WebSocket.Frame.{read_size, read_head}
use sasy_server.WebSocket.Queue.{Slot, push_data}
use sasy_server.WebSocket.Table.{find_uncomplete, close_uncomplete}
use sasy_server.WebSocket.Scan.{scan_front, skip_invalid, is_invalid, clip}
use sasy_server.WebSocket.More.{push_round, push_round_sized, push_more, broken}
use sasy_server.WebSocket.More.Frames.{Frame, IsAccepted, wire, packet}
use sasy_server.WebSocket.Filter.{filter_data, fresh_sized, wsclose, push_rest}
use sasy_server.WebSocket.Filter.Batch.{filter_data-first}

closing_round :
    (slot : Slot) (fd b : ℕ) (rest : Bytes) → push_round slot fd false (136 ∷ b ∷ rest) ≡ broken
unfolding push_round push_round_sized scan_front skip_invalid read_size read_head is_invalid clip
closing_round slot fd b rest = refl

closing_more :
    (fuel : ℕ) (slot : Slot) (fd b : ℕ) (rest : Bytes)
    → 0 < fuel
    → push_more fuel slot fd (136 ∷ b ∷ rest) false ≡ fault
unfolding push_more
closing_more zero slot fd b rest h = absurd (omega arith)
closing_more (suc fuel) slot fd b rest h = rw (closing_round slot fd b rest, push_more)

closing_front :
    (slot : Slot) (fd b : ℕ) (rest : Bytes)
    → find_uncomplete slot fd ≡ none
    → fresh_sized
        (scan_front false (136 ∷ b ∷ rest)).1.pack_size
        slot
        fd
        (scan_front false (136 ∷ b ∷ rest)).0
        (scan_front false (136 ∷ b ∷ rest)).1
        false
      ≡ ok (slot, wsclose fd)
unfolding scan_front skip_invalid read_size read_head is_invalid clip fresh_sized close_uncomplete
closing_front slot fd b rest free = rw (free, close_uncomplete)

-- A closing frame is reported when it stands at the front of a buffer, and the queue stays as it is;
-- behind a whole masked frame of at most 10240 bytes it makes the code copy
-- a negative count of bytes. In both cases the socket had no entry before.
pub filter_data-closing :
    (slot : Slot) (fd b : ℕ) (rest : Bytes) (f : Frame)
    → find_uncomplete slot fd ≡ none
    → IsAccepted f
    → (filter_data slot fd (136 ∷ b ∷ rest) false ≡ ok (slot, wsclose fd))
      × (filter_data slot fd (wire f ++ (136 ∷ b ∷ rest)) false ≡ fault)
unfolding filter_data push_rest
filter_data-closing slot fd b rest f free a = (
  rw (free, filter_data) (closing_front slot fd b rest free),
  filter_data-first slot fd f 136 (b ∷ rest) free a
      ∙ rw
          (closing_more (length (136 ∷ b ∷ rest) + 1) (some (push_data slot (packet fd f))) fd b
            rest (omega arith))
          refl,
)
