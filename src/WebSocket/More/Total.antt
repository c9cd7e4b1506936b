-- ===== src/WebSocket/More/Total.antt =====
-- Every round of `push_more` but the last takes bytes off the buffer, so the recursion ends.
use sasy_server.Base.{
  ℕ, zero, suc, ◌≤◌, ◌<◌, ◌≡◌, refl, ap, ◌≢◌, Bool, true, false, [], ◌∷◌, ◌++◌, Bytes, length, drop,
  length-append, length-drop, arith, ok, fault, spent, some,
}
use sasy_server.Base.Int.{ℤ, pos, negsuc}
use sasy_server.WebSocket.Frame.{Scan, read_size}
use sasy_server.WebSocket.Frame.Read.{read_size_bounds}
use sasy_server.WebSocket.Handshake.{get_http_header}
use sasy_server.WebSocket.Handshake.Search.{FirstEnd, crlf_crlf, get_http_header-FirstEnd}
use sasy_server.WebSocket.Queue.{Queue, Slot}
use sasy_server.WebSocket.Scan.{clip, is_invalid, skip_invalid, scan_front}
use sasy_server.WebSocket.More.{
  Round, saved, queued, broken, push_round, push_round_sized, push_more,
}

-- What is known of a scan: the buffer has not grown, and a size comes with a header (or, in the
-- handshake, with the bytes themselves).
abbrev pub Advances : Bool → Bytes → Bytes × Scan → Type 0
Advances true buffer (rest, s) =
    (length rest ≤ length buffer) × ((n : ℕ) → s.pack_size ≡ pos n → (0 < n) × (n ≤ length rest))
Advances false buffer (rest, s) =
    (length rest ≤ length buffer)
    × ((n : ℕ) → s.pack_size ≡ pos n → (2 ≤ s.head_length) × (2 ≤ length rest))

skip_invalid-Advances : (buffer : Bytes) → Advances false buffer (skip_invalid buffer)
unfolding skip_invalid
skip_invalid-Advances [] = (omega arith, λ n e. read_size_bounds [] n e)
skip_invalid-Advances (b ∷ []) = (omega arith, λ n e. read_size_bounds (b ∷ []) n e)
skip_invalid-Advances (a ∷ b ∷ bs) =
    split (is_invalid (read_size (a ∷ b ∷ bs)).pack_size) (skip_invalid-Advances bs)
  where
    split :
        (t : Bool)
        → Advances false bs (skip_invalid bs)
        → Advances false
            (a ∷ b ∷ bs)
            (elim t [ true ↦ skip_invalid bs | false ↦ (a ∷ b ∷ bs, read_size (a ∷ b ∷ bs)) ])
    split true (h, k) = (omega arith, k)
    split false (h, k) = (omega arith, λ n e. read_size_bounds (a ∷ b ∷ bs) n e)

clip_pos : (z : ℤ) (n : ℕ) → clip z ≡ pos n → (m : ℕ) × (z ≡ pos m)
unfolding clip
clip_pos (pos m) n e = (m, refl)
clip_pos (negsuc m) n e = cc

http_bounds :
    (buffer : Bytes) (z : ℤ) (n : ℕ) → FirstEnd buffer z → z ≡ pos n → (0 < n) × (n ≤ length buffer)
http_bounds buffer (pos k) n (front, rest, whole, e, first) z =
    ground (arith, e, ap length whole, length-append front (crlf_crlf ++ rest))
http_bounds buffer (negsuc k) n f z = cc

pub scan_front-Advances :
    (handshake : Bool) (buffer : Bytes) → Advances handshake buffer (scan_front handshake buffer)
unfolding scan_front
scan_front-Advances true buffer = (
  omega arith,
  λ n e. http_bounds buffer (get_http_header buffer) n (get_http_header-FirstEnd buffer) e,
)
scan_front-Advances false buffer =
    let (h, k) = skip_invalid-Advances buffer in
    (h, λ n e. let (m, e') = clip_pos (skip_invalid buffer).1.pack_size n e in k m e')

-- A round that queues a packet leaves a shorter buffer, unless that was empty.
shrinks_sized :
    (z : ℤ) (slot : Slot) (fd : ℕ) (handshake : Bool) (buffer rest : Bytes) (s : Scan) (q : Queue)
    (left : Bytes)
    → s.pack_size ≡ z
    → Advances handshake buffer (rest, s)
    → push_round_sized z slot fd handshake rest s ≡ queued q left
    → length left < length buffer
unfolding push_round_sized
shrinks_sized (negsuc n) slot fd handshake buffer rest s q left e a r = ground arith
shrinks_sized (pos n) slot fd true buffer rest s q left e a r =
    ground (arith, a.1 n e, length-drop n (drop s.head_length rest), length-drop s.head_length rest)
shrinks_sized (pos n) slot fd false buffer rest s q left e a r =
    ground (arith, a.1 n e, length-drop n (drop s.head_length rest), length-drop s.head_length rest)

push_round_shrinks :
    (slot : Slot) (fd : ℕ) (handshake : Bool) (buffer : Bytes) (q : Queue) (left : Bytes)
    → push_round slot fd handshake buffer ≡ queued q left
    → length left < length buffer
unfolding push_round
push_round_shrinks slot fd handshake buffer q left r =
    let (rest, s) = scan_front handshake buffer in
    shrinks_sized _ slot fd handshake buffer _ _ q left refl (scan_front-Advances handshake buffer)
      r

-- Fuel that exceeds the length of the buffer is never used up.
pub push_more-ne-spent :
    (fuel : ℕ) (slot : Slot) (fd : ℕ) (buffer : Bytes) (handshake : Bool)
    → length buffer < fuel
    → push_more fuel slot fd buffer handshake ≢ spent
unfolding push_more
push_more-ne-spent zero slot fd buffer handshake h = absurd (omega arith)
push_more-ne-spent (suc fuel) slot fd buffer handshake h =
    split (push_round slot fd handshake buffer) (push_round_shrinks slot fd handshake buffer)
      (λ q left l. push_more-ne-spent fuel (some q) fd left handshake (omega arith))
  where
    split :
        (r : Round)
        → ((q : Queue) (left : Bytes) → r ≡ queued q left → length left < length buffer)
        → ((q : Queue) (left : Bytes)
            → length left < length buffer
            → push_more fuel (some q) fd left handshake ≢ spent)
        → elim r [
          | saved slot' ↦ ok slot'
          | broken ↦ fault
          | queued q [] ↦ ok (some q)
          | queued q (b ∷ bs) ↦ push_more fuel (some q) fd (b ∷ bs) handshake
        ]
          ≢ spent
    split (saved slot') sh ih e = cc
    split broken sh ih e = cc
    split (queued q []) sh ih e = cc
    split (queued q (b ∷ bs)) sh ih e = ih q (b ∷ bs) (sh q (b ∷ bs) refl) e
