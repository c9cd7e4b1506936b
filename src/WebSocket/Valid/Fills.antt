-- ===== src/WebSocket/Valid/Fills.antt =====
-- What is written to an entry keeps it whole.
use sasy_server.Base.{
  ℕ, ◌+◌, ◌<◌, ◌≤◌, ◌≡◌, refl, Bool, true, false, ◌&&◌, Bool-cases, inl, inr, [], ◌∷◌, ◌++◌, ltb,
  leb, Bytes, length, length-append, length-take, take, arith,
}
use sasy_server.Base.Int.{negsuc}
use sasy_server.WebSocket.Mask.{unmask, length-unmask}
use sasy_server.WebSocket.Frame.{Scan}
use sasy_server.WebSocket.Queue.{Uncomplete, Slot}
use sasy_server.WebSocket.Scan.{
  header_size, decode_wsmask_data, scan_front, save_header, start_body, fill,
}
use sasy_server.WebSocket.Table.{blank}
use sasy_server.WebSocket.More.Total.{scan_front-Advances}
use sasy_server.WebSocket.Filter.{grow_header, has_size, header_loop}
use sasy_server.WebSocket.Valid.{IsEntry, OutcomeHolds}
use sasy_server.WebSocket.Valid.Kept.{IsKept}

-- The bytes behind those that are there.
pub fill-IsEntry :
    (uc : Uncomplete) (n : ℕ) (bytes : Bytes)
    → n ≡ length uc.pack.buffer
    → n + length bytes < uc.pack.size
    → IsEntry (fill uc n bytes) × ((fill uc n bytes).pack.id ≡ uc.pack.id)
unfolding fill decode_wsmask_data
fill-IsEntry uc n bytes e h = elim (Bool-cases uc.ismask) [
  | inl m ↦
      let l = length-append uc.pack.buffer (unmask uc.mask uc.hasunmask_size bytes) in
      let k = length-unmask uc.mask uc.hasunmask_size bytes in
      rw m ((omega (arith, l, k, e), h), refl)
  | inr m ↦ let l = length-append uc.pack.buffer bytes in rw m ((omega (arith, l, e), h), refl)
]

pub start_body-IsEntry :
    (fd size : ℕ) (s : Scan) (buffer : Bytes)
    → length buffer < size
    → IsEntry (fill (start_body fd size s) 0 buffer)
      × ((fill (start_body fd size s) 0 buffer).pack.id ≡ fd)
unfolding start_body
start_body-IsEntry fd size s buffer h =
    fill-IsEntry (start_body fd size s) 0 buffer refl (omega (arith, h))

pub save_header-IsKept :
    (slot : Slot) (fd : ℕ) (handshake : Bool) (buffer : Bytes) (IsGood IsClear : Slot → Type 0)
    → IsKept fd IsGood IsClear
    → IsClear slot
    → OutcomeHolds IsGood (save_header slot fd handshake buffer)
unfolding save_header
save_header-IsKept slot fd handshake buffer IsGood IsClear kept c =
    elim (Bool-cases (handshake && ltb header_size (length buffer))) [
      | inl t ↦
          let l = length-take header_size buffer in
          rw t (
            kept.saves slot
              (record (blank fd) { read = negsuc 0; header = take header_size buffer }) c refl
              (refl, omega (arith, l)))
      | inr f ↦ elim (Bool-cases (ltb header_size (length buffer))) [
        | inl t ↦ rw (f, t) tt
        | inr g ↦
            rw (f, g)
              (kept.saves slot (record (blank fd) { read = negsuc 0; header = buffer }) c refl
                (refl, ground (arith, g)))
      ]
    ]

-- The saved header never outgrows its field.
abbrev pub HeaderFits : Bytes × Scan × Bytes → Type 0
HeaderFits (header, s, rest) = length header ≤ header_size

front_shorter :
    (handshake : Bool) (buffer : Bytes) → length (scan_front handshake buffer).0 ≤ length buffer
front_shorter true buffer = (scan_front-Advances true buffer).0
front_shorter false buffer = (scan_front-Advances false buffer).0

grow_header_fits :
    (handshake : Bool) (header : Bytes) (b : ℕ)
    → length header < header_size
    → length (grow_header handshake (header ++ b ∷ [])).0 ≤ header_size
unfolding grow_header
grow_header_fits true header b h = elim (Bool-cases (ltb header_size (length (header ++ b ∷ [])))) [
  | inl t ↦ rw t (omega (arith, length-take header_size (header ++ b ∷ [])))
  | inr f ↦
      rw f (omega (arith, front_shorter true (header ++ b ∷ []), length-append header (b ∷ []), h))
]
grow_header_fits false header b h =
    omega (arith, front_shorter false (header ++ b ∷ []), length-append header (b ∷ []), h)

pub header_loop-HeaderFits :
    (handshake : Bool) (header buffer : Bytes)
    → length header ≤ header_size
    → OutcomeHolds HeaderFits (header_loop handshake header buffer)
unfolding header_loop
header_loop-HeaderFits handshake header [] h = h
header_loop-HeaderFits handshake header (b ∷ []) h =
    elim (Bool-cases (leb header_size (length header))) [
      | inl t ↦ rw t tt
      | inr f ↦ rw f (grow_header_fits handshake header b (ground (arith, f)))
    ]
header_loop-HeaderFits handshake header (b ∷ c ∷ bs) h =
    elim (Bool-cases (leb header_size (length header))) [
      | inl t ↦ rw t tt
      | inr f ↦
          let grown = grow_header handshake (header ++ b ∷ []) in
          let fits = grow_header_fits handshake header b (ground (arith, f)) in
          elim (Bool-cases (has_size grown.1.pack_size)) [
            | inl s ↦ rw (f, s) fits
            | inr s ↦ rw (f, s) (header_loop-HeaderFits handshake grown.0 (c ∷ bs) fits)
          ]
    ]
