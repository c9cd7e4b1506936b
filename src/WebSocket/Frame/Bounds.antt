-- ===== src/WebSocket/Frame/Bounds.antt =====
-- Where the header of a frame ends.
use sasy_server.Base.{
  ℕ, ◌+◌, ◌/◌, ◌%◌, ◌^◌, ◌<◌, ◌≤◌, ◌≡◌, Bool, true, false, not, ◌∷◌, ltb, ◌==◌, if◌then◌else◌,
  Bytes, take, drop, ◌||◌, length, arith, refl, subst, Bool-cases, inl, inr, ◌∙◌,
}
use sasy_server.Base.Int.{ℤ, pos, negsuc, int32}
use sasy_server.WebSocket.Frame.{
  Scan, stop, incomplete, invalid, closing, load32, load64, ntohs, ntoh64, finish, read_payload,
  read_head, read_size,
}
use sasy_server.WebSocket.Frame.Read.{head_need}

-- A size that is an `int`.
abbrev IsInt : ℤ → Type 0
IsInt (pos n) = n < 2 ^ 31
IsInt (negsuc n) = Unit

abbrev key_need : Bool → ℕ
key_need m = if m then 4 else 0

-- What a scan with the size `n` says: its header ends at `need`, which is in the buffer.
abbrev Ends : Bytes → ℕ → ℕ → Scan → Type 0
Ends buf n need scan = (scan.head_length ≡ need) × (need ≤ length buf) × (n < 2 ^ 31)

unless :
    (buf : Bytes) (n need : ℕ) (code : ℕ) (b : Bool) (scan : Scan)
    → (if b then stop (negsuc code) else scan).pack_size ≡ pos n
    → (b ≡ false → scan.pack_size ≡ pos n → Ends buf n need scan)
    → Ends buf n need (if b then stop (negsuc code) else scan)
unless buf n need code true scan e h = cc
unless buf n need code false scan e h = h refl e

finish-Ends :
    (buf : Bytes) (m : Bool) (size : ℤ) (k n : ℕ)
    → k ≤ length buf
    → IsInt size
    → (finish buf m size k).pack_size ≡ pos n
    → Ends buf n (k + key_need m) (finish buf m size k)
unfolding finish
finish-Ends buf true size k n h i e =
    unless buf n (k + 4) 0 (ltb (length buf) (k + 4))
      (record { pack_size = size; head_length = k + 4; mask = take 4 (drop k buf); ismask = true })
      e (λ enough says. (refl, ground (arith, enough), subst IsInt says i))
finish-Ends buf false size k n h i e = (omega arith, omega arith, subst IsInt e i)

int32-IsInt : (n : ℕ) → IsInt (int32 n)
unfolding int32
int32-IsInt n = elim (Bool-cases (ltb (n % 2 ^ 32) (2 ^ 31))) [
  | inl small ↦ rw small (ground (arith, small))
  | inr big ↦ rw big tt
]

ntohs_small : (x : ℕ) → ntohs x < 2 ^ 31
unfolding ntohs
ntohs_small x = omega arith

-- The bytes before the key, by the length's seven bits.
abbrev length_need : ℕ → ℕ
length_need l = if ltb l 126 then 2 else if l == 126 then 4 else 10

read_payload-Ends :
    (buf : Bytes) (m : Bool) (l n : ℕ)
    → 2 ≤ length buf
    → l < 128
    → (read_payload buf m l).pack_size ≡ pos n
    → Ends buf n (length_need l + key_need m) (read_payload buf m l)
unfolding read_payload
read_payload-Ends buf m l n h s e = by_length (ltb l 126) (l == 126) e
  where
    medium : Scan
    medium = finish buf m (pos (ntohs (load32 buf 2 % 2 ^ 16))) 4

    long : Scan
    long = finish buf m (int32 (ntoh64 (load64 buf 2))) 10

    by_length :
        (a b : Bool)
        → (if a
            then finish buf m (pos l) 2
            else if b
            then (if ltb (length buf) 4 then stop incomplete else medium)
            else if ltb (length buf) 10
            then stop incomplete
            else long).pack_size
          ≡ pos n
        → Ends buf n ((if a then 2 else if b then 4 else 10) + key_need m) (
            if a
            then finish buf m (pos l) 2
            else if b
            then (if ltb (length buf) 4 then stop incomplete else medium)
            else if ltb (length buf) 10
            then stop incomplete
            else long)
    by_length true b e = finish-Ends buf m (pos l) 2 n h (omega arith) e
    by_length false true e =
        unless buf n (4 + key_need m) 0 (ltb (length buf) 4) medium e (λ enough.
          finish-Ends buf m (pos (ntohs (load32 buf 2 % 2 ^ 16))) 4 n (ground (arith, enough))
            (ntohs_small (load32 buf 2 % 2 ^ 16)))
    by_length false false e =
        unless buf n (10 + key_need m) 0 (ltb (length buf) 10) long e (λ enough.
          finish-Ends buf m (int32 (ntoh64 (load64 buf 2))) 10 n (ground (arith, enough))
            (int32-IsInt (ntoh64 (load64 buf 2))))

read_head-Ends :
    (buf : Bytes) (b0 b1 n : ℕ)
    → 2 ≤ length buf
    → (read_head buf b0 b1).pack_size ≡ pos n
    → Ends buf n
        (length_need (b1 % 2 ^ 7) + key_need (not (b1 / 2 ^ 7 % 2 == 0)))
        (read_head buf b0 b1)
unfolding read_head
read_head-Ends buf b0 b1 n h e =
    let is_mask = not (b1 / 2 ^ 7 % 2 == 0) in
    let need = length_need (b1 % 2 ^ 7) + key_need is_mask in
    let opcode = b0 % 2 ^ 4 in
    let reserved =
      not (b0 / 2 ^ 6 % 2 == 0) || not (b0 / 2 ^ 5 % 2 == 0) || not (b0 / 2 ^ 4 % 2 == 0) in
    let in_parts = b0 / 2 ^ 7 % 2 == 0 || opcode == 0 in
    let payload = read_payload buf is_mask (b1 % 2 ^ 7) in
    let not_closing = if opcode == 8 then stop closing else payload in
    let whole = if in_parts then stop invalid else not_closing in
    unless buf n need 1 reserved whole e (λ r e'.
      unless buf n need 1 in_parts not_closing e' (λ p e''.
        unless buf n need 2 (opcode == 8) payload e''
          (λ c. read_payload-Ends buf is_mask (b1 % 2 ^ 7) n h (omega arith))))

-- When `read_size` gives a size that is not negative, the size is an `int`, the header ends where the bits
-- of its second byte say, 2, 4 or 10 bytes for the length and 4 more for the key of a masked frame, and
-- all of the header is in the buffer.
pub read_size-head_need :
    (b0 b1 : ℕ) (bs : Bytes) (n : ℕ)
    → b1 < 256
    → (read_size (b0 ∷ b1 ∷ bs)).pack_size ≡ pos n
    → ((read_size (b0 ∷ b1 ∷ bs)).head_length ≡ head_need b1)
      × (head_need b1 ≤ length (b0 ∷ b1 ∷ bs))
      × (n < 2 ^ 31)
unfolding read_size
read_size-head_need b0 b1 bs n h e =
    let r = read_head-Ends (b0 ∷ b1 ∷ bs) b0 b1 n (omega arith) e in
    let same : (length_need (b1 % 2 ^ 7) + key_need (not (b1 / 2 ^ 7 % 2 == 0))) ≡ head_need b1 =
      ground arith in
    (r.0 ∙ same, omega (arith, r.1, same), r.2)
