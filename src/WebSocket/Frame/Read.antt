-- ===== src/WebSocket/Frame/Read.antt =====
-- What `read_size` finds in the header of a frame, whole or cut short.
use sasy_server.Base.{
  ℕ, ◌+◌, ◌*◌, ◌/◌, ◌%◌, ◌^◌, ◌<◌, ◌≤◌, ◌≡◌, refl, ap, ◌∙◌, Bool, true, not, [], ◌∷◌, ◌++◌, ltb,
  ◌==◌, if◌then◌else◌, Bytes, length, get_or, arith, u32, sym, length-append, take-append,
  drop-append, append_assoc, inl, inr, Bool-cases, ltb→lt,
}
use sasy_server.Base.Int.{ℤ, ℤ, pos, int32, int32_of_lt}
use sasy_server.WebSocket.Frame.{
  read_payload, read_head, stop, incomplete, load32, load64, ntohs, ntohl, ntoh64, finish,
  read_size,
}
use sasy_server.WebSocket.Wire.{big_endian, head, client_head, IsOpcode}

-- The bytes that a header takes, by its second byte.
abbrev pub head_need : ℕ → ℕ
head_need b1 =
    (if ltb (b1 % 128) 126 then 2 else if b1 % 128 == 126 then 4 else 10)
    + (if ltb b1 128 then 0 else 4)

-- As long as bytes of the header are missing, `read_size` asks for more.
pub read_size_short :
    (opcode b1 : ℕ) (bs : Bytes)
    → IsOpcode opcode
    → b1 < 256
    → length bs + 2 < head_need b1
    → read_size ((128 + opcode) ∷ b1 ∷ bs) ≡ stop incomplete
unfolding read_size read_payload finish
read_size_short opcode b1 bs o h l = ground arith

ntohs_bytes :
    (a b x y : ℕ)
    → a < 256
    → b < 256
    → ntohs ((a + 2 ^ 8 * b + 2 ^ 16 * (x + 2 ^ 8 * y)) % 2 ^ 16) ≡ a * 256 + b
unfolding ntohs
ntohs_bytes a b x y p q = omega arith

ntohl_bytes :
    (a b c d : ℕ)
    → a < 256
    → b < 256
    → c < 256
    → d < 256
    → ntohl (a + 2 ^ 8 * b + 2 ^ 16 * (c + 2 ^ 8 * d)) ≡ (a * 256 + b) * 65536 + (c * 256 + d)
unfolding ntohl
ntohl_bytes a b c d p q r s = omega arith

abbrev pub be32 : ℕ → ℕ → ℕ → ℕ → ℕ
be32 a b c d = (a * 256 + b) * 65536 + (c * 256 + d)

u32_halves :
    (lo hi : ℕ)
    → lo < 2 ^ 32
    → hi < 2 ^ 32
    → (u32 (lo + 2 ^ 32 * hi) ≡ lo) × (u32 ((lo + 2 ^ 32 * hi) / 2 ^ 32) ≡ hi)
u32_halves lo hi p q = omega arith

-- The eight bytes of a 64-bit length, as `ntoh64` turns them round.
ntoh64_bytes :
    (a b c d e f g h : ℕ)
    → a < 256
    → b < 256
    → c < 256
    → d < 256
    → e < 256
    → f < 256
    → g < 256
    → h < 256
    → ntoh64 (
        a
        + 2 ^ 8 * b
        + 2 ^ 16 * (c + 2 ^ 8 * d)
        + 2 ^ 32 * (e + 2 ^ 8 * f + 2 ^ 16 * (g + 2 ^ 8 * h)))
      ≡ be32 a b c d * 2 ^ 32 + be32 e f g h
unfolding ntoh64
ntoh64_bytes a b c d e f g h pa pb pc pd pe pf pg ph =
    let halves =
      u32_halves (a + 2 ^ 8 * b + 2 ^ 16 * (c + 2 ^ 8 * d))
        (e + 2 ^ 8 * f + 2 ^ 16 * (g + 2 ^ 8 * h)) (omega arith) (omega arith) in
    rw (halves.0, halves.1, ntohl_bytes a b c d pa pb pc pd, ntohl_bytes e f g h pe pf pg ph)

int32-add : (hi lo : ℕ) → int32 (hi * 2 ^ 32 + lo) ≡ int32 lo
unfolding int32
int32-add hi lo = ground arith

abbrev bit : Bool → ℕ
bit m = if m then 128 else 0

module _ (opcode : ℕ) (o : IsOpcode opcode) (m : Bool) where
  head_short :
      (n : ℕ) (bs : Bytes)
      → n < 126
      → let buf = (128 + opcode) ∷ (bit m + n) ∷ bs in read_size buf ≡ finish buf m (pos n) 2
  unfolding read_size read_payload
  head_short n bs h = ground arith

  head_medium :
      (a b : ℕ) (bs : Bytes)
      → a < 256
      → b < 256
      → let buf = (128 + opcode) ∷ (bit m + 126) ∷ a ∷ b ∷ bs in
        read_size buf ≡ finish buf m (pos (a * 256 + b)) 4
  unfolding read_size read_payload load32
  head_medium a b bs p q = ground (arith, ntohs_bytes a b (get_or bs 0 0) (get_or bs 1 0) p q)

  head_long :
      (a b c d e f g h : ℕ) (bs : Bytes)
      → a < 256
      → b < 256
      → c < 256
      → d < 256
      → e < 256
      → f < 256
      → g < 256
      → h < 256
      → let buf = (128 + opcode) ∷ (bit m + 127) ∷ a ∷ b ∷ c ∷ d ∷ e ∷ f ∷ g ∷ h ∷ bs in
        read_size buf ≡ finish buf m (int32 (be32 e f g h)) 10
  unfolding read_size read_payload load64
  head_long a b c d e f g h bs pa pb pc pd pe pf pg ph = ground (
    arith,
    ntoh64_bytes a b c d e f g h pa pb pc pd pe pf pg ph,
    int32-add (be32 a b c d) (be32 e f g h),
  )

-- The end of `read_size` where the whole mask is there, and where none is wanted.
finish-masked :
    (h key rest : Bytes) (size : ℤ) (offset : ℕ)
    → offset ≡ length h
    → length key ≡ 4
    → finish (h ++ (key ++ rest)) true size offset
      ≡ record { pack_size = size; head_length = offset + 4; mask = key; ismask = true }
unfolding finish
finish-masked h key rest size offset e k = ground (
  arith,
  length-append h (key ++ rest),
  length-append key rest,
  drop-append h (key ++ rest) offset e,
  take-append key rest 4 (sym k),
)

-- The length written in two or in eight bytes.
two_bytes : (n : ℕ) → n < 65536 → n / 256 % 256 * 256 + n / 1 % 256 ≡ n
two_bytes n h = omega arith

four_bytes :
    (n : ℕ)
    → n < 2 ^ 31
    → int32 (be32 (n / 16777216 % 256) (n / 65536 % 256) (n / 256 % 256) (n / 1 % 256)) ≡ pos n
four_bytes n h =
    let e : be32 (n / 16777216 % 256) (n / 65536 % 256) (n / 256 % 256) (n / 1 % 256) ≡ n =
      omega arith in
    rw e (int32_of_lt n h)

module _ (opcode : ℕ) (o : IsOpcode opcode) (m : Bool) where
  -- The header of a frame of `n` bytes, with anything behind it.
  pub read_size-head :
      (n : ℕ) (tail : Bytes)
      → n < 2 ^ 31
      → let buf = head opcode (bit m) n ++ tail in
        read_size buf ≡ finish buf m (pos n) (length (head opcode (bit m) n))
  read_size-head n tail h = elim (Bool-cases (ltb n 126)) [
    | inl short ↦ rw short (head_short opcode o m n tail (ltb→lt _ _ short))
    | inr long ↦ rw long (elim (Bool-cases (ltb n 65536)) [
      | inl medium ↦ rw medium (
          head_medium opcode o m _ _ tail (omega arith) (omega arith)
          ∙ ap (λ k. finish (start ∷ (bit m + 126) ∷ (big_endian 2 n ++ tail)) m (pos k) 4)
              (two_bytes n (ltb→lt _ _ medium)))
      | inr longest ↦ rw longest (
          head_long opcode o m _ _ _ _ _ _ _ _ tail (omega arith) (omega arith) (omega arith)
            (omega arith) (omega arith) (omega arith) (omega arith) (omega arith)
          ∙ ap (λ k. finish (start ∷ (bit m + 127) ∷ (big_endian 8 n ++ tail)) m k 10)
              (four_bytes n h))
    ])
  ]
    where
      start : ℕ
      start = 128 + opcode

-- Of a client's frame that neither continues a message nor closes the connection, with a payload of
-- less than 2 ^ 31 bytes and anything behind its header, `read_size` finds the length, where the
-- payload begins, and the mask.
pub read_size-client_head :
    (opcode n : ℕ) (key rest : Bytes)
    → IsOpcode opcode
    → length key ≡ 4
    → n < 2 ^ 31
    → read_size (client_head opcode key n ++ rest) ≡ record {
      pack_size = pos n;
      head_length = length (client_head opcode key n);
      mask = key;
      ismask = true;
    }
read_size-client_head opcode n key rest o k h =
    let front = head opcode 128 n in
    ap read_size (append_assoc front key rest)
    ∙ read_size-head opcode o true n (key ++ rest) h
    ∙ finish-masked front key rest (pos n) (length front) refl k
    ∙ ap (λ l. record { pack_size = pos n; head_length = l; mask = key; ismask = true })
        (omega (arith, length-append front key))

-- A size that is not negative comes with a header of at least two bytes.
finish_bounds :
    (buf : Bytes) (m : Bool) (size : ℤ) (k n : ℕ)
    → 2 ≤ k
    → (finish buf m size k).pack_size ≡ pos n
    → 2 ≤ (finish buf m size k).head_length
unfolding finish
finish_bounds buf m size k n h e = ground arith

read_payload_bounds :
    (buf : Bytes) (m : Bool) (l n : ℕ)
    → (read_payload buf m l).pack_size ≡ pos n
    → 2 ≤ (read_payload buf m l).head_length
unfolding read_payload
read_payload_bounds buf m l n e = ground (
  arith,
  finish_bounds buf m (pos l) 2 n,
  finish_bounds buf m (pos (ntohs (load32 buf 2 % 2 ^ 16))) 4 n,
  finish_bounds buf m (int32 (ntoh64 (load64 buf 2))) 10 n,
)

read_head_bounds :
    (buf : Bytes) (b0 b1 n : ℕ)
    → (read_head buf b0 b1).pack_size ≡ pos n
    → 2 ≤ (read_head buf b0 b1).head_length
unfolding read_head
read_head_bounds buf b0 b1 n e =
    ground (arith, read_payload_bounds buf (not (b1 / 2 ^ 7 % 2 == 0)) (b1 % 2 ^ 7) n)

-- A frame has a size that is not negative only where its header has at least two bytes, and the
-- buffer too.
pub read_size_bounds :
    (buf : Bytes) (n : ℕ)
    → (read_size buf).pack_size ≡ pos n
    → (2 ≤ (read_size buf).head_length) × (2 ≤ length buf)
unfolding read_size
read_size_bounds [] n e = cc
read_size_bounds (b ∷ []) n e = cc
read_size_bounds (b0 ∷ b1 ∷ bs) n e = (read_head_bounds (b0 ∷ b1 ∷ bs) b0 b1 n e, omega arith)
