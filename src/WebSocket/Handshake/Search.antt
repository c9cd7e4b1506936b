-- ===== src/WebSocket/Handshake/Search.antt =====
-- The search finds the first place where the header ends.
use sasy_server.Base.{
  ℕ, zero, suc, ◌+◌, ◌-◌, ◌≤◌, ◌<◌, ◌≡◌, ◌≢◌, refl, ap, sym, ◌∙◌, true, false, [], ◌∷◌, ◌++◌, ltb,
  Bytes, length, drop, length-drop, length-take, take, take-append-drop, drop-append, arith,
  Bool-cases, ltb→lt, inl, inr,
}
use sasy_server.Base.Int.{ℤ, pos, negsuc}
use sasy_server.WebSocket.Handshake.{
  starts_with, strnpos_from, websocket_strnpos, header_end, get_http_header, after_end,
}

-- A place where the needle stands leaves room for it.
pub length-starts_with :
    (xs needle : Bytes) → starts_with xs needle ≡ true → length needle ≤ length xs
unfolding starts_with
length-starts_with xs [] h = omega arith
length-starts_with [] (n ∷ needle) h = cc
length-starts_with (x ∷ xs) (n ∷ needle) h = ground (arith, length-starts_with xs needle)

-- What the loop returns on a haystack whose head has index `i`.
abbrev pub Found : ℤ → ℕ → Bytes → Bytes → Type 0
Found (pos k) i xs needle =
    (j : ℕ) × (k ≡ i + j)
    × (starts_with (drop j xs) needle ≡ true)
    × ((l : ℕ) → l < j → starts_with (drop l xs) needle ≡ false)
Found (negsuc k) i xs needle = (k ≡ 0) × ((l : ℕ) → starts_with (drop l xs) needle ≡ false)

-- Where the rest is too short for the needle, it stands nowhere in it.
none_short :
    (xs needle : Bytes)
    → length xs < length needle
    → (l : ℕ) → starts_with (drop l xs) needle ≡ false
none_short xs needle h l = elim (Bool-cases (starts_with (drop l xs) needle)) [
  | inl t ↦ absurd (omega (arith, length-starts_with (drop l xs) needle t, length-drop l xs))
  | inr f ↦ f
]

-- One step back: what holds of the rest, with a head where the needle does not stand.
Found-cons :
    (r : ℤ) (i x : ℕ) (xs needle : Bytes)
    → starts_with (x ∷ xs) needle ≡ false
    → Found r (i + 1) xs needle
    → Found r i (x ∷ xs) needle
Found-cons (pos k) i x xs needle f (j, e, t, before) = (suc j, omega arith, t, earlier)
  where
    earlier : (l : ℕ) → l < suc j → starts_with (drop l (x ∷ xs)) needle ≡ false
    earlier zero h = f
    earlier (suc l) h = before l (omega arith)
Found-cons (negsuc k) i x xs needle f (e, nowhere) = (e, never)
  where
    never : (l : ℕ) → starts_with (drop l (x ∷ xs)) needle ≡ false
    never zero = f
    never (suc l) = nowhere l

strnpos_from-Found :
    (rounds i : ℕ) (xs needle : Bytes)
    → 0 < length needle
    → length xs + 1 ≤ rounds + length needle
    → Found (strnpos_from rounds i xs needle) i xs needle
unfolding strnpos_from
strnpos_from-Found zero i xs needle p h = (refl, none_short xs needle (omega arith))
strnpos_from-Found (suc rounds) i [] needle p h = (refl, none_short [] needle (omega arith))
strnpos_from-Found (suc rounds) i (x ∷ xs) needle p h =
    elim (Bool-cases (starts_with (x ∷ xs) needle)) [
      | inl t ↦ rw t (0, omega arith, t, λ l l-lt. absurd (omega arith))
      | inr f ↦ rw f (
          Found-cons (strnpos_from rounds (i + 1) xs needle) i x xs needle f
            (strnpos_from-Found rounds (i + 1) xs needle p (omega arith)))
    ]

pub websocket_strnpos-Found :
    (xs : Bytes) (n : ℕ) (needle : Bytes) → Found (websocket_strnpos xs n needle) 0 xs (n ∷ needle)
unfolding websocket_strnpos
websocket_strnpos-Found xs n needle = elim (Bool-cases (ltb (length xs) (length (n ∷ needle)))) [
  | inl t ↦ rw t (refl, none_short xs (n ∷ needle) (ltb→lt _ _ t))
  | inr f ↦ rw f (
      strnpos_from-Found (length xs - length (n ∷ needle) + 1) 0 xs (n ∷ needle) (omega arith)
        (ground arith))
]

starts_with-append : (needle r : Bytes) → starts_with (needle ++ r) needle ≡ true
unfolding starts_with
starts_with-append [] r = refl
starts_with-append (n ∷ needle) r = ground (arith, starts_with-append needle r)

pub append-starts_with :
    (xs needle : Bytes) → starts_with xs needle ≡ true → xs ≡ needle ++ drop (length needle) xs
unfolding starts_with
append-starts_with xs [] h = refl
append-starts_with [] (n ∷ needle) h = cc
append-starts_with (x ∷ xs) (n ∷ needle) h = ground (arith, append-starts_with xs needle)

abbrev pub crlf_crlf : Bytes
crlf_crlf = b'\r' ∷ header_end

-- Nowhere before index `j` (or nowhere at all) does a blank line end the header.
nowhere_split :
    (buf : Bytes) (f r : Bytes) (j : ℕ)
    → ((l : ℕ) → l < j → starts_with (drop l buf) crlf_crlf ≡ false)
    → buf ≡ f ++ (crlf_crlf ++ r)
    → j ≤ length f
nowhere_split buf f r j before e = elim (Bool-cases (ltb (length f) j)) [
  | inl early ↦
      let seen : starts_with (drop (length f) buf) crlf_crlf ≡ true =
        rw (e, drop-append f (crlf_crlf ++ r) (length f) refl) (starts_with-append crlf_crlf r) in
      cc (seen, before (length f) (ltb→lt _ _ early))
  | inr late ↦ ground arith
]

-- A header ends behind the first blank line: when `get_http_header` returns `k`, the buffer is
-- `front`, a blank line and `rest` with `k` just behind the blank line, and no blank line begins
-- earlier. When it returns a negative number, that is -1, and the buffer holds no blank line.
abbrev pub FirstEnd : Bytes → ℤ → Type 0
FirstEnd buf (pos k) =
    (front rest : Bytes) × (buf ≡ front ++ (crlf_crlf ++ rest))
    × (k ≡ length front + 4)
    × ((f r : Bytes) → buf ≡ f ++ (crlf_crlf ++ r) → length front ≤ length f)
FirstEnd buf (negsuc k) = (k ≡ 0) × ((f r : Bytes) → buf ≢ f ++ (crlf_crlf ++ r))

-- The result is the length of the shortest front of the buffer that ends in a blank line, and -1
-- when the buffer has no blank line.
pub get_http_header-FirstEnd : (buf : Bytes) → FirstEnd buf (get_http_header buf)
unfolding get_http_header
get_http_header-FirstEnd buf =
    first (websocket_strnpos buf b'\r' header_end) (websocket_strnpos-Found buf b'\r' header_end)
  where
    first : (r : ℤ) → Found r 0 buf crlf_crlf → FirstEnd buf (after_end r)
    first (pos k) (j, e, t, before) =
        let whole : buf ≡ take j buf ++ (crlf_crlf ++ drop 4 (drop j buf)) =
          sym (take-append-drop j buf)
          ∙ ap (λ r. take j buf ++ r) (append-starts_with (drop j buf) crlf_crlf t) in
        let room = length-starts_with (drop j buf) crlf_crlf t in
        (
          take j buf,
          drop 4 (drop j buf),
          whole,
          omega (arith, length-take j buf, length-drop j buf),
          λ f r split. omega (arith, length-take j buf, nowhere_split buf f r j before split),
        )
    first (negsuc k) (e, never) =
        (e, λ f r split. omega (arith, nowhere_split buf f r (length f + 1) (λ l h. never l) split))
