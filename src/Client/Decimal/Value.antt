-- ===== src/Client/Decimal/Value.antt =====
-- What is printed is read as the number.
use sasy_server.Base.{
  All-append, ℕ, zero, suc, ◌+◌, ◌-◌, ◌*◌, ◌^◌, ◌<◌, ◌≤◌, ◌≡◌, refl, ap, ◌∙◌, [], ◌∷◌, ◌++◌, ◌==◌,
  if◌then◌else◌, Bytes, length, All, arith, ok,
}
use mathlib.Core.List.{reverse, reverse-append}
use sasy_server.Base.Int.{ℤ, pos, negsuc}
use sasy_server.Client.Decimal.{itoa_parser}
use sasy_server.Client.Decimal.Digits.{IsDigit, value, digits-Writes}
use sasy_server.Client.Decimal.Reversal.{turned-digits, turned-sign, length-reverse}

-- A decimal text, read from its first digit on.
abbrev pub decimal : ℕ → Bytes → ℕ
decimal n [] = n
decimal n (c ∷ cs) = decimal (n * 10 + (c - b'0')) cs

abbrev pub minus : ℕ → ℤ
minus zero = pos 0
minus (suc n) = negsuc n

-- A sign, if any, and digits.
abbrev pub read_int : Bytes → ℤ
read_int [] = pos 0
read_int (c ∷ cs) = if c == b'-' then minus (decimal 0 cs) else pos (decimal 0 (c ∷ cs))

decimal-append :
    (n : ℕ) (xs : Bytes) (c : ℕ) → decimal n (xs ++ c ∷ []) ≡ decimal n xs * 10 + (c - b'0')
decimal-append n [] c = refl
decimal-append n (x ∷ xs) c = decimal-append (n * 10 + (x - b'0')) xs c

decimal-reverse : (cs : Bytes) → decimal 0 (reverse cs) ≡ value cs
decimal-reverse [] = refl
decimal-reverse (c ∷ cs) =
    ap (decimal 0) (reverse-append (c ∷ []) cs)
    ∙ omega (arith, decimal-append 0 (reverse cs) c, decimal-reverse cs)

All-reverse : (cs : Bytes) → All IsDigit cs → All IsDigit (reverse cs)
All-reverse [] a = tt
All-reverse (c ∷ cs) a =
    rw (reverse-append (c ∷ []) cs)
      (All-append IsDigit (reverse cs) (c ∷ []) (All-reverse cs a.1) (a.0, tt))

read_int-digits : (xs : Bytes) → All IsDigit xs → read_int xs ≡ pos (decimal 0 xs)
read_int-digits [] a = refl
read_int-digits (c ∷ cs) a = ground (arith, a.0)

-- Every `int` is printed in base 10 within the array of 32 characters, as a sign, if it is negative,
-- and decimal digits, at most ten if it is not negative, and the text is read as that number.
pub read_int-itoa_parser :
    (num : ℕ)
    → num < 2 ^ 31
    → (text : Bytes) × (ds : Bytes) × (itoa_parser (pos num) 10 ≡ ok text)
      × (read_int text ≡ pos num)
      × All IsDigit text
      × (length text ≤ 10)
      × (itoa_parser (negsuc num) 10 ≡ ok (b'-' ∷ ds))
      × (read_int (b'-' ∷ ds) ≡ negsuc num)
      × All IsDigit ds
unfolding itoa_parser
read_int-itoa_parser num h =
    let (cs, e, w) = digits-Writes 10 32 num (omega arith) (omega arith) (omega arith) in
    let (ds, d, v) = digits-Writes 10 31 (num + 1) (omega arith) (omega arith) (omega arith) in
    let worth_suc : value ds ≡ suc num = omega (arith, v.worth) in
    (
      reverse cs,
      reverse ds,
      rw e (ap ok (turned-digits cs w.some_digit)),
      read_int-digits (reverse cs) (All-reverse cs w.all_digits)
          ∙ ap pos (decimal-reverse cs ∙ w.worth),
      All-reverse cs w.all_digits,
      omega (arith, length-reverse cs, w.few_digits),
      rw d (ap ok (turned-sign b'-' ds)),
      ap minus (decimal-reverse ds ∙ worth_suc),
      All-reverse ds v.all_digits,
    )
