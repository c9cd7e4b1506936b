-- ===== src/Client/Decimal.antt =====
-- `itoa_parser` of game_room/client/select.h: a number as a text.
pub mod Digits
pub mod Reversal
pub mod Value
use sasy_server.Base.{
  ℕ, zero, suc, ◌+◌, ◌-◌, ◌*◌, ◌/◌, ◌%◌, ◌^◌, Bool, true, false, List, [], ◌∷◌, ◌++◌, ltb, ◌==◌,
  if◌then◌else◌, Bytes, length, get_or, Outcome, ok, fault, ◌>>=◌, update,
}
use sasy_server.Base.Int.{ℤ, pos, negsuc}

-- `static char index[17] = "0123456789ABCDEF"`
abbrev pub index : ℕ → ℕ
index d = if ltb d 10 then b'0' + d else b'A' + (d - 10)

-- The `do` loop: the digits from the lowest on. `room` is what is left of the array of 32 characters,
-- which also has to hold the zero at the end.
unfoldable pub digits : ℕ → ℕ → ℕ → Outcome Bytes
digits zero unum radix = fault
digits (suc room) unum radix =
    let rest = digits room (unum / radix) radix >>= λ cs. ok (index (unum % radix) ∷ cs) in
    if unum / radix == 0
    then (if room == 0 then fault else ok (index (unum % radix) ∷ []))
    else rest

-- `temp = str[j]; str[j] = str[l]; str[l] = temp;`
abbrev pub swap : (ℕ → ℕ) → ℕ → ℕ → ℕ → ℕ
swap str j l = update (update str j (str l)) l (str j)

-- `for (j = k; j <= (i - 1) / 2; j++)`, with the rounds that are left.
unfoldable pub swap_loop : ℕ → ℕ → ℕ → ℕ → (ℕ → ℕ) → ℕ → ℕ
swap_loop zero j i k str = str
swap_loop (suc rounds) j i k str = swap_loop rounds (j + 1) i k (swap str j (i - 1 + k - j))

-- The characters from index `p` on, `n` of them.
unfoldable pub front : (ℕ → ℕ) → ℕ → ℕ → Bytes
front str p zero = []
front str p (suc n) = str p ∷ front str (p + 1) n

-- The text that the array holds: `i` characters, of which the first `k` are the sign.
unfoldable pub turned : Bytes → ℕ → Bytes
unfolding swap_loop front
turned written k =
    let i = length written in
    front (swap_loop ((i - 1) / 2 + 1 - k) k i k (λ p. get_or written p 0)) 0 i

-- The number is an `int`, and the radix is from 2 to 16.
unfoldable pub itoa_parser : ℤ → ℕ → Outcome Bytes
unfolding digits turned
itoa_parser (pos n) radix = digits 32 n radix >>= λ cs. ok (turned cs 0)
itoa_parser (negsuc n) radix =
    if radix == 10
    then (digits 31 (n + 1) 10 >>= λ cs. ok (turned (b'-' ∷ cs) 1))
    else (digits 32 (2 ^ 32 - (n + 1)) radix >>= λ cs. ok (turned cs 0))
