-- ===== src/Client/Decimal/Digits.antt =====
-- The digits that the loop writes, and that there is room for those of an `int`.
use sasy_server.Base.{
  ℕ, zero, suc, ◌+◌, ◌-◌, ◌*◌, ◌/◌, ◌%◌, ◌<◌, ◌≤◌, ◌≡◌, ◌≢◌, refl, [], ◌∷◌, ◌==◌, Bool-cases, inl,
  inr, Bytes, length, All, arith, ok,
}
use sasy_server.Client.Decimal.{index, digits}

abbrev pub IsDigit : ℕ → Type 0
IsDigit c = (b'0' ≤ c) × (c ≤ b'9')

-- The number that the digits stand for, the lowest first.
abbrev pub value : Bytes → ℕ
value [] = 0
value (c ∷ cs) = c - b'0' + 10 * value cs

-- 10 ^ d
abbrev pub ten_to : ℕ → ℕ
ten_to zero = 1
ten_to (suc d) = 10 * ten_to d

index-IsDigit : (d : ℕ) → d < 10 → IsDigit (index d) × (index d - b'0' ≡ d)
index-IsDigit d h = ground arith

-- That a text of at most `d` digits was written for the number.
pub record Writes (d : ℕ) (cs : Bytes) (n : ℕ) : Type 0 where
  pub all_digits : All IsDigit cs
  pub worth : value cs ≡ n
  pub some_digit : 0 < length cs
  pub few_digits : length cs ≤ d

pub digits-Writes :
    (d room n : ℕ)
    → n < ten_to d
    → 0 < d
    → d < room
    → (cs : Bytes) × (digits room n 10 ≡ ok cs) × Writes d cs n
unfolding digits
digits-Writes d zero n h p r = absurd (omega arith)
digits-Writes zero (suc room) n h p r = absurd (omega arith)
digits-Writes (suc d) (suc room) n h p r = elim (Bool-cases (n / 10 == 0)) [
  | inl last ↦ elim (Bool-cases (room == 0)) [
    | inl full ↦ absurd (ground (arith, full))
    | inr free ↦
        rw (last, free)
          (
            index (n % 10) ∷ [],
            refl,
            record {
              all_digits = ((index-IsDigit (n % 10) (omega arith)).0, tt);
              worth = worth_last (ground (arith, last));
              some_digit = omega arith;
              few_digits = omega (arith);
            },
          )
  ]
  | inr more ↦
      let (cs, e, w) =
        digits-Writes d room (n / 10) (omega arith) (positive d (ground (arith, more)) h)
          (omega arith) in
      rw (more) (
        rw e (
          index (n % 10) ∷ cs,
          refl,
          record {
            all_digits = ((index-IsDigit (n % 10) (omega arith)).0, w.all_digits);
            worth = omega (arith, (index-IsDigit (n % 10) (omega arith)).1, w.worth);
            some_digit = omega arith;
            few_digits = omega (arith, w.few_digits);
          },
        ))
]
  where
    worth_last : n / 10 ≡ 0 → value (index (n % 10) ∷ []) ≡ n
    worth_last e = omega (arith, (index-IsDigit (n % 10) (omega arith)).1)

    positive : (d : ℕ) → n / 10 ≢ 0 → n < ten_to (suc d) → 0 < d
    positive zero ne l = absurd (ne (omega arith))
    positive (suc d) ne l = omega arith
