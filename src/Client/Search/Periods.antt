-- ===== src/Client/Search/Periods.antt =====
-- Periods of the front of a text: a border of length `b` of the first `n` characters is a period of
-- `n - b`.
use sasy_server.Base.{ℕ, ◌+◌, ◌-◌, ◌<◌, ◌≤◌, ◌≡◌, ◌≢◌, ap, ◌∙◌, sym, arith}
use native.Mathlib.Decide.{dec_lt}

-- The first `n` characters repeat at a distance of `d`.
abbrev pub Period : (ℕ → ℕ) → ℕ → ℕ → Type 0
Period w n d = (k : ℕ) → d + k < n → w k ≡ w (d + k)

-- `b` is the length of the longest border of the first `n` characters.
pub record IsBorder (w : ℕ → ℕ) (n b : ℕ) : Type 0 where
  pub shorter : b < n
  pub period : Period w n (n - b)
  pub longest : (d : ℕ) → 0 < d → d ≤ n → Period w n d → n ≤ b + d

-- What holds at the head of the loop: `c` is the length of a border of the characters before the last,
-- and no longer border of the first `n` characters is left.
pub record IsCandidate (w : ℕ → ℕ) (n c : ℕ) : Type 0 where
  pub room : c + 2 ≤ n
  pub before : Period w (n - 1) (n - 1 - c)
  pub bound : (d : ℕ) → 0 < d → d ≤ n → Period w n d → n ≤ c + 1 + d

module _ (w : ℕ → ℕ) where
  Period-front : (n d : ℕ) → Period w (n + 1) d → Period w n d
  Period-front n d p k h = p k (omega arith)

  pub IsBorder-one : IsBorder w 1 0
  IsBorder-one = record {
    shorter = omega arith;
    period = λ k h. absurd (omega arith);
    longest = λ d p h q. omega arith;
  }

  pub IsCandidate-two : IsCandidate w 2 0
  IsCandidate-two = record {
    room = omega arith;
    before = λ k h. absurd (omega arith);
    bound = λ d p h q. omega arith;
  }

  -- The last character continues the border.
  pub IsBorder-longer : (n c : ℕ) → IsCandidate w n c → w (n - 1) ≡ w c → IsBorder w n (c + 1)
  IsBorder-longer n c s e = record {
    shorter = omega (arith, s.room);
    period = repeats;
    longest = s.bound;
  }
    where
      repeats : Period w n (n - (c + 1))
      repeats k h = elim (dec_lt k c) [
        | yes l ↦ s.before k (omega (arith, s.room)) ∙ ap w (omega (arith, s.room))
        | no l ↦ ap w (omega (arith, s.room)) ∙ sym e ∙ ap w (omega (arith, s.room))
      ]

  -- Of a border of the first `n` characters, the next place can extend only this one.
  pub IsBorder-IsCandidate :
      (n b : ℕ) → 0 < n → IsBorder w n b → b + 1 ≤ n → IsCandidate w (n + 1) b
  IsBorder-IsCandidate n b p s h = record {
    room = omega arith;
    before = λ k l. s.period k (omega arith) ∙ ap w (omega arith);
    bound = bounded;
  }
    where
      bounded : (d : ℕ) → 0 < d → d ≤ n + 1 → Period w (n + 1) d → n + 1 ≤ b + 1 + d
      bounded d q l r = elim (dec_lt n d) [
        | yes m ↦ omega arith
        | no m ↦ omega (arith, s.longest d q (omega arith) (Period-front n d r))
      ]

  -- The last character does not continue the border, and the longest border of the border is tried.
  pub IsCandidate-back :
      (n c b : ℕ) → IsCandidate w n c → w (n - 1) ≢ w c → IsBorder w c b → IsCandidate w n b
  IsCandidate-back n c b s e t = record {
    room = omega (arith, s.room, t.shorter);
    before = λ k h.
        t.period k (omega (arith, t.shorter))
        ∙ s.before (c - b + k) (omega (arith, s.room, t.shorter))
        ∙ ap w (omega (arith, s.room, t.shorter));
    bound = bounded;
  }
    where
      inner :
          (d k : ℕ)
          → Period w n d
          → d + c + 1 ≢ n
          → n ≤ c + 1 + d
          → d < n
          → c + 1 + d - n + k < c
          → w k ≡ w (c + 1 + d - n + k)
      inner d k r ne h l m =
          r k (omega (arith, s.room))
          ∙ ap w (omega (arith, s.room))
          ∙ sym (s.before (c + 1 + d - n + k) (omega (arith, s.room)))

      bounded : (d : ℕ) → 0 < d → d ≤ n → Period w n d → n ≤ b + 1 + d
      bounded d q l r = elim (dec_lt (d + c + 1) n) [
        | yes m ↦ absurd (omega (arith, s.bound d q l r))
        | no m ↦ elim (dec_lt n (d + c + 1)) [
          | no f ↦ absurd (e (ap w (omega (arith, s.room)) ∙ sym (r c (omega arith))))
          | yes f ↦ elim (dec_lt d n) [
            | no g ↦ omega arith
            | yes g ↦ omega (
              arith,
              s.room,
              t.longest (c + 1 + d - n) (omega arith) (omega (arith, s.room))
                  (λ k. inner d k r (omega arith) (s.bound d q l r) g),
            )
          ]
        ]
      ]

  -- No border can be continued.
  pub IsBorder-zero : (n : ℕ) → IsCandidate w n 0 → w (n - 1) ≢ w 0 → IsBorder w n 0
  IsBorder-zero n s e = record {
    shorter = omega (arith, s.room);
    period = λ k h. absurd (omega arith);
    longest = bounded;
  }
    where
      bounded : (d : ℕ) → 0 < d → d ≤ n → Period w n d → n ≤ 0 + d
      bounded d q l r = elim (dec_lt d n) [
        | no f ↦ omega arith
        | yes f ↦ absurd (e (sym (r 0 (omega arith) ∙ ap w (omega (arith, s.bound d q l r)))))
      ]
