-- ===== src/Client/Decimal/Reversal.antt =====
-- The loop of swaps turns the digits round.
use sasy_server.Base.{
  get_or-append_left, get_or-append_right, ℕ, zero, suc, ◌+◌, ◌-◌, ◌/◌, ◌<◌, ◌≤◌, ◌≡◌, ◌≢◌, refl,
  ap, ap₂, ◌∙◌, sym, [], ◌∷◌, ◌++◌, ltb, if◌then◌else◌, Bytes, length, length-append, get_or,
  update, update_self, update_ne, arith, lt→ltb, le→ltb,
}
use mathlib.Core.List.{reverse, reverse-append}
use native.Mathlib.Decide.{dec_lt}
use sasy_server.Client.Decimal.{swap, swap_loop, front, turned}

swap_other : (str : ℕ → ℕ) (j l p : ℕ) → p ≢ j → p ≢ l → swap str j l p ≡ str p
swap_other str j l p a b =
    update_ne (update str j (str l)) l p (str j) (λ e. b (sym e))
    ∙ update_ne str j p (str l) (λ e. a (sym e))

-- The characters from `j` to its mirror image `t - j` are turned round, the others stay.
abbrev mirrored : ℕ → ℕ → (ℕ → ℕ) → ℕ → ℕ
mirrored t j str p = if ltb p j then str p else if ltb (t - j) p then str p else str (t - p)

mirrored-swap :
    (t j : ℕ) (str : ℕ → ℕ) (p : ℕ)
    → j + j ≤ t
    → p ≤ t
    → mirrored t (j + 1) (swap str j (t - j)) p ≡ mirrored t j str p
mirrored-swap t j str p h l = elim (dec_lt p j) [
  | yes a ↦
      rw (lt→ltb p j a, lt→ltb p (j + 1) (omega arith))
        (swap_other str j (t - j) p (omega arith) (omega arith))
  | no a ↦ elim (dec_lt j p) [
    | no b ↦
        let e : p ≡ j = omega arith in
        rw e (
          rw
            (
              lt→ltb j (j + 1) (omega arith),
              le→ltb j j (omega arith),
              le→ltb (t - j) j (omega arith),
            )
            (ground arith))
    | yes b ↦ elim (dec_lt (t - j) p) [
      | yes c ↦
          rw
            (
              le→ltb p j (omega arith),
              le→ltb p (j + 1) (omega arith),
              lt→ltb (t - j) p c,
              lt→ltb (t - (j + 1)) p (omega arith),
            )
            (swap_other str j (t - j) p (omega arith) (omega arith))
      | no c ↦ elim (dec_lt p (t - j)) [
        | yes d ↦
            rw
              (
                le→ltb p j (omega arith),
                le→ltb p (j + 1) (omega arith),
                le→ltb (t - j) p (omega arith),
                le→ltb (t - (j + 1)) p (omega arith),
              )
              (swap_other str j (t - j) (t - p) (omega arith) (omega arith))
        | no d ↦
            let e : p ≡ t - j = omega arith in
            rw
              (
                le→ltb p j (omega arith),
                le→ltb p (j + 1) (omega arith),
                le→ltb (t - j) p (omega arith),
                lt→ltb (t - (j + 1)) p (omega arith),
              )
              (ap (swap str j (t - j)) e
                ∙ update_self (update str j (str (t - j))) (t - j) (str j)
                ∙ ap str (omega arith))
      ]
    ]
  ]
]

swap_loop-mirrored :
    (rounds j i k : ℕ) (str : ℕ → ℕ) (p : ℕ)
    → k ≤ 1
    → i ≤ j + rounds + (j + rounds)
    → j + rounds + (j + rounds) ≤ i + 1
    → p < i
    → swap_loop rounds j i k str p ≡ mirrored (i - 1 + k) j str p
unfolding swap_loop
swap_loop-mirrored zero j i k str p a b c d = elim (dec_lt p j) [
  | yes e ↦ rw (lt→ltb p j e) refl
  | no e ↦ elim (dec_lt (i - 1 + k - j) p) [
    | yes f ↦ rw (le→ltb p j (omega arith), lt→ltb (i - 1 + k - j) p f) refl
    | no f ↦
        rw (le→ltb p j (omega arith), le→ltb (i - 1 + k - j) p (omega arith)) (ap str (omega arith))
  ]
]
swap_loop-mirrored (suc rounds) j i k str p a b c d =
    swap_loop-mirrored rounds (j + 1) i k (swap str j (i - 1 + k - j)) p a (omega arith)
      (omega arith) d
    ∙ mirrored-swap (i - 1 + k) j str p (omega arith) (omega arith)

front-eq :
    (f : ℕ → ℕ) (p : ℕ) (xs : Bytes)
    → ((q : ℕ) → q < length xs → f (p + q) ≡ get_or xs q 0)
    → front f p (length xs) ≡ xs
unfolding front
front-eq f p [] h = refl
front-eq f p (x ∷ xs) h =
    ap₂ ◌∷◌ (ap f (omega arith) ∙ h 0 (omega arith))
      (front-eq f (p + 1) xs (λ q l. ap f (omega arith) ∙ h (suc q) (omega arith)))

pub length-reverse : (cs : Bytes) → length (reverse cs) ≡ length cs
length-reverse [] = refl
length-reverse (c ∷ cs) =
    ap length (reverse-append (c ∷ []) cs)
    ∙ omega (arith, length-append (reverse cs) (reverse (c ∷ [])), length-reverse cs)

get_or-reverse :
    (cs : Bytes) (q : ℕ) → q < length cs → get_or (reverse cs) q 0 ≡ get_or cs (length cs - 1 - q) 0
get_or-reverse [] q h = absurd (omega arith)
get_or-reverse (c ∷ cs) q h =
    ap (λ l. get_or l q 0) (reverse-append (c ∷ []) cs) ∙ elim (dec_lt q (length cs)) [
      | yes l ↦
          get_or-append_left (reverse cs) (c ∷ []) q 0 (omega (arith, length-reverse cs))
          ∙ get_or-reverse cs q l
          ∙ sym (ap (λ j. get_or (c ∷ cs) j 0) (below (length cs) l))
      | no l ↦
          ap (λ j. get_or (reverse cs ++ c ∷ []) j 0) (top (length-reverse cs) (omega arith))
          ∙ get_or-append_right (reverse cs) (c ∷ []) 0 0
          ∙ sym (ap (λ j. get_or (c ∷ cs) j 0) (last (omega arith)))
    ]
  where
    below : (n : ℕ) → q < n → suc n - 1 - q ≡ suc (n - 1 - q)
    below n l = omega arith

    top : length (reverse cs) ≡ length cs → q ≡ length cs → q ≡ length (reverse cs) + 0
    top e f = omega arith

    last : q ≡ length cs → suc (length cs) - 1 - q ≡ 0
    last e = omega arith

-- The text of a number without a sign, and with one.
pub turned-digits : (cs : Bytes) → 0 < length cs → turned cs 0 ≡ reverse cs
unfolding turned
turned-digits cs h =
    ap (front (swap_loop ((length cs - 1) / 2 + 1 - 0) 0 (length cs) 0 (λ p. get_or cs p 0)) 0)
      (sym (length-reverse cs))
    ∙ front-eq (swap_loop ((length cs - 1) / 2 + 1 - 0) 0 (length cs) 0 (λ p. get_or cs p 0)) 0
        (reverse cs)
        (λ q l.
          swap_loop-mirrored ((length cs - 1) / 2 + 1 - 0) 0 (length cs) 0 (λ p. get_or cs p 0)
            (0 + q) (omega arith) (omega arith) (omega arith) (omega (arith, length-reverse cs))
          ∙ rw
              (
                le→ltb (0 + q) 0 (omega arith),
                le→ltb (length cs - 1 + 0 - 0) (0 + q) (omega (arith, length-reverse cs)),
              )
              (ap (λ j. get_or cs j 0) (omega arith)
                ∙ sym (get_or-reverse cs q (omega (arith, length-reverse cs)))))

pub turned-sign : (s : ℕ) (cs : Bytes) → turned (s ∷ cs) 1 ≡ s ∷ reverse cs
unfolding turned
turned-sign s cs =
    ap
      (front
        (swap_loop ((length (s ∷ cs) - 1) / 2 + 1 - 1) 1 (length (s ∷ cs)) 1
          (λ p. get_or (s ∷ cs) p 0))
        0)
      (ap suc (sym (length-reverse cs)))
    ∙ front-eq
        (swap_loop ((length (s ∷ cs) - 1) / 2 + 1 - 1) 1 (length (s ∷ cs)) 1
          (λ p. get_or (s ∷ cs) p 0))
        0 (s ∷ reverse cs)
        (λ q l.
          swap_loop-mirrored ((length (s ∷ cs) - 1) / 2 + 1 - 1) 1 (length (s ∷ cs)) 1
            (λ p. get_or (s ∷ cs) p 0) (0 + q) (omega arith) (omega arith) (omega arith)
            (omega (arith, length-reverse cs))
          ∙ at q (omega (arith, length-reverse cs)))
  where
    at :
        (q : ℕ)
        → q < suc (length cs)
        → mirrored (suc (length cs) - 1 + 1) 1 (λ p. get_or (s ∷ cs) p 0) (0 + q)
          ≡ get_or (s ∷ reverse cs) q 0
    at zero l = refl
    at (suc q) l =
        rw
          (
            le→ltb (0 + suc q) 1 (omega arith),
            le→ltb (suc (length cs) - 1 + 1 - 1) (0 + suc q) (omega arith),
          )
          (ap (λ j. get_or (s ∷ cs) j 0) (mirror (length cs) l)
            ∙ sym (get_or-reverse cs q (omega arith)))
      where
        mirror : (n : ℕ) → suc q < suc n → suc n - 1 + 1 - (0 + suc q) ≡ suc (n - 1 - q)
        mirror n h = omega arith
