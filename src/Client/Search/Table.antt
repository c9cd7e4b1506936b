-- ===== src/Client/Search/Table.antt =====
-- `string_table` finds the longest borders, and it ends.
use sasy_server.Base.{
  ℕ, zero, suc, ◌+◌, ◌-◌, ◌<◌, ◌≤◌, ◌≡◌, ◌≢◌, refl, ◌∙◌, subst, inl, inr, arith, ltb, ltb→lt, ◌==◌,
  ==_iff, Bool-cases, Bytes, get_or, ok, update, update_ne,
}
use sasy_server.Base.Int.{ℤ, pos, negsuc}
use sasy_server.Client.Search.{table_loop, string_table, first_entries}
use sasy_server.Client.Search.Periods.{
  IsBorder, IsCandidate, IsBorder-one, IsCandidate-two, IsBorder-longer, IsBorder-IsCandidate,
  IsCandidate-back, IsBorder-zero,
}

abbrev pub char_of : Bytes → ℕ → ℕ
char_of w k = get_or w k 0

-- The places below `n` are filled.
pub record IsTable (w : ℕ → ℕ) (arr : ℕ → ℤ) (n : ℕ) : Type 0 where
  pub start : arr 0 ≡ negsuc 0
  pub filled : (j : ℕ) → 0 < j → j < n → (b : ℕ) × (arr j ≡ pos b) × IsBorder w j b

IsTable-first : (w : ℕ → ℕ) (parr : ℕ → ℤ) → IsTable w (first_entries parr) 2
IsTable-first w parr = record { start = refl; filled = filled_one }
  where
    filled_one : (j : ℕ) → 0 < j → j < 2 → (b : ℕ) × (first_entries parr j ≡ pos b) × IsBorder w j b
    filled_one zero p h = absurd (omega arith)
    filled_one (suc zero) p h = (0, refl, IsBorder-one w)
    filled_one (suc (suc j)) p h = absurd (omega arith)

IsTable-update :
    (w : ℕ → ℕ) (arr : ℕ → ℤ) (n b : ℕ)
    → 0 < n
    → IsTable w arr n
    → IsBorder w n b
    → IsTable w (update arr n (pos b)) (n + 1)
IsTable-update w arr n b p t s = record {
  start = update_ne arr n 0 (pos b) (omega arith) ∙ t.start;
  filled = with_last;
}
  where
    with_last :
        (j : ℕ) → 0 < j → j < n + 1 → (c : ℕ) × (update arr n (pos b) j ≡ pos c) × IsBorder w j c
    with_last j q h = elim (Bool-cases (n == j)) [
      | inl e ↦ (b, rw e refl, subst (λ i. IsBorder w i b) ((==_iff n j).0 e) s)
      | inr f ↦
          let ne : n ≢ j = λ e. ground (arith, f, e) in
          let (c, a, d) = t.filled j q (omega (arith, ne)) in
          (c, update_ne arr n j (pos b) ne ∙ a, d)
    ]

-- What the loop leaves, and enough fuel for it: a round that fills a place raises `cnd` by one at
-- most, and the others make it smaller.
table_loop-IsTable :
    (fuel : ℕ) (w : Bytes) (len n c : ℕ) (arr : ℕ → ℤ)
    → len + len + c < fuel + n + n
    → n ≤ len
    → IsCandidate (char_of w) n c
    → IsTable (char_of w) arr n
    → (arr' : ℕ → ℤ) × (table_loop fuel w len n c arr ≡ ok arr') × IsTable (char_of w) arr' len
unfolding table_loop
table_loop-IsTable zero w len n c arr f h s t = absurd (omega arith)
table_loop-IsTable (suc fuel) w len n c arr f h s t = elim (Bool-cases (ltb n len)) [
  | inr done ↦
      let e : n ≡ len = ground (arith, done) in
      rw done (arr, refl, subst (λ m. IsTable (char_of w) arr m) e t)
  | inl more ↦
      let below = ltb→lt n len more in
      elim (Bool-cases (get_or w (n - 1) 0 == get_or w c 0)) [
        | inl same ↦
            let border = IsBorder-longer (char_of w) n c s ((==_iff _ _).0 same) in
            rw (more, same)
              (table_loop-IsTable fuel w len (n + 1) (c + 1) (update arr n (pos (c + 1)))
                (omega arith) (omega arith)
                (IsBorder-IsCandidate (char_of w) n (c + 1) (omega arith) border
                  (omega (arith, s.room)))
                (IsTable-update (char_of w) arr n (c + 1) (omega (arith, s.room)) t border))
        | inr other ↦
            let ne : get_or w (n - 1) 0 ≢ get_or w c 0 = λ e. ground (arith, other, e) in
            elim (Bool-cases (ltb 0 c)) [
              | inl positive ↦
                  let (b, a, border) = t.filled c (ltb→lt 0 c positive) (omega (arith, s.room)) in
                  rw (more, other, positive)
                    (rw a (
                      table_loop-IsTable fuel w len n b arr (omega (arith, border.shorter)) h
                        (IsCandidate-back (char_of w) n c b s ne border) t))
              | inr none_left ↦
                  let e : c ≡ 0 = ground (arith, none_left) in
                  let s0 = subst (λ m. IsCandidate (char_of w) n m) e s in
                  let border =
                    IsBorder-zero (char_of w) n s0
                      (subst (λ m. get_or w (n - 1) 0 ≢ get_or w m 0) e ne) in
                  rw (more, other, none_left)
                    (table_loop-IsTable fuel w len (n + 1) 0 (update arr n (pos 0)) (omega arith)
                      (omega arith)
                      (IsBorder-IsCandidate (char_of w) n 0 (omega (arith, s.room)) border
                        (omega (arith, s.room)))
                      (IsTable-update (char_of w) arr n 0 (omega (arith, s.room)) t border))
            ]
      ]
]

pub string_table-IsTable :
    (w : Bytes) (len : ℕ)
    → 2 ≤ len
    → (arr : ℕ → ℤ) × (string_table w len ≡ ok arr) × IsTable (char_of w) arr len
unfolding string_table
string_table-IsTable w len h =
    table_loop-IsTable (len + len) w len 2 0 (first_entries (λ j. pos 0)) (omega arith) h
      (IsCandidate-two (char_of w)) (IsTable-first (char_of w) (λ j. pos 0))
