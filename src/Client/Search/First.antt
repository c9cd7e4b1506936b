-- ===== src/Client/Search/First.antt =====
-- `string_search` finds the first occurrence, and it ends.
use sasy_server.Base.{
  ℕ, zero, suc, ◌+◌, ◌-◌, ◌<◌, ◌≤◌, ◌≡◌, ◌≢◌, refl, ap, ◌∙◌, sym, subst, inl, inr, arith, ltb,
  ltb→lt, le→ltb, ◌==◌, ==_iff, Bool-cases, Bytes, get_or, ok,
}
use sasy_server.Base.Int.{ℤ, pos, negsuc}
use native.Mathlib.Decide.{dec_lt}
use sasy_server.Client.Search.{search_loop, string_search}
use sasy_server.Client.Search.Periods.{Period, IsBorder}
use sasy_server.Client.Search.Table.{char_of, IsTable, string_table-IsTable}

-- `des` stands in `src` from `q` on.
abbrev pub Occurs : (ℕ → ℕ) → (ℕ → ℕ) → ℕ → ℕ → Type 0
Occurs src des len q = (k : ℕ) → k < len → des k ≡ src (q + k)

-- That a result is the first place of a text of length `len` in one of length `len_src`, or -1.
abbrev pub IsFirst : (ℕ → ℕ) → ℕ → (ℕ → ℕ) → ℕ → ℤ → Type 0
IsFirst src len_src des len (pos q) =
    (q + len ≤ len_src) × Occurs src des len q × ((p : ℕ) → p < q → ¬ Occurs src des len p)
IsFirst src len_src des len (negsuc n) =
    (n ≡ 0) × ((p : ℕ) → p + len ≤ len_src → ¬ Occurs src des len p)

module _ (src des : ℕ → ℕ) (len : ℕ) where
  -- A text that occurs at a distance of `d` from where `i` characters match repeats at that distance.
  Occurs-Period :
      (m i d : ℕ)
      → i ≤ len
      → ((k : ℕ) → k < i → des k ≡ src (m + k))
      → Occurs src des len (m + d)
      → Period des i d
  Occurs-Period m i d h f o k l = o k (omega arith) ∙ ap src (omega arith) ∙ sym (f (d + k) l)

  -- Nothing is skipped by the shift to the longest border.
  none_skipped :
      (m i b : ℕ)
      → i < len
      → IsBorder des i b
      → ((k : ℕ) → k < i → des k ≡ src (m + k))
      → des i ≢ src (m + i)
      → ((p : ℕ) → p < m → ¬ Occurs src des len p)
      → (p : ℕ) → p < m + i - b
      → ¬ Occurs src des len p
  none_skipped m i b h s f ne none p l o = elim (dec_lt p m) [
    | yes before ↦ none p before o
    | no after ↦ elim (dec_lt m p) [
      | no same ↦ ne (o i h ∙ ap src (omega arith))
      | yes behind ↦ absurd (
          omega (
            arith,
            s.shorter,
            s.longest (p - m) (omega arith) (omega arith) (
                Occurs-Period m i (p - m) (omega arith) f
                  (subst (Occurs src des len) (omega arith) o)),
          ))
    ]
  ]

  none_skipped_one :
      (m : ℕ)
      → 0 < len
      → des 0 ≢ src (m + 0)
      → ((p : ℕ) → p < m → ¬ Occurs src des len p)
      → (p : ℕ) → p < m + 1
      → ¬ Occurs src des len p
  none_skipped_one m h ne none p l o = elim (dec_lt p m) [
    | yes before ↦ none p before o
    | no after ↦ ne (o 0 h ∙ ap src (omega arith))
  ]

search_loop-IsFirst :
    (fuel : ℕ) (src : Bytes) (len_src : ℕ) (des : Bytes) (len : ℕ) (arr : ℕ → ℤ) (m i : ℕ)
    → IsTable (char_of des) arr len
    → len_src + len_src < fuel + m + m + i
    → m + i ≤ len_src
    → i < len
    → ((k : ℕ) → k < i → char_of des k ≡ char_of src (m + k))
    → ((p : ℕ) → p < m → ¬ Occurs (char_of src) (char_of des) len p)
    → (r : ℤ) × (search_loop fuel src len_src des len arr m i ≡ ok r)
      × IsFirst (char_of src) len_src (char_of des) len r
unfolding search_loop
search_loop-IsFirst zero src len_src des len arr m i t f h l same none = absurd (omega arith)
search_loop-IsFirst (suc fuel) src len_src des len arr m i t f h l same none =
    elim (Bool-cases (ltb (m + i) len_src)) [
      | inr done ↦ rw done (negsuc 0, refl, (refl, beyond (ground (arith, done))))
      | inl more ↦ elim (Bool-cases (get_or des i 0 == get_or src (m + i) 0)) [
        | inl equal ↦ elim (Bool-cases (i == len - 1)) [
          | inl last ↦
              rw (more, equal, last)
                (
                  pos m,
                  refl,
                  (
                    ground (arith, last, more),
                    all_same ((==_iff _ _).0 equal) (ground (arith, last)),
                    none,
                  ),
                )
          | inr on ↦
              rw (more, equal, on)
                (search_loop-IsFirst fuel src len_src des len arr m (i + 1) t (omega arith)
                  (omega (arith, ltb→lt _ _ more)) (ground (arith, on))
                  (one_more ((==_iff _ _).0 equal)) none)
        ]
        | inr differ ↦
            let ne : char_of des i ≢ char_of src (m + i) = λ e. ground (arith, differ, e) in
            elim (dec_lt 0 i) [
              | yes positive ↦
                  let (b, a, border) = t.filled i positive l in
                  rw (more, differ)
                    (rw a (
                      search_loop-IsFirst fuel src len_src des len arr (m + i - b) b t
                        (omega (arith, border.shorter)) (omega (arith, border.shorter))
                        (omega (arith, border.shorter))
                        (λ k lt.
                          border.period k (omega (arith, border.shorter))
                          ∙ same (i - b + k) (omega (arith, border.shorter))
                          ∙ ap (char_of src) (omega (arith, border.shorter)))
                        (none_skipped (char_of src) (char_of des) len m i b l border same ne none)))
              | no first ↦
                  let e : i ≡ 0 = omega arith in
                  let at0 : arr i ≡ negsuc 0 = ap arr e ∙ t.start in
                  rw (more, differ)
                    (rw at0 (
                      search_loop-IsFirst fuel src len_src des len arr (m + i + 1) 0 t (omega arith)
                        (omega (arith, ltb→lt _ _ more)) (omega arith)
                        (λ k lt. absurd (omega arith))
                        (λ p lt.
                          none_skipped_one (char_of src) (char_of des) len m (omega arith)
                            (subst (λ j. char_of des j ≢ char_of src (m + j)) e ne) none p
                            (omega arith))))
            ]
      ]
    ]
  where
    beyond :
        len_src ≤ m + i → (p : ℕ) → p + len ≤ len_src → ¬ Occurs (char_of src) (char_of des) len p
    beyond e p q = none p (omega arith)

    one_more :
        char_of des i ≡ char_of src (m + i)
        → (k : ℕ) → k < i + 1
        → char_of des k ≡ char_of src (m + k)
    one_more e k lt = elim (dec_lt k i) [
      | yes below ↦ same k below
      | no top ↦ ap (char_of des) (omega arith) ∙ e ∙ ap (char_of src) (omega arith)
    ]

    all_same :
        char_of des i ≡ char_of src (m + i) → i + 1 ≡ len → Occurs (char_of src) (char_of des) len m
    all_same e full k lt = one_more e k (omega arith)

pub string_search-IsFirst :
    (src : Bytes) (len_s : ℕ) (des : Bytes) (len_d : ℕ)
    → 2 ≤ len_s
    → 2 ≤ len_d
    → (r : ℤ) × (string_search src len_s des len_d ≡ ok r)
      × IsFirst (char_of src) len_s (char_of des) len_d r
unfolding string_search
string_search-IsFirst src len_s des len_d p q =
    let (arr, e, t) = string_table-IsTable des len_d q in
    rw (le→ltb len_s 2 p, le→ltb len_d 2 q)
      (rw e (
        search_loop-IsFirst (len_s + len_s + 1) src len_s des len_d arr 0 0 t (omega arith)
          (omega arith) (omega arith) (λ k l. absurd (omega arith)) (λ k l. absurd (omega arith))))
