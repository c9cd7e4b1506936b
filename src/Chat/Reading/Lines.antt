-- ===== src/Chat/Reading/Lines.antt =====
-- The search of `lreadline` in the bytes that wait.
use sasy_server.Base.{
  ℕ, zero, suc, ◌+◌, ◌-◌, ◌<◌, ◌≤◌, ◌≡◌, refl, ap, sym, ◌∙◌, List, [], ◌∷◌, ◌++◌, Bool, true, false,
  ◌&&◌, Bool-cases, inl, inr, leb, ◌==◌, if◌then◌else◌, Bytes, length, length-append, length-drop,
  drop-all, get_or, drop, joined, Option, none, some, Outcome, ok, arith,
}
use sasy_server.WebSocket.Handshake.{starts_with}
use sasy_server.WebSocket.Handshake.Search.{length-starts_with}
use sasy_server.Chat.Buffer.Pending.{pend, Inside, Inside-zero, pend-zero}
use sasy_server.Chat.Reading.{same_front, check_sep, line_loop}

-- Where a separator stands first.
unfoldable pub first_at : Bytes → Bytes → Option ℕ
first_at sep [] = none
first_at sep (x ∷ xs) =
    let rest = first_at sep xs in
    if starts_with (x ∷ xs) sep then some 0 else elim rest [ none ↦ none | some j ↦ some (suc j) ]

same_front-starts_with : (sep xs : Bytes) → same_front (length sep) xs sep ≡ starts_with xs sep
unfolding same_front starts_with
same_front-starts_with [] xs = refl
same_front-starts_with (y ∷ sep) [] = refl
same_front-starts_with (y ∷ sep) (x ∷ xs) = ground (arith, same_front-starts_with sep xs)

starts_with-append :
    (xs ys sep : Bytes) → length sep ≤ length xs → starts_with (xs ++ ys) sep ≡ starts_with xs sep
unfolding starts_with
starts_with-append xs ys [] h = refl
starts_with-append [] ys (c ∷ sep) h = absurd (omega arith)
starts_with-append (x ∷ xs) ys (c ∷ sep) h = ground (arith, starts_with-append xs ys sep)

starts_with-parts :
    (xs ys sep : Bytes)
    → length xs ≤ length sep
    → starts_with (xs ++ ys) sep
      ≡ (same_front (length xs) xs sep && starts_with ys (drop (length xs) sep))
unfolding same_front starts_with
starts_with-parts [] ys sep h = refl
starts_with-parts (x ∷ xs) ys [] h = absurd (omega arith)
starts_with-parts (x ∷ xs) ys (c ∷ sep) h = ground (arith, starts_with-parts xs ys sep)

-- `check_sep` looks for the separator across the nodes.
check_sep-starts_with :
    (nodes : List Bytes) (from : ℕ) (sep : Bytes)
    → Inside from nodes
    → 0 < length sep
    → length sep ≤ length (pend from nodes)
    → check_sep nodes from sep ≡ ok (starts_with (pend from nodes) sep)
unfolding check_sep
check_sep-starts_with [] from sep i p h = absurd (omega arith)
check_sep-starts_with (node ∷ nodes) from sep i p h =
    let d = length-drop from node in
    elim (Bool-cases (leb (length sep) (length node - from))) [
      | inl fits ↦ rw fits (
          ap ok (
            same_front-starts_with sep (drop from node)
            ∙ sym
                (starts_with-append (drop from node) (joined nodes) sep (ground (arith, fits, d)))))
      | inr longer ↦
          let sz = length node - from in
          let parts =
            starts_with-parts (drop from node) (joined nodes) sep (ground (arith, longer, d)) in
          let same =
            ap (λ k. same_front k (drop from node) sep && starts_with (joined nodes) (drop k sep))
              d in
          let rest =
            check_sep-starts_with nodes 0 (drop sz sep) (Inside-zero nodes i.1)
              (ground (arith, longer, length-drop sz sep))
              (ground (
                arith,
                longer,
                d,
                ap length (pend-zero nodes),
                length-drop sz sep,
                length-append (drop from node) (joined nodes),
              )) in
          rw longer (
            by_front (same_front sz (drop from node) sep)
              (rest ∙ ap (λ t. ok (starts_with t (drop sz sep))) (pend-zero nodes))
            ∙ ap ok (sym (parts ∙ same)))
    ]
  where
    by_front :
        (b : Bool) {o : Outcome Bool} {c : Bool}
        → o ≡ ok c
        → (if b then o else ok false) ≡ ok (b && c)
    by_front true e = e
    by_front false e = refl

drop_step :
    (from : ℕ) (node : Bytes)
    → from < length node
    → drop from node ≡ get_or node from 0 ∷ drop (from + 1) node
drop_step zero [] h = absurd (omega arith)
drop_step zero (x ∷ xs) h = refl
drop_step (suc n) [] h = absurd (omega arith)
drop_step (suc n) (x ∷ xs) h =
    let e : suc (n + 1) ≡ suc n + 1 = omega arith in
    drop_step n xs (omega arith) ∙ ap (λ k. get_or xs n 0 ∷ drop k (x ∷ xs)) e

-- What waits behind one byte, as the loop goes on.
pend_next :
    (node : Bytes) (nodes : List Bytes) (from : ℕ)
    → from + 1 < length node
    → pend from (node ∷ nodes) ≡ get_or node from 0 ∷ pend (from + 1) (node ∷ nodes)
pend_next node nodes from h = ap (λ t. t ++ joined nodes) (drop_step from node (omega arith))

pend_last :
    (node : Bytes) (nodes : List Bytes) (from : ℕ)
    → from + 1 ≡ length node
    → pend from (node ∷ nodes) ≡ get_or node from 0 ∷ pend 0 nodes
pend_last node nodes from h =
    ap (λ t. t ++ joined nodes)
      (drop_step from node (omega arith)
        ∙ ap (λ t. get_or node from 0 ∷ t) (drop-all (from + 1) node (omega arith)))
    ∙ ap (λ t. get_or node from 0 ∷ t) (sym (pend-zero nodes))

abbrev pub shifted : ℕ → Option ℕ → Option ℕ
shifted i none = none
shifted i (some j) = some (i + j)

first_at_short : (sep xs : Bytes) → length xs < length sep → first_at sep xs ≡ none
unfolding first_at
first_at_short sep [] h = refl
first_at_short sep (x ∷ xs) h = elim (Bool-cases (starts_with (x ∷ xs) sep)) [
  | inl t ↦ absurd (omega (arith, length-starts_with (x ∷ xs) sep t))
  | inr f ↦ rw (f, first_at_short sep xs (omega arith)) refl
]

first_at_step :
    (sep : Bytes) (x i : ℕ) (xs : Bytes)
    → starts_with (x ∷ xs) sep ≡ false
    → shifted (i + 1) (first_at sep xs) ≡ shifted i (first_at sep (x ∷ xs))
unfolding first_at
first_at_step sep x i xs f = rw f (step (first_at sep xs))
  where
    step :
        (o : Option ℕ)
        → shifted (i + 1) o ≡ shifted i (elim o [ none ↦ none | some j ↦ some (suc j) ])
    step none = refl
    step (some j) = ap some (omega arith)

-- The loop finds the separator where it stands first.
pub line_loop-first_at :
    (rounds i : ℕ) (nodes : List Bytes) (from : ℕ) (sep : Bytes)
    → Inside from nodes
    → 0 < length sep
    → rounds ≡ length (pend from nodes) + 1 - length sep
    → line_loop rounds i nodes from sep ≡ ok (shifted i (first_at sep (pend from nodes)))
unfolding line_loop first_at
line_loop-first_at zero i nodes from sep w p e =
    ap (λ o. ok (shifted i o)) (sym (first_at_short sep (pend from nodes) (omega arith)))
line_loop-first_at (suc rounds) i [] from sep w p e = refl
line_loop-first_at (suc rounds) i (node ∷ nodes) from sep w p e =
    let c = get_or node from 0 in
    rw (check_sep-starts_with (node ∷ nodes) from sep w p (omega arith))
      (elim (Bool-cases (length node - from == 1)) [
        | inl at_end ↦
            let s = pend_last node nodes from (ground (arith, at_end, w.0)) in
            rw (at_end, s)
              (by_test c (pend 0 nodes) (
                line_loop-first_at rounds (i + 1) nodes 0 sep (Inside-zero nodes w.1) p
                  (omega (arith, ap length s))))
        | inr more ↦
            let s = pend_next node nodes from (ground (arith, more, w.0)) in
            rw (more, s)
              (by_test c (pend (from + 1) (node ∷ nodes)) (
                line_loop-first_at rounds (i + 1) (node ∷ nodes) (from + 1) sep
                  (ground (arith, more, w.0), w.1) p (omega (arith, ap length s))))
      ])
  where
    by_test :
        (x : ℕ) (xs : Bytes) {o : Outcome (Option ℕ)}
        → o ≡ ok (shifted (i + 1) (first_at sep xs))
        → (if starts_with (x ∷ xs) sep then ok (some i) else o)
          ≡ ok (shifted i (first_at sep (x ∷ xs)))
    by_test x xs l = elim (Bool-cases (starts_with (x ∷ xs) sep)) [
      | inl t ↦ rw t (ap (λ k. ok (some k)) (omega arith))
      | inr f ↦ rw f (l ∙ ap ok (first_at_step sep x i xs f ∙ ap (shifted i) (rw f refl)))
    ]

-- What `first_at` means.
abbrev pub IsFirstAt : Bytes → Bytes → Option ℕ → Type 0
IsFirstAt sep bytes none = (l : ℕ) → starts_with (drop l bytes) sep ≡ false
IsFirstAt sep bytes (some j) =
    (starts_with (drop j bytes) sep ≡ true)
    × (j + length sep ≤ length bytes)
    × ((l : ℕ) → l < j → starts_with (drop l bytes) sep ≡ false)

pub first_at-IsFirstAt :
    (sep bytes : Bytes) → 0 < length sep → IsFirstAt sep bytes (first_at sep bytes)
unfolding first_at starts_with
first_at-IsFirstAt sep [] p = nowhere sep p
  where
    nowhere : (sep : Bytes) → 0 < length sep → (l : ℕ) → starts_with (drop l []) sep ≡ false
    nowhere [] p l = absurd (omega arith)
    nowhere (c ∷ sep) p zero = refl
    nowhere (c ∷ sep) p (suc l) = refl
first_at-IsFirstAt sep (x ∷ xs) p = elim (Bool-cases (starts_with (x ∷ xs) sep)) [
  | inl t ↦ rw t (t, omega (arith, length-starts_with (x ∷ xs) sep t), λ l h. absurd (omega arith))
  | inr f ↦ rw f (behind (first_at sep xs) (first_at-IsFirstAt sep xs p) f)
]
  where
    never :
        ((l : ℕ) → starts_with (drop l xs) sep ≡ false)
        → starts_with (x ∷ xs) sep ≡ false
        → (l : ℕ) → starts_with (drop l (x ∷ xs)) sep ≡ false
    never h f zero = f
    never h f (suc l) = h l

    earlier :
        (j : ℕ)
        → ((l : ℕ) → l < j → starts_with (drop l xs) sep ≡ false)
        → starts_with (x ∷ xs) sep ≡ false
        → (l : ℕ) → l < suc j
        → starts_with (drop l (x ∷ xs)) sep ≡ false
    earlier j before f zero h = f
    earlier j before f (suc l) h = before l (omega arith)

    behind :
        (o : Option ℕ)
        → IsFirstAt sep xs o
        → starts_with (x ∷ xs) sep ≡ false
        → IsFirstAt sep (x ∷ xs) (elim o [ none ↦ none | some j ↦ some (suc j) ])
    behind none h f = never h f
    behind (some j) (t, room, before) f = (t, omega arith, earlier j before f)
