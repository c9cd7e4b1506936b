-- ===== src/Client/Http/Header.antt =====
-- What a response is: the header, the digits of the length in it, and the first places of a text in its
-- parts.
use sasy_server.Base.{
  ℕ, zero, suc, ◌+◌, ◌-◌, ◌<◌, ◌≤◌, ◌≡◌, refl, ap, ap₂, ◌∙◌, sym, true, false, [], ◌∷◌, ◌++◌, leb,
  Bytes, length, length-append, get_or, get_or-append_left, drop, drop-append_parts, All, arith,
}
use sasy_server.Base.Int.{pos}
use native.Mathlib.Decide.{dec_lt}
use sasy_server.Client.Search.Table.{char_of}
use sasy_server.Client.Search.First.{IsFirst}
use sasy_server.Client.Decimal.Digits.{IsDigit}
use sasy_server.Client.Decimal.Value.{decimal}
use sasy_server.Client.Http.{line_feed, content, is_digit, length_loop}

-- A response with a body: the first blank line stands at `feed`, and before it the first
-- "content-length: ", with at most seven digits that give the length of the body.
pub record IsResponse (response body : Bytes) : Type 0 where
  pub feed : ℕ
  pub feed_first :
      IsFirst (char_of response) (length response) (char_of line_feed) (length line_feed) (pos feed)
  pub place : ℕ
  pub place_first :
      IsFirst (char_of response) (length response) (char_of content) (length content) (pos place)
  pub behind_start : (0 < feed) × (0 < place)
  pub ltemp : Bytes
  pub next : ℕ
  pub after : Bytes
  pub digits : drop (place + length content) response ≡ ltemp ++ (next ∷ after)
  pub all_digits : All IsDigit ltemp
  pub few_digits : length ltemp < 8
  pub ends : is_digit next ≡ false
  pub in_head : place + length content + length ltemp ≤ feed
  pub body_of : drop (feed + length line_feed) response ≡ body
  pub worth : decimal 0 ltemp ≡ length body
  pub some_body : 0 < length body

IsDigit-is_digit : (c : ℕ) → IsDigit c → is_digit c ≡ true
IsDigit-is_digit c h = ground (arith, h)

drop-get_or :
    (p : ℕ) (xs : Bytes) (y : ℕ) (ys : Bytes)
    → drop p xs ≡ y ∷ ys
    → (get_or xs p 0 ≡ y) × (drop (p + 1) xs ≡ ys)
drop-get_or zero [] y ys e = cc
drop-get_or zero (x ∷ xs) y ys e = (cc, cc)
drop-get_or (suc p) [] y ys e = cc
drop-get_or (suc p) (x ∷ xs) y ys e =
    let (g, d) = drop-get_or p xs y ys e in
    let n : suc (p + 1) ≡ suc p + 1 = omega arith in (g, ap (λ k. drop k (x ∷ xs)) (sym n) ∙ d)

-- The loop over the digits takes those that stand there, up to a character that is none.
pub length_loop-digits :
    (ltemp : Bytes) (rounds : ℕ) (pdata : Bytes) (len_data p next : ℕ) (after : Bytes)
    → drop p pdata ≡ ltemp ++ (next ∷ after)
    → All IsDigit ltemp
    → is_digit next ≡ false
    → length ltemp < rounds
    → p + length ltemp < len_data
    → length_loop rounds pdata len_data p ≡ (ltemp, true)
unfolding length_loop
length_loop-digits ltemp zero pdata len_data p next after e a n r h = absurd (omega arith)
length_loop-digits [] (suc rounds) pdata len_data p next after e a n r h =
    rw ((drop-get_or p pdata next after e).0, n) refl
length_loop-digits (c ∷ ltemp) (suc rounds) pdata len_data p next after e a n r h =
    let (g, d) = drop-get_or p pdata c (ltemp ++ (next ∷ after)) e in
    let inner : leb len_data (p + 1) ≡ false = ground (arith, h) in
    rw
      (
        g,
        IsDigit-is_digit c a.0,
        inner,
        length_loop-digits ltemp rounds pdata len_data (p + 1) next after d a.1 n (omega arith)
            (omega arith),
      )
      refl

pub drop-append_left : (n : ℕ) (xs ys : Bytes) → n ≤ length xs → drop n (xs ++ ys) ≡ drop n xs ++ ys
drop-append_left n xs ys h =
    drop-append_parts n xs ys ∙ ap (λ k. drop n xs ++ drop k ys) (none n (length xs) h)
  where
    none : (n k : ℕ) → n ≤ k → n - k ≡ 0
    none n k h = omega arith

-- A text that begins with `ys` and one more element, cut behind those.
pub append-cut :
    (xs more ys : Bytes) (n : ℕ) (zs : Bytes)
    → xs ++ more ≡ ys ++ (n ∷ zs)
    → length ys < length xs
    → (rest : Bytes) × (xs ≡ ys ++ (n ∷ rest))
append-cut [] more ys n zs e h = absurd (omega (arith, h))
append-cut (x ∷ xs) more [] n zs e h = (xs, cc)
append-cut (x ∷ xs) more (y ∷ ys) n zs e h =
    let (rest, q) = append-cut xs more ys n zs (cc e) (omega (arith, h)) in
    (rest, ap₂ (λ a t. a ∷ t) (cc e) q)

-- The first place in a part of a text is the first in the text.
pub part-IsFirst :
    (part more des : Bytes) (p q : ℕ)
    → IsFirst (char_of (part ++ more)) (length (part ++ more)) (char_of des) (length des) (pos q)
    → IsFirst (char_of part) (length part) (char_of des) (length des) (pos p)
    → p ≡ q
part-IsFirst part more des p q (f, o, b) (g, u, c) = elim (dec_lt p q) [
  | yes l ↦
      absurd
        (b p l (λ k h. u k h ∙ sym (get_or-append_left part more (p + k) 0 (omega (arith, g)))))
  | no l ↦ elim (dec_lt q p) [
    | yes m ↦
        absurd (c q m (λ k h. o k h ∙ get_or-append_left part more (q + k) 0 (omega (arith, g))))
    | no m ↦ omega arith
  ]
]

-- The first place in a text is the first in the text with more behind it.
pub more-IsFirst :
    (text more des : Bytes) (q : ℕ)
    → IsFirst (char_of text) (length text) (char_of des) (length des) (pos q)
    → IsFirst (char_of (text ++ more)) (length (text ++ more)) (char_of des) (length des) (pos q)
more-IsFirst text more des q (f, o, b) = (
  omega (arith, f, length-append text more),
  λ k h. o k h ∙ sym (get_or-append_left text more (q + k) 0 (omega (arith, f))),
  λ p l u. b p l (λ k h. u k h ∙ get_or-append_left text more (p + k) 0 (omega (arith, f))),
)
