-- ===== src/Client/Http/Whole.antt =====
-- What `get_http_response_body` takes for a whole response.
use sasy_server.Base.{
  ℕ, zero, suc, ◌+◌, ◌-◌, ◌<◌, ◌≤◌, ◌≡◌, refl, ap, ◌∙◌, sym, Bool, true, false, ◌&&◌, [], ◌∷◌, ◌++◌,
  ltb, leb, ◌==◌, Bool-cases, inl, inr, Bytes, length, get_or, take, drop, take-append-drop,
  drop-drop, take-all, length-drop, All, arith, ok,
}
use sasy_server.Base.Int.{ℤ, pos, negsuc}
use sasy_server.WebSocket.Handshake.Search.{append-starts_with}
use sasy_server.Client.Search.Table.{char_of}
use sasy_server.Client.Search.First.{Occurs, IsFirst, string_search-IsFirst}
use sasy_server.Client.Search.Same.{Occurs-starts_with}
use sasy_server.Client.Decimal.Digits.{IsDigit}
use sasy_server.Client.Decimal.Value.{decimal}
use sasy_server.Client.Http.{
  line_feed, content, is_digit, length_loop, Response, incomplete, too_long, whole, take_body,
  with_positions, get_http_response_body,
}

-- That `n` digits stand behind "content-length: " in a text.
pub record Declares (response : Bytes) (n : ℕ) : Type 0 where
  pub before : Bytes
  pub ltemp : Bytes
  pub after : Bytes
  pub split : response ≡ before ++ (content ++ (ltemp ++ after))
  pub all_digits : All IsDigit ltemp
  pub worth : decimal 0 ltemp ≡ n

-- A header that ends in a blank line, which has the length of the body in it or the body has, and the
-- body to the end of the text.
pub record IsWhole (response body : Bytes) : Type 0 where
  pub head : Bytes
  pub split : response ≡ head ++ (line_feed ++ body)
  pub declared : Declares response (length body)
  pub some_body : 0 < length body

-- What the results mean.
abbrev pub Means : Bytes → ℕ → Response → Type 0
Means response len_buff incomplete = Unit
Means response len_buff (too_long n) =
    (n ≡ length response) × (body : Bytes) × IsWhole response body × (len_buff < length body)
Means response len_buff (whole body n) =
    (n ≡ length response) × IsWhole response body × (length body ≤ len_buff)

drop-digit :
    (xs : Bytes) (p : ℕ)
    → is_digit (get_or xs p 0) ≡ true
    → drop p xs ≡ get_or xs p 0 ∷ drop (p + 1) xs
drop-digit [] p h = cc
drop-digit (x ∷ xs) zero h = refl
drop-digit (x ∷ xs) (suc p) h =
    drop-digit xs p h ∙ ap (λ q. get_or xs p 0 ∷ drop q (x ∷ xs)) (next p)
  where
    next : (p : ℕ) → suc (p + 1) ≡ suc p + 1
    next p = omega arith

is_digit-IsDigit : (c : ℕ) → is_digit c ≡ true → IsDigit c
is_digit-IsDigit c h = ground arith

-- Digits that the loop takes with its flag are the digits that stand there.
abbrev Stand : Bytes → ℕ → Bytes × Bool → Type 0
Stand pdata p (ltemp, true) = (after : Bytes) × (drop p pdata ≡ ltemp ++ after) × All IsDigit ltemp
Stand pdata p (ltemp, false) = Unit

Stand-cons :
    (pdata : Bytes) (p : ℕ) (r : Bytes × Bool)
    → is_digit (get_or pdata p 0) ≡ true
    → Stand pdata (p + 1) r
    → Stand pdata p (get_or pdata p 0 ∷ r.0, r.1)
Stand-cons pdata p (ltemp, true) h (after, e, a) = (
  after,
  drop-digit pdata p h ∙ ap (λ t. get_or pdata p 0 ∷ t) e,
  (is_digit-IsDigit (get_or pdata p 0) h, a),
)
Stand-cons pdata p (ltemp, false) h s = tt

length_loop-Stand :
    (rounds : ℕ) (pdata : Bytes) (len_data p : ℕ)
    → Stand pdata p (length_loop rounds pdata len_data p)
unfolding length_loop
length_loop-Stand zero pdata len_data p = tt
length_loop-Stand (suc rounds) pdata len_data p = elim (Bool-cases (is_digit (get_or pdata p 0))) [
  | inl d ↦ elim (Bool-cases (leb len_data (p + 1))) [
    | inl e ↦ rw (d, e) tt
    | inr f ↦
        rw (d, f)
          (Stand-cons pdata p (length_loop rounds pdata len_data (p + 1)) d
            (length_loop-Stand rounds pdata len_data (p + 1)))
  ]
  | inr n ↦ rw n (drop p pdata, refl, tt)
]

Occurs-split :
    (src des : Bytes) (q : ℕ)
    → q + length des ≤ length src
    → Occurs (char_of src) (char_of des) (length des) q
    → src ≡ take q src ++ (des ++ drop (length des) (drop q src))
Occurs-split src des q h o =
    sym (take-append-drop q src)
    ∙ ap (λ t. take q src ++ t)
        (append-starts_with (drop q src) des (Occurs-starts_with src des q h o))

module _ (response : Bytes) (len_buff l c : ℕ) (l_in : l + length line_feed ≤ length response)
    (l_at : Occurs (char_of response) (char_of line_feed) (length line_feed) l)
    (c_in : c + length content ≤ length response)
    (c_at : Occurs (char_of response) (char_of content) (length content) c) where
  declared :
      (ltemp after : Bytes) (n : ℕ)
      → drop (c + length content) response ≡ ltemp ++ after
      → All IsDigit ltemp
      → decimal 0 ltemp ≡ n
      → Declares response n
  declared ltemp after n e a w = record {
    before = take c response;
    ltemp = ltemp;
    after = after;
    split =
        Occurs-split response content c c_in c_at
        ∙ ap (λ t. take c response ++ (content ++ t)) (drop-drop c (length content) response ∙ e);
    all_digits = a;
    worth = w;
  }

  body-IsWhole :
      (ltemp after : Bytes)
      → drop (c + length content) response ≡ ltemp ++ after
      → All IsDigit ltemp
      → 0 < decimal 0 ltemp
      → length response - (l + length line_feed) ≡ decimal 0 ltemp
      → IsWhole response (drop (l + length line_feed) response)
  body-IsWhole ltemp after e a p w = record {
    head = take l response;
    split =
        Occurs-split response line_feed l l_in l_at
        ∙ ap (λ t. take l response ++ (line_feed ++ t)) (drop-drop l (length line_feed) response);
    declared =
        declared ltemp after (length (drop (l + length line_feed) response)) e a
          (sym w ∙ sym (length-drop (l + length line_feed) response));
    some_body = omega (arith, length-drop (l + length line_feed) response, w);
  }

  take_body-Means :
      (r : Bytes × Bool)
      → Stand response (c + length content) r
      → Means response len_buff (take_body response (length response) len_buff l r)
  unfolding take_body
  take_body-Means (ltemp, false) s = tt
  take_body-Means (ltemp, true) (after, e, a) =
      elim (Bool-cases (
        ltb 0 (decimal 0 ltemp) && (length response - (l + length line_feed) == decimal 0 ltemp))) [
          | inr f ↦ rw f tt
          | inl t ↦
              let p : 0 < decimal 0 ltemp = ground (arith, t) in
              let w : length response - (l + length line_feed) ≡ decimal 0 ltemp =
                ground (arith, t) in
              let b = body-IsWhole ltemp after e a p w in
              let n = length-drop (l + length line_feed) response in
              elim (Bool-cases (leb (decimal 0 ltemp) len_buff)) [
                | inl fits ↦
                    rw (t, fits)
                      (rw
                        (take-all (decimal 0 ltemp) (drop (l + length line_feed) response)
                          (omega (arith, n, w)))
                        (omega (arith, w), b, ground (arith, fits, n, w)))
                | inr long ↦
                    rw (t, long)
                      (
                        omega (arith, w),
                        drop (l + length line_feed) response,
                        b,
                        ground (arith, long, n, w),
                      )
              ]
        ]

with_positions-Means :
    (response : Bytes) (len_buff : ℕ) (r s : ℤ)
    → IsFirst (char_of response) (length response) (char_of line_feed) (length line_feed) r
    → IsFirst (char_of response) (length response) (char_of content) (length content) s
    → Means response len_buff (with_positions response (length response) len_buff r s)
unfolding with_positions
with_positions-Means response len_buff (negsuc l) s a b = tt
with_positions-Means response len_buff (pos l) (negsuc c) a b = tt
with_positions-Means response len_buff (pos l) (pos c) a b =
    elim (Bool-cases (ltb 0 l && ltb 0 c)) [
      | inr f ↦ rw f tt
      | inl t ↦ rw t (
          take_body-Means response len_buff l c a.0 a.1 b.0 b.1
            (length_loop 8 response (length response) (c + length content))
            (length_loop-Stand 8 response (length response) (c + length content)))
    ]

-- On any text of at least two characters the two searches end, and a body that is reported, or
-- reported as too long for the buffer, reaches from a blank line to the end of the text, is not empty,
-- and is as long as digits behind a "content-length: " say; the count of bytes to take away is that of
-- the whole text.
pub get_http_response_body-Means :
    (response : Bytes) (len_buff : ℕ)
    → 2 ≤ length response
    → (r : Response) × (get_http_response_body response (length response) len_buff ≡ ok r)
      × Means response len_buff r
unfolding get_http_response_body
get_http_response_body-Means response len_buff h =
    let (l, e, a) =
      string_search-IsFirst response (length response) line_feed (length line_feed) h
        (omega arith) in
    let (c, f, b) =
      string_search-IsFirst response (length response) content (length content) h (omega arith) in
    (
      with_positions response (length response) len_buff l c,
      rw e (rw f refl),
      with_positions-Means response len_buff l c a b,
    )
