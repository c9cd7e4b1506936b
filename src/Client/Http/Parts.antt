-- ===== src/Client/Http/Parts.antt =====
-- A response that has come, one of which a part has come, and one with more behind it.
use sasy_server.Base.{
  ℕ, ◌+◌, ◌-◌, ◌<◌, ◌≤◌, ◌≡◌, ◌≢◌, refl, ap, ap₂, ◌∙◌, sym, true, false, [], ◌∷◌, ◌++◌, append-nil,
  append_assoc, inl, inr, ltb, leb, lt→ltb, ◌==◌, Bool-cases, Bytes, length, length-append,
  length-drop, length-pos, take, take-all, drop, arith, ok,
}
use sasy_server.Base.Int.{ℤ, pos, negsuc}
use sasy_server.Client.Search.{string_search}
use sasy_server.Client.Search.Table.{char_of}
use sasy_server.Client.Search.First.{IsFirst, string_search-IsFirst}
use sasy_server.Client.Search.Same.{IsFirst-unique}
use sasy_server.Client.Decimal.Value.{decimal}
use sasy_server.Client.Http.{
  line_feed, content, incomplete, whole, take_body, with_positions, get_http_response_body,
}
use sasy_server.Client.Http.Header.{
  IsResponse, drop-append_left, append-cut, part-IsFirst, more-IsFirst, length_loop-digits,
}

-- Where the header stands in a part of a response, its digits are read.
head_in-part :
    (part more response body : Bytes) (len_buff : ℕ) (r : IsResponse response body)
    → part ++ more ≡ response
    → r.feed + length line_feed ≤ length part
    → with_positions part (length part) len_buff (pos r.feed) (pos r.place)
      ≡ take_body part (length part) len_buff r.feed (r.ltemp, true)
unfolding with_positions
head_in-part part more response body len_buff r p h =
    let k = r.place + length content in
    let i : k + length r.ltemp ≤ r.feed = r.in_head in
    let n = length-drop k part in
    let (rest, e) =
      append-cut (drop k part) more r.ltemp r.next r.after
        (sym (drop-append_left k part more (omega (arith, i, h))) ∙ ap (drop k) p ∙ r.digits)
        (omega (arith, n, i, h)) in
    let loop =
      length_loop-digits r.ltemp 8 part (length part) k r.next rest e r.all_digits r.ends
        r.few_digits (omega (arith, i, h)) in
    rw (lt→ltb 0 r.feed r.behind_start.0, lt→ltb 0 r.place r.behind_start.1, loop) refl

module _ (part more body : Bytes) (len_buff : ℕ) (r : IsResponse (part ++ more) body) where
  -- A part that reaches over the header has not enough behind it.
  take_body-part :
      r.feed + length line_feed ≤ length part
      → more ≢ []
      → take_body part (length part) len_buff r.feed (r.ltemp, true) ≡ incomplete
  unfolding take_body
  take_body-part h m =
      let n = length-drop (r.feed + length line_feed) (part ++ more) in
      let b : length body ≡ length part + length more - (r.feed + length line_feed) =
        ap length (sym r.body_of)
        ∙ n
        ∙ ap (λ k. k - (r.feed + length line_feed)) (length-append part more) in
      let l : 0 < length more = length-pos more m in
      let w = r.worth in
      let other : (length part - (r.feed + length line_feed) == decimal 0 r.ltemp) ≡ false =
        ground (arith, b, l, w, h) in
      rw other
        (elim (Bool-cases (ltb 0 (decimal 0 r.ltemp))) [ inl t ↦ rw t refl | inr f ↦ rw f refl ])

  with_positions-part :
      (s t : ℤ)
      → more ≢ []
      → IsFirst (char_of part) (length part) (char_of line_feed) (length line_feed) s
      → IsFirst (char_of part) (length part) (char_of content) (length content) t
      → with_positions part (length part) len_buff s t ≡ incomplete
  unfolding with_positions
  with_positions-part (negsuc l) t m a b = refl
  with_positions-part (pos l) (negsuc c) m a b = refl
  with_positions-part (pos l) (pos c) m a b =
      let e = part-IsFirst part more line_feed l r.feed r.feed_first a in
      let f = part-IsFirst part more content c r.place r.place_first b in
      let h : r.feed + length line_feed ≤ length part = omega (arith, a.0, e) in
      ap₂ (λ x y. with_positions part (length part) len_buff (pos x) (pos y)) e f
      ∙ head_in-part part more (part ++ more) body len_buff r refl h
      ∙ take_body-part h m

le→leb : (a b : ℕ) → a ≤ b → leb a b ≡ true
le→leb a b h = ground arith

take_body-whole :
    (response body : Bytes) (len_buff : ℕ) (r : IsResponse response body)
    → length body ≤ len_buff
    → take_body response (length response) len_buff r.feed (r.ltemp, true)
      ≡ whole body (length response)
unfolding take_body
take_body-whole response body len_buff r h =
    let start = r.feed + length line_feed in
    let f : start ≤ length response = r.feed_first.0 in
    let w = r.worth in
    let b : length body ≡ length response - start =
      ap length (sym r.body_of) ∙ length-drop start response in
    let some : ltb 0 (length body) ≡ true = lt→ltb 0 (length body) r.some_body in
    let same : (length response - start == length body) ≡ true = ground (arith, b) in
    let whole_body : take (length body) (drop start response) ≡ body =
      ap (take (length body)) r.body_of ∙ take-all (length body) body (omega arith) in
    let total : start + length body ≡ length response = omega (arith, b, f) in
    rw (w, some, same, le→leb (length body) len_buff h, whole_body, total) refl

string_search-short :
    (part des : Bytes)
    → ltb (length part) 2 ≡ true
    → string_search part (length part) des (length des) ≡ ok (negsuc 0)
unfolding string_search
string_search-short part des short = rw short refl

-- A response that has come whole: its body is handed out when the buffer has room for it, with the
-- length of the whole text, which is to be taken away.
pub get_http_response_body-IsResponse :
    (response body : Bytes) (len_buff : ℕ)
    → IsResponse response body
    → length body ≤ len_buff
    → get_http_response_body response (length response) len_buff ≡ ok (whole body (length response))
unfolding get_http_response_body
get_http_response_body-IsResponse response body len_buff r h =
    let f : r.feed + length line_feed ≤ length response = r.feed_first.0 in
    let n = length-drop (r.feed + length line_feed) response in
    let b : length body ≡ length response - (r.feed + length line_feed) =
      ap length (sym r.body_of) ∙ n in
    let (s, e, first) =
      string_search-IsFirst response (length response) line_feed (length line_feed)
        (omega (arith, f)) (omega arith) in
    let (t, g, second) =
      string_search-IsFirst response (length response) content (length content) (omega (arith, f))
        (omega arith) in
    let s_at =
      IsFirst-unique (char_of response) (length response) (char_of line_feed) (length line_feed) s
        (pos r.feed) first r.feed_first in
    let t_at =
      IsFirst-unique (char_of response) (length response) (char_of content) (length content) t
        (pos r.place) second r.place_first in
    rw (e, g, s_at, t_at)
      (ap ok (
        head_in-part response [] response body len_buff r (append-nil response) f
        ∙ take_body-whole response body len_buff r h))

-- Of a response that has not come whole nothing is taken.
pub get_http_response_body-part :
    (part more body : Bytes) (len_buff : ℕ)
    → IsResponse (part ++ more) body
    → more ≢ []
    → get_http_response_body part (length part) len_buff ≡ ok incomplete
unfolding get_http_response_body
get_http_response_body-part part more body len_buff r m = elim (Bool-cases (ltb (length part) 2)) [
  | inl short ↦
      rw (string_search-short part line_feed short, string_search-short part content short) refl
  | inr long ↦
      let (s, e, first) =
        string_search-IsFirst part (length part) line_feed (length line_feed) (ground (arith, long))
          (omega arith) in
      let (t, g, second) =
        string_search-IsFirst part (length part) content (length content) (ground (arith, long))
          (omega arith) in
      rw (e, g) (ap ok (with_positions-part part more body len_buff r s t m first second))
]

module _ (response more body : Bytes) (len_buff : ℕ) (r : IsResponse response body) where
  head_in-more :
      with_positions
        (response ++ more)
        (length (response ++ more))
        len_buff
        (pos r.feed)
        (pos r.place)
      ≡ take_body (response ++ more) (length (response ++ more)) len_buff r.feed (r.ltemp, true)
  unfolding with_positions
  head_in-more =
      let k = r.place + length content in
      let i : k + length r.ltemp ≤ r.feed = r.in_head in
      let f : r.feed + length line_feed ≤ length response = r.feed_first.0 in
      let n = length-append response more in
      let e =
        drop-append_left k response more (omega (arith, i, f))
        ∙ ap (λ t. t ++ more) r.digits
        ∙ append_assoc r.ltemp (r.next ∷ r.after) more in
      let loop =
        length_loop-digits r.ltemp 8 (response ++ more) (length (response ++ more)) k r.next
          (r.after ++ more) e r.all_digits r.ends r.few_digits (omega (arith, i, f, n)) in
      rw (lt→ltb 0 r.feed r.behind_start.0, lt→ltb 0 r.place r.behind_start.1, loop) refl

  take_body-more :
      more ≢ []
      → take_body (response ++ more) (length (response ++ more)) len_buff r.feed (r.ltemp, true)
        ≡ incomplete
  unfolding take_body
  take_body-more m =
      let start = r.feed + length line_feed in
      let f : start ≤ length response = r.feed_first.0 in
      let b : length body ≡ length response - start =
        ap length (sym r.body_of) ∙ length-drop start response in
      let l : 0 < length more = length-pos more m in
      let n = length-append response more in
      let w = r.worth in
      let other : (length (response ++ more) - start == decimal 0 r.ltemp) ≡ false =
        ground (arith, b, l, w, f, n) in
      rw other
        (elim (Bool-cases (ltb 0 (decimal 0 r.ltemp))) [ inl t ↦ rw t refl | inr f ↦ rw f refl ])

-- Of a response with more behind it nothing is taken either.
pub get_http_response_body-more :
    (response more body : Bytes) (len_buff : ℕ)
    → IsResponse response body
    → more ≢ []
    → get_http_response_body (response ++ more) (length (response ++ more)) len_buff ≡ ok incomplete
unfolding get_http_response_body
get_http_response_body-more response more body len_buff r m =
    let text = response ++ more in
    let f : r.feed + length line_feed ≤ length response = r.feed_first.0 in
    let n = length-append response more in
    let (s, e, first) =
      string_search-IsFirst text (length text) line_feed (length line_feed) (omega (arith, f, n))
        (omega arith) in
    let (t, g, second) =
      string_search-IsFirst text (length text) content (length content) (omega (arith, f, n))
        (omega arith) in
    let s_at =
      IsFirst-unique (char_of text) (length text) (char_of line_feed) (length line_feed) s
        (pos r.feed) first (more-IsFirst response more line_feed r.feed r.feed_first) in
    let t_at =
      IsFirst-unique (char_of text) (length text) (char_of content) (length content) t (pos r.place)
        second (more-IsFirst response more content r.place r.place_first) in
    rw (e, g, s_at, t_at)
      (ap ok (
        head_in-more response more body len_buff r
        ∙ take_body-more response more body len_buff r m))
