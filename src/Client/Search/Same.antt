-- ===== src/Client/Search/Same.antt =====
-- The client's search against the server's, `websocket_strnpos` of
-- game_room/luaclib-src/lua-websocketnetpack.c.
use sasy_server.Base.{
  ℕ, zero, suc, ◌+◌, ◌<◌, ◌≤◌, ◌≡◌, refl, ap, ◌∙◌, sym, inl, inr, arith, true, ltb, ltb→lt, lt→ltb,
  Bool-cases, [], ◌∷◌, Bytes, length, get_or, drop, length-drop, ok,
}
use sasy_server.Base.Int.{ℤ, pos, negsuc}
use native.Mathlib.Decide.{dec_lt}
use sasy_server.WebSocket.Handshake.{starts_with, websocket_strnpos}
use sasy_server.WebSocket.Handshake.Search.{Found, websocket_strnpos-Found, length-starts_with}
use sasy_server.Client.Search.{string_search}
use sasy_server.Client.Search.Table.{char_of}
use sasy_server.Client.Search.First.{Occurs, IsFirst, string_search-IsFirst}

get_or-drop : (q : ℕ) (xs : Bytes) (k : ℕ) → get_or (drop q xs) k 0 ≡ get_or xs (q + k) 0
get_or-drop zero xs k = ap (λ j. get_or xs j 0) (omega arith)
get_or-drop (suc q) [] k = refl
get_or-drop (suc q) (x ∷ xs) k = get_or-drop q xs k ∙ ap (λ j. get_or (x ∷ xs) j 0) (suc_add q k)
  where
    suc_add : (a b : ℕ) → suc (a + b) ≡ suc a + b
    suc_add a b = omega arith

-- What `memcmp` finds is what the characters say.
starts_with-char :
    (xs ns : Bytes)
    → starts_with xs ns ≡ true
    → (k : ℕ) → k < length ns
    → get_or ns k 0 ≡ get_or xs k 0
unfolding starts_with
starts_with-char xs [] h k l = absurd (omega arith)
starts_with-char [] (n ∷ ns) h k l = cc
starts_with-char (x ∷ xs) (n ∷ ns) h zero l = ground (arith, h)
starts_with-char (x ∷ xs) (n ∷ ns) h (suc k) l =
    starts_with-char xs ns (ground (arith, h)) k (omega arith)

char-starts_with :
    (xs ns : Bytes)
    → length ns ≤ length xs
    → ((k : ℕ) → k < length ns → get_or ns k 0 ≡ get_or xs k 0)
    → starts_with xs ns ≡ true
unfolding starts_with
char-starts_with xs [] h f = refl
char-starts_with [] (n ∷ ns) h f = absurd (omega arith)
char-starts_with (x ∷ xs) (n ∷ ns) h f = ground (
  arith,
  f 0 (omega arith),
  char-starts_with xs ns (omega arith) (λ k l. f (suc k) (omega arith)),
)

module _ (src ns : Bytes) where
  starts_with-Occurs :
      (q : ℕ) → starts_with (drop q src) ns ≡ true → Occurs (char_of src) (char_of ns) (length ns) q
  starts_with-Occurs q h k l = starts_with-char (drop q src) ns h k l ∙ get_or-drop q src k

  pub Occurs-starts_with :
      (q : ℕ)
      → q + length ns ≤ length src
      → Occurs (char_of src) (char_of ns) (length ns) q
      → starts_with (drop q src) ns ≡ true
  Occurs-starts_with q h o =
      char-starts_with (drop q src) ns (omega (arith, length-drop q src))
        (λ k l. o k l ∙ sym (get_or-drop q src k))

  -- The description of the one result is that of the other.
  Found-IsFirst :
      (r : ℤ)
      → 0 < length ns
      → Found r 0 src ns
      → IsFirst (char_of src) (length src) (char_of ns) (length ns) r
  Found-IsFirst (pos k) p (j, e, t, before) =
      (fits, λ i l. starts_with-Occurs j t i l ∙ ap (char_of src) (omega (arith, e)), earlier)
    where
      fits : k + length ns ≤ length src
      fits = omega (arith, e, length-starts_with (drop j src) ns t, length-drop j src)

      earlier : (q : ℕ) → q < k → ¬ Occurs (char_of src) (char_of ns) (length ns) q
      earlier q l o = cc (before q (omega (arith, e)), Occurs-starts_with q (omega (arith, fits)) o)
  Found-IsFirst (negsuc k) p (e, never) = (e, λ q l o. cc (never q, Occurs-starts_with q l o))

-- There is one first place at most.
pub IsFirst-unique :
    (src : ℕ → ℕ) (len_src : ℕ) (des : ℕ → ℕ) (len : ℕ) (r s : ℤ)
    → IsFirst src len_src des len r
    → IsFirst src len_src des len s
    → r ≡ s
IsFirst-unique src len_src des len (pos p) (pos q) (f, o, b) (g, u, c) = elim (dec_lt p q) [
  | yes l ↦ absurd (c p l o)
  | no l ↦ elim (dec_lt q p) [ yes m ↦ absurd (b q m u) | no m ↦ ap pos (omega arith) ]
]
IsFirst-unique src len_src des len (pos p) (negsuc n) (f, o, b) (e, none) = absurd (none p f o)
IsFirst-unique src len_src des len (negsuc n) (pos q) (e, none) (f, o, b) = absurd (none q f o)
IsFirst-unique src len_src des len (negsuc n) (negsuc m) (e, none) (f, other) =
    ap negsuc (e ∙ sym f)

-- On a whole text and a needle of at least two characters, the client's search by a table of borders
-- ends with the place that the server's plain search finds, or with -1 as that does.
pub string_search-eq-websocket_strnpos :
    (src : Bytes) (n m : ℕ) (needle : Bytes)
    → string_search src (length src) (n ∷ m ∷ needle) (length (n ∷ m ∷ needle))
      ≡ ok (websocket_strnpos src n (m ∷ needle))
unfolding string_search websocket_strnpos
string_search-eq-websocket_strnpos src n m needle = elim (Bool-cases (ltb (length src) 2)) [
  | inl short ↦
      rw (short, lt→ltb (length src) (length (n ∷ m ∷ needle)) (omega (arith, ltb→lt _ _ short)))
        refl
  | inr long ↦
      let ns = n ∷ m ∷ needle in
      let (r, e, first) =
        string_search-IsFirst src (length src) ns (length ns) (ground (arith, long))
          (omega arith) in
      let found =
        Found-IsFirst src ns (websocket_strnpos src n (m ∷ needle)) (omega arith)
          (websocket_strnpos-Found src n (m ∷ needle)) in
      e
      ∙ ap ok (
          IsFirst-unique (char_of src) (length src) (char_of ns) (length ns) r
            (websocket_strnpos src n (m ∷ needle)) first found)
]
