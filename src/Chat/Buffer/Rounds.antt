-- ===== src/Chat/Buffer/Rounds.antt =====
-- The rounds of the loop in `lreadall_chat`.
use sasy_server.Base.{
  le→ltb, ℕ, suc, ◌+◌, ◌<◌, ◌≤◌, ◌≡◌, ◌≢◌, refl, ap, sym, ◌∙◌, List, [], ◌∷◌, ◌++◌, Bytes, length,
  length-append, length-pos, drop, take, arith, Outcome, ok, fault,
}
use sasy_server.Base.Int.{ℤ, pos}
use sasy_server.Chat.Packet.{header_size, text_size, int_at, int_at-append, IsMessage}
use sasy_server.Chat.Buffer.{Round, again, next_node, last, cut, outside, minus, judge, read_loop}

module _ (uin cmd : ℕ) (str m : Bytes) (w : IsMessage uin cmd str m) where
  pub judge-front :
      (got more : Bytes)
      → got ++ more ≡ m
      → more ≢ []
      → header_size ≤ length got
      → judge got ≡ next_node
  unfolding judge
  judge-front got more e ne h =
      let len : int_at got 8 ≡ length str =
        sym (int_at-append got more 8 (omega arith)) ∙ ap (λ t. int_at t 8) e ∙ w.len_of in
      rw len
        (ground (arith, w.fits, w.long, ap length e, length-append got more, length-pos more ne))

  pub judge-whole : judge m ≡ last
  unfolding judge
  judge-whole = rw w.len_of (ground (arith, w.fits, w.long))

  pub judge-more :
      (c : Bytes)
      → c ≢ []
      → length (m ++ c) ≤ text_size + header_size
      → judge (m ++ c) ≡ cut (length m)
  unfolding judge
  judge-more c ne h =
      rw (int_at-append m c 8 (omega (arith, w.long)) ∙ w.len_of)
        (ground (arith, w.fits, w.long, length-append m c, length-pos c ne))

-- What the loop does in a round, by what `judge` says.
abbrev pub Follows :
    Round → ℕ → ℕ → Bytes → List Bytes → Bytes → ℕ → Outcome (Bytes × List Bytes × ℤ) → Type 0
Follows again fuel o node nodes copied before r = r ≡ read_loop fuel (node ∷ nodes) (pos o) copied
Follows next_node fuel o node nodes copied before r = r ≡ read_loop fuel nodes (pos 0) copied
Follows last fuel o node nodes copied before r = r ≡ ok (copied, nodes, pos 0)
Follows (cut n) fuel o node nodes copied before r =
    r ≡ ok (take n copied, node ∷ nodes, minus (o + n) before)
Follows outside fuel o node nodes copied before r = r ≡ fault

pub read_loop-Follows :
    (round : Round) (fuel o : ℕ) (node : Bytes) (nodes : List Bytes) (buffer : Bytes)
    → o < length node
    → judge (buffer ++ drop o node) ≡ round
    → Follows round fuel o node nodes
        (buffer ++ drop o node)
        (length buffer)
        (read_loop (suc fuel) (node ∷ nodes) (pos o) buffer)
unfolding read_loop
read_loop-Follows again fuel o node nodes buffer h e =
    rw (le→ltb (length node) o (omega arith), e, read_loop) refl
read_loop-Follows next_node fuel o node nodes buffer h e =
    rw (le→ltb (length node) o (omega arith), e, read_loop) refl
read_loop-Follows last fuel o node nodes buffer h e =
    rw (le→ltb (length node) o (omega arith), e, read_loop) refl
read_loop-Follows (cut n) fuel o node nodes buffer h e =
    rw (le→ltb (length node) o (omega arith), e, read_loop) refl
read_loop-Follows outside fuel o node nodes buffer h e =
    rw (le→ltb (length node) o (omega arith), e, read_loop) refl

abbrev pub first_part : ℕ → List Bytes → Bytes
first_part o [] = []
first_part o (node ∷ nodes) = drop o node
