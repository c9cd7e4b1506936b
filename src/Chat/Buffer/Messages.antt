-- ===== src/Chat/Buffer/Messages.antt =====
-- A message that waits in a socket's buffer is read.
use sasy_server.Base.{
  le→ltb, ℕ, zero, suc, ◌+◌, ◌-◌, ◌^◌, ◌<◌, ◌≤◌, ◌≡◌, ◌≢◌, refl, ap, ap₂, sym, subst, ◌∙◌, List, [],
  ◌∷◌, ◌++◌, append_assoc, append-nil, Bytes, length, length-append, length-drop, length-pos, drop,
  drop-drop, drop-append, take, take-append, append_split, inl, inr, joined, u32, arith, returns,
  some, ok, leb, false,
}
use sasy_server.Base.Int.{ℤ, pos}
use sasy_server.Chat.Packet.{header_size, text_size, IsMessage, send_chat, send_chat-IsMessage}
use sasy_server.Chat.Buffer.{
  SocketBuffer, next_node, last, cut, minus, judge, read_loop, Line, zeros, push_line, readall_chat,
}
use sasy_server.Chat.Buffer.Pending.{pend, Inside, Inside-zero, pend-zero, Reads, Holds}
use sasy_server.Chat.Buffer.Rounds.{
  judge-front, judge-whole, judge-more, read_loop-Follows, first_part,
}

module _ (uin cmd : ℕ) (str m : Bytes) (w : IsMessage uin cmd str m) where
  -- The place behind a message that ends within a node.
  cut_place :
      (o : ℕ) (node buffer c : Bytes)
      → o < length node
      → buffer ++ drop o node ≡ m ++ c
      → length buffer < length m
      → c ≢ []
      → (p : ℕ) × (minus (o + length m) (length buffer) ≡ pos p)
        × (p < length node)
        × (drop p node ≡ c)
  cut_place o node buffer c h e l ne =
      let n = ap length e in
      let p = o + (length m - length buffer) in
      (
        p,
        ground (arith, l),
        omega (
          arith,
          n,
          length-append buffer (drop o node),
          length-append m c,
          length-drop o node,
          length-pos c ne,
        ),
        sym (drop-drop o (length m - length buffer) node)
            ∙ same (length m - length buffer) e (omega arith),
      )
    where
      same :
          (k : ℕ)
          → buffer ++ drop o node ≡ m ++ c
          → length buffer + k ≡ length m
          → drop k (drop o node) ≡ c
      same k e l =
          sym (ap (drop k) (drop-append buffer (drop o node) (length buffer) refl))
          ∙ drop-drop (length buffer) k (buffer ++ drop o node)
          ∙ ap₂ drop l e
          ∙ drop-append m c (length m) refl

  read_loop-Reads :
      (fuel : ℕ) (nodes : List Bytes) (o : ℕ) (buffer rest : Bytes)
      → Inside o nodes
      → length nodes ≤ fuel
      → buffer ++ pend o nodes ≡ m ++ rest
      → length buffer < length m
      → header_size ≤ length (buffer ++ first_part o nodes)
      → length (m ++ rest) ≤ text_size + header_size
      → Reads (read_loop fuel nodes (pos o) buffer) m rest
  read_loop-Reads fuel [] o buffer rest i f e l h small =
      absurd (omega (arith, ap length e, length-append buffer [], length-append m rest))
  read_loop-Reads zero (node ∷ nodes) o buffer rest i f e l h small = absurd (omega arith)
  read_loop-Reads (suc fuel) (node ∷ nodes) o buffer rest i f e l h small =
      let got = buffer ++ drop o node in
      let split : got ++ joined nodes ≡ m ++ rest =
        append_assoc buffer (drop o node) (joined nodes) ∙ e in
      elim (append_split got (joined nodes) m rest split) [
        | inl (more, ne, p, q) ↦
            let step =
              read_loop-Follows next_node fuel o node nodes buffer i.0
                (judge-front uin cmd str m w got more p ne h) in
            let r =
              read_loop-Reads fuel nodes 0 got rest (Inside-zero nodes i.1) (omega arith)
                (ap (λ t. got ++ t) (pend-zero nodes) ∙ split)
                (omega (arith, ap length p, length-append got more, length-pos more ne))
                (omega (arith, length-append got (first_part 0 nodes))) small in
            record {
              nodes = r.nodes;
              place = r.place;
              ends = step ∙ r.ends;
              inside = r.inside;
              waiting = r.waiting;
            }
        | inr ([], p, q) ↦
            let whole : got ≡ m = p ∙ append-nil m in
            record {
              nodes = nodes;
              place = 0;
              ends =
                  read_loop-Follows last fuel o node nodes buffer i.0
                    (ap judge whole ∙ judge-whole uin cmd str m w)
                  ∙ ap (λ t. ok (t, nodes, pos 0)) whole;
              inside = Inside-zero nodes i.1;
              waiting = pend-zero nodes ∙ q;
            }
        | inr (b ∷ c, p, q) ↦
            let ne : b ∷ c ≢ [] = λ z. omega (arith, ap length z) in
            let (place, at, inner, behind) = cut_place o node buffer (b ∷ c) i.0 p l ne in
            let bound : length (m ++ (b ∷ c)) ≤ text_size + header_size = omega (
              arith,
              ap length q,
              length-append (b ∷ c) (joined nodes),
              length-append m rest,
              length-append m (b ∷ c),
            ) in
            record {
              nodes = node ∷ nodes;
              place = place;
              ends =
                  read_loop-Follows (cut (length m)) fuel o node nodes buffer i.0
                    (ap judge p ∙ judge-more uin cmd str m w (b ∷ c) ne bound)
                  ∙ ap₂ (λ t z. ok (t, node ∷ nodes, z))
                      (ap (take (length m)) p ∙ take-append m (b ∷ c) (length m) refl) at;
              inside = (inner, i.1);
              waiting = ap (λ t. t ++ joined nodes) behind ∙ q;
            }
      ]

abbrev text_line : ℕ → ℕ → Bytes → Line
text_line uin cmd str = record {
  size = header_size + length str;
  uin = u32 uin;
  cmd = u32 cmd;
  len = length str;
  text = str;
}

push_line-message :
    (uin cmd : ℕ) (str m : Bytes)
    → IsMessage uin cmd str m
    → push_line m ≡ returns (text_line uin cmd str)
unfolding push_line
push_line-message uin cmd str m w =
    rw
      (
        w.len_of,
        w.uin_of,
        w.cmd_of,
        w.long,
        w.text_of,
        le→ltb text_size (length str) w.fits,
        take-append str (zeros text_size) (length str) refl,
      )
      (rw small refl)
  where
    small : leb (2 ^ 31) (length str) ≡ false
    small = ground (arith, w.fits)

-- What waits of the first node.
abbrev pub front_of : ℤ → List Bytes → Bytes
front_of (pos o) (node ∷ nodes) = drop o node
front_of _ _ = []

pub front_of-first_part : (o : ℕ) (nodes : List Bytes) → front_of (pos o) nodes ≡ first_part o nodes
front_of-first_part o [] = refl
front_of-first_part o (node ∷ nodes) = refl

-- When the bytes of a message that `lsend_chat` sent wait in front, in whatever nodes they came, if only
-- the first node has the whole head and no more than 2060 bytes wait in all, then the message's
-- integers and its text are read, and the buffer holds the rest, with its size.
pub readall_chat-message :
    (uin cmd len : ℕ) (str message rest : Bytes) (sb : SocketBuffer)
    → send_chat uin cmd len str ≡ returns message
    → Holds sb (message ++ rest)
    → 12 ≤ length (front_of sb.offset sb.nodes)
    → length (message ++ rest) ≤ 2060
    → (sb' : SocketBuffer) × (readall_chat (some sb)
        ≡ ok (
          returns (record {
            size = 12 + length str;
            uin = u32 uin;
            cmd = u32 cmd;
            len = length str;
            text = str;
          }),
          some sb',
        ))
      × Holds sb' rest
unfolding readall_chat
readall_chat-message uin cmd len str message rest sb e w h small =
    let m = send_chat-IsMessage uin cmd len str message e in
    let front : header_size ≤ length (first_part w.place sb.nodes) =
      subst (λ t. header_size ≤ length t)
        (ap (λ z. front_of z sb.nodes) w.placed ∙ front_of-first_part w.place sb.nodes) h in
    let r =
      read_loop-Reads uin cmd str message m (length sb.nodes + header_size) sb.nodes w.place [] rest
        w.inside (omega arith) w.waiting (omega (arith, m.long)) front small in
    (
      record {
        size = u32 (sb.size + 2 ^ 32 - length message);
        offset = pos r.place;
        nodes = r.nodes;
      },
      rw (w.placed, r.ends, push_line-message uin cmd str message m) refl,
      record {
        place = r.place;
        placed = refl;
        inside = r.inside;
        waiting = r.waiting;
        counted = omega (arith, w.counted, length-append message rest);
      },
    )
