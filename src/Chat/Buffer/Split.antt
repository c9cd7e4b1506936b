-- ===== src/Chat/Buffer/Split.antt =====
-- Messages of which only a part waits in a socket's buffer.
use sasy_server.Base.{
  ℕ, zero, suc, ◌+◌, ◌-◌, ◌^◌, ◌≤◌, ◌≡◌, ◌≢◌, refl, ap, ap₂, sym, subst, ◌∙◌, List, [], ◌∷◌, ◌++◌,
  append_assoc, append-nil, Bytes, length, length-append, drop, take, joined, u32, arith, returns,
  some, ok, leb, le→ltb, false,
}
use sasy_server.Base.Int.{pos}
use sasy_server.Chat.Packet.{
  header_size, text_size, int_at, int_at-append, IsMessage, send_chat, send_chat-IsMessage,
}
use sasy_server.Chat.Buffer.{SocketBuffer, next_node, read_loop, zeros, push_line, readall_chat}
use sasy_server.Chat.Buffer.Pending.{pend, Inside, Inside-zero, pend-zero, Holds}
use sasy_server.Chat.Buffer.Rounds.{read_loop-Follows, judge-front, first_part}
use sasy_server.Chat.Buffer.Messages.{front_of, front_of-first_part}

module _ (uin cmd : ℕ) (str m : Bytes) (w : IsMessage uin cmd str m) where
  read_loop-drains :
      (fuel : ℕ) (nodes : List Bytes) (o : ℕ) (buffer got more : Bytes)
      → Inside o nodes
      → length nodes ≤ fuel
      → buffer ++ pend o nodes ≡ got
      → got ++ more ≡ m
      → more ≢ []
      → header_size ≤ length (buffer ++ first_part o nodes)
      → read_loop fuel nodes (pos o) buffer ≡ ok (got, [], pos 0)
  unfolding read_loop
  read_loop-drains fuel [] o buffer got more i f e g ne h =
      ap₂ (λ t p. ok (t, [], pos p)) (sym (append-nil buffer) ∙ e) i
  read_loop-drains zero (node ∷ nodes) o buffer got more i f e g ne h = absurd (omega arith)
  read_loop-drains (suc fuel) (node ∷ nodes) o buffer got more i f e g ne h =
      let copied = buffer ++ drop o node in
      let split : copied ++ joined nodes ≡ got =
        append_assoc buffer (drop o node) (joined nodes) ∙ e in
      let behind : copied ++ (joined nodes ++ more) ≡ m =
        sym (append_assoc copied (joined nodes) more) ∙ ap (λ t. t ++ more) split ∙ g in
      let some_more : joined nodes ++ more ≢ [] =
        λ z. ne (append-eq-nil-right (joined nodes) more z) in
      read_loop-Follows next_node fuel o node nodes buffer i.0
        (judge-front uin cmd str m w copied (joined nodes ++ more) behind some_more h)
      ∙ read_loop-drains fuel nodes 0 copied got more (Inside-zero nodes i.1) (omega arith)
          (ap (λ t. copied ++ t) (pend-zero nodes) ∙ split) g ne
          (omega (arith, length-append copied (first_part 0 nodes)))
    where
      append-eq-nil-right : (xs ys : Bytes) → xs ++ ys ≡ [] → ys ≡ []
      append-eq-nil-right [] ys e = e
      append-eq-nil-right (x ∷ xs) ys e = cc

  push_line-part :
      (got more : Bytes)
      → got ++ more ≡ m
      → header_size ≤ length got
      → push_line got
        ≡ returns (record {
          size = length got;
          uin = u32 uin;
          cmd = u32 cmd;
          len = length str;
          text = take (length str) (drop header_size got ++ zeros text_size);
        })
  unfolding push_line
  push_line-part got more g h =
      rw
        (
          at 0 (omega arith) ∙ w.uin_of,
          at 4 (omega arith) ∙ w.cmd_of,
          at 8 (omega arith) ∙ w.len_of,
          le→ltb text_size (length str) w.fits,
        )
        (rw small refl)
    where
      at : (p : ℕ) → p + 4 ≤ header_size → int_at got p ≡ int_at m p
      at p q = sym (int_at-append got more p (omega arith)) ∙ ap (λ t. int_at t p) g

      small : leb (2 ^ 31) (length str) ≡ false
      small = ground (arith, w.fits)

-- When a message has not come to its end yet, the bytes of it that wait are taken from the buffer all the
-- same, if the first node has the whole head: the text has zero bytes in place of what is missing, and
-- nothing waits any more.
pub readall_chat-part :
    (uin cmd len : ℕ) (str message got more : Bytes) (sb : SocketBuffer)
    → send_chat uin cmd len str ≡ returns message
    → got ++ more ≡ message
    → more ≢ []
    → Holds sb got
    → 12 ≤ length (front_of sb.offset sb.nodes)
    → (sb' : SocketBuffer) × (readall_chat (some sb)
        ≡ ok (
          returns (record {
            size = length got;
            uin = u32 uin;
            cmd = u32 cmd;
            len = length str;
            text = take (length str) (drop 12 got ++ zeros 2048);
          }),
          some sb',
        ))
      × Holds sb' []
unfolding readall_chat
readall_chat-part uin cmd len str message got more sb e g ne w h =
    let m = send_chat-IsMessage uin cmd len str message e in
    let front : header_size ≤ length (first_part w.place sb.nodes) =
      subst (λ t. header_size ≤ length t)
        (ap (λ z. front_of z sb.nodes) w.placed ∙ front_of-first_part w.place sb.nodes) h in
    let drained =
      read_loop-drains uin cmd str message m (length sb.nodes + header_size) sb.nodes w.place [] got
        more w.inside (omega arith) w.waiting g ne front in
    let n = ap length g in
    (
      record { size = u32 (sb.size + 2 ^ 32 - length got); offset = pos 0; nodes = [] },
      rw
          (
            w.placed,
            drained,
            push_line-part uin cmd str message m got more g
                (omega (arith, front, long_pend w.place sb.nodes, ap length w.waiting)),
          )
          refl,
      record {
        place = 0;
        placed = refl;
        inside = refl;
        waiting = refl;
        counted = omega (arith, w.counted, n, length-append got more, m.long, m.fits);
      },
    )
  where
    long_pend : (o : ℕ) (nodes : List Bytes) → length (first_part o nodes) ≤ length (pend o nodes)
    long_pend o [] = omega arith
    long_pend o (node ∷ nodes) = omega (arith, length-append (drop o node) (joined nodes))
