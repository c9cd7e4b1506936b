-- ===== src/Chat/Reading/Pops.antt =====
-- `pop_lstring`, `lpopbuffer`, `lreadall` and `lclearbuffer` on the bytes that wait.
use sasy_server.Base.{
  ℕ, ◌+◌, ◌-◌, ◌^◌, ◌<◌, ◌≤◌, ◌≡◌, refl, ap, ap₂, sym, subst, ◌∙◌, List, [], ◌∷◌, ◌++◌, append-nil,
  false, Bool-cases, inl, inr, ltb, leb, ltb→lt, le→ltb, ◌==◌, if◌then◌else◌, Bytes, length,
  length-append, length-drop, take, drop, drop-drop, take-append_parts, drop-append_parts, take-all,
  drop-all, joined, Outcome, ok, arith,
}
use sasy_server.Base.Int.{ℤ, pos, int32, int32_of_lt}
use sasy_server.Chat.Buffer.{SocketBuffer}
use sasy_server.Chat.Buffer.Pending.{pend, Inside, Inside-zero, pend-zero, Reads, Holds}
use sasy_server.Chat.Reading.{gather, pop_lstring, less}

-- A test that only saves a call of `take`.
taken :
    (n skip : ℕ) (xs : Bytes) → (if ltb skip n then take (n - skip) xs else []) ≡ take (n - skip) xs
taken n skip xs = elim (Bool-cases (ltb skip n)) [
  | inl t ↦ rw t refl
  | inr f ↦ let z : 0 ≡ n - skip = ground (arith, f) in rw f (ap (λ k. take k xs) z)
]

module _ (node : Bytes) (nodes : List Bytes) (o : ℕ) (i : Inside o (node ∷ nodes)) where
  long : length (drop o node) ≡ length node - o
  long = length-drop o node

  -- A front of the first node.
  front-take : (n : ℕ) → n ≤ length node - o → take n (drop o node) ≡ take n (pend o (node ∷ nodes))
  front-take n h =
      let z : 0 ≡ n - length (drop o node) = omega (arith, long) in
      sym (
        take-append_parts n (drop o node) (joined nodes)
        ∙ ap (λ k. take n (drop o node) ++ take k (joined nodes)) (sym z)
        ∙ append-nil (take n (drop o node)))

  front-drop :
      (n : ℕ)
      → n ≤ length node - o
      → drop (o + n) node ++ joined nodes ≡ drop n (pend o (node ∷ nodes))
  front-drop n h =
      let z : 0 ≡ n - length (drop o node) = omega (arith, long) in
      sym (
        drop-append_parts n (drop o node) (joined nodes)
        ∙ ap (λ k. drop n (drop o node) ++ drop k (joined nodes)) (sym z)
        ∙ ap (λ t. t ++ joined nodes) (drop-drop o n node))

  -- What stays when the first node is used up.
  after-drop : (n : ℕ) → n ≡ length node - o → joined nodes ≡ drop n (pend o (node ∷ nodes))
  after-drop n h =
      let z : 0 ≡ n - length (drop o node) = omega (arith, long) in
      sym (
        drop-append_parts n (drop o node) (joined nodes)
        ∙ ap₂ (λ t k. t ++ drop k (joined nodes)) (drop-all n (drop o node) (omega (arith, long)))
            (sym z))

  -- A run that ends within the first node, or with it.
  within-Reads :
      (r : Outcome (Bytes × List Bytes × ℤ)) (n k : ℕ) (read : Bytes)
      → n < length node - o
      → r ≡ ok (read, node ∷ nodes, pos (o + n))
      → Reads r read (drop n (pend o (node ∷ nodes)))
  within-Reads r n k read h e = record {
    nodes = node ∷ nodes;
    place = o + n;
    ends = e;
    inside = (omega arith, i.1);
    waiting = front-drop n (omega arith);
  }

  whole-Reads :
      (r : Outcome (Bytes × List Bytes × ℤ)) (n : ℕ) (read : Bytes)
      → n ≡ length node - o
      → r ≡ ok (read, nodes, pos 0)
      → Reads r read (drop n (pend o (node ∷ nodes)))
  whole-Reads r n read h e = record {
    nodes = nodes;
    place = 0;
    ends = e;
    inside = Inside-zero nodes i.1;
    waiting = pend-zero nodes ∙ after-drop n h;
  }

-- What a node gives that is used up, and what the others give then.
piece-take :
    (node : Bytes) (o sz skip : ℕ)
    → length node - o < sz
    → (if ltb skip sz
        then take
            (if ltb (sz - skip) (length node - o) then sz - skip else length node - o)
            (drop o node)
        else [])
      ≡ take (sz - skip) (drop o node)
piece-take node o sz skip h = elim (Bool-cases (ltb (sz - skip) (length node - o))) [
  | inl t ↦ rw t (taken sz skip (drop o node))
  | inr f ↦
      let d = length-drop o node in
      let all : take (length node - o) (drop o node) ≡ take (sz - skip) (drop o node) =
        take-all (length node - o) (drop o node) (omega arith)
        ∙ sym (take-all (sz - skip) (drop o node) (ground (arith, f, d))) in
      rw (f, all) (taken sz skip (drop o node))
]

joins :
    (node : Bytes) (nodes : List Bytes) (o sz skip : ℕ)
    → take (sz - skip) (drop o node) ++ take (sz - (length node - o) - skip) (joined nodes)
      ≡ take (sz - skip) (drop o node ++ joined nodes)
joins node nodes o sz skip =
    let e : sz - (length node - o) - skip ≡ sz - skip - length (drop o node) =
      omega (arith, length-drop o node) in
    ap (λ k. take (sz - skip) (drop o node) ++ take k (joined nodes)) e
    ∙ sym (take-append_parts (sz - skip) (drop o node) (joined nodes))

behind :
    (node : Bytes) (nodes : List Bytes) (o sz : ℕ)
    → length node - o < sz
    → drop (sz - (length node - o)) (joined nodes) ≡ drop sz (drop o node ++ joined nodes)
behind node nodes o sz h =
    let e : sz - (length node - o) ≡ sz - length (drop o node) =
      omega (arith, length-drop o node) in
    ap (λ k. drop k (joined nodes)) e
    ∙ sym (
        drop-append_parts sz (drop o node) (joined nodes)
        ∙ ap (λ t. t ++ drop (sz - length (drop o node)) (joined nodes))
            (drop-all sz (drop o node) (omega (arith, length-drop o node))))

gather-Reads :
    (nodes : List Bytes) (o sz skip : ℕ)
    → Inside o nodes
    → 0 < sz
    → sz ≤ length (pend o nodes)
    → Reads (gather nodes o sz skip) (take (sz - skip) (pend o nodes)) (drop sz (pend o nodes))
unfolding gather
gather-Reads [] o sz skip i p h = absurd (omega arith)
gather-Reads (node ∷ nodes) o sz skip i p h = elim (Bool-cases (leb sz (length node - o))) [
  | inl fits ↦ elim (Bool-cases (length node - o == sz)) [
    | inl e ↦ whole-Reads node nodes o i _ sz _ (ground (arith, e)) (
        rw (fits, e)
          (ap (λ t. ok (t, nodes, pos 0))
            (taken sz skip (drop o node)
              ∙ front-take node nodes o i (sz - skip) (ground (arith, fits)))))
    | inr ne ↦ within-Reads node nodes o i _ sz sz _ (ground (arith, fits, ne)) (
        rw (fits, ne)
          (ap (λ t. ok (t, node ∷ nodes, pos (o + sz)))
            (taken sz skip (drop o node)
              ∙ front-take node nodes o i (sz - skip) (ground (arith, fits)))))
  ]
  | inr longer ↦
      let l = length-append (drop o node) (joined nodes) in
      let d = length-drop o node in
      let bytes : length node - o < sz = ground (arith, longer) in
      let r =
        gather-Reads nodes 0 (sz - (length node - o)) skip (Inside-zero nodes i.1) (omega arith)
          (omega (arith, ap length (pend-zero nodes))) in
      let piece = piece-take node o sz skip bytes in
      record {
        nodes = r.nodes;
        place = r.place;
        ends =
            rw (longer, r.ends)
              (ap (λ t. ok (t, r.nodes, pos r.place))
                (ap₂ (λ t u. t ++ u) piece
                    (ap (λ t. take (sz - (length node - o) - skip) t) (pend-zero nodes))
                  ∙ joins node nodes o sz skip));
        inside = r.inside;
        waiting =
            r.waiting
            ∙ ap (drop (sz - (length node - o))) (pend-zero nodes)
            ∙ behind node nodes o sz bytes;
      }
]

-- With `sz` bytes waiting, `pop_lstring` gives the first of them but the last `skip`.
pub pop_lstring-Reads :
    (nodes : List Bytes) (o sz skip : ℕ)
    → Inside o nodes
    → 0 < length (pend o nodes)
    → sz ≤ length (pend o nodes)
    → Reads
        (pop_lstring nodes (pos o) sz skip)
        (take (sz - skip) (pend o nodes))
        (drop sz (pend o nodes))
unfolding pop_lstring
pop_lstring-Reads [] o sz skip i p h = absurd (omega arith)
pop_lstring-Reads (node ∷ nodes) o sz skip i p h =
    let inner : ltb (length node) o ≡ false = le→ltb (length node) o (omega arith) in
    elim (Bool-cases (ltb sz (length node - o))) [
      | inl less_than ↦
          within-Reads node nodes o i _ sz sz _ (ltb→lt sz (length node - o) less_than) (
            rw (inner, less_than)
              (ap (λ t. ok (t, node ∷ nodes, pos (o + sz)))
                (front-take node nodes o i (sz - skip) (ground (arith, less_than)))))
      | inr not_less ↦ elim (Bool-cases (sz == length node - o)) [
        | inl e ↦ whole-Reads node nodes o i _ sz _ (ground (arith, e)) (
            rw (inner, not_less, e)
              (ap (λ t. ok (t, nodes, pos 0))
                (front-take node nodes o i (sz - skip) (ground (arith, e)))))
        | inr ne ↦
            rw (inner, not_less, ne)
              (gather-Reads (node ∷ nodes) o sz skip i (ground (arith, not_less)) h)
      ]
    ]

-- The number of bytes that wait, as the code reads it.
pub int32-Holds :
    (sb : SocketBuffer) (bytes : Bytes)
    → Holds sb bytes
    → length bytes < 2 ^ 31
    → int32 sb.size ≡ pos (length bytes)
int32-Holds sb bytes w h =
    let e : sb.size ≡ length bytes = omega (arith, w.counted) in
    ap int32 e ∙ int32_of_lt (length bytes) h

-- The buffer behind a run of `pop_lstring`.
pub less-Holds :
    (sb : SocketBuffer) (bytes read : Bytes) (n : ℕ)
    → Holds sb bytes
    → n ≤ length bytes
    → length bytes < 2 ^ 31
    → (r : Outcome (Bytes × List Bytes × ℤ)) (w : Reads r read (drop n bytes))
    → Holds (less sb n w.nodes (pos w.place)) (drop n bytes)
less-Holds sb bytes read n h l small r w = record {
  place = w.place;
  placed = refl;
  inside = w.inside;
  waiting = w.waiting;
  counted = omega (arith, h.counted, length-drop n bytes);
}

pub pop-Reads :
    (sb : SocketBuffer) (bytes : Bytes) (n skip : ℕ)
    → Holds sb bytes
    → 0 < length bytes
    → n ≤ length bytes
    → Reads (pop_lstring sb.nodes sb.offset n skip) (take (n - skip) bytes) (drop n bytes)
pop-Reads sb bytes n skip w p h =
    subst (λ t. Reads (pop_lstring sb.nodes sb.offset n skip) (take (n - skip) t) (drop n t))
      w.waiting
      (subst
        (λ z.
          Reads (pop_lstring sb.nodes z n skip) (take (n - skip) (pend w.place sb.nodes))
            (drop n (pend w.place sb.nodes)))
        (sym w.placed)
        (pop_lstring-Reads sb.nodes w.place n skip w.inside (omega (arith, ap length w.waiting))
          (omega (arith, ap length w.waiting))))
