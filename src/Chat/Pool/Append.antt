-- ===== src/Chat/Pool/Append.antt =====
-- A block that is put behind the others.
use sasy_server.Base.{
  ℕ, ◌+◌, ◌≡◌, ◌≢◌, refl, sym, ap, ap₂, subst, ◌∙◌, List, [], ◌∷◌, ◌++◌, ◌==◌, Bytes, length, All,
  All-append, Option, none, some, update, update_ne, update_self, u32, inl, inr, Bool-cases, arith,
}
use sasy_server.Chat.Buffer.{SocketBuffer}
use sasy_server.Chat.Pool.{BufferNode, Linked, NodeHeap, append_node, linked_in, push_node, provide}
use sasy_server.Chat.Pool.Segments.{
  Owner, pool, socket, nobody, Segment, bytes_in, held, Kept, Segment-Kept, held-Kept,
  Segment-owned, Segment-snoc,
}
use sasy_server.Chat.Pool.Represents.{
  Full, Chain, Represents, Provided, provide-Provided, Chain-Kept, All-map, owners_ne,
}

All-both : (P Q : ℕ → Type 0) (xs : List ℕ) → All P xs → All Q xs → All (λ b. P b × Q b) xs
All-both P Q [] a b = tt
All-both P Q (x ∷ xs) a b = ((a.0, b.0), All-both P Q xs a.1 b.1)

pub pool-ne-socket : (i : ℕ) → pool ≢ socket i
pool-ne-socket i e = cc

pub pool-ne-nobody : pool ≢ nobody
pool-ne-nobody e = cc

abbrev number : Owner → ℕ
number pool = 0
number (socket i) = i
number nobody = 0

pub socket-ne-socket : (i j : ℕ) → i ≢ j → socket i ≢ socket j
socket-ne-socket i j n e = n (ap number e)

pub held-append :
    (nodes : ℕ → BufferNode) (xs ys : List ℕ)
    → held nodes (xs ++ ys) ≡ held nodes xs ++ held nodes ys
held-append nodes [] ys = refl
held-append nodes (x ∷ xs) ys = ap (λ t. bytes_in (nodes x).msg ∷ t) (held-append nodes xs ys)

-- A segment to a node starts at a node.
pub Segment-first :
    (nodes : ℕ → BufferNode) (own : ℕ → Owner) (k : Owner) (p : Option ℕ) (xs : List ℕ) (t : ℕ)
    → Segment nodes own k p xs (some t)
    → (first : ℕ) × (p ≡ some first)
Segment-first nodes own k p [] t s = (t, s)
Segment-first nodes own k p (x ∷ xs) t s = (x, s.0)

-- A block behind the others.
abbrev pub pushed : Bytes → SocketBuffer → SocketBuffer
pushed msg sb = record sb { size = u32 (sb.size + length msg); nodes = sb.nodes ++ (msg ∷ []) }

-- What holds of a changed entry and of those that are not changed holds of all.
pub updated :
    {A B : Type 0} (P : ℕ → A → B → Type 0) (f : ℕ → A) (g : ℕ → B) (i : ℕ) (v : A) (w : B)
    → P i v w
    → ((j : ℕ) → i ≢ j → P j (f j) (g j))
    → (j : ℕ) → P j (update f i v j) (update g i w j)
updated P f g i v w here there j = elim (Bool-cases (i == j)) [
  | inl same ↦
      let e : i ≡ j = ground (arith, same) in
      subst (λ k. P k (update f i v k) (update g i w k)) e
        (subst (λ x. P i x (update g i w i)) (sym (update_self f i v))
          (subst (P i v) (sym (update_self g i w)) here))
  | inr other ↦
      let n : i ≢ j = ground (arith, other) in
      subst (λ x. P j x (update g i w j)) (sym (update_ne f i j v n))
        (subst (P j (f j)) (sym (update_ne g i j w n)) (there j n))
]

module _ (h : NodeHeap) (view : ℕ → SocketBuffer) (a : ℕ) (p : Provided (a, h) view) (i : ℕ)
    (msg : Bytes) where
  abbrev node : BufferNode
  node = record { msg = some msg; next = none }

  abbrev taken : ℕ → BufferNode
  taken = update h.nodes a node

  abbrev own' : ℕ → Owner
  own' = update p.own a (socket i)

  abbrev linked : ℕ → ℕ → BufferNode
  linked t = update taken t (record (taken t) { next = some a })

  owned_ne : (b j : ℕ) → p.own b ≡ socket j → a ≢ b
  owned_ne b j o = owners_ne p.own a b pool (socket j) p.is_free o (pool-ne-socket j)

  taken-Kept : (b : ℕ) → a ≢ b → Kept h.nodes taken p.own own' b
  taken-Kept b n = record {
    node = update_ne h.nodes a b node n;
    owner = update_ne p.own a b (socket i) n;
  }

  linked-Kept : (t b : ℕ) → t ≢ b → a ≢ b → Kept h.nodes (linked t) p.own own' b
  linked-Kept t b m n = record {
    node =
        update_ne taken t b (record (taken t) { next = some a }) m ∙ update_ne h.nodes a b node n;
    owner = update_ne p.own a b (socket i) n;
  }

  taken_at : taken a ≡ node
  taken_at = update_self h.nodes a node

  own_at : own' a ≡ socket i
  own_at = update_self p.own a (socket i)

  append_first-Full :
      (sb : Linked) (blocks : List Bytes)
      → blocks ≡ []
      → Full taken own' i
          (record sb { size = u32 (sb.size + length msg); head = some a; tail = some a })
          (blocks ++ (msg ∷ []))
  append_first-Full sb blocks e = record {
    init = [];
    last = a;
    links = refl;
    at_tail = refl;
    owned = own_at;
    others = tt;
    ended = ap (λ n. n.next) taken_at;
    blocks_of = ap (λ n. bytes_in n.msg ∷ []) taken_at ∙ ap (λ bs. bs ++ (msg ∷ [])) (sym e);
  }

  append_next-Full :
      (sb : Linked) (blocks : List Bytes) (f : Full h.nodes p.own i sb blocks)
      → Full
          (linked f.last)
          own'
          i
          (record sb { size = u32 (sb.size + length msg); tail = some a })
          (blocks ++ (msg ∷ []))
  append_next-Full sb blocks f =
      let t = f.last in
      let nodes' = linked t in
      let apart = owned_ne t i f.owned in
      let owners = Segment-owned h.nodes p.own (socket i) sb.head (some t) f.init f.links in
      let kept =
        All-map f.init (λ b w. linked-Kept t b (λ e. w.0 (sym e)) (owned_ne b i w.1))
          (All-both (λ b. b ≢ t) (λ b. p.own b ≡ socket i) f.init f.others owners) in
      let links =
        Segment-Kept h.nodes nodes' p.own own' (socket i) sb.head (some t) f.init kept f.links in
      let at_last : nodes' t ≡ record (taken t) { next = some a } =
        update_self taken t (record (taken t) { next = some a }) in
      let not_last : taken t ≡ h.nodes t = update_ne h.nodes a t node apart in
      let at_new : nodes' a ≡ node =
        update_ne taken t a (record (taken t) { next = some a }) (λ e. apart (sym e)) ∙ taken_at in
      let same_block : bytes_in (nodes' t).msg ≡ bytes_in (h.nodes t).msg =
        ap (λ n. bytes_in n.msg) at_last ∙ ap (λ n. bytes_in n.msg) not_last in
      record {
        init = f.init ++ (t ∷ []);
        last = a;
        links =
            Segment-snoc nodes' own' (socket i) sb.head (some a) f.init t links
              (update_ne p.own a t (socket i) apart ∙ f.owned) f.others (ap (λ n. n.next) at_last);
        at_tail = refl;
        owned = own_at;
        others =
            All-append (λ b. b ≢ a) f.init (t ∷ [])
              (All-map f.init (λ b o e. owned_ne b i o (sym e)) owners) (λ e. apart (sym e), tt);
        ended = ap (λ n. n.next) at_new;
        blocks_of =
            held-append nodes' (f.init ++ (t ∷ [])) (a ∷ [])
            ∙ ap₂ (λ x y. x ++ y)
                (held-append nodes' f.init (t ∷ [])
                  ∙ ap₂ (λ x y. x ++ (y ∷ [])) (held-Kept h.nodes nodes' p.own own' f.init kept)
                      same_block
                  ∙ sym (held-append h.nodes f.init (t ∷ []))
                  ∙ f.blocks_of)
                (ap (λ n. bytes_in n.msg ∷ []) at_new);
      }

  -- The heap that has the node in the buffer of socket `i`.
  built :
      (nodes' : ℕ → BufferNode) (sb' : Linked)
      → Chain nodes' own' i sb' (pushed msg (view i))
      → ((b j : ℕ) → i ≢ j → p.own b ≡ socket j → Kept h.nodes nodes' p.own own' b)
      → All (Kept h.nodes nodes' p.own own') p.rest
      → Represents
          (record h {
            nodes = nodes';
            free_node = (h.nodes a).next;
            buffers = update h.buffers i sb';
          })
          (update view i (pushed msg (view i)))
  built nodes' sb' here keeps free_kept = record {
    own = own';
    free = p.rest;
    chains =
        updated (λ j sb v. Chain nodes' own' j sb v) h.buffers view i sb' (pushed msg (view i)) here
          (λ j n.
            Chain-Kept h.nodes nodes' p.own own' j (h.buffers j) (view j) (λ b o. keeps b j n o)
              (p.chains j));
    free_links =
        Segment-Kept h.nodes nodes' p.own own' pool (h.nodes a).next none p.rest free_kept
          p.rest_links;
    unused = λ b l.
        update_ne p.own a b (socket i)
          (owners_ne p.own a b pool nobody p.is_free (p.unused b l) pool-ne-nobody)
        ∙ p.unused b l;
  }

  -- Whether the buffer has nodes or not, the assertion holds and the block is the last one of the buffer.
  append-Represents :
      (h' : NodeHeap) × (linked_in i h
          (h.nodes a).next
          (append_node (h.buffers i).head (h.buffers i).tail a (length msg) (h.buffers i) taken)
        ≡ some h')
      × Represents h' (update view i (pushed msg (view i)))
  unfolding append_node
  append-Represents =
      let sb = h.buffers i in
      let c = p.chains i in
      let size = ap (λ n. u32 (n + length msg)) c.same_size in
      let ends = λ (hd : Option ℕ) (tl : Option ℕ).
        linked_in i h (h.nodes a).next (append_node hd tl a (length msg) sb taken) in
      let free_owned = Segment-owned h.nodes p.own pool (h.nodes a).next none p.rest p.rest_links in
      elim c.shape [
        | inl bare ↦
            let sb' = record sb {
              size = u32 (sb.size + length msg);
              head = some a;
              tail = some a;
            } in
            (
              record h {
                nodes = taken;
                free_node = (h.nodes a).next;
                buffers = update h.buffers i sb';
              },
              ap₂ ends bare.no_head bare.no_tail,
              built taken sb'
                  (record {
                    shape = inr (append_first-Full sb (view i).nodes bare.no_blocks);
                    same_size = size;
                    same_offset = c.same_offset;
                  })
                  (λ b j n o. taken-Kept b (owned_ne b j o)) (All-map p.rest taken-Kept p.others),
            )
        | inr f ↦
            let t = f.last in
            let sb' = record sb { size = u32 (sb.size + length msg); tail = some a } in
            let first = Segment-first h.nodes p.own (socket i) sb.head f.init t f.links in
            (
              record h {
                nodes = linked t;
                free_node = (h.nodes a).next;
                buffers = update h.buffers i sb';
              },
              ap₂ ends first.1 f.at_tail,
              built (linked t) sb'
                  (record {
                    shape = inr (append_next-Full sb (view i).nodes f);
                    same_size = size;
                    same_offset = c.same_offset;
                  })
                  (λ b j n o.
                    linked-Kept t b
                      (owners_ne p.own t b (socket i) (socket j) f.owned o (socket-ne-socket i j n))
                      (owned_ne b j o))
                  (All-map p.rest
                    (λ b w.
                      linked-Kept t b
                        (owners_ne p.own t b (socket i) pool f.owned w.1
                          (λ e. pool-ne-socket i (sym e)))
                        w.0)
                    (All-both (λ b. a ≢ b) (λ b. p.own b ≡ pool) p.rest p.others free_owned)),
            )
      ]

-- `lpushbuffer` on linked nodes is the block behind the others, and every other buffer is as it was.
pub push_node-Represents :
    (h : NodeHeap) (view : ℕ → SocketBuffer) (i : ℕ) (msg : Bytes)
    → Represents h view
    → (h' : NodeHeap) × (push_node i msg h ≡ some h')
      × Represents h' (update view i (pushed msg (view i)))
unfolding push_node
push_node-Represents h view i msg w =
    let r = provide h.free_node h in
    append-Represents r.1 view r.0 (provide-Provided h view w) i msg
