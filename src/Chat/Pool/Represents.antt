-- ===== src/Chat/Pool/Represents.antt =====
-- When the nodes of the heap are the buffers of the sockets and the list of free nodes.
use sasy_server.Base.{
  ℕ, zero, suc, ◌+◌, ◌-◌, ◌^◌, ◌<◌, ◌≤◌, ◌≡◌, ◌≢◌, refl, sym, ap, subst, ◌∙◌, List, [], ◌∷◌, ◌++◌,
  ◌&&◌, ltb, leb, if◌then◌else◌, Bytes, All, All-append, Option, none, some, ◌⊎◌, inl, inr,
  Bool-cases, arith,
}
use sasy_server.Chat.Buffer.{SocketBuffer}
use sasy_server.Chat.Pool.{
  BufferNode, Linked, NodeHeap, chunk_size, table_entries, new_pool, provide,
}
use sasy_server.Chat.Pool.Segments.{
  Owner, pool, socket, nobody, Segment, held, Kept, Segment-Kept, held-Kept, Segment-owned,
}

-- A buffer with nodes: those before the last one, and the last one.
pub record Full (nodes : ℕ → BufferNode) (own : ℕ → Owner) (i : ℕ) (sb : Linked)
    (blocks : List Bytes) : Type 0 where
  pub init : List ℕ
  pub last : ℕ
  pub links : Segment nodes own (socket i) sb.head init (some last)
  pub at_tail : sb.tail ≡ some last
  pub owned : own last ≡ socket i
  pub others : All (λ b. b ≢ last) init
  pub ended : (nodes last).next ≡ none
  pub blocks_of : held nodes (init ++ (last ∷ [])) ≡ blocks

-- A buffer without nodes.
pub record Bare (sb : Linked) (blocks : List Bytes) : Type 0 where
  pub no_head : sb.head ≡ none
  pub no_tail : sb.tail ≡ none
  pub no_blocks : blocks ≡ []

-- The links of socket `i` are the list of blocks.
pub record Chain (nodes : ℕ → BufferNode) (own : ℕ → Owner) (i : ℕ) (sb : Linked)
    (view : SocketBuffer) : Type 0 where
  pub shape : Bare sb view.nodes ⊎ Full nodes own i sb view.nodes
  pub same_size : sb.size ≡ view.size
  pub same_offset : sb.offset ≡ view.offset

-- The heap has the buffers of `view`, each with nodes of its own, and the free nodes.
pub record Represents (h : NodeHeap) (view : ℕ → SocketBuffer) : Type 0 where
  pub own : ℕ → Owner
  pub free : List ℕ
  pub chains : (i : ℕ) → Chain h.nodes own i (h.buffers i) (view i)
  pub free_links : Segment h.nodes own pool h.free_node free none
  pub unused : (a : ℕ) → h.fresh ≤ a → own a ≡ nobody

pub All-map : {P Q : ℕ → Type 0} (xs : List ℕ) → ((b : ℕ) → P b → Q b) → All P xs → All Q xs
All-map [] f a = tt
All-map (x ∷ xs) f a = (f x a.0, All-map xs f a.1)

pub owners_ne : (own : ℕ → Owner) (a b : ℕ) (k k' : Owner) → own a ≡ k → own b ≡ k' → k ≢ k' → a ≢ b
owners_ne own a b k k' e e' n s = n (sym e ∙ ap own s ∙ e')

-- A chain whose nodes are kept is kept.
pub Chain-Kept :
    (nodes nodes' : ℕ → BufferNode) (own own' : ℕ → Owner) (i : ℕ) (sb : Linked)
    (view : SocketBuffer)
    → ((b : ℕ) → own b ≡ socket i → Kept nodes nodes' own own' b)
    → Chain nodes own i sb view
    → Chain nodes' own' i sb view
Chain-Kept nodes nodes' own own' i sb view h c = record {
  shape = elim c.shape [ inl bare ↦ inl bare | inr full ↦ inr (keep_full full) ];
  same_size = c.same_size;
  same_offset = c.same_offset;
}
  where
    keep_full : Full nodes own i sb view.nodes → Full nodes' own' i sb view.nodes
    keep_full f =
        let kept =
          All-map f.init h
            (Segment-owned nodes own (socket i) sb.head (some f.last) f.init f.links) in
        let last_kept = h f.last f.owned in
        record {
          init = f.init;
          last = f.last;
          links =
              Segment-Kept nodes nodes' own own' (socket i) sb.head (some f.last) f.init kept
                f.links;
          at_tail = f.at_tail;
          owned = last_kept.owner ∙ f.owned;
          others = f.others;
          ended = ap (λ n. n.next) last_kept.node ∙ f.ended;
          blocks_of =
              held-Kept nodes nodes' own own' (f.init ++ (f.last ∷ []))
                (All-append (Kept nodes nodes' own own') f.init (f.last ∷ []) kept (last_kept, tt))
              ∙ f.blocks_of;
        }

-- A free node that is taken from its list.
pub record Provided (r : ℕ × NodeHeap) (view : ℕ → SocketBuffer) : Type 0 where
  pub own : ℕ → Owner
  pub rest : List ℕ
  pub chains : (i : ℕ) → Chain r.1.nodes own i (r.1.buffers i) (view i)
  pub is_free : own r.0 ≡ pool
  pub others : All (λ b. r.0 ≢ b) rest
  pub rest_links : Segment r.1.nodes own pool (r.1.nodes r.0).next rest none
  pub unused : (a : ℕ) → r.1.fresh ≤ a → own a ≡ nobody

some_inj : (a b : ℕ) → some a ≡ some b → a ≡ b
some_inj a b e = cc

abbrev row : ℕ → ℕ → List ℕ
row a zero = []
row a (suc n) = a ∷ row (suc a) n

abbrev front : ℕ → ℕ → Option ℕ
front a zero = none
front a (suc n) = some a

row-above : (a c n : ℕ) → a < c → All (λ b. a ≢ b) (row c n)
row-above a c zero h = tt
row-above a c (suc n) h = (λ e. omega (arith, e), row-above a (suc c) n (omega arith))

-- The owners when a chunk is new.
abbrev chunk_own : ℕ → ℕ → (ℕ → Owner) → ℕ → Owner
chunk_own start sz own b = if leb start b && ltb b (start + sz) then pool else own b

next_of :
    (nodes : ℕ → BufferNode) (start sz a n : ℕ)
    → a + suc n ≡ start + sz
    → start ≤ a
    → (new_pool start sz nodes a).next ≡ front (suc a) n
unfolding new_pool
next_of nodes start sz a zero e h = ground arith
next_of nodes start sz a (suc n) e h = ground arith

chunk_own-inside :
    (own : ℕ → Owner) (start sz a : ℕ)
    → start ≤ a
    → a < start + sz
    → chunk_own start sz own a ≡ pool
chunk_own-inside own start sz a h l = ground arith

new_pool-Segment :
    (nodes : ℕ → BufferNode) (own : ℕ → Owner) (start sz n a : ℕ)
    → a + n ≡ start + sz
    → start ≤ a
    → Segment (new_pool start sz nodes) (chunk_own start sz own) pool (front a n) (row a n) none
new_pool-Segment nodes own start sz zero a e h = refl
new_pool-Segment nodes own start sz (suc n) a e h = (
  refl,
  chunk_own-inside own start sz a h (omega (arith, e)),
  row-above a (suc a) n (omega arith),
  subst
      (λ p. Segment (new_pool start sz nodes) (chunk_own start sz own) pool p (row (suc a) n) none)
      (sym (next_of nodes start sz a n e h))
      (new_pool-Segment nodes own start sz n (suc a) (omega (arith, e)) (omega arith)),
)

-- What a chunk does not touch.
new_pool-Kept :
    (nodes : ℕ → BufferNode) (own : ℕ → Owner) (start sz b : ℕ)
    → b < start
    → Kept nodes (new_pool start sz nodes) own (chunk_own start sz own) b
unfolding new_pool
new_pool-Kept nodes own start sz b h = record { node = ground arith; owner = ground arith }

chunk_own-unused :
    (own : ℕ → Owner) (start sz : ℕ)
    → ((a : ℕ) → start ≤ a → own a ≡ nobody)
    → (a : ℕ) → start + sz ≤ a
    → chunk_own start sz own a ≡ nobody
chunk_own-unused own start sz u a h = ground (arith, u a (omega arith))

nobody-ne-socket : (i : ℕ) → nobody ≢ socket i
nobody-ne-socket i e = cc

below :
    (own : ℕ → Owner) (start b i : ℕ)
    → ((a : ℕ) → start ≤ a → own a ≡ nobody)
    → own b ≡ socket i
    → b < start
below own start b i u e = elim (Bool-cases (ltb b start)) [
  | inl less ↦ ground (arith, less)
  | inr other ↦ absurd (nobody-ne-socket i (sym (u b (ground (arith, other))) ∙ e))
]

power_pos : (n : ℕ) → 0 < 2 ^ n
power_pos zero = omega arith
power_pos (suc n) = omega (arith, power_pos n)

chunk_size-pos : (tsz : ℕ) → 0 < chunk_size tsz
chunk_size-pos tsz = ground (arith, power_pos tsz)

provide-new :
    (h : NodeHeap) (view : ℕ → SocketBuffer) → Represents h view → Provided (provide none h) view
unfolding provide
provide-new h view w =
    let sz = chunk_size (table_entries h.tsz) in
    record {
      own = chunk_own h.fresh sz w.own;
      rest = row (suc h.fresh) (sz - 1);
      chains = λ i.
          Chain-Kept h.nodes (new_pool h.fresh sz h.nodes) w.own (chunk_own h.fresh sz w.own) i
            (h.buffers i) (view i)
            (λ b o. new_pool-Kept h.nodes w.own h.fresh sz b (below w.own h.fresh b i w.unused o))
            (w.chains i);
      is_free =
          chunk_own-inside w.own h.fresh sz h.fresh (omega arith)
            (omega (arith, chunk_size-pos (table_entries h.tsz)));
      others = row-above h.fresh (suc h.fresh) (sz - 1) (omega arith);
      rest_links =
          subst
            (λ p.
              Segment (new_pool h.fresh sz h.nodes) (chunk_own h.fresh sz w.own) pool p
                (row (suc h.fresh) (sz - 1)) none)
            (sym (
              next_of h.nodes h.fresh sz h.fresh (sz - 1)
                (omega (arith, chunk_size-pos (table_entries h.tsz))) (omega arith)))
            (new_pool-Segment h.nodes w.own h.fresh sz (sz - 1) (suc h.fresh)
              (omega (arith, chunk_size-pos (table_entries h.tsz))) (omega arith));
      unused = chunk_own-unused w.own h.fresh sz w.unused;
    }

pub provide-Provided :
    (h : NodeHeap) (view : ℕ → SocketBuffer)
    → Represents h view
    → Provided (provide h.free_node h) view
unfolding provide
provide-Provided h view w = go h.free_node w.free w.free_links
  where
    go :
        (p : Option ℕ) (free : List ℕ)
        → Segment h.nodes w.own pool p free none
        → Provided (provide p h) view
    go none free s = provide-new h view w
    go (some a) [] s = cc
    go (some a) (c ∷ cs) s =
        let e = some_inj a c s.0 in
        record {
          own = w.own;
          rest = cs;
          chains = w.chains;
          is_free = ap w.own e ∙ s.1;
          others = subst (λ x. All (λ b. x ≢ b) cs) (sym e) s.2;
          rest_links = subst (λ x. Segment h.nodes w.own pool (h.nodes x).next cs none) (sym e) s.3;
          unused = w.unused;
        }
