-- ===== src/Chat/Pool/Return.antt =====
-- The first node of a buffer goes back to the free nodes.
use sasy_server.Base.{
  ℕ, ◌≡◌, ◌≢◌, refl, sym, ap, subst, ◌∙◌, List, [], ◌∷◌, ◌++◌, Bytes, All, All-append, Option, none,
  some, update, update_ne, update_self, inl, inr, ◌⊎◌, cons_tail,
}
use sasy_server.Base.Int.{pos}
use sasy_server.Chat.Buffer.{SocketBuffer}
use sasy_server.Chat.Pool.{BufferNode, Linked, NodeHeap, tail_of, return_free_node}
use sasy_server.Chat.Pool.Segments.{
  Owner, pool, socket, nobody, Segment, held, Kept, Segment-Kept, held-Kept, Segment-owned,
}
use sasy_server.Chat.Pool.Represents.{Full, Bare, Chain, Represents, Chain-Kept, All-map, owners_ne}
use sasy_server.Chat.Pool.Append.{updated, pool-ne-socket, socket-ne-socket}

-- What is left of a buffer without its first block.
abbrev pub rest_of : List Bytes → SocketBuffer → SocketBuffer
rest_of ms sb = record sb { offset = pos 0; nodes = ms }

socket-ne-nobody : (i : ℕ) → socket i ≢ nobody
socket-ne-nobody i e = cc

nil-ne-cons : (m : Bytes) (ms : List Bytes) → [] ≢ m ∷ ms
nil-ne-cons m ms e = cc

tail_of-Segment :
    (nodes : ℕ → BufferNode) (own : ℕ → Owner) (k : Owner) (p q : Option ℕ) (xs : List ℕ) (t : ℕ)
    → Segment nodes own k p xs (some t)
    → tail_of p q ≡ q
tail_of-Segment nodes own k p q [] t s = ap (λ z. tail_of z q) s
tail_of-Segment nodes own k p q (x ∷ xs) t s = ap (λ z. tail_of z q) s.0

module _ (h : NodeHeap) (view : ℕ → SocketBuffer) (w : Represents h view) (i b : ℕ)
    (o : w.own b ≡ socket i) where
  abbrev node : BufferNode
  node = record { msg = none; next = h.free_node }

  abbrev given : ℕ → BufferNode
  given = update h.nodes b node

  abbrev own' : ℕ → Owner
  own' = update w.own b pool

  given-Kept : (x : ℕ) → b ≢ x → Kept h.nodes given w.own own' x
  given-Kept x n = record {
    node = update_ne h.nodes b x node n;
    owner = update_ne w.own b x pool n;
  }

  -- The heap with the node in front of the free ones.
  given_back :
      (sb' : Linked) (ms : List Bytes)
      → Chain given own' i sb' (rest_of ms (view i))
      → Represents
          (record h { nodes = given; free_node = some b; buffers = update h.buffers i sb' })
          (update view i (rest_of ms (view i)))
  given_back sb' ms here =
      let apart =
        All-map w.free
          (λ x e. owners_ne w.own b x (socket i) pool o e (λ s. pool-ne-socket i (sym s)))
          (Segment-owned h.nodes w.own pool h.free_node none w.free w.free_links) in
      record {
        own = own';
        free = b ∷ w.free;
        chains =
            updated (λ j sb v. Chain given own' j sb v) h.buffers view i sb' (rest_of ms (view i))
              here
              (λ j n.
                Chain-Kept h.nodes given w.own own' j (h.buffers j) (view j)
                  (λ x e.
                    given-Kept x
                      (owners_ne w.own b x (socket i) (socket j) o e (socket-ne-socket i j n)))
                  (w.chains j));
        free_links = (
          refl,
          update_self w.own b pool,
          apart,
          subst (λ n. Segment given own' pool n.next w.free none) (sym (update_self h.nodes b node))
              (Segment-Kept h.nodes given w.own own' pool h.free_node none w.free
                (All-map w.free given-Kept apart) w.free_links),
        );
        unused = λ x l.
            update_ne w.own b x pool
              (owners_ne w.own b x (socket i) nobody o (w.unused x l) (socket-ne-nobody i))
            ∙ w.unused x l;
      }

-- The buffer behind its first node.
module _ (h : NodeHeap) (view : ℕ → SocketBuffer) (w : Represents h view) (i : ℕ) (m : Bytes)
    (ms : List Bytes) where
  abbrev behind : ℕ → Linked
  behind b =
      let sb = h.buffers i in
      let head = (h.nodes b).next in
      record sb { offset = pos 0; head = head; tail = tail_of head sb.tail }

  Result : Type 0
  Result =
      (h' : NodeHeap) × (return_free_node (h.buffers i).head i h ≡ some h')
      × Represents h' (update view i (rest_of ms (view i)))

  returned :
      (b : ℕ) (o : w.own b ≡ socket i)
      → (h.buffers i).head ≡ some b
      → Bare (behind b) ms ⊎ Full (given h view w i b o) (own' h view w i b o) i (behind b) ms
      → Result
  unfolding return_free_node Result
  returned b o e s = (
    record h {
      nodes = given h view w i b o;
      free_node = some b;
      buffers = update h.buffers i (behind b);
    },
    ap (λ p. return_free_node p i h) e,
    given_back h view w i b o (behind b) ms
        (record { shape = s; same_size = (w.chains i).same_size; same_offset = refl }),
  )

  from_chain :
      (init : List ℕ) (last : ℕ)
      → Segment h.nodes w.own (socket i) (h.buffers i).head init (some last)
      → (h.buffers i).tail ≡ some last
      → w.own last ≡ socket i
      → All (λ b. b ≢ last) init
      → (h.nodes last).next ≡ none
      → held h.nodes (init ++ (last ∷ [])) ≡ m ∷ ms
      → Result
  from_chain [] last s t o d e blocks = returned last o s (
      inl (record {
        no_head = e;
        no_tail = ap (λ p. tail_of p (h.buffers i).tail) e;
        no_blocks = sym (cons_tail blocks);
      }))
  from_chain (c ∷ cs) last s t o d e blocks =
      let kept = All-map cs (given-Kept h view w i c s.1) s.2 in
      let last_kept = given-Kept h view w i c s.1 last d.0 in
      let nodes' = given h view w i c s.1 in
      let owners' = own' h view w i c s.1 in
      returned c s.1 s.0 (
        inr (record {
          init = cs;
          last = last;
          links =
              Segment-Kept h.nodes nodes' w.own owners' (socket i) (h.nodes c).next (some last) cs
                kept s.3;
          at_tail =
              tail_of-Segment h.nodes w.own (socket i) (h.nodes c).next (h.buffers i).tail cs last
                s.3
              ∙ t;
          owned = last_kept.owner ∙ o;
          others = d.1;
          ended = ap (λ n. n.next) last_kept.node ∙ e;
          blocks_of =
              held-Kept h.nodes nodes' w.own owners' (cs ++ (last ∷ []))
                (All-append (Kept h.nodes nodes' w.own owners') cs (last ∷ []) kept (last_kept, tt))
              ∙ cons_tail blocks;
        }))

  -- `return_free_node` of a buffer with blocks leaves those behind the first one.
  pub return_free_node-Represents :
      (view i).nodes ≡ m ∷ ms
      → (h' : NodeHeap) × (return_free_node (h.buffers i).head i h ≡ some h')
        × Represents h' (update view i (rest_of ms (view i)))
  unfolding Result
  return_free_node-Represents n = elim (w.chains i).shape [
    | inl bare ↦ absurd (nil-ne-cons m ms (sym bare.no_blocks ∙ n))
    | inr f ↦ from_chain f.init f.last f.links f.at_tail f.owned f.others f.ended (f.blocks_of ∙ n)
  ]
