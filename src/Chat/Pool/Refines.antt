-- ===== src/Chat/Pool/Refines.antt =====
-- The linked nodes of all sockets do what the lists of blocks say.
use sasy_server.Base.{
  ℕ, ◌≡◌, ◌≢◌, refl, sym, subst, ◌∙◌, List, [], ◌∷◌, Bytes, Option, none, some, update, Call,
  returns, inl,
}
use sasy_server.Chat.Buffer.{SocketBuffer, new_buffer, push_buffer}
use sasy_server.Chat.Pool.{NodeHeap, new_heap, push_node, return_free_node}
use sasy_server.Chat.Pool.Segments.{nobody}
use sasy_server.Chat.Pool.Represents.{Represents}
use sasy_server.Chat.Pool.Append.{push_node-Represents}
use sasy_server.Chat.Pool.Return.{rest_of, return_free_node-Represents}

-- A block that comes for a socket, and a first block of a socket that is read to its end.
pub data PoolOp : Type 0 where
  comes : ℕ → Bytes → PoolOp
  is_read : ℕ → PoolOp

abbrev pool_step : PoolOp → NodeHeap → Option NodeHeap
pool_step (comes i msg) h = push_node i msg h
pool_step (is_read i) h = return_free_node (h.buffers i).head i h

-- The calls on the linked nodes.
unfoldable pub run_pool : List PoolOp → Option NodeHeap → Option NodeHeap
run_pool [] o = o
run_pool (op ∷ ops) none = none
run_pool (op ∷ ops) (some h) = run_pool ops (pool_step op h)

abbrev put : ℕ → (ℕ → SocketBuffer) → Call SocketBuffer → Option (ℕ → SocketBuffer)
put i view (returns sb) = some (update view i sb)
put i view _ = none

abbrev without_first : ℕ → List Bytes → (ℕ → SocketBuffer) → Option (ℕ → SocketBuffer)
without_first i [] view = none
without_first i (m ∷ ms) view = some (update view i (rest_of ms (view i)))

abbrev view_step : PoolOp → (ℕ → SocketBuffer) → Option (ℕ → SocketBuffer)
view_step (comes i msg) view = put i view (push_buffer (some (view i)) (some msg))
view_step (is_read i) view = without_first i (view i).nodes view

-- The calls on the lists of blocks; there is no first block of a buffer that has none.
unfoldable pub run_views : List PoolOp → Option (ℕ → SocketBuffer) → Option (ℕ → SocketBuffer)
run_views [] o = o
run_views (op ∷ ops) none = none
run_views (op ∷ ops) (some view) = run_views ops (view_step op view)

-- That a heap is left in which the nodes are the buffers.
pub record IsRun (o : Option NodeHeap) (view : ℕ → SocketBuffer) : Type 0 where
  pub heap : NodeHeap
  pub leaves : o ≡ some heap
  pub represents : Represents heap view

some_inj : {A : Type 0} {x y : A} → some x ≡ some y → x ≡ y
some_inj e = cc

none-ne-some : {A : Type 0} {x : A} → none ≢ some x
none-ne-some e = cc

run_views-none : (ops : List PoolOp) → run_views ops none ≡ none
unfolding run_views
run_views-none [] = refl
run_views-none (op ∷ ops) = refl

-- The step of the views that is defined is taken by the heap.
step-Represents :
    (op : PoolOp) (h : NodeHeap) (view view' : ℕ → SocketBuffer)
    → Represents h view
    → view_step op view ≡ some view'
    → IsRun (pool_step op h) view'
unfolding push_buffer
step-Represents (comes i msg) h view view' w e =
    let (h', s, r) = push_node-Represents h view i msg w in
    record { heap = h'; leaves = s; represents = subst (Represents h') (some_inj e) r }
step-Represents (is_read i) h view view' w e = go (view i).nodes refl e
  where
    go :
        (blocks : List Bytes)
        → (view i).nodes ≡ blocks
        → without_first i blocks view ≡ some view'
        → IsRun (return_free_node (h.buffers i).head i h) view'
    go [] n z = absurd (none-ne-some z)
    go (m ∷ ms) n z =
        let (h', s, r) = return_free_node-Represents h view w i m ms n in
        record { heap = h'; leaves = s; represents = subst (Represents h') (some_inj z) r }

behind_step :
    (ops : List PoolOp) (o : Option (ℕ → SocketBuffer)) (p : Option NodeHeap)
    (view' : ℕ → SocketBuffer)
    → ((v : ℕ → SocketBuffer) → o ≡ some v → IsRun p v)
    → ((h : NodeHeap) (v : ℕ → SocketBuffer)
        → Represents h v
        → run_views ops (some v) ≡ some view'
        → IsRun (run_pool ops (some h)) view')
    → run_views ops o ≡ some view'
    → IsRun (run_pool ops p) view'
behind_step ops none p view' first later e = absurd (none-ne-some (sym (run_views-none ops) ∙ e))
behind_step ops (some v) p view' first later e =
    let s = first v refl in
    subst (λ o. IsRun (run_pool ops o) view') (sym s.leaves) (later s.heap v s.represents e)

steps-Represents :
    (ops : List PoolOp) (h : NodeHeap) (view view' : ℕ → SocketBuffer)
    → Represents h view
    → run_views ops (some view) ≡ some view'
    → IsRun (run_pool ops (some h)) view'
unfolding run_views run_pool
steps-Represents [] h view view' w e = record {
  heap = h;
  leaves = refl;
  represents = subst (Represents h) (some_inj e) w;
}
steps-Represents (op ∷ ops) h view view' w e =
    behind_step ops (view_step op view) (pool_step op h) view' (λ v. step-Represents op h view v w)
      (λ h' v. steps-Represents ops h' v view') e

new_heap-Represents : Represents new_heap (λ i. new_buffer)
new_heap-Represents = record {
  own = λ a. nobody;
  free = [];
  chains = λ i. record {
    shape = inl (record { no_head = refl; no_tail = refl; no_blocks = refl });
    same_size = refl;
    same_offset = refl;
  };
  free_links = refl;
  unused = λ a l. refl;
}

-- From no nodes at all, any sequence of blocks that come for sockets and of first blocks that are read
-- to their end, of buffers that have one, is done by the linked nodes with no assertion that fails:
-- the nodes of each socket, from its head to its tail, are then the list of its blocks, with its size
-- and its offset; no node is in two buffers, or in one buffer twice, or both in a buffer and free.
pub run_pool-IsRun :
    (ops : List PoolOp) (view : ℕ → SocketBuffer)
    → run_views ops (some (λ i. new_buffer)) ≡ some view
    → IsRun (run_pool ops (some new_heap)) view
run_pool-IsRun ops view e =
    steps-Represents ops new_heap (λ i. new_buffer) view new_heap-Represents e
