-- ===== src/Chat/Pool.antt =====
-- The nodes of all sockets' buffers in chat_room/lualib-src/lua-socket.c: `lnewpool`, the list of free
-- nodes in the table `pool`, and `lpushbuffer` and `return_free_node` on it.
pub mod Segments
pub mod Represents
pub mod Append
pub mod Return
pub mod Refines
use sasy_server.Base.{
  ℕ, zero, suc, ◌+◌, ◌*◌, ◌-◌, ◌^◌, List, [], ◌∷◌, Bool, true, false, ◌&&◌, ltb, leb, ◌==◌,
  if◌then◌else◌, Bytes, length, u32, Option, none, some, update,
}
use sasy_server.Base.Int.{ℤ, pos}

-- `struct buffer_node`, at an address of the heap. `sz` is the length of the block `msg`.
pub record BufferNode : Type 0 where
  pub msg : Option Bytes
  pub next : Option ℕ

-- `struct socket_buffer`
pub record Linked : Type 0 where
  pub size : ℕ
  pub offset : ℤ
  pub head : Option ℕ
  pub tail : Option ℕ

-- The heap, with the first address that is not in use; the table `pool`: the free node at index 1, and
-- its length; and the buffers of the sockets.
pub record NodeHeap : Type 0 where
  pub nodes : ℕ → BufferNode
  pub fresh : ℕ
  pub free_node : Option ℕ
  pub tsz : ℕ
  pub buffers : ℕ → Linked

-- `lnewbuffer`
abbrev pub new_linked : Linked
new_linked = record { size = 0; offset = pos 0; head = none; tail = none }

-- A new `pool`, and no bytes in any socket.
abbrev pub new_heap : NodeHeap
new_heap = record {
  nodes = λ a. record { msg = none; next = none };
  fresh = 0;
  free_node = none;
  tsz = 0;
  buffers = λ i. new_linked;
}

-- LARGE_PAGE_NODE
abbrev pub large_page_node : ℕ
large_page_node = 12

-- The nodes of the next chunk, when the table has `tsz` entries.
abbrev pub chunk_size : ℕ → ℕ
chunk_size tsz =
    if leb tsz (large_page_node - 3) then 8 * 2 ^ tsz else 8 * 2 ^ (large_page_node - 3)

-- `tsz++` for an empty table: its first entry is the free node.
abbrev pub table_entries : ℕ → ℕ
table_entries zero = 1
table_entries (suc n) = suc n

-- `lnewpool`, for nodes that stand one behind the other from `start` on.
unfoldable pub new_pool : ℕ → ℕ → (ℕ → BufferNode) → ℕ → BufferNode
new_pool start sz nodes a =
    if leb start a && ltb a (start + sz)
    then record { msg = none; next = if a + 1 == start + sz then none else some (a + 1) }
    else nodes a

-- The free node of `lpushbuffer`, from a new chunk if there is none.
unfoldable pub provide : Option ℕ → NodeHeap → ℕ × NodeHeap
unfolding new_pool
provide (some a) h = (a, h)
provide none h =
    let tsz = table_entries h.tsz in
    let size = chunk_size tsz in
    (
      h.fresh,
      record h {
        nodes = new_pool h.fresh size h.nodes;
        fresh = h.fresh + size;
        free_node = some h.fresh;
        tsz = tsz + 1;
      },
    )

-- The links of a buffer, with this head and tail, that gets `a` as its last node. It is `none` where the
-- assertion fails, or where the tail is NULL and the head is not.
unfoldable pub append_node :
    Option ℕ → Option ℕ → ℕ → ℕ → Linked → (ℕ → BufferNode) → Option (Linked × (ℕ → BufferNode))
append_node none none a sz sb nodes =
    some (record sb { size = u32 (sb.size + sz); head = some a; tail = some a }, nodes)
append_node none (some t) a sz sb nodes = none
append_node (some first) none a sz sb nodes = none
append_node (some first) (some t) a sz sb nodes = some (
  record sb { size = u32 (sb.size + sz); tail = some a },
  update nodes t (record (nodes t) { next = some a }),
)

-- The heap with the links of socket `i`, and the rest of the free nodes.
abbrev pub linked_in :
    ℕ → NodeHeap → Option ℕ → Option (Linked × (ℕ → BufferNode)) → Option NodeHeap
linked_in i h free none = none
linked_in i h free (some r) =
    some (record h { nodes = r.1; free_node = free; buffers = update h.buffers i r.0 })

-- `lpushbuffer` for the buffer of socket `i`.
unfoldable pub push_node : ℕ → Bytes → NodeHeap → Option NodeHeap
unfolding provide append_node
push_node i msg h =
    let provided = provide h.free_node h in
    let a = provided.0 in
    let h' = provided.1 in
    let sb = h'.buffers i in
    let taken = update h'.nodes a (record { msg = some msg; next = none }) in
    linked_in i h' (h'.nodes a).next (append_node sb.head sb.tail a (length msg) sb taken)

-- `if (sb->head == NULL) sb->tail = NULL;`
abbrev pub tail_of : Option ℕ → Option ℕ → Option ℕ
tail_of none tail = none
tail_of (some b) tail = tail

-- `return_free_node` for the buffer of socket `i` with this head, which is not NULL when it is called.
unfoldable pub return_free_node : Option ℕ → ℕ → NodeHeap → Option NodeHeap
return_free_node none i h = none
return_free_node (some a) i h =
    let sb = h.buffers i in
    let head = (h.nodes a).next in
    some (record h {
      nodes = update h.nodes a (record { msg = none; next = h.free_node });
      free_node = some a;
      buffers =
          update h.buffers i
            (record sb { offset = pos 0; head = head; tail = tail_of head sb.tail });
    })
