-- ===== src/Chat/Reading.antt =====
-- The buffer of a socket in chat_room/lualib-src/lua-socket.c: what takes bytes from it.
pub mod Pops
pub mod Lines
pub mod Calls
pub mod Fifo
use sasy_server.Base.{
  ℕ, zero, suc, ◌+◌, ◌-◌, ◌*◌, ◌%◌, ◌^◌, List, [], ◌∷◌, ◌++◌, Bool, true, false, ◌&&◌, ltb, leb,
  ◌==◌, if◌then◌else◌, Bytes, length, take, drop, u32, Call, returns, raises, Option, none, some,
  Outcome, ok, fault, ◌>>=◌, ◌||◌,
}
use sasy_server.Base.Int.{ℤ, pos, negsuc, int32}
use sasy_server.Chat.Buffer.{SocketBuffer}

-- The loop `for (;;)` of `pop_lstring`, from the offset in the first node on: the bytes for Lua, the
-- nodes that stay, and their offset. (Where a node has less than `sz` bytes, the test `sz==0` behind
-- it cannot hold.)
unfoldable pub gather : List Bytes → ℕ → ℕ → ℕ → Outcome (Bytes × List Bytes × ℤ)
gather [] offset sz skip = fault
gather (node ∷ nodes) offset sz skip =
    let bytes = length node - offset in
    let real_sz = sz - skip in
    let rest = gather nodes 0 (sz - bytes) skip in
    let piece =
      if ltb skip sz
      then take (if ltb real_sz bytes then real_sz else bytes) (drop offset node)
      else [] in
    if leb sz bytes
    then (if bytes == sz
        then ok ((if ltb skip sz then take real_sz (drop offset node) else []), nodes, pos 0)
        else ok (
          (if ltb skip sz then take real_sz (drop offset node) else []),
          node ∷ nodes,
          pos (offset + sz),
        ))
    else rest >>= λ r. ok (piece ++ r.0, r.1, r.2)

-- `pop_lstring` for `sz` bytes, of which the last `skip` are not for Lua. An offset that is negative or
-- behind its node would read outside of the node.
unfoldable pub pop_lstring : List Bytes → ℤ → ℕ → ℕ → Outcome (Bytes × List Bytes × ℤ)
unfolding gather
pop_lstring [] offset sz skip = fault
pop_lstring (node ∷ nodes) (negsuc n) sz skip = fault
pop_lstring (node ∷ nodes) (pos offset) sz skip =
    if ltb (length node) offset
    then fault
    else if ltb sz (length node - offset)
    then ok (take (sz - skip) (drop offset node), node ∷ nodes, pos (offset + sz))
    else if sz == length node - offset
    then ok (take (sz - skip) (drop offset node), nodes, pos 0)
    else gather (node ∷ nodes) offset sz skip

-- `sb->size < sz`
abbrev pub size_lt : ℤ → ℤ → Bool
size_lt (pos m) (pos n) = ltb m n
size_lt (pos m) (negsuc n) = false
size_lt (negsuc m) (pos n) = true
size_lt (negsuc m) (negsuc n) = ltb n m

abbrev pub need_buffer : {A : Type 0} → Call A
need_buffer = raises "Need buffer object at param 1"

-- The buffer without `n` bytes, as `pop_lstring` leaves the nodes.
abbrev pub less : SocketBuffer → ℕ → List Bytes → ℤ → SocketBuffer
less sb n nodes offset = record {
  size = u32 (sb.size + 2 ^ 32 - n);
  offset = offset;
  nodes = nodes;
}

-- `lpopbuffer` for the `int` `sz`: the bytes, or nil, and the size. A negative number of bytes is too big
-- for a string.
unfoldable pub pop_sized :
    SocketBuffer → ℤ → Outcome (Call (Option Bytes × ℕ) × Option SocketBuffer)
unfolding pop_lstring
pop_sized sb (negsuc n) =
    if size_lt (int32 sb.size) (negsuc n)
    then ok (returns (none, sb.size), some sb)
    else elim sb.nodes [
      | [] ↦ fault
      | _ ↦ ok (raises "memory allocation error: block too big", some sb)
    ]
pop_sized sb (pos n) =
    if size_lt (int32 sb.size) (pos n) || n == 0
    then ok (returns (none, sb.size), some sb)
    else pop_lstring sb.nodes sb.offset n 0 >>= λ r.
        ok (returns (some r.0, u32 (sb.size + 2 ^ 32 - n)), some (less sb n r.1 r.2))

-- `lpopbuffer`: the integer of Lua, given by its pattern of bits, is cut down to an `int`.
unfoldable pub pop_buffer :
    Option SocketBuffer → ℕ → Outcome (Call (Option Bytes × ℕ) × Option SocketBuffer)
unfolding pop_sized
pop_buffer none n = ok (need_buffer, none)
pop_buffer (some sb) n = pop_sized sb (int32 n)

-- `lclearbuffer`, of nil too.
unfoldable pub clear_buffer : Option SocketBuffer → Option SocketBuffer
clear_buffer none = none
clear_buffer (some sb) = elim sb.nodes [
  | [] ↦ some (record sb { size = 0 })
  | _ ↦ some (record { size = 0; offset = pos 0; nodes = [] })
]

-- `while(sb->head)` of `lreadall`: the bytes, and the offset.
unfoldable pub readall_loop : List Bytes → ℤ → Outcome (Bytes × ℤ)
readall_loop [] offset = ok ([], offset)
readall_loop (node ∷ nodes) (negsuc n) = fault
readall_loop (node ∷ nodes) (pos offset) =
    if ltb (length node) offset
    then fault
    else readall_loop nodes (pos 0) >>= λ r. ok (drop offset node ++ r.0, r.1)

-- `lreadall`
unfoldable pub readall : Option SocketBuffer → Outcome (Call Bytes × Option SocketBuffer)
unfolding readall_loop
readall none = ok (need_buffer, none)
readall (some sb) = readall_loop sb.nodes sb.offset >>= λ r.
    ok (returns r.0, some (record { size = 0; offset = r.1; nodes = [] }))

-- `memcmp(a, b, n) == 0`
unfoldable pub same_front : ℕ → Bytes → Bytes → Bool
same_front zero xs ys = true
same_front (suc n) [] ys = false
same_front (suc n) (x ∷ xs) [] = false
same_front (suc n) (x ∷ xs) (y ∷ ys) = x == y && same_front n xs ys

-- `check_sep`, from `from` in the first node on. Nodes are not empty, so that `from` is never behind its
-- node. Behind the last node it would follow `NULL`.
unfoldable pub check_sep : List Bytes → ℕ → Bytes → Outcome Bool
unfolding same_front
check_sep [] from sep = fault
check_sep (node ∷ nodes) from sep =
    let sz = length node - from in
    let rest = check_sep nodes 0 (drop sz sep) in
    if leb (length sep) sz
    then ok (same_front (length sep) (drop from node) sep)
    else if same_front sz (drop from node) sep
    then rest
    else ok false

-- The loop of `lreadline`, with the rounds that are left: the index at which the separator stands.
unfoldable pub line_loop : ℕ → ℕ → List Bytes → ℕ → Bytes → Outcome (Option ℕ)
unfolding check_sep
line_loop zero i nodes from sep = ok none
line_loop (suc rounds) i [] from sep = ok none
line_loop (suc rounds) i (node ∷ nodes) from sep =
    let next_node = line_loop rounds (i + 1) nodes 0 sep in
    let next_byte = line_loop rounds (i + 1) (node ∷ nodes) (from + 1) sep in
    check_sep (node ∷ nodes) from sep >>= λ found.
    (if found then ok (some i) else if length node - from == 1 then next_node else next_byte)

-- What `lreadline` returns: nothing, `true` when it only checks, or the line.
pub data Answer : Type 0 where
  nothing : Answer
  present : Answer
  line : Bytes → Answer

-- `i <= sb->size - (int)seplen`, as the number of the rounds.
abbrev pub rounds_of : ℤ → ℕ → ℕ
rounds_of (pos size) seplen = if leb seplen size then size - seplen + 1 else 0
rounds_of (negsuc n) seplen = 0

-- What follows the search.
abbrev pub answer : SocketBuffer → Bool → ℕ → Option ℕ → Outcome (Call Answer × Option SocketBuffer)
answer sb check seplen none = ok (returns nothing, some sb)
answer sb true seplen (some i) = ok (returns present, some sb)
answer sb false seplen (some i) = pop_lstring sb.nodes sb.offset (i + seplen) seplen >>= λ r.
    ok (returns (line r.0), some (less sb (i + seplen) r.1 r.2))

-- `lreadline` with a separator of less than 2 ^ 31 bytes, from the buffer's offset on.
unfoldable pub readline_at :
    SocketBuffer → ℤ → Bool → Bytes → Outcome (Call Answer × Option SocketBuffer)
unfolding line_loop pop_lstring
readline_at sb (pos offset) check sep =
    line_loop (rounds_of (int32 sb.size) (length sep)) 0 sb.nodes offset sep >>= λ found.
    answer sb check (length sep) found
readline_at sb (negsuc n) check sep =
    if rounds_of (int32 sb.size) (length sep) == 0
    then ok (returns nothing, some sb)
    else elim sb.nodes [ [] ↦ ok (returns nothing, some sb) | _ ↦ fault ]

unfoldable pub readline :
    Option SocketBuffer → Bool → Bytes → Outcome (Call Answer × Option SocketBuffer)
unfolding readline_at
readline none check sep = ok (need_buffer, none)
readline (some sb) check sep = readline_at sb sb.offset check sep

-- The loop of `lheader`, a number in big-endian bytes.
abbrev pub header_loop : ℕ → Bytes → ℕ
header_loop sz [] = sz
header_loop sz (c ∷ s) = header_loop (sz * 2 ^ 8 + c) s

-- `lheader`
unfoldable pub header : Bytes → Call ℕ
header s =
    if ltb 4 (length s) || ltb (length s) 1
    then raises "Invalid read"
    else returns (header_loop 0 s)
