-- ===== src/WebSocket/Filter.antt =====
-- `filter_data_` of game_room/luaclib-src/lua-websocketnetpack.c: from the data of a socket to
-- packets.
pub mod Header
pub mod Entry
pub mod Stream
pub mod Feed
pub mod Batch
pub mod Closing
pub mod Total
use sasy_server.Base.{
  ℕ, ◌+◌, ◌-◌, min, Bool, true, false, ◌&&◌, not, [], ◌∷◌, ◌++◌, ltb, leb, ◌==◌, if◌then◌else◌,
  Bytes, length, take, drop, none, some, Outcome, ok, fault, ◌>>=◌,
}
use sasy_server.Base.Int.{ℤ, pos, negsuc}
use sasy_server.WebSocket.Frame.{Scan, no_mask}
use sasy_server.WebSocket.Queue.{Uncomplete, Queue, Slot, push_data}
use sasy_server.WebSocket.Table.{find_uncomplete, link, save_uncomplete, close_uncomplete}
use sasy_server.WebSocket.Scan.{
  header_size, decode_wsmask_data, scan_front, save_header, start_body, fill,
}
use sasy_server.WebSocket.More.{push_more}

-- What `filter_data_` leaves on the Lua stack behind the queue.
pub data Reply : Type 0 where
  pending : Reply
  data_of : ℕ → Bytes → ℕ → Reply
  more : Reply
  wsclose : ℕ → Reply

-- The loop that completes a saved header byte by byte: the header, what was found in it, and the
-- bytes that are left. It stops at a size, or when the bytes run out. `uc->header[uc->header_size]`
-- overruns the field when that is full.
unfoldable pub grow_header : Bool → Bytes → Bytes × Scan
grow_header true header =
    if ltb header_size (length header)
    then (
      take header_size header,
      record { pack_size = pos header_size; head_length = 0; mask = no_mask; ismask = false },
    )
    else scan_front true header
grow_header false header = scan_front false header

pub has_size : ℤ → Bool
has_size (pos n) = true
has_size (negsuc n) = false

pub no_scan : Scan
no_scan = record { pack_size = pos 0; head_length = 0; mask = no_mask; ismask = false }

unfoldable pub header_loop : Bool → Bytes → Bytes → Outcome (Bytes × Scan × Bytes)
unfolding grow_header has_size no_scan
header_loop handshake header [] = ok (header, no_scan, [])
header_loop handshake header (b ∷ []) =
    if leb header_size (length header)
    then fault
    else (let (header', s) = grow_header handshake (header ++ b ∷ []) in ok (header', s, []))
header_loop handshake header (b ∷ c ∷ bs) =
    let (header', s) = grow_header handshake (header ++ b ∷ []) in
    let onward = header_loop handshake header' (c ∷ bs) in
    if leb header_size (length header)
    then fault
    else if has_size s.pack_size
    then ok (header', s, c ∷ bs)
    else onward

abbrev pub and_reply {ℓ} : {A : Type ℓ} → Reply → A → Outcome (A × Reply)
and_reply r a = ok (a, r)

-- The packet is queued, the rest of the buffer is read, and the reply is "more".
unfoldable pub push_rest : Slot → ℕ → Bytes → Bool → Outcome (Slot × Reply)
push_rest slot fd rest handshake =
    push_more (length rest + 1) slot fd rest handshake >>= and_reply more

-- The end of the first branch of `filter_data_`: the payload of an entry that is out of the table,
-- of which `n` bytes were there. More bytes than the size end in a copy of a negative count.
unfoldable pub fill_body : Queue → ℕ → Uncomplete → ℕ → Bytes → Bool → Outcome (Slot × Reply)
unfolding fill push_rest
fill_body q fd uc n buffer handshake =
    let need = uc.pack.size - n in
    let full = fill uc n (take need buffer) in
    if ltb uc.pack.size n
    then fault
    else if ltb (length buffer) need
    then ok (some (link q fd (fill uc n buffer)), pending)
    else if length buffer == need
    then ok (some q, data_of fd full.pack.buffer full.pack.size)
    else push_rest
        (some (
          push_data (some q)
            (record { id = fd; size = full.pack.size; buffer = full.pack.buffer })))
        fd (drop need buffer) handshake

-- The new packet of an entry whose header is complete. The handshake's header is its payload.
unfoldable pub open_pack : Uncomplete → ℕ → Bytes → Scan → ℕ → Uncomplete
open_pack uc fd header s size = record uc {
  pack = record { id = uc.pack.id; size = size; buffer = [] };
  header = header;
  mask = s.mask;
  ismask = s.ismask;
  hasunmask_size = 0;
}

unfoldable pub fill_header_sized :
    ℤ → Queue → ℕ → Uncomplete → Bytes → Scan → Bytes → Bool → Outcome (Slot × Reply)
unfolding open_pack fill_body
fill_header_sized (negsuc n) q fd uc header s rest handshake =
    if n == 0
    then ok (some (link q fd (record uc { header = header })), pending)
    else if n == 2
    then ok (close_uncomplete (some q) fd, wsclose fd)
    else fault
fill_header_sized (pos size) q fd uc header s rest true =
    let opened = open_pack uc fd header s size in
    let n = min (length header) size in
    fill_body q fd
      (record opened { pack = record { id = uc.pack.id; size = size; buffer = take n header } }) n
      rest true
fill_header_sized (pos size) q fd uc header s rest false =
    fill_body q fd (open_pack uc fd header s size) 0 rest false

unfoldable pub fill_header : Queue → ℕ → Uncomplete → Bytes → Bool → Outcome (Slot × Reply)
unfolding header_loop fill_header_sized
fill_header q fd uc buffer handshake =
    header_loop handshake uc.header buffer >>= λ (header, s, rest).
    fill_header_sized s.pack_size q fd uc header s rest handshake

unfoldable pub fill_uncomplete : ℤ → Queue → ℕ → Uncomplete → Bytes → Bool → Outcome (Slot × Reply)
unfolding fill_header fill_body
fill_uncomplete (negsuc n) q fd uc buffer handshake = fill_header q fd uc buffer handshake
fill_uncomplete (pos n) q fd uc buffer handshake = fill_body q fd uc n buffer handshake

-- The second branch: no entry for the socket.
unfoldable pub fresh_sized : ℤ → Slot → ℕ → Bytes → Scan → Bool → Outcome (Slot × Reply)
unfolding save_header start_body fill push_rest
fresh_sized (negsuc n) slot fd rest s handshake =
    if n == 0
    then save_header slot fd handshake rest >>= and_reply pending
    else if n == 2
    then ok (close_uncomplete slot fd, wsclose fd)
    else fault
fresh_sized (pos size) slot fd rest s handshake =
    let buffer = drop s.head_length rest in
    let body = (decode_wsmask_data (take size buffer) (start_body fd size s)).0 in
    if ltb (length buffer) size && not handshake
    then ok (some (save_uncomplete slot fd (fill (start_body fd size s) 0 buffer)), pending)
    else if length buffer == size
    then ok (slot, data_of fd body size)
    else push_rest (some (push_data slot (record { id = fd; size = size; buffer = body }))) fd
        (drop size buffer) handshake

unfoldable pub filter_data : Slot → ℕ → Bytes → Bool → Outcome (Slot × Reply)
unfolding fill_uncomplete fresh_sized
filter_data slot fd buffer handshake = elim (find_uncomplete slot fd) [
  | some (uc, q) ↦ fill_uncomplete uc.read q fd uc buffer handshake
  | none ↦
      let (rest, s) = scan_front handshake buffer in
      fresh_sized s.pack_size slot fd rest s handshake
]
