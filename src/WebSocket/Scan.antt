-- ===== src/WebSocket/Scan.antt =====
-- The front of a buffer in game_room/luaclib-src/lua-websocketnetpack.c: `decode_wsmask_data`, the
-- loops round `read_size`, and the entries for what is not complete, as `push_more` and
-- `filter_data_` share them.
pub mod Front
use sasy_server.Base.{
  ℕ, ◌+◌, ◌*◌, Bool, true, false, ◌&&◌, [], ◌∷◌, ◌++◌, ltb, ◌==◌, if◌then◌else◌, Bytes, length,
  take, some, Outcome, ok, fault,
}
use sasy_server.Base.Int.{ℤ, pos, negsuc}
use sasy_server.WebSocket.Mask.{unmask}
use sasy_server.WebSocket.Frame.{Scan, no_mask, read_size}
use sasy_server.WebSocket.Handshake.{get_http_header}
use sasy_server.WebSocket.Queue.{Uncomplete, Slot}
use sasy_server.WebSocket.Table.{blank, save_uncomplete}

abbrev pub header_size : ℕ
header_size = 1024

abbrev pub max_pack_size : ℕ
max_pack_size = 10 * 1024

-- `decode_wsmask_data`: the bytes as it leaves them, and the entry.
unfoldable pub decode_wsmask_data : Bytes → Uncomplete → Bytes × Uncomplete
decode_wsmask_data buffer uc =
    if uc.ismask
    then (
      unmask uc.mask uc.hasunmask_size buffer,
      record uc { hasunmask_size = uc.hasunmask_size + length buffer },
    )
    else (buffer, uc)

-- `if (pack_size > MAX_PACKSIZE) pack_size = MAX_PACKSIZE`
unfoldable pub clip : ℤ → ℤ
clip (pos n) = pos (if ltb max_pack_size n then max_pack_size else n)
clip (negsuc n) = negsuc n

unfoldable pub is_invalid : ℤ → Bool
is_invalid (pos n) = false
is_invalid (negsuc n) = n == 1

-- `while ((pack_size = read_size(…)) == -2)`: two bytes are dropped in each round. (Below two bytes
-- `read_size` returns -1.)
unfoldable pub skip_invalid : Bytes → Bytes × Scan
unfolding is_invalid
skip_invalid [] = ([], read_size [])
skip_invalid (b ∷ []) = (b ∷ [], read_size (b ∷ []))
skip_invalid (a ∷ b ∷ bs) = elim (is_invalid (read_size (a ∷ b ∷ bs)).pack_size) [
  | true ↦ skip_invalid bs
  | false ↦ (a ∷ b ∷ bs, read_size (a ∷ b ∷ bs))
]

-- What the code learns of the front of a buffer, and the buffer that is left: the header of the
-- handshake, or of a frame.
unfoldable pub scan_front : Bool → Bytes → Bytes × Scan
scan_front true buffer = (
  buffer,
  record { pack_size = get_http_header buffer; head_length = 0; mask = no_mask; ismask = false },
)
scan_front false buffer =
    let (rest, s) = skip_invalid buffer in (rest, record s { pack_size = clip s.pack_size })

-- The entry for a header that is not complete. A copy of more than `HEADERSIZE` bytes overruns
-- the field.
unfoldable pub save_header : Slot → ℕ → Bool → Bytes → Outcome Slot
save_header slot fd handshake buffer =
    if handshake && ltb header_size (length buffer)
    then ok (
        some (
          save_uncomplete slot fd
            (record (blank fd) { read = negsuc 0; header = take header_size buffer })))
    else if ltb header_size (length buffer)
    then fault
    else ok
        (some (save_uncomplete slot fd (record (blank fd) { read = negsuc 0; header = buffer })))

-- The entry of a frame whose header is complete, with no bytes of its payload yet.
unfoldable pub start_body : ℕ → ℕ → Scan → Uncomplete
start_body fd size s = record (blank fd) {
  pack = record { id = fd; size = size; buffer = [] };
  mask = s.mask;
  ismask = s.ismask;
}

-- `decode_wsmask_data` and `memcpy` to the end of what the block holds.
unfoldable pub fill : Uncomplete → ℕ → Bytes → Uncomplete
unfolding decode_wsmask_data
fill uc n bytes =
    let (plain, uc') = decode_wsmask_data bytes uc in
    record uc' {
      pack = record { id = uc'.pack.id; size = uc'.pack.size; buffer = uc'.pack.buffer ++ plain };
      read = pos (n + length bytes);
    }
