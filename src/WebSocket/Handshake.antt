-- ===== src/WebSocket/Handshake.antt =====
-- `websocket_strnpos` and `get_http_header` of game_room/luaclib-src/lua-websocketnetpack.c: the end
-- of the HTTP header that opens a connection.
pub mod Search
use sasy_server.Base.{
  ℕ, zero, suc, ◌+◌, ◌-◌, Bool, true, false, ◌&&◌, List, [], ◌∷◌, ltb, ◌==◌, if◌then◌else◌, Bytes,
  length,
}
use sasy_server.Base.Int.{ℤ, pos, negsuc}

-- `0 == memcmp(haystack, needle, needle_length)` where that many bytes are there.
unfoldable pub starts_with : Bytes → Bytes → Bool
starts_with haystack [] = true
starts_with [] (n ∷ needle) = false
starts_with (h ∷ haystack) (n ∷ needle) = h == n && starts_with haystack needle

-- The loop: `rounds` are left, `i` is the index of the haystack's head.
strnpos_from : ℕ → ℕ → Bytes → Bytes → ℤ
strnpos_from zero i haystack needle = negsuc 0
strnpos_from (suc rounds) i [] needle = negsuc 0
strnpos_from (suc rounds) i (h ∷ haystack) needle =
    if starts_with (h ∷ haystack) needle then pos i else strnpos_from rounds (i + 1) haystack needle

-- The needle is `n ∷ needle`, so that `assert(needle_length > 0)` holds.
unfoldable pub websocket_strnpos : Bytes → ℕ → Bytes → ℤ
unfolding strnpos_from
websocket_strnpos haystack n needle =
    if ltb (length haystack) (length (n ∷ needle))
    then negsuc 0
    else strnpos_from (length haystack - length (n ∷ needle) + 1) 0 haystack (n ∷ needle)

-- "\r\n\r\n" is `b'\r' ∷ header_end`.
abbrev pub header_end : Bytes
header_end = b'\n' ∷ b'\r' ∷ b'\n' ∷ []

-- `if (n < 0) return n; return n + 4`
abbrev after_end : ℤ → ℤ
after_end (pos n) = pos (n + 4)
after_end (negsuc n) = negsuc n

unfoldable pub get_http_header : Bytes → ℤ
get_http_header buffer = after_end (websocket_strnpos buffer b'\r' header_end)
