-- ===== src/Client/Reads.antt =====
-- The calls of `read` in the loops of game_room/client/httpclient.c.
use sasy_server.Base.{ℕ, ◌*◌, Bytes}

-- What `read` returns: bytes, -1 with `EINTR` or `EAGAIN`, -1 with another error, or 0.
pub data Read : Type 0 where
  received : Bytes → Read
  interrupted : Read
  failed : Read
  closed : Read

-- `sizeof(rbuffer)`
abbrev pub size_of_rbuffer : ℕ
size_of_rbuffer = 16384 * 5
