-- ===== src/WebSocket.antt =====
-- game_room/luaclib-src/lua-websocketnetpack.c: the packet filter of the game servers' gate.
pub mod Mask
pub mod Wire
pub mod Frame
pub mod Handshake
pub mod Queue
pub mod Table
pub mod Scan
pub mod More
pub mod Filter
pub mod Pack
pub mod Gate
pub mod Valid
mod Tests
