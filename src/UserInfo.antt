-- ===== src/UserInfo.antt =====
-- game_room/luaclib-src/lua-sui.c: the information on a user that the game servers' Lua services
-- share.
pub mod Members
pub mod Attributes
pub mod Score
pub mod Heap
mod Tests
