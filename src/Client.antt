-- ===== src/Client.antt =====
-- game_room/client: the program that speaks to the servers as a player's client does.
pub mod Reads
pub mod Search
pub mod Decimal
pub mod Http
pub mod Packets
pub mod Send
pub mod HeartBeat
pub mod Writer
pub mod Threads
pub mod Telnet
pub mod Receive
pub mod Answers
mod Tests
