-- ===== src/Chat.antt =====
-- chat_room: the packets of the chat server and its clients, a head of three integers and a text.
pub mod Connect
pub mod Greet
pub mod Packet
pub mod Buffer
pub mod Reading
pub mod Parse
pub mod Pool
pub mod Session
pub mod Stream
mod Tests
mod ClientTests
