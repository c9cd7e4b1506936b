-- ===== src/Chat/Greet.antt =====
-- What `main` of chat_room/client/client.c sends in each round of its loop.
pub mod Served
use sasy_server.Base.{
  ℕ, zero, suc, ◌+◌, ◌-◌, ◌*◌, ◌/◌, ◌%◌, ◌^◌, [], ◌∷◌, ◌++◌, ltb, ◌==◌, if◌then◌else◌, Bytes,
  length, codes,
}
use sasy_server.Chat.Packet.{header_size, int_bytes}

-- `%d` of an `int` that is not negative, which has ten digits at most. Behind 2 ^ 31 rounds `iCount` is no
-- `int` any more.
unfoldable pub digits_of : ℕ → ℕ → Bytes
digits_of zero n = []
digits_of (suc room) n =
    let rest = digits_of room (n / 10) in
    if ltb n 10 then (b'0' + n) ∷ [] else rest ++ ((b'0' + n % 10) ∷ [])

-- `sprintf(data.buf, "%s %d\n", "hello world", iCount++)`
abbrev pub hello_world : ℕ → Bytes
hello_world count = codes "hello world" ++ (b' ' ∷ digits_of 10 count) ++ (10 ∷ [])

-- `strlen` of a text with a zero behind it.
unfoldable pub strlen : Bytes → ℕ
strlen [] = 0
strlen (c ∷ cs) = let rest = strlen cs in if c == 0 then 0 else suc rest

-- The wrap of `data.header.cmd`, and `data.header.cmd++`.
abbrev pub next_cmd : ℕ → ℕ
next_cmd cmd = (if cmd == 2 ^ 31 - 1 then 0 else cmd) + 1

-- The bytes that are written of `data`: the head, and as much of the text as its length says.
unfoldable pub greeting : ℕ → ℕ → ℕ → Bytes
unfolding digits_of strlen
greeting uin cmd count =
    let str = hello_world count in
    int_bytes uin ++ (int_bytes cmd ++ (int_bytes (strlen str) ++ str))
