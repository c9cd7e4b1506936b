-- ===== src/Chat/Stream/Reads.antt =====
-- What a client handles of all that it reads.
use sasy_server.Base.{
  suc, ◌<◌, ◌≤◌, ◌≡◌, refl, ap, ◌∙◌, List, [], ◌∷◌, ◌++◌, Bytes, length, length-append, joined, All,
  arith, ok, ◌>>=◌,
}
use sasy_server.Chat.Packet.{IsSent, read-IsSent}
use sasy_server.Chat.Stream.{take_packets, read_packets}
use sasy_server.Chat.Stream.Order.{take_packets-messages}

-- How messages come: with what waits in the buffer, each read ends a number of messages, maybe none, and
-- has less than a head of the next one. The index at the end is what waits then.
pub data Comes : Bytes → List Bytes → List Bytes → Bytes → Type 0 where
  no_more : (waiting : Bytes) → Comes waiting [] [] waiting
  more :
      {reads later : List Bytes} {last : Bytes} (waiting bytes : Bytes) (messages : List Bytes)
      (tail : Bytes)
      → waiting ++ bytes ≡ joined messages ++ tail
      → All IsSent messages
      → length tail < 12
      → Comes tail reads later last
      → Comes waiting (bytes ∷ reads) (messages ++ later) last

length-joined :
    (messages : List Bytes) → All IsSent messages → length messages ≤ length (joined messages)
length-joined [] a = omega arith
length-joined (m ∷ messages) a =
    let w = read-IsSent m a.0 in
    omega (arith, w.long, length-joined messages a.1, length-append m (joined messages))

-- When no read ends within the text of a message, the client handles all messages of `lsend_chat` that
-- come, in their order, and what is left in its buffer is what came behind the last one.
pub read_packets-Comes :
    (reads messages : List Bytes) (waiting last : Bytes)
    → Comes waiting reads messages last
    → read_packets reads waiting ≡ ok (messages, last)
unfolding read_packets
read_packets-Comes reads messages waiting last (no_more w) = refl
read_packets-Comes reads messages waiting last
      (more {reads = behind} {later = later} w bytes ms tail e a h c) =
    let n = ap length e in
    let taken : take_packets (suc (length (w ++ bytes))) (w ++ bytes) ≡ ok (ms, tail) =
      ap (take_packets (suc (length (w ++ bytes)))) e
      ∙ take_packets-messages ms tail (suc (length (w ++ bytes))) a h
          (omega (arith, n, length-joined ms a, length-append (joined ms) tail)) in
    ap (λ o. o >>= λ r. read_packets behind r.1 >>= λ l. ok (r.0 ++ l.0, l.1)) taken
    ∙ ap (λ o. o >>= λ l. ok (ms ++ l.0, l.1)) (read_packets-Comes behind later tail last c)
