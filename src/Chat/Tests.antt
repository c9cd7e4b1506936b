-- ===== src/Chat/Tests.antt =====
-- Messages of the chat.
use sasy_server.Base.{
  ℕ, update, none, List, drop, codes, ◌≡◌, refl, ap, [], ◌∷◌, ◌++◌, joined, Bytes, length, take,
  some, ok, spent, returns, crashes, arith,
}
use sasy_server.Base.Int.{pos}
use sasy_server.Chat.Packet.{int_bytes, send_chat, IsSent}
use sasy_server.Chat.Reading.{nothing, present, line}
use sasy_server.WebSocket.Handshake.{starts_with}
use sasy_server.Chat.Reading.Lines.{first_at}
use sasy_server.Chat.Reading.Fifo.{
  Op, arrive, pop, read_line, find_line, read_all, clear, arrived, popped, answered, emptied,
  cleared, step_bytes, run, run_bytes, run_bytes_refines,
}
use sasy_server.Chat.Buffer.{SocketBuffer, new_buffer, push_buffer, readall_chat}
use sasy_server.Chat.Buffer.Pending.{Holds}
use sasy_server.Chat.Buffer.Messages.{readall_chat-message}
use sasy_server.Chat.Buffer.Split.{readall_chat-part}
use sasy_server.Chat.Parse.{parse_packet, parse_packet-message}
use sasy_server.Chat.Pool.{new_heap}
use sasy_server.Chat.Pool.Append.{pushed}
use sasy_server.Chat.Pool.Return.{rest_of}
use sasy_server.Chat.Pool.Refines.{
  PoolOp, comes, is_read, run_pool, run_views, IsRun, run_pool-IsRun,
}
use sasy_server.Chat.Stream.{take_packets, read_packets}
use sasy_server.Chat.Stream.Reads.{Comes, no_more, more, read_packets-Comes}
use sasy_server.Chat.Stream.Order.{take_packets-part}

abbrev message : Bytes
message = int_bytes 5 ++ (int_bytes 1 ++ (int_bytes 2 ++ codes "hi"))

sent_hi : send_chat 5 1 2 (codes "hi") ≡ returns message
unfolding send_chat
sent_hi = refl

message-IsSent : IsSent message
message-IsSent = record { uin = 5; cmd = 1; len = 2; str = codes "hi"; sent = sent_hi }

-- The message in two nodes, with a byte of the next one behind it.
abbrev in_parts : SocketBuffer
in_parts = record { size = 15; offset = pos 0; nodes = take 13 message ∷ (b'i' ∷ 9 ∷ []) ∷ [] }

in_parts-Holds : Holds in_parts (message ++ (9 ∷ []))
in_parts-Holds = record {
  place = 0;
  placed = refl;
  inside = (omega arith, (omega arith, tt));
  waiting = refl;
  counted = refl;
}

readall_chat-message_example :
    (sb' : SocketBuffer) × (readall_chat (some in_parts)
      ≡ ok (returns (record { size = 14; uin = 5; cmd = 1; len = 2; text = codes "hi" }), some sb'))
    × Holds sb' (9 ∷ [])
readall_chat-message_example =
    readall_chat-message 5 1 2 (codes "hi") message (9 ∷ []) in_parts sent_hi in_parts-Holds
      (omega arith) (omega arith)

abbrev half : SocketBuffer
half = record { size = 13; offset = pos 0; nodes = take 13 message ∷ [] }

half-Holds : Holds half (take 13 message)
half-Holds = record {
  place = 0;
  placed = refl;
  inside = (omega arith, tt);
  waiting = refl;
  counted = refl;
}

readall_chat-part_example :
    (sb' : SocketBuffer) × (readall_chat (some half)
      ≡ ok (
        returns (record { size = 13; uin = 5; cmd = 1; len = 2; text = b'h' ∷ 0 ∷ [] }),
        some sb',
      ))
    × Holds sb' []
readall_chat-part_example =
    readall_chat-part 5 1 2 (codes "hi") message (take 13 message) (b'i' ∷ []) half sent_hi refl
      (λ e. omega (arith, ap length e)) half-Holds (omega arith)

parse_packet-message_example :
    (parse_packet 1 message
      ≡ returns (record { err = 1; id = 1; sz = 14; packet = message; left = 0; rest = [] }))
    × (parse_packet 1 (message ++ (5 ∷ 0 ∷ [])) ≡ crashes)
parse_packet-message_example =
    parse_packet-message 1 message (5 ∷ 0 ∷ []) message-IsSent (omega arith)

take_packets-part_example : take_packets 9 (joined (message ∷ []) ++ take 13 message) ≡ spent
take_packets-part_example =
    take_packets-part (message ∷ []) message (take 13 message) (b'i' ∷ []) 9 (message-IsSent, tt)
      message-IsSent refl (λ e. omega (arith, ap length e)) (omega arith)

-- The head of the second message is cut.
abbrev cut_reads : List Bytes
cut_reads = (message ++ take 5 message) ∷ (drop 5 message ++ (5 ∷ [])) ∷ []

cut_reads-Comes : Comes [] cut_reads (message ∷ message ∷ []) (5 ∷ [])
cut_reads-Comes =
    more [] (message ++ take 5 message) (message ∷ []) (take 5 message) refl (message-IsSent, tt)
      (omega arith)
      (more (take 5 message) (drop 5 message ++ (5 ∷ [])) (message ∷ []) (5 ∷ []) refl
        (message-IsSent, tt) (omega arith) (no_more (5 ∷ [])))

read_packets-Comes_example : read_packets cut_reads [] ≡ ok (message ∷ message ∷ [], 5 ∷ [])
read_packets-Comes_example =
    read_packets-Comes cut_reads (message ∷ message ∷ []) [] (5 ∷ []) cut_reads-Comes

new_buffer-Holds : Holds new_buffer []
new_buffer-Holds = record {
  place = 0;
  placed = refl;
  inside = refl;
  waiting = refl;
  counted = refl;
}

abbrev calls : List Op
calls =
    arrive (codes "GET\nHo")
    ∷ read_line (codes "\r\n")
    ∷ arrive (codes "st\r\nxyz")
    ∷ find_line (codes "\r\n")
    ∷ read_line (codes "\r\n")
    ∷ pop 2
    ∷ pop 4294967301
    ∷ read_all
    ∷ clear
    ∷ []

calls-on_bytes :
    run_bytes [] calls
    ≡ arrived 6
      ∷ answered nothing
      ∷ arrived 13
      ∷ answered present
      ∷ answered (line (codes "GET\nHost"))
      ∷ popped (some (codes "xy")) 1
      ∷ popped none 1
      ∷ emptied (codes "z")
      ∷ cleared
      ∷ []
unfolding run_bytes step_bytes first_at starts_with
calls-on_bytes = refl

run_bytes_refines_example : run new_buffer calls ≡ ok (run_bytes [] calls)
run_bytes_refines_example =
    run_bytes_refines calls new_buffer [] new_buffer-Holds
      (
        omega arith,
        (
          omega arith,
          (omega arith, (omega arith, (omega arith, (omega arith, (omega arith, (tt, (tt, tt))))))),
        ),
      )
      (omega arith)

-- Blocks for two sockets, of which the first one is read to its end.
abbrev pool_ops : List PoolOp
pool_ops =
    comes 3 (1 ∷ 2 ∷ []) ∷ comes 7 (9 ∷ []) ∷ comes 3 (4 ∷ []) ∷ is_read 3 ∷ comes 7 (8 ∷ []) ∷ []

abbrev put_at : ℕ → (SocketBuffer → SocketBuffer) → (ℕ → SocketBuffer) → ℕ → SocketBuffer
put_at i f view = update view i (f (view i))

abbrev pool_view : ℕ → SocketBuffer
pool_view = put_at 7 (pushed (8 ∷ [])) (
    put_at 3 (rest_of ((4 ∷ []) ∷ [])) (
      put_at 3 (pushed (4 ∷ []))
        (put_at 7 (pushed (9 ∷ [])) (put_at 3 (pushed (1 ∷ 2 ∷ [])) (λ i. new_buffer)))))

pool_ops-run : run_views pool_ops (some (λ i. new_buffer)) ≡ some pool_view
unfolding run_views push_buffer
pool_ops-run = refl

run_pool-IsRun_example : IsRun (run_pool pool_ops (some new_heap)) pool_view
run_pool-IsRun_example = run_pool-IsRun pool_ops pool_view pool_ops-run
