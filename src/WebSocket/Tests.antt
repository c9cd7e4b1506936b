-- ===== src/WebSocket/Tests.antt =====
-- The WebSocket modules on concrete packets and buffers.
use sasy_server.Base.{
  ◌<◌, ◌^◌, ℕ, Outcome, fault, ◌≤◌, ◌≡◌, refl, ◌≢◌, true, false, List, [], ◌∷◌, ◌++◌, Bytes, length,
  ok, spent, some, none, arith,
}
use sasy_server.Base.Int.{pos}
use sasy_server.WebSocket.Mask.{unmask}
use sasy_server.WebSocket.Wire.{client_head, client_frame, IsOpcode}
use sasy_server.WebSocket.Frame.{ntohs, load32, read_size, read_payload, finish, no_mask}
use sasy_server.WebSocket.Frame.Read.{read_size-client_head, head_need}
use sasy_server.WebSocket.Frame.Bounds.{read_size-head_need}
use sasy_server.WebSocket.Handshake.{get_http_header, websocket_strnpos, starts_with}
use sasy_server.WebSocket.Handshake.Search.{FirstEnd, get_http_header-FirstEnd}
use sasy_server.WebSocket.Queue.{Slot, Queue, new_queue, push_data, lpop}
use sasy_server.WebSocket.Queue.Ring.{IsValid}
use sasy_server.WebSocket.Queue.Fifo.{
  Op, push, pop, run, run_fifo, run_refines, contents, slot_contents,
}
use sasy_server.WebSocket.Table.{hash_fd, save_uncomplete, find_uncomplete}
use sasy_server.WebSocket.Table.Lookup.{entry_of}
use sasy_server.WebSocket.More.Frames.{wire, Frame, IsAccepted, wires, packet}
use sasy_server.WebSocket.Filter.{more, wsclose, filter_data}
use sasy_server.WebSocket.Filter.Feed.{feed, frame_replies, feed-frame}
use sasy_server.WebSocket.Filter.Closing.{filter_data-closing}
use sasy_server.WebSocket.Filter.Batch.{filter_data-frames}
use sasy_server.WebSocket.Filter.Total.{filter_data-ne-spent}
use sasy_server.WebSocket.Gate.{Message, data_message, Event, nothing, lfilter}
use sasy_server.WebSocket.Scan.{scan_front, clip, skip_invalid}
use sasy_server.WebSocket.More.{push_more}
use sasy_server.WebSocket.Valid.{IsQueue}
use sasy_server.WebSocket.Valid.Calls.{GateCall, filters, pops, run_gate, run_gate-IsQueue}
use sasy_server.WebSocket.Valid.Apart.{lfilter-entry_of}
use sasy_server.WebSocket.Pack.{lpack, read_size-lpack}

abbrev key : Bytes
key = 1 ∷ 2 ∷ 3 ∷ 4 ∷ []

-- "hello", and the frame that carries it in three chunks.
abbrev hello : Bytes
hello = 104 ∷ 101 ∷ 108 ∷ 108 ∷ 111 ∷ []

abbrev chunks : List Bytes
chunks = (129 ∷ []) ∷ (133 ∷ 1 ∷ 2 ∷ 3 ∷ 4 ∷ 105 ∷ 103 ∷ []) ∷ (111 ∷ 104 ∷ 110 ∷ []) ∷ []

text-IsOpcode : IsOpcode 1
text-IsOpcode = record {
  small = omega arith;
  no_continuation = omega arith;
  no_close = omega arith;
}

none_free : find_uncomplete none 7 ≡ none
none_free = unfold find_uncomplete in refl

chunks_joined :
    (129 ∷ 133 ∷ 1 ∷ 2 ∷ 3 ∷ 4 ∷ 105 ∷ 103 ∷ 111 ∷ 104 ∷ 110 ∷ []) ≡ client_frame 1 key hello
chunks_joined = unfold unmask in refl

feed-frame_example :
    (slot' : Slot) × (feed none 7 chunks ≡ ok (slot', frame_replies 7 hello chunks))
    × (slot_contents slot' ≡ [])
    × (find_uncomplete slot' 7 ≡ none)
feed-frame_example =
    feed-frame none 7 1 key hello chunks text-IsOpcode refl (omega arith) none_free
      (λ e. cc, (λ e. cc, (λ e. cc, tt))) chunks_joined

abbrev frame : Frame
frame = record { opcode = 1; key = key; payload = hello }

frame-IsAccepted : IsAccepted frame
frame-IsAccepted = record { plain = text-IsOpcode; key_length = refl; fits = omega arith }

filter_data-frames_example :
    (q : Queue) × (filter_data none 7 (wires (frame ∷ frame ∷ [])) false ≡ ok (some q, more))
    × (contents q ≡ packet 7 frame ∷ packet 7 frame ∷ [])
filter_data-frames_example =
    filter_data-frames none 7 frame frame [] tt none_free (frame-IsAccepted, (frame-IsAccepted, tt))

abbrev two_packs : List Op
two_packs = push (packet 7 frame) ∷ push (packet 8 frame) ∷ pop ∷ pop ∷ pop ∷ []

run_refines_example : run none two_packs ≡ run_fifo [] two_packs
run_refines_example = run_refines two_packs none tt

run_fifo_two : run_fifo [] two_packs ≡ some (packet 7 frame) ∷ some (packet 8 frame) ∷ none ∷ []
unfolding run_fifo
run_fifo_two = refl

read_size-client_head_example :
    read_size (client_head 1 key 300 ++ hello)
    ≡ record { pack_size = pos 300; head_length = 8; mask = key; ismask = true }
read_size-client_head_example =
    read_size-client_head 1 300 key hello text-IsOpcode refl (omega arith)

abbrev request : Bytes
request = 71 ∷ 13 ∷ 10 ∷ 13 ∷ 10 ∷ 33 ∷ []

get_http_header-FirstEnd_example : FirstEnd request (get_http_header request)
get_http_header-FirstEnd_example = get_http_header-FirstEnd request

request_end : get_http_header request ≡ pos 5
unfolding get_http_header websocket_strnpos starts_with
request_end = refl

filter_data-ne-spent_example : filter_data none 7 (wires (frame ∷ frame ∷ [])) false ≢ spent
filter_data-ne-spent_example = filter_data-ne-spent none 7 (wires (frame ∷ frame ∷ [])) false

read_size-lpack_example :
    (read_size (lpack hello)
      ≡ record { pack_size = pos 5; head_length = 2; mask = no_mask; ismask = false })
    × (lpack hello ≡ 129 ∷ 5 ∷ hello)
read_size-lpack_example = read_size-lpack hello (omega arith)

new_queue-IsValid : IsValid new_queue
new_queue-IsValid = record { head_in = omega arith; tail_in = omega arith }

-- 7 and 4103 are in the same list.

-- A masked frame of 126 bytes, of which only the header has come.
abbrev long_head : Bytes
long_head = 129 ∷ 254 ∷ 0 ∷ 126 ∷ 1 ∷ 2 ∷ 3 ∷ 4 ∷ []

long_head-size : (read_size long_head).pack_size ≡ pos 126
unfolding read_size read_payload finish ntohs load32
long_head-size = refl

read_size-head_need_example :
    ((read_size long_head).head_length ≡ head_need 254)
    × (head_need 254 ≤ length long_head)
    × (126 < 2 ^ 31)
read_size-head_need_example =
    read_size-head_need 129 254 (0 ∷ 126 ∷ 1 ∷ 2 ∷ 3 ∷ 4 ∷ []) 126 (omega arith) long_head-size

filter_data-closing_example :
    (filter_data none 7 (136 ∷ 0 ∷ []) false ≡ ok (none, wsclose 7))
    × (filter_data none 7 (wire frame ++ (136 ∷ 0 ∷ [])) false ≡ fault)
filter_data-closing_example = filter_data-closing none 7 0 [] frame none_free frame-IsAccepted

abbrev data_of_socket : ℕ → Bytes → Message
data_of_socket fd bytes = record {
  type = data_message;
  id = fd;
  ud = length bytes;
  buffer = some bytes;
  padding = [];
}

-- The first byte of a frame of one socket, and a frame of another, which stands in the same list of the
-- table, with the front of the next one.
abbrev gate_calls : List GateCall
gate_calls =
    filters (data_of_socket 7 (129 ∷ [])) false
    ∷ filters (data_of_socket 4102 (129 ∷ 129 ∷ 1 ∷ 2 ∷ 3 ∷ 4 ∷ 105 ∷ 129 ∷ [])) false
    ∷ pops
    ∷ []

abbrev queue_of : Outcome Slot → Queue
queue_of (ok (some q)) = q
queue_of _ = new_queue

abbrev gate_queue : Queue
gate_queue = queue_of (run_gate gate_calls none)

gate_calls_run : run_gate gate_calls none ≡ ok (some gate_queue)
unfolding run_gate lfilter filter_data find_uncomplete scan_front clip skip_invalid read_size
    save_uncomplete hash_fd read_payload finish push_more lpop push_data
gate_calls_run = refl

run_gate-IsQueue_example : IsQueue gate_queue
run_gate-IsQueue_example = run_gate-IsQueue gate_calls gate_queue gate_calls_run

abbrev next_message : Message
next_message = data_of_socket 4102 (129 ∷ [])

abbrev result_of : Outcome (Slot × Event) → Slot × Event
result_of (ok r) = r
result_of _ = (none, nothing)

abbrev next_result : Slot × Event
next_result = result_of (lfilter (some gate_queue) next_message false)

next_message_read : lfilter (some gate_queue) next_message false ≡ ok (next_result.0, next_result.1)
unfolding run_gate lfilter filter_data find_uncomplete scan_front clip skip_invalid read_size
    save_uncomplete hash_fd read_payload finish push_more lpop push_data
next_message_read = refl

lfilter-entry_of_example : entry_of next_result.0 7 ≡ entry_of (some gate_queue) 7
lfilter-entry_of_example =
    lfilter-entry_of gate_calls gate_queue next_message false next_result.0 next_result.1 7
      gate_calls_run next_message_read (omega arith)
