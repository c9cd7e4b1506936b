-- ===== src/Client/Tests.antt =====
-- The client on small data.
use native.Mathlib.Decide.{dec_lt}
use sasy_server.Base.{
  ℕ, zero, suc, ◌<◌, ◌≢◌, sym, ◌∙◌, subst, Bool, not, ◌&&◌, inr, map, joined, length-append,
  length-pos, take-append, inl, true, codes, Bytes, ◌≡◌, ◌≤◌, ◌∷◌, ◌++◌, List, [], arith, refl, ap,
  false, some, ok, returns, length, take, drop, All,
}
use sasy_server.Base.Int.{ℤ, pos, negsuc}
use sasy_server.Client.Reads.{Read, received, interrupted, closed}
use sasy_server.Client.Search.Table.{char_of}
use sasy_server.Client.Search.First.{IsFirst, string_search-IsFirst}
use sasy_server.Client.Http.Header.{IsResponse}
use sasy_server.Client.Http.Register
use sasy_server.Client.Http.Register.{register_loop}
use sasy_server.Client.Http.Sessions.{Answer, register_loop-Comes, register_loop-together}
use sasy_server.Client.Telnet.{ends_in_tail, answered, telnet_loop, IsAnswer, telnet_loop-answer}
use sasy_server.Client.Threads.{
  running, ended, over, all_clear, Event, main_turns, exits, server_closes, writer_turns, happen,
  run_events,
}
use sasy_server.Client.Threads.Close.{run_events-over}
use sasy_server.Client.Threads.Shutdown.{turns_of_main, run_events-Shutdown}
use sasy_server.Client.Answers.{Pbc, login, answer_to, read_all-answers}
use sasy_server.WebSocket.Handshake.{starts_with, websocket_strnpos}
use sasy_server.GamePacket.{block, as_block, pack_net_packet}
use sasy_server.Client.Search.{string_search}
use sasy_server.Client.Search.Same.{string_search-eq-websocket_strnpos}
use sasy_server.Client.Decimal.{itoa_parser}
use sasy_server.Client.Decimal.Digits.{IsDigit}
use sasy_server.Client.Decimal.Value.{read_int, read_int-itoa_parser}
use sasy_server.Client.Http.{line_feed, content, whole, get_http_response_body}
use sasy_server.Client.Packets.{Messages, framed}
use sasy_server.Client.Writer.{Turn, gate_write}
use sasy_server.Client.Writer.Once.{gate_write-beat_wire}
use sasy_server.Client.Send.{write_loop}
use sasy_server.Client.Receive.{reading, read_all}
use sasy_server.Client.Receive.Stream.{IsPacket}

search_backs_up : string_search (codes "abababc") 7 (codes "ababc") 5 ≡ ok (pos 2)
unfolding string_search
search_backs_up = refl

string_search-eq-websocket_strnpos_example :
    string_search (codes "abcabd") 6 (codes "abd") 3
    ≡ ok (websocket_strnpos (codes "abcabd") b'a' (codes "bd"))
string_search-eq-websocket_strnpos_example =
    string_search-eq-websocket_strnpos (codes "abcabd") b'a' b'b' (codes "d")

read_int-itoa_parser_example :
    (text : Bytes) × (ds : Bytes) × (itoa_parser (pos 120) 10 ≡ ok text)
    × (read_int text ≡ pos 120)
    × All IsDigit text
    × (length text ≤ 10)
    × (itoa_parser (negsuc 120) 10 ≡ ok (b'-' ∷ ds))
    × (read_int (b'-' ∷ ds) ≡ negsuc 120)
    × All IsDigit ds
read_int-itoa_parser_example = read_int-itoa_parser 120 (omega arith)

abbrev response : Bytes
response = codes "HTTP/1.1 200 OK\r\ncontent-length: 2\r\n\r\nok"

body_of_two : get_http_response_body response 40 8 ≡ ok (whole (codes "ok") 40)
unfolding get_http_response_body string_search
body_of_two = refl

-- The first byte of a freed block is written over.
abbrev after_free : Bytes → Bytes
after_free [] = []
after_free (c ∷ cs) = 0 ∷ cs

length-after_free : (bytes : Bytes) → length (after_free bytes) ≡ length bytes
length-after_free [] = refl
length-after_free (c ∷ cs) = refl

ok_bytes : {xs ys : Bytes} → ok xs ≡ ok ys → xs ≡ ys
ok_bytes e = cc

abbrev messages : Messages
messages = record {
  heart_beat = λ i. some (8 ∷ i ∷ []);
  login = some (10 ∷ []);
  freed = λ slice. ok (after_free slice);
  freed_length = λ slice copy e. ap length (ok_bytes (sym e)) ∙ length-after_free slice;
}

abbrev sent_packet : Bytes
sent_packet = 0 ∷ 6 ∷ 0 ∷ 0 ∷ 1 ∷ 0 ∷ 8 ∷ 1 ∷ []

abbrev reads : List Bytes
reads = (0 ∷ 6 ∷ 0 ∷ []) ∷ (0 ∷ 1 ∷ 0 ∷ 8 ∷ 1 ∷ []) ∷ []

sent_packet-IsPacket : IsPacket sent_packet
sent_packet-IsPacket = record { says = refl; some_payload = omega arith; small = omega arith }

pack_sent_packet :
    pack_net_packet (block (8 ∷ 1 ∷ [])) (pos 2) 0x100 false ≡ returns (as_block sent_packet 8)
unfolding pack_net_packet
pack_sent_packet = refl

ok_injective : (r s : ℤ) → ok r ≡ ok s → r ≡ s
ok_injective r s e = cc e

-- What the search finds is the first place.
found-IsFirst :
    (text des : Bytes) (r : ℤ)
    → 2 ≤ length text
    → 2 ≤ length des
    → string_search text (length text) des (length des) ≡ ok r
    → IsFirst (char_of text) (length text) (char_of des) (length des) r
found-IsFirst text des r h k e =
    let (s, f, first) = string_search-IsFirst text (length text) des (length des) h k in
    subst (IsFirst (char_of text) (length text) (char_of des) (length des))
      (ok_injective s r (sym f ∙ e)) first

response-IsResponse : IsResponse response (codes "ok")
unfolding string_search
response-IsResponse = record {
  feed = 34;
  feed_first = found-IsFirst response line_feed (pos 34) (omega arith) (omega arith) refl;
  place = 17;
  place_first = found-IsFirst response content (pos 17) (omega arith) (omega arith) refl;
  behind_start = (omega arith, omega arith);
  ltemp = codes "2";
  next = 13;
  after = codes "\n\r\nok";
  digits = refl;
  all_digits = (omega arith, tt);
  few_digits = omega arith;
  ends = refl;
  in_head = omega arith;
  body_of = refl;
  worth = refl;
  some_body = omega arith;
}

abbrev an_answer : Answer
an_answer = record {
  response = response;
  body = codes "ok";
  good = response-IsResponse;
  body_fits = omega arith;
  fits = omega arith;
}

abbrev session_reads : List Read
session_reads =
    received (take 20 response) ∷ interrupted ∷ received (drop 20 response) ∷ received response ∷ []

register_loop-Comes_example :
    register_loop session_reads [] ≡ ok (codes "ok" ∷ codes "ok" ∷ [], [], Register.reading)
register_loop-Comes_example =
    register_loop-Comes session_reads [] (an_answer ∷ an_answer ∷ []) (omega arith) (
      (λ e. omega (arith, ap length e)),
      inr (
        drop 20 response,
        refl,
        (λ e. omega (arith, ap length e)),
        (
          (λ e. omega (arith, ap length e)),
          inl (refl, ((λ e. omega (arith, ap length e)), inl (refl, refl))),
        ),
      ),
    )

register_loop-together_example :
    register_loop (received (response ++ codes "HTTP") ∷ map received (codes "/1.1" ∷ [])) []
    ≡ ok ([], (response ++ codes "HTTP") ++ joined (codes "/1.1" ∷ []), Register.reading)
register_loop-together_example =
    register_loop-together response (codes "HTTP") (codes "ok") (codes "/1.1" ∷ [])
      response-IsResponse (λ e. omega (arith, ap length e)) (omega arith)

abbrev told : Bytes
told = codes "mem 7\nTELNET_OK\n"

-- That no one of the first parts of the answer ends as the answer does.
unfinished : ℕ → Bool
unfinished zero = true
unfinished (suc n) = not (ends_in_tail (take n told)) && unfinished n

unfinished-part : (n k : ℕ) → unfinished n ≡ true → k < n → ends_in_tail (take k told) ≡ false
unfolding unfinished
unfinished-part zero k u l = absurd (omega (arith, l))
unfinished-part (suc n) k u l = elim (dec_lt k n) [
  | yes less ↦ unfinished-part n k (ground (arith, u)) less
  | no other ↦
      let e : n ≡ k = omega (arith, l, other) in
      ap (λ j. ends_in_tail (take j told)) (sym e) ∙ ground (arith, u)
]

told-IsAnswer : IsAnswer told
unfolding unfinished starts_with
told-IsAnswer = record {
  at_end = refl;
  not_before = λ part more e some.
      let n = length-append part more in
      let l = length-pos more some in
      let front : take (length part) told ≡ part =
        ap (take (length part)) (sym e) ∙ take-append part more (length part) refl in
      ap ends_in_tail (sym front)
      ∙ unfinished-part 16 (length part) refl (omega (arith, n, l, ap length e));
  fits = omega arith;
}

telnet_loop-answer_example :
    telnet_loop (received (take 14 told) ∷ interrupted ∷ received (drop 14 told) ∷ closed ∷ []) []
    ≡ ok (answered told)
telnet_loop-answer_example =
    telnet_loop-answer told (received (take 14 told) ∷ interrupted ∷ received (drop 14 told) ∷ [])
      (closed ∷ []) told-IsAnswer tt refl

abbrev schedule : List Event
schedule =
    main_turns true
    ∷ main_turns true
    ∷ main_turns true
    ∷ main_turns true
    ∷ main_turns true
    ∷ exits 0
    ∷ []

run_events-Shutdown_example :
    (run_events
      (server_closes ∷ writer_turns ∷ exits 0 ∷ turns_of_main true 1025)
      (run_events schedule all_clear)).phase
    ≡ over
unfolding run_events happen
run_events-Shutdown_example = run_events-Shutdown schedule true 0 refl refl

abbrev pbc : Pbc Bytes
pbc = record {
  file = λ path. some (codes "12345678");
  opens = true;
  registers = λ contents. true;
  rmessage = λ type_name bytes. some bytes;
}

read_all-answers_example :
    (packet : Bytes) × (read_all reads [] ≡ (packet ∷ [], reading []))
    × (answer_to pbc packet ≡ some (8 ∷ 1 ∷ []))
read_all-answers_example =
    read_all-answers pbc login (codes "12345678") (8 ∷ 1 ∷ []) 0x100 sent_packet 8 reads refl refl
      refl refl (omega arith) pack_sent_packet refl
      ((λ e. omega (arith, ap length e)), ((λ e. omega (arith, ap length e)), tt))

-- The three threads are started and end; the last loop of `main` waits once for the writer.
abbrev whole_run : List Event
whole_run = schedule ++ (server_closes ∷ writer_turns ∷ turns_of_main true 1025)

whole_run-over : (run_events whole_run all_clear).phase ≡ over
unfolding run_events happen
whole_run-over = refl

run_events-over_example :
    ((run_events whole_run all_clear).runflag 1 ≡ false)
    × ((run_events whole_run all_clear).threads 1 ≢ running)
    × (1 < 3 → (run_events whole_run all_clear).threads 1 ≡ ended)
run_events-over_example = run_events-over whole_run 1 whole_run-over

abbrev first_turn : Turn
first_turn = record {
  closing = false;
  now = 100;
  later = 110;
  beats = pos 3 ∷ pos 5 ∷ [];
  logins = pos 7 ∷ [];
}

abbrev early_turn : Turn
early_turn = record { closing = false; now = 120; later = 130; beats = []; logins = [] }

abbrev due_turn : Turn
due_turn = record { closing = false; now = 3110; later = 3120; beats = pos 8 ∷ []; logins = [] }

abbrev closing_turn : Turn
closing_turn = record { closing = true; now = 3130; later = 3140; beats = []; logins = [] }

gate_write-beat_wire_example :
    gate_write messages
      (first_turn ∷ early_turn ∷ due_turn ∷ closing_turn ∷ [])
      (record { index = 5; last_time = 0 })
      false
    ≡ ok (
      (framed 0 (0 ∷ 5 ∷ [])).0 ++ ((framed 0x100 (10 ∷ [])).0 ++ ((framed 0 (0 ∷ 6 ∷ [])).0)),
      true,
    )
unfolding write_loop framed
gate_write-beat_wire_example =
    gate_write-beat_wire messages (λ i. 8 ∷ i ∷ []) (λ i. 0 ∷ i ∷ []) (10 ∷ []) (λ i. refl)
      (λ i. refl) (λ i. omega arith) refl (omega arith) first_turn (early_turn ∷ due_turn ∷ [])
      closing_turn [] (record { index = 5; last_time = 0 })
      (refl, inr refl, (refl, inl refl, (refl, inr refl, tt))) refl refl
