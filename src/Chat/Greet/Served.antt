-- ===== src/Chat/Greet/Served.antt =====
-- The greetings are messages, which the server reads.
use sasy_server.Base.{
  ℕ, zero, suc, ◌+◌, ◌-◌, ◌/◌, ◌%◌, ◌^◌, ◌<◌, ◌≤◌, ◌≡◌, refl, ap, ◌∙◌, List, [], ◌∷◌, ◌++◌, Bytes,
  length, length-append, All, All-append, arith, u32, Call, returns, codes, Option, some, Outcome,
  ok, fault, ◌>>=◌, joined, drop, length-drop, append-nil,
}
use sasy_server.Chat.Packet.{send_chat, send_chat-IsMessage}
use sasy_server.Base.Int.{pos}
use sasy_server.Chat.Buffer.{SocketBuffer, new_buffer, push_buffer, Line, readall_chat}
use sasy_server.Chat.Buffer.Pending.{pend, Inside, Holds}
use sasy_server.Chat.Buffer.Messages.{readall_chat-message}
use sasy_server.Chat.Greet.{digits_of, hello_world, strlen, next_cmd, greeting}

abbrev IsByte : ℕ → Type 0
IsByte c = 1 ≤ c

digits_of-positive : (room n : ℕ) → All IsByte (digits_of room n)
unfolding digits_of
digits_of-positive zero n = tt
digits_of-positive (suc room) n = ground (
  arith,
  digits_of-positive room (n / 10),
  All-append IsByte (digits_of room (n / 10)) ((b'0' + n % 10) ∷ []),
)

length-digits_of : (room n : ℕ) → length (digits_of room n) ≤ room
unfolding digits_of
length-digits_of zero n = omega arith
length-digits_of (suc room) n = ground (
  arith,
  length-digits_of room (n / 10),
  length-append (digits_of room (n / 10)) ((b'0' + n % 10) ∷ []),
)

strlen-length : (cs : Bytes) → All IsByte cs → strlen cs ≡ length cs
unfolding strlen
strlen-length [] a = refl
strlen-length (c ∷ cs) a = ground (arith, a.0, strlen-length cs a.1)

length-hello_world : (count : ℕ) → length (hello_world count) ≤ 23
length-hello_world count = omega (
  arith,
  length-digits_of 10 count,
  length-append (codes "hello world") (b' ' ∷ digits_of 10 count ++ (10 ∷ [])),
  length-append (digits_of 10 count) (10 ∷ []),
)

strlen-hello_world : (count : ℕ) → strlen (hello_world count) ≡ length (hello_world count)
strlen-hello_world count = strlen-length (hello_world count) (
    All-append IsByte (codes "hello world") (b' ' ∷ digits_of 10 count ++ (10 ∷ [])) (ground arith)
      (
        omega arith,
        All-append IsByte (digits_of 10 count) (10 ∷ []) (digits_of-positive 10 count)
            (ground arith),
      ))

-- A greeting is the packet that `lsend_chat` makes of its integers and its text.
pub send_chat-greeting :
    (uin cmd count : ℕ)
    → send_chat uin cmd (strlen (hello_world count)) (hello_world count)
      ≡ returns (greeting uin cmd count)
unfolding send_chat greeting
send_chat-greeting uin cmd count =
    ground (arith, strlen-hello_world count, length-hello_world count)

-- The greetings of `n` rounds, behind a round that left `cmd`.
abbrev pub greetings : ℕ → ℕ → ℕ → ℕ → List Bytes
greetings uin cmd count zero = []
greetings uin cmd count (suc n) =
    greeting uin (next_cmd cmd) count ∷ greetings uin (next_cmd cmd) (suc count) n

-- A server that is handed blocks of bytes and reads a line behind each of them.
unfoldable pub serve :
    Option SocketBuffer → List Bytes → Outcome (List (Call Line) × Option SocketBuffer)
serve sb [] = ok ([], sb)
serve sb (block ∷ blocks) = elim (push_buffer sb (some block)) [
  | returns sb' ↦
      readall_chat (some sb') >>= λ r. serve r.1 blocks >>= λ later. ok (r.0 ∷ later.0, later.1)
  | _ ↦ fault
]

-- What a server says of a greeting with this command.
abbrev line_with : ℕ → ℕ → ℕ → Line
line_with uin cmd count = record {
  size = 12 + length (hello_world count);
  uin = u32 uin;
  cmd = cmd;
  len = length (hello_world count);
  text = hello_world count;
}

-- What it says of the greeting of the round behind `count` rounds: the commands go from 1 to 2 ^ 31 - 1
-- and begin again.
abbrev pub line_of : ℕ → ℕ → Line
line_of uin count = line_with uin (count % (2 ^ 31 - 1) + 1) count

abbrev pub lines : ℕ → ℕ → ℕ → List (Call Line)
lines uin count zero = []
lines uin count (suc n) = returns (line_of uin count) ∷ lines uin (suc count) n

next_cmd-next_cmd :
    (cmd count : ℕ)
    → next_cmd cmd ≡ count % (2 ^ 31 - 1) + 1
    → next_cmd (next_cmd cmd) ≡ suc count % (2 ^ 31 - 1) + 1
next_cmd-next_cmd cmd count e = rw e (ground arith)

Inside-nil :
    (o : ℕ) (nodes : List Bytes) → Inside o nodes → pend o nodes ≡ [] → (o ≡ 0) × (nodes ≡ [])
Inside-nil o [] i e = (i, refl)
Inside-nil o (node ∷ nodes) i e = absurd (
    omega (arith, i.0, length-drop o node, ap length e, length-append (drop o node) (joined nodes)))

Holds-nil : (sb : SocketBuffer) → Holds sb [] → sb ≡ new_buffer
Holds-nil sb w =
    let (o, ns) = Inside-nil w.place sb.nodes w.inside w.waiting in
    let at_start : sb.offset ≡ pos 0 = w.placed ∙ ap pos o in
    λ i. record { size = w.counted i; offset = at_start i; nodes = ns i }

-- A buffer with one block.
abbrev one_block : Bytes → SocketBuffer
one_block m = record { size = u32 (0 + length m); offset = pos 0; nodes = m ∷ [] }

one_block-Holds : (m : Bytes) → 0 < length m → Holds (one_block m) (m ++ [])
one_block-Holds m h = record {
  place = 0;
  placed = refl;
  inside = (h, tt);
  waiting = refl;
  counted = omega (arith, ap length (append-nil m));
}

-- One round of the server.
abbrev go_on :
    List Bytes → Call Line × Option SocketBuffer → Outcome (List (Call Line) × Option SocketBuffer)
go_on blocks r = serve r.1 blocks >>= λ later. ok (r.0 ∷ later.0, later.1)

serve-block :
    (m : Bytes) (blocks : List Bytes)
    → serve (some new_buffer) (m ∷ blocks) ≡ (readall_chat (some (one_block m)) >>= go_on blocks)
unfolding serve push_buffer
serve-block m blocks = refl

serve-greeting :
    (uin cmd count : ℕ) (blocks : List Bytes)
    → cmd ≡ count % (2 ^ 31 - 1) + 1
    → serve (some new_buffer) (greeting uin cmd count ∷ blocks) ≡ (
        serve (some new_buffer) blocks >>= λ later.
        ok (returns (line_of uin count) ∷ later.0, later.1))
serve-greeting uin cmd count blocks c =
    let m = greeting uin cmd count in
    let h = send_chat-greeting uin cmd count in
    let w = send_chat-IsMessage uin cmd (strlen (hello_world count)) (hello_world count) m h in
    let (sb, e, k) =
      readall_chat-message uin cmd (strlen (hello_world count)) (hello_world count) m []
        (one_block m) h (one_block-Holds m (omega (arith, w.long))) (omega (arith, w.long))
        (omega (arith, w.long, w.fits, ap length (append-nil m))) in
    let as_counted : u32 cmd ≡ count % (2 ^ 31 - 1) + 1 = omega (arith, c) in
    serve-block m blocks
    ∙ ap (λ o. o >>= go_on blocks) e
    ∙ ap (λ b. go_on blocks (returns (line_with uin (u32 cmd) count), some b)) (Holds-nil sb k)
    ∙ ap (λ z. go_on blocks (returns (line_with uin z count), some new_buffer)) as_counted

serve-all :
    (uin cmd count n : ℕ)
    → next_cmd cmd ≡ count % (2 ^ 31 - 1) + 1
    → serve (some new_buffer) (greetings uin cmd count n) ≡ ok (lines uin count n, some new_buffer)
unfolding serve
serve-all uin cmd count zero c = refl
serve-all uin cmd count (suc n) c =
    serve-greeting uin (next_cmd cmd) count (greetings uin (next_cmd cmd) (suc count) n) c
    ∙ ap (λ o. o >>= λ later. ok (returns (line_of uin count) ∷ later.0, later.1))
        (serve-all uin (next_cmd cmd) (suc count) n (next_cmd-next_cmd cmd count c))

-- The greetings of at most 2 ^ 31 rounds of `main`, so that the count is an `int`: a server to which they come one by one
-- reads, for each, the client's number, the command, which goes from 1 to 2 ^ 31 - 1 and begins again, and
-- the text of the count, and its buffer is as new behind them.
pub serve-greetings :
    (uin n : ℕ)
    → n ≤ 2 ^ 31
    → serve (some new_buffer) (greetings uin 0 0 n) ≡ ok (lines uin 0 n, some new_buffer)
serve-greetings uin n h = serve-all uin 0 0 n (omega arith)
