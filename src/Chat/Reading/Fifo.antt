-- ===== src/Chat/Reading/Fifo.antt =====
-- A socket's buffer is a queue of bytes, for every sequence of calls.
use sasy_server.Base.{
  ℕ, ◌+◌, ◌^◌, ◌<◌, ◌≤◌, ◌≡◌, refl, ap, ◌∙◌, List, [], ◌∷◌, ◌++◌, true, false, Bytes, length,
  length-append, length-drop, All, Call, returns, Option, none, some, Outcome, ok, fault, ◌>>=◌,
  u32, arith,
}
use sasy_server.Chat.Buffer.{SocketBuffer, push_buffer}
use sasy_server.Chat.Buffer.Pending.{Holds, push_buffer-Holds}
use sasy_server.Chat.Reading.{pop_buffer, clear_buffer, readall, Answer, readline}
use sasy_server.Chat.Reading.Lines.{first_at}
use sasy_server.Chat.Reading.Calls.{
  pop_bytes, line_bytes, check_bytes, pop_buffer-Holds, readall-Holds, clear_buffer-Holds,
  readline-check, readline-Holds,
}

-- What a service does with a socket's buffer: the socket delivers bytes, or one of the calls is made.
pub data Op : Type 0 where
  arrive : Bytes → Op
  pop : ℕ → Op
  read_line : Bytes → Op
  find_line : Bytes → Op
  read_all : Op
  clear : Op

-- What the calls return.
pub data Out : Type 0 where
  arrived : ℕ → Out
  popped : Option Bytes → ℕ → Out
  answered : Answer → Out
  emptied : Bytes → Out
  cleared : Out

-- One call by the code: what it returns, and the buffer; a call that raises an error gives no buffer.
abbrev pub went {ℓ} :
    {A : Type ℓ} → (A → Out) → Call A × Option SocketBuffer → Outcome (Out × SocketBuffer)
went f (returns a, some sb) = ok (f a, sb)
went f _ = fault

unfoldable pub step : SocketBuffer → Op → Outcome (Out × SocketBuffer)
step sb (arrive msg) = elim (push_buffer (some sb) (some msg)) [
  | returns sb' ↦ ok (arrived sb'.size, sb')
  | _ ↦ fault
]
step sb (pop n) = pop_buffer (some sb) n >>= went (λ r. popped r.0 r.1)
step sb (read_line sep) = readline (some sb) false sep >>= went answered
step sb (find_line sep) = readline (some sb) true sep >>= went answered
step sb read_all = readall (some sb) >>= went emptied
step sb clear = elim (clear_buffer (some sb)) [ none ↦ fault | some sb' ↦ ok (cleared, sb') ]

unfoldable pub run : SocketBuffer → List Op → Outcome (List Out)
unfolding step
run sb [] = ok []
run sb (op ∷ ops) = step sb op >>= λ r. run r.1 ops >>= λ outs. ok (r.0 ∷ outs)

-- The same on a queue of bytes.
unfoldable pub step_bytes : Bytes → Op → Out × Bytes
step_bytes bytes (arrive msg) = (arrived (length (bytes ++ msg)), bytes ++ msg)
step_bytes bytes (pop n) = (
  popped (pop_bytes (u32 n) bytes).0 (length (pop_bytes (u32 n) bytes).1),
  (pop_bytes (u32 n) bytes).1,
)
step_bytes bytes (read_line sep) = (
  answered (line_bytes sep (first_at sep bytes) bytes).0,
  (line_bytes sep (first_at sep bytes) bytes).1,
)
step_bytes bytes (find_line sep) = (answered (check_bytes (first_at sep bytes)), bytes)
step_bytes bytes read_all = (emptied bytes, [])
step_bytes bytes clear = (cleared, [])

unfoldable pub run_bytes : Bytes → List Op → List Out
run_bytes bytes [] = []
run_bytes bytes (op ∷ ops) = (step_bytes bytes op).0 ∷ run_bytes (step_bytes bytes op).1 ops

-- What arrives and what is looked for has bytes, and no number is negative as an `int`.
abbrev pub IsOp : Op → Type 0
IsOp (arrive msg) = 0 < length msg
IsOp (pop n) = u32 n < 2 ^ 31
IsOp (read_line sep) = 0 < length sep
IsOp (find_line sep) = 0 < length sep
IsOp _ = Unit

abbrev pub arriving : Op → ℕ
arriving (arrive msg) = length msg
arriving _ = 0

abbrev pub all_arriving : List Op → ℕ
all_arriving [] = 0
all_arriving (op ∷ ops) = arriving op + all_arriving ops

-- A call does with the buffer what it does with the bytes that wait.
record Steps (sb : SocketBuffer) (bytes : Bytes) (op : Op) : Type 0 where
  after : SocketBuffer
  steps : step sb op ≡ ok ((step_bytes bytes op).0, after)
  holds : Holds after (step_bytes bytes op).1
  bound : length (step_bytes bytes op).1 ≤ length bytes + arriving op

arrive-Steps :
    (sb : SocketBuffer) (bytes msg : Bytes)
    → Holds sb bytes
    → 0 < length msg
    → length bytes + length msg < 2 ^ 31
    → Steps sb bytes (arrive msg)
unfolding step step_bytes
arrive-Steps sb bytes msg w h small =
    let (sb', e, w') = push_buffer-Holds sb bytes msg w h in
    let l = length-append bytes msg in
    let size : sb'.size ≡ length (bytes ++ msg) = omega (arith, w'.counted) in
    record {
      after = sb';
      steps = rw (e, step) (ap (λ k. ok (arrived k, sb')) size);
      holds = w';
      bound = omega arith;
    }

pop-Steps :
    (sb : SocketBuffer) (bytes : Bytes) (n : ℕ)
    → Holds sb bytes
    → length bytes < 2 ^ 31
    → u32 n < 2 ^ 31
    → Steps sb bytes (pop n)
unfolding step step_bytes
pop-Steps sb bytes n w small h =
    let (sb', e, w') = pop_buffer-Holds sb bytes n w small h in
    record {
      after = sb';
      steps = rw e refl;
      holds = w';
      bound = ground (arith, length-drop (u32 n) bytes);
    }

read_line-Steps :
    (sb : SocketBuffer) (bytes sep : Bytes)
    → Holds sb bytes
    → length bytes < 2 ^ 31
    → 0 < length sep
    → Steps sb bytes (read_line sep)
unfolding step step_bytes
read_line-Steps sb bytes sep w small p =
    let (sb', e, w') = readline-Holds sb bytes sep w small p in
    record { after = sb'; steps = rw e refl; holds = w'; bound = shorter (first_at sep bytes) }
  where
    shorter : (o : Option ℕ) → length (line_bytes sep o bytes).1 ≤ length bytes + 0
    shorter none = omega arith
    shorter (some i) = omega (arith, length-drop (i + length sep) bytes)

step-Steps :
    (op : Op) (sb : SocketBuffer) (bytes : Bytes)
    → Holds sb bytes
    → IsOp op
    → length bytes + arriving op < 2 ^ 31
    → Steps sb bytes op
unfolding step step_bytes
step-Steps (arrive msg) sb bytes w h small = arrive-Steps sb bytes msg w h small
step-Steps (pop n) sb bytes w h small = pop-Steps sb bytes n w (omega arith) h
step-Steps (read_line sep) sb bytes w h small = read_line-Steps sb bytes sep w (omega arith) h
step-Steps (find_line sep) sb bytes w h small = record {
  after = sb;
  steps = rw (readline-check sb bytes sep w (omega arith) h) refl;
  holds = w;
  bound = omega arith;
}
step-Steps read_all sb bytes w h small =
    let (sb', e, w') = readall-Holds sb bytes w in
    record { after = sb'; steps = rw e refl; holds = w'; bound = omega arith }
step-Steps clear sb bytes w h small =
    let (sb', e, w') = clear_buffer-Holds sb bytes w in
    record { after = sb'; steps = rw (e, step) refl; holds = w'; bound = omega arith }

-- Whatever sequence of calls is made on a socket's buffer and whatever the socket delivers between them,
-- if what arrives and what is looked for is never empty, no number of bytes that is asked for is negative
-- as an `int`, and less than 2 ^ 31 bytes come in all, the calls return what they return on a plain queue
-- of bytes, which takes such a number modulo 2 ^ 32, and none of them fails.
pub run_bytes_refines :
    (ops : List Op) (sb : SocketBuffer) (bytes : Bytes)
    → Holds sb bytes
    → All IsOp ops
    → length bytes + all_arriving ops < 2 ^ 31
    → run sb ops ≡ ok (run_bytes bytes ops)
unfolding run run_bytes
run_bytes_refines [] sb bytes w a small = refl
run_bytes_refines (op ∷ ops) sb bytes w a small =
    let s = step-Steps op sb bytes w a.0 (omega arith) in
    ap (λ o. o >>= λ r. run r.1 ops >>= λ outs. ok (r.0 ∷ outs)) s.steps
    ∙ ap (λ o. o >>= λ outs. ok ((step_bytes bytes op).0 ∷ outs))
        (run_bytes_refines ops s.after (step_bytes bytes op).1 s.holds a.1 (omega (arith, s.bound)))
