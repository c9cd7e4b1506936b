-- ===== src/Chat/Session.antt =====
-- The two threads of chat_room/client/client.c, `main` and `thread_socket`, in any order of their turns.
pub mod Greets
pub mod Ends
use sasy_server.Base.{
  ℕ, suc, ◌-◌, Bool, true, false, List, [], ◌∷◌, ◌++◌, ◌==◌, if◌then◌else◌, Bytes, length, take,
  Option, none, some, Outcome, ok, fault, spent,
}
use sasy_server.Chat.Stream.{take_packets}
use sasy_server.Chat.Greet.{next_cmd, greeting}

-- Where `thread_socket` stands: at its `read`; behind a `read` that gave 0, before `_runflag = false`;
-- before `close`; in the inner loop, which has no end; behind an overrun of `tbuffer`; behind `close`.
pub data Reader : Type 0 where
  waiting : Reader
  ending : Reader
  closing : Reader
  caught : Reader
  overrun : Reader
  gone : Reader

-- Where `main` stands: at `if(!_runflag)`; behind it, before `write`; behind its loop, where the process
-- ends.
pub data Stage : Type 0 where
  at_check : Stage
  at_write : Stage
  left : Stage

-- Whether the process is there.
abbrev pub inside : Stage → Bool
inside at_check = true
inside at_write = true
inside left = false

-- `_runflag`, the thread with its buffer and the packets that it has handled, and the loop of `main`
-- with `data.header.cmd`, `iCount` and what the socket has taken.
pub record ChatProgram : Type 0 where
  pub runflag : Bool
  pub reader : Reader
  pub rbuffer : Bytes
  pub handled : List Bytes
  pub stage : Stage
  pub cmd : ℕ
  pub count : ℕ
  pub sent : Bytes

-- `main` before its loop.
abbrev pub new_session : ChatProgram
new_session = record {
  runflag = true;
  reader = waiting;
  rbuffer = [];
  handled = [];
  stage = at_check;
  cmd = 0;
  count = 0;
  sent = [];
}

-- What the kernel has for a `read`: -1 with EINTR; -1 with another error; bytes, none at the end.
pub data Incoming : Type 0 where
  interrupted : Incoming
  broken : Incoming
  coming : Bytes → Incoming

-- `sizeof(rbuffer)`
abbrev pub rbuffer_size : ℕ
rbuffer_size = 81920

-- What the inner loop leaves.
unfoldable pub keep : Outcome (List Bytes × Bytes) → ChatProgram → ChatProgram
keep (ok r) s = record s { rbuffer = r.1; handled = s.handled ++ r.0 }
keep fault s = record s { reader = overrun }
keep spent s = record s { reader = caught }

-- What follows a `read` that gave bytes or the end.
unfoldable pub take_in : Bytes → ChatProgram → ChatProgram
unfolding keep
take_in [] s = record s { reader = ending }
take_in (c ∷ cs) s =
    let rbuffer = s.rbuffer ++ c ∷ cs in keep (take_packets (suc (length rbuffer)) rbuffer) s

-- A `read` of `thread_socket` and what it does with the bytes alone. The kernel gives no more bytes than the buffer has room for.
unfoldable pub read_turn : Incoming → ChatProgram → ChatProgram
unfolding take_in
read_turn interrupted s = s
read_turn broken s = record s { reader = closing }
read_turn (coming bytes) s = take_in (take (rbuffer_size - length s.rbuffer) bytes) s

-- `if (size_send != size_pack)`
abbrev pub after_write : Bool → Stage
after_write true = at_check
after_write false = left

unfoldable pub send_turn : Bytes → Option ℕ → ChatProgram → ChatProgram
send_turn pack none s = record s { stage = left }
send_turn pack (some n) s = record s {
  stage = after_write (length (take n pack) == length pack);
  sent = s.sent ++ take n pack;
}

-- What `write` gives. A descriptor that the thread has closed is EBADF, as no other one is opened.
abbrev pub size_send : Reader → Option ℕ → Option ℕ
size_send gone taken = none
size_send _ taken = taken

-- A step of `main`: the test of the flag; or the packet and its `write`, with the number of bytes that the
-- socket takes if it is open (-1 is `none`).
unfoldable pub main_turn : ℕ → Option ℕ → Stage → ChatProgram → ChatProgram
unfolding send_turn
main_turn pid taken at_check s =
    if s.runflag then record s { stage = at_write } else record s { stage = left }
main_turn pid taken at_write s =
    send_turn (greeting pid (next_cmd s.cmd) s.count) (size_send s.reader taken)
      (record s { cmd = next_cmd s.cmd; count = suc s.count })
main_turn pid taken left s = s

pub data ChatTurn : Type 0 where
  main_goes : Option ℕ → ChatTurn
  thread_reads : Incoming → ChatTurn

-- A step of the thread: its `read`, `_runflag = false`, or `close`.
unfoldable pub thread_turn : Reader → Incoming → ChatProgram → ChatProgram
unfolding read_turn
thread_turn waiting incoming s = read_turn incoming s
thread_turn ending incoming s = record s { runflag = false; reader = closing }
thread_turn closing incoming s = record s { reader = gone }
thread_turn caught incoming s = s
thread_turn overrun incoming s = s
thread_turn gone incoming s = s

-- No thread has a turn when `main` has left its loop: the process is over.
unfoldable pub turn : ℕ → ChatTurn → ChatProgram → ChatProgram
unfolding main_turn thread_turn
turn pid (main_goes taken) s = if inside s.stage then main_turn pid taken s.stage s else s
turn pid (thread_reads incoming) s = if inside s.stage then thread_turn s.reader incoming s else s

unfoldable pub run_turns : ℕ → List ChatTurn → ChatProgram → ChatProgram
unfolding turn
run_turns pid [] s = s
run_turns pid (t ∷ turns) s = run_turns pid turns (turn pid t s)
