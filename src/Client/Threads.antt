-- ===== src/Client/Threads.antt =====
-- The threads of game_room/client/httpclient.c, and the end of its `main`.
pub mod Close
pub mod Shutdown
use sasy_server.Base.{ℕ, ◌+◌, Bool, true, false, not, List, [], ◌∷◌, ◌==◌, if◌then◌else◌, update}

abbrev pub threadcount : ℕ
threadcount = 1024

-- The threads that `main` starts, in their slots: `thread_gate_http`, `thread_gate_write` and
-- `thread_gate_read`.
abbrev pub postcount : ℕ
postcount = 3

pub data Standing : Type 0 where
  unstarted : Standing
  running : Standing
  ended : Standing

abbrev pub is_running : Standing → Bool
is_running unstarted = false
is_running running = true
is_running ended = false

-- Where `main` stands: at `ithread`; at the flag `i` of its last loop; behind it, where the socket is
-- closed.
pub data Phase : Type 0 where
  starting : ℕ → Phase
  scanning : ℕ → Phase
  over : Phase

-- `_runflag`, the threads, `_flag_gate_socket_close` and `main`.
pub record Program : Type 0 where
  pub runflag : ℕ → Bool
  pub threads : ℕ → Standing
  pub gate_socket_close : Bool
  pub phase : Phase

-- `main` behind its first loop.
abbrev pub all_clear : Program
all_clear = record {
  runflag = λ i. false;
  threads = λ i. unstarted;
  gate_socket_close = false;
  phase = starting 0;
}

-- `_runflag[ithread] = true;` and `create_thread`, or `continue`.
abbrev pub create : ℕ → Program → Program
create k s = if s.runflag k then record s { phase = starting (k + 1) } else record s {
  runflag = update s.runflag k true;
  threads = update s.threads k running;
  phase = starting (k + 1);
}

-- Before the second thread is started `main` connects to the gate; `connected` is `fd_gate_tcp > 0`.
abbrev pub connect : Bool → ℕ → Program → Program
connect connected k s = if k == 1 then record s { gate_socket_close = not connected } else s

-- `if(_runflag[i])`: a thread that runs sends the loop to its start after a pause.
abbrev pub scan : ℕ → Program → Program
scan i s =
    if i == threadcount
    then record s { phase = over }
    else if s.runflag i
    then record s { phase = scanning 0 }
    else record s { phase = scanning (i + 1) }

abbrev pub main_in : Bool → Phase → Program → Program
main_in connected (starting k) s =
    if k == postcount then record s { phase = scanning 0 } else create k (connect connected k s)
main_in connected (scanning i) s = scan i s
main_in connected over s = s

-- `_runflag[id] = false;` at the end of a thread.
abbrev pub exit_thread : ℕ → Program → Program
exit_thread id s =
    if is_running (s.threads id)
    then record s { runflag = update s.runflag id false; threads = update s.threads id ended }
    else s

-- `rsize == 0` in `thread_gate_read`
abbrev pub read_close : Program → Program
read_close s =
    if is_running (s.threads 2) then exit_thread 2 (record s { gate_socket_close = true }) else s

-- `if (_flag_gate_socket_close == true)` in `thread_gate_write`
abbrev pub write_turn : Program → Program
write_turn s = if s.gate_socket_close then exit_thread 1 s else s

-- A turn of `main`; a thread that ends for an error of its socket, or as it is done; the server's end of
-- the connection; a round of `thread_gate_write`.
pub data Event : Type 0 where
  main_turns : Bool → Event
  exits : ℕ → Event
  server_closes : Event
  writer_turns : Event

unfoldable pub happen : Event → Program → Program
happen (main_turns connected) s = main_in connected s.phase s
happen (exits id) s = exit_thread id s
happen server_closes s = read_close s
happen writer_turns s = write_turn s

-- Any order of the turns.
unfoldable pub run_events : List Event → Program → Program
unfolding happen
run_events [] s = s
run_events (e ∷ events) s = run_events events (happen e s)
