-- ===== src/Chat/ClientTests.antt =====
-- Runs of the chat client.
use sasy_server.Base.{
  ℕ, zero, suc, ◌<◌, ◌≡◌, ◌&&◌, refl, List, [], ◌∷◌, ◌++◌, take, joined, Bool, true, false,
  if◌then◌else◌, some, none, ok, arith,
}
use sasy_server.Base.Int.{pos, negsuc}
use sasy_server.Chat.Buffer.{new_buffer}
use sasy_server.Chat.Greet.Served.{greetings, serve, lines, serve-greetings}
use sasy_server.Chat.Session.{
  new_session, inside, interrupted, coming, ChatTurn, main_goes, thread_reads, run_turns,
}
use sasy_server.Chat.Session.Greets.{greeting_after, run_turns-greetings}
use sasy_server.Chat.Session.Ends.{Stops, behind, run_turns-closed}
use sasy_server.Chat.Connect.{
  Sets, all_sets, Selected, SocketCalls, success, in_progress, when_ready, socket_connect,
}
use sasy_server.Chat.Connect.Rounds.{IsDocumented, is_error, one, socket_connect-worth}

serve-greetings_example :
    serve (some new_buffer) (greetings 4711 0 0 3) ≡ ok (lines 4711 0 3, some new_buffer)
serve-greetings_example = serve-greetings 4711 3 (omega arith)

-- Two greetings with a read between the steps, of a part of a head, and a third of which five bytes are
-- taken.
abbrev turns : List ChatTurn
turns =
    main_goes none
    ∷ main_goes (some 64)
    ∷ main_goes none
    ∷ thread_reads (coming (1 ∷ 2 ∷ 3 ∷ []))
    ∷ main_goes (some 64)
    ∷ main_goes none
    ∷ main_goes (some 5)
    ∷ main_goes none
    ∷ []

run_turns-greetings_example :
    (n : ℕ) × (part : ℕ) × ((run_turns 4711 turns new_session).sent
      ≡ joined (greetings 4711 0 0 n)
        ++ (if inside (run_turns 4711 turns new_session).stage
            then []
            else take part (greeting_after 4711 0 0 n)))
run_turns-greetings_example = run_turns-greetings 4711 turns (omega arith)

-- The stream ends when `main` is behind its test of the flag.
run_turns-closed_example :
    Stops 4711 (coming []) turns (behind 4711 (coming []) (none ∷ []) interrupted new_session)
run_turns-closed_example =
    run_turns-closed 4711 (coming []) interrupted (none ∷ []) turns new_session refl refl refl

-- A signal comes first; then the socket can be written.
abbrev select_once : ℕ → Sets → Selected
select_once zero s = record { retcode = negsuc 0; sets = s }
select_once (suc n) s = record {
  retcode = pos (one s.wrevents);
  sets = record { rdevents = false; wrevents = s.wrevents; exevents = false };
}

and_self : (b : Bool) → (b && b) ≡ b
and_self true = refl
and_self false = refl

select_once-IsDocumented : (round : ℕ) (s : Sets) → IsDocumented s (select_once round s)
select_once-IsDocumented zero s = refl
select_once-IsDocumented (suc n) s = (omega arith, (refl, and_self s.wrevents, refl))

abbrev calm : SocketCalls
calm = record { so_error = some 0; flags_set = true }

signal_first : (k : ℕ) → k < 1 → is_error (select_once k all_sets).retcode ≡ true
signal_first zero h = refl
signal_first (suc k) h = absurd (omega arith)

socket_connect-worth_example :
    socket_connect select_once calm 2 true true in_progress ≡ ok (success false)
unfolding when_ready
socket_connect-worth_example =
    socket_connect-worth select_once calm select_once-IsDocumented 1 2 true (omega arith)
      signal_first refl
