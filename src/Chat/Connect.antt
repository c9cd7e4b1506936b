-- ===== src/Chat/Connect.antt =====
-- `socket_connect` of chat_room/client/select.h.
pub mod Rounds
use sasy_server.Base.{
  ℕ, zero, suc, Bool, true, false, ◌&&◌, not, Option, none, some, ◌==◌, if◌then◌else◌, Outcome, ok,
  spent,
}
use sasy_server.Base.Int.{ℤ, pos, negsuc}

-- `rdevents`, `wrevents` and `exevents`: whether `client_fd` is in them.
pub record Sets : Type 0 where
  pub rdevents : Bool
  pub wrevents : Bool
  pub exevents : Bool

-- The sets before the loop.
abbrev pub all_sets : Sets
all_sets = record { rdevents = true; wrevents = true; exevents = true }

-- What `select` returns and what it leaves in the sets.
pub record Selected : Type 0 where
  pub retcode : ℤ
  pub sets : Sets

-- What the other calls return: SO_ERROR, if `getsockopt` gives it; and whether `fcntl` sets the flags.
pub record SocketCalls : Type 0 where
  pub so_error : Option ℕ
  pub flags_set : Bool

-- What `socket_connect` leaves: the process exits; -1; the socket, which blocks or not.
pub data Connected : Type 0 where
  exits : Connected
  failed : Connected
  success : Bool → Connected

-- The branch of the loop for a socket that is ready. The new flags are without O_NONBLOCK.
unfoldable pub when_ready : SocketCalls → Sets → Connected
when_ready calls sets =
    if not sets.rdevents && not sets.wrevents then failed else elim calls.so_error [
      | none ↦ failed
      | some err ↦ if err == 0 && calls.flags_set then success false else failed
    ]

-- What follows a `select`; `rest` is what the later rounds give.
unfoldable pub after_select : SocketCalls → ℤ → Sets → Outcome Connected → Outcome Connected
unfolding when_ready
after_select calls (negsuc n) sets rest = rest
after_select calls (pos zero) sets rest = rest
after_select calls (pos (suc n)) sets rest = ok (when_ready calls sets)

-- `while (1)`, with what `select` does in each round. Neither the sets nor `tvalue` are set again.
unfoldable pub select_loop : (ℕ → Sets → Selected) → SocketCalls → ℕ → ℕ → Sets → Outcome Connected
unfolding after_select
select_loop select calls zero round sets = spent
select_loop select calls (suc fuel) round sets =
    let r = select round sets in
    after_select calls r.retcode r.sets (select_loop select calls fuel (suc round) r.sets)

-- What `connect` gives.
pub data Started : Type 0 where
  at_once : Started
  in_progress : Started
  refused : Started

-- `created` is that there is a socket, and `nonblock` what `SetSocketNonblock` returns.
unfoldable pub socket_connect :
    (ℕ → Sets → Selected) → SocketCalls → ℕ → Bool → Bool → Started → Outcome Connected
unfolding select_loop
socket_connect select calls fuel false nonblock started = ok exits
socket_connect select calls fuel true nonblock at_once = ok (success nonblock)
socket_connect select calls fuel true nonblock refused = ok exits
socket_connect select calls fuel true nonblock in_progress =
    select_loop select calls fuel 0 all_sets
