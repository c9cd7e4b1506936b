-- ===== src/Poll.antt =====
-- testsocket/server.c: a server that waits for its clients with `select`.
pub mod Count
pub mod Echo
mod Tests
use sasy_server.Base.{
  ℕ, zero, suc, ◌+◌, ◌-◌, ◌^◌, Bool, true, false, List, [], ◌∷◌, ◌++◌, ltb, ◌==◌, if◌then◌else◌,
  Bytes, length, drop, u32, Option, none, some, Outcome, ok, fault, ◌>>=◌,
}

-- `MAX_CLIENT_COUNT`
abbrev pub max_client_count : ℕ
max_client_count = 1024

-- `clients_fd`, in which -1 is `none`, and `iClientCount` as the pattern of an `int`; and the sockets
-- that were closed, in their order.
pub record Server : Type 0 where
  pub clients_fd : List (Option ℕ)
  pub client_count : ℕ
  pub closed : List ℕ

abbrev pub empty_slots : ℕ → List (Option ℕ)
empty_slots zero = []
empty_slots (suc n) = none ∷ empty_slots n

-- The state before the loop of `main`.
abbrev pub new_server : Server
new_server = record { clients_fd = empty_slots max_client_count; client_count = 0; closed = [] }

-- `for (; i < MAX_CLIENT_COUNT; ++i)` of `accpet_client`
unfoldable pub into_slot : List (Option ℕ) → ℕ → Option (List (Option ℕ))
into_slot [] client_fd = none
into_slot (none ∷ slots) client_fd = some (some client_fd ∷ slots)
into_slot (some fd ∷ slots) client_fd = elim (into_slot slots client_fd) [
  | none ↦ none
  | some slots' ↦ some (some fd ∷ slots')
]

-- `accpet_client`, with what `accept` returns (-1 is `none`).
unfoldable pub accept_client : Option ℕ → Server → Server
accept_client none s = s
accept_client (some client_fd) s = elim (into_slot s.clients_fd client_fd) [
  | some slots ↦ record s { clients_fd = slots; client_count = u32 (s.client_count + 1) }
  | none ↦ record s { closed = s.closed ++ (client_fd ∷ []) }
]

-- `strlen`: the bytes before the first zero.
abbrev pub c_text : Bytes → Bytes
c_text [] = []
c_text (c ∷ cs) = if c == 0 then [] else c ∷ c_text cs

-- `sizeof(buf)`
abbrev pub buf_size : ℕ
buf_size = 65535

-- `handle_client_msg`: the bytes that are written back. `buf` is the front of the array, with zero bytes
-- behind it; without any, `strlen` reads on.
unfoldable pub handle_client_msg : Bytes → Outcome Bytes
handle_client_msg buf = if ltb (length (c_text buf)) buf_size then ok (c_text buf) else fault

-- What `select` and the kernel do in a round: which sockets can be read, and what `read` gives for each,
-- which is `none` where it returns 0 or less, and at most 65535 bytes. No two slots have one socket,
-- so that `FD_CLR` changes nothing for the slots behind.
pub record Kernel : Type 0 where
  pub is_set : ℕ → Bool
  pub read : ℕ → Option Bytes

-- What a round has done so far.
pub record Served : Type 0 where
  pub slots : List (Option ℕ)
  pub gone : List ℕ
  pub echoes : List (ℕ × Bytes)

abbrev pub kept : Option ℕ → Served → Served
kept slot r = record r { slots = slot ∷ r.slots }

abbrev pub echoed : ℕ → Bytes → Served → Served
echoed fd bytes r = record {
  slots = some fd ∷ r.slots;
  gone = r.gone;
  echoes = (fd, bytes) ∷ r.echoes;
}

abbrev pub dropped : ℕ → Served → Served
dropped fd r = record { slots = none ∷ r.slots; gone = fd ∷ r.gone; echoes = r.echoes }

-- `for (size_t i = 0; i < MAX_CLIENT_COUNT; ++i)` of `recv_client_msg`. `buf` is not cleared between the
-- clients: a read writes over the front of it.
unfoldable pub recv_loop : Kernel → List (Option ℕ) → Bytes → Outcome Served
unfolding handle_client_msg
recv_loop kernel [] buf = ok (record { slots = []; gone = []; echoes = [] })
recv_loop kernel (none ∷ slots) buf = recv_loop kernel slots buf >>= λ r. ok (kept none r)
recv_loop kernel (some fd ∷ slots) buf =
    if kernel.is_set fd
    then elim (kernel.read fd) [
      | none ↦ recv_loop kernel slots buf >>= λ r. ok (dropped fd r)
      | some bytes ↦ handle_client_msg (bytes ++ drop (length bytes) buf) >>= λ text.
          recv_loop kernel slots (bytes ++ drop (length bytes) buf) >>= λ r. ok (echoed fd text r)
    ]
    else recv_loop kernel slots buf >>= λ r. ok (kept (some fd) r)

-- `recv_client_msg`: the server afterwards, and the texts that are written.
unfoldable pub recv_client_msg : Kernel → Server → Outcome (Server × List (ℕ × Bytes))
unfolding recv_loop
recv_client_msg kernel s = recv_loop kernel s.clients_fd [] >>= λ r. ok (
  record {
    clients_fd = r.slots;
    client_count = u32 (s.client_count + 2 ^ 32 - length r.gone);
    closed = s.closed ++ r.gone;
  },
  r.echoes,
)

-- A round of the loop in `main` in which `select` returns more than 0: with a connection at `listen_fd`
-- it accepts one first. What `accept` returns is `none` where it fails.
unfoldable pub round : Option (Option ℕ) → Kernel → Server → Outcome (Server × List (ℕ × Bytes))
unfolding accept_client recv_client_msg
round none kernel s = recv_client_msg kernel s
round (some accepted) kernel s = recv_client_msg kernel (accept_client accepted s)
