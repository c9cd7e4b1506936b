-- ===== src/WebSocket/Gate.antt =====
-- `lfilter` of game_room/luaclib-src/lua-websocketnetpack.c: the messages of skynet's socket thread.
use sasy_server.Base.{ℕ, ◌≡◌, refl, Bool, [], Bytes, Option, none, some, Outcome, ok, fault, ◌>>=◌}
use sasy_server.WebSocket.Queue.{Slot, Queue, Uncomplete}
use sasy_server.WebSocket.Table.{link, close_uncomplete}
use sasy_server.WebSocket.Table.Lookup.{find-link}
use sasy_server.WebSocket.Filter.{Reply, filter_data}

-- `message->type`, by the constants SKYNET_SOCKET_TYPE_*; any other one is `other`.
pub data MessageType : Type 0 where
  data_message : MessageType
  connect : MessageType
  close : MessageType
  accept : MessageType
  error : MessageType
  warning : MessageType
  other : MessageType

-- `struct skynet_socket_message` with the bytes behind it. With a buffer, `ud` is its length, so that
-- the list stands for both.
pub record Message : Type 0 where
  pub type : MessageType
  pub id : ℕ
  pub ud : ℕ
  pub buffer : Option Bytes
  pub padding : Bytes

-- What `lfilter` leaves on the Lua stack behind the queue.
pub data Event : Type 0 where
  nothing : Event
  filtered : Reply → Event
  closed : ℕ → Event
  opened : ℕ → Bytes → Event
  failed : ℕ → Bytes → Event
  warned : ℕ → ℕ → Event

-- The text behind a message. With a buffer, `size` is -1 and `lua_pushlstring` copies that much.
unfoldable pub padding_of : Message → Outcome Bytes
padding_of message = elim message.buffer [ none ↦ ok message.padding | some bytes ↦ fault ]

abbrev pub as_event : Slot × Reply → Outcome (Slot × Event)
as_event (slot, reply) = ok (slot, filtered reply)

unfoldable pub on_data : Option Bytes → Slot → ℕ → Bool → Outcome (Slot × Event)
on_data none slot id handshake = fault
on_data (some bytes) slot id handshake = filter_data slot id bytes handshake >>= as_event

unfoldable pub on_type : MessageType → Slot → Message → Bool → Outcome (Slot × Event)
unfolding on_data padding_of
on_type data_message slot message handshake = on_data message.buffer slot message.id handshake
on_type connect slot message handshake = ok (slot, nothing)
on_type close slot message handshake = ok (close_uncomplete slot message.id, closed message.id)
on_type accept slot message handshake =
    padding_of message >>= λ text. ok (slot, opened message.ud text)
on_type error slot message handshake =
    padding_of message >>= λ text. ok (close_uncomplete slot message.id, failed message.id text)
on_type warning slot message handshake = ok (slot, warned message.id message.ud)
on_type other slot message handshake = ok (slot, nothing)

unfoldable pub lfilter : Slot → Message → Bool → Outcome (Slot × Event)
unfolding on_type
lfilter slot message handshake = on_type message.type slot message handshake

-- `ltostring`: the string of a packet; `NULL` gives "". The block is freed.
unfoldable pub ltostring : Option Bytes → Bytes
ltostring none = []
ltostring (some bytes) = bytes

abbrev pub close_message : ℕ → Message
close_message fd = record { type = close; id = fd; ud = 0; buffer = none; padding = [] }

abbrev pub error_message : ℕ → Bytes → Message
error_message fd text = record { type = error; id = fd; ud = 0; buffer = none; padding = text }

close_uncomplete-link :
    (q : Queue) (fd : ℕ) (uc : Uncomplete)
    → uc.pack.id ≡ fd
    → close_uncomplete (some (link q fd uc)) fd ≡ some q
unfolding close_uncomplete
close_uncomplete-link q fd uc i = rw (find-link q fd uc i, close_uncomplete)

-- A message that closes a socket, and one that reports an error of it, both take the socket's
-- unfinished packet out of the table and change nothing else; the event names the socket.
pub lfilter-close :
    (q : Queue) (fd : ℕ) (uc : Uncomplete) (text : Bytes) (handshake : Bool)
    → uc.pack.id ≡ fd
    → (lfilter (some (link q fd uc)) (close_message fd) handshake ≡ ok (some q, closed fd))
      × (lfilter (some (link q fd uc)) (error_message fd text) handshake
          ≡ ok (some q, failed fd text))
unfolding lfilter
lfilter-close q fd uc text handshake i = rw (close_uncomplete-link q fd uc i) (refl, refl)
