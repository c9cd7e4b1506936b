-- ===== src/WebSocket/Valid/Gate.antt =====
-- `lfilter` keeps what the queue's operations keep.
use sasy_server.Base.{Bool, Bytes, Option, none, some, Outcome, ok, fault, spent, ◌>>=◌}
use sasy_server.WebSocket.Queue.{Slot}
use sasy_server.WebSocket.Table.{close_uncomplete}
use sasy_server.WebSocket.Filter.{Reply, filter_data}
use sasy_server.WebSocket.Gate.{
  MessageType, data_message, connect, close, accept, error, warning, other, Message, Event, opened,
  failed, padding_of, as_event, on_data, on_type, lfilter,
}
use sasy_server.WebSocket.Valid.{OutcomeHolds}
use sasy_server.WebSocket.Valid.Kept.{IsKept}
use sasy_server.WebSocket.Valid.Filter.{ReplyHolds, filter_data-IsKept}

-- What the data of the socket keep, the messages for it keep.
module _ (IsGood : Slot → Type 0) (message : Message) (IsClear : Slot → Type 0)
    (kept : IsKept message.id IsGood IsClear) where
  -- The queue that comes with an event.
  abbrev pub EventHolds : Slot × Event → Type 0
  EventHolds (slot, event) = IsGood slot

  on_data-EventHolds :
      (bytes : Option Bytes) (slot : Slot) (handshake : Bool)
      → IsGood slot
      → OutcomeHolds EventHolds (on_data bytes slot message.id handshake)
  unfolding on_data
  on_data-EventHolds none slot handshake v = tt
  on_data-EventHolds (some bytes) slot handshake v =
      of_reply (filter_data slot message.id bytes handshake)
        (filter_data-IsKept message.id IsGood IsClear kept slot bytes handshake v)
    where
      of_reply :
          (o : Outcome (Slot × Reply))
          → OutcomeHolds (ReplyHolds message.id IsGood IsClear kept) o
          → OutcomeHolds EventHolds (o >>= as_event)
      of_reply (ok (slot', r)) h = h
      of_reply fault h = tt
      of_reply spent h = tt

  with_text :
      (slot : Slot) (event : Bytes → Event) (o : Outcome Bytes)
      → IsGood slot
      → OutcomeHolds EventHolds (o >>= λ text. ok (slot, event text))
  with_text slot event (ok text) v = v
  with_text slot event fault v = tt
  with_text slot event spent v = tt

  on_type-EventHolds :
      (type : MessageType) (slot : Slot) (handshake : Bool)
      → IsGood slot
      → OutcomeHolds EventHolds (on_type type slot message handshake)
  unfolding on_type
  on_type-EventHolds data_message slot handshake v =
      on_data-EventHolds message.buffer slot handshake v
  on_type-EventHolds connect slot handshake v = v
  on_type-EventHolds close slot handshake v = kept.closes slot v
  on_type-EventHolds accept slot handshake v =
      with_text slot (λ text. opened message.ud text) (padding_of message) v
  on_type-EventHolds error slot handshake v =
      with_text (close_uncomplete slot message.id) (λ text. failed message.id text)
        (padding_of message) (kept.closes slot v)
  on_type-EventHolds warning slot handshake v = v
  on_type-EventHolds other slot handshake v = v

  pub lfilter-EventHolds :
      (slot : Slot) (handshake : Bool)
      → IsGood slot
      → OutcomeHolds EventHolds (lfilter slot message handshake)
  unfolding lfilter
  lfilter-EventHolds slot handshake v = on_type-EventHolds message.type slot handshake v
