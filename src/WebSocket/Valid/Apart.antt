-- ===== src/WebSocket/Valid/Apart.antt =====
-- The messages for one socket do not touch what has come of a packet of another.
use sasy_server.Base.{ℕ, ◌≡◌, ◌≢◌, refl, ◌∙◌, subst, Bool, List, Option, none, some, ok}
use sasy_server.WebSocket.Queue.{Uncomplete, Queue, Slot}
use sasy_server.WebSocket.Table.{find_uncomplete}
use sasy_server.WebSocket.Table.Lookup.{entry_of, entry_of-link_ne}
use sasy_server.WebSocket.Table.Apart.{
  FindsApart, find_uncomplete-FindsApart, entry_of-push_data, entry_of-save_uncomplete,
  entry_of-close_uncomplete,
}
use sasy_server.WebSocket.Gate.{Message, Event, lfilter}
use sasy_server.WebSocket.Valid.{SlotHolds, OutcomeHolds}
use sasy_server.WebSocket.Valid.Kept.{IsKept, FindsClear, IsClearSlot, SlotHolds-IsKept}
use sasy_server.WebSocket.Valid.Gate.{EventHolds, lfilter-EventHolds}
use sasy_server.WebSocket.Valid.Calls.{GateCall, run_gate, run_gate-IsQueue}

-- The queue holds, and `other` has the entry `entry`, if it has one.
abbrev KeepsEntry : ℕ → Option Uncomplete → Slot → Type 0
KeepsEntry other entry slot = SlotHolds slot × (entry_of slot other ≡ entry)

abbrev ClearKeepsEntry : ℕ → ℕ → Option Uncomplete → Slot → Type 0
ClearKeepsEntry fd other entry slot = IsClearSlot fd slot × (entry_of slot other ≡ entry)

KeepsEntry-IsKept :
    (fd other : ℕ) (entry : Option Uncomplete)
    → fd ≢ other
    → IsKept fd (KeepsEntry other entry) (ClearKeepsEntry fd other entry)
KeepsEntry-IsKept fd other entry ne =
    let k = SlotHolds-IsKept fd in
    record {
      good = λ slot c. (k.good slot c.0, c.1);
      pushes = λ slot p c. (k.pushes slot p c.0, entry_of-push_data slot p other ∙ c.1);
      saves = λ slot uc c i w.
          (k.saves slot uc c.0 i w, entry_of-save_uncomplete slot fd other uc i ne ∙ c.1);
      links = λ q uc c i w. (k.links q uc c.0 i w, entry_of-link_ne q fd other uc i ne ∙ c.1);
      finds = λ slot v.
          found slot v (find_uncomplete slot fd) (k.finds slot v.0)
            (find_uncomplete-FindsApart slot fd other ne);
      closes = λ slot v. (k.closes slot v.0, entry_of-close_uncomplete slot fd other ne ∙ v.1);
    }
  where
    found :
        (slot : Slot)
        → KeepsEntry other entry slot
        → (r : Option (Uncomplete × Queue)) → FindsClear fd SlotHolds (IsClearSlot fd) slot r
        → FindsApart other slot r
        → FindsClear fd (KeepsEntry other entry) (ClearKeepsEntry fd other entry) slot r
    found slot v none c a = (c, v.1)
    found slot v (some (uc, q)) (i, w, c) a = (i, w, (c, a ∙ v.1))

-- After every sequence of the gate's calls in which the code stays within its blocks, a message for one
-- socket, whatever it brings and if the code then stays within its blocks, leaves every other socket
-- the unfinished packet that it has, or leaves it without one.
pub lfilter-entry_of :
    (cs : List GateCall) (q : Queue) (message : Message) (handshake : Bool) (slot : Slot)
    (event : Event) (other : ℕ)
    → run_gate cs none ≡ ok (some q)
    → lfilter (some q) message handshake ≡ ok (slot, event)
    → message.id ≢ other
    → entry_of slot other ≡ entry_of (some q) other
lfilter-entry_of cs q message handshake slot event other r e ne =
    let entry = entry_of (some q) other in
    let kept = KeepsEntry-IsKept message.id other entry ne in
    let holds = run_gate-IsQueue cs q r in
    (subst
      (OutcomeHolds
        (EventHolds (KeepsEntry other entry) message (ClearKeepsEntry message.id other entry) kept))
      e
      (lfilter-EventHolds (KeepsEntry other entry) message (ClearKeepsEntry message.id other entry)
        kept (some q) handshake (holds, refl))).1
