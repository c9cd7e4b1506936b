-- ===== src/WebSocket/Valid/Calls.antt =====
-- Every sequence of calls of `lfilter`, `lpop` and `lclear` keeps the queue.
use sasy_server.Base.{
  ◌≡◌, subst, Bool, Bool-cases, inl, inr, List, [], ◌∷◌, ◌==◌, none, some, Outcome, ok, fault,
  spent, ◌>>=◌, arith,
}
use sasy_server.WebSocket.Queue.{Queue, Slot, lpop, lclear}
use sasy_server.WebSocket.Gate.{Message, Event, lfilter}
use sasy_server.WebSocket.Valid.{IsQueue, SlotHolds, OutcomeHolds}
use sasy_server.WebSocket.Valid.Gate.{EventHolds, lfilter-EventHolds}
use sasy_server.WebSocket.Valid.Kept.{IsClearSlot, SlotHolds-IsKept}

-- What the gate does: a message of the socket thread, with the flag of the handshake; a packet that is
-- taken; the end of the service.
pub data GateCall : Type 0 where
  filters : Message → Bool → GateCall
  pops : GateCall
  clears : GateCall

abbrev pub slot_of {ℓ} : {A : Type ℓ} → Outcome (Slot × A) → Outcome Slot
slot_of (ok (slot, a)) = ok slot
slot_of fault = fault
slot_of spent = spent

abbrev pub gate_call : GateCall → Slot → Outcome Slot
gate_call (filters message handshake) slot = slot_of (lfilter slot message handshake)
gate_call pops slot = ok (lpop slot).1
gate_call clears slot = ok (lclear slot).1

unfoldable pub run_gate : List GateCall → Slot → Outcome Slot
run_gate [] slot = ok slot
run_gate (c ∷ cs) slot = gate_call c slot >>= run_gate cs

lpop-SlotHolds : (slot : Slot) → SlotHolds slot → SlotHolds (lpop slot).1
unfolding lpop
lpop-SlotHolds none v = tt
lpop-SlotHolds (some q) v = elim (Bool-cases (q.head == q.tail)) [
  | inl e ↦ rw e v
  | inr n ↦ rw n (record {
    ring = record { head_in = ground (arith, v.ring.head_in); tail_in = v.ring.tail_in };
    table = v.table;
  })
]

lclear-SlotHolds : (slot : Slot) → SlotHolds slot → SlotHolds (lclear slot).1
unfolding lclear
lclear-SlotHolds none v = tt
lclear-SlotHolds (some q) v = record {
  ring = omega (arith, v.ring.head_in);
  table = λ h. record { belong = tt; distinct = tt };
}

gate_call-SlotHolds :
    (c : GateCall) (slot : Slot) → SlotHolds slot → OutcomeHolds SlotHolds (gate_call c slot)
gate_call-SlotHolds (filters message handshake) slot v = of_event (lfilter slot message handshake) (
    lfilter-EventHolds SlotHolds message (IsClearSlot message.id) (SlotHolds-IsKept message.id) slot
      handshake v)
  where
    of_event :
        (o : Outcome (Slot × Event))
        → OutcomeHolds
            (EventHolds SlotHolds message (IsClearSlot message.id) (SlotHolds-IsKept message.id))
            o
        → OutcomeHolds SlotHolds (slot_of o)
    of_event (ok (slot', e)) h = h
    of_event fault h = tt
    of_event spent h = tt
gate_call-SlotHolds pops slot v = lpop-SlotHolds slot v
gate_call-SlotHolds clears slot v = lclear-SlotHolds slot v

run_gate-SlotHolds :
    (cs : List GateCall) (slot : Slot) → SlotHolds slot → OutcomeHolds SlotHolds (run_gate cs slot)
unfolding run_gate
run_gate-SlotHolds [] slot v = v
run_gate-SlotHolds (c ∷ cs) slot v =
    next (gate_call c slot) (gate_call-SlotHolds c slot v) (run_gate-SlotHolds cs)
  where
    next :
        (o : Outcome Slot)
        → OutcomeHolds SlotHolds o
        → ((s : Slot) → SlotHolds s → OutcomeHolds SlotHolds (run_gate cs s))
        → OutcomeHolds SlotHolds (o >>= run_gate cs)
    next (ok s) h k = k s h
    next fault h k = tt
    next spent h k = tt

-- After every sequence of the gate's calls, from the start of the service on and with whatever the
-- sockets bring, in which the code stays within its blocks: the ring's head and tail are indices of it,
-- each unfinished packet stands in the list of its own socket, no socket has two, a header that is not
-- complete fits its field, and a packet that is not complete has fewer bytes than its size.
pub run_gate-IsQueue : (cs : List GateCall) (q : Queue) → run_gate cs none ≡ ok (some q) → IsQueue q
run_gate-IsQueue cs q e = subst (OutcomeHolds SlotHolds) e (run_gate-SlotHolds cs none tt)
