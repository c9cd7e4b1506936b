-- ===== src/WebSocket/Valid/Kept.antt =====
-- What a property of the queue needs, to be kept by the calls for the data of a socket.
use sasy_server.Base.{ℕ, ◌≡◌, Option, none, some}
use sasy_server.WebSocket.Queue.{NetPack, Uncomplete, Queue, Slot, push_data}
use sasy_server.WebSocket.Table.{find_uncomplete, link, save_uncomplete, close_uncomplete}
use sasy_server.WebSocket.Valid.{IsEntry, SlotHolds, SlotLacks}
use sasy_server.WebSocket.Valid.Links.{
  find_uncomplete-Finds, link-IsQueue, push_data-IsQueue, save_uncomplete-IsQueue,
  close_uncomplete-SlotHolds, Finds,
}

-- `IsGood` holds between two calls, and `IsClear` while the socket `fd` has no entry in the table.
module _ (fd : ℕ) (IsGood IsClear : Slot → Type 0) where
  abbrev pub FindsClear : Slot → Option (Uncomplete × Queue) → Type 0
  FindsClear slot none = IsClear slot
  FindsClear slot (some (uc, q)) = (uc.pack.id ≡ fd) × IsEntry uc × IsClear (some q)

  pub record IsKept : Type 0 where
    pub good : (slot : Slot) → IsClear slot → IsGood slot
    pub pushes : (slot : Slot) (p : NetPack) → IsClear slot → IsClear (some (push_data slot p))
    pub saves :
        (slot : Slot) (uc : Uncomplete)
        → IsClear slot
        → uc.pack.id ≡ fd
        → IsEntry uc
        → IsGood (some (save_uncomplete slot fd uc))
    pub links :
        (q : Queue) (uc : Uncomplete)
        → IsClear (some q)
        → uc.pack.id ≡ fd
        → IsEntry uc
        → IsGood (some (link q fd uc))
    pub finds : (slot : Slot) → IsGood slot → FindsClear slot (find_uncomplete slot fd)
    pub closes : (slot : Slot) → IsGood slot → IsGood (close_uncomplete slot fd)

abbrev pub IsClearSlot : ℕ → Slot → Type 0
IsClearSlot fd slot = SlotHolds slot × SlotLacks fd slot

-- The queue itself is kept.
pub SlotHolds-IsKept : (fd : ℕ) → IsKept fd SlotHolds (IsClearSlot fd)
SlotHolds-IsKept fd = record {
  good = λ slot c. c.0;
  pushes = λ slot p c. push_data-IsQueue slot p fd c.0 c.1;
  saves = λ slot uc c i w. save_uncomplete-IsQueue slot fd uc c.0 c.1 i w;
  links = λ q uc c i w. link-IsQueue q fd uc c.0 c.1 i w;
  finds = λ slot v. found slot v (find_uncomplete slot fd) (find_uncomplete-Finds slot fd v);
  closes = λ slot v. close_uncomplete-SlotHolds slot fd v;
}
  where
    found :
        (slot : Slot)
        → SlotHolds slot
        → (r : Option (Uncomplete × Queue)) → Finds fd slot r
        → FindsClear fd SlotHolds (IsClearSlot fd) slot r
    found slot v none a = (v, a)
    found slot v (some (uc, q)) (i, w, x, a) = (i, w, (x, a))
