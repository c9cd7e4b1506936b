-- ===== src/WebSocket/Valid.antt =====
-- What holds of the queue of game_room/luaclib-src/lua-websocketnetpack.c between two calls.
pub mod Links
pub mod Kept
pub mod Fills
pub mod More
pub mod Filter
pub mod Gate
pub mod Calls
pub mod Apart
use sasy_server.Base.{
  ℕ, ◌<◌, ◌≤◌, ◌≡◌, ◌≢◌, List, [], ◌∷◌, All, length, none, some, Outcome, ok, fault, spent,
}
use sasy_server.Base.Int.{ℤ, pos, negsuc}
use sasy_server.WebSocket.Queue.{Uncomplete, Queue, Slot}
use sasy_server.WebSocket.Queue.Ring.{IsValid}
use sasy_server.WebSocket.Table.{hash_fd}
use sasy_server.WebSocket.Scan.{header_size}

-- An unfinished packet: with `read` -1 its header is not complete, and fits the field; else the
-- block holds `read` bytes, which are fewer than its size.
abbrev pub EntryHolds : ℤ → Uncomplete → Type 0
EntryHolds (pos n) uc = (n ≡ length uc.pack.buffer) × (n < uc.pack.size)
EntryHolds (negsuc n) uc = (n ≡ 0) × (length uc.header ≤ header_size)

abbrev pub IsEntry : Uncomplete → Type 0
IsEntry uc = EntryHolds uc.read uc

-- The entry is not one of the socket `fd`.
abbrev pub IsOther : ℕ → Uncomplete → Type 0
IsOther fd uc = uc.pack.id ≢ fd

abbrev pub Distinct : List Uncomplete → Type 0
Distinct [] = Unit
Distinct (uc ∷ next) = All (IsOther uc.pack.id) next × Distinct next

-- A list of the table: the entries belong there, and no socket has two.
pub record IsBucket (h : ℕ) (bucket : List Uncomplete) : Type 0 where
  pub belong : All (λ uc. (hash_fd uc.pack.id ≡ h) × IsEntry uc) bucket
  pub distinct : Distinct bucket

pub record IsQueue (q : Queue) : Type 0 where
  pub ring : IsValid q
  pub table : (h : ℕ) → IsBucket h (q.hash h)

abbrev pub SlotHolds : Slot → Type 0
SlotHolds none = Unit
SlotHolds (some q) = IsQueue q

-- The socket has no entry.
abbrev pub IsAbsent : ℕ → Queue → Type 0
IsAbsent fd q = All (IsOther fd) (q.hash (hash_fd fd))

abbrev pub SlotLacks : ℕ → Slot → Type 0
SlotLacks fd none = Unit
SlotLacks fd (some q) = IsAbsent fd q

abbrev pub OutcomeHolds {ℓ} : {A : Type ℓ} → (A → Type 0) → Outcome A → Type 0
OutcomeHolds P (ok a) = P a
OutcomeHolds P fault = Unit
OutcomeHolds P spent = Unit
