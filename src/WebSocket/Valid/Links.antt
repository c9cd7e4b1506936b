-- ===== src/WebSocket/Valid/Links.antt =====
-- Entries that are found, linked and left alone.
use sasy_server.Base.{
  ℕ, ◌≡◌, ◌≢◌, ap, sym, subst, Bool-cases, inl, inr, List, [], ◌∷◌, All, ◌==◌, Option, none, some,
  update, update_self, update_ne, arith,
}
use native.Mathlib.Decide.{ℕ_discrete}
use sasy_server.WebSocket.Queue.{NetPack, Uncomplete, Queue, Slot, get_queue, push_data}
use sasy_server.WebSocket.Queue.Ring.{push_entry-IsValid}
use sasy_server.WebSocket.Table.Apart.{push_entry-hash}
use sasy_server.WebSocket.Table.{
  hash_fd, unlink, find_uncomplete, link, save_uncomplete, close_uncomplete,
}
use sasy_server.WebSocket.Valid.{
  IsEntry, IsOther, Distinct, IsBucket, IsQueue, SlotHolds, IsAbsent, SlotLacks,
}

abbrev AllFound : (Uncomplete → Type 0) → Option (Uncomplete × List Uncomplete) → Type 0
AllFound P none = Unit
AllFound P (some (uc, rest)) = P uc × All P rest

unlink-All :
    (P : Uncomplete → Type 0) (fd : ℕ) (bucket : List Uncomplete)
    → All P bucket
    → AllFound P (unlink fd bucket)
unfolding unlink
unlink-All P fd [] a = tt
unlink-All P fd (uc ∷ next) a = elim (Bool-cases (uc.pack.id == fd)) [
  | inl e ↦ rw e a
  | inr n ↦ rw n (behind (unlink fd next) (unlink-All P fd next a.1))
]
  where
    behind :
        (r : Option (Uncomplete × List Uncomplete))
        → AllFound P r
        → AllFound P (elim r [ none ↦ none | some (found, rest) ↦ some (found, uc ∷ rest) ])
    behind none f = tt
    behind (some (found, rest)) f = (f.0, (a.0, f.1))

-- What the walk along a list finds, and leaves, when no socket has two entries.
abbrev Unlinks : ℕ → List Uncomplete → Option (Uncomplete × List Uncomplete) → Type 0
Unlinks fd bucket none = All (IsOther fd) bucket
Unlinks fd bucket (some (uc, rest)) = (uc.pack.id ≡ fd) × Distinct rest × All (IsOther fd) rest

unlink-Unlinks :
    (fd : ℕ) (bucket : List Uncomplete) → Distinct bucket → Unlinks fd bucket (unlink fd bucket)
unfolding unlink
unlink-Unlinks fd [] d = tt
unlink-Unlinks fd (uc ∷ next) d = elim (Bool-cases (uc.pack.id == fd)) [
  | inl e ↦
      let same : uc.pack.id ≡ fd = ground (arith, e) in
      rw e (same, d.1, subst (λ i. All (IsOther i) next) same d.0)
  | inr n ↦
      let other : uc.pack.id ≢ fd = ground (arith, n) in
      rw n (
        behind (unlink fd next) other (unlink-Unlinks fd next d.1)
          (unlink-All (IsOther uc.pack.id) fd next d.0))
]
  where
    behind :
        (r : Option (Uncomplete × List Uncomplete))
        → uc.pack.id ≢ fd
        → Unlinks fd next r
        → AllFound (IsOther uc.pack.id) r
        → Unlinks fd
            (uc ∷ next)
            (elim r [ none ↦ none | some (found, rest) ↦ some (found, uc ∷ rest) ])
    behind none other u a = (other, u)
    behind (some (found, rest)) other (i, e, f) a = (i, (a.1, e), (other, f))

-- The queue with one list of its table replaced.
update-IsQueue :
    (q : Queue) (h : ℕ) (bucket : List Uncomplete)
    → IsQueue q
    → IsBucket h bucket
    → IsQueue (record q { hash = update q.hash h bucket })
update-IsQueue q h bucket v b = record {
  ring = record { head_in = v.ring.head_in; tail_in = v.ring.tail_in };
  table = λ j. elim (ℕ_discrete h j) [
    | yes e ↦
        subst (λ i. IsBucket i (update q.hash h bucket i)) e
          (subst (IsBucket h) (sym (update_self q.hash h bucket)) b)
    | no n ↦ subst (IsBucket j) (sym (update_ne q.hash h j bucket n)) (v.table j)
  ];
}

-- An entry that is found is whole, and its socket has no other one.
abbrev pub Finds : ℕ → Slot → Option (Uncomplete × Queue) → Type 0
Finds fd slot none = SlotLacks fd slot
Finds fd slot (some (uc, q)) = (uc.pack.id ≡ fd) × IsEntry uc × IsQueue q × IsAbsent fd q

pub find_uncomplete-Finds :
    (slot : Slot) (fd : ℕ) → SlotHolds slot → Finds fd slot (find_uncomplete slot fd)
unfolding find_uncomplete
find_uncomplete-Finds none fd v = tt
find_uncomplete-Finds (some q) fd v =
    let b = v.table (hash_fd fd) in
    let bucket = q.hash (hash_fd fd) in
    found (unlink fd bucket) (unlink-Unlinks fd bucket b.distinct)
      (unlink-All (λ uc. (hash_fd uc.pack.id ≡ hash_fd fd) × IsEntry uc) fd bucket b.belong)
  where
    found :
        (r : Option (Uncomplete × List Uncomplete))
        → Unlinks fd (q.hash (hash_fd fd)) r
        → AllFound (λ uc. (hash_fd uc.pack.id ≡ hash_fd fd) × IsEntry uc) r
        → Finds fd (some q) (elim r [
          | none ↦ none
          | some (uc, rest) ↦ some (uc, record q { hash = update q.hash (hash_fd fd) rest })
        ])
    found none u a = u
    found (some (uc, rest)) (i, distinct, absent) a = (
      i,
      a.0.1,
      update-IsQueue q (hash_fd fd) rest v (record { belong = a.1; distinct = distinct }),
      subst (All (IsOther fd)) (sym (update_self q.hash (hash_fd fd) rest)) absent,
    )

pub link-IsQueue :
    (q : Queue) (fd : ℕ) (uc : Uncomplete)
    → IsQueue q
    → IsAbsent fd q
    → uc.pack.id ≡ fd
    → IsEntry uc
    → IsQueue (link q fd uc)
unfolding link
link-IsQueue q fd uc v a i w =
    let b = v.table (hash_fd fd) in
    update-IsQueue q (hash_fd fd) (uc ∷ q.hash (hash_fd fd)) v (record {
      belong = ((ap hash_fd i, w), b.belong);
      distinct = (subst (λ j. All (IsOther j) (q.hash (hash_fd fd))) (sym i) a, b.distinct);
    })

-- A queue that is there or made.
get_queue-IsQueue :
    (slot : Slot) (fd : ℕ)
    → SlotHolds slot
    → SlotLacks fd slot
    → IsQueue (get_queue slot) × IsAbsent fd (get_queue slot)
unfolding get_queue
get_queue-IsQueue none fd v a =
    (record { ring = omega arith; table = λ h. record { belong = tt; distinct = tt } }, tt)
get_queue-IsQueue (some q) fd v a = (v, a)

pub push_data-IsQueue :
    (slot : Slot) (p : NetPack) (fd : ℕ)
    → SlotHolds slot
    → SlotLacks fd slot
    → IsQueue (push_data slot p) × IsAbsent fd (push_data slot p)
unfolding push_data
push_data-IsQueue slot p fd v a =
    let (w, b) = get_queue-IsQueue slot fd v a in
    let q = get_queue slot in
    let same = push_entry-hash q p in
    (
      record {
        ring = push_entry-IsValid q p w.ring;
        table = λ h. subst (λ t. IsBucket h (t h)) (sym same) (w.table h);
      },
      subst (λ t. All (IsOther fd) (t (hash_fd fd))) (sym same) b,
    )

pub save_uncomplete-IsQueue :
    (slot : Slot) (fd : ℕ) (uc : Uncomplete)
    → SlotHolds slot
    → SlotLacks fd slot
    → uc.pack.id ≡ fd
    → IsEntry uc
    → IsQueue (save_uncomplete slot fd uc)
unfolding save_uncomplete
save_uncomplete-IsQueue slot fd uc v a i w =
    let (x, b) = get_queue-IsQueue slot fd v a in link-IsQueue (get_queue slot) fd uc x b i w

pub close_uncomplete-SlotHolds :
    (slot : Slot) (fd : ℕ) → SlotHolds slot → SlotHolds (close_uncomplete slot fd)
unfolding close_uncomplete
close_uncomplete-SlotHolds slot fd v =
    closed (find_uncomplete slot fd) (find_uncomplete-Finds slot fd v)
  where
    closed :
        (r : Option (Uncomplete × Queue))
        → Finds fd slot r
        → SlotHolds (elim r [ none ↦ slot | some (uc, q) ↦ some q ])
    closed none f = v
    closed (some (uc, q)) f = f.2
