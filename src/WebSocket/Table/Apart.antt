-- ===== src/WebSocket/Table/Apart.antt =====
-- What is done to the entry of one socket leaves those of the others.
use sasy_server.Base.{
  ℕ, ◌≡◌, ◌≢◌, refl, ap, ◌∙◌, sym, false, Bool-cases, inl, inr, List, [], ◌∷◌, ◌==◌, if◌then◌else◌,
  Option, none, some, update, update_self, update_ne, arith,
}
use native.Mathlib.Decide.{ℕ_discrete}
use sasy_server.WebSocket.Queue.{
  NetPack, Uncomplete, Queue, Slot, get_queue, expand_queue, push_entry, push_data,
}
use sasy_server.WebSocket.Table.{
  hash_fd, unlink, find_uncomplete, save_uncomplete, close_uncomplete,
}
use sasy_server.WebSocket.Table.Lookup.{entry_of, entry_of-link_ne}

abbrev first : Option (Uncomplete × List Uncomplete) → Option Uncomplete
first none = none
first (some (uc, rest)) = some uc

entry_of-first :
    (q : Queue) (fd : ℕ) → entry_of (some q) fd ≡ first (unlink fd (q.hash (hash_fd fd)))
unfolding entry_of find_uncomplete
entry_of-first q fd = of_walk (unlink fd (q.hash (hash_fd fd)))
  where
    left_of : Option (Uncomplete × List Uncomplete) → Option (Uncomplete × Queue)
    left_of r = elim r [
      | none ↦ none
      | some (uc, rest) ↦ some (uc, record q { hash = update q.hash (hash_fd fd) rest })
    ]

    of_walk :
        (r : Option (Uncomplete × List Uncomplete))
        → elim (left_of r) as (λ x. Option Uncomplete) [ none ↦ none | some (uc, q') ↦ some uc ]
          ≡ first r
    of_walk none = refl
    of_walk (some (uc, rest)) = refl

-- The first entry of `other`, in a list and behind an entry in front of it.
first_behind :
    (other : ℕ) (uc : Uncomplete) (next : List Uncomplete)
    → first (unlink other (uc ∷ next))
      ≡ (if uc.pack.id == other then some uc else first (unlink other next))
unfolding unlink
first_behind other uc next = elim (Bool-cases (uc.pack.id == other)) [
  | inl e ↦ rw e refl
  | inr n ↦ rw n (still (unlink other next))
]
  where
    still :
        (r : Option (Uncomplete × List Uncomplete))
        → first (elim r [ none ↦ none | some (found, rest) ↦ some (found, uc ∷ rest) ]) ≡ first r
    still none = refl
    still (some (found, rest)) = refl

-- What the walk for `fd` leaves has the same entry of `other`.
abbrev SameFirst : ℕ → List Uncomplete → Option (Uncomplete × List Uncomplete) → Type 0
SameFirst other bucket none = Unit
SameFirst other bucket (some (uc, rest)) = first (unlink other rest) ≡ first (unlink other bucket)

unlink-SameFirst :
    (fd other : ℕ) (bucket : List Uncomplete)
    → fd ≢ other
    → SameFirst other bucket (unlink fd bucket)
unfolding unlink
unlink-SameFirst fd other [] ne = tt
unlink-SameFirst fd other (uc ∷ next) ne = elim (Bool-cases (uc.pack.id == fd)) [
  | inl e ↦
      let another : (uc.pack.id == other) ≡ false = ground (arith, e, ne) in
      rw e (
        sym (
          first_behind other uc next
          ∙ ap (λ b. if b then some uc else first (unlink other next)) another))
  | inr n ↦ rw n (behind (unlink fd next) (unlink-SameFirst fd other next ne))
]
  where
    behind :
        (r : Option (Uncomplete × List Uncomplete))
        → SameFirst other next r
        → SameFirst other
            (uc ∷ next)
            (elim r [ none ↦ none | some (found, rest) ↦ some (found, uc ∷ rest) ])
    behind none s = tt
    behind (some (found, rest)) s =
        first_behind other uc rest
        ∙ ap (λ o. if uc.pack.id == other then some uc else o) s
        ∙ sym (first_behind other uc next)

entry_of-hash :
    (q r : Queue) (other : ℕ)
    → r.hash (hash_fd other) ≡ q.hash (hash_fd other)
    → entry_of (some r) other ≡ entry_of (some q) other
entry_of-hash q r other e =
    entry_of-first r other ∙ ap (λ b. first (unlink other b)) e ∙ sym (entry_of-first q other)

-- An entry that is found is one of its socket, and the others keep theirs.
abbrev pub FindsApart : ℕ → Slot → Option (Uncomplete × Queue) → Type 0
FindsApart other slot none = Unit
FindsApart other slot (some (uc, q)) = entry_of (some q) other ≡ entry_of slot other

pub find_uncomplete-FindsApart :
    (slot : Slot) (fd other : ℕ) → fd ≢ other → FindsApart other slot (find_uncomplete slot fd)
unfolding find_uncomplete
find_uncomplete-FindsApart none fd other ne = tt
find_uncomplete-FindsApart (some q) fd other ne =
    found (unlink fd (q.hash (hash_fd fd))) (unlink-SameFirst fd other (q.hash (hash_fd fd)) ne)
  where
    found :
        (r : Option (Uncomplete × List Uncomplete))
        → SameFirst other (q.hash (hash_fd fd)) r
        → FindsApart other (some q) (elim r [
          | none ↦ none
          | some (uc, rest) ↦ some (uc, record q { hash = update q.hash (hash_fd fd) rest })
        ])
    found none s = tt
    found (some (uc, rest)) s = elim (ℕ_discrete (hash_fd fd) (hash_fd other)) [
      | no n ↦
          entry_of-hash q (record q { hash = update q.hash (hash_fd fd) rest }) other
            (update_ne q.hash (hash_fd fd) (hash_fd other) rest n)
      | yes e ↦
          entry_of-first (record q { hash = update q.hash (hash_fd fd) rest }) other
          ∙ ap (λ b. first (unlink other b))
              (ap (update q.hash (hash_fd fd) rest) (sym e) ∙ update_self q.hash (hash_fd fd) rest)
          ∙ s
          ∙ ap (λ h. first (unlink other (q.hash h))) e
          ∙ sym (entry_of-first q other)
    ]

pub push_entry-hash : (q : Queue) (p : NetPack) → (push_entry q p).hash ≡ q.hash
unfolding push_entry expand_queue
push_entry-hash q p = ground arith

entry_of-get_queue :
    (slot : Slot) (other : ℕ) → entry_of (some (get_queue slot)) other ≡ entry_of slot other
unfolding get_queue entry_of find_uncomplete unlink
entry_of-get_queue none other = refl
entry_of-get_queue (some q) other = refl

pub entry_of-push_data :
    (slot : Slot) (p : NetPack) (other : ℕ)
    → entry_of (some (push_data slot p)) other ≡ entry_of slot other
unfolding push_data
entry_of-push_data slot p other =
    entry_of-hash (get_queue slot) (push_entry (get_queue slot) p) other
      (same_hash (get_queue slot))
    ∙ entry_of-get_queue slot other
  where
    same_hash : (q : Queue) → (push_entry q p).hash (hash_fd other) ≡ q.hash (hash_fd other)
    same_hash q = ap (λ t. t (hash_fd other)) (push_entry-hash q p)

pub entry_of-save_uncomplete :
    (slot : Slot) (fd other : ℕ) (uc : Uncomplete)
    → uc.pack.id ≡ fd
    → fd ≢ other
    → entry_of (some (save_uncomplete slot fd uc)) other ≡ entry_of slot other
unfolding save_uncomplete
entry_of-save_uncomplete slot fd other uc i ne =
    entry_of-link_ne (get_queue slot) fd other uc i ne ∙ entry_of-get_queue slot other

pub entry_of-close_uncomplete :
    (slot : Slot) (fd other : ℕ)
    → fd ≢ other
    → entry_of (close_uncomplete slot fd) other ≡ entry_of slot other
unfolding close_uncomplete
entry_of-close_uncomplete slot fd other ne =
    closed (find_uncomplete slot fd) (find_uncomplete-FindsApart slot fd other ne)
  where
    closed :
        (r : Option (Uncomplete × Queue))
        → FindsApart other slot r
        → entry_of (elim r [ none ↦ slot | some (uc, q) ↦ some q ]) other ≡ entry_of slot other
    closed none s = refl
    closed (some (uc, q)) s = s
