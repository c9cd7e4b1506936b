-- ===== src/WebSocket/Table/Lookup.antt =====
-- The table of unfinished packets is a map from sockets to entries.
use sasy_server.Base.{
  ℕ, ◌≡◌, ap, ◌∙◌, ◌≢◌, List, ◌∷◌, Option, none, some, update, update_self, update-update,
  update_ne, arith, fun_ext,
}
use sasy_server.WebSocket.Queue.{Uncomplete, Queue, Slot}
use sasy_server.WebSocket.Table.{hash_fd, unlink, find_uncomplete, link}

-- The entry that `find_uncomplete` finds.
unfoldable pub entry_of : Slot → ℕ → Option Uncomplete
entry_of slot fd = elim (find_uncomplete slot fd) [ none ↦ none | some (uc, q) ↦ some uc ]

update_noop {ℓ} : {A : Type ℓ} (f : ℕ → A) (i : ℕ) → update f i (f i) ≡ f
update_noop f i = fun_ext λ j. ground arith

unlink_head :
    (fd : ℕ) (uc : Uncomplete) (next : List Uncomplete)
    → uc.pack.id ≡ fd
    → unlink fd (uc ∷ next) ≡ some (uc, next)
unfolding unlink
unlink_head fd uc next e = ground (arith, e)

relink :
    (q : Queue) (fd : ℕ) (uc : Uncomplete)
    → record (link q fd uc) { hash = update (link q fd uc).hash (hash_fd fd) (q.hash (hash_fd fd)) }
      ≡ q
unfolding link
relink q fd uc =
    ap (λ h. record q { hash = h })
      (update-update q.hash (hash_fd fd) _ _ ∙ update_noop q.hash (hash_fd fd))

find_of_unlink :
    (q : Queue) (fd : ℕ) {uc : Uncomplete} {rest : List Uncomplete}
    → unlink fd (q.hash (hash_fd fd)) ≡ some (uc, rest)
    → find_uncomplete (some q) fd ≡ some (uc, record q { hash = update q.hash (hash_fd fd) rest })
unfolding find_uncomplete
find_of_unlink q fd e = rw (e, find_uncomplete)

unlink-link :
    (q : Queue) (fd : ℕ) (uc : Uncomplete)
    → uc.pack.id ≡ fd
    → unlink fd ((link q fd uc).hash (hash_fd fd)) ≡ some (uc, q.hash (hash_fd fd))
unfolding link
unlink-link q fd uc e =
    ap (unlink fd) (update_self q.hash (hash_fd fd) (uc ∷ q.hash (hash_fd fd)))
    ∙ unlink_head fd uc (q.hash (hash_fd fd)) e

-- An entry that was linked under its own id is found again, and the queue is then what it was before.
pub find-link :
    (q : Queue) (fd : ℕ) (uc : Uncomplete)
    → uc.pack.id ≡ fd
    → find_uncomplete (some (link q fd uc)) fd ≡ some (uc, q)
find-link q fd uc e =
    find_of_unlink (link q fd uc) fd (unlink-link q fd uc e)
    ∙ ap (λ r. some (uc, r)) (relink q fd uc)

-- When an entry is linked under its own id, the other sockets keep their entries, also those in the
-- same list.
pub entry_of-link_ne :
    (q : Queue) (fd other : ℕ) (uc : Uncomplete)
    → uc.pack.id ≡ fd
    → fd ≢ other
    → entry_of (some (link q fd uc)) other ≡ entry_of (some q) other
unfolding entry_of find_uncomplete link unlink
entry_of-link_ne q fd other uc e ne =
    ground (arith, update_ne q.hash (hash_fd fd) (hash_fd other) (uc ∷ q.hash (hash_fd fd)))
