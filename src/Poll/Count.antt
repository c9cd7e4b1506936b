-- ===== src/Poll/Count.antt =====
-- The slots of the server, their number, and the sockets that were accepted.
use sasy_server.Base.{
  ℕ, zero, suc, ◌+◌, ◌≤◌, ◌≡◌, refl, sym, subst, ◌∙◌, List, [], ◌∷◌, ◌++◌, ◌==◌, if◌then◌else◌,
  Bool-cases, inl, inr, Bytes, length, drop, u32, arith, Option, none, some, Outcome, ok, fault,
  spent, ◌>>=◌,
}
use sasy_server.Poll.{
  max_client_count, Server, empty_slots, new_server, into_slot, accept_client, handle_client_msg,
  Kernel, Served, echoed, dropped, recv_loop, recv_client_msg, round,
}

abbrev pub clients : List (Option ℕ) → ℕ
clients [] = 0
clients (none ∷ slots) = clients slots
clients (some fd ∷ slots) = 1 + clients slots

-- How often a socket is in a list, and in the slots.
abbrev pub one : ℕ → ℕ → ℕ
one fd x = if fd == x then 1 else 0

abbrev pub occurs : ℕ → List ℕ → ℕ
occurs fd [] = 0
occurs fd (x ∷ xs) = one fd x + occurs fd xs

abbrev pub held : ℕ → List (Option ℕ) → ℕ
held fd [] = 0
held fd (none ∷ slots) = held fd slots
held fd (some x ∷ slots) = one fd x + held fd slots

pub record IsServer (accepted : List ℕ) (s : Server) : Type 0 where
  pub all_slots : length s.clients_fd ≡ max_client_count
  pub counted : s.client_count ≡ clients s.clients_fd
  pub each : (fd : ℕ) → held fd s.clients_fd + occurs fd s.closed ≡ occurs fd accepted

clients_bound : (slots : List (Option ℕ)) → clients slots ≤ length slots
clients_bound [] = omega arith
clients_bound (none ∷ slots) = omega (arith, clients_bound slots)
clients_bound (some fd ∷ slots) = omega (arith, clients_bound slots)

length-empty_slots : (n : ℕ) → length (empty_slots n) ≡ n
length-empty_slots zero = refl
length-empty_slots (suc n) = omega (arith, length-empty_slots n)

clients-empty_slots : (n : ℕ) → clients (empty_slots n) ≡ 0
clients-empty_slots zero = refl
clients-empty_slots (suc n) = clients-empty_slots n

held-empty_slots : (fd n : ℕ) → held fd (empty_slots n) ≡ 0
held-empty_slots fd zero = refl
held-empty_slots fd (suc n) = held-empty_slots fd n

occurs-append : (fd : ℕ) (xs ys : List ℕ) → occurs fd (xs ++ ys) ≡ occurs fd xs + occurs fd ys
occurs-append fd [] ys = omega arith
occurs-append fd (x ∷ xs) ys = omega (arith, occurs-append fd xs ys)

-- A slot is taken, or there is none.
abbrev Placed : List (Option ℕ) → ℕ → Option (List (Option ℕ)) → Type 0
Placed slots x none = Unit
Placed slots x (some slots') =
    (length slots' ≡ length slots)
    × (clients slots' ≡ clients slots + 1)
    × ((fd : ℕ) → held fd slots' ≡ held fd slots + one fd x)

into_slot-Placed : (slots : List (Option ℕ)) (x : ℕ) → Placed slots x (into_slot slots x)
unfolding into_slot
into_slot-Placed [] x = tt
into_slot-Placed (none ∷ slots) x = (refl, omega arith, λ fd. omega arith)
into_slot-Placed (some y ∷ slots) x = behind (into_slot slots x) (into_slot-Placed slots x)
  where
    behind :
        (o : Option (List (Option ℕ)))
        → Placed slots x o
        → Placed (some y ∷ slots) x (elim o [ none ↦ none | some slots' ↦ some (some y ∷ slots') ])
    behind none p = tt
    behind (some slots') (l, c, h) = (omega (arith, l), omega (arith, c), λ fd. omega (arith, h fd))

abbrev pub taken_in : Option ℕ → List ℕ → List ℕ
taken_in none accepted = accepted
taken_in (some fd) accepted = fd ∷ accepted

accept_client-IsServer :
    (client : Option ℕ) (accepted : List ℕ) (s : Server)
    → IsServer accepted s
    → IsServer (taken_in client accepted) (accept_client client s)
unfolding accept_client
accept_client-IsServer none accepted s w = w
accept_client-IsServer (some x) accepted s w =
    by_slot (into_slot s.clients_fd x) (into_slot-Placed s.clients_fd x)
  where
    by_slot :
        (o : Option (List (Option ℕ)))
        → Placed s.clients_fd x o
        → IsServer (x ∷ accepted) (elim o [
          | some slots ↦ record s { clients_fd = slots; client_count = u32 (s.client_count + 1) }
          | none ↦ record s { closed = s.closed ++ (x ∷ []) }
        ])
    by_slot none p = record {
      all_slots = w.all_slots;
      counted = w.counted;
      each = λ fd. omega (arith, w.each fd, occurs-append fd s.closed (x ∷ []));
    }
    by_slot (some slots) (l, c, h) = record {
      all_slots = l ∙ w.all_slots;
      counted = omega (arith, w.counted, w.all_slots, c, clients_bound s.clients_fd);
      each = λ fd. omega (arith, w.each fd, h fd);
    }

-- A property of the result, where there is one.
abbrev pub Every {ℓ κ} : {A : Type ℓ} → (A → Type κ) → Outcome A → Type κ
Every P (ok a) = P a
Every P fault = Unit
Every P spent = Unit

Every-bind :
    {A B : Type 0} (P : A → Type 0) (Q : B → Type 0) (f : A → Outcome B) (o : Outcome A)
    → Every P o
    → ((a : A) → P a → Every Q (f a))
    → Every Q (o >>= f)
Every-bind P Q f (ok a) p k = k a p
Every-bind P Q f fault p k = tt
Every-bind P Q f spent p k = tt

Every-any : (o : Outcome Bytes) → Every {0, 0} (λ t. Unit) o
Every-any (ok b) = tt
Every-any fault = tt
Every-any spent = tt

-- What a round keeps of the slots, and which sockets are gone.
abbrev Keeps : List (Option ℕ) → Served → Type 0
Keeps slots r =
    (length r.slots ≡ length slots)
    × (clients r.slots + length r.gone ≡ clients slots)
    × ((fd : ℕ) → held fd r.slots + occurs fd r.gone ≡ held fd slots)

recv_loop-Keeps :
    (kernel : Kernel) (slots : List (Option ℕ)) (buf : Bytes)
    → Every (Keeps slots) (recv_loop kernel slots buf)
unfolding recv_loop
recv_loop-Keeps kernel [] buf = (refl, refl, λ fd. refl)
recv_loop-Keeps kernel (none ∷ slots) buf =
    Every-bind (Keeps slots) (Keeps (none ∷ slots)) _ (recv_loop kernel slots buf)
      (recv_loop-Keeps kernel slots buf) (λ r (l, c, h). (omega (arith, l), c, h))
recv_loop-Keeps kernel (some x ∷ slots) buf = elim (Bool-cases (kernel.is_set x)) [
  | inr unset ↦ rw unset (
      Every-bind (Keeps slots) (Keeps (some x ∷ slots)) _ (recv_loop kernel slots buf)
        (recv_loop-Keeps kernel slots buf)
        (λ r (l, c, h). (omega (arith, l), omega (arith, c), λ fd. omega (arith, h fd))))
  | inl set ↦ rw set (by_read (kernel.read x) (recv_loop-Keeps kernel slots))
]
  where
    by_read :
        (o : Option Bytes)
        → ((b : Bytes) → Every (Keeps slots) (recv_loop kernel slots b))
        → Every (Keeps (some x ∷ slots)) (elim o [
          | none ↦ recv_loop kernel slots buf >>= λ r. ok (dropped x r)
          | some bytes ↦ handle_client_msg (bytes ++ drop (length bytes) buf) >>= λ text.
              recv_loop kernel slots (bytes ++ drop (length bytes) buf) >>= λ r.
              ok (echoed x text r)
        ])
    by_read none k =
        Every-bind (Keeps slots) (Keeps (some x ∷ slots)) _ (recv_loop kernel slots buf) (k buf)
          (λ r (l, c, h). (omega (arith, l), omega (arith, c), λ fd. omega (arith, h fd)))
    by_read (some bytes) k =
        Every-bind (λ t. Unit {0}) (Keeps (some x ∷ slots)) _
          (handle_client_msg (bytes ++ drop (length bytes) buf)) (Every-any _)
          λ text t.
            Every-bind (Keeps slots) (Keeps (some x ∷ slots)) _
              (recv_loop kernel slots (bytes ++ drop (length bytes) buf)) (k _)
              (λ r (l, c, h). (omega (arith, l), omega (arith, c), λ fd. omega (arith, h fd)))

recv_client_msg-IsServer :
    (kernel : Kernel) (accepted : List ℕ) (s : Server)
    → IsServer accepted s
    → Every (λ r. IsServer accepted r.0) (recv_client_msg kernel s)
unfolding recv_client_msg
recv_client_msg-IsServer kernel accepted s w =
    Every-bind (Keeps s.clients_fd) (λ r. IsServer accepted r.0) _
      (recv_loop kernel s.clients_fd []) (recv_loop-Keeps kernel s.clients_fd [])
      λ r (l, c, h). record {
        all_slots = l ∙ w.all_slots;
        counted = omega (arith, w.counted, w.all_slots, c, clients_bound s.clients_fd);
        each = λ fd. omega (arith, w.each fd, h fd, occurs-append fd s.closed r.gone);
      }

-- The states that the server comes to, with the sockets that `accept` has returned, the last one first.
pub data Reached : List ℕ → Server → Type 0 where
  starts : Reached [] new_server
  waits :
      {accepted : List ℕ} {s : Server} (kernel : Kernel) (s' : Server) (echoes : List (ℕ × Bytes))
      → Reached accepted s
      → round none kernel s ≡ ok (s', echoes)
      → Reached accepted s'
  accepts :
      {accepted : List ℕ} {s : Server} (client : Option ℕ) (kernel : Kernel) (s' : Server)
      (echoes : List (ℕ × Bytes))
      → Reached accepted s
      → round (some client) kernel s ≡ ok (s', echoes)
      → Reached (taken_in client accepted) s'

-- In every state that the server comes to, it has its 1024 slots, `iClientCount` is the number of those in
-- use, and each socket that `accept` returned is in a slot or was closed, as often as it was returned.
pub Reached-IsServer : (accepted : List ℕ) (s : Server) → Reached accepted s → IsServer accepted s
unfolding round
Reached-IsServer accepted s starts = record {
  all_slots = length-empty_slots max_client_count;
  counted = sym (clients-empty_slots max_client_count);
  each = λ fd. omega (arith, held-empty_slots fd max_client_count);
}
Reached-IsServer accepted s (waits {s = before} kernel s' echoes r e) =
    subst (Every (λ p. IsServer accepted p.0)) e
      (recv_client_msg-IsServer kernel accepted before (Reached-IsServer accepted before r))
Reached-IsServer accepted s (accepts {accepted = until} {s = before} client kernel s' echoes r e) =
    subst (Every (λ p. IsServer (taken_in client until) p.0)) e (
      recv_client_msg-IsServer kernel (taken_in client until) (accept_client client before)
        (accept_client-IsServer client until before (Reached-IsServer until before r)))
