-- ===== src/WebSocket/Filter/Feed.antt =====
-- A frame that a client sends reaches the servers whole, however the network cuts it.
use sasy_server.Base.{
  joined, ℕ, ◌≤◌, ◌≡◌, refl, ◌≢◌, false, List, [], ◌∷◌, ◌++◌, append-eq-nil, All, Bytes, length,
  Outcome, ok, ◌>>=◌, some, none,
}
use sasy_server.WebSocket.Queue.{Uncomplete, Queue, Slot, get_queue}
use sasy_server.WebSocket.Queue.Fifo.{slot_contents, get_queue-contents}
use sasy_server.WebSocket.Table.{link, find_uncomplete}
use sasy_server.WebSocket.Table.Lookup.{find-link}
use sasy_server.WebSocket.Wire.{client_frame, IsOpcode}
use sasy_server.WebSocket.Scan.{max_pack_size}
use sasy_server.WebSocket.Filter.{Reply, pending, data_of, filter_data, fill_uncomplete}
use sasy_server.WebSocket.Filter.Stream.{Waits, StepTo, entry_step, fresh_step}

-- The chunks of a socket in the order in which they come, and the replies.
pub feed : Slot → ℕ → List Bytes → Outcome (Slot × List Reply)
feed slot fd [] = ok (slot, [])
feed slot fd (chunk ∷ chunks) = filter_data slot fd chunk false >>= λ (slot', reply).
    feed slot' fd chunks >>= λ (slot'', replies). ok (slot'', reply ∷ replies)

-- "pending" for every chunk but the last, and the packet for that one.
abbrev pub frame_replies : ℕ → Bytes → List Bytes → List Reply
frame_replies fd payload [] = []
frame_replies fd payload (c ∷ []) = data_of fd payload (length payload) ∷ []
frame_replies fd payload (c ∷ d ∷ chunks) = pending ∷ frame_replies fd payload (d ∷ chunks)

joined-ne : (d : Bytes) (chunks : List Bytes) → d ≢ [] → joined (d ∷ chunks) ≢ []
joined-ne d chunks ne z = ne (append-eq-nil d (joined chunks) z)

module _ (fd opcode : ℕ) (key payload : Bytes) where
  StepTo-Waits :
      (final : Slot) (q : Queue) (later : Bytes) (r : Outcome (Slot × Reply))
      → later ≢ []
      → StepTo fd opcode key payload final q later r
      → (uc : Uncomplete) × (uc.pack.id ≡ fd)
        × Waits fd opcode key payload uc later
        × (r ≡ ok (some (link q fd uc), pending))
  StepTo-Waits final q [] r ne s = absurd (ne refl)
  StepTo-Waits final q (l ∷ later) r ne s = s

  module _ (o : IsOpcode opcode) (k : length key ≡ 4) (small : length payload ≤ max_pack_size) where
    filter_data-link :
        (q : Queue) (uc : Uncomplete) (chunk : Bytes)
        → uc.pack.id ≡ fd
        → filter_data (some (link q fd uc)) fd chunk false
          ≡ fill_uncomplete uc.read q fd uc chunk false
    unfolding filter_data
    filter_data-link q uc chunk i = rw (find-link q fd uc i, filter_data)

    entry_call :
        (q : Queue) (uc : Uncomplete) (chunk later : Bytes)
        → uc.pack.id ≡ fd
        → chunk ≢ []
        → Waits fd opcode key payload uc (chunk ++ later)
        → StepTo fd opcode key payload
            (some q)
            q
            later
            (filter_data (some (link q fd uc)) fd chunk false)
    entry_call q uc [] later i ne w = absurd (ne refl)
    entry_call q uc (c ∷ cs) later i ne w =
        rw (filter_data-link q uc (c ∷ cs) i)
          (entry_step fd opcode key payload o k small q uc c cs later w)

    -- The rest of a frame, in chunks.
    feed-Waits :
        (q : Queue) (uc : Uncomplete) (chunks : List Bytes)
        → uc.pack.id ≡ fd
        → All (λ c. c ≢ []) chunks
        → chunks ≢ []
        → Waits fd opcode key payload uc (joined chunks)
        → feed (some (link q fd uc)) fd chunks ≡ ok (some q, frame_replies fd payload chunks)
    unfolding feed
    feed-Waits q uc [] i a ne w = absurd (ne refl)
    feed-Waits q uc (c ∷ []) i a ne w = rw (entry_call q uc c [] i a.0 w)
    feed-Waits q uc (c ∷ d ∷ chunks) i a ne w =
        let (uc', i', w', r) =
          StepTo-Waits (some q) q (joined (d ∷ chunks)) _ (joined-ne d chunks a.1.0)
            (entry_call q uc c (joined (d ∷ chunks)) i a.0 w) in
        rw r (rw (feed-Waits q uc' (d ∷ chunks) i' a.1 (λ z. cc) w'))

find-get_queue :
    (slot : Slot) (fd : ℕ)
    → find_uncomplete slot fd ≡ none
    → find_uncomplete (some (get_queue slot)) fd ≡ none
unfolding find_uncomplete get_queue
find-get_queue none fd f = refl
find-get_queue (some q) fd f = f

-- A client's data or control frame of at most 10240 bytes of payload, cut into chunks in any way (no
-- chunk is empty), comes out whole: when the table has no entry for the socket, every chunk but
-- the last is answered by "pending" and the last by the unmasked payload with its length. Then the
-- queued packets are the same, and the table has no entry for the socket again.
pub feed-frame :
    (slot : Slot) (fd opcode : ℕ) (key payload : Bytes) (chunks : List Bytes)
    → IsOpcode opcode
    → length key ≡ 4
    → length payload ≤ max_pack_size
    → find_uncomplete slot fd ≡ none
    → All (λ c. c ≢ []) chunks
    → joined chunks ≡ client_frame opcode key payload
    → (slot' : Slot) × (feed slot fd chunks ≡ ok (slot', frame_replies fd payload chunks))
      × (slot_contents slot' ≡ slot_contents slot)
      × (find_uncomplete slot' fd ≡ none)
unfolding feed
feed-frame slot fd opcode key payload [] o k small f a e = absurd (cc e)
feed-frame slot fd opcode key payload (c ∷ []) o k small f a e =
    (slot, rw (fresh_step fd opcode key payload o k small slot c [] f e), refl, f)
feed-frame slot fd opcode key payload (c ∷ d ∷ chunks) o k small f a e =
    let later = joined (d ∷ chunks) in
    let (uc, i, w, r) =
      StepTo-Waits fd opcode key payload slot (get_queue slot) later _ (joined-ne d chunks a.1.0)
        (fresh_step fd opcode key payload o k small slot c later f e) in
    let rest =
      feed-Waits fd opcode key payload o k small (get_queue slot) uc (d ∷ chunks) i a.1 (λ z. cc)
        w in
    (some (get_queue slot), rw r (rw rest), get_queue-contents slot, find-get_queue slot fd f)
