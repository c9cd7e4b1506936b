-- ===== src/WebSocket/Filter/Stream.antt =====
-- A client's frame that comes in pieces is put together again.
use sasy_server.Base.{
  ℕ, ◌+◌, ◌≤◌, ◌<◌, ◌≡◌, refl, ap, ◌∙◌, ◌≢◌, sym, false, [], ◌∷◌, ◌++◌, arith, inl, inr,
  append_assoc, append-nil, le→ltb, Bytes, length, length-append, append_split, append-eq-nil,
  Outcome, ok, some, none,
}
use sasy_server.Base.Int.{ℤ, pos, negsuc}
use sasy_server.WebSocket.Mask.{unmask, length-unmask, unmask-unmask}
use sasy_server.WebSocket.Frame.{stop, incomplete}
use sasy_server.WebSocket.Queue.{Uncomplete, Queue, Slot, get_queue}
use sasy_server.WebSocket.Table.{link, find_uncomplete, save_uncomplete}
use sasy_server.WebSocket.Wire.{client_head, client_frame, IsOpcode}
use sasy_server.WebSocket.Scan.{max_pack_size, header_size}
use sasy_server.WebSocket.Scan.Front.{scan_front_short, scan_front_whole}
use sasy_server.WebSocket.Filter.{
  Reply, pending, data_of, fill_body, fill_header, fill_uncomplete, fresh_sized, filter_data,
}
use sasy_server.WebSocket.Filter.Header.{
  whole, length-client_head_le, header_loop_short, header_loop-whole,
}
use sasy_server.WebSocket.Filter.Entry.{
  header_entry, body_entry, fill_body-pending, fill_body-done, fresh_sized-done,
  fresh_sized-pending,
}

-- The entry waits for the bytes `rest` of the frame, and for nothing else.
pub data Waits (fd opcode : ℕ) (key payload : Bytes) (uc : Uncomplete) (rest : Bytes) : Type 0 where
  in_header :
      (got more : Bytes)
      → got ++ more ≡ client_head opcode key (length payload)
      → more ≢ []
      → uc ≡ header_entry fd got
      → rest ≡ more ++ unmask key 0 payload
      → Waits fd opcode key payload uc rest
  in_body :
      (hd b : Bytes)
      → b ++ rest ≡ unmask key 0 payload
      → uc ≡ body_entry fd (length payload) key hd b
      → Waits fd opcode key payload uc rest

module _ (fd opcode : ℕ) (key payload : Bytes) where
  -- The result of one call, when `later` is still to come: the packet, with the queue `final`, or
  -- an entry in the table of `q` that waits.
  abbrev pub StepTo : Slot → Queue → Bytes → Outcome (Slot × Reply) → Type 0
  StepTo final q [] r = r ≡ ok (final, data_of fd payload (length payload))
  StepTo final q (l ∷ later) r =
      (uc : Uncomplete) × (uc.pack.id ≡ fd)
      × Waits fd opcode key payload uc (l ∷ later)
      × (r ≡ ok (some (link q fd uc), pending))

  length-wire : length (unmask key 0 payload) ≡ length payload
  length-wire = length-unmask key 0 payload

  -- A call that leaves a waiting entry.
  StepTo-waiting :
      (final : Slot) (q : Queue) (later : Bytes) (r : Outcome (Slot × Reply)) (uc : Uncomplete)
      → later ≢ []
      → uc.pack.id ≡ fd
      → Waits fd opcode key payload uc later
      → r ≡ ok (some (link q fd uc), pending)
      → StepTo final q later r
  StepTo-waiting final q [] r uc ne i w e = absurd (ne refl)
  StepTo-waiting final q (l ∷ later) r uc ne i w e = (uc, i, w, e)

  unmasked : (bs : Bytes) → bs ++ [] ≡ unmask key 0 payload → unmask key 0 bs ≡ payload
  unmasked bs e = ap (unmask key 0) (sym (append-nil bs) ∙ e) ∙ unmask-unmask key 0 payload

  -- Bytes of the payload come to an entry whose header is complete.
  body_step :
      (q : Queue) (hd b chunk later : Bytes) (r : ℤ)
      → (b ++ chunk) ++ later ≡ unmask key 0 payload
      → StepTo (some q) q later (
          fill_body q fd
            (record (body_entry fd (length payload) key hd b) { read = r })
            (length b)
            chunk
            false)
  body_step q hd b chunk [] r e =
      fill_body-done fd (length payload) key q hd b chunk r whole_length
      ∙ ap (λ p. ok (some q, data_of fd p (length payload))) (unmasked (b ++ chunk) e)
    where
      whole_length : length b + length chunk ≡ length payload
      whole_length =
          omega
            (arith, ap length e, length-append (b ++ chunk) [], length-append b chunk, length-wire)
  body_step q hd b chunk (l ∷ later) r e = (
    body_entry fd (length payload) key hd (b ++ chunk),
    refl,
    in_body hd (b ++ chunk) e refl,
    fill_body-pending fd (length payload) key q hd b chunk r part_length,
  )
    where
      part_length : length b + length chunk < length payload
      part_length = omega (
        arith,
        ap length e,
        length-append (b ++ chunk) (l ∷ later),
        length-append b chunk,
        length-wire,
      )

module _ (fd opcode : ℕ) (key payload : Bytes) (o : IsOpcode opcode) (k : length key ≡ 4)
    (small : length payload ≤ max_pack_size) where
  abbrev front : Bytes
  front = client_head opcode key (length payload)

  header_short :
      (q : Queue) (got : Bytes) (c : ℕ) (cs more : Bytes)
      → (got ++ (c ∷ cs)) ++ more ≡ front
      → more ≢ []
      → fill_header q fd (header_entry fd got) (c ∷ cs) false
        ≡ ok (some (link q fd (header_entry fd (got ++ (c ∷ cs)))), pending)
  unfolding fill_header
  header_short q got c cs more e ne =
      rw (header_loop_short opcode (length payload) key o k small got c cs more e ne)

  header_whole :
      (q : Queue) (got : Bytes) (c : ℕ) (cs rest : Bytes)
      → got ++ (c ∷ cs) ≡ front
      → fill_header q fd (header_entry fd got) (c ∷ (cs ++ rest)) false
        ≡ fill_body q fd
            (record (body_entry fd (length payload) key front []) { read = negsuc 0 })
            0
            rest
            false
  unfolding fill_header unmask
  header_whole q got c cs rest e =
      rw (header_loop-whole opcode (length payload) key o k small got c cs rest e)

  -- The chunk ends inside the header.
  header_step_short :
      (q : Queue) (got more : Bytes) (c : ℕ) (cs later m : Bytes)
      → got ++ more ≡ front
      → m ≢ []
      → (c ∷ cs) ++ m ≡ more
      → later ≡ m ++ unmask key 0 payload
      → StepTo fd opcode key payload
          (some q)
          q
          later
          (fill_header q fd (header_entry fd got) (c ∷ cs) false)
  header_step_short q got more c cs later m e m-ne p l =
      StepTo-waiting fd opcode key payload (some q) q later _ (header_entry fd (got ++ (c ∷ cs)))
        (λ z. m-ne (append-eq-nil m (unmask key 0 payload) (sym l ∙ z))) refl
        (in_header (got ++ (c ∷ cs)) m whole_header m-ne refl l)
        (header_short q got c cs m whole_header m-ne)
    where
      whole_header : (got ++ (c ∷ cs)) ++ m ≡ front
      whole_header = append_assoc got (c ∷ cs) m ∙ ap (λ t. got ++ t) p ∙ e

  -- The chunk reaches behind the header.
  header_step_long :
      (q : Queue) (got more chunk later rest : Bytes)
      → got ++ more ≡ front
      → more ≢ []
      → chunk ≡ more ++ rest
      → rest ++ later ≡ unmask key 0 payload
      → StepTo fd opcode key payload
          (some q)
          q
          later
          (fill_header q fd (header_entry fd got) chunk false)
  header_step_long q got [] chunk later rest e ne p l = absurd (ne refl)
  header_step_long q got (d ∷ ds) chunk later rest e ne p l =
      rw (p, header_whole q got d ds rest e)
        (body_step fd opcode key payload q front [] rest later (negsuc 0) l)

  -- Bytes come to an entry whose header is not complete.
  header_step :
      (q : Queue) (got more : Bytes) (c : ℕ) (cs later : Bytes)
      → got ++ more ≡ front
      → more ≢ []
      → (c ∷ cs) ++ later ≡ more ++ unmask key 0 payload
      → StepTo fd opcode key payload
          (some q)
          q
          later
          (fill_header q fd (header_entry fd got) (c ∷ cs) false)
  header_step q got more c cs later e ne r =
      elim (append_split (c ∷ cs) later more (unmask key 0 payload) r) [
        | inl (m, m-ne, p, l) ↦ header_step_short q got more c cs later m e m-ne p l
        | inr (rest, p, l) ↦ header_step_long q got more (c ∷ cs) later rest e ne p l
      ]

  -- Bytes come to an entry.
  pub entry_step :
      (q : Queue) (uc : Uncomplete) (c : ℕ) (cs later : Bytes)
      → Waits fd opcode key payload uc ((c ∷ cs) ++ later)
      → StepTo fd opcode key payload
          (some q)
          q
          later
          (fill_uncomplete uc.read q fd uc (c ∷ cs) false)
  unfolding fill_uncomplete
  entry_step q uc c cs later (in_body hd b e u) = rw u (
      body_step fd opcode key payload q hd b (c ∷ cs) later (pos (length b))
        (append_assoc b (c ∷ cs) later ∙ e))
  entry_step q uc c cs later (in_header got more e ne u r) =
      rw u (header_step q got more c cs later e ne r)

  -- The first bytes reach behind the header.
  fresh_whole :
      (slot : Slot) (rest later : Bytes)
      → rest ++ later ≡ unmask key 0 payload
      → StepTo fd opcode key payload slot (get_queue slot) later (
          fresh_sized
            (pos (length payload))
            slot
            fd
            (front ++ rest)
            (whole opcode (length payload) key)
            false)
  fresh_whole slot rest [] e =
      fresh_sized-done fd (length payload) key front slot rest
        (omega (arith, ap length e, length-append rest [], length-wire fd opcode key payload))
      ∙ ap (λ p. ok (slot, data_of fd p (length payload))) (unmasked fd opcode key payload rest e)
  fresh_whole slot rest (l ∷ later) e = (
    body_entry fd (length payload) key [] rest,
    refl,
    in_body [] rest e refl,
    fresh_sized-pending fd (length payload) key front slot rest (
        omega
          (arith, ap length e, length-append rest (l ∷ later), length-wire fd opcode key payload)),
  )

  save_short :
      (slot : Slot) (got : Bytes)
      → length got ≤ header_size
      → fresh_sized (negsuc 0) slot fd got (stop incomplete) false
        ≡ ok (some (link (get_queue slot) fd (header_entry fd got)), pending)
  unfolding fresh_sized save_uncomplete
  save_short slot got h = rw (le→ltb header_size (length got) h)

  -- The first bytes of a frame come, and the table has no entry for the socket.
  pub fresh_step :
      (slot : Slot) (chunk later : Bytes)
      → find_uncomplete slot fd ≡ none
      → chunk ++ later ≡ client_frame opcode key payload
      → StepTo fd opcode key payload slot (get_queue slot) later (filter_data slot fd chunk false)
  unfolding filter_data
  fresh_step slot chunk later f e = elim (append_split chunk later front (unmask key 0 payload) e) [
    | inl (m, m-ne, p, l) ↦
        rw (f, filter_data)
          (rw (scan_front_short opcode (length payload) key o k chunk m p m-ne) (
            StepTo-waiting fd opcode key payload slot (get_queue slot) later _
              (header_entry fd chunk)
              (λ z. m-ne (append-eq-nil m (unmask key 0 payload) (sym l ∙ z))) refl
              (in_header chunk m p m-ne refl l) (save_short slot chunk (in_field chunk m p))))
    | inr (rest, p, l) ↦
        rw (f, filter_data)
          (rw (p, scan_front_whole opcode (length payload) key o k rest small)
            (fresh_whole slot rest later l))
  ]
    where
      in_field : (got m : Bytes) → got ++ m ≡ front → length got ≤ header_size
      in_field got m p = omega (
        arith,
        ap length p,
        length-append got m,
        length-client_head_le opcode (length payload) key o k small,
      )
