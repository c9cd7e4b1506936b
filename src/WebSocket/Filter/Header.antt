-- ===== src/WebSocket/Filter/Header.antt =====
-- The loop that completes the saved header of a client's frame.
use sasy_server.Base.{
  ℕ, ◌≤◌, ◌<◌, ◌≡◌, refl, ap, ◌∙◌, ◌≢◌, sym, true, false, [], ◌∷◌, ◌++◌, leb, arith, append_assoc,
  append-nil, Bytes, length, length-append, length-pos, ok,
}
use sasy_server.Base.Int.{pos}
use sasy_server.WebSocket.Frame.{Scan, stop, incomplete}
use sasy_server.WebSocket.Wire.{client_head, extension, IsOpcode}
use sasy_server.WebSocket.Scan.{max_pack_size, header_size, scan_front}
use sasy_server.WebSocket.Scan.Front.{scan_front_short, scan_front_whole}
use sasy_server.WebSocket.Filter.{has_size, header_loop}

-- One round of the loop, by what it finds: the bytes end, a size is known, or neither.
module _ (header : Bytes) (c : ℕ) (header' : Bytes) (s : Scan) (room : length header < header_size)
    (found : scan_front false (header ++ (c ∷ [])) ≡ (header', s)) where
  round_end : header_loop false header (c ∷ []) ≡ ok (header', s, [])
  unfolding header_loop
  round_end = rw (le_leb, found)
    where
      le_leb : leb header_size (length header) ≡ false
      le_leb = ground arith

  round_stop :
      (d : ℕ) (bs : Bytes)
      → has_size s.pack_size ≡ true
      → header_loop false header (c ∷ d ∷ bs) ≡ ok (header', s, d ∷ bs)
  unfolding header_loop
  round_stop d bs h = ground (arith, found)

  round_on :
      (d : ℕ) (bs : Bytes)
      → has_size s.pack_size ≡ false
      → header_loop false header (c ∷ d ∷ bs) ≡ header_loop false header' (d ∷ bs)
  unfolding header_loop
  round_on d bs h = ground (arith, found)

-- What `read_size` finds in the whole header.
abbrev pub whole : ℕ → ℕ → Bytes → Scan
whole opcode n key = record {
  pack_size = pos n;
  head_length = length (client_head opcode key n);
  mask = key;
  ismask = true;
}

module _ (opcode n : ℕ) (key : Bytes) (o : IsOpcode opcode) (k : length key ≡ 4)
    (small : n ≤ max_pack_size) where
  pub length-client_head_le : length (client_head opcode key n) ≤ 14
  length-client_head_le = ground (arith, length-append (extension n) key)

  room_of :
      (got cs more : Bytes)
      → (got ++ cs) ++ more ≡ client_head opcode key n
      → cs ≢ []
      → length got < header_size
  room_of got cs more e ne = omega (
    arith,
    ap length e,
    length-append (got ++ cs) more,
    length-append got cs,
    length-pos cs ne,
    length-client_head_le,
  )

  room_at :
      (got : Bytes) (c : ℕ) (cs : Bytes)
      → got ++ (c ∷ cs) ≡ client_head opcode key n
      → length got < header_size
  room_at got c cs e = room_of got (c ∷ cs) [] (append-nil (got ++ (c ∷ cs)) ∙ e) (λ p. cc)

  seen :
      (got : Bytes) (c : ℕ)
      → got ++ (c ∷ []) ≡ client_head opcode key n
      → scan_front false (got ++ (c ∷ [])) ≡ (client_head opcode key n, whole opcode n key)
  seen got c e =
      ap (scan_front false) (e ∙ sym (append-nil (client_head opcode key n)))
      ∙ scan_front_whole opcode n key o k [] small
      ∙ ap (λ l. (l, whole opcode n key)) (append-nil (client_head opcode key n))

  -- All bytes are read, and some of the header are still missing.
  pub header_loop_short :
      (got : Bytes) (c : ℕ) (cs more : Bytes)
      → (got ++ (c ∷ cs)) ++ more ≡ client_head opcode key n
      → more ≢ []
      → header_loop false got (c ∷ cs) ≡ ok (got ++ (c ∷ cs), stop incomplete, [])
  unfolding header_loop
  header_loop_short got c [] more e ne =
      round_end got c (got ++ (c ∷ [])) (stop incomplete) (room_of got (c ∷ []) more e (λ p. cc))
        (scan_front_short opcode n key o k (got ++ (c ∷ [])) more e ne)
  header_loop_short got c (d ∷ cs) more e ne =
      round_on got c (got ++ (c ∷ [])) (stop incomplete) (room_of got (c ∷ d ∷ cs) more e (λ p. cc))
        (scan_front_short opcode n key o k (got ++ (c ∷ [])) ((d ∷ cs) ++ more)
          (regroup d cs more e) (λ p. cc))
        d cs (unfold has_size in refl)
      ∙ header_loop_short (got ++ (c ∷ [])) d cs more (ap (λ l. l ++ more) (snoc d cs) ∙ e) ne
      ∙ ap (λ l. ok (l, stop incomplete, [])) (snoc d cs)
    where
      snoc : (d : ℕ) (cs : Bytes) → (got ++ (c ∷ [])) ++ (d ∷ cs) ≡ got ++ (c ∷ d ∷ cs)
      snoc d cs = append_assoc got (c ∷ []) (d ∷ cs)

      regroup :
          (d : ℕ) (cs more : Bytes)
          → (got ++ (c ∷ d ∷ cs)) ++ more ≡ client_head opcode key n
          → (got ++ (c ∷ [])) ++ ((d ∷ cs) ++ more) ≡ client_head opcode key n
      regroup d cs more e =
          sym (append_assoc (got ++ (c ∷ [])) (d ∷ cs) more) ∙ ap (λ l. l ++ more) (snoc d cs) ∙ e

  -- The header is complete with the last of `c ∷ cs`; `rest` is left.
  pub header_loop-whole :
      (got : Bytes) (c : ℕ) (cs rest : Bytes)
      → got ++ (c ∷ cs) ≡ client_head opcode key n
      → header_loop false got (c ∷ (cs ++ rest))
        ≡ ok (client_head opcode key n, whole opcode n key, rest)
  unfolding header_loop
  header_loop-whole got c [] [] e =
      round_end got c (client_head opcode key n) (whole opcode n key) (room_at got c [] e)
        (seen got c e)
  header_loop-whole got c [] (r ∷ rest) e =
      round_stop got c (client_head opcode key n) (whole opcode n key) (room_at got c [] e)
        (seen got c e) r rest (unfold has_size in refl)
  header_loop-whole got c (d ∷ cs) rest e =
      round_on got c (got ++ (c ∷ [])) (stop incomplete) (room_at got c (d ∷ cs) e)
        (scan_front_short opcode n key o k (got ++ (c ∷ [])) (d ∷ cs)
          (append_assoc got (c ∷ []) (d ∷ cs) ∙ e) (λ p. cc))
        d (cs ++ rest) (unfold has_size in refl)
      ∙ header_loop-whole (got ++ (c ∷ [])) d cs rest (append_assoc got (c ∷ []) (d ∷ cs) ∙ e)
