-- ===== src/WebSocket/Filter/Entry.antt =====
-- The entries that stand for a part of a client's frame, and how the code fills them.
use native.Mathlib.Nat.{zero-add}
use sasy_server.Base.{
  ℕ, suc, ◌+◌, ◌-◌, ◌<◌, ◌≡◌, refl, ◌∙◌, sym, true, false, [], ◌∷◌, ◌++◌, ◌==◌, arith, lt→ltb,
  le→ltb, ==_refl, Bytes, length, length-append, take-append, drop-append, take-all, ok, some,
}
use sasy_server.Base.Int.{ℤ, pos, negsuc}
use sasy_server.WebSocket.Mask.{unmask, unmask-append}
use sasy_server.WebSocket.Queue.{Uncomplete, Queue, Slot, push_data, get_queue}
use sasy_server.WebSocket.Table.{blank, link, save_uncomplete}
use sasy_server.WebSocket.Scan.{decode_wsmask_data, fill, start_body}
use sasy_server.WebSocket.Frame.{Scan}
use sasy_server.WebSocket.Filter.{pending, data_of, fill_body, push_rest, fresh_sized}

differs : (a b : ℕ) → (a + suc b == a) ≡ false
differs a b = ground arith

-- The entry that holds the first bytes of a header.
abbrev pub header_entry : ℕ → Bytes → Uncomplete
header_entry fd got = record (blank fd) { read = negsuc 0; header = got }

joined :
    (key b bytes : Bytes)
    → unmask key 0 b ++ unmask key (length b) bytes ≡ unmask key 0 (b ++ bytes)
joined key b bytes = sym (unmask-append key 0 b bytes ∙ rw zero-add)

module _ (fd n : ℕ) (key : Bytes) where
  -- The entry behind a header that announced `n` bytes, when the bytes `b` of the wire have come.
  abbrev pub body_entry : Bytes → Bytes → Uncomplete
  body_entry hd b = record {
    pack = record { id = fd; size = n; buffer = unmask key 0 b };
    header = hd;
    read = pos (length b);
    mask = key;
    ismask = true;
    hasunmask_size = length b;
  }

  -- Bytes behind the first ones are unmasked at the offset that those leave.
  pub fill-body_entry :
      (hd b bytes : Bytes) (r : ℤ)
      → fill (record (body_entry hd b) { read = r }) (length b) bytes ≡ body_entry hd (b ++ bytes)
  unfolding fill decode_wsmask_data
  fill-body_entry hd b bytes r = rw (unmask-append key 0 b bytes, length-append b bytes, zero-add)

  module _ (q : Queue) (hd b bytes : Bytes) (r : ℤ) where
    abbrev opened : Uncomplete
    opened = record (body_entry hd b) { read = r }

    pub fill_body-pending :
        length b + length bytes < n
        → fill_body q fd opened (length b) bytes false
          ≡ ok (some (link q fd (body_entry hd (b ++ bytes))), pending)
    unfolding fill_body
    fill_body-pending h = rw (
      le→ltb n (length b) (omega arith),
      lt→ltb (length bytes) (n - length b) (omega arith),
      fill-body_entry hd b bytes r,
    )

    pub fill_body-done :
        length b + length bytes ≡ n
        → fill_body q fd opened (length b) bytes false
          ≡ ok (some q, data_of fd (unmask key 0 (b ++ bytes)) n)
    unfolding fill_body
    fill_body-done h =
        let need : n - length b ≡ length bytes = omega arith in
        rw (
          le→ltb n (length b) (omega arith),
          need,
          le→ltb (length bytes) (length bytes) (omega arith),
          ==_refl,
          take-all (length bytes) bytes (omega arith),
          joined key b bytes,
        )

    pub fill_body-more :
        (c : ℕ) (rest : Bytes)
        → length b + length bytes ≡ n
        → fill_body q fd opened (length b) (bytes ++ (c ∷ rest)) false
          ≡ push_rest
              (some (
                push_data
                  (some q)
                  (record { id = fd; size = n; buffer = unmask key 0 (b ++ bytes) })))
              fd
              (c ∷ rest)
              false
    unfolding fill_body
    fill_body-more c rest h =
        let need : n - length b ≡ length bytes = omega arith in
        let longer : length (bytes ++ (c ∷ rest)) ≡ length bytes + suc (length rest) =
          length-append bytes (c ∷ rest) in
        rw (
          le→ltb n (length b) (omega arith),
          need,
          longer,
          le→ltb (length bytes + suc (length rest)) (length bytes) (omega arith),
          differs (length bytes) (length rest),
          take-append bytes (c ∷ rest) (length bytes) refl,
          drop-append bytes (c ∷ rest) (length bytes) refl,
          joined key b bytes,
        )

-- The same where the header `h` and the first bytes of the payload come in one buffer.
module _ (fd n : ℕ) (key h : Bytes) (slot : Slot) where
  abbrev scanned : Scan
  scanned = record { pack_size = pos n; head_length = length h; mask = key; ismask = true }

  pub fresh_sized-pending :
      (bytes : Bytes)
      → length bytes < n
      → fresh_sized (pos n) slot fd (h ++ bytes) scanned false
        ≡ ok (some (link (get_queue slot) fd (body_entry fd n key [] bytes)), pending)
  unfolding fresh_sized save_uncomplete unmask
  fresh_sized-pending bytes l =
      rw (drop-append h bytes (length h) refl, lt→ltb (length bytes) n l, zero-add)

  pub fresh_sized-done :
      (bytes : Bytes)
      → length bytes ≡ n
      → fresh_sized (pos n) slot fd (h ++ bytes) scanned false
        ≡ ok (slot, data_of fd (unmask key 0 bytes) n)
  unfolding fresh_sized
  fresh_sized-done bytes e = rw (
    drop-append h bytes (length h) refl,
    le→ltb (length bytes) n (omega arith),
    take-all n bytes (omega arith),
    e,
    ==_refl,
    decode_wsmask_data,
    start_body,
  )

  pub fresh_sized-more :
      (bytes : Bytes) (c : ℕ) (rest : Bytes)
      → length bytes ≡ n
      → fresh_sized (pos n) slot fd (h ++ (bytes ++ (c ∷ rest))) scanned false
        ≡ push_rest
            (some (push_data slot (record { id = fd; size = n; buffer = unmask key 0 bytes })))
            fd
            (c ∷ rest)
            false
  unfolding fresh_sized
  fresh_sized-more bytes c rest e = rw (
    drop-append h (bytes ++ (c ∷ rest)) (length h) refl,
    length-append bytes (c ∷ rest),
    le→ltb (length bytes + suc (length rest)) n (omega arith),
    take-append bytes (c ∷ rest) n (sym e),
    drop-append bytes (c ∷ rest) n (sym e),
    ne_more,
    decode_wsmask_data,
    start_body,
  )
    where
      ne_more : (length bytes + suc (length rest) == n) ≡ false
      ne_more = ground arith
