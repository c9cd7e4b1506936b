-- ===== src/WebSocket/Valid/Filter.antt =====
-- `filter_data_` keeps what the queue's operations keep.
use sasy_server.Base.{
  ℕ, ◌+◌, ◌-◌, ◌≤◌, ◌≡◌, refl, ap, Bool, true, false, ◌&&◌, not, Bool-cases, inl, inr, ltb, ◌==◌,
  min, Bytes, length, length-take, take, drop, none, some, Outcome, ok, fault, spent, ◌>>=◌, arith,
  Option, ◌∙◌, sym, subst,
}
use sasy_server.Base.Int.{ℤ, pos, negsuc}
use sasy_server.WebSocket.Frame.{Scan}
use sasy_server.WebSocket.Queue.{NetPack, Uncomplete, Queue, Slot, push_data}
use sasy_server.WebSocket.Table.{find_uncomplete}
use sasy_server.WebSocket.Scan.{
  header_size, scan_front, save_header, start_body, fill, decode_wsmask_data,
}
use sasy_server.WebSocket.More.{push_more}
use sasy_server.WebSocket.Filter.{
  Reply, pending, more, header_loop, and_reply, push_rest, fill_body, open_pack, fill_header_sized,
  fill_header, fill_uncomplete, fresh_sized, filter_data,
}
use sasy_server.WebSocket.Valid.{EntryHolds, IsEntry, OutcomeHolds}
use sasy_server.WebSocket.Valid.Kept.{IsKept, FindsClear}
use sasy_server.WebSocket.Valid.Fills.{
  HeaderFits, fill-IsEntry, start_body-IsEntry, save_header-IsKept, header_loop-HeaderFits,
}
use sasy_server.WebSocket.Valid.More.{push_more-IsKept}

module _ (fd : ℕ) (IsGood IsClear : Slot → Type 0) (kept : IsKept fd IsGood IsClear) where
  -- The queue that comes with a reply.
  abbrev pub ReplyHolds : Slot × Reply → Type 0
  ReplyHolds (slot, reply) = IsGood slot

  with_reply :
      (r : Reply) (o : Outcome Slot)
      → OutcomeHolds IsGood o
      → OutcomeHolds ReplyHolds (o >>= and_reply r)
  with_reply r (ok slot) h = h
  with_reply r fault h = tt
  with_reply r spent h = tt

  push_rest-ReplyHolds :
      (slot : Slot) (rest : Bytes) (handshake : Bool)
      → IsClear slot
      → OutcomeHolds ReplyHolds (push_rest slot fd rest handshake)
  unfolding push_rest
  push_rest-ReplyHolds slot rest handshake c =
      with_reply more (push_more (length rest + 1) slot fd rest handshake)
        (push_more-IsKept fd IsGood IsClear kept (length rest + 1) slot rest handshake c)

  fill_body-ReplyHolds :
      (q : Queue) (uc : Uncomplete) (n : ℕ) (buffer : Bytes) (handshake : Bool)
      → IsClear (some q)
      → uc.pack.id ≡ fd
      → n ≡ length uc.pack.buffer
      → OutcomeHolds ReplyHolds (fill_body q fd uc n buffer handshake)
  unfolding fill_body
  fill_body-ReplyHolds q uc n buffer handshake c i e = elim (Bool-cases (ltb uc.pack.size n)) [
    | inl t ↦ rw t tt
    | inr f ↦ elim (Bool-cases (ltb (length buffer) (uc.pack.size - n))) [
      | inl t ↦
          let (w, j) = fill-IsEntry uc n buffer e (ground (arith, t, f)) in
          rw (f, t) (kept.links q (fill uc n buffer) c (j ∙ i) w)
      | inr g ↦ elim (Bool-cases (length buffer == uc.pack.size - n)) [
        | inl t ↦ rw (f, g, t) (kept.good (some q) c)
        | inr h ↦
            let full = fill uc n (take (uc.pack.size - n) buffer) in
            let p : NetPack = record {
              id = fd;
              size = full.pack.size;
              buffer = full.pack.buffer;
            } in
            rw (f, g, h)
              (push_rest-ReplyHolds (some (push_data (some q) p)) (drop (uc.pack.size - n) buffer)
                handshake (kept.pushes (some q) p c))
      ]
    ]
  ]

  fill_header_sized-ReplyHolds :
      (z : ℤ) (q : Queue) (uc : Uncomplete) (header : Bytes) (s : Scan) (rest : Bytes)
      (handshake : Bool)
      → IsClear (some q)
      → uc.pack.id ≡ fd
      → uc.read ≡ negsuc 0
      → length header ≤ header_size
      → OutcomeHolds ReplyHolds (fill_header_sized z q fd uc header s rest handshake)
  unfolding fill_header_sized open_pack
  fill_header_sized-ReplyHolds (negsuc n) q uc header s rest handshake c i r h =
      elim (Bool-cases (n == 0)) [
        | inl t ↦ rw t (
            kept.links q (record uc { header = header }) c i
              (subst (λ z. EntryHolds z (record uc { header = header })) (sym r) (refl, h)))
        | inr f ↦ elim (Bool-cases (n == 2)) [
          | inl t ↦ rw (f, t) (kept.closes (some q) (kept.good (some q) c))
          | inr g ↦ rw (f, g) tt
        ]
      ]
  fill_header_sized-ReplyHolds (pos size) q uc header s rest true c i r h =
      let n = min (length header) size in
      fill_body-ReplyHolds q
        (record (open_pack uc fd header s size) {
          pack = record { id = uc.pack.id; size = size; buffer = take n header };
        })
        n rest true c i (omega (arith, length-take n header))
  fill_header_sized-ReplyHolds (pos size) q uc header s rest false c i r h =
      fill_body-ReplyHolds q (open_pack uc fd header s size) 0 rest false c i refl

  fill_uncomplete-ReplyHolds :
      (q : Queue) (uc : Uncomplete) (buffer : Bytes) (handshake : Bool)
      → IsClear (some q)
      → uc.pack.id ≡ fd
      → IsEntry uc
      → OutcomeHolds ReplyHolds (fill_uncomplete uc.read q fd uc buffer handshake)
  unfolding fill_uncomplete fill_header
  fill_uncomplete-ReplyHolds q uc buffer handshake c i w = at uc.read refl w
    where
      sized :
          uc.read ≡ negsuc 0
          → (o : Outcome (Bytes × Scan × Bytes)) → OutcomeHolds HeaderFits o
          → OutcomeHolds ReplyHolds (
              o >>= λ (header, s, rest).
              fill_header_sized s.pack_size q fd uc header s rest handshake)
      sized r (ok (header, s, rest)) h =
          fill_header_sized-ReplyHolds s.pack_size q uc header s rest handshake c i r h
      sized r fault h = tt
      sized r spent h = tt

      at :
          (z : ℤ)
          → uc.read ≡ z
          → EntryHolds z uc
          → OutcomeHolds ReplyHolds (fill_uncomplete z q fd uc buffer handshake)
      at (pos n) r h = fill_body-ReplyHolds q uc n buffer handshake c i h.0
      at (negsuc n) r h =
          sized (r ∙ ap negsuc h.0) (header_loop handshake uc.header buffer)
            (header_loop-HeaderFits handshake uc.header buffer h.1)

  fresh_sized-ReplyHolds :
      (z : ℤ) (slot : Slot) (rest : Bytes) (s : Scan) (handshake : Bool)
      → IsClear slot
      → OutcomeHolds ReplyHolds (fresh_sized z slot fd rest s handshake)
  unfolding fresh_sized
  fresh_sized-ReplyHolds (negsuc n) slot rest s handshake c = elim (Bool-cases (n == 0)) [
    | inl t ↦ rw t (
        with_reply pending (save_header slot fd handshake rest)
          (save_header-IsKept slot fd handshake rest IsGood IsClear kept c))
    | inr f ↦ elim (Bool-cases (n == 2)) [
      | inl t ↦ rw (f, t) (kept.closes slot (kept.good slot c))
      | inr g ↦ rw (f, g) tt
    ]
  ]
  fresh_sized-ReplyHolds (pos size) slot rest s handshake c =
      let buffer = drop s.head_length rest in
      elim (Bool-cases (ltb (length buffer) size && not handshake)) [
        | inl t ↦
            let (w, i) = start_body-IsEntry fd size s buffer (ground (arith, t)) in
            rw t (kept.saves slot (fill (start_body fd size s) 0 buffer) c i w)
        | inr f ↦ elim (Bool-cases (length buffer == size)) [
          | inl t ↦ rw (f, t) (kept.good slot c)
          | inr g ↦
              let body = (decode_wsmask_data (take size buffer) (start_body fd size s)).0 in
              let p : NetPack = record { id = fd; size = size; buffer = body } in
              rw (f, g)
                (push_rest-ReplyHolds (some (push_data slot p)) (drop size buffer) handshake
                  (kept.pushes slot p c))
        ]
      ]

  pub filter_data-IsKept :
      (slot : Slot) (buffer : Bytes) (handshake : Bool)
      → IsGood slot
      → OutcomeHolds ReplyHolds (filter_data slot fd buffer handshake)
  unfolding filter_data
  filter_data-IsKept slot buffer handshake v = found (find_uncomplete slot fd) (kept.finds slot v)
    where
      found :
          (r : Option (Uncomplete × Queue))
          → FindsClear fd IsGood IsClear slot r
          → OutcomeHolds ReplyHolds (elim r [
            | some (uc, q) ↦ fill_uncomplete uc.read q fd uc buffer handshake
            | none ↦
                let (rest, s) = scan_front handshake buffer in
                fresh_sized s.pack_size slot fd rest s handshake
          ])
      found (some (uc, q)) (i, w, c) = fill_uncomplete-ReplyHolds q uc buffer handshake c i w
      found none c =
          let (rest, s) = scan_front handshake buffer in
          fresh_sized-ReplyHolds s.pack_size slot rest s handshake c
