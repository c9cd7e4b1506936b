-- ===== src/WebSocket/Valid/More.antt =====
-- `push_more` keeps what the queue's operations keep.
use sasy_server.Base.{
  ℕ, zero, suc, Bool, ◌&&◌, not, Bool-cases, inl, inr, [], ◌∷◌, ltb, ◌==◌, Bytes, length, take,
  drop, some, Outcome, ok, fault, spent, arith,
}
use sasy_server.Base.Int.{ℤ, pos, negsuc}
use sasy_server.WebSocket.Frame.{Scan}
use sasy_server.WebSocket.Queue.{Queue, Slot}
use sasy_server.WebSocket.Scan.{scan_front, save_header, start_body, fill, decode_wsmask_data}
use sasy_server.WebSocket.More.{
  Round, saved, queued, broken, round_of_header, take_pack, push_round_sized, push_round, push_more,
}
use sasy_server.WebSocket.Valid.{OutcomeHolds}
use sasy_server.WebSocket.Valid.Kept.{IsKept}
use sasy_server.WebSocket.Valid.Fills.{start_body-IsEntry, save_header-IsKept}

module _ (fd : ℕ) (IsGood IsClear : Slot → Type 0) (kept : IsKept fd IsGood IsClear) where
  -- While packets are queued the socket has no entry.
  abbrev RoundHolds : Round → Type 0
  RoundHolds (saved slot) = IsGood slot
  RoundHolds (queued q rest) = IsClear (some q)
  RoundHolds broken = Unit

  take_pack-RoundHolds :
      (slot : Slot) (handshake : Bool) (s : Scan) (size : ℕ) (buffer : Bytes)
      → IsClear slot
      → RoundHolds (take_pack slot fd handshake s size buffer)
  unfolding take_pack
  take_pack-RoundHolds slot handshake s size buffer c =
      elim (Bool-cases (ltb (length buffer) size && not handshake)) [
        | inl t ↦
            let (w, i) = start_body-IsEntry fd size s buffer (ground (arith, t)) in
            rw t (kept.saves slot (fill (start_body fd size s) 0 buffer) c i w)
        | inr f ↦ rw f (
            kept.pushes slot
              (record {
                id = fd;
                size = size;
                buffer = (decode_wsmask_data (take size buffer) (start_body fd size s)).0;
              })
              c)
      ]

  push_round_sized-RoundHolds :
      (z : ℤ) (slot : Slot) (handshake : Bool) (rest : Bytes) (s : Scan)
      → IsClear slot
      → RoundHolds (push_round_sized z slot fd handshake rest s)
  unfolding push_round_sized round_of_header
  push_round_sized-RoundHolds (pos size) slot handshake rest s c =
      take_pack-RoundHolds slot handshake s size (drop s.head_length rest) c
  push_round_sized-RoundHolds (negsuc n) slot handshake rest s c = elim (Bool-cases (n == 0)) [
    | inr f ↦ rw f tt
    | inl t ↦ rw t (
        of_header (save_header slot fd handshake rest)
          (save_header-IsKept slot fd handshake rest IsGood IsClear kept c))
  ]
    where
      of_header : (o : Outcome Slot) → OutcomeHolds IsGood o → RoundHolds (round_of_header o)
      of_header (ok slot') h = h
      of_header fault h = tt
      of_header spent h = tt

  pub push_more-IsKept :
      (fuel : ℕ) (slot : Slot) (buffer : Bytes) (handshake : Bool)
      → IsClear slot
      → OutcomeHolds IsGood (push_more fuel slot fd buffer handshake)
  unfolding push_more push_round
  push_more-IsKept zero slot buffer handshake c = tt
  push_more-IsKept (suc fuel) slot buffer handshake c =
      let (rest, s) = scan_front handshake buffer in
      go_on (push_round_sized s.pack_size slot fd handshake rest s)
        (push_round_sized-RoundHolds s.pack_size slot handshake rest s c)
        (λ q b bs w. push_more-IsKept fuel (some q) (b ∷ bs) handshake w)
    where
      go_on :
          (r : Round)
          → RoundHolds r
          → ((q : Queue) (b : ℕ) (bs : Bytes)
              → IsClear (some q)
              → OutcomeHolds IsGood (push_more fuel (some q) fd (b ∷ bs) handshake))
          → OutcomeHolds IsGood (elim r [
            | saved slot' ↦ ok slot'
            | broken ↦ fault
            | queued q [] ↦ ok (some q)
            | queued q (b ∷ bs) ↦ push_more fuel (some q) fd (b ∷ bs) handshake
          ])
      go_on (saved slot') h k = h
      go_on broken h k = tt
      go_on (queued q []) h k = kept.good (some q) h
      go_on (queued q (b ∷ bs)) h k = k q b bs h
