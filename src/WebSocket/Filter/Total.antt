-- ===== src/WebSocket/Filter/Total.antt =====
-- Every call of `filter_data` comes to an end.
use sasy_server.Base.{
  ℕ, ◌+◌, ◌-◌, refl, ◌≢◌, Bool, true, false, [], ◌∷◌, ◌++◌, Bytes, length, take, drop, min, arith,
  Outcome, ok, fault, spent, ◌>>=◌, some, none,
}
use sasy_server.Base.Int.{ℤ, pos, negsuc}
use sasy_server.WebSocket.Frame.{Scan}
use sasy_server.WebSocket.Queue.{Uncomplete, Queue, Slot, push_data}
use sasy_server.WebSocket.Table.{find_uncomplete}
use sasy_server.WebSocket.Scan.{scan_front, save_header, fill, start_body, decode_wsmask_data}
use sasy_server.WebSocket.More.{push_more}
use sasy_server.WebSocket.More.Total.{push_more-ne-spent}
use sasy_server.WebSocket.Filter.{
  filter_data, fresh_sized, fill_uncomplete, fill_header, fill_header_sized, fill_body, push_rest,
  header_loop, grow_header, and_reply, pending, open_pack,
}

bind-ne-spent :
    {A B : Type 0} (m : Outcome A) (f : A → Outcome B)
    → m ≢ spent
    → ((a : A) → f a ≢ spent)
    → (m >>= f) ≢ spent
bind-ne-spent (ok a) f h k = k a
bind-ne-spent fault f h k = λ e. cc
bind-ne-spent spent f h k = λ e. h refl

push_rest-ne-spent :
    (slot : Slot) (fd : ℕ) (rest : Bytes) (handshake : Bool)
    → push_rest slot fd rest handshake ≢ spent
unfolding push_rest
push_rest-ne-spent slot fd rest handshake =
    bind-ne-spent (push_more (length rest + 1) slot fd rest handshake) _
      (push_more-ne-spent (length rest + 1) slot fd rest handshake (omega arith)) (λ a e. cc)

fill_body-ne-spent :
    (q : Queue) (fd : ℕ) (uc : Uncomplete) (n : ℕ) (buffer : Bytes) (handshake : Bool)
    → fill_body q fd uc n buffer handshake ≢ spent
unfolding fill_body
fill_body-ne-spent q fd uc n buffer handshake e =
    (let need = uc.pack.size - n in
      let full = fill uc n (take need buffer) in
      let queued = some (
        push_data (some q)
          (record { id = fd; size = full.pack.size; buffer = full.pack.buffer })) in
      ground (arith, push_rest-ne-spent queued fd (drop need buffer) handshake))

fill_header_sized-ne-spent :
    (z : ℤ) (q : Queue) (fd : ℕ) (uc : Uncomplete) (header : Bytes) (s : Scan) (rest : Bytes)
    (handshake : Bool)
    → fill_header_sized z q fd uc header s rest handshake ≢ spent
unfolding fill_header_sized
fill_header_sized-ne-spent (negsuc n) q fd uc header s rest handshake e = ground arith
fill_header_sized-ne-spent (pos n) q fd uc header s rest true e =
    fill_body-ne-spent q fd
      (record (open_pack uc fd header s n) {
        pack = record { id = uc.pack.id; size = n; buffer = take (min (length header) n) header };
      })
      (min (length header) n) rest true e
fill_header_sized-ne-spent (pos n) q fd uc header s rest false e =
    fill_body-ne-spent q fd (open_pack uc fd header s n) 0 rest false e

header_loop-ne-spent :
    (handshake : Bool) (header bs : Bytes) → header_loop handshake header bs ≢ spent
unfolding header_loop
header_loop-ne-spent handshake header [] e = cc
header_loop-ne-spent handshake header (b ∷ []) e = ground arith
header_loop-ne-spent handshake header (b ∷ c ∷ bs) e =
    (let after = grow_header handshake (header ++ b ∷ []) in
      ground (arith, header_loop-ne-spent handshake after.0 (c ∷ bs)))

fill_uncomplete-ne-spent :
    (z : ℤ) (q : Queue) (fd : ℕ) (uc : Uncomplete) (buffer : Bytes) (handshake : Bool)
    → fill_uncomplete z q fd uc buffer handshake ≢ spent
unfolding fill_uncomplete fill_header
fill_uncomplete-ne-spent (pos n) q fd uc buffer handshake =
    fill_body-ne-spent q fd uc n buffer handshake
fill_uncomplete-ne-spent (negsuc n) q fd uc buffer handshake =
    bind-ne-spent (header_loop handshake uc.header buffer) _
      (header_loop-ne-spent handshake uc.header buffer)
      (λ (h, s, rest). fill_header_sized-ne-spent s.pack_size q fd uc h s rest handshake)

save_header-ne-spent :
    (slot : Slot) (fd : ℕ) (handshake : Bool) (buffer : Bytes)
    → save_header slot fd handshake buffer ≢ spent
unfolding save_header
save_header-ne-spent slot fd handshake buffer e = ground arith

fresh_sized-ne-spent :
    (z : ℤ) (slot : Slot) (fd : ℕ) (rest : Bytes) (s : Scan) (handshake : Bool)
    → fresh_sized z slot fd rest s handshake ≢ spent
unfolding fresh_sized
fresh_sized-ne-spent (negsuc n) slot fd rest s handshake e =
    (let bind =
        bind-ne-spent (save_header slot fd handshake rest) (and_reply pending)
          (save_header-ne-spent slot fd handshake rest) (λ a e. cc) in
      ground (arith, bind))
fresh_sized-ne-spent (pos size) slot fd rest s handshake e =
    (let buffer = drop s.head_length rest in
      let body = (decode_wsmask_data (take size buffer) (start_body fd size s)).0 in
      let queued = some (push_data slot (record { id = fd; size = size; buffer = body })) in
      ground (arith, push_rest-ne-spent queued fd (drop size buffer) handshake))

-- Whatever the queue, the saved entries and the bytes are, a call of `filter_data` does not run out of the fuel that it gives to `push_more`: it has a result, or it faults.
pub filter_data-ne-spent :
    (slot : Slot) (fd : ℕ) (buffer : Bytes) (handshake : Bool)
    → filter_data slot fd buffer handshake ≢ spent
unfolding filter_data
filter_data-ne-spent slot fd buffer handshake =
    elim (find_uncomplete slot fd)
      as (λ r.
        elim r [
          | some (uc, q) ↦ fill_uncomplete uc.read q fd uc buffer handshake
          | none ↦
              fresh_sized (scan_front handshake buffer).1.pack_size slot fd
                (scan_front handshake buffer).0 (scan_front handshake buffer).1 handshake
        ]
        ≢ spent) [
          | some (uc, q) ↦ fill_uncomplete-ne-spent uc.read q fd uc buffer handshake
          | none ↦
              fresh_sized-ne-spent (scan_front handshake buffer).1.pack_size slot fd
                (scan_front handshake buffer).0 (scan_front handshake buffer).1 handshake
        ]
