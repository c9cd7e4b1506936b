-- ===== src/Client/Send/Count.antt =====
-- The loops of `thread_http_socket` and `thread_telnet_socket` of game_room/client/httpclient.c that
-- count down the bytes that are left to write.
use sasy_server.Base.{
  ℕ, zero, suc, ◌+◌, ◌-◌, ◌≤◌, ◌≡◌, refl, false, List, [], ◌∷◌, ◌++◌, ltb, le→ltb, ◌==◌,
  if◌then◌else◌, Bytes, length, take, drop, arith, Outcome, ok, fault, spent,
}
use sasy_server.Base.Int.{ℤ, pos, negsuc}
use sasy_server.Client.Send.{write_loop}

-- `while (true) { size_send = write(fd, wbuffer + wlenght, size_pack); wlenght += size_send;
-- size_pack -= size_send; if (size_pack == 0) break; }`, with what `write` returns in each round, and
-- the bytes on the wire. A `write` of more than it is told to, and one from before the buffer, are
-- faults; `spent` is a loop that goes on.
unfoldable pub count_loop : Bytes → List ℤ → ℕ → ℕ → Bytes → Outcome Bytes
count_loop packet [] wlenght size_pack wire = spent
count_loop packet (pos n ∷ results) wlenght size_pack wire =
    let sent = wire ++ take n (drop wlenght packet) in
    let rest = count_loop packet results (wlenght + n) (size_pack - n) sent in
    if ltb size_pack n then fault else if size_pack - n == 0 then ok sent else rest
count_loop packet (negsuc n ∷ results) zero size_pack wire = fault
count_loop packet (negsuc n ∷ results) (suc wlenght) size_pack wire =
    let rest = count_loop packet results wlenght (size_pack + 1) wire in
    if size_pack + 1 == 0 then ok wire else rest

-- What a `write` can return of so many bytes: no more than those, or an error.
abbrev pub Possible : List ℤ → ℕ → Type 0
Possible [] left = Unit
Possible (pos n ∷ results) left = (n ≤ left) × Possible results (left - n)
Possible (negsuc n ∷ results) left = Possible results (left + 1)

count_loop-at :
    (packet : Bytes) (results : List ℤ) (wlenght size_pack : ℕ) (wire : Bytes)
    → wlenght + size_pack ≡ length packet
    → Possible results size_pack
    → count_loop packet results wlenght size_pack wire ≡ write_loop packet results wlenght wire
unfolding count_loop write_loop
count_loop-at packet [] wlenght size_pack wire e p = refl
count_loop-at packet (pos n ∷ results) wlenght size_pack wire e (l, p) =
    let allowed : ltb size_pack n ≡ false = le→ltb size_pack n l in
    let same : (size_pack - n == 0) ≡ (wlenght + n == length packet) = ground (arith, e, l) in
    let rest =
      count_loop-at packet results (wlenght + n) (size_pack - n)
        (wire ++ take n (drop wlenght packet)) (omega arith) p in
    rw (allowed, same, rest) refl
count_loop-at packet (negsuc n ∷ results) zero size_pack wire e p = refl
count_loop-at packet (negsuc n ∷ results) (suc wlenght) size_pack wire e p =
    let left : (size_pack + 1 == 0) ≡ false = ground arith in
    let going : (wlenght == length packet) ≡ false = ground (arith, e) in
    rw (left, going) (count_loop-at packet results wlenght (size_pack + 1) wire (omega arith) p)

-- The loop that counts down what is left does, with every series of results that `write` can return,
-- what the loop does that counts up to the packet's length: errors included.
pub count_loop-eq-write_loop :
    (packet : Bytes) (results : List ℤ)
    → Possible results (length packet)
    → count_loop packet results 0 (length packet) [] ≡ write_loop packet results 0 []
count_loop-eq-write_loop packet results p =
    count_loop-at packet results 0 (length packet) [] (omega arith) p
