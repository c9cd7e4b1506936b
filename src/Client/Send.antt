-- ===== src/Client/Send.antt =====
-- The loops of game_room/client/httpclient.c that write a packet to a socket.
pub mod Count
use sasy_server.Base.{
  ℕ, zero, suc, ◌+◌, ◌<◌, ◌≡◌, refl, ap, ◌∙◌, sym, List, [], ◌∷◌, ◌++◌, map, append_assoc, ◌==◌,
  if◌then◌else◌, Bytes, length, take, drop, drop-drop, All, true, false, length-append, length-take,
  take-all, length-drop, arith, Outcome, ok, fault, spent,
}
use sasy_server.Base.Int.{ℤ, pos, negsuc}

-- `while (true) { send_size = write(fd, wbuffer + wlenght, pack_size - wlenght); wlenght += send_size;
-- if (wlenght == pack_size) break; }`, with what `write` returns in each round, and the bytes on the
-- wire. An error is -1. A pointer before the buffer is a fault, and `spent` is a loop that goes on.
unfoldable pub write_loop : Bytes → List ℤ → ℕ → Bytes → Outcome Bytes
write_loop packet [] wlenght wire = spent
write_loop packet (pos n ∷ results) wlenght wire =
    let rest = write_loop packet results (wlenght + n) (wire ++ take n (drop wlenght packet)) in
    if wlenght + n == length packet then ok (wire ++ take n (drop wlenght packet)) else rest
write_loop packet (negsuc n ∷ results) zero wire = fault
write_loop packet (negsuc n ∷ results) (suc wlenght) wire =
    let rest = write_loop packet results wlenght wire in
    if wlenght == length packet then ok wire else rest

abbrev pub total : List ℕ → ℕ
total [] = 0
total (n ∷ ns) = n + total ns

take-nil : (n : ℕ) → take {A = ℕ} n [] ≡ []
take-nil zero = refl
take-nil (suc n) = refl

take_more : (a b : ℕ) (xs : Bytes) → take a xs ++ take b (drop a xs) ≡ take (a + b) xs
take_more zero b xs = ap (λ n. take n xs) (omega arith)
take_more (suc a) b [] = take-nil b ∙ sym (take-nil (suc a + b))
take_more (suc a) b (x ∷ xs) =
    ap (λ t. x ∷ t) (take_more a b xs) ∙ ap (λ n. take n (x ∷ xs)) (next a b)
  where
    next : (a b : ℕ) → suc (a + b) ≡ suc a + b
    next a b = omega arith

write_loop-rest :
    (packet : Bytes) (n : ℕ) (ns : List ℕ) (wlenght : ℕ) (wire : Bytes)
    → All (λ k. 0 < k) (n ∷ ns)
    → wlenght + total (n ∷ ns) ≡ length packet
    → write_loop packet (map pos (n ∷ ns)) wlenght wire
      ≡ ok (wire ++ take (total (n ∷ ns)) (drop wlenght packet))
unfolding write_loop
write_loop-rest packet n [] wlenght wire a e =
    rw as_true (ap (λ k. ok (wire ++ take k (drop wlenght packet))) (omega arith))
  where
    as_true : (wlenght + n == length packet) ≡ true
    as_true = ground (arith, e)
write_loop-rest packet n (m ∷ ns) wlenght wire a e = rw not_yet (
    write_loop-rest packet m ns (wlenght + n) (wire ++ take n (drop wlenght packet)) a.1
      (omega arith)
    ∙ ap ok (
        append_assoc wire (take n (drop wlenght packet))
          (take (m + total ns) (drop (wlenght + n) packet))
        ∙ ap (λ t. wire ++ t)
            (ap (λ t. take n (drop wlenght packet) ++ take (m + total ns) t)
                (sym (drop-drop wlenght n packet))
              ∙ take_more n (m + total ns) (drop wlenght packet))))
  where
    not_yet : (wlenght + n == length packet) ≡ false
    not_yet = ground (arith, e, a.1.0)

-- However `write` splits a packet into parts that are not empty, the bytes on the wire are the packet.
pub write_loop-parts :
    (packet : Bytes) (n : ℕ) (ns : List ℕ)
    → All (λ k. 0 < k) (n ∷ ns)
    → total (n ∷ ns) ≡ length packet
    → write_loop packet (map pos (n ∷ ns)) 0 [] ≡ ok packet
write_loop-parts packet n ns a e =
    write_loop-rest packet n ns 0 [] a (omega arith)
    ∙ ap ok (take-all (total (n ∷ ns)) packet (omega arith))

goes_on :
    (packet : Bytes) (n : ℕ) (results : List ℤ) (wlenght : ℕ) (wire : Bytes) (now : ℕ)
    → wlenght + n ≡ now
    → (now == length packet) ≡ false
    → write_loop packet (pos n ∷ results) wlenght wire
      ≡ write_loop packet results now (wire ++ take n (drop wlenght packet))
unfolding write_loop
goes_on packet n results wlenght wire now w e = rw (w, e) refl

ends :
    (packet : Bytes) (n : ℕ) (results : List ℤ) (wlenght : ℕ) (wire : Bytes)
    → (wlenght + n == length packet) ≡ true
    → write_loop packet (pos n ∷ results) wlenght wire ≡ ok (wire ++ take n (drop wlenght packet))
unfolding write_loop
ends packet n results wlenght wire e = rw e refl

goes_back :
    (packet : Bytes) (results : List ℤ) (wlenght : ℕ) (wire : Bytes)
    → (wlenght == length packet) ≡ false
    → write_loop packet (negsuc 0 ∷ results) (suc wlenght) wire
      ≡ write_loop packet results wlenght wire
unfolding write_loop
goes_back packet results wlenght wire e = rw e refl

fails_at_once :
    (packet : Bytes) (results : List ℤ) → write_loop packet (negsuc 0 ∷ results) 0 [] ≡ fault
unfolding write_loop
fails_at_once packet results = refl

-- Where one `write` fails between two that succeed, the last byte that was written is written again: the
-- wire has one byte more than the packet. Where the first one fails, the code writes from before its
-- buffer.
pub write_loop-error :
    (packet : Bytes) (n m : ℕ) (results : List ℤ)
    → suc n < length packet
    → n + m ≡ length packet
    → (write_loop packet (pos (suc n) ∷ negsuc 0 ∷ pos m ∷ []) 0 []
        ≡ ok (take (suc n) packet ++ drop n packet))
      × (length (take (suc n) packet ++ drop n packet) ≡ length packet + 1)
      × (write_loop packet (negsuc 0 ∷ results) 0 [] ≡ fault)
write_loop-error packet n m results h e =
    let first : (suc n == length packet) ≡ false = ground (arith, h) in
    let second : (n == length packet) ≡ false = ground (arith, h) in
    let third : (n + m == length packet) ≡ true = ground (arith, e) in
    let sent = take (suc n) packet in
    (
      goes_on packet (suc n) (negsuc 0 ∷ pos m ∷ []) 0 [] (suc n) (omega arith) first
          ∙ goes_back packet (pos m ∷ []) n sent second
          ∙ ends packet m [] n sent third
          ∙ ap (λ t. ok (sent ++ t))
              (take-all m (drop n packet) (omega (arith, length-drop n packet))),
      omega (
        arith,
        length-append sent (drop n packet),
        length-take (suc n) packet,
        length-drop n packet,
      ),
      fails_at_once packet results,
    )
