-- ===== src/Chat/Stream/Order.antt =====
-- The messages that come to a client.
use sasy_server.Base.{
  ℕ, zero, suc, ◌<◌, ◌≤◌, ◌≡◌, ◌≢◌, refl, sym, ap, ◌∙◌, List, [], ◌∷◌, ◌++◌, append_assoc, Bytes,
  length, length-append, length-pos, take-append, drop-append, joined, All, arith, ok, spent, ◌>>=◌,
}
use sasy_server.Chat.Packet.{header_size, int_at, int_at-append, IsSent, read-IsSent}
use sasy_server.Chat.Stream.{short, waits, whole, find, take_packets}

find-message :
    (message rest : Bytes) → IsSent message → find (message ++ rest) ≡ whole (length message)
unfolding find
find-message message rest s =
    let w = read-IsSent message s in
    rw (int_at-append message rest 8 (omega (arith, w.long)) ∙ w.len_of)
      (ground (arith, w.long, w.fits, length-append message rest))

find-part :
    (message got more : Bytes)
    → IsSent message
    → got ++ more ≡ message
    → more ≢ []
    → header_size ≤ length got
    → find got ≡ waits
unfolding find
find-part message got more s e ne h =
    let w = read-IsSent message s in
    rw (sym (int_at-append got more 8 (omega arith)) ∙ ap (λ t. int_at t 8) e ∙ w.len_of)
      (ground (arith, w.long, w.fits, ap length e, length-append got more, length-pos more ne))

find-short : (tail : Bytes) → length tail < header_size → find tail ≡ short
unfolding find
find-short tail h = ground arith

-- A round that finds a message goes on behind it.
take_packets-message :
    (fuel : ℕ) (message rest : Bytes)
    → IsSent message
    → take_packets (suc fuel) (message ++ rest)
      ≡ (take_packets fuel rest >>= λ r. ok (message ∷ r.0, r.1))
unfolding take_packets
take_packets-message fuel message rest s =
    rw (find-message message rest s, take_packets)
      (rw
        (
          drop-append message rest (length message) refl,
          take-append message rest (length message) refl,
        )
        refl)

-- Messages of `lsend_chat` that have come one after the other are handled in their order, with a part of
-- less than a head left in the buffer; one round more than there are messages is enough.
pub take_packets-messages :
    (messages : List Bytes) (tail : Bytes) (fuel : ℕ)
    → All IsSent messages
    → length tail < 12
    → length messages < fuel
    → take_packets fuel (joined messages ++ tail) ≡ ok (messages, tail)
unfolding take_packets
take_packets-messages messages tail zero a h f = absurd (omega arith)
take_packets-messages [] tail (suc fuel) a h f = rw (find-short tail h, take_packets) refl
take_packets-messages (m ∷ messages) tail (suc fuel) a h f =
    ap (take_packets (suc fuel)) (append_assoc m (joined messages) tail)
    ∙ take_packets-message fuel m (joined messages ++ tail) a.0
    ∙ ap (λ o. o >>= λ r. ok (m ∷ r.0, r.1))
        (take_packets-messages messages tail fuel a.1 h (omega arith))

-- When the head of a further message and not all of its text has come behind whole messages, the loop
-- never ends: no number of rounds is enough, and the rest of the message is not read.
pub take_packets-part :
    (messages : List Bytes) (message got more : Bytes) (fuel : ℕ)
    → All IsSent messages
    → IsSent message
    → got ++ more ≡ message
    → more ≢ []
    → 12 ≤ length got
    → take_packets fuel (joined messages ++ got) ≡ spent
unfolding take_packets
take_packets-part messages message got more zero a s e ne h = refl
take_packets-part [] message got more (suc fuel) a s e ne h =
    rw (find-part message got more s e ne h, take_packets)
      (take_packets-part [] message got more fuel a s e ne h)
take_packets-part (m ∷ messages) message got more (suc fuel) a s e ne h =
    ap (take_packets (suc fuel)) (append_assoc m (joined messages) got)
    ∙ take_packets-message fuel m (joined messages ++ got) a.0
    ∙ ap (λ o. o >>= λ r. ok (m ∷ r.0, r.1))
        (take_packets-part messages message got more fuel a.1 s e ne h)
