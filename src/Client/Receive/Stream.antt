-- ===== src/Client/Receive/Stream.antt =====
-- The stream of bytes against the packets.
use sasy_server.Base.{
  joined, ◌+◌, ◌*◌, ◌^◌, ◌<◌, ◌≤◌, ◌≡◌, ◌≢◌, refl, ap, ◌∙◌, sym, subst, List, [], ◌∷◌, ◌++◌,
  append_assoc, append-nil, append-eq-nil, ltb, ◌||◌, Bool-cases, inl, inr, Bytes, length,
  length-append, length-pos, get_or, get_or-append_left, take-append-drop, take-append, drop-append,
  All, arith,
}
use sasy_server.Client.Receive.{
  max_read_size, Unpacked, packet, too_few, wrong_length, unpack, Thread, reading, stopped,
  after_read, read_all,
}

-- That packets and what is in the buffer are the bytes that came; a thread that stopped has left some.
abbrev pub Keeps : List Bytes → Thread → Bytes → Type 0
Keeps packets (reading rest) came = joined packets ++ rest ≡ came
Keeps packets stopped came = (left : Bytes) × (joined packets ++ left ≡ came)

Keeps-cons :
    (p : Bytes) (ps : List Bytes) (t : Thread) (came : Bytes)
    → Keeps ps t came
    → Keeps (p ∷ ps) t (p ++ came)
Keeps-cons p ps (reading rest) came e = append_assoc p (joined ps) rest ∙ ap (λ x. p ++ x) e
Keeps-cons p ps stopped came (left, e) =
    (left, append_assoc p (joined ps) left ∙ ap (λ x. p ++ x) e)

-- What `unpack` takes and leaves is the buffer.
abbrev Splits : Bytes → Unpacked → Type 0
Splits rbuffer (packet p rest) = p ++ rest ≡ rbuffer
Splits rbuffer too_few = Unit
Splits rbuffer wrong_length = Unit

unpack-Splits : (rbuffer : Bytes) → Splits rbuffer (unpack rbuffer)
unfolding unpack
unpack-Splits rbuffer = elim (Bool-cases (ltb (length rbuffer) 2)) [
  | inl a ↦ rw a tt
  | inr a ↦
      elim (Bool-cases (
        ltb (get_or rbuffer 0 0 * 2 ^ 8 + get_or rbuffer 1 0) 4
        || ltb max_read_size (get_or rbuffer 0 0 * 2 ^ 8 + get_or rbuffer 1 0))) [
          | inl b ↦ rw (a, b) tt
          | inr b ↦
              elim (Bool-cases
                (ltb (length rbuffer) (get_or rbuffer 0 0 * 2 ^ 8 + get_or rbuffer 1 0 + 2))) [
                  | inl c ↦ rw (a, b, c) tt
                  | inr c ↦
                      rw (a, b, c)
                        (take-append-drop (get_or rbuffer 0 0 * 2 ^ 8 + get_or rbuffer 1 0 + 2)
                          rbuffer)
                ]
        ]
]

after_read-Keeps :
    (u : Unpacked) (rbuffer later : Bytes) (k : Bytes → List Bytes × Thread)
    → Splits rbuffer u
    → ((b : Bytes) → Keeps (k b).0 (k b).1 (b ++ later))
    → Keeps (after_read u rbuffer k).0 (after_read u rbuffer k).1 (rbuffer ++ later)
after_read-Keeps too_few rbuffer later k s h = h rbuffer
after_read-Keeps wrong_length rbuffer later k s h = (rbuffer ++ later, refl)
after_read-Keeps (packet p rest) rbuffer later k s h =
    subst (Keeps (p ∷ (k rest).0) (k rest).1)
      (sym (append_assoc p rest later) ∙ ap (λ t. t ++ later) s)
      (Keeps-cons p (k rest).0 (k rest).1 (rest ++ later) (h rest))

-- However the bytes come, the packets in their order and what waits in the buffer are the bytes that
-- came; of a thread that a wrong length stopped, the packets are a front of them.
pub read_all-Keeps :
    (reads : List Bytes) (rbuffer : Bytes)
    → Keeps (read_all reads rbuffer).0 (read_all reads rbuffer).1 (rbuffer ++ joined reads)
unfolding read_all
read_all-Keeps [] rbuffer = sym (append-nil rbuffer)
read_all-Keeps (bytes ∷ reads) rbuffer =
    subst (Keeps (read_all (bytes ∷ reads) rbuffer).0 (read_all (bytes ∷ reads) rbuffer).1)
      (append_assoc rbuffer bytes (joined reads))
      (after_read-Keeps (unpack (rbuffer ++ bytes)) (rbuffer ++ bytes) (joined reads)
        (read_all reads) (unpack-Splits (rbuffer ++ bytes)) (read_all-Keeps reads))

-- A packet whose first two bytes are the length of the rest.
pub record IsPacket (p : Bytes) : Type 0 where
  pub says : get_or p 0 0 * 2 ^ 8 + get_or p 1 0 + 2 ≡ length p
  pub some_payload : 6 ≤ length p
  pub small : length p ≤ max_read_size

unpack_front :
    (p got more : Bytes) → IsPacket p → got ++ more ≡ p → more ≢ [] → unpack got ≡ too_few
unfolding unpack
unpack_front p got more w e ne = elim (Bool-cases (ltb (length got) 2)) [
  | inl a ↦ rw a refl
  | inr a ↦
      let l0 : 0 < length got = ground (arith, a) in
      let l1 : 1 < length got = ground (arith, a) in
      let b0 = sym (get_or-append_left got more 0 0 l0) ∙ ap (λ x. get_or x 0 0) e in
      let b1 = sym (get_or-append_left got more 1 0 l1) ∙ ap (λ x. get_or x 1 0) e in
      let l = length-append got more in
      let m = ap length e in
      rw (a, b0, b1) (ground (arith, w.says, w.some_payload, w.small, l, m, length-pos more ne))
]

unpack_whole : (p rest : Bytes) → IsPacket p → unpack (p ++ rest) ≡ packet p rest
unfolding unpack
unpack_whole p rest w =
    let b0 = get_or-append_left p rest 0 0 (omega (arith, w.some_payload)) in
    let b1 = get_or-append_left p rest 1 0 (omega (arith, w.some_payload)) in
    let l = length-append p rest in
    rw (b0, b1, w.says)
      (rw (take-append p rest (length p) refl, drop-append p rest (length p) refl)
        (ground (arith, w.says, w.some_payload, w.small, l)))

-- A packet that comes in any parts is handled once, with the last part, and the buffer is empty then.
pub read_all-parts :
    (reads : List Bytes) (rbuffer p : Bytes)
    → IsPacket p
    → rbuffer ++ joined reads ≡ p
    → joined reads ≢ []
    → All (λ bytes. bytes ≢ []) reads
    → read_all reads rbuffer ≡ (p ∷ [], reading [])
unfolding read_all
read_all-parts [] rbuffer p w e ne a = absurd (ne refl)
read_all-parts (bytes ∷ []) rbuffer p w e ne a =
    let whole : rbuffer ++ bytes ≡ p ++ [] =
      ap (λ t. rbuffer ++ t) (sym (append-nil bytes)) ∙ e ∙ sym (append-nil p) in
    rw whole (rw (unpack_whole p [] w) refl)
read_all-parts (bytes ∷ c ∷ reads) rbuffer p w e ne a =
    let more : joined (c ∷ reads) ≢ [] = λ z. a.1.0 (append-eq-nil c (joined reads) z) in
    let split = append_assoc rbuffer bytes (joined (c ∷ reads)) ∙ e in
    rw (unpack_front p (rbuffer ++ bytes) (joined (c ∷ reads)) w split more)
      (read_all-parts (c ∷ reads) (rbuffer ++ bytes) p w split more a.1)

-- When two packets come in one read, the first is handled and the second waits in the buffer; it is
-- handled only when a further read brings bytes.
pub read_all-waits :
    (p q bytes : Bytes)
    → IsPacket p
    → IsPacket q
    → (read_all ((p ++ q) ∷ []) [] ≡ (p ∷ [], reading q))
      × (read_all ((p ++ q) ∷ bytes ∷ []) [] ≡ (p ∷ q ∷ [], reading bytes))
unfolding read_all
read_all-waits p q bytes w v =
    (rw (unpack_whole p q w) refl, rw (unpack_whole p q w) (rw (unpack_whole q bytes v) refl))
