-- ===== src/Poll/Echo.antt =====
-- What the server writes back to its clients.
use sasy_server.Base.{
  All-append, ℕ, zero, suc, ◌+◌, ◌-◌, ◌^◌, ◌<◌, ◌≤◌, ◌≡◌, refl, ap, ◌∙◌, List, [], ◌∷◌, ◌++◌,
  append-nil, lt→ltb, ◌==◌, true, false, Bytes, length, length-append, length-drop, drop, drop-nil,
  All, u32, arith, Option, some, ok, ◌>>=◌,
}
use sasy_server.Poll.{
  empty_slots, c_text, buf_size, handle_client_msg, Kernel, echoed, recv_loop, recv_client_msg,
}

-- A text without a zero byte.
abbrev pub IsText : Bytes → Type 0
IsText bytes = All (λ c. 0 < c) bytes

c_text-IsText : (bytes : Bytes) → IsText bytes → c_text bytes ≡ bytes
c_text-IsText [] a = refl
c_text-IsText (c ∷ cs) a = rw nonzero (ap (λ t. c ∷ t) (c_text-IsText cs a.1))
  where
    nonzero : (c == 0) ≡ false
    nonzero = ground (arith, a.0)

IsText-drop : (n : ℕ) (xs : Bytes) → IsText xs → IsText (drop n xs)
IsText-drop zero xs a = a
IsText-drop (suc n) [] a = tt
IsText-drop (suc n) (x ∷ xs) a = IsText-drop n xs a.1

handles : (text : Bytes) → IsText text → length text < buf_size → handle_client_msg text ≡ ok text
unfolding handle_client_msg
handles text a h = rw (c_text-IsText text a) (rw (lt→ltb (length text) buf_size h) refl)

pub recv_loop-empty_slots :
    (kernel : Kernel) (n : ℕ) (buf : Bytes)
    → recv_loop kernel (empty_slots n) buf
      ≡ ok (record { slots = empty_slots n; gone = []; echoes = [] })
unfolding recv_loop
recv_loop-empty_slots kernel zero buf = refl
recv_loop-empty_slots kernel (suc n) buf = rw (recv_loop-empty_slots kernel n buf) refl

recv_loop-echo :
    (kernel : Kernel) (fd : ℕ) (slots : List (Option ℕ)) (bytes buf text : Bytes)
    → kernel.is_set fd ≡ true
    → kernel.read fd ≡ some bytes
    → bytes ++ drop (length bytes) buf ≡ text
    → IsText text
    → length text < buf_size
    → recv_loop kernel (some fd ∷ slots) buf
      ≡ (recv_loop kernel slots text >>= λ r. ok (echoed fd text r))
unfolding recv_loop
recv_loop-echo kernel fd slots bytes buf text p q e a h =
    rw (p, q, e, handles text a h, recv_loop) refl

-- When the only two clients of the server, in its first two slots, have sent texts without a zero byte in
-- one round, the first of fewer than 65535 bytes and the second not longer than the first, then the first client gets its text back, and the second gets its own with the end of
-- the first client's text behind it; nothing else changes.
pub recv_client_msg-stale :
    (kernel : Kernel) (a b : ℕ) (xs ys : Bytes)
    → (kernel.is_set a ≡ true) × (kernel.read a ≡ some xs)
    → (kernel.is_set b ≡ true) × (kernel.read b ≡ some ys)
    → IsText xs
    → IsText ys
    → length ys ≤ length xs
    → length xs < 65535
    → recv_client_msg kernel
        (record { clients_fd = some a ∷ some b ∷ empty_slots 1022; client_count = 2; closed = [] })
      ≡ ok (
        record { clients_fd = some a ∷ some b ∷ empty_slots 1022; client_count = 2; closed = [] },
        (a, xs) ∷ (b, ys ++ drop (length ys) xs) ∷ [],
      )
unfolding recv_client_msg
recv_client_msg-stale kernel a b xs ys (p, q) (p', q') t u l h =
    ap
      (λ o. o >>= λ r. ok (
        record {
          clients_fd = r.slots;
          client_count = u32 (2 + 2 ^ 32 - length r.gone);
          closed = r.gone;
        },
        r.echoes,
      ))
      both
  where
    rest :
        recv_loop kernel (some b ∷ empty_slots 1022) xs
        ≡ ok (record {
          slots = some b ∷ empty_slots 1022;
          gone = [];
          echoes = (b, ys ++ drop (length ys) xs) ∷ [];
        })
    rest =
        recv_loop-echo kernel b (empty_slots 1022) ys xs (ys ++ drop (length ys) xs) p' q' refl
          (All-append (λ c. 0 < c) ys (drop (length ys) xs) u (IsText-drop (length ys) xs t))
          (omega (arith, length-append ys (drop (length ys) xs), length-drop (length ys) xs))
        ∙ ap (λ o. o >>= λ r. ok (echoed b (ys ++ drop (length ys) xs) r))
            (recv_loop-empty_slots kernel 1022 (ys ++ drop (length ys) xs))

    both :
        recv_loop kernel (some a ∷ some b ∷ empty_slots 1022) []
        ≡ ok (record {
          slots = some a ∷ some b ∷ empty_slots 1022;
          gone = [];
          echoes = (a, xs) ∷ (b, ys ++ drop (length ys) xs) ∷ [];
        })
    both =
        recv_loop-echo kernel a (some b ∷ empty_slots 1022) xs [] xs p q
          (ap (λ d. xs ++ d) (drop-nil (length xs)) ∙ append-nil xs) t h
        ∙ ap (λ o. o >>= λ r. ok (echoed a xs r)) rest
