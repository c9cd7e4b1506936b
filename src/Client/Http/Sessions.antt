-- ===== src/Client/Http/Sessions.antt =====
-- The responses that `http_register_session` takes from its socket.
use sasy_server.Base.{
  ◌⊎◌, joined, ◌+◌, ◌<◌, ◌≡◌, ◌≢◌, refl, ap, ◌∙◌, sym, subst, false, inl, inr, List, [], ◌∷◌, ◌++◌,
  append-nil, append_assoc, map, leb, Bytes, length, length-append, drop-all, arith, Outcome, ok,
  ◌>>=◌, lt→ltb,
}
use sasy_server.Client.Http.Header.{IsResponse}
use sasy_server.Client.Http.Parts.{
  get_http_response_body-IsResponse, get_http_response_body-part, get_http_response_body-more,
}
use sasy_server.Client.Reads.{Read, received, interrupted, failed, closed, size_of_rbuffer}
use sasy_server.Client.Http.Register.{
  reading, Session, hand_out, printed, after_response, register_loop,
}

-- A response, with its body, that the buffers have room for, and a zero behind the body.
pub record Answer : Type 0 where
  pub response : Bytes
  pub body : Bytes
  pub good : IsResponse response body
  pub body_fits : length body < 1024
  pub fits : length response < size_of_rbuffer

-- That reads bring responses, of the first of which `rbuffer` has come already: each read brings a
-- part of one response.
abbrev pub Comes : List Read → Bytes → List Answer → Type 0
Comes [] rbuffer [] = rbuffer ≡ []
Comes [] rbuffer (a ∷ answers) = ⊥
Comes (interrupted ∷ reads) rbuffer answers = Comes reads rbuffer answers
Comes (failed ∷ reads) rbuffer answers = ⊥
Comes (closed ∷ reads) rbuffer answers = ⊥
Comes (received bytes ∷ reads) rbuffer [] = ⊥
Comes (received bytes ∷ reads) rbuffer (a ∷ answers) =
    (bytes ≢ [])
    × (((rbuffer ++ bytes ≡ a.response) × Comes reads [] answers)
        ⊎ ((more : Bytes) × ((rbuffer ++ bytes) ++ more ≡ a.response)
            × (more ≢ [])
            × Comes reads (rbuffer ++ bytes) (a ∷ answers)))

printed-short :
    (body : Bytes) (session : Outcome Session)
    → length body < 1024
    → printed body session ≡ (session >>= λ s. ok (hand_out body s))
unfolding printed
printed-short body session h = rw (lt→ltb (length body) 1024 h) refl

has_room :
    (rbuffer : Bytes)
    → length rbuffer < size_of_rbuffer
    → leb size_of_rbuffer (length rbuffer) ≡ false
has_room rbuffer h = ground (arith, h)

-- Every response of fewer than 81920 bytes, with a body of fewer than 1024, that comes in parts, each
-- read a part of one response, is handed out, in its order, with its last part.
pub register_loop-Comes :
    (reads : List Read) (rbuffer : Bytes) (answers : List Answer)
    → length rbuffer < size_of_rbuffer
    → Comes reads rbuffer answers
    → register_loop reads rbuffer ≡ ok (map (λ a. a.body) answers, [], reading)
unfolding register_loop after_response
register_loop-Comes [] rbuffer [] h c = rw c refl
register_loop-Comes [] rbuffer (a ∷ answers) h c = absurd c
register_loop-Comes (interrupted ∷ reads) rbuffer answers h c =
    rw (has_room rbuffer h) (register_loop-Comes reads rbuffer answers h c)
register_loop-Comes (failed ∷ reads) rbuffer answers h c = absurd c
register_loop-Comes (closed ∷ reads) rbuffer answers h c = absurd c
register_loop-Comes (received bytes ∷ reads) rbuffer [] h c = absurd c
register_loop-Comes (received bytes ∷ reads) rbuffer (a ∷ answers) h (some, inl (e, c)) =
    let now =
      get_http_response_body-IsResponse a.response a.body 1024 a.good
        (omega (arith, a.body_fits)) in
    let rest = register_loop-Comes reads [] answers (omega arith) c in
    rw
      (
        has_room rbuffer h,
        e,
        now,
        printed-short a.body _ a.body_fits,
        drop-all (length a.response) a.response (omega arith),
      )
      (rw rest refl)
register_loop-Comes (received bytes ∷ reads) rbuffer (a ∷ answers) h (some, inr (more, e, m, c)) =
    let good : IsResponse ((rbuffer ++ bytes) ++ more) a.body =
      subst (λ t. IsResponse t a.body) (sym e) a.good in
    let now = get_http_response_body-part (rbuffer ++ bytes) more a.body 1024 good m in
    let room : length (rbuffer ++ bytes) < size_of_rbuffer =
      omega (arith, a.fits, length-append (rbuffer ++ bytes) more, ap length e) in
    rw (has_room rbuffer h, now) (register_loop-Comes reads (rbuffer ++ bytes) (a ∷ answers) room c)

append-ne_nil : (xs ys : Bytes) → xs ≢ [] → xs ++ ys ≢ []
append-ne_nil [] ys h e = h refl
append-ne_nil (x ∷ xs) ys h e = cc

stuck :
    (response more body : Bytes) (parts : List Bytes)
    → IsResponse response body
    → more ≢ []
    → length (response ++ more) + length (joined parts) < size_of_rbuffer
    → register_loop (map received parts) (response ++ more)
      ≡ ok ([], (response ++ more) ++ joined parts, reading)
unfolding register_loop after_response
stuck response more body [] r m h =
    ap (λ t. ok ([], t, reading)) (sym (append-nil (response ++ more)))
stuck response more body (bytes ∷ parts) r m h =
    let grown : (response ++ more) ++ bytes ≡ response ++ (more ++ bytes) =
      append_assoc response more bytes in
    let m' = append-ne_nil more bytes m in
    let n = length-append bytes (joined parts) in
    let l : length (response ++ (more ++ bytes)) ≡ length (response ++ more) + length bytes =
      ap length (sym grown) ∙ length-append (response ++ more) bytes in
    let now = get_http_response_body-more response (more ++ bytes) body 1024 r m' in
    let rest = stuck response (more ++ bytes) body parts r m' (omega (arith, h, n, l)) in
    rw (has_room (response ++ more) (omega (arith, h)), grown, now)
      (rest
        ∙ ap (λ t. ok ([], t, reading))
            (ap (λ t. t ++ joined parts) (sym grown)
              ∙ append_assoc (response ++ more) bytes (joined parts)))

-- A response that comes in one read with bytes of the next one is not handed out, nor is one behind it:
-- as long as fewer than 81920 bytes have come in all, whatever they are, all stays in the buffer, and the
-- loop reads on.
pub register_loop-together :
    (response more body : Bytes) (parts : List Bytes)
    → IsResponse response body
    → more ≢ []
    → length (response ++ more) + length (joined parts) < size_of_rbuffer
    → register_loop (received (response ++ more) ∷ map received parts) []
      ≡ ok ([], (response ++ more) ++ joined parts, reading)
unfolding register_loop after_response
register_loop-together response more body parts r m h =
    rw (get_http_response_body-more response more body 1024 r m)
      (stuck response more body parts r m h)
