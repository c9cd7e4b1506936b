-- ===== src/Client/Http/Register.antt =====
-- The loop of `http_register_session` of game_room/client/httpclient.c that reads the responses.
use sasy_server.Base.{
  ℕ, List, [], ◌∷◌, ◌++◌, Bool, false, ◌||◌, ltb, leb, ◌==◌, if◌then◌else◌, Bytes, length, drop,
  Outcome, ok, fault, ◌>>=◌,
}
use sasy_server.Client.Reads.{Read, received, interrupted, failed, closed, size_of_rbuffer}
use sasy_server.Client.Http.{Response, incomplete, too_long, whole, get_http_response_body}

-- How a loop stands: it reads on, or it has returned.
pub data Loop : Type 0 where
  reading : Loop
  returned : ℕ → Loop

-- The bodies that are handed out, the bytes in the buffer, and how the loop stands.
abbrev pub Session : Type 0
Session = List Bytes × Bytes × Loop

abbrev pub hand_out : Bytes → Session → Session
hand_out body (bodies, rbuffer, loop) = (body ∷ bodies, rbuffer, loop)

-- Whether there is a zero byte.
abbrev pub has_zero : Bytes → Bool
has_zero [] = false
has_zero (c ∷ cs) = (c == 0) || has_zero cs

-- `printf` of `body`, an array of 1024 bytes that were zero before: it reads on behind an array that is
-- full and has no zero byte.
unfoldable pub printed : Bytes → Outcome Session → Outcome Session
printed body session =
    if ltb (length body) 1024 || has_zero body
    then (session >>= λ s. ok (hand_out body s))
    else fault

-- `if (blength>0)`; the body's length is 0 where the body is too long for its buffer.
unfoldable pub after_response : Response → Bytes → (Bytes → Outcome Session) → Outcome Session
unfolding printed
after_response (whole body pack_size) rbuffer go_on = printed body (go_on (drop pack_size rbuffer))
after_response (too_long pack_size) rbuffer go_on = go_on rbuffer
after_response incomplete rbuffer go_on = go_on rbuffer

-- A `read` brings no more bytes than the buffer has room for. With a full buffer it returns 0.
unfoldable pub register_loop : List Read → Bytes → Outcome Session
unfolding after_response
register_loop [] rbuffer = ok ([], rbuffer, reading)
register_loop (interrupted ∷ reads) rbuffer =
    let rest = register_loop reads rbuffer in
    if leb size_of_rbuffer (length rbuffer) then ok ([], rbuffer, returned 1) else rest
register_loop (failed ∷ reads) rbuffer =
    if leb size_of_rbuffer (length rbuffer)
    then ok ([], rbuffer, returned 1)
    else ok ([], rbuffer, returned 0)
register_loop (closed ∷ reads) rbuffer = ok ([], rbuffer, returned 1)
register_loop (received bytes ∷ reads) rbuffer =
    let next = get_http_response_body (rbuffer ++ bytes) (length (rbuffer ++ bytes)) 1024 >>= λ r.
    after_response r (rbuffer ++ bytes) (register_loop reads) in
    if leb size_of_rbuffer (length rbuffer) then ok ([], rbuffer, returned 1) else next
