-- ===== src/Client/Telnet.antt =====
-- `thread_telnet_socket` of game_room/client/httpclient.c: a command to the server's console, and the
-- answer, which ends in a line of its own.
use sasy_server.Base.{
  ◌-◌, ◌<◌, ◌≡◌, ◌≢◌, refl, ap, ◌∙◌, sym, Bool, true, false, ◌&&◌, ◌⊎◌, inl, inr, List, [], ◌∷◌,
  ◌++◌, append-nil, append_assoc, ltb, leb, if◌then◌else◌, Bytes, codes, length, length-append,
  drop, arith, Outcome, ok, fault,
}
use sasy_server.WebSocket.Handshake.{starts_with}
use sasy_server.Client.Reads.{Read, received, interrupted, failed, closed, size_of_rbuffer}

-- `char wbuffer[512]` with `strcat`, of a text without a zero byte.
unfoldable pub telnet_wbuffer : Bytes → Outcome Bytes
telnet_wbuffer line = if ltb (length line) 512 then ok line else fault

abbrev pub tail_text : Bytes
tail_text = codes "TELNET_OK\n"

-- `rlenght >= strlen(ptail)`, and the characters of `strcmp(ptemp, ptail)`
abbrev pub ends_in_tail : Bytes → Bool
ends_in_tail text =
    leb (length tail_text) (length text)
    && starts_with (drop (length text - length tail_text) text) tail_text

-- The text in the buffer, with which the loop reads on, has found the answer's end, or has been cut off.
pub data Telnet : Type 0 where
  waiting : Bytes → Telnet
  answered : Bytes → Telnet
  cut_off : Bytes → Telnet

-- A `read` brings no more bytes than the buffer has room for. With a full buffer it returns 0; `strcmp`
-- has no zero byte there to end at.
unfoldable pub telnet_loop : List Read → Bytes → Outcome Telnet
telnet_loop [] rbuffer = ok (waiting rbuffer)
telnet_loop (interrupted ∷ reads) rbuffer =
    let rest = telnet_loop reads rbuffer in
    if leb size_of_rbuffer (length rbuffer) then ok (cut_off rbuffer) else rest
telnet_loop (failed ∷ reads) rbuffer = ok (cut_off rbuffer)
telnet_loop (closed ∷ reads) rbuffer = ok (cut_off rbuffer)
telnet_loop (received bytes ∷ reads) rbuffer =
    let text = rbuffer ++ bytes in
    let rest = telnet_loop reads text in
    if leb size_of_rbuffer (length rbuffer)
    then ok (cut_off rbuffer)
    else if ends_in_tail text
    then (if leb size_of_rbuffer (length text) then fault else ok (answered text))
    else rest

-- The bytes that reads bring, and that they bring no error and no end.
abbrev pub brought : List Read → Bytes
brought [] = []
brought (received bytes ∷ reads) = bytes ++ brought reads
brought (interrupted ∷ reads) = brought reads
brought (failed ∷ reads) = brought reads
brought (closed ∷ reads) = brought reads

abbrev pub IsQuiet : List Read → Type 0
IsQuiet [] = Unit
IsQuiet (received bytes ∷ reads) = IsQuiet reads
IsQuiet (interrupted ∷ reads) = IsQuiet reads
IsQuiet (failed ∷ reads) = ⊥
IsQuiet (closed ∷ reads) = ⊥

-- An answer that the buffer has room for, and that ends as no part from its front does.
pub record IsAnswer (text : Bytes) : Type 0 where
  pub at_end : ends_in_tail text ≡ true
  pub not_before : (part more : Bytes) → part ++ more ≡ text → more ≢ [] → ends_in_tail part ≡ false
  pub fits : length text < size_of_rbuffer

nil_or : (xs : Bytes) → (xs ≡ []) ⊎ (xs ≢ [])
nil_or [] = inl refl
nil_or (x ∷ xs) = inr (λ e. cc e)

module _ (text : Bytes) (answer : IsAnswer text) (rest : List Read) where
  room :
      (rbuffer more : Bytes) → rbuffer ++ more ≡ text → leb size_of_rbuffer (length rbuffer) ≡ false
  room rbuffer more e =
      let n = length-append rbuffer more in
      let l = ap length e in
      let f = answer.fits in
      let h : length rbuffer < size_of_rbuffer = omega (arith, n, l, f) in ground (arith, h)

  answers :
      (reads : List Read) (rbuffer : Bytes)
      → IsQuiet reads
      → rbuffer ++ brought reads ≡ text
      → brought reads ≢ []
      → telnet_loop (reads ++ rest) rbuffer ≡ ok (answered text)
  unfolding telnet_loop
  answers [] rbuffer q e some = absurd (some refl)
  answers (interrupted ∷ reads) rbuffer q e some =
      rw (room rbuffer (brought reads) e) (answers reads rbuffer q e some)
  answers (failed ∷ reads) rbuffer q e some = absurd q
  answers (closed ∷ reads) rbuffer q e some = absurd q
  answers (received bytes ∷ reads) rbuffer q e some =
      let now = append_assoc rbuffer bytes (brought reads) ∙ e in
      elim (nil_or (brought reads)) [
        | inl none ↦
            let all : rbuffer ++ bytes ≡ text =
              sym (append-nil (rbuffer ++ bytes))
              ∙ ap (λ t. (rbuffer ++ bytes) ++ t) (sym none)
              ∙ now in
            rw
              (
                room rbuffer (bytes ++ brought reads) e,
                all,
                answer.at_end,
                room text [] (append-nil text),
              )
              refl
        | inr more ↦
            rw
              (
                room rbuffer (bytes ++ brought reads) e,
                answer.not_before (rbuffer ++ bytes) (brought reads) now more,
              )
              (answers reads (rbuffer ++ bytes) q now more)
      ]

-- However the reads split an answer, with interruptions between them, the loop ends with the whole
-- answer and leaves what comes behind.
pub telnet_loop-answer :
    (text : Bytes) (reads rest : List Read)
    → IsAnswer text
    → IsQuiet reads
    → brought reads ≡ text
    → telnet_loop (reads ++ rest) [] ≡ ok (answered text)
telnet_loop-answer text reads rest answer q e =
    answers text answer rest reads [] q e (λ n. nothing_ends (sym n ∙ e))
  where
    nothing_ends : ¬ ([] ≡ text)
    nothing_ends n = cc (answer.at_end, ap ends_in_tail n)
