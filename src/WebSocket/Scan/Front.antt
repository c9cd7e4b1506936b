-- ===== src/WebSocket/Scan/Front.antt =====
-- What the front of a client's frame tells the code, when the header is whole and when it is not.
use sasy_server.Base.{
  ℕ, ◌+◌, ◌≤◌, ◌<◌, ◌≡◌, refl, ap, ◌∙◌, ◌≢◌, true, false, [], ◌∷◌, ◌++◌, arith, Bytes, length,
  length-append, length-pos, get_or,
}
use sasy_server.Base.Int.{pos}
use sasy_server.WebSocket.Frame.{Scan, stop, incomplete, read_size}
use sasy_server.WebSocket.Frame.Read.{head_need, read_size_short, read_size-client_head}
use sasy_server.WebSocket.Wire.{client_head, length_code, extension, IsOpcode}
use sasy_server.WebSocket.Scan.{max_pack_size, clip, is_invalid, skip_invalid, scan_front}

-- A result that is not -2 ends the loop at once.
skip_invalid_at :
    (buffer : Bytes) (s : Scan)
    → read_size buffer ≡ s
    → is_invalid s.pack_size ≡ false
    → skip_invalid buffer ≡ (buffer, s)
unfolding skip_invalid
skip_invalid_at [] s e f = ap (λ t. ([], t)) e
skip_invalid_at (b ∷ []) s e f = ap (λ t. (b ∷ [], t)) e
skip_invalid_at (a ∷ b ∷ bs) s e f = ground (arith, e, f)

scan_front_at :
    (buffer : Bytes) (s : Scan)
    → read_size buffer ≡ s
    → is_invalid s.pack_size ≡ false
    → scan_front false buffer ≡ (buffer, record s { pack_size = clip s.pack_size })
unfolding scan_front
scan_front_at buffer s e f = unfold scan_front in rw (skip_invalid_at buffer s e f)

clip_small : (n : ℕ) → n ≤ max_pack_size → clip (pos n) ≡ pos n
unfolding clip
clip_small n h = ground arith

module _ (opcode n : ℕ) (key : Bytes) (o : IsOpcode opcode) (k : length key ≡ 4) where
  length-client_head : length (client_head opcode key n) ≡ head_need (128 + length_code n)
  length-client_head = ground (arith, length-append (extension n) key)

  -- Of a header that is cut short, the code learns that bytes are missing.
  pub scan_front_short :
      (got more : Bytes)
      → got ++ more ≡ client_head opcode key n
      → more ≢ []
      → scan_front false got ≡ (got, stop incomplete)
  scan_front_short [] more e ne =
      scan_front_at [] (stop incomplete) (unfold read_size in refl) (unfold is_invalid in refl)
      ∙ unfold clip in refl
  scan_front_short (a ∷ []) more e ne =
      scan_front_at (a ∷ []) (stop incomplete) (unfold read_size in refl)
        (unfold is_invalid in refl)
      ∙ unfold clip in refl
  scan_front_short (a ∷ b ∷ bs) more e ne =
      let first : a ≡ 128 + opcode = ap (λ l. get_or l 0 0) e in
      let second : b ≡ 128 + length_code n = ap (λ l. get_or l 1 0) e in
      rw (first, second)
        (scan_front_at ((128 + opcode) ∷ (128 + length_code n) ∷ bs) (stop incomplete)
            (read_size_short opcode (128 + length_code n) bs o (ground arith) missing)
            (unfold is_invalid in refl)
          ∙ unfold clip in refl)
    where
      missing : length bs + 2 < head_need (128 + length_code n)
      missing =
          ground (arith, length-client_head, ap length e, length-append bs more, length-pos more ne)

  -- A whole header gives the length, where the payload begins, and the mask.
  pub scan_front_whole :
      (rest : Bytes)
      → n ≤ max_pack_size
      → scan_front false (client_head opcode key n ++ rest) ≡ (
        client_head opcode key n ++ rest,
        record {
          pack_size = pos n;
          head_length = length (client_head opcode key n);
          mask = key;
          ismask = true;
        },
      )
  scan_front_whole rest h =
      scan_front_at (client_head opcode key n ++ rest) _
        (read_size-client_head opcode n key rest o k (omega arith)) (unfold is_invalid in refl)
      ∙ ap
          (λ c. (
            client_head opcode key n ++ rest,
            record {
              pack_size = c;
              head_length = length (client_head opcode key n);
              mask = key;
              ismask = true;
            },
          ))
          (clip_small n h)
