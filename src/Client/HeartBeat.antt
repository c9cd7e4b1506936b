-- ===== src/Client/HeartBeat.antt =====
-- `write_heart_beat_data` and `write_gate_data` of game_room/client/httpclient.c.
use sasy_server.Base.{
  ℕ, ◌+◌, ◌*◌, ◌<◌, ◌≤◌, ◌≡◌, refl, ap, ◌∙◌, List, [], ◌∷◌, map, ◌&&◌, Bool, true, false, ltb,
  if◌then◌else◌, Bytes, length, All, arith, Option, none, some, Outcome, ok, ◌>>=◌,
}
use sasy_server.Base.Int.{ℤ, pos}
use sasy_server.Client.Packets.{Messages, framed, heart_beat_wbuffer, login_wbuffer}
use sasy_server.Client.Packets.Sent.{Delivers, length-framed, login_wbuffer-framed, framed-Delivers}
use sasy_server.Client.Send.{write_loop, total, write_loop-parts}

-- `_heartBeatIndex` and `_last_check_heart_beat_time`, which is 0 before the first heart beat.
pub record Beats : Type 0 where
  pub index : ℕ
  pub last_time : ℕ

-- A packet is at least 6 bytes long: `pack_size` is 0 only where there is none.
-- `now` and `later` are what `get_millisecond` returns, and `results` what `write` does: the result, what
-- is on the wire, and the variables.
abbrev pub write_buffer : Option (Bytes × ℕ) × ℕ → ℕ → List ℤ → Beats → Outcome (ℕ × Bytes × Beats)
write_buffer (none, index) later results b = ok (0, [], record b { index = index })
write_buffer (some (wbuffer, pack_size), index) later results b =
    write_loop wbuffer results 0 [] >>= λ wire.
    ok (1, wire, record { index = index; last_time = later })

unfoldable pub write_heart_beat_data :
    Messages → ℕ → ℕ → List ℤ → Beats → Outcome (ℕ × Bytes × Beats)
write_heart_beat_data messages now later results b =
    if ltb 0 b.last_time && ltb now (b.last_time + 3 * 1000)
    then ok (1, [], b)
    else (heart_beat_wbuffer messages b.index 16384 >>= λ packed.
        write_buffer packed later results b)

-- `write_gate_data`: the result, what is on the wire, and `_flag_write_login_data`.
abbrev pub write_login : Option (Bytes × ℕ) → List ℤ → Outcome (ℕ × Bytes × Bool)
write_login none results = ok (0, [], true)
write_login (some (wbuffer, pack_size)) results =
    write_loop wbuffer results 0 [] >>= λ wire. ok (1, wire, true)

unfoldable pub write_gate_data : Messages → List ℤ → Bool → Outcome (ℕ × Bytes × Bool)
write_gate_data messages results flag =
    if flag then ok (1, [], true) else write_login (login_wbuffer messages 16384) results

-- The first call writes the login, if the library has its message and `write` takes it in parts that are
-- not empty, and no later call writes anything.
pub write_gate_data-Delivers :
    (messages : Messages) (slice : Bytes) (n : ℕ) (ns : List ℕ) (results : List ℤ)
    → messages.login ≡ some slice
    → length slice ≤ 16378
    → All (λ k. 0 < k) (n ∷ ns)
    → total (n ∷ ns) ≡ length slice + 6
    → (packet : Bytes) × (write_gate_data messages (map pos (n ∷ ns)) false ≡ ok (1, packet, true))
      × Delivers packet 0x100 slice
      × (write_gate_data messages results true ≡ ok (1, [], true))
unfolding write_gate_data
write_gate_data-Delivers messages slice n ns results e h parts whole = (
  (framed 0x100 slice).0,
  ap (λ o. write_login o (map pos (n ∷ ns))) (login_wbuffer-framed messages slice e h)
      ∙ ap (λ o. o >>= λ wire. ok (1, wire, true))
          (write_loop-parts (framed 0x100 slice).0 n ns parts (whole ∙ length-framed 0x100 slice)),
  framed-Delivers 0x100 slice (omega arith) h,
  refl,
)
