-- ===== src/Client/Writer.antt =====
-- `thread_gate_write` of game_room/client/httpclient.c: the heart beats and the login.
pub mod Once
use sasy_server.Base.{
  ◌⊎◌, ℕ, ◌+◌, ◌*◌, ◌<◌, ◌≤◌, ◌≡◌, refl, ap, ◌∙◌, Bool, true, false, ◌&&◌, Bool-cases, inl, inr,
  List, [], ◌∷◌, ◌++◌, ltb, ◌==◌, if◌then◌else◌, Bytes, length, Option, some, Outcome, ok, ◌>>=◌,
  arith,
}
use sasy_server.Base.Int.{ℤ}
use sasy_server.Client.Packets.{Messages, next_index, framed, heart_beat_wbuffer, login_wbuffer}
use sasy_server.Client.Packets.Sent.{heart_beat_wbuffer-framed, login_wbuffer-framed}
use sasy_server.Client.HeartBeat.{
  Beats, write_buffer, write_heart_beat_data, write_login, write_gate_data,
}
use sasy_server.Client.Send.{write_loop}

-- What a round finds: `_flag_gate_socket_close`, the time before and behind a heart beat, and what
-- `write` returns for a heart beat and for the login.
pub record Turn : Type 0 where
  pub closing : Bool
  pub now : ℕ
  pub later : ℕ
  pub beats : List ℤ
  pub logins : List ℤ

-- The rounds, with `_flag_write_login_data`: what is on the wire, and whether the thread is at its end.
unfoldable pub gate_write : Messages → List Turn → Beats → Bool → Outcome (Bytes × Bool)
gate_write messages [] b flag = ok ([], false)
gate_write messages (t ∷ turns) b flag =
    let round = write_heart_beat_data messages t.now t.later t.beats b >>= λ r.
    if r.0 == 0
    then ok (r.1, true)
    else (write_gate_data messages t.logins flag >>= λ s.
        if s.0 == 0
        then ok (r.1 ++ s.1, true)
        else (gate_write messages turns r.2 s.2 >>= λ w. ok (r.1 ++ (s.1 ++ w.0), w.1))) in
    if t.closing then ok ([], true) else round

-- Less than three seconds have gone by since the last heart beat.
abbrev pub waits : Beats → Turn → Bool
waits b t = ltb 0 b.last_time && ltb t.now (b.last_time + 3000)
