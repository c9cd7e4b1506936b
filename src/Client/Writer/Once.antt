-- ===== src/Client/Writer/Once.antt =====
-- What `thread_gate_write` writes in all its rounds.
use sasy_server.Base.{
  subst, ◌⊎◌, ℕ, ◌≤◌, ◌≡◌, refl, ap, ◌∙◌, Bool, true, false, Bool-cases, inl, inr, List, [], ◌∷◌,
  ◌++◌, if◌then◌else◌, Bytes, length, some, ok, ◌>>=◌,
}
use sasy_server.Client.Packets.{Messages, next_index, framed}
use sasy_server.Client.Packets.Sent.{heart_beat_wbuffer-framed, login_wbuffer-framed}
use sasy_server.Client.HeartBeat.{
  Beats, write_buffer, write_heart_beat_data, write_login, write_gate_data,
}
use sasy_server.Client.Send.{write_loop}
use sasy_server.Client.Writer.{Turn, gate_write, waits}

module _ (beat : ℕ → Bytes) where
  -- What a round writes of heart beats, and the variables behind it.
  abbrev pub beat_packet : Beats → Turn → Bytes
  beat_packet b t = if waits b t then [] else (framed 0 (beat b.index)).0

  abbrev pub after_turn : Beats → Turn → Beats
  after_turn b t =
      if waits b t then b else record { index = next_index b.index; last_time = t.later }

  abbrev pub beat_wire : List Turn → Beats → Bytes
  beat_wire [] b = []
  beat_wire (t ∷ turns) b = beat_packet b t ++ beat_wire turns (after_turn b t)

  -- `write` takes each heart beat that is due, and no round finds the socket closed.
  abbrev pub TurnsHold : List Turn → Beats → Type 0
  TurnsHold [] b = Unit
  TurnsHold (t ∷ turns) b =
      (t.closing ≡ false)
      × ((waits b t ≡ true) ⊎ (write_loop (beat_packet b t) t.beats 0 [] ≡ ok (beat_packet b t)))
      × TurnsHold turns (after_turn b t)

module _ (messages : Messages) (message beat : ℕ → Bytes) (session : Bytes)
    (has_beat : (i : ℕ) → messages.heart_beat i ≡ some (message i))
    (copied : (i : ℕ) → messages.freed (message i) ≡ ok (beat i))
    (beat_fits : (i : ℕ) → length (beat i) ≤ 16378) (has_login : messages.login ≡ some session)
    (login_fits : length session ≤ 16378) where
  one_beat :
      (b : Beats) (t : Turn)
      → (waits b t ≡ true)
        ⊎ (write_loop (beat_packet beat b t) t.beats 0 [] ≡ ok (beat_packet beat b t))
      → write_heart_beat_data messages t.now t.later t.beats b
        ≡ ok (1, beat_packet beat b t, after_turn beat b t)
  unfolding write_heart_beat_data
  one_beat b t h = elim (Bool-cases (waits b t)) [
    | inl w ↦ rw w refl
    | inr w ↦ rw w (
        ap (λ o. o >>= λ packed. write_buffer packed t.later t.beats b)
          (heart_beat_wbuffer-framed messages b.index (message b.index) (beat b.index)
            (has_beat b.index) (copied b.index) (beat_fits b.index))
        ∙ ap
            (λ o. o >>= λ wire.
              ok (1, wire, record { index = next_index b.index; last_time = t.later }))
            (taken w h))
  ]
    where
      taken :
          waits b t ≡ false
          → (waits b t ≡ true)
            ⊎ (write_loop (beat_packet beat b t) t.beats 0 [] ≡ ok (beat_packet beat b t))
          → write_loop (framed 0 (beat b.index)).0 t.beats 0 [] ≡ ok (framed 0 (beat b.index)).0
      taken w (inl e) = cc (w, e)
      taken w (inr e) =
          subst (λ p. write_loop p t.beats 0 [] ≡ ok p)
            (ap (λ c. if c then [] else (framed 0 (beat b.index)).0) w) e

  stops :
      (last : Turn) (rest : List Turn) (b : Beats) (flag : Bool)
      → last.closing ≡ true
      → gate_write messages (last ∷ rest) b flag ≡ ok ([], true)
  unfolding gate_write
  stops last rest b flag c = rw c refl

  -- Behind the login only heart beats are written.
  only_beats :
      (turns : List Turn) (last : Turn) (rest : List Turn) (b : Beats)
      → TurnsHold beat turns b
      → last.closing ≡ true
      → gate_write messages (turns ++ (last ∷ rest)) b true ≡ ok (beat_wire beat turns b, true)
  unfolding gate_write write_gate_data
  only_beats [] last rest b h c = stops last rest b true c
  only_beats (t ∷ turns) last rest b (o, w, h) c =
      rw (o, one_beat b t w, only_beats turns last rest (after_turn beat b t) h c) refl

  first_login :
      (t : Turn)
      → write_loop (framed 0x100 session).0 t.logins 0 [] ≡ ok (framed 0x100 session).0
      → write_gate_data messages t.logins false ≡ ok (1, (framed 0x100 session).0, true)
  unfolding write_gate_data
  first_login t e =
      ap (λ o. write_login o t.logins) (login_wbuffer-framed messages session has_login login_fits)
      ∙ ap (λ o. o >>= λ wire. ok (1, wire, true)) e

  -- When the library has the messages, small enough for a packet, each freed heart beat can be copied, as
  -- the bytes of `beat`, and `write` takes each packet whole, the
  -- thread writes in all its rounds one heart beat, or none when less than three seconds have gone by,
  -- then one login, and then heart beats only, one in each round but those in which the stored time of the
  -- last one is not 0 and less than three seconds ago; and it ends with the round that finds the socket closed.
  pub gate_write-beat_wire :
      (t : Turn) (turns : List Turn) (last : Turn) (rest : List Turn) (b : Beats)
      → TurnsHold beat (t ∷ turns) b
      → write_loop (framed 0x100 session).0 t.logins 0 [] ≡ ok (framed 0x100 session).0
      → last.closing ≡ true
      → gate_write messages (t ∷ (turns ++ (last ∷ rest))) b false
        ≡ ok (
          beat_packet beat b t
              ++ ((framed 0x100 session).0 ++ beat_wire beat turns (after_turn beat b t)),
          true,
        )
  unfolding gate_write
  gate_write-beat_wire t turns last rest b (o, w, h) l c =
      rw (o, one_beat b t w, first_login t l, only_beats turns last rest (after_turn beat b t) h c)
        refl
