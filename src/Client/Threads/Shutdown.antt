-- ===== src/Client/Threads/Shutdown.antt =====
-- How the program ends behind the server's end of the connection.
use sasy_server.Base.{
  ℕ, zero, suc, ◌+◌, ◌<◌, ◌≤◌, ◌≡◌, refl, ap, ◌∙◌, sym, subst, Bool, true, false, Bool-cases, inl,
  inr, List, [], ◌∷◌, ◌==◌, if◌then◌else◌, update, update_self, update_ne, arith,
}
use native.Mathlib.Decide.{ℕ_discrete, dec_lt}
use sasy_server.Client.Threads.{
  threadcount, postcount, running, ended, is_running, scanning, over, Program, all_clear, main_in,
  exit_thread, read_close, write_turn, Event, main_turns, exits, server_closes, writer_turns,
  happen, run_events,
}
use sasy_server.Client.Threads.Close.{
  IsProgram, PhaseHolds, run_events-IsProgram, all_clear-IsProgram,
}

abbrev pub turns_of_main : Bool → ℕ → List Event
turns_of_main connected zero = []
turns_of_main connected (suc n) = main_turns connected ∷ turns_of_main connected n

stays_over :
    (connected : Bool) (n : ℕ) (s : Program)
    → s.phase ≡ over
    → (run_events (turns_of_main connected n) s).phase ≡ over
unfolding run_events happen
stays_over connected zero s o = o
stays_over connected (suc n) s o =
    subst (λ t. (run_events (turns_of_main connected n) t).phase ≡ over)
      (sym (ap (λ p. main_in connected p s) o)) (stays_over connected n s o)

-- Where no flag is set, the last loop ends in as many turns as there are flags.
scan-over :
    (connected : Bool) (n i : ℕ) (s : Program)
    → s.phase ≡ scanning i
    → ((k : ℕ) → s.runflag k ≡ false)
    → i ≤ threadcount
    → threadcount < i + n
    → (run_events (turns_of_main connected n) s).phase ≡ over
unfolding run_events happen
scan-over connected zero i s p none h l = absurd (omega arith)
scan-over connected (suc n) i s p none h l =
    subst (λ t. (run_events (turns_of_main connected n) t).phase ≡ over)
      (sym (ap (λ q. main_in connected q s) p))
      (elim (Bool-cases (i == threadcount)) [
        | inl e ↦ rw e (stays_over connected n (record s { phase = over }) refl)
        | inr e ↦
            rw (e, none i)
              (scan-over connected n (i + 1) (record s { phase = scanning (i + 1) }) refl none
                (ground (arith, e, h)) (omega arith))
      ])

-- That a thread does not run.
abbrev Idle : Program → ℕ → Type 0
Idle s k = is_running (s.threads k) ≡ false

exit_thread-Idle : (id : ℕ) (s : Program) → Idle (exit_thread id s) id
exit_thread-Idle id s = elim (Bool-cases (is_running (s.threads id))) [
  | inl r ↦ rw r (ap is_running (update_self s.threads id ended))
  | inr r ↦
      subst
        (λ b.
          Idle
            (if b
              then record s {
                runflag = update s.runflag id false;
                threads = update s.threads id ended;
              }
              else s)
            id)
        (sym r) r
]

exit_thread-Idle_other : (id k : ℕ) (s : Program) → Idle s k → Idle (exit_thread id s) k
exit_thread-Idle_other id k s h = elim (Bool-cases (is_running (s.threads id))) [
  | inr r ↦ rw r h
  | inl r ↦ rw r (elim (ℕ_discrete id k) [
    | yes e ↦
        ap is_running (ap (update s.threads id ended) (sym e) ∙ update_self s.threads id ended)
    | no n ↦ ap is_running (update_ne s.threads id k ended n) ∙ h
  ])
]

exit_thread-phase : (id : ℕ) (s : Program) → (exit_thread id s).phase ≡ s.phase
exit_thread-phase id s = elim (Bool-cases (is_running (s.threads id))) [
  | inl r ↦ rw r refl
  | inr r ↦ rw r refl
]

exit_thread-gate :
    (id : ℕ) (s : Program) → (exit_thread id s).gate_socket_close ≡ s.gate_socket_close
exit_thread-gate id s = elim (Bool-cases (is_running (s.threads id))) [
  | inl r ↦ rw r refl
  | inr r ↦ rw r refl
]

read_close-running :
    (s : Program)
    → s.threads 2 ≡ running
    → read_close s ≡ exit_thread 2 (record s { gate_socket_close = true })
read_close-running s r =
    ap (λ b. if b then exit_thread 2 (record s { gate_socket_close = true }) else s)
      (ap is_running r)

write_turn-closing : (s : Program) → s.gate_socket_close ≡ true → write_turn s ≡ exit_thread 1 s
write_turn-closing s g = ap (λ b. if b then exit_thread 1 s else s) g

-- What is left when the server has closed, the writer has had a turn and the first thread has ended.
record IsShut (s t : Program) : Type 0 where
  all_idle : (k : ℕ) → k < postcount → Idle t k
  same_phase : t.phase ≡ s.phase

shut : (s : Program) → s.threads 2 ≡ running → IsShut s (exit_thread 0 (write_turn (read_close s)))
shut s r =
    let closing = record s { gate_socket_close = true } in
    let a = exit_thread 2 closing in
    let gate : a.gate_socket_close ≡ true = exit_thread-gate 2 closing in
    let b = exit_thread 1 a in
    let e : write_turn (read_close s) ≡ b =
      ap write_turn (read_close-running s r) ∙ write_turn-closing a gate in
    subst (λ t. IsShut s (exit_thread 0 t)) (sym e)
      (record {
        all_idle = λ k l. elim (ℕ_discrete k 0) [
          | yes z ↦ subst (Idle (exit_thread 0 b)) (sym z) (exit_thread-Idle 0 b)
          | no nz ↦ exit_thread-Idle_other 0 k b (elim (ℕ_discrete k 1) [
            | yes z ↦ subst (Idle b) (sym z) (exit_thread-Idle 1 a)
            | no other ↦
                exit_thread-Idle_other 1 k a
                  (subst (Idle a) (two k l nz other) (exit_thread-Idle 2 closing))
          ])
        ];
        same_phase = exit_thread-phase 0 b ∙ exit_thread-phase 1 a ∙ exit_thread-phase 2 closing;
      })
  where
    two : (k : ℕ) → k < 3 → ¬ (k ≡ 0) → ¬ (k ≡ 1) → 2 ≡ k
    two k l a b = omega (arith, a, b)

-- Whatever has happened before, once `main` waits for its threads and the server closes the
-- connection while the reader runs, a turn of the writer, the end of the first thread and as many turns
-- of `main` as there are flags, and one more, bring the program to its end.
pub run_events-Shutdown :
    (events : List Event) (connected : Bool) (i : ℕ)
    → (run_events events all_clear).phase ≡ scanning i
    → (run_events events all_clear).threads 2 ≡ running
    → (run_events
        (server_closes ∷ writer_turns ∷ exits 0 ∷ turns_of_main connected (threadcount + 1))
        (run_events events all_clear)).phase
      ≡ over
unfolding run_events happen
run_events-Shutdown events connected i p r =
    let s = run_events events all_clear in
    let v = run_events-IsProgram events all_clear all_clear-IsProgram in
    let t = exit_thread 0 (write_turn (read_close s)) in
    let w : IsProgram t = run_events-IsProgram (server_closes ∷ writer_turns ∷ exits 0 ∷ []) s v in
    let done = shut s r in
    let q : t.phase ≡ scanning i = done.same_phase ∙ p in
    let (h, a, b, c) = subst (λ p. PhaseHolds p t.threads) q w.place in
    scan-over connected (threadcount + 1) i t q
      (λ k. w.flags k ∙ elim (dec_lt k postcount) [
        | yes l ↦ done.all_idle k l
        | no l ↦ ap is_running (b k (omega (arith, l)))
      ])
      h (omega arith)
