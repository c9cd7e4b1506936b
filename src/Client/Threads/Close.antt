-- ===== src/Client/Threads/Close.antt =====
-- When `main` closes the socket.
use sasy_server.Base.{
  ℕ, ◌<◌, ◌≤◌, ◌≡◌, ◌≢◌, refl, ap, ◌∙◌, sym, subst, Bool, true, false, not, Bool-cases, inl, inr,
  List, [], ◌∷◌, ◌==◌, if◌then◌else◌, update, update_self, update_ne, arith,
}
use native.Mathlib.Decide.{ℕ_discrete, dec_lt}
use sasy_server.Client.Threads.{
  threadcount, postcount, Standing, unstarted, running, ended, is_running, Phase, starting,
  scanning, over, Program, all_clear, create, connect, scan, main_in, exit_thread, read_close,
  write_turn, Event, main_turns, exits, server_closes, writer_turns, happen, run_events,
}

abbrev pub is_started : Standing → Bool
is_started unstarted = false
is_started running = true
is_started ended = true

-- What the place of `main` says of the threads: those before it are started, and the flags that its last
-- loop has passed are those of threads that do not run.
abbrev pub PhaseHolds : Phase → (ℕ → Standing) → Type 0
PhaseHolds (starting n) threads =
    (n ≤ postcount)
    × ((k : ℕ) → k < n → is_started (threads k) ≡ true)
    × ((k : ℕ) → n ≤ k → threads k ≡ unstarted)
PhaseHolds (scanning i) threads =
    (i ≤ threadcount)
    × ((k : ℕ) → k < postcount → is_started (threads k) ≡ true)
    × ((k : ℕ) → postcount ≤ k → threads k ≡ unstarted)
    × ((k : ℕ) → k < i → is_running (threads k) ≡ false)
PhaseHolds over threads =
    ((k : ℕ) → k < postcount → is_started (threads k) ≡ true)
    × ((k : ℕ) → postcount ≤ k → threads k ≡ unstarted)
    × ((k : ℕ) → k < threadcount → is_running (threads k) ≡ false)

pub record IsProgram (s : Program) : Type 0 where
  pub flags : (k : ℕ) → s.runflag k ≡ is_running (s.threads k)
  pub place : PhaseHolds s.phase s.threads

-- The place of `main` bears that a thread ends.
module _ (threads : ℕ → Standing) (id : ℕ) (r : is_running (threads id) ≡ true) where
  ended_started :
      (k : ℕ) → is_started (threads k) ≡ true → is_started (update threads id ended k) ≡ true
  ended_started k h = elim (ℕ_discrete id k) [
    | yes e ↦ ap is_started (ap (update threads id ended) (sym e) ∙ update_self threads id ended)
    | no n ↦ ap is_started (update_ne threads id k ended n) ∙ h
  ]

  ended_unstarted : (k : ℕ) → threads k ≡ unstarted → update threads id ended k ≡ unstarted
  ended_unstarted k h = elim (ℕ_discrete id k) [
    | yes e ↦ absurd (cc (r, ap is_running (ap threads e ∙ h)))
    | no n ↦ update_ne threads id k ended n ∙ h
  ]

  ended_running :
      (k : ℕ) → is_running (threads k) ≡ false → is_running (update threads id ended k) ≡ false
  ended_running k h = elim (ℕ_discrete id k) [
    | yes e ↦ ap is_running (ap (update threads id ended) (sym e) ∙ update_self threads id ended)
    | no n ↦ ap is_running (update_ne threads id k ended n) ∙ h
  ]

  ended-PhaseHolds : (p : Phase) → PhaseHolds p threads → PhaseHolds p (update threads id ended)
  ended-PhaseHolds (starting n) (h, a, b) =
      (h, λ k l. ended_started k (a k l), λ k l. ended_unstarted k (b k l))
  ended-PhaseHolds (scanning i) (h, a, b, c) = (
    h,
    λ k l. ended_started k (a k l),
    λ k l. ended_unstarted k (b k l),
    λ k l. ended_running k (c k l),
  )
  ended-PhaseHolds over (a, b, c) = (
    λ k l. ended_started k (a k l),
    λ k l. ended_unstarted k (b k l),
    λ k l. ended_running k (c k l),
  )

exit_thread-IsProgram : (id : ℕ) (s : Program) → IsProgram s → IsProgram (exit_thread id s)
exit_thread-IsProgram id s v = elim (Bool-cases (is_running (s.threads id))) [
  | inr f ↦ rw f v
  | inl r ↦ rw r (record {
    flags = λ k. elim (ℕ_discrete id k) [
      | yes e ↦
          subst (λ j. update s.runflag id false j ≡ is_running (update s.threads id ended j)) e
            (update_self s.runflag id false ∙ sym (ap is_running (update_self s.threads id ended)))
      | no n ↦
          update_ne s.runflag id k false n
          ∙ v.flags k
          ∙ sym (ap is_running (update_ne s.threads id k ended n))
    ];
    place = ended-PhaseHolds s.threads id r s.phase v.place;
  })
]

if-IsProgram :
    (b : Bool) (s t : Program) → IsProgram s → IsProgram t → IsProgram (if b then s else t)
if-IsProgram true s t v w = v
if-IsProgram false s t v w = w

read_close-IsProgram : (s : Program) → IsProgram s → IsProgram (read_close s)
read_close-IsProgram s v =
    let t = record s { gate_socket_close = true } in
    if-IsProgram (is_running (s.threads 2)) (exit_thread 2 t) s
      (exit_thread-IsProgram 2 t (record { flags = v.flags; place = v.place })) v

write_turn-IsProgram : (s : Program) → IsProgram s → IsProgram (write_turn s)
write_turn-IsProgram s v =
    if-IsProgram s.gate_socket_close (exit_thread 1 s) s (exit_thread-IsProgram 1 s v) v

-- Before a slot is used its thread is not started, and so its flag is not set.
create-IsProgram :
    (k : ℕ) (s : Program)
    → s.phase ≡ starting k
    → k < postcount
    → IsProgram s
    → IsProgram (create k s)
create-IsProgram k s p h v =
    let (n, a, b) = subst (λ q. PhaseHolds q s.threads) p v.place in
    let free : s.runflag k ≡ false = v.flags k ∙ ap is_running (b k (omega arith)) in
    rw free (record {
      flags = λ j. elim (ℕ_discrete k j) [
        | yes e ↦
            subst (λ j. update s.runflag k true j ≡ is_running (update s.threads k running j)) e
              (update_self s.runflag k true ∙ sym (ap is_running (update_self s.threads k running)))
        | no m ↦
            update_ne s.runflag k j true m
            ∙ v.flags j
            ∙ sym (ap is_running (update_ne s.threads k j running m))
      ];
      place = (
        omega arith,
        λ j l. elim (ℕ_discrete k j) [
          | yes e ↦
              subst (λ j. is_started (update s.threads k running j) ≡ true) e
                (ap is_started (update_self s.threads k running))
          | no m ↦ ap is_started (update_ne s.threads k j running m) ∙ a j (omega (arith, m))
        ],
        λ j l. update_ne s.threads k j running (omega arith) ∙ b j (omega arith),
      );
    })

scan-IsProgram : (i : ℕ) (s : Program) → s.phase ≡ scanning i → IsProgram s → IsProgram (scan i s)
scan-IsProgram i s p v =
    let (n, a, b, c) = subst (λ q. PhaseHolds q s.threads) p v.place in
    elim (Bool-cases (i == threadcount)) [
      | inl e ↦ rw e (record { flags = v.flags; place = (a, b, λ k l. c k (ground (arith, e))) })
      | inr e ↦ elim (Bool-cases (s.runflag i)) [
        | inl f ↦
            rw (e, f)
              (record { flags = v.flags; place = (omega arith, a, b, λ k l. absurd (omega arith)) })
        | inr f ↦
            rw (e, f)
              (record {
                flags = v.flags;
                place = (
                  ground (arith, e, n),
                  a,
                  b,
                  λ k l. elim (ℕ_discrete k i) [
                    | yes q ↦ sym (v.flags k) ∙ ap s.runflag q ∙ f
                    | no m ↦ c k (omega (arith, m))
                  ],
                );
              })
      ]
    ]

connect-IsProgram :
    (connected : Bool) (k : ℕ) (s : Program) → IsProgram s → IsProgram (connect connected k s)
connect-IsProgram connected k s v =
    if-IsProgram (k == 1) (record s { gate_socket_close = not connected }) s
      (record { flags = v.flags; place = v.place }) v

connect-phase : (connected : Bool) (k : ℕ) (s : Program) → (connect connected k s).phase ≡ s.phase
connect-phase connected k s = elim (Bool-cases (k == 1)) [ inl e ↦ rw e refl | inr e ↦ rw e refl ]

main_in-IsProgram :
    (connected : Bool) (p : Phase) (s : Program)
    → s.phase ≡ p
    → IsProgram s
    → IsProgram (main_in connected p s)
main_in-IsProgram connected (starting k) s p v =
    let (n, a, b) = subst (λ q. PhaseHolds q s.threads) p v.place in
    elim (Bool-cases (k == postcount)) [
      | inl e ↦ rw e (record {
        flags = v.flags;
        place = (
          omega arith,
          λ j l. a j (ground (arith, e)),
          λ j l. b j (ground (arith, e)),
          λ j l. absurd (omega arith),
        );
      })
      | inr e ↦ rw e (
          create-IsProgram k (connect connected k s) (connect-phase connected k s ∙ p)
            (ground (arith, e, n)) (connect-IsProgram connected k s v))
    ]
main_in-IsProgram connected (scanning i) s p v = scan-IsProgram i s p v
main_in-IsProgram connected over s p v = v

happen-IsProgram : (e : Event) (s : Program) → IsProgram s → IsProgram (happen e s)
unfolding happen
happen-IsProgram (main_turns connected) s v = main_in-IsProgram connected s.phase s refl v
happen-IsProgram (exits id) s v = exit_thread-IsProgram id s v
happen-IsProgram server_closes s v = read_close-IsProgram s v
happen-IsProgram writer_turns s v = write_turn-IsProgram s v

pub run_events-IsProgram :
    (events : List Event) (s : Program) → IsProgram s → IsProgram (run_events events s)
unfolding run_events
run_events-IsProgram [] s v = v
run_events-IsProgram (e ∷ events) s v =
    run_events-IsProgram events (happen e s) (happen-IsProgram e s v)

pub all_clear-IsProgram : IsProgram all_clear
all_clear-IsProgram = record {
  flags = λ k. refl;
  place = (omega arith, λ k l. absurd (omega arith), λ k l. refl);
}

over-ended :
    (s : Program) (k : ℕ)
    → IsProgram s
    → s.phase ≡ over
    → (s.runflag k ≡ false) × (s.threads k ≢ running) × (k < postcount → s.threads k ≡ ended)
over-ended s k v o =
    let (a, b, c) = subst (λ p. PhaseHolds p s.threads) o v.place in
    let idle : is_running (s.threads k) ≡ false = elim (dec_lt k postcount) [
      | yes l ↦ c k (omega arith)
      | no l ↦ ap is_running (b k (omega arith))
    ] in
    (v.flags k ∙ idle, λ r. cc (idle, ap is_running r), λ l. only_ended (s.threads k) (a k l) idle)
  where
    only_ended : (t : Standing) → is_started t ≡ true → is_running t ≡ false → t ≡ ended
    only_ended unstarted p q = cc p
    only_ended running p q = cc q
    only_ended ended p q = refl

-- Whatever the order in which `main` and the threads take their turns, when `main` closes the gate's
-- socket and ends, the three threads have been started and have ended, and no flag is set.
pub run_events-over :
    (events : List Event) (k : ℕ)
    → (run_events events all_clear).phase ≡ over
    → ((run_events events all_clear).runflag k ≡ false)
      × ((run_events events all_clear).threads k ≢ running)
      × (k < postcount → (run_events events all_clear).threads k ≡ ended)
run_events-over events k o =
    over-ended (run_events events all_clear) k
      (run_events-IsProgram events all_clear all_clear-IsProgram) o
