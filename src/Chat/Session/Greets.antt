-- ===== src/Chat/Session/Greets.antt =====
-- What `main` has sent.
use sasy_server.Base.{
  ℕ, zero, suc, ◌+◌, ◌^◌, ◌≤◌, ◌≡◌, refl, sym, ap, ap₂, subst, ◌∙◌, true, false, List, [], ◌∷◌,
  ◌++◌, append_assoc, append-nil, Bytes, length, length-take, take, take-all, joined, Option, none,
  some, Outcome, ok, fault, spent, ◌-◌, ◌⊎◌, inl, inr, Bool-cases, if◌then◌else◌, ◌==◌, arith,
}
use sasy_server.Chat.Greet.{next_cmd, greeting}
use sasy_server.Chat.Greet.Served.{greetings}
use sasy_server.Chat.Stream.{take_packets}
use sasy_server.Chat.Session.{
  ChatProgram, new_session, waiting, ending, closing, Stage, at_check, at_write, left, inside,
  after_write, caught, overrun, gone, Incoming, interrupted, broken, coming, rbuffer_size, Reader,
  keep, take_in, read_turn, thread_turn, send_turn, size_send, main_turn, ChatTurn, main_goes,
  thread_reads, turn, run_turns,
}

-- `data.header.cmd` behind so many rounds.
abbrev pub cmd_after : ℕ → ℕ → ℕ
cmd_after zero cmd = cmd
cmd_after (suc n) cmd = cmd_after n (next_cmd cmd)

cmd_after-next : (n cmd : ℕ) → cmd_after n (next_cmd cmd) ≡ next_cmd (cmd_after n cmd)
cmd_after-next zero cmd = refl
cmd_after-next (suc n) cmd = cmd_after-next n (next_cmd cmd)

-- The greeting of the round behind `n` rounds, the first of them with these numbers.
abbrev pub greeting_after : ℕ → ℕ → ℕ → ℕ → Bytes
greeting_after uin cmd count n = greeting uin (next_cmd (cmd_after n cmd)) (count + n)

joined-greetings :
    (uin cmd count n : ℕ)
    → joined (greetings uin cmd count (suc n))
      ≡ joined (greetings uin cmd count n) ++ greeting_after uin cmd count n
joined-greetings uin cmd count zero =
    append-nil (greeting uin (next_cmd cmd) count) ∙ ap (greeting uin (next_cmd cmd)) (omega arith)
joined-greetings uin cmd count (suc n) =
    let first = greeting uin (next_cmd cmd) count in
    let between = joined (greetings uin (next_cmd cmd) (suc count) n) in
    ap (λ t. first ++ t) (joined-greetings uin (next_cmd cmd) (suc count) n)
    ∙ sym (append_assoc first between (greeting_after uin (next_cmd cmd) (suc count) n))
    ∙ ap (λ c. (first ++ between) ++ greeting uin (next_cmd (cmd_after (suc n) cmd)) c)
        (omega arith)

-- `main` is in its loop behind `n` rounds that were taken as a whole.
record Going (pid : ℕ) (s : ChatProgram) : Type 0 where
  rounds : ℕ
  present : inside s.stage ≡ true
  of_cmd : s.cmd ≡ cmd_after rounds 0
  of_count : s.count ≡ rounds
  whole : s.sent ≡ joined (greetings pid 0 0 rounds)

-- `main` has left its loop, and of the last greeting a part was taken.
record Left (pid : ℕ) (s : ChatProgram) : Type 0 where
  rounds : ℕ
  part : ℕ
  outside : inside s.stage ≡ false
  cut : s.sent ≡ joined (greetings pid 0 0 rounds) ++ take part (greeting_after pid 0 0 rounds)

-- Nothing of `main` is changed.
pub record Same (s s' : ChatProgram) : Type 0 where
  pub stage : s'.stage ≡ s.stage
  pub cmd : s'.cmd ≡ s.cmd
  pub count : s'.count ≡ s.count
  pub sent : s'.sent ≡ s.sent

keep-Same : (o : Outcome (List Bytes × Bytes)) (s : ChatProgram) → Same s (keep o s)
unfolding keep
keep-Same (ok r) s = record { stage = refl; cmd = refl; count = refl; sent = refl }
keep-Same fault s = record { stage = refl; cmd = refl; count = refl; sent = refl }
keep-Same spent s = record { stage = refl; cmd = refl; count = refl; sent = refl }

take_in-Same : (bytes : Bytes) (s : ChatProgram) → Same s (take_in bytes s)
unfolding take_in
take_in-Same [] s = record { stage = refl; cmd = refl; count = refl; sent = refl }
take_in-Same (c ∷ cs) s =
    keep-Same (take_packets (suc (length (s.rbuffer ++ c ∷ cs))) (s.rbuffer ++ c ∷ cs)) s

self-Same : (s : ChatProgram) → Same s s
self-Same s = record { stage = refl; cmd = refl; count = refl; sent = refl }

read_turn-Same : (i : Incoming) (s : ChatProgram) → Same s (read_turn i s)
unfolding read_turn
read_turn-Same interrupted s = self-Same s
read_turn-Same broken s = record { stage = refl; cmd = refl; count = refl; sent = refl }
read_turn-Same (coming bytes) s = take_in-Same (take (rbuffer_size - length s.rbuffer) bytes) s

-- A turn of the thread leaves `main` as it is.
pub thread_turn-Same : (r : Reader) (i : Incoming) (s : ChatProgram) → Same s (thread_turn r i s)
unfolding thread_turn
thread_turn-Same waiting i s = read_turn-Same i s
thread_turn-Same ending i s = record { stage = refl; cmd = refl; count = refl; sent = refl }
thread_turn-Same closing i s = record { stage = refl; cmd = refl; count = refl; sent = refl }
thread_turn-Same caught i s = self-Same s
thread_turn-Same overrun i s = self-Same s
thread_turn-Same gone i s = self-Same s

abbrev Greets : ℕ → ChatProgram → Type 0
Greets pid s = Going pid s ⊎ Left pid s

Same-Greets : (pid : ℕ) (s s' : ChatProgram) → Same s s' → Greets pid s → Greets pid s'
Same-Greets pid s s' e (inl g) = inl (record {
  rounds = g.rounds;
  present = ap inside e.stage ∙ g.present;
  of_cmd = e.cmd ∙ g.of_cmd;
  of_count = e.count ∙ g.of_count;
  whole = e.sent ∙ g.whole;
})
Same-Greets pid s s' e (inr l) = inr (record {
  rounds = l.rounds;
  part = l.part;
  outside = ap inside e.stage ∙ l.outside;
  cut = e.sent ∙ l.cut;
})

leaves :
    (pid r part : ℕ) (s : ChatProgram)
    → inside s.stage ≡ false
    → s.sent ≡ joined (greetings pid 0 0 r) ++ take part (greeting_after pid 0 0 r)
    → Greets pid s
leaves pid r part s o e = inr (record { rounds = r; part = part; outside = o; cut = e })

send_turn-Greets :
    (pid r : ℕ) (pack : Bytes) (w : Option ℕ) (s : ChatProgram)
    → pack ≡ greeting_after pid 0 0 r
    → s.cmd ≡ cmd_after (suc r) 0
    → s.count ≡ suc r
    → s.sent ≡ joined (greetings pid 0 0 r)
    → Greets pid (send_turn pack w s)
unfolding send_turn
send_turn-Greets pid r pack none s p c n e =
    leaves pid r 0 (send_turn pack none s) refl
      (e ∙ sym (append-nil (joined (greetings pid 0 0 r))))
send_turn-Greets pid r pack (some k) s p c n e =
    elim (Bool-cases (length (take k pack) == length pack)) [
      | inl all ↦ inl (record {
        rounds = suc r;
        present = ap (λ b. inside (after_write b)) all;
        of_cmd = c;
        of_count = n;
        whole =
            ap₂ (λ x y. x ++ y) e (take-all k pack (ground (arith, all, length-take k pack)) ∙ p)
            ∙ sym (joined-greetings pid 0 0 r);
      })
      | inr cut ↦
          leaves pid r k (send_turn pack (some k) s) (ap (λ b. inside (after_write b)) cut)
            (ap₂ (λ x y. x ++ take k y) e p)
    ]

main_turn-Greets :
    (pid : ℕ) (taken : Option ℕ) (stage : Stage) (s : ChatProgram)
    → inside stage ≡ true
    → Going pid s
    → Greets pid (main_turn pid taken stage s)
unfolding main_turn
main_turn-Greets pid taken at_check s i g =
    let goes = record s { stage = at_write } in
    let stops = record s { stage = left } in
    elim (Bool-cases s.runflag) [
      | inl on ↦
          subst (λ b. Greets pid (if b then goes else stops)) (sym on)
            (inl (record {
              rounds = g.rounds;
              present = refl;
              of_cmd = g.of_cmd;
              of_count = g.of_count;
              whole = g.whole;
            }))
      | inr off ↦
          subst (λ b. Greets pid (if b then goes else stops)) (sym off)
            (leaves pid g.rounds 0 stops refl
              (g.whole ∙ sym (append-nil (joined (greetings pid 0 0 g.rounds)))))
    ]
main_turn-Greets pid taken at_write s i g =
    send_turn-Greets pid g.rounds (greeting pid (next_cmd s.cmd) s.count) (size_send s.reader taken)
      (record s { cmd = next_cmd s.cmd; count = suc s.count })
      (ap₂ (λ c n. greeting pid (next_cmd c) n) g.of_cmd (omega (arith, g.of_count)))
      (ap next_cmd g.of_cmd ∙ sym (cmd_after-next g.rounds 0)) (ap suc g.of_count) g.whole
main_turn-Greets pid taken left s i g = cc

inside-Greets :
    (pid : ℕ) (s s' : ChatProgram)
    → (Going pid s → Greets pid s')
    → Greets pid s
    → Greets pid (if inside s.stage then s' else s)
inside-Greets pid s s' h (inl g) =
    subst (λ b. Greets pid (if b then s' else s)) (sym g.present) (h g)
inside-Greets pid s s' h (inr l) =
    subst (λ b. Greets pid (if b then s' else s)) (sym l.outside) (inr l)

turn-Greets : (pid : ℕ) (t : ChatTurn) (s : ChatProgram) → Greets pid s → Greets pid (turn pid t s)
unfolding turn
turn-Greets pid (main_goes taken) s g =
    inside-Greets pid s (main_turn pid taken s.stage s)
      (λ w. main_turn-Greets pid taken s.stage s w.present w) g
turn-Greets pid (thread_reads i) s g =
    inside-Greets pid s (thread_turn s.reader i s)
      (λ w. Same-Greets pid s (thread_turn s.reader i s) (thread_turn-Same s.reader i s) (inl w)) g

run_turns-Greets :
    (pid : ℕ) (turns : List ChatTurn) (s : ChatProgram)
    → Greets pid s
    → Greets pid (run_turns pid turns s)
unfolding run_turns
run_turns-Greets pid [] s g = g
run_turns-Greets pid (t ∷ turns) s g =
    run_turns-Greets pid turns (turn pid t s) (turn-Greets pid t s g)

-- Whatever the order of at most 2 ^ 31 turns and whatever the kernel does, the socket has taken the greetings of a
-- number of rounds from the first on, in their order and with nothing between them; while `main` is in
-- its loop that is all, and when it has left the loop, a part of the next greeting may stand behind them.
pub run_turns-greetings :
    (pid : ℕ) (turns : List ChatTurn)
    → length turns ≤ 2 ^ 31
    → (n : ℕ) × (part : ℕ) × ((run_turns pid turns new_session).sent
        ≡ joined (greetings pid 0 0 n)
          ++ (if inside (run_turns pid turns new_session).stage
              then []
              else take part (greeting_after pid 0 0 n)))
run_turns-greetings pid turns h =
    let s = run_turns pid turns new_session in
    elim (run_turns-Greets pid turns new_session start) [
      | inl g ↦ (
        g.rounds,
        0,
        rw g.present (g.whole ∙ sym (append-nil (joined (greetings pid 0 0 g.rounds)))),
      )
      | inr l ↦ (l.rounds, l.part, rw l.outside l.cut)
    ]
  where
    start : Greets pid new_session
    start =
        inl (record { rounds = 0; present = refl; of_cmd = refl; of_count = refl; whole = refl })
