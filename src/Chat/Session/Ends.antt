-- ===== src/Chat/Session/Ends.antt =====
-- The end of the connection and the end of the client.
use sasy_server.Base.{
  ℕ, zero, suc, ◌-◌, ◌≡◌, ◌≢◌, refl, sym, ap, ap₂, subst, ◌∙◌, Bool, true, false, ◌&&◌, leb, List,
  [], ◌∷◌, ◌++◌, append-nil, map, Bytes, length, take, take-all, Option, none, some, Outcome, ok,
  fault, spent, inl, inr, Bool-cases, if◌then◌else◌, ◌==◌, arith,
}
use sasy_server.Chat.Greet.{next_cmd, greeting}
use sasy_server.Chat.Stream.{take_packets}
use sasy_server.Chat.Session.{
  ChatProgram, waiting, ending, closing, gone, Reader, Stage, at_check, at_write, left, inside,
  Incoming, interrupted, broken, coming, caught, overrun, keep, take_in, read_turn, after_write,
  send_turn, size_send, rbuffer_size, main_turn, ChatTurn, main_goes, thread_reads, thread_turn,
  turn, run_turns,
}
use sasy_server.Chat.Session.Greets.{thread_turn-Same}

-- An error, or the end of the stream.
abbrev pub ends : Incoming → Bool
ends interrupted = false
ends broken = true
ends (coming []) = true
ends (coming (c ∷ cs)) = false

-- How many steps of `main` there are.
abbrev pub mains : List ChatTurn → ℕ
mains [] = 0
mains (main_goes taken ∷ turns) = suc (mains turns)
mains (thread_reads i ∷ turns) = mains turns

-- `main` sends nothing more and leaves its loop with at most so many steps.
data Done (bytes : Bytes) (s : ChatProgram) : ℕ → Type 0 where
  has_left : (n : ℕ) → s.sent ≡ bytes → s.stage ≡ left → Done bytes s n
  cannot_write :
      (n : ℕ) → s.sent ≡ bytes → s.reader ≡ gone → s.stage ≡ at_write → Done bytes s (suc n)
  cannot_pass :
      (n : ℕ) → s.sent ≡ bytes → s.runflag ≡ false → s.stage ≡ at_check → Done bytes s (suc n)
  must_fail :
      (n : ℕ) → s.sent ≡ bytes → s.reader ≡ gone → s.stage ≡ at_check → Done bytes s (suc (suc n))

false-ne-true : false ≢ true
false-ne-true e = cc

-- A step of `main` and one of the thread, from the place where `main` stands.
main_step :
    (pid : ℕ) (w : Option ℕ) (s : ChatProgram) (st : Stage)
    → s.stage ≡ st
    → turn pid (main_goes w) s ≡ (if inside st then main_turn pid w st s else s)
unfolding turn
main_step pid w s st e = ap (λ x. if inside x then main_turn pid w x s else s) e

thread_step :
    (pid : ℕ) (i : Incoming) (s : ChatProgram) (st : Stage)
    → s.stage ≡ st
    → turn pid (thread_reads i) s ≡ (if inside st then thread_turn s.reader i s else s)
unfolding turn
thread_step pid i s st e = ap (λ x. if inside x then thread_turn s.reader i s else s) e

fails :
    (pid : ℕ) (w : Option ℕ) (s : ChatProgram)
    → s.reader ≡ gone
    → main_turn pid w at_write s
      ≡ record s { cmd = next_cmd s.cmd; count = suc s.count; stage = left }
unfolding main_turn send_turn
fails pid w s r =
    ap
      (λ x.
        send_turn (greeting pid (next_cmd s.cmd) s.count) (size_send x w)
          (record s { cmd = next_cmd s.cmd; count = suc s.count }))
      r

stops :
    (pid : ℕ) (w : Option ℕ) (s : ChatProgram)
    → s.runflag ≡ false
    → main_turn pid w at_check s ≡ record s { stage = left }
unfolding main_turn
stops pid w s f = ap (λ b. if b then record s { stage = at_write } else record s { stage = left }) f

abbrev pred : ℕ → ℕ
pred zero = zero
pred (suc n) = n

main-Done :
    (pid : ℕ) (w : Option ℕ) (bytes : Bytes) (s : ChatProgram) (n : ℕ)
    → Done bytes s n
    → Done bytes (turn pid (main_goes w) s) (pred n)
unfolding main_turn
main-Done pid w bytes s n (has_left m b e) =
    subst (λ x. Done bytes x (pred n)) (sym (main_step pid w s left e)) (has_left (pred n) b e)
main-Done pid w bytes s n (cannot_write m b r e) =
    subst (λ x. Done bytes x m) (sym (main_step pid w s at_write e ∙ fails pid w s r))
      (has_left m b refl)
main-Done pid w bytes s n (cannot_pass m b f e) =
    subst (λ x. Done bytes x m) (sym (main_step pid w s at_check e ∙ stops pid w s f))
      (has_left m b refl)
main-Done pid w bytes s n (must_fail m b r e) =
    let goes = record s { stage = at_write } in
    let out = record s { stage = left } in
    subst (λ x. Done bytes x (suc m)) (sym (main_step pid w s at_check e))
      (elim (Bool-cases s.runflag) [
        | inl on ↦
            subst (λ x. Done bytes x (suc m)) (sym (ap (λ f. if f then goes else out) on))
              (cannot_write m b r refl)
        | inr off ↦
            subst (λ x. Done bytes x (suc m)) (sym (stops pid w s off)) (has_left (suc m) b refl)
      ])

-- A step of the thread does not set the flag.
keep-runflag : (o : Outcome (List Bytes × Bytes)) (s : ChatProgram) → (keep o s).runflag ≡ s.runflag
unfolding keep
keep-runflag (ok r) s = refl
keep-runflag fault s = refl
keep-runflag spent s = refl

take_in-runflag : (bytes : Bytes) (s : ChatProgram) → (take_in bytes s).runflag ≡ s.runflag
unfolding take_in
take_in-runflag [] s = refl
take_in-runflag (c ∷ cs) s =
    keep-runflag (take_packets (suc (length (s.rbuffer ++ c ∷ cs))) (s.rbuffer ++ c ∷ cs)) s

thread_turn-runflag :
    (r : Reader) (i : Incoming) (s : ChatProgram)
    → s.runflag ≡ false
    → (thread_turn r i s).runflag ≡ false
unfolding thread_turn read_turn
thread_turn-runflag waiting interrupted s f = f
thread_turn-runflag waiting broken s f = f
thread_turn-runflag waiting (coming bytes) s f =
    take_in-runflag (take (rbuffer_size - length s.rbuffer) bytes) s ∙ f
thread_turn-runflag ending i s f = refl
thread_turn-runflag closing i s f = f
thread_turn-runflag caught i s f = f
thread_turn-runflag overrun i s f = f
thread_turn-runflag gone i s f = f

thread_turn-gone : (i : Incoming) (s : ChatProgram) → s.reader ≡ gone → thread_turn s.reader i s ≡ s
unfolding thread_turn
thread_turn-gone i s r = ap (λ x. thread_turn x i s) r

thread-Done :
    (pid : ℕ) (i : Incoming) (bytes : Bytes) (s : ChatProgram) (n : ℕ)
    → Done bytes s n
    → Done bytes (turn pid (thread_reads i) s) n
thread-Done pid i bytes s n (has_left m b e) =
    subst (λ x. Done bytes x n) (sym (thread_step pid i s left e)) (has_left n b e)
thread-Done pid i bytes s n (cannot_write m b r e) =
    subst (λ x. Done bytes x (suc m))
      (sym (thread_step pid i s at_write e ∙ thread_turn-gone i s r)) (cannot_write m b r e)
thread-Done pid i bytes s n (cannot_pass m b f e) =
    let k = thread_turn-Same s.reader i s in
    subst (λ x. Done bytes x (suc m)) (sym (thread_step pid i s at_check e))
      (cannot_pass m (k.sent ∙ b) (thread_turn-runflag s.reader i s f) (k.stage ∙ e))
thread-Done pid i bytes s n (must_fail m b r e) =
    subst (λ x. Done bytes x (suc (suc m)))
      (sym (thread_step pid i s at_check e ∙ thread_turn-gone i s r)) (must_fail m b r e)

leb-pred : (n m : ℕ) → leb n (suc m) ≡ leb (pred n) m
leb-pred zero m = ground arith
leb-pred (suc n) m = ground arith

-- `n` steps of `main` are enough.
run-Done :
    (pid : ℕ) (turns : List ChatTurn) (bytes : Bytes) (s : ChatProgram) (n : ℕ)
    → Done bytes s n
    → ((run_turns pid turns s).sent ≡ bytes)
      × ((inside (run_turns pid turns s).stage && leb n (mains turns)) ≡ false)
unfolding run_turns
run-Done pid [] bytes s n (has_left m b e) = (b, rw e refl)
run-Done pid [] bytes s n (cannot_write m b r e) = (b, rw e (ground arith))
run-Done pid [] bytes s n (cannot_pass m b f e) = (b, rw e (ground arith))
run-Done pid [] bytes s n (must_fail m b r e) = (b, rw e (ground arith))
run-Done pid (main_goes w ∷ turns) bytes s n d =
    let r =
      run-Done pid turns bytes (turn pid (main_goes w) s) (pred n) (main-Done pid w bytes s n d) in
    (
      r.0,
      ap (λ c. inside (run_turns pid turns (turn pid (main_goes w) s)).stage && c)
            (leb-pred n (mains turns))
          ∙ r.1,
    )
run-Done pid (thread_reads i ∷ turns) bytes s n d =
    run-Done pid turns bytes (turn pid (thread_reads i) s) n (thread-Done pid i bytes s n d)

send_turn-Done :
    (pack : Bytes) (o : Option ℕ) (s : ChatProgram)
    → s.runflag ≡ false
    → (part : ℕ) × Done (s.sent ++ take part pack) (send_turn pack o s) 1
unfolding send_turn
send_turn-Done pack none s f = (0, has_left 1 (sym (append-nil s.sent)) refl)
send_turn-Done pack (some k) s f = (
  k,
  elim (Bool-cases (length (take k pack) == length pack)) [
    | inl whole ↦ cannot_pass 0 refl f (ap after_write whole)
    | inr cut ↦ has_left 1 refl (ap after_write cut)
  ],
)

-- With the flag cleared behind its test, one packet may still be written.
run-packet :
    (pid : ℕ) (turns : List ChatTurn) (bytes : Bytes) (cmd count : ℕ) (s : ChatProgram)
    → s.runflag ≡ false
    → s.stage ≡ at_write
    → s.sent ≡ bytes
    → s.cmd ≡ cmd
    → s.count ≡ count
    → (part : ℕ) × ((run_turns pid turns s).sent
        ≡ bytes ++ take part (greeting pid (next_cmd cmd) count))
      × ((inside (run_turns pid turns s).stage && leb 2 (mains turns)) ≡ false)
unfolding run_turns main_turn
run-packet pid [] bytes cmd count s f e b c n = (0, b ∙ sym (append-nil bytes), rw e (ground arith))
run-packet pid (main_goes w ∷ turns) bytes cmd count s f e b c n =
    let pack = greeting pid (next_cmd s.cmd) s.count in
    let (part, d) =
      send_turn-Done pack (size_send s.reader w)
        (record s { cmd = next_cmd s.cmd; count = suc s.count }) f in
    let r =
      run-Done pid turns (s.sent ++ take part pack) (turn pid (main_goes w) s) 1
        (subst (λ x. Done (s.sent ++ take part pack) x 1) (sym (main_step pid w s at_write e)) d) in
    (
      part,
      r.0 ∙ ap₂ (λ x y. x ++ take part y) b (ap₂ (λ x y. greeting pid (next_cmd x) y) c n),
      ap (λ z. inside (run_turns pid turns (turn pid (main_goes w) s)).stage && z)
            (leb-pred 2 (mains turns))
          ∙ r.1,
    )
run-packet pid (thread_reads i ∷ turns) bytes cmd count s f e b c n =
    let k = thread_turn-Same s.reader i s in
    let t = thread_step pid i s at_write e in
    run-packet pid turns bytes cmd count (turn pid (thread_reads i) s)
      (ap (λ x. x.runflag) t ∙ thread_turn-runflag s.reader i s f)
      (ap (λ x. x.stage) t ∙ k.stage ∙ e) (ap (λ x. x.sent) t ∙ k.sent ∙ b)
      (ap (λ x. x.cmd) t ∙ k.cmd ∙ c) (ap (λ x. x.count) t ∙ k.count ∙ n)

-- The state when the thread has read `i`, `main` has had some steps, and the thread one more.
abbrev pub behind : ℕ → Incoming → List (Option ℕ) → Incoming → ChatProgram → ChatProgram
behind pid i ws j s =
    turn pid (thread_reads j) (run_turns pid (map main_goes ws) (turn pid (thread_reads i) s))

-- Whether `main` may still write when the thread has read `i`.
abbrev pub may_write : Incoming → Stage → Bool
may_write (coming bytes) at_write = true
may_write _ _ = false

send_turn-reader :
    (pack : Bytes) (o : Option ℕ) (s : ChatProgram) → (send_turn pack o s).reader ≡ s.reader
unfolding send_turn
send_turn-reader pack none s = refl
send_turn-reader pack (some k) s = refl

main_turn-reader :
    (pid : ℕ) (w : Option ℕ) (st : Stage) (s : ChatProgram)
    → (main_turn pid w st s).reader ≡ s.reader
unfolding main_turn
main_turn-reader pid w at_check s = on_flag s.runflag
  where
    on_flag :
        (b : Bool)
        → (if b then record s { stage = at_write } else record s { stage = left }).reader ≡ s.reader
    on_flag true = refl
    on_flag false = refl
main_turn-reader pid w at_write s =
    send_turn-reader (greeting pid (next_cmd s.cmd) s.count) (size_send s.reader w)
      (record s { cmd = next_cmd s.cmd; count = suc s.count })
main_turn-reader pid w left s = refl

inside-reader :
    (b : Bool) (s s' : ChatProgram) → s'.reader ≡ s.reader → (if b then s' else s).reader ≡ s.reader
inside-reader true s s' e = e
inside-reader false s s' e = refl

mains-reader :
    (pid : ℕ) (ws : List (Option ℕ)) (s : ChatProgram)
    → (run_turns pid (map main_goes ws) s).reader ≡ s.reader
unfolding run_turns turn
mains-reader pid [] s = refl
mains-reader pid (w ∷ ws) s =
    mains-reader pid ws (turn pid (main_goes w) s)
    ∙ inside-reader (inside s.stage) s (main_turn pid w s.stage s)
        (main_turn-reader pid w s.stage s)

-- From `s` on a part of the greeting that `main` is about to write is sent, if it still may be, and
-- nothing more; and `main` has left its loop when it has had two steps.
abbrev pub Stops : ℕ → Incoming → List ChatTurn → ChatProgram → Type 0
Stops pid i turns s =
    (part : ℕ) × ((run_turns pid turns s).sent
      ≡ s.sent
        ++ (if may_write i s.stage then take part (greeting pid (next_cmd s.cmd) s.count) else []))
    × ((inside (run_turns pid turns s).stage && leb 2 (mains turns)) ≡ false)

Done-Stops :
    (pid : ℕ) (i : Incoming) (turns : List ChatTurn) (s : ChatProgram)
    → Done s.sent s 2
    → may_write i s.stage ≡ false
    → Stops pid i turns s
Done-Stops pid i turns s d m =
    let r = run-Done pid turns s.sent s 2 d in
    (
      0,
      r.0
          ∙ sym (append-nil s.sent)
          ∙ ap (λ b. s.sent ++ (if b then take 0 (greeting pid (next_cmd s.cmd) s.count) else []))
              (sym m),
      r.1,
    )

may_write-left : (i : Incoming) → may_write i left ≡ false
may_write-left interrupted = refl
may_write-left broken = refl
may_write-left (coming bytes) = refl

-- The thread clears the flag.
flag-Stops :
    (pid : ℕ) (turns : List ChatTurn) (s : ChatProgram) (st : Stage)
    → s.runflag ≡ false
    → s.stage ≡ st
    → Stops pid (coming []) turns s
flag-Stops pid turns s at_check f e =
    Done-Stops pid (coming []) turns s (cannot_pass 1 refl f e) (ap (may_write (coming [])) e)
flag-Stops pid turns s left f e =
    Done-Stops pid (coming []) turns s (has_left 2 refl e) (ap (may_write (coming [])) e)
flag-Stops pid turns s at_write f e =
    let (part, sends, leaves) = run-packet pid turns s.sent s.cmd s.count s f e refl refl refl in
    (
      part,
      sends
          ∙ ap
              (λ b. s.sent ++ (if b then take part (greeting pid (next_cmd s.cmd) s.count) else []))
              (sym (ap (may_write (coming [])) e)),
      leaves,
    )

-- The thread closes the socket.
gone-Stops :
    (pid : ℕ) (turns : List ChatTurn) (s : ChatProgram) (st : Stage)
    → s.reader ≡ gone
    → s.stage ≡ st
    → Stops pid broken turns s
gone-Stops pid turns s at_check g e =
    Done-Stops pid broken turns s (must_fail 0 refl g e) (ap (may_write broken) e)
gone-Stops pid turns s at_write g e =
    Done-Stops pid broken turns s (cannot_write 1 refl g e) (ap (may_write broken) e)
gone-Stops pid turns s left g e =
    Done-Stops pid broken turns s (has_left 2 refl e) (ap (may_write broken) e)

-- The next step of the thread, or none when the process is over.
ending-Stops :
    (pid : ℕ) (j : Incoming) (turns : List ChatTurn) (s : ChatProgram)
    → s.reader ≡ ending
    → Stops pid (coming []) turns (turn pid (thread_reads j) s)
unfolding turn thread_turn
ending-Stops pid j turns s r = go s.stage refl
  where
    go :
        (st : Stage)
        → s.stage ≡ st
        → Stops pid (coming []) turns (if inside st then thread_turn s.reader j s else s)
    go at_check e =
        subst (λ x. Stops pid (coming []) turns (thread_turn x j s)) (sym r)
          (flag-Stops pid turns (record s { runflag = false; reader = closing }) at_check refl e)
    go at_write e =
        subst (λ x. Stops pid (coming []) turns (thread_turn x j s)) (sym r)
          (flag-Stops pid turns (record s { runflag = false; reader = closing }) at_write refl e)
    go left e =
        Done-Stops pid (coming []) turns s (has_left 2 refl e) (ap (may_write (coming [])) e)

closing-Stops :
    (pid : ℕ) (j : Incoming) (turns : List ChatTurn) (s : ChatProgram)
    → s.reader ≡ closing
    → Stops pid broken turns (turn pid (thread_reads j) s)
unfolding turn thread_turn
closing-Stops pid j turns s r = go s.stage refl
  where
    go :
        (st : Stage)
        → s.stage ≡ st
        → Stops pid broken turns (if inside st then thread_turn s.reader j s else s)
    go at_check e =
        subst (λ x. Stops pid broken turns (thread_turn x j s)) (sym r)
          (gone-Stops pid turns (record s { reader = gone }) at_check refl e)
    go at_write e =
        subst (λ x. Stops pid broken turns (thread_turn x j s)) (sym r)
          (gone-Stops pid turns (record s { reader = gone }) at_write refl e)
    go left e = Done-Stops pid broken turns s (has_left 2 refl e) (ap (may_write broken) e)

-- The first step of the thread.
read_end :
    (pid : ℕ) (i : Incoming) (s : ChatProgram)
    → s.reader ≡ waiting
    → inside s.stage ≡ true
    → turn pid (thread_reads i) s ≡ read_turn i s
unfolding turn thread_turn
read_end pid i s r l =
    ap (λ b. if b then thread_turn s.reader i s else s) l ∙ ap (λ x. thread_turn x i s) r

-- When the thread, at its `read` while `main` is in its loop, gets the end of the stream or an error,
-- `main` has any number of steps before the thread has its next one. From there on, in whatever order the
-- steps come and whatever the kernel does, nothing more is sent, but for a part of the one greeting that
-- `main` was about to write when the flag was cleared at the end of the stream; and `main` has left
-- its loop when it has had two steps.
pub run_turns-closed :
    (pid : ℕ) (i j : Incoming) (ws : List (Option ℕ)) (turns : List ChatTurn) (s : ChatProgram)
    → s.reader ≡ waiting
    → inside s.stage ≡ true
    → ends i ≡ true
    → Stops pid i turns (behind pid i ws j s)
unfolding read_turn take_in
run_turns-closed pid interrupted j ws turns s r l e = absurd (false-ne-true e)
run_turns-closed pid broken j ws turns s r l e =
    closing-Stops pid j turns (run_turns pid (map main_goes ws) (turn pid (thread_reads broken) s))
      (mains-reader pid ws (turn pid (thread_reads broken) s)
        ∙ ap (λ x. x.reader) (read_end pid broken s r l))
run_turns-closed pid (coming []) j ws turns s r l e =
    ending-Stops pid j turns
      (run_turns pid (map main_goes ws) (turn pid (thread_reads (coming [])) s))
      (mains-reader pid ws (turn pid (thread_reads (coming [])) s)
        ∙ ap (λ x. x.reader) (read_end pid (coming []) s r l)
        ∙ ap (λ bytes. (take_in bytes s).reader)
            (take-all (rbuffer_size - length s.rbuffer) [] (omega arith)))
run_turns-closed pid (coming (c ∷ cs)) j ws turns s r l e = absurd (false-ne-true e)
