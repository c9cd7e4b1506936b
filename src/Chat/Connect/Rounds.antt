-- ===== src/Chat/Connect/Rounds.antt =====
-- The rounds of the loop of `socket_connect`.
use sasy_server.Base.{
  ℕ, zero, suc, ◌+◌, ◌<◌, ◌≡◌, refl, sym, ap, ◌∙◌, Bool, true, false, ◌&&◌, Outcome, ok, spent,
  arith,
}
use sasy_server.Base.Int.{ℤ, pos, negsuc}
use sasy_server.Chat.Connect.{
  Sets, all_sets, Selected, SocketCalls, Connected, when_ready, after_select, select_loop,
  in_progress, socket_connect,
}

abbrev pub no_sets : Sets
no_sets = record { rdevents = false; wrevents = false; exevents = false }

abbrev pub one : Bool → ℕ
one true = 1
one false = 0

-- How many sets have the socket.
abbrev pub how_many : Sets → ℕ
how_many s = one s.rdevents + one s.wrevents + one s.exevents

abbrev Within : Sets → Sets → Type 0
Within s' s =
    ((s'.rdevents && s.rdevents) ≡ s'.rdevents)
    × ((s'.wrevents && s.wrevents) ≡ s'.wrevents)
    × ((s'.exevents && s.exevents) ≡ s'.exevents)

abbrev Leaves : Sets → ℤ → Sets → Type 0
Leaves s (negsuc n) s' = s' ≡ s
Leaves s (pos n) s' = (n ≡ how_many s') × Within s' s

-- What `select` left, as its manual has it: an error leaves the sets as they were; otherwise only sockets
-- that were in a set are left in it, and the result is their number, 0 when the time is over.
abbrev pub IsDocumented : Sets → Selected → Type 0
IsDocumented s r = Leaves s r.retcode r.sets

and_false : (b : Bool) → (b && false) ≡ false
and_false true = refl
and_false false = refl

Within-no_sets : (s' : Sets) → Within s' no_sets → s' ≡ no_sets
Within-no_sets s' w =
    let rd : s'.rdevents ≡ false = sym w.0 ∙ and_false s'.rdevents in
    let wr : s'.wrevents ≡ false = sym w.1 ∙ and_false s'.wrevents in
    let ex : s'.exevents ≡ false = sym w.2 ∙ and_false s'.exevents in
    λ i. record { rdevents = rd i; wrevents = wr i; exevents = ex i }

one-zero : (b : Bool) → one b ≡ 0 → b ≡ false
one-zero true e = absurd (omega (arith, e))
one-zero false e = refl

how_many-zero : (s : Sets) → 0 ≡ how_many s → s ≡ no_sets
how_many-zero s e =
    let rd = one-zero s.rdevents (omega (arith, e)) in
    let wr = one-zero s.wrevents (omega (arith, e)) in
    let ex = one-zero s.exevents (omega (arith, e)) in
    λ i. record { rdevents = rd i; wrevents = wr i; exevents = ex i }

after_select-no_sets :
    (calls : SocketCalls) (z : ℤ) (s' : Sets) (rest : Sets → Outcome Connected)
    → Leaves no_sets z s'
    → rest no_sets ≡ spent
    → after_select calls z s' (rest s') ≡ spent
unfolding after_select
after_select-no_sets calls (negsuc n) s' rest w e = ap rest w ∙ e
after_select-no_sets calls (pos zero) s' rest w e = ap rest (Within-no_sets s' w.1) ∙ e
after_select-no_sets calls (pos (suc n)) s' rest w e =
    let none_left = ap how_many (Within-no_sets s' w.1) in absurd (omega (arith, w.0, none_left))

-- The end of a loop whose first result without an error is this one; `spent` is that it has no end.
abbrev pub worth : SocketCalls → ℤ → Sets → Outcome Connected
worth calls (pos (suc n)) sets = ok (when_ready calls sets)
worth calls (pos zero) sets = spent
worth calls (negsuc n) sets = spent

abbrev pub is_error : ℤ → Bool
is_error (negsuc n) = true
is_error (pos n) = false

after_select-error :
    (calls : SocketCalls) (z : ℤ) (s s' : Sets) (rest : Sets → Outcome Connected)
    → Leaves s z s'
    → is_error z ≡ true
    → after_select calls z s' (rest s') ≡ rest s
unfolding after_select
after_select-error calls (negsuc n) s s' rest w e = ap rest w
after_select-error calls (pos n) s s' rest w e = cc

module _ (select : ℕ → Sets → Selected) (calls : SocketCalls)
    (d : (round : ℕ) (s : Sets) → IsDocumented s (select round s)) where
  select_loop-no_sets : (fuel round : ℕ) → select_loop select calls fuel round no_sets ≡ spent
  unfolding select_loop
  select_loop-no_sets zero round = refl
  select_loop-no_sets (suc fuel) round =
      let r = select round no_sets in
      after_select-no_sets calls r.retcode r.sets (select_loop select calls fuel (suc round))
        (d round no_sets) (select_loop-no_sets fuel (suc round))

  at_first :
      (fuel round : ℕ) (z : ℤ) (s s' : Sets)
      → Leaves s z s'
      → is_error z ≡ false
      → after_select calls z s' (select_loop select calls fuel round s') ≡ worth calls z s'
  unfolding after_select
  at_first fuel round (negsuc n) s s' w e = cc
  at_first fuel round (pos zero) s s' w e =
      ap (select_loop select calls fuel round) (how_many-zero s' w.0)
      ∙ select_loop-no_sets fuel round
  at_first fuel round (pos (suc n)) s s' w e = refl

  select_loop-worth :
      (n fuel round last : ℕ)
      → last ≡ n + round
      → n < fuel
      → ((k : ℕ) → k < last → is_error (select k all_sets).retcode ≡ true)
      → is_error (select last all_sets).retcode ≡ false
      → select_loop select calls fuel round all_sets
        ≡ worth calls (select last all_sets).retcode (select last all_sets).sets
  unfolding select_loop
  select_loop-worth n zero round last l f h e = absurd (omega arith)
  select_loop-worth zero (suc fuel) round last l f h e =
      let here : round ≡ last = omega (arith, l) in
      let r = select round all_sets in
      at_first fuel (suc round) r.retcode all_sets r.sets (d round all_sets)
        (ap (λ k. is_error (select k all_sets).retcode) here ∙ e)
      ∙ ap (λ k. worth calls (select k all_sets).retcode (select k all_sets).sets) here
  select_loop-worth (suc n) (suc fuel) round last l f h e =
      let r = select round all_sets in
      after_select-error calls r.retcode all_sets r.sets (select_loop select calls fuel (suc round))
        (d round all_sets) (h round (omega (arith, l)))
      ∙ select_loop-worth n fuel (suc round) last (omega (arith, l)) (omega arith) h e

  -- When `connect` is in progress and `select`, which does what its manual says, fails in `n` rounds and
  -- then does not: if the time is over, no number of rounds ends the loop; if the socket is ready, `n + 1`
  -- rounds are enough, and the loop ends with what the sets, the socket's error and `fcntl` say.
  pub socket_connect-worth :
      (n fuel : ℕ) (nonblock : Bool)
      → n < fuel
      → ((k : ℕ) → k < n → is_error (select k all_sets).retcode ≡ true)
      → is_error (select n all_sets).retcode ≡ false
      → socket_connect select calls fuel true nonblock in_progress
        ≡ worth calls (select n all_sets).retcode (select n all_sets).sets
  unfolding socket_connect
  socket_connect-worth n fuel nonblock f h e = select_loop-worth n fuel 0 n (omega arith) f h e
