-- ===== src/UserInfo/Score/History.antt =====
-- From one call of `l_distillVariation` to the next.
use sasy_server.Base.{
  Call, returns, ◌>=>◌, ℕ, ◌+◌, ◌%◌, ◌^◌, ◌≡◌, refl, ap, ◌∙◌, true, false, List, [], ◌∷◌, ◌==◌,
  if◌then◌else◌, none, some, String, same, same_iff, is_one_of, Bool-cases, inl, inr, arith,
}
use sasy_server.UserInfo.Members.{Plain, integer, Value, Table, Lua, variation_members, UserInfo}
use sasy_server.UserInfo.Attributes.{variation_table}
use sasy_server.UserInfo.Score.{
  scored_members, test_write, write_all, counted, write_user_score, Distilled, distill_variation,
  set_modified,
}
use sasy_server.UserInfo.Score.Ledger.{
  ledger_members, MovesTogether, MovesTogether-refl, MovesTogether-trans, written,
  written-MovesTogether,
}

-- The arguments of one call of `l_writeUserScore`.
pub record Game : Type 0 where
  pub scores : Table
  pub type : Value
  pub time : Value

unfoldable pub play : Lua → List Game → UserInfo → Call UserInfo
play lua [] p = returns p
play lua (g ∷ games) p = write_user_score lua p g.scores g.type g.time >=> play lua games

-- The integer that a table has under a name.
abbrev pub amount : String → List (String × Plain) → ℕ
amount k [] = 0
amount k ((j, integer n) ∷ t) = if same j k then n else amount k t
amount k ((j, x) ∷ t) = if same j k then 0 else amount k t

amount-variation_table :
    (k : String) (names : List String) (p : UserInfo)
    → is_one_of k names ≡ true
    → amount k (variation_table names p) ≡ p.variation k
amount-variation_table k [] p h = cc
amount-variation_table k (j ∷ names) p h = elim (Bool-cases (same j k)) [
  | inl e ↦ rw e (ap p.variation ((same_iff j k).0 e))
  | inr f ↦ rw f (amount-variation_table k names p (ground (arith, f, h)))
]

ledger_distilled :
    (k : String) → is_one_of k ledger_members ≡ true → is_one_of k variation_members ≡ true
ledger_distilled k h = ground arith

-- `isModified` is not one of the names that scores are written to.
is_scored-same : (k : String) → is_one_of k scored_members ≡ true → same k "isModified" ≡ false
is_scored-same k h = elim (Bool-cases (same k "isModified")) [
  | inl e ↦ absurd (
      let both = ap (λ j. is_one_of j scored_members) ((same_iff k "isModified").0 e) in
      cc (h, both))
  | inr f ↦ f
]

test_write-modified :
    (lua : Lua) (k : String) (v : Value) (p : UserInfo)
    → (test_write lua k v p).numbers "isModified" ≡ p.numbers "isModified"
unfolding test_write
test_write-modified lua k v p = elim (Bool-cases (same "revenue" k)) [
  | inl e ↦ rw e refl
  | inr f ↦ rw f (elim (Bool-cases (is_one_of k scored_members)) [
    | inl e ↦ rw e (rw (is_scored-same k e) refl)
    | inr g ↦ rw g refl
  ])
]

write_all-modified :
    (lua : Lua) (t : Table) (p : UserInfo)
    → (write_all lua t p).numbers "isModified" ≡ p.numbers "isModified"
unfolding write_all
write_all-modified lua [] p = refl
write_all-modified lua ((k, v) ∷ t) p =
    write_all-modified lua t (test_write lua k v p) ∙ test_write-modified lua k v p

written-modified :
    (lua : Lua) (p : UserInfo) (scores : Table) (type time : Value)
    → (written lua p scores type time).numbers "isModified" ≡ 1
unfolding counted
written-modified lua p scores type time =
    elim (Bool-cases ((counted lua type time p).numbers "isAndroid" == 0)) [
      | inl a ↦ rw a (write_all-modified lua scores (counted lua type time p))
      | inr a ↦ rw a refl
    ]

write_user_score-written :
    (lua : Lua) (p : UserInfo) (scores : Table) (type time : Value)
    → p.is_init ≡ true
    → write_user_score lua p scores type time ≡ returns (written lua p scores type time)
unfolding write_user_score
write_user_score-written lua p scores type time i = rw i refl

-- Calls on an object in use return, and leave it in use.
play-MovesTogether :
    (lua : Lua) (games : List Game) (p : UserInfo)
    → p.is_init ≡ true
    → p.numbers "isModified" ≡ 1
    → (p' : UserInfo) × (play lua games p ≡ returns p')
      × MovesTogether p p'
      × (p'.numbers "isModified" ≡ 1)
unfolding play
play-MovesTogether lua [] p i m = (p, refl, MovesTogether-refl p, m)
play-MovesTogether lua (g ∷ games) p i m =
    let q = written lua p g.scores g.type g.time in
    let a = written-MovesTogether lua p g.scores g.type g.time in
    let (p', e, b, n) =
      play-MovesTogether lua games q (a.same_init ∙ i)
        (written-modified lua p g.scores g.type g.time) in
    (
      p',
      rw (write_user_score-written lua p g.scores g.type g.time i) e,
      MovesTogether-trans p q p' a b,
      n,
    )

-- An object in use whose variation was handed out takes any number of games, at least one. Then
-- `l_distillVariation` hands out, under each name that the user and the variation share, the amount
-- by which the user's member has changed since (modulo 2 ^ 64), leaves no variation, and a second
-- call in a row hands out nothing.
pub distill_variation-play :
    (lua : Lua) (g : Game) (games : List Game) (p : UserInfo) (k : String)
    → p.is_init ≡ true
    → p.variation ≡ (λ j. 0)
    → is_one_of k ledger_members ≡ true
    → (p' p'' : UserInfo) × (d : Distilled) × (play lua (g ∷ games) p ≡ returns p')
      × (distill_variation p' ≡ returns (some d, p''))
      × (p'.numbers k % 2 ^ 64 ≡ (p.numbers k + amount k d.variation_info) % 2 ^ 64)
      × (p''.variation ≡ (λ j. 0))
      × (distill_variation p'' ≡ returns (none, p''))
unfolding distill_variation play
distill_variation-play lua g games p k i v h =
    let q = written lua p g.scores g.type g.time in
    let a = written-MovesTogether lua p g.scores g.type g.time in
    let (p', e, b, m) =
      play-MovesTogether lua games q (a.same_init ∙ i)
        (written-modified lua p g.scores g.type g.time) in
    let i' : p'.is_init ≡ true = b.same_init ∙ a.same_init ∙ i in
    let moved = (MovesTogether-trans p q p' a b).together k h in
    let zero_before = ap (λ f. f k) v in
    (
      p',
      record (set_modified 0 p') { variation = λ j. 0 },
      record {
        variation_info = variation_table variation_members p';
        user_id = p'.numbers "userID";
        inout_index = p'.numbers "inoutIndex";
      },
      rw (write_user_score-written lua p g.scores g.type g.time i) e,
      rw (i', m) refl,
      rw (amount-variation_table k variation_members p' (ledger_distilled k h))
          (omega (arith, moved, zero_before)),
      refl,
      rw i' refl,
    )
