-- ===== src/UserInfo/Score/Ledger.antt =====
-- Scores against the variation that the database is sent.
use sasy_server.Base.{
  ℕ, ◌+◌, ◌%◌, ◌^◌, ◌≡◌, refl, ap, ◌∙◌, sym, true, false, List, [], ◌∷◌, ◌==◌, if◌then◌else◌,
  String, same, same_iff, is_one_of, Bool-cases, inl, inr, arith,
}
use sasy_server.UserInfo.Members.{Value, Table, Lua, UserInfo}
use sasy_server.UserInfo.Score.{
  bump, bump_both, scored_members, test_write, write_all, count_game, counted, play_time,
  set_modified,
}

-- The members that `struct user_info` and `struct VariationInfo` share, less "playTimeCount" and
-- "revenue", which only the variation has.
abbrev pub ledger_members : List String
ledger_members =
    "score" ∷ "insure" ∷ "grade" ∷ "medal" ∷ "gift" ∷ "present" ∷ "experience" ∷ "loveliness"
    ∷ "winCount" ∷ "lostCount" ∷ "drawCount" ∷ "fleeCount" ∷ []

-- Every shared member has moved by as much as its variation, modulo 2 ^ 64, and the android mark and
-- `isInit` are the same.
pub record MovesTogether (p p' : UserInfo) : Type 0 where
  pub same_init : p'.is_init ≡ p.is_init
  pub together :
      (k : String)
      → is_one_of k ledger_members ≡ true
      → (p'.numbers k + p.variation k) % 2 ^ 64 ≡ (p.numbers k + p'.variation k) % 2 ^ 64

pub MovesTogether-refl : (p : UserInfo) → MovesTogether p p
MovesTogether-refl p = record { same_init = refl; together = λ k h. refl }

pub MovesTogether-trans :
    (p q r : UserInfo) → MovesTogether p q → MovesTogether q r → MovesTogether p r
MovesTogether-trans p q r a b = record {
  same_init = b.same_init ∙ a.same_init;
  together = λ k h. omega (arith, a.together k h, b.together k h);
}

-- A name outside the list is not in it.
other_name :
    (name k : String)
    → is_one_of name ledger_members ≡ false
    → is_one_of k ledger_members ≡ true
    → same name k ≡ false
other_name name k out h = elim (Bool-cases (same name k)) [
  | inl e ↦ absurd (
      let eq : name ≡ k = (same_iff name k).0 e in
      let both = ap (λ j. is_one_of j ledger_members) eq in cc (out, h, both))
  | inr f ↦ f
]

bump_both-MovesTogether : (k : String) (n : ℕ) (p : UserInfo) → MovesTogether p (bump_both k n p)
bump_both-MovesTogether k n p = record { same_init = refl; together = moved }
  where
    moved :
        (j : String)
        → is_one_of j ledger_members ≡ true
        → ((bump_both k n p).numbers j + p.variation j) % 2 ^ 64
          ≡ (p.numbers j + (bump_both k n p).variation j) % 2 ^ 64
    moved j h = elim (Bool-cases (same k j)) [
      | inl e ↦
          let eq : k ≡ j = (same_iff k j).0 e in
          rw e (omega (arith, ap p.numbers eq, ap p.variation eq))
      | inr f ↦ rw f refl
    ]

bump_variation-MovesTogether :
    (name : String) (n : ℕ) (p : UserInfo)
    → is_one_of name ledger_members ≡ false
    → MovesTogether p (record p { variation = bump p.variation name n })
bump_variation-MovesTogether name n p out = record {
  same_init = refl;
  together = λ k h. rw (other_name name k out h) refl;
}

set_modified-MovesTogether : (n : ℕ) (p : UserInfo) → MovesTogether p (set_modified n p)
set_modified-MovesTogether n p = record {
  same_init = refl;
  together = λ k h. rw (other_name "isModified" k refl h) refl;
}

test_write-MovesTogether :
    (lua : Lua) (k : String) (v : Value) (p : UserInfo) → MovesTogether p (test_write lua k v p)
unfolding test_write
test_write-MovesTogether lua k v p = elim (Bool-cases (same "revenue" k)) [
  | inl e ↦ rw e (
      bump_variation-MovesTogether k (lua.to_integer v) p
        (ap (λ j. is_one_of j ledger_members) (sym ((same_iff "revenue" k).0 e))))
  | inr f ↦ rw f (elim (Bool-cases (is_one_of k scored_members)) [
    | inl e ↦ rw e (bump_both-MovesTogether k (lua.to_integer v) p)
    | inr g ↦ rw g (MovesTogether-refl p)
  ])
]

write_all-MovesTogether :
    (lua : Lua) (t : Table) (p : UserInfo) → MovesTogether p (write_all lua t p)
unfolding write_all
write_all-MovesTogether lua [] p = MovesTogether-refl p
write_all-MovesTogether lua ((k, v) ∷ t) p =
    MovesTogether-trans p (test_write lua k v p) _ (test_write-MovesTogether lua k v p)
      (write_all-MovesTogether lua t (test_write lua k v p))

count_game-MovesTogether : (t : ℕ) (p : UserInfo) → MovesTogether p (count_game t p)
unfolding count_game
count_game-MovesTogether t p = elim (Bool-cases (t == 1)) [
  | inl e ↦ rw e (bump_both-MovesTogether "winCount" 1 p)
  | inr f ↦ rw f (elim (Bool-cases (t == 2)) [
    | inl e ↦ rw e (bump_both-MovesTogether "lostCount" 1 p)
    | inr g ↦ rw g (elim (Bool-cases (t == 3)) [
      | inl e ↦ rw e (bump_both-MovesTogether "drawCount" 1 p)
      | inr h ↦ rw h (elim (Bool-cases (t == 4)) [
        | inl e ↦ rw e (bump_both-MovesTogether "fleeCount" 1 p)
        | inr i ↦ rw i (MovesTogether-refl p)
      ])
    ])
  ])
]

pub counted-MovesTogether :
    (lua : Lua) (type time : Value) (p : UserInfo) → MovesTogether p (counted lua type time p)
unfolding counted
counted-MovesTogether lua type time p =
    let q = play_time (lua.to_integer time) p in
    let r = count_game (lua.to_integer type % 2 ^ 32) q in
    MovesTogether-trans p q _
      (bump_variation-MovesTogether "playTimeCount" (lua.to_integer time) p refl)
      (MovesTogether-trans q r _ (count_game-MovesTogether (lua.to_integer type % 2 ^ 32) q)
        (set_modified-MovesTogether 1 r))

-- The object that `l_writeUserScore` leaves.
abbrev pub written : Lua → UserInfo → Table → Value → Value → UserInfo
written lua p scores type time =
    let p' = counted lua type time p in
    if p'.numbers "isAndroid" == 0 then write_all lua scores p' else p'

pub written-MovesTogether :
    (lua : Lua) (p : UserInfo) (scores : Table) (type time : Value)
    → MovesTogether p (written lua p scores type time)
written-MovesTogether lua p scores type time =
    elim (Bool-cases ((counted lua type time p).numbers "isAndroid" == 0)) [
      | inl a ↦ rw a (
          MovesTogether-trans p (counted lua type time p) _ (counted-MovesTogether lua type time p)
            (write_all-MovesTogether lua scores (counted lua type time p)))
      | inr a ↦ rw a (counted-MovesTogether lua type time p)
    ]
