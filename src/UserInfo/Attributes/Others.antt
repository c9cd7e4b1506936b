-- ===== src/UserInfo/Attributes/Others.antt =====
-- What is set changes no other attribute.
use sasy_server.Base.{
  Call, returns, raises, crashes, ◌>=>◌, ℕ, ◌≡◌, ◌≢◌, refl, ap, ◌∙◌, sym, subst, List, [], ◌∷◌, map,
  ltb, All, Bytes, length, Option, none, some, String, same, same_iff, branch, is_one_of, assign,
  assign_ne, Bool-cases, inl, inr,
}
use sasy_server.UserInfo.Members.{
  Plain, Value, plain, table, Table, Lua, Member, flag, int64, int32, uint32, uint16, uint8, chars,
  members, variation_members, shown_members, UserInfo, when_init-returns,
}
use sasy_server.UserInfo.Attributes.{
  c_string, copy_text, set_attribute, set_number, write_member, read_member, set_variation,
  variation_table, test_set, test_get, set_all,
}

-- Every other attribute reads as before, when the call returns.
abbrev Keeps : String → UserInfo → Call UserInfo → Type 0
Keeps j p (returns p') = test_get j p' ≡ test_get j p
Keeps j p (raises e) = Unit
Keeps j p crashes = Unit

read_member-other :
    (m : Member) (j : String) (p p' : UserInfo)
    → p'.numbers j ≡ p.numbers j
    → p'.texts j ≡ p.texts j
    → read_member m j p' ≡ read_member m j p
unfolding read_member
read_member-other flag j p p' n t = rw n refl
read_member-other int64 j p p' n t = rw n refl
read_member-other int32 j p p' n t = rw n refl
read_member-other uint32 j p p' n t = rw n refl
read_member-other uint16 j p p' n t = rw n refl
read_member-other uint8 j p p' n t = rw n refl
read_member-other (chars size) j p p' n t = rw t refl

test_get-other :
    (j : String) (p p' : UserInfo)
    → p'.numbers j ≡ p.numbers j
    → p'.texts j ≡ p.texts j
    → p'.variation ≡ p.variation
    → test_get j p' ≡ test_get j p
unfolding test_get
test_get-other j p p' n t v = elim (Bool-cases (same "variationInfo" j)) [
  | inl e ↦
      rw e (ap (λ f. some (table (variation_table shown_members (record p { variation = f })))) v)
  | inr f ↦ rw f (shown (branch j members))
]
  where
    shown :
        (r : Option Member)
        → elim r [ none ↦ none | some m ↦ some (plain (read_member m j p')) ]
          ≡ elim r [ none ↦ none | some m ↦ some (plain (read_member m j p)) ]
    shown none = refl
    shown (some m) = ap (λ x. some (plain x)) (read_member-other m j p p' n t)

test_get-variation :
    (j : String) (p : UserInfo) (f : String → ℕ)
    → "variationInfo" ≢ j
    → test_get j (record p { variation = f }) ≡ test_get j p
unfolding test_get
test_get-variation j p f ne = elim (Bool-cases (same "variationInfo" j)) [
  | inl e ↦ absurd (ne ((same_iff "variationInfo" j).0 e))
  | inr g ↦ rw g (shown (branch j members))
]
  where
    shown :
        (r : Option Member)
        → elim r [
          | none ↦ none
          | some m ↦ some (plain (read_member m j (record p { variation = f })))
        ]
          ≡ elim r [ none ↦ none | some m ↦ some (plain (read_member m j p)) ]
    shown none = refl
    shown (some m) =
        ap (λ x. some (plain x)) (read_member-other m j p (record p { variation = f }) refl refl)

set_number-Keeps :
    (k j : String) (n : ℕ) (p : UserInfo) → k ≢ j → Keeps j p (returns (set_number k n p))
set_number-Keeps k j n p ne =
    test_get-other j p (set_number k n p) (assign_ne p.numbers k j n ne) refl refl

copy_text-Keeps :
    (r : Option Bytes) (n : ℕ) (k j : String) (p : UserInfo) → k ≢ j → Keeps j p (copy_text r n k p)
unfolding copy_text
copy_text-Keeps none n k j p ne = tt
copy_text-Keeps (some bs) n k j p ne = elim (Bool-cases (ltb (length (c_string bs)) n)) [
  | inl e ↦ rw e (
      test_get-other j p (record p { texts = assign p.texts k (c_string bs) }) refl
        (assign_ne p.texts k j (c_string bs) ne) refl)
  | inr f ↦ rw f tt
]

write_member-Keeps :
    (lua : Lua) (m : Member) (k j : String) (v : Value) (p : UserInfo)
    → k ≢ j
    → Keeps j p (write_member lua m k v p)
unfolding write_member
write_member-Keeps lua flag k j v p ne = set_number-Keeps k j _ p ne
write_member-Keeps lua int64 k j v p ne = set_number-Keeps k j _ p ne
write_member-Keeps lua int32 k j v p ne = set_number-Keeps k j _ p ne
write_member-Keeps lua uint32 k j v p ne = set_number-Keeps k j _ p ne
write_member-Keeps lua uint16 k j v p ne = set_number-Keeps k j _ p ne
write_member-Keeps lua uint8 k j v p ne = set_number-Keeps k j _ p ne
write_member-Keeps lua (chars n) k j v p ne = copy_text-Keeps (lua.to_text v) n k j p ne

set_variation-Keeps :
    (lua : Lua) (t : List (String × Plain)) (j : String) (p : UserInfo)
    → "variationInfo" ≢ j
    → Keeps j p (returns (set_variation lua t p))
unfolding set_variation
set_variation-Keeps lua [] j p ne = refl
set_variation-Keeps lua ((k, v) ∷ t) j p ne = elim (Bool-cases (is_one_of k variation_members)) [
  | inl e ↦ rw e (
      let p' = record p { variation = assign p.variation k (lua.to_integer (plain v)) } in
      set_variation-Keeps lua t j p' ne ∙ test_get-variation j p p'.variation ne)
  | inr f ↦ rw f (set_variation-Keeps lua t j p ne)
]

test_set-Keeps :
    (lua : Lua) (k j : String) (v : Value) (p : UserInfo) → k ≢ j → Keeps j p (test_set lua k v p)
unfolding test_set
test_set-Keeps lua k j (plain x) p ne = elim (Bool-cases (same "variationInfo" k)) [
  | inl e ↦ rw e tt
  | inr f ↦ rw f (branch_kept (branch k members))
]
  where
    branch_kept :
        (r : Option Member)
        → Keeps j p (elim r [ none ↦ returns p | some m ↦ write_member lua m k (plain x) p ])
    branch_kept none = refl
    branch_kept (some m) = write_member-Keeps lua m k j (plain x) p ne
test_set-Keeps lua k j (table t) p ne = elim (Bool-cases (same "variationInfo" k)) [
  | inl e ↦
      rw e (set_variation-Keeps lua t j p (λ z. ne (sym ((same_iff "variationInfo" k).0 e) ∙ z)))
  | inr f ↦ rw f (branch_kept (branch k members))
]
  where
    branch_kept :
        (r : Option Member)
        → Keeps j p (elim r [ none ↦ returns p | some m ↦ write_member lua m k (table t) p ])
    branch_kept none = refl
    branch_kept (some m) = write_member-Keeps lua m k j (table t) p ne

-- The names of a table.
abbrev pub names : Table → List String
names t = map (λ e. e.0) t

bind-Keeps :
    (j : String) (p : UserInfo) (call : Call UserInfo) (f : UserInfo → Call UserInfo)
    → Keeps j p call
    → ((p' : UserInfo) → Keeps j p' (f p'))
    → Keeps j p (call >=> f)
bind-Keeps j p (returns p') f h k = onward (f p') (k p')
  where
    onward : (c : Call UserInfo) → Keeps j p' c → Keeps j p c
    onward (returns q) e = e ∙ h
    onward (raises m) e = tt
    onward crashes e = tt
bind-Keeps j p (raises e) f h k = tt
bind-Keeps j p crashes f h k = tt

set_all-Keeps :
    (lua : Lua) (t : Table) (j : String) (p : UserInfo)
    → All (λ k. k ≢ j) (names t)
    → Keeps j p (set_all lua t p)
unfolding set_all
set_all-Keeps lua [] j p a = refl
set_all-Keeps lua ((k, v) ∷ t) j p a =
    bind-Keeps j p (test_set lua k v p) (set_all lua t) (test_set-Keeps lua k j v p a.0)
      (λ p'. set_all-Keeps lua t j p' a.1)

-- An attribute that the table does not name reads as before, when a call to set attributes returns.
pub test_get-set_attribute :
    (lua : Lua) (t : Table) (j : String) (p p' : UserInfo)
    → All (λ k. k ≢ j) (names t)
    → set_attribute lua p t ≡ returns p'
    → test_get j p' ≡ test_get j p
unfolding set_attribute
test_get-set_attribute lua t j p p' a e =
    subst (Keeps j p) (when_init-returns p (set_all lua t p) p' e) (set_all-Keeps lua t j p a)
