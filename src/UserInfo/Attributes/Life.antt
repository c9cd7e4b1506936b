-- ===== src/UserInfo/Attributes/Life.antt =====
-- From `l_new` over `l_initialize` to `l_reset`.
use sasy_server.Base.{
  Call, returns, raises, crashes, ◌>=>◌, ◌≡◌, refl, subst, true, List, [], ◌∷◌, ltb, Bytes, length,
  Option, none, some, String, same, branch, is_one_of, assign, Bool-cases, inl, inr, ℕ,
}
use sasy_server.UserInfo.Members.{
  Plain, Value, plain, table, Table, Lua, Member, flag, int64, int32, uint32, uint16, uint8, chars,
  members, variation_members, UserInfo, zeroed,
}
use sasy_server.UserInfo.Attributes.{
  c_string, copy_text, write_member, set_variation, test_set, set_all, get_all, get_attribute,
  initialize, reset,
}

-- That the object which a call leaves is in use.
abbrev InUse : Call UserInfo → Type 0
InUse (returns p) = p.is_init ≡ true
InUse (raises e) = Unit
InUse crashes = Unit

bind-InUse :
    (call : Call UserInfo) (f : UserInfo → Call UserInfo)
    → InUse call
    → ((p : UserInfo) → p.is_init ≡ true → InUse (f p))
    → InUse (call >=> f)
bind-InUse (returns p) f h k = k p h
bind-InUse (raises e) f h k = tt
bind-InUse crashes f h k = tt

copy_text-InUse :
    (r : Option Bytes) (n : ℕ) (k : String) (p : UserInfo)
    → p.is_init ≡ true
    → InUse (copy_text r n k p)
unfolding copy_text
copy_text-InUse none n k p i = tt
copy_text-InUse (some bs) n k p i = elim (Bool-cases (ltb (length (c_string bs)) n)) [
  | inl e ↦ rw e i
  | inr f ↦ rw f tt
]

write_member-InUse :
    (lua : Lua) (m : Member) (k : String) (v : Value) (p : UserInfo)
    → p.is_init ≡ true
    → InUse (write_member lua m k v p)
unfolding write_member
write_member-InUse lua flag k v p i = i
write_member-InUse lua int64 k v p i = i
write_member-InUse lua int32 k v p i = i
write_member-InUse lua uint32 k v p i = i
write_member-InUse lua uint16 k v p i = i
write_member-InUse lua uint8 k v p i = i
write_member-InUse lua (chars n) k v p i = copy_text-InUse (lua.to_text v) n k p i

set_variation-InUse :
    (lua : Lua) (t : List (String × Plain)) (p : UserInfo)
    → p.is_init ≡ true
    → (set_variation lua t p).is_init ≡ true
unfolding set_variation
set_variation-InUse lua [] p i = i
set_variation-InUse lua ((k, v) ∷ t) p i = elim (Bool-cases (is_one_of k variation_members)) [
  | inl e ↦
      rw (e, set_variation)
        (set_variation-InUse lua t
          (record p { variation = assign p.variation k (lua.to_integer (plain v)) }) i)
  | inr f ↦ rw (f, set_variation) (set_variation-InUse lua t p i)
]

abbrev stored : Lua → String → Value → UserInfo → Option Member → Call UserInfo
stored lua k v p none = returns p
stored lua k v p (some m) = write_member lua m k v p

stored-InUse :
    (lua : Lua) (k : String) (v : Value) (p : UserInfo) (r : Option Member)
    → p.is_init ≡ true
    → InUse (stored lua k v p r)
stored-InUse lua k v p none i = i
stored-InUse lua k v p (some m) i = write_member-InUse lua m k v p i

test_set-InUse :
    (lua : Lua) (k : String) (v : Value) (p : UserInfo)
    → p.is_init ≡ true
    → InUse (test_set lua k v p)
unfolding test_set
test_set-InUse lua k (plain x) p i = elim (Bool-cases (same "variationInfo" k)) [
  | inl e ↦ rw e tt
  | inr f ↦ rw f (stored-InUse lua k (plain x) p (branch k members) i)
]
test_set-InUse lua k (table t) p i = elim (Bool-cases (same "variationInfo" k)) [
  | inl e ↦ rw e (set_variation-InUse lua t p i)
  | inr f ↦ rw f (stored-InUse lua k (table t) p (branch k members) i)
]

set_all-InUse : (lua : Lua) (t : Table) (p : UserInfo) → p.is_init ≡ true → InUse (set_all lua t p)
unfolding set_all
set_all-InUse lua [] p i = i
set_all-InUse lua ((k, v) ∷ t) p i =
    bind-InUse (test_set lua k v p) (set_all lua t) (test_set-InUse lua k v p i)
      (set_all-InUse lua t)

initialize-InUse :
    (lua : Lua) (p : UserInfo) (base more : Table) → InUse (initialize lua p base more)
unfolding initialize
initialize-InUse lua p base more = elim (Bool-cases p.is_init) [
  | inl i ↦ rw i tt
  | inr n ↦ rw n (
      bind-InUse (set_all lua base (record p { is_init = true })) (set_all lua more)
        (set_all-InUse lua base (record p { is_init = true }) refl) (set_all-InUse lua more))
]

-- An object that `l_initialize` leaves is read, is not initialized a second time whatever the tables
-- are, and can be initialized again only after a reset, before which its attributes are not read.
pub initialize-reset :
    (lua : Lua) (p p' : UserInfo) (base more again once : Table) (names : List String)
    → initialize lua p base more ≡ returns p'
    → (get_attribute p' names ≡ returns (get_all names p'))
      × (initialize lua p' again once ≡ raises "is already initialized")
      × (get_attribute (reset p') names ≡ raises "operate an unused object")
      × (initialize lua (reset p') again once
          ≡ (set_all lua again (record zeroed { is_init = true }) >=> set_all lua once))
unfolding get_attribute initialize reset
initialize-reset lua p p' base more again once names e =
    let i : p'.is_init ≡ true =
      subst InUse e (unfold initialize in initialize-InUse lua p base more) in
    (rw i refl, rw i refl, refl, refl)
