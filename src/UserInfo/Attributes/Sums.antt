-- ===== src/UserInfo/Attributes/Sums.antt =====
-- `l_addAttribute` as a sum.
use sasy_server.Base.{
  returns, ℕ, ◌+◌, ◌%◌, ◌^◌, ◌≡◌, refl, ap, ◌∙◌, true, [], ◌∷◌, if◌then◌else◌, String, same,
  same_iff, is_one_of, Bool-cases, inl, inr, arith,
}
use sasy_server.UserInfo.Members.{Value, Table, Lua, UserInfo}
use sasy_server.UserInfo.Attributes.{added_members, test_add, add_all, add_attribute}

-- What a table adds to the attribute `k`.
abbrev pub total : Lua → String → Table → ℕ
total lua k [] = 0
total lua k ((j, v) ∷ t) =
    let rest = total lua k t in if same j k then lua.to_integer v + rest else rest

test_add-number :
    (lua : Lua) (j : String) (v : Value) (p : UserInfo) (k : String)
    → is_one_of k added_members ≡ true
    → (test_add lua j v p).numbers k % 2 ^ 64
      ≡ (p.numbers k + (if same j k then lua.to_integer v else 0)) % 2 ^ 64
unfolding test_add
test_add-number lua j v p k h = elim (Bool-cases (same j k)) [
  | inl e ↦
      let eq : j ≡ k = (same_iff j k).0 e in
      let listed : is_one_of j added_members ≡ true = ap (λ x. is_one_of x added_members) eq ∙ h in
      rw (listed, e) (omega (arith, ap p.numbers eq))
  | inr f ↦ elim (Bool-cases (is_one_of j added_members)) [
    | inl l ↦ rw l (rw f (omega arith))
    | inr n ↦ rw n (rw f (omega arith))
  ]
]

total-cons :
    (lua : Lua) (k j : String) (v : Value) (t : Table)
    → total lua k ((j, v) ∷ t) ≡ (if same j k then lua.to_integer v else 0) + total lua k t
total-cons lua k j v t = elim (Bool-cases (same j k)) [
  | inl e ↦ rw e refl
  | inr f ↦ rw f (omega arith)
]

add_all-number :
    (lua : Lua) (t : Table) (p : UserInfo) (k : String)
    → is_one_of k added_members ≡ true
    → (add_all lua t p).numbers k % 2 ^ 64 ≡ (p.numbers k + total lua k t) % 2 ^ 64
unfolding add_all
add_all-number lua [] p k h = omega arith
add_all-number lua ((j, v) ∷ t) p k h = omega (
  arith,
  add_all-number lua t (test_add lua j v p) k h,
  test_add-number lua j v p k h,
  total-cons lua k j v t,
)

-- On an object in use, `l_addAttribute` adds to each attribute of its ladder all that the table has
-- under that name, modulo 2 ^ 64.
pub add_attribute-total :
    (lua : Lua) (t : Table) (p : UserInfo) (k : String)
    → p.is_init ≡ true
    → is_one_of k added_members ≡ true
    → (p' : UserInfo) × (add_attribute lua p t ≡ returns p')
      × (p'.numbers k % 2 ^ 64 ≡ (p.numbers k + total lua k t) % 2 ^ 64)
unfolding add_attribute
add_attribute-total lua t p k i h = (add_all lua t p, rw i refl, add_all-number lua t p k h)
