-- ===== src/UserInfo/Attributes.antt =====
-- `testGet`, `testSet`, `testAdd` of game_room/luaclib-src/lua-sui.c, and the functions that run them
-- over a table.
pub mod Access
pub mod Others
pub mod Life
pub mod Sums
use sasy_server.Base.{
  Call, returns, raises, crashes, ◌>=>◌, ℕ, ◌+◌, ◌-◌, ◌%◌, ◌^◌, Bool, true, false, not, List, [],
  ◌∷◌, map, ltb, ◌==◌, if◌then◌else◌, Bytes, length, Option, none, some, String, same, branch,
  is_one_of, assign,
}
use sasy_server.UserInfo.Members.{
  Plain, integer, boolean, text, Value, plain, table, Table, Lua, Member, flag, int64, int32,
  uint32, uint16, uint8, chars, members, variation_members, shown_members, UserInfo, zeroed,
  when_init,
}

-- The string that starts a block of bytes.
unfoldable pub c_string : Bytes → Bytes
c_string [] = []
c_string (b ∷ bs) = let rest = c_string bs in if b == 0 then [] else b ∷ rest

abbrev pub set_number : String → ℕ → UserInfo → UserInfo
set_number k n p = record p { numbers = assign p.numbers k n }

-- `strcpy(p->k, s)` to an array of `n` bytes
unfoldable pub copy_text : Option Bytes → ℕ → String → UserInfo → Call UserInfo
unfolding c_string
copy_text none n k p = crashes
copy_text (some bs) n k p =
    if ltb (length (c_string bs)) n
    then returns (record p { texts = assign p.texts k (c_string bs) })
    else crashes

-- `p->k = lua_tointeger(L, -1)`, `lua_toboolean(L, -1)`, or `strcpy(p->k, lua_tostring(L, -1))`
unfoldable pub write_member : Lua → Member → String → Value → UserInfo → Call UserInfo
unfolding copy_text
write_member lua flag k v p = returns (set_number k (if lua.to_boolean v then 1 else 0) p)
write_member lua int64 k v p = returns (set_number k (lua.to_integer v % 2 ^ 64) p)
write_member lua int32 k v p = returns (set_number k (lua.to_integer v % 2 ^ 32) p)
write_member lua uint32 k v p = returns (set_number k (lua.to_integer v % 2 ^ 32) p)
write_member lua uint16 k v p = returns (set_number k (lua.to_integer v % 2 ^ 16) p)
write_member lua uint8 k v p = returns (set_number k (lua.to_integer v % 2 ^ 8) p)
write_member lua (chars n) k v p = copy_text (lua.to_text v) n k p

-- `lua_pushinteger(L, p->k)`, `lua_pushboolean`, or `lua_pushlstring`
unfoldable pub read_member : Member → String → UserInfo → Plain
read_member flag k p = boolean (not (p.numbers k == 0))
read_member int64 k p = integer (p.numbers k)
read_member int32 k p =
    integer (if ltb (p.numbers k) (2 ^ 31) then p.numbers k else p.numbers k + (2 ^ 64 - 2 ^ 32))
read_member uint32 k p = integer (p.numbers k)
read_member uint16 k p = integer (p.numbers k)
read_member uint8 k p = integer (p.numbers k)
read_member (chars n) k p = text (p.texts k)

-- The loop over the table of "variationInfo".
unfoldable pub set_variation : Lua → List (String × Plain) → UserInfo → UserInfo
set_variation lua [] p = p
set_variation lua ((k, v) ∷ rest) p =
    let p' =
      if is_one_of k variation_members
      then record p { variation = assign p.variation k (lua.to_integer (plain v)) }
      else p in
    set_variation lua rest p'

abbrev pub variation_table : List String → UserInfo → List (String × Plain)
variation_table names p = map (λ k. (k, integer (p.variation k))) names

unfoldable pub test_set : Lua → String → Value → UserInfo → Call UserInfo
unfolding set_variation write_member
test_set lua k v p =
    if same "variationInfo" k
    then elim v [ plain x ↦ crashes | table t ↦ returns (set_variation lua t p) ]
    else elim (branch k members) [ none ↦ returns p | some m ↦ write_member lua m k v p ]

-- The value that is set in the result's table, if any.
unfoldable pub test_get : String → UserInfo → Option Value
unfolding read_member
test_get k p =
    if same "variationInfo" k
    then some (table (variation_table shown_members p))
    else elim (branch k members) [ none ↦ none | some m ↦ some (plain (read_member m k p)) ]

abbrev pub added_members : List String
added_members =
    "siteDownScore" ∷ "score" ∷ "insure" ∷ "present" ∷ "loveliness" ∷ "medal" ∷ "gift"
    ∷ "experience" ∷ "contribution" ∷ []

unfoldable pub test_add : Lua → String → Value → UserInfo → UserInfo
test_add lua k v p =
    if is_one_of k added_members
    then set_number k ((p.numbers k + lua.to_integer v) % 2 ^ 64) p
    else p

-- `while(lua_next(L, 2) != 0)`
unfoldable pub set_all : Lua → Table → UserInfo → Call UserInfo
unfolding test_set
set_all lua [] p = returns p
set_all lua ((k, v) ∷ rest) p = test_set lua k v p >=> set_all lua rest

unfoldable pub get_all : List String → UserInfo → Table
unfolding test_get
get_all [] p = []
get_all (k ∷ names) p = elim (test_get k p) [
  | none ↦ get_all names p
  | some v ↦ (k, v) ∷ get_all names p
]

unfoldable pub add_all : Lua → Table → UserInfo → UserInfo
unfolding test_add
add_all lua [] p = p
add_all lua ((k, v) ∷ rest) p = add_all lua rest (test_add lua k v p)

unfoldable pub initialize : Lua → UserInfo → Table → Table → Call UserInfo
unfolding set_all
initialize lua p base more =
    if p.is_init
    then raises "is already initialized"
    else set_all lua base (record p { is_init = true }) >=> set_all lua more

unfoldable pub get_attribute : UserInfo → List String → Call Table
unfolding get_all
get_attribute p names = when_init p (returns (get_all names p))

unfoldable pub set_attribute : Lua → UserInfo → Table → Call UserInfo
unfolding set_all
set_attribute lua p t = when_init p (set_all lua t p)

unfoldable pub add_attribute : Lua → UserInfo → Table → Call UserInfo
unfolding add_all
add_attribute lua p t = when_init p (returns (add_all lua t p))

-- `l_new` and `l_reset`
unfoldable pub reset : UserInfo → UserInfo
reset p = zeroed
