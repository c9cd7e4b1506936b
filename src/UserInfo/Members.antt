-- ===== src/UserInfo/Members.antt =====
-- `struct user_info` of game_room/luaclib-src/lua-sui.c, and what its functions take from Lua.
use sasy_server.Base.{
  Call, returns, raises, arith, ℕ, ◌^◌, ◌<◌, ◌≡◌, Bool, false, List, [], ◌∷◌, if◌then◌else◌, Bytes,
  Option, some, String,
}

-- A Lua value, less tables. An integer is its 64-bit pattern.
pub data Plain : Type 0 where
  integer : ℕ → Plain
  boolean : Bool → Plain
  text : Bytes → Plain

-- A table has string keys here, in the order of `lua_next`.
pub data Value : Type 0 where
  plain : Plain → Value
  table : List (String × Plain) → Value

abbrev pub Table : Type 0
Table = List (String × Value)

-- Lua's conversions. `lua_tostring` has no text (`none`) for what is neither a string nor a number.
pub record Lua : Type 0 where
  pub to_integer : Value → ℕ
  pub to_boolean : Value → Bool
  pub to_text : Value → Option Bytes
  pub to_integer-integer : (n : ℕ) → n < 2 ^ 64 → to_integer (plain (integer n)) ≡ n
  pub to_boolean-boolean : (b : Bool) → to_boolean (plain (boolean b)) ≡ b
  pub to_text-text : (bs : Bytes) → to_text (plain (text bs)) ≡ some bs

-- The C type of a member; `flag` is an `int8_t` that holds a Lua boolean.
pub data Member : Type 0 where
  flag : Member
  int64 : Member
  int32 : Member
  uint32 : Member
  uint16 : Member
  uint8 : Member
  chars : ℕ → Member

-- The attributes of `testGet` and `testSet`, with the types of the members that have their names.
-- (`variationInfo` is a struct of its own.)
abbrev pub members : List (String × Member)
members =
    ("isModified", flag)
    ∷ ("grade", int64)
    ∷ ("trusteeScore", int64)
    ∷ ("frozenedScore", int64)
    ∷ ("deskPos", uint32)
    ∷ ("kindID", uint32)
    ∷ ("nodeID", uint32)
    ∷ ("serverID", uint32)
    ∷ ("tableID", uint32)
    ∷ ("chairID", uint32)
    ∷ ("userStatus", int32)
    ∷ ("restrictScore", int64)
    ∷ ("enListStatus", int32)
    ∷ ("isAndroid", flag)
    ∷ ("agent", int32)
    ∷ ("ipAddr", chars 32)
    ∷ ("machineID", chars 40)
    ∷ ("deskCount", int32)
    ∷ ("userRule", uint32)
    ∷ ("mobileUserRule", uint32)
    ∷ ("logonTime", uint32)
    ∷ ("inoutIndex", uint32)
    ∷ ("isClientReady", flag)
    ∷ ("userID", uint32)
    ∷ ("gameID", uint32)
    ∷ ("platformID", uint32)
    ∷ ("nickName", chars 128)
    ∷ ("signature", chars 256)
    ∷ ("gender", uint8)
    ∷ ("faceID", uint16)
    ∷ ("platformFace", chars 256)
    ∷ ("userRight", int32)
    ∷ ("masterRight", int32)
    ∷ ("memberOrder", int32)
    ∷ ("masterOrder", int32)
    ∷ ("siteDownScore", int64)
    ∷ ("score", int64)
    ∷ ("insure", int64)
    ∷ ("present", int64)
    ∷ ("loveliness", int64)
    ∷ ("medal", int64)
    ∷ ("gift", int64)
    ∷ ("experience", int64)
    ∷ ("winCount", int64)
    ∷ ("lostCount", int64)
    ∷ ("drawCount", int64)
    ∷ ("fleeCount", int64)
    ∷ ("contribution", int64)
    ∷ ("dbStatus", int64)
    ∷ []

-- The members of `struct VariationInfo`, all `int64_t`, in the order in which `l_distillVariation`
-- hands them out.
abbrev pub variation_members : List String
variation_members =
    "revenue" ∷ "score" ∷ "insure" ∷ "grade" ∷ "medal" ∷ "gift" ∷ "present" ∷ "experience"
    ∷ "loveliness" ∷ "playTimeCount" ∷ "winCount" ∷ "lostCount" ∷ "drawCount" ∷ "fleeCount" ∷ []

-- Those that `testGet` hands out: "loveliness" is missing.
abbrev pub shown_members : List String
shown_members =
    "revenue" ∷ "score" ∷ "insure" ∷ "grade" ∷ "medal" ∷ "gift" ∷ "present" ∷ "experience"
    ∷ "playTimeCount" ∷ "winCount" ∷ "lostCount" ∷ "drawCount" ∷ "fleeCount" ∷ []

-- `struct user_info`: its members by their names, a number as the bit pattern of its type and a
-- `char` array as the string in it.
pub record UserInfo : Type 0 where
  pub is_init : Bool
  pub numbers : String → ℕ
  pub texts : String → Bytes
  pub variation : String → ℕ

-- All zero, as `l_new` and `l_reset` leave it.
abbrev pub zeroed : UserInfo
zeroed = record { is_init = false; numbers = λ k. 0; texts = λ k. []; variation = λ k. 0 }

-- `if(!p->isInit) return luaL_error(L, "operate an unused object")`
abbrev pub when_init {ℓ} : {A : Type ℓ} → UserInfo → Call A → Call A
when_init p call = if p.is_init then call else raises "operate an unused object"

pub when_init-returns {ℓ} :
    {A : Type ℓ} (p : UserInfo) (call : Call A) (a : A)
    → when_init p call ≡ returns a
    → call ≡ returns a
when_init-returns p call a e = ground (arith, e)
