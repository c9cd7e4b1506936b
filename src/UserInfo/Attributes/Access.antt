-- ===== src/UserInfo/Attributes/Access.antt =====
-- What is set is read again.
use sasy_server.Base.{
  Call, returns, ℕ, ◌-◌, ◌%◌, ◌^◌, ◌<◌, ◌≤◌, ◌≡◌, ◌≢◌, refl, ap, Bool, true, false, not, [], ◌∷◌,
  ◌==◌, All, if◌then◌else◌, Bytes, length, some, String, same, branch, assign_self, arith, lt→ltb,
}
use sasy_server.UserInfo.Members.{
  Plain, integer, boolean, text, plain, Lua, Member, flag, int64, int32, uint32, uint16, uint8,
  chars, members, UserInfo,
}
use sasy_server.UserInfo.Attributes.{c_string, write_member, read_member, test_set, test_get}

-- The values of a member's C type: for a signed one, the 64-bit patterns of its numbers.
pub data Fits : Member → Plain → Type 0 where
  fits_flag : (b : Bool) → Fits flag (boolean b)
  fits_int64 : (n : ℕ) → n < 2 ^ 64 → Fits int64 (integer n)
  fits_int32 : (n : ℕ) → n < 2 ^ 31 → Fits int32 (integer n)
  fits_negative : (n : ℕ) → 2 ^ 64 - 2 ^ 31 ≤ n → n < 2 ^ 64 → Fits int32 (integer n)
  fits_uint32 : (n : ℕ) → n < 2 ^ 32 → Fits uint32 (integer n)
  fits_uint16 : (n : ℕ) → n < 2 ^ 16 → Fits uint16 (integer n)
  fits_uint8 : (n : ℕ) → n < 2 ^ 8 → Fits uint8 (integer n)
  fits_chars :
      (size : ℕ) (bs : Bytes) → All (λ b. b ≢ 0) bs → length bs < size → Fits (chars size) (text bs)

c_string-whole : (bs : Bytes) → All (λ b. b ≢ 0) bs → c_string bs ≡ bs
unfolding c_string
c_string-whole [] a = refl
c_string-whole (b ∷ bs) a = ground (arith, a.0, c_string-whole bs a.1)

-- That a write returns an object which reads as `v`.
abbrev Reads : Member → String → Plain → Call UserInfo → Type 0
Reads m k v call = (p' : UserInfo) × (call ≡ returns p') × (read_member m k p' ≡ v)

flag_bit : (b : Bool) → not ((if b then 1 else 0) == 0) ≡ b
flag_bit true = refl
flag_bit false = refl

write_member-Reads :
    (lua : Lua) (m : Member) (k : String) (v : Plain) (p : UserInfo)
    → Fits m v
    → Reads m k v (write_member lua m k (plain v) p)
unfolding write_member read_member
write_member-Reads lua flag k _ p (fits_flag b) = (
  _,
  refl,
  rw
      (
        assign_self p.numbers k (if lua.to_boolean (plain (boolean b)) then 1 else 0),
        lua.to_boolean-boolean b,
      )
      (ap boolean (flag_bit b)),
)
write_member-Reads lua int64 k _ p (fits_int64 n h) = (
  _,
  refl,
  rw
      (
        assign_self p.numbers k (lua.to_integer (plain (integer n)) % 2 ^ 64),
        lua.to_integer-integer n h,
      )
      (ap integer (omega arith)),
)
write_member-Reads lua int32 k _ p (fits_int32 n h) = (
  _,
  refl,
  rw
      (
        assign_self p.numbers k (lua.to_integer (plain (integer n)) % 2 ^ 32),
        lua.to_integer-integer n (omega arith),
      )
      (ap integer (ground arith)),
)
write_member-Reads lua int32 k _ p (fits_negative n l h) = (
  _,
  refl,
  rw
      (
        assign_self p.numbers k (lua.to_integer (plain (integer n)) % 2 ^ 32),
        lua.to_integer-integer n h,
      )
      (ap integer (ground arith)),
)
write_member-Reads lua uint32 k _ p (fits_uint32 n h) = (
  _,
  refl,
  rw
      (
        assign_self p.numbers k (lua.to_integer (plain (integer n)) % 2 ^ 32),
        lua.to_integer-integer n (omega arith),
      )
      (ap integer (omega arith)),
)
write_member-Reads lua uint16 k _ p (fits_uint16 n h) = (
  _,
  refl,
  rw
      (
        assign_self p.numbers k (lua.to_integer (plain (integer n)) % 2 ^ 16),
        lua.to_integer-integer n (omega arith),
      )
      (ap integer (omega arith)),
)
write_member-Reads lua uint8 k _ p (fits_uint8 n h) = (
  _,
  refl,
  rw
      (
        assign_self p.numbers k (lua.to_integer (plain (integer n)) % 2 ^ 8),
        lua.to_integer-integer n (omega arith),
      )
      (ap integer (omega arith)),
)
write_member-Reads lua (chars _) k _ p (fits_chars size bs a h) = rw (lua.to_text-text bs) (
    rw (c_string-whole bs a)
      (rw (lt→ltb (length bs) size h) (_, refl, ap text (assign_self p.texts k bs))))

-- An attribute of the ladder that is set to a value of its C type returns, and is then read as that
-- value.
pub test_get-test_set :
    (lua : Lua) (k : String) (m : Member) (v : Plain) (p : UserInfo)
    → same "variationInfo" k ≡ false
    → branch k members ≡ some m
    → Fits m v
    → (p' : UserInfo) × (test_set lua k (plain v) p ≡ returns p') × (test_get k p' ≡ some (plain v))
unfolding test_set test_get
test_get-test_set lua k m v p other b f =
    let (p', e, r) = write_member-Reads lua m k v p f in
    (p', rw (other, b) e, rw (other, b) (ap (λ x. some (plain x)) r))
