-- ===== src/Base/Calls.antt =====
-- Calls of C functions from Lua.
use Prim.Native.String.{String}

-- A call returns, or it raises an error that Lua catches, or the C code goes wrong: it reads or
-- writes outside a block, or takes `NULL` for a string.
pub data Call {ℓ} (A : Type ℓ) : Type ℓ where
  returns : A → Call A
  raises : String → Call A
  crashes : Call A

infixl 5 ◌>=>◌
abbrev pub ◌>=>◌ {ℓ κ} : {A : Type ℓ} {B : Type κ} → Call A → (A → Call B) → Call B
returns a >=> f = f a
raises e >=> f = raises e
crashes >=> f = crashes
