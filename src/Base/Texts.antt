-- ===== src/Base/Texts.antt =====
-- Names of attributes: texts that are only compared, as by `strcmp`, and maps from them.
use Prim.Native.Char.{code}
use Prim.Native.Nat.{ℕ}
use Prim.Native.String.{String}
use text.Mathlib.Text.{◌==◌}
use text.Mathlib.TextEquality.{eq_iff}
use mathlib.Core.Path.{◌≡◌}
use mathlib.Core.Logic.{◌↔◌, ◌≢◌}
use mathlib.Core.Bool.{Bool, true, false}
use mathlib.Core.Option.{Option, none, some}
use mathlib.Core.List.{List, [], ◌∷◌}
use native.Mathlib.Omega.{arith}
use sasy_server.Base.Tests.{if◌then◌else◌}

abbrev pub same : String → String → Bool
same j k = j == k

pub same_iff : (j k : String) → (same j k ≡ true) ↔ (j ≡ k)
same_iff j k = eq_iff j k

-- The branch that a ladder of `strcmp(k, …)` takes.
abbrev pub branch {ℓ} : {A : Type ℓ} → String → List (String × A) → Option A
branch k [] = none
branch k ((j, a) ∷ ladder) = if same j k then some a else branch k ladder

abbrev pub is_one_of : String → List String → Bool
is_one_of k [] = false
is_one_of k (j ∷ names) = if same j k then true else is_one_of k names

-- `p->k = v`
abbrev pub assign {ℓ} : {A : Type ℓ} → (String → A) → String → A → String → A
assign f k v j = if same k j then v else f j

pub assign_self {ℓ} : {A : Type ℓ} (f : String → A) (k : String) (v : A) → assign f k v k ≡ v
assign_self f k v = ground (arith, eq_iff k k)

pub assign_ne {ℓ} :
    {A : Type ℓ} (f : String → A) (k j : String) (v : A) → k ≢ j → assign f k v j ≡ f j
assign_ne f k j v h = ground (arith, eq_iff k j)

-- The characters of a text that is ASCII.
abbrev pub codes : String → List ℕ
codes String.[] = []
codes (String.◌∷◌ c s) = code c ∷ codes s
