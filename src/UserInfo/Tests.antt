-- ===== src/UserInfo/Tests.antt =====
-- The user's information on concrete tables.
use sasy_server.Base.{
  ◌>=>◌, returns, raises, ℕ, ◌+◌, ◌%◌, ◌^◌, ◌≡◌, refl, Bool, true, [], ◌∷◌, Bytes, Option, none,
  some, arith, same_iff, assign,
}
use sasy_server.UserInfo.Members.{
  integer, boolean, text, Value, plain, table, Table, Lua, UserInfo, zeroed, uint8,
}
use sasy_server.UserInfo.Attributes.{
  test_set, test_get, set_all, set_attribute, initialize, write_member, get_attribute, get_all,
  reset,
}
use sasy_server.UserInfo.Attributes.Access.{fits_uint8, test_get-test_set}
use sasy_server.UserInfo.Attributes.Others.{test_get-set_attribute}
use sasy_server.UserInfo.Attributes.Sums.{total}
use sasy_server.UserInfo.Attributes.Life.{initialize-reset}
use sasy_server.UserInfo.Score.{Distilled, distill_variation}
use sasy_server.UserInfo.Score.History.{Game, play, amount, distill_variation-play}

-- Conversions as Lua has them for values of the right type; nothing here converts others.
abbrev integer_of : Value → ℕ
integer_of (plain (integer n)) = n
integer_of (plain (boolean b)) = 0
integer_of (plain (text bs)) = 0
integer_of (table t) = 0

abbrev boolean_of : Value → Bool
boolean_of (plain (integer n)) = true
boolean_of (plain (boolean b)) = b
boolean_of (plain (text bs)) = true
boolean_of (table t) = true

abbrev text_of : Value → Option Bytes
text_of (plain (integer n)) = none
text_of (plain (boolean b)) = none
text_of (plain (text bs)) = some bs
text_of (table t) = none

abbrev lua : Lua
lua = record {
  to_integer = integer_of;
  to_boolean = boolean_of;
  to_text = text_of;
  to_integer-integer = λ n h. refl;
  to_boolean-boolean = λ b. refl;
  to_text-text = λ bs. refl;
}

-- A user in use, with a score of 100.
abbrev user : UserInfo
user = record { is_init = true; numbers = λ k. 100; texts = λ k. []; variation = λ k. 0 }

abbrev win : Game
win = record {
  scores = ("score", plain (integer 30)) ∷ ("revenue", plain (integer 2)) ∷ [];
  type = plain (integer 1);
  time = plain (integer 60);
}

distill_variation-play_example :
    (p' p'' : UserInfo) × (d : Distilled) × (play lua (win ∷ win ∷ []) user ≡ returns p')
    × (distill_variation p' ≡ returns (some d, p''))
    × (p'.numbers "winCount" % 2 ^ 64 ≡ (100 + amount "winCount" d.variation_info) % 2 ^ 64)
    × (p''.variation ≡ (λ j. 0))
    × (distill_variation p'' ≡ returns (none, p''))
distill_variation-play_example =
    distill_variation-play lua win (win ∷ []) user "winCount" refl refl refl

test_get-test_set_example :
    (p' : UserInfo) × (test_set lua "gender" (plain (integer 1)) user ≡ returns p')
    × (test_get "gender" p' ≡ some (plain (integer 1)))
test_get-test_set_example =
    test_get-test_set lua "gender" uint8 (integer 1) user refl refl (fits_uint8 1 (omega arith))

abbrev seat : Table
seat = ("tableID", plain (integer 3)) ∷ ("chairID", plain (integer 1)) ∷ []

abbrev seated : UserInfo
seated = record user { numbers = assign (assign user.numbers "tableID" 3) "chairID" 1 }

seat-set : set_attribute lua user seat ≡ returns seated
unfolding set_attribute set_all test_set write_member
seat-set = refl

test_get-set_attribute_example : test_get "score" seated ≡ test_get "score" user
test_get-set_attribute_example =
    test_get-set_attribute lua seat "score" user seated
      (
        λ e. ground (arith, e, same_iff "tableID" "score"),
        (λ e. ground (arith, e, same_iff "chairID" "score"), tt),
      )
      seat-set

abbrev begun : UserInfo
begun = record zeroed {
  is_init = true;
  numbers = assign (assign zeroed.numbers "tableID" 3) "chairID" 1;
}

seat-begun : initialize lua zeroed seat [] ≡ returns begun
unfolding initialize set_all test_set write_member
seat-begun = refl

abbrev gifts : Table
gifts =
    ("gift", plain (integer 5)) ∷ ("medal", plain (integer 1)) ∷ ("gift", plain (integer 6)) ∷ []

gifts-total : total lua "gift" gifts ≡ 11
gifts-total = refl

initialize-reset_example :
    (get_attribute begun ("score" ∷ []) ≡ returns (get_all ("score" ∷ []) begun))
    × (initialize lua begun seat [] ≡ raises "is already initialized")
    × (get_attribute (reset begun) ("score" ∷ []) ≡ raises "operate an unused object")
    × (initialize lua (reset begun) seat []
        ≡ (set_all lua seat (record zeroed { is_init = true }) >=> set_all lua []))
initialize-reset_example =
    initialize-reset lua zeroed begun seat [] seat [] ("score" ∷ []) seat-begun
