-- ===== src/UserInfo/Score.antt =====
-- `l_writeUserScore` and `l_distillVariation` of game_room/luaclib-src/lua-sui.c.
pub mod Ledger
pub mod History
use sasy_server.Base.{
  Call, returns, ℕ, ◌+◌, ◌%◌, ◌^◌, Bool, true, false, List, [], ◌∷◌, ◌==◌, if◌then◌else◌, Option,
  none, some, String, same, is_one_of, assign,
}
use sasy_server.UserInfo.Members.{
  Plain, Value, plain, Table, Lua, variation_members, UserInfo, when_init,
}
use sasy_server.UserInfo.Attributes.{variation_table}

-- Signed overflow wraps, as the compilers' code does.
abbrev pub bump : (String → ℕ) → String → ℕ → String → ℕ
bump f k n = assign f k ((f k + n) % 2 ^ 64)

-- The members that `testWrite` changes in both structs.
abbrev pub scored_members : List String
scored_members =
    "score" ∷ "insure" ∷ "grade" ∷ "medal" ∷ "gift" ∷ "present" ∷ "experience" ∷ "loveliness" ∷ []

-- `temp->k += n; p->k += n;`
abbrev pub bump_both : String → ℕ → UserInfo → UserInfo
bump_both k n p = record p { numbers = bump p.numbers k n; variation = bump p.variation k n }

unfoldable pub test_write : Lua → String → Value → UserInfo → UserInfo
test_write lua k v p =
    if same "revenue" k
    then record p { variation = bump p.variation k (lua.to_integer v) }
    else if is_one_of k scored_members
    then bump_both k (lua.to_integer v) p
    else p

unfoldable pub write_all : Lua → Table → UserInfo → UserInfo
unfolding test_write
write_all lua [] p = p
write_all lua ((k, v) ∷ rest) p = write_all lua rest (test_write lua k v p)

-- `t == 1` a win, `2` a loss, `3` a draw, `4` a flight
unfoldable pub count_game : ℕ → UserInfo → UserInfo
count_game t p =
    if t == 1
    then bump_both "winCount" 1 p
    else if t == 2
    then bump_both "lostCount" 1 p
    else if t == 3
    then bump_both "drawCount" 1 p
    else if t == 4
    then bump_both "fleeCount" 1 p
    else p

abbrev pub play_time : ℕ → UserInfo → UserInfo
play_time n p = record p { variation = bump p.variation "playTimeCount" n }

abbrev pub set_modified : ℕ → UserInfo → UserInfo
set_modified n p = record p { numbers = assign p.numbers "isModified" n }

unfoldable pub counted : Lua → Value → Value → UserInfo → UserInfo
unfolding count_game
counted lua type time p =
    set_modified 1 (count_game (lua.to_integer type % 2 ^ 32) (play_time (lua.to_integer time) p))

-- The scores of an android are not written.
unfoldable pub write_user_score : Lua → UserInfo → Table → Value → Value → Call UserInfo
unfolding counted write_all
write_user_score lua p scores type time =
    let p' = counted lua type time p in
    when_init p (returns (if p'.numbers "isAndroid" == 0 then write_all lua scores p' else p'))

-- The table that `l_distillVariation` returns.
pub record Distilled : Type 0 where
  pub variation_info : List (String × Plain)
  pub user_id : ℕ
  pub inout_index : ℕ

unfoldable pub distill_variation : UserInfo → Call (Option Distilled × UserInfo)
distill_variation p = when_init p (
    returns (
      if p.numbers "isModified" == 0 then (none, p) else (
        some (record {
          variation_info = variation_table variation_members p;
          user_id = p.numbers "userID";
          inout_index = p.numbers "inoutIndex";
        }),
        record (set_modified 0 p) { variation = λ k. 0 },
      )))
