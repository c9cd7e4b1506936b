-- ===== src/Client/Search.antt =====
-- `string_table` and `string_search` of game_room/client/select.h: the search for a text in a text.
pub mod Periods
pub mod Table
pub mod First
pub mod Same
use sasy_server.Base.{
  ℕ, zero, suc, ◌+◌, ◌-◌, ◌*◌, Bool, ◌||◌, ltb, ◌==◌, if◌then◌else◌, Bytes, get_or, Outcome, ok,
  fault, spent, ◌>>=◌, update,
}
use sasy_server.Base.Int.{ℤ, pos, negsuc}

-- `parr[0] = -1; parr[1] = 0;`
abbrev pub first_entries : (ℕ → ℤ) → ℕ → ℤ
first_entries parr = update (update parr 0 (negsuc 0)) 1 (pos 0)

-- `while (pos < len)` of `string_table`; `place` is `pos`. A negative `cnd` would be an index outside
-- of the array.
unfoldable pub table_loop : ℕ → Bytes → ℕ → ℕ → ℕ → (ℕ → ℤ) → Outcome (ℕ → ℤ)
table_loop zero w len place cnd parr = spent
table_loop (suc fuel) w len place cnd parr =
    let longer = table_loop fuel w len (place + 1) (cnd + 1) (update parr place (pos (cnd + 1))) in
    let back : Outcome (ℕ → ℤ) = elim (parr cnd) [
      | pos c ↦ table_loop fuel w len place c parr
      | negsuc n ↦ fault
    ] in
    let none_here = table_loop fuel w len (place + 1) 0 (update parr place (pos 0)) in
    if ltb place len
    then (if get_or w (place - 1) 0 == get_or w cnd 0
        then longer
        else if ltb 0 cnd
        then back
        else none_here)
    else ok parr

-- The array is not written before. A round either fills a place or makes `cnd` smaller.
unfoldable pub string_table : Bytes → ℕ → Outcome (ℕ → ℤ)
unfolding table_loop
string_table w len = table_loop (len + len) w len 2 0 (first_entries (λ j. pos 0))

-- `while (m + i < len_src)` of `string_search`
unfoldable pub search_loop : ℕ → Bytes → ℕ → Bytes → ℕ → (ℕ → ℤ) → ℕ → ℕ → Outcome ℤ
search_loop zero src len_src des len_des arr m i = spent
search_loop (suc fuel) src len_src des len_des arr m i =
    let onward = search_loop fuel src len_src des len_des arr m (i + 1) in
    let shift : Outcome ℤ = elim (arr i) [
      | pos k ↦ search_loop fuel src len_src des len_des arr (m + i - k) k
      | negsuc n ↦ search_loop fuel src len_src des len_des arr (m + i + suc n) 0
    ] in
    if ltb (m + i) len_src
    then (if get_or des i 0 == get_or src (m + i) 0
        then (if i == len_des - 1 then ok (pos m) else onward)
        else shift)
    else ok (negsuc 0)

-- The texts are not `NULL`.
unfoldable pub string_search : Bytes → ℕ → Bytes → ℕ → Outcome ℤ
unfolding string_table search_loop
string_search src len_s des len_d =
    if ltb len_s 2 || ltb len_d 2
    then ok (negsuc 0)
    else string_table des len_d >>= λ arr.
        search_loop (len_s + len_s + 1) src len_s des len_d arr 0 0
