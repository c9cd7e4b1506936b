-- ===== src/Chat/Reading/Calls.antt =====
-- A socket's buffer against the bytes that wait: each call.
use sasy_server.Base.{
  ℕ, ◌+◌, ◌-◌, ◌^◌, ◌<◌, ◌≤◌, ◌≡◌, refl, ap, ap₂, sym, subst, ◌∙◌, List, [], ◌∷◌, Bool, true, false,
  Bool-cases, inl, inr, ltb, le→ltb, ◌==◌, if◌then◌else◌, Bytes, length, length-drop, take, drop,
  joined, All, returns, Option, none, some, ok, ◌>>=◌, ◌||◌, u32, arith,
}
use sasy_server.Base.Int.{pos, int32}
use sasy_server.Chat.Buffer.{SocketBuffer}
use sasy_server.Chat.Buffer.Pending.{pend, Inside, Holds}
use sasy_server.Chat.Reading.{
  less, pop_sized, pop_buffer, clear_buffer, readall_loop, readall, Answer, nothing, present, line,
  rounds_of, answer, line_loop, readline_at, readline,
}
use sasy_server.Chat.Reading.Pops.{int32-Holds, less-Holds, pop-Reads}
use sasy_server.Chat.Reading.Lines.{
  first_at, shifted, line_loop-first_at, IsFirstAt, first_at-IsFirstAt,
}

int32-u32 : (n : ℕ) → u32 n < 2 ^ 31 → int32 n ≡ pos (u32 n)
unfolding int32
int32-u32 n h = ground arith

-- What `lpopbuffer` takes from a queue of bytes.
abbrev pub pop_bytes : ℕ → Bytes → Option Bytes × Bytes
pop_bytes n bytes =
    if ltb (length bytes) n || n == 0 then (none, bytes) else (some (take n bytes), drop n bytes)

pop_sized-Holds :
    (sb : SocketBuffer) (bytes : Bytes) (n : ℕ)
    → Holds sb bytes
    → length bytes < 2 ^ 31
    → (sb' : SocketBuffer) × (pop_sized sb (pos n)
        ≡ ok (returns ((pop_bytes n bytes).0, length (pop_bytes n bytes).1), some sb'))
      × Holds sb' (pop_bytes n bytes).1
unfolding pop_sized
pop_sized-Holds sb bytes n w small =
    let e = int32-Holds sb bytes w small in
    let s : sb.size ≡ length bytes = omega (arith, w.counted) in
    elim (Bool-cases (ltb (length bytes) n || n == 0)) [
      | inl out ↦ rw out (sb, rw e (rw out (ap (λ k. ok (returns (none, k), some sb)) s)), w)
      | inr enough ↦
          let h : n ≤ length bytes = ground (arith, enough) in
          let p : 0 < n = ground (arith, enough) in
          let r = pop-Reads sb bytes n 0 w (omega arith) h in
          rw enough (
            less sb n r.nodes (pos r.place),
            rw e (
                rw enough (
                  rw r.ends (
                    ap₂
                      (λ t k.
                        ok (
                          returns (some (take t bytes), k),
                          some (less sb n r.nodes (pos r.place)),
                        ))
                      (omega arith) (omega (arith, s, length-drop n bytes))))),
            less-Holds sb bytes _ n w h small _ r,
          )
    ]

-- The `int` that a number of Lua is cut down to.
pub pop_buffer-Holds :
    (sb : SocketBuffer) (bytes : Bytes) (n : ℕ)
    → Holds sb bytes
    → length bytes < 2 ^ 31
    → u32 n < 2 ^ 31
    → (sb' : SocketBuffer) × (pop_buffer (some sb) n
        ≡ ok (returns ((pop_bytes (u32 n) bytes).0, length (pop_bytes (u32 n) bytes).1), some sb'))
      × Holds sb' (pop_bytes (u32 n) bytes).1
unfolding pop_buffer
pop_buffer-Holds sb bytes n w small h =
    let (sb', e, w') = pop_sized-Holds sb bytes (u32 n) w small in
    (sb', ap (pop_sized sb) (int32-u32 n h) ∙ e, w')

readall_loop-joined :
    (nodes : List Bytes)
    → All (λ n. 0 < length n) nodes
    → readall_loop nodes (pos 0) ≡ ok (joined nodes, pos 0)
unfolding readall_loop
readall_loop-joined [] a = refl
readall_loop-joined (node ∷ nodes) a =
    rw (le→ltb (length node) 0 (omega arith), readall_loop-joined nodes a.1) refl

readall_loop-pend :
    (o : ℕ) (nodes : List Bytes)
    → Inside o nodes
    → readall_loop nodes (pos o) ≡ ok (pend o nodes, pos 0)
unfolding readall_loop
readall_loop-pend o [] i = ap (λ k. ok ([], pos k)) i
readall_loop-pend o (node ∷ nodes) i =
    rw (le→ltb (length node) o (omega arith), readall_loop-joined nodes i.1) refl

empty-Holds : Holds (record { size = 0; offset = pos 0; nodes = [] }) []
empty-Holds = record { place = 0; placed = refl; inside = refl; waiting = refl; counted = refl }

pub readall-Holds :
    (sb : SocketBuffer) (bytes : Bytes)
    → Holds sb bytes
    → (sb' : SocketBuffer) × (readall (some sb) ≡ ok (returns bytes, some sb')) × Holds sb' []
unfolding readall
readall-Holds sb bytes w = (
  record { size = 0; offset = pos 0; nodes = [] },
  rw (w.placed, readall_loop-pend w.place sb.nodes w.inside, w.waiting) refl,
  empty-Holds,
)

pub clear_buffer-Holds :
    (sb : SocketBuffer) (bytes : Bytes)
    → Holds sb bytes
    → (sb' : SocketBuffer) × (clear_buffer (some sb) ≡ some sb') × Holds sb' []
unfolding clear_buffer
clear_buffer-Holds sb bytes w = by_nodes sb.nodes refl
  where
    by_nodes :
        (nodes : List Bytes)
        → nodes ≡ sb.nodes
        → (sb' : SocketBuffer) × ((elim nodes [
          | [] ↦ some (record sb { size = 0 })
          | _ ↦ some (record { size = 0; offset = pos 0; nodes = [] })
        ])
            ≡ some sb')
          × Holds sb' []
    by_nodes [] e = (
      record sb { size = 0 },
      refl,
      record {
        place = 0;
        placed = w.placed ∙ ap pos (subst (Inside w.place) (sym e) w.inside);
        inside = subst (Inside 0) e refl;
        waiting = subst (λ nodes. pend 0 nodes ≡ []) e refl;
        counted = refl;
      },
    )
    by_nodes (node ∷ nodes) e = (record { size = 0; offset = pos 0; nodes = [] }, refl, empty-Holds)

-- What `lreadline` takes: the bytes before the separator, which is taken too.
abbrev pub line_bytes : Bytes → Option ℕ → Bytes → Answer × Bytes
line_bytes sep none bytes = (nothing, bytes)
line_bytes sep (some i) bytes = (line (take i bytes), drop (i + length sep) bytes)

abbrev pub check_bytes : Option ℕ → Answer
check_bytes none = nothing
check_bytes (some i) = present

module _ (sb : SocketBuffer) (bytes sep : Bytes) (w : Holds sb bytes)
    (small : length bytes < 2 ^ 31) (p : 0 < length sep) where
  searched :
      line_loop (rounds_of (int32 sb.size) (length sep)) 0 sb.nodes w.place sep
      ≡ ok (shifted 0 (first_at sep bytes))
  searched =
      let e : rounds_of (int32 sb.size) (length sep)
          ≡ length (pend w.place sb.nodes) + 1 - length sep =
        rw (int32-Holds sb bytes w small) (rw w.waiting (ground arith)) in
      line_loop-first_at (rounds_of (int32 sb.size) (length sep)) 0 sb.nodes w.place sep w.inside p
        e
      ∙ ap (λ t. ok (shifted 0 (first_at sep t))) w.waiting

  shifted-zero : (o : Option ℕ) → shifted 0 o ≡ o
  shifted-zero none = refl
  shifted-zero (some j) = ap some (omega arith)

  readline-answer :
      (check : Bool)
      → readline (some sb) check sep ≡ answer sb check (length sep) (first_at sep bytes)
  unfolding readline
  readline-answer check =
      ap (λ z. readline_at sb z check sep) w.placed
      ∙ ap (λ o. o >>= answer sb check (length sep)) searched
      ∙ ap (answer sb check (length sep)) (shifted-zero (first_at sep bytes))

  pub readline-check :
      readline (some sb) true sep ≡ ok (returns (check_bytes (first_at sep bytes)), some sb)
  readline-check = readline-answer true ∙ by_found (first_at sep bytes)
    where
      by_found :
          (o : Option ℕ) → answer sb true (length sep) o ≡ ok (returns (check_bytes o), some sb)
      by_found none = refl
      by_found (some i) = refl

  pub readline-Holds :
      (sb' : SocketBuffer) × (readline (some sb) false sep
        ≡ ok (returns (line_bytes sep (first_at sep bytes) bytes).0, some sb'))
      × Holds sb' (line_bytes sep (first_at sep bytes) bytes).1
  readline-Holds =
      let (sb', e, h) = by_found (first_at sep bytes) (first_at-IsFirstAt sep bytes p) in
      (sb', readline-answer false ∙ e, h)
    where
      by_found :
          (o : Option ℕ)
          → IsFirstAt sep bytes o
          → (sb' : SocketBuffer) × (answer sb false (length sep) o
              ≡ ok (returns (line_bytes sep o bytes).0, some sb'))
            × Holds sb' (line_bytes sep o bytes).1
      by_found none f = (sb, refl, w)
      by_found (some i) (t, room, before) =
          let r = pop-Reads sb bytes (i + length sep) (length sep) w (omega arith) room in
          let e : i + length sep - length sep ≡ i = omega arith in
          (
            less sb (i + length sep) r.nodes (pos r.place),
            rw (r.ends, e) refl,
            less-Holds sb bytes _ (i + length sep) w room small _ r,
          )
