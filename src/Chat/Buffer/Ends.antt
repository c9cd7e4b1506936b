-- ===== src/Chat/Buffer/Ends.antt =====
-- `lreadall_chat` comes to its end, also where the head of a message came in parts.
use sasy_server.Base.{
  ℕ, zero, suc, ◌-◌, ◌^◌, ◌<◌, ◌≤◌, ◌≡◌, refl, ap, ◌∙◌, [], ◌∷◌, ◌++◌, Bytes, take, arith, returns,
  some, Outcome, ok, fault, leb, le→ltb, Bool, true, false,
}
use sasy_server.Base.Int.{pos}
use sasy_server.Chat.Packet.{text_size, int_bytes, int_at}
use sasy_server.Chat.Buffer.{again, next_node, judge, read_loop, zeros, push_line, readall_chat}
use sasy_server.Chat.Buffer.Rounds.{read_loop-Follows}

abbrev is_fault : {A : Type 0} → Outcome A → Bool
is_fault fault = true
is_fault _ = false

take-zeros : (n k : ℕ) → n ≤ k → take n (zeros k) ≡ zeros n
take-zeros zero k h = refl
take-zeros (suc n) zero h = absurd (omega arith)
take-zeros (suc n) (suc k) h = ap (λ t. 0 ∷ t) (take-zeros n k (omega arith))

module _ (uin : ℕ) (some_uin : 0 < uin) (fits : uin ≤ text_size) where
  abbrev thrice : Bytes
  thrice = int_bytes uin ++ (int_bytes uin ++ int_bytes uin)

  value : int_at thrice 8 ≡ uin
  value = omega arith

  judge-thrice : judge thrice ≡ next_node
  unfolding judge
  judge-thrice = rw value (ground arith)

  judge-once : judge (int_bytes uin) ≡ again
  unfolding judge
  judge-once = ground arith

  judge-twice : judge (int_bytes uin ++ int_bytes uin) ≡ again
  unfolding judge
  judge-twice = ground arith

  copies : read_loop 13 (int_bytes uin ∷ []) (pos 0) [] ≡ ok (thrice, [], pos 0)
  unfolding read_loop
  copies =
      read_loop-Follows again 12 0 (int_bytes uin) [] [] (omega arith) judge-once
      ∙ read_loop-Follows again 11 0 (int_bytes uin) [] (int_bytes uin) (omega arith) judge-twice
      ∙ read_loop-Follows next_node 10 0 (int_bytes uin) [] (int_bytes uin ++ int_bytes uin)
          (omega arith) judge-thrice

  pushed :
      push_line thrice
      ≡ returns (record { size = 12; uin = uin; cmd = uin; len = uin; text = zeros uin })
  unfolding push_line
  pushed = rw (value, le→ltb text_size uin fits, take-zeros uin text_size fits) (rw small refl)
    where
      small : leb (2 ^ 31) uin ≡ false
      small = ground arith

  -- When only the first four bytes of a message have come, its `uin` of at most 2048 and not 0, they are
  -- copied three times and read as a whole head: `cmd` and `len` are the `uin` too, the text is as many
  -- zero bytes, the buffer is empty and its size is -8.
  pub readall_chat-repeats :
      readall_chat (some (record { size = 4; offset = pos 0; nodes = int_bytes uin ∷ [] }))
      ≡ ok (
        returns (record { size = 12; uin = uin; cmd = uin; len = uin; text = zeros uin }),
        some (record { size = 2 ^ 32 - 8; offset = pos 0; nodes = [] }),
      )
  unfolding readall_chat
  readall_chat-repeats = rw (copies, pushed) refl
