-- ===== src/WebSocket/Mask.antt =====
-- `decode_wsmask_data` of game_room/luaclib-src/lua-websocketnetpack.c, on the bytes alone.
use sasy_server.Base.{
  ℕ, suc, ◌+◌, ◌%◌, ◌<◌, ◌≡◌, refl, ap, ◌∙◌, ap₂, [], ◌∷◌, ◌++◌, arith, bit_xor, Bytes, length,
  get_or, All,
}
use sasy_server.Base.Xor.{xor_twice}

-- The loop `buffer[i] ^= masks[(i + hasunmask_size) % WEBSOCKET_MASK_LEN]`; `off` is the index of
-- the list's head plus `hasunmask_size`. A mask has four bytes.
unfoldable pub unmask : Bytes → ℕ → Bytes → Bytes
unmask masks off [] = []
unmask masks off (b ∷ bs) = bit_xor b (get_or masks (off % 4) 0) ∷ unmask masks (off + 1) bs

pub length-unmask :
    (masks : Bytes) (off : ℕ) (bs : Bytes) → length (unmask masks off bs) ≡ length bs
unfolding unmask
length-unmask masks off [] = refl
length-unmask masks off (b ∷ bs) = ap suc (length-unmask masks (off + 1) bs)

-- Unmasking a buffer in two parts, the second at the offset that the first leaves, is unmasking
-- it whole.
pub unmask-append :
    (masks : Bytes) (off : ℕ) (xs ys : Bytes)
    → unmask masks off (xs ++ ys) ≡ unmask masks off xs ++ unmask masks (off + length xs) ys
unfolding unmask
unmask-append masks off [] ys = ap (λ k. unmask masks k ys) (omega arith)
unmask-append masks off (x ∷ xs) ys = ap (◌∷◌ (bit_xor x (get_or masks (off % 4) 0))) (
    unmask-append masks (off + 1) xs ys
    ∙ ap (λ k. unmask masks (off + 1) xs ++ unmask masks k ys) (omega arith))

-- Masking and unmasking are the same function, and undo one another.
pub unmask-unmask :
    (masks : Bytes) (off : ℕ) (bs : Bytes) → unmask masks off (unmask masks off bs) ≡ bs
unfolding unmask
unmask-unmask masks off [] = refl
unmask-unmask masks off (b ∷ bs) = ap₂ ◌∷◌ (xor_twice b _) (unmask-unmask masks (off + 1) bs)

-- `uint8_t`
abbrev pub AllBytes : Bytes → Type 0
AllBytes = All (λ b. b < 256)
