-- ===== src/WebSocket/Queue/Entries.antt =====
-- The entries of a ring, from one index on.
use native.Mathlib.Nat.{mod-eq_of_lt, mod-add-mod, add-zero}
use sasy_server.Base.{
  ℕ, zero, suc, ◌+◌, ◌%◌, ◌≤◌, ◌<◌, ◌≡◌, refl, ap, ap₂, ◌∙◌, ◌≢◌, sym, [], ◌∷◌, ◌++◌, ltb,
  if◌then◌else◌, update, update_ne, arith, lt→ltb,
}
use sasy_server.WebSocket.Queue.{NetPack, queue_size, no_pack, entries}

module _ (queue : ℕ → NetPack) (cap : ℕ) where
  pub entries-concat :
      (i n : ℕ)
      → entries queue cap i (suc n) ≡ entries queue cap i n ++ (queue ((i + n) % cap) ∷ [])
  unfolding entries
  entries-concat i zero = ap (λ k. queue (k % cap) ∷ []) (omega arith)
  entries-concat i (suc n) =
      ap (λ t. queue (i % cap) ∷ t)
        (entries-concat (i + 1) n
          ∙ ap (λ k. entries queue cap (i + 1) n ++ (queue (k % cap) ∷ [])) (omega arith))

  pub entries-update :
      (t : ℕ) (p : NetPack) (i n : ℕ)
      → ((k : ℕ) → k < n → (i + k) % cap ≢ t)
      → entries (update queue t p) cap i n ≡ entries queue cap i n
  unfolding entries
  entries-update t p i zero h = refl
  entries-update t p i (suc n) h =
      ap₂ ◌∷◌ (update_ne queue t (i % cap) p (λ e. h 0 (omega arith) (rw (add-zero) (sym e)))) (
        entries-update t p (i + 1) n
          (λ k k-lt e. h (suc k) (omega arith) (ap (λ (m : ℕ). m % cap) (omega arith) ∙ e)))

  -- Places that are equal modulo the capacity.
  pub entries-mod : (i j n : ℕ) → i % cap ≡ j % cap → entries queue cap i n ≡ entries queue cap j n
  unfolding entries
  entries-mod i j zero h = refl
  entries-mod i j (suc n) h = ap₂ ◌∷◌ (ap queue h) (
      entries-mod (i + 1) (j + 1) n (
        let step = λ (k : ℕ). mod-add-mod k cap 1 in
        sym (step i) ∙ ap (λ m. (m + 1) % cap) h ∙ step j))

  pub entries-expand :
      (head i n : ℕ)
      → i + n ≤ cap
      → entries
          (λ j. if ltb j cap then queue ((head + j) % cap) else no_pack)
          (cap + queue_size)
          i
          n
        ≡ entries queue cap (head + i) n
  unfolding entries
  entries-expand head i zero h = refl
  entries-expand head i (suc n) h =
      ap₂ ◌∷◌
        (let e : i % (cap + queue_size) ≡ i = mod-eq_of_lt (omega arith) in
          rw (e, lt→ltb i cap (omega arith)))
        (entries-expand head (i + 1) n (omega arith)
          ∙ ap (λ k. entries queue cap k n) (omega arith))
