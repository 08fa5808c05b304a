-- ===== src/Chunk/Header.antt =====
-- src/utils/chunk.c: a word written among the bytes of a block, and the bytes outside and inside of it.
use nanomsg_copy.Prelude.{ℕ, ◌+◌, ◌-◌, ◌≤◌, ◌<◌, ◌≡◌, get_or, arith, [], ◌∷◌}
use nanomsg_copy.Wire.{putl}
use nanomsg_copy.Chunk.{store}

module _ (m : ℕ → ℕ) (i v : ℕ) where
  pub store_below : (j : ℕ) → j < i → store m i v j ≡ m j
  unfolding store
  store_below j h = ground arith

  pub store_above : (j : ℕ) → i + 4 ≤ j → store m i v j ≡ m j
  unfolding store
  store_above j h = ground arith

  -- The word is the four bytes of nn_putl.
  pub store_at :
      (k : ℕ)
      → k < 4
      → store m i v (i + k) ≡ get_or (putl (m i ∷ m (i + 1) ∷ m (i + 2) ∷ m (i + 3) ∷ []) v) k 0
  unfolding store
  store_at k h = let e : i + k - i ≡ k = omega arith in ground (arith, e)
