-- ===== src/Bitmask/Bytes.antt =====
-- The byte loops of bitmask.c: `bitmask_not`, `bitmask_memcpy_lsbfirst`, `bitmask_xor`.
use imgeditor.Common.{ℕ, zero, suc, ◌+◌, ◌≤◌, ◌<◌, ◌≡◌, refl, ◌∙◌, ◌⊎◌, arith}
use imgeditor.Common.{List, length, get_or, set, length-set, get_or-set_self, get_or-set_ne}
use imgeditor.Bitmask.{for_bytes}

module _ (f : ℕ → ℕ → ℕ) where
  pub length-for_bytes :
      (left i : ℕ) (buffer : List ℕ) → length (for_bytes f left i buffer) ≡ length buffer
  unfolding for_bytes
  length-for_bytes zero i buffer = refl
  length-for_bytes (suc left) i buffer =
      length-for_bytes left (i + 1) (set buffer i (f i (get_or buffer i 0)))
      ∙ length-set buffer i (f i (get_or buffer i 0))

  pub for_bytes_outside :
      (left i : ℕ) (buffer : List ℕ) (j : ℕ)
      → (j < i) ⊎ (i + left ≤ j)
      → get_or (for_bytes f left i buffer) j 0 ≡ get_or buffer j 0
  unfolding for_bytes
  for_bytes_outside zero i buffer j h = refl
  for_bytes_outside (suc left) i buffer j h =
      for_bytes_outside left (i + 1) (set buffer i (f i (get_or buffer i 0))) j (omega arith)
      ∙ get_or-set_ne buffer i j (f i (get_or buffer i 0)) 0 (omega arith)

  -- The loop applies `f` once to each byte in its range.
  pub for_bytes_inside :
      (left i : ℕ) (buffer : List ℕ) (j : ℕ)
      → i + left ≤ length buffer
      → i ≤ j
      → j < i + left
      → get_or (for_bytes f left i buffer) j 0 ≡ f j (get_or buffer j 0)
  unfolding for_bytes
  for_bytes_inside zero i buffer j fits lo hi = absurd (omega arith)
  for_bytes_inside (suc left) i buffer j fits lo hi =
      let next = set buffer i (f i (get_or buffer i 0)) in
      ground (
        arith,
        for_bytes_outside left (i + 1) next j,
        for_bytes_inside left (i + 1) next j,
        length-set buffer i (f i (get_or buffer i 0)),
        get_or-set_self buffer i (f i (get_or buffer i 0)) 0,
        get_or-set_ne buffer i j (f i (get_or buffer i 0)) 0,
      )
