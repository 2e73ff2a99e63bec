-- ===== src/Sparse/Plan.antt =====
-- What a sparse image stands for: the chunks for the runs of a bitmask, their bytes and the blocks
-- that they give.
use imgeditor.Common.{
  ℕ, zero, suc, ◌+◌, ◌-◌, ◌*◌, ◌≤◌, ◌<◌, ◌≡◌, refl, ◌∙◌, ap, ap₂, sym, arith, inl, inr,
}
use imgeditor.Common.{
  List, [], ◌∷◌, ◌++◌, replicate, ℤ, ltb, ◌==◌, if◌then◌else◌, Bool-cases, ==_iff,
}
use imgeditor.Common.{true, false}
use imgeditor.Bitmask.{Bitmask, bit_at}
use imgeditor.Bitmask.Iterator.{IsRuns, to_size}
use mathlib.Core.List.{append_assoc, append-nil}

pub data Chunk : Type 0 where
  gap : ℕ → Chunk
  raw : ℕ → ℕ → Chunk

abbrev pub gap_to : ℕ → ℕ → List Chunk → List Chunk
gap_to lo s rest = if lo == s then rest else Chunk.gap (s - lo) ∷ rest

-- The chunks for the runs from block `lo` on, of `total` blocks.
abbrev pub plan : ℕ → ℕ → List (ℤ × ℤ) → List Chunk
plan total lo [] = if ltb lo total then Chunk.gap (total - lo) ∷ [] else []
plan total lo ((s, n) ∷ runs) =
    gap_to lo (to_size s)
      (Chunk.raw (to_size s) (to_size n) ∷ plan total (to_size s + to_size n) runs)

pub replicate-add :
    (m n : ℕ) → replicate {A = ℕ} (m + n) 0 ≡ replicate {A = ℕ} m 0 ++ replicate {A = ℕ} n 0
replicate-add zero n = let e : 0 + n ≡ n = omega arith in ap (λ k. replicate {A = ℕ} k 0) e
replicate-add (suc m) n =
    let e : suc m + n ≡ suc (m + n) = omega arith in
    ap (λ k. replicate {A = ℕ} k 0) e ∙ ap (λ r. 0 ∷ r) (replicate-add m n)

module _ (blksz : ℕ) (block : ℕ → List ℕ) where
  -- The blocks from `s` on.
  abbrev pub blocks : ℕ → ℕ → List ℕ
  blocks s zero = []
  blocks s (suc n) = block s ++ blocks (s + 1) n

  abbrev pub expand : Chunk → List ℕ
  expand (Chunk.gap n) = replicate (n * blksz) 0
  expand (Chunk.raw s n) = blocks s n

  abbrev pub expand_all : List Chunk → List ℕ
  expand_all [] = []
  expand_all (c ∷ cs) = expand c ++ expand_all cs

  -- The image: the blocks whose bit is set, and zeros for the others.
  abbrev pub image : Bitmask → ℕ → ℕ → List ℕ
  image b lo zero = []
  image b lo (suc n) =
      (if bit_at b lo == 1 then block lo else replicate blksz 0) ++ image b (lo + 1) n

  image-clear :
      (b : Bitmask) (lo n : ℕ)
      → ((j : ℕ) → lo ≤ j → j < lo + n → bit_at b j ≡ 0)
      → image b lo n ≡ replicate (n * blksz) 0
  image-clear b lo zero h = let e : 0 * blksz ≡ 0 = omega arith in rw e refl
  image-clear b lo (suc n) h =
      let first : (bit_at b lo == 1) ≡ false = ground (arith, h lo) in
      let e : suc n * blksz ≡ blksz + n * blksz = grind arith in
      rw (first, e)
        (ap (λ r. replicate blksz 0 ++ r)
            (image-clear b (lo + 1) n (λ j x y. h j (omega arith) (omega arith)))
          ∙ sym (replicate-add blksz (n * blksz)))

  image-set :
      (b : Bitmask) (lo n : ℕ)
      → ((j : ℕ) → lo ≤ j → j < lo + n → bit_at b j ≡ 1)
      → image b lo n ≡ blocks lo n
  image-set b lo zero h = refl
  image-set b lo (suc n) h =
      let first : (bit_at b lo == 1) ≡ true = ground (arith, h lo) in
      rw first (
        ap (λ r. block lo ++ r) (image-set b (lo + 1) n (λ j x y. h j (omega arith) (omega arith))))

  image-add : (b : Bitmask) (lo m n : ℕ) → image b lo (m + n) ≡ image b lo m ++ image b (lo + m) n
  image-add b lo zero n =
      let e : 0 + n ≡ n = omega arith in let e' : lo + 0 ≡ lo = omega arith in rw (e, e') refl
  image-add b lo (suc m) n =
      let e : suc m + n ≡ suc (m + n) = omega arith in
      let e' : lo + suc m ≡ lo + 1 + m = omega arith in
      let here = if bit_at b lo == 1 then block lo else replicate blksz 0 in
      rw (e, e') (ap (λ r. here ++ r) (image-add b (lo + 1) m n) ∙ sym (append_assoc here _ _))

  expand_all-gap_to :
      (lo s : ℕ) (rest : List Chunk)
      → lo ≤ s
      → expand_all (gap_to lo s rest) ≡ replicate {A = ℕ} ((s - lo) * blksz) 0 ++ expand_all rest
  expand_all-gap_to lo s rest low = elim (Bool-cases (lo == s)) [
    | inl same ↦ let e : (s - lo) * blksz ≡ 0 = grind (arith, ==_iff lo s) in rw (same, e) refl
    | inr other ↦ rw other refl
  ]

  -- The chunks for the runs of a bitmask expand to its image.
  pub plan-image :
      (b : Bitmask) (lo : ℕ) (runs : List (ℤ × ℤ))
      → IsRuns b lo runs
      → lo ≤ b.total_bits
      → expand_all (plan b.total_bits lo runs) ≡ image b lo (b.total_bits - lo)
  plan-image b lo runs (IsRuns.done clear) low = elim (Bool-cases (ltb lo b.total_bits)) [
    | inl more ↦ rw more (
        append-nil (replicate ((b.total_bits - lo) * blksz) 0)
        ∙ sym (image-clear b lo (b.total_bits - lo) (λ j x y. clear j x (omega arith))))
    | inr end ↦ let e : b.total_bits - lo ≡ 0 = ground arith in rw (end, e) refl
  ]
  plan-image b lo runs (IsRuns.run s n from some_bits to before inside after rest) low =
      let hole = s - lo in
      let left = b.total_bits - (s + n) in
      let sizes : b.total_bits - lo ≡ hole + (n + left) = omega arith in
      let at_s : lo + hole ≡ s = omega arith in
      expand_all-gap_to lo s _ from
      ∙ ap₂ (λ x y. x ++ y) (sym (image-clear b lo hole (λ j x y. before j x (omega arith))))
          (ap₂ (λ x y. x ++ y) (sym (image-set b s n inside)) (plan-image b (s + n) _ rest to)
            ∙ sym (image-add b s n left))
      ∙ ap (λ k. image b lo hole ++ image b k (n + left)) (sym at_s)
      ∙ sym (image-add b lo hole (n + left))
      ∙ ap (image b lo) (sym sizes)
