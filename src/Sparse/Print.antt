-- ===== src/Sparse/Print.antt =====
-- The bytes of chunks in an image file, and pieces of it.
use imgeditor.Common.{◌-◌}
use imgeditor.Common.{ℕ, zero, suc, ◌+◌, ◌*◌, ◌%◌, ◌^◌, ◌<◌, ◌≡◌, refl, ◌∙◌, ap, ap₂, sym, arith}
use imgeditor.Common.{List, [], ◌∷◌, ◌++◌, length, length-append}
use imgeditor.Common.{ap, length-append}
use imgeditor.Dd.Copied.{concat, placed}
use imgeditor.Sparse.{dontcare_bytes, raw_bytes}
use imgeditor.Sparse.Unpack.{}
use imgeditor.Sparse.Plan.{Chunk, blocks}
use mathlib.Core.List.{append_assoc}

pub placed-append :
    (off : ℕ) (ps qs : List (List ℕ))
    → placed off ps ++ placed (off + length (concat ps)) qs ≡ placed off (ps ++ qs)
placed-append off [] qs = let e : off + 0 ≡ off = omega arith in ap (λ k. placed k qs) e
placed-append off (p ∷ ps) qs =
    let e : off + length (p ++ concat ps) ≡ off + length p + length (concat ps) =
      omega (arith, length-append p (concat ps)) in
    ap (λ k. (off, p) ∷ (placed (off + length p) ps ++ placed k qs)) e
    ∙ ap (λ r. (off, p) ∷ r) (placed-append (off + length p) ps qs)

pub concat-append : (ps qs : List (List ℕ)) → concat (ps ++ qs) ≡ concat ps ++ concat qs
concat-append [] qs = refl
concat-append (p ∷ ps) qs = ap (λ r. p ++ r) (concat-append ps qs) ∙ sym (append_assoc p _ _)

pub wide_enough : (k : ℕ) → k < 2 ^ 32 → k % 2 ^ 32 ≡ k
wide_enough k h = omega arith

pub less_header : (k : ℕ) → k + 12 < 2 ^ 32 → (k + 12 + 2 ^ 32 - 12) % 2 ^ 32 ≡ k
less_header k h = omega arith

module _ (blksz : ℕ) (block : ℕ → List ℕ) where
  -- The bytes of a chunk in the image file.
  abbrev pub print : Chunk → List ℕ
  print (Chunk.gap n) = dontcare_bytes n
  print (Chunk.raw s n) = raw_bytes n blksz ++ blocks blksz block s n

  abbrev pub print_all : List Chunk → List ℕ
  print_all [] = []
  print_all (c ∷ cs) = print c ++ print_all cs

  -- The sizes of a chunk stay in 32 bits.
  abbrev pub Fits : Chunk → Type 0
  Fits (Chunk.gap n) = (n < 2 ^ 32) × (n * blksz < 2 ^ 32)
  Fits (Chunk.raw s n) = (n < 2 ^ 32) × (n * blksz + 12 < 2 ^ 32)

  abbrev pub AllFit : List Chunk → Type 0
  AllFit [] = Unit
  AllFit (c ∷ cs) = Fits c × AllFit cs

  module _ (block_sized : (i : ℕ) → length (block i) ≡ blksz) where
    pub length-blocks : (s n : ℕ) → length (blocks blksz block s n) ≡ n * blksz
    length-blocks s zero = omega arith
    length-blocks s (suc n) =
        length-append (block s) (blocks blksz block (s + 1) n)
        ∙ ap₂ (λ x y. x + y) (block_sized s) (length-blocks (s + 1) n)
        ∙ grind arith
