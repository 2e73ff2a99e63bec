-- ===== src/Dd/Segment.antt =====
-- A stretch of a file whose bytes are given by a function of the position.
use imgeditor.Common.{
  ℕ, zero, suc, ◌+◌, ◌<◌, ◌≡◌, refl, ◌∙◌, ap, ap₂, sym, arith, drop, get_or, length-append, List,
  [], ◌∷◌, ◌++◌, length, replicate,
}

abbrev pub segment : (ℕ → ℕ) → ℕ → ℕ → List ℕ
segment f off zero = []
segment f off (suc n) = f off ∷ segment f (off + 1) n

pub length-segment : (f : ℕ → ℕ) (off n : ℕ) → length (segment f off n) ≡ n
length-segment f off zero = refl
length-segment f off (suc n) = ap suc (length-segment f (off + 1) n)

pub segment-add :
    (f : ℕ → ℕ) (off m n : ℕ) → segment f off (m + n) ≡ segment f off m ++ segment f (off + m) n
segment-add f off zero n =
    let e : 0 + n ≡ n = omega arith in let e' : off + 0 ≡ off = omega arith in rw (e, e') refl
segment-add f off (suc m) n =
    let e : suc m + n ≡ suc (m + n) = omega arith in
    let e' : off + suc m ≡ off + 1 + m = omega arith in
    rw (e, e') (ap (λ r. f off ∷ r) (segment-add f (off + 1) m n))

-- Functions that agree on a stretch have the same segment there.
pub segment-eq :
    (f g : ℕ → ℕ) (off n : ℕ)
    → ((i : ℕ) → i < n → f (off + i) ≡ g (off + i))
    → segment f off n ≡ segment g off n
segment-eq f g off zero h = refl
segment-eq f g off (suc n) h =
    let first : off + 0 ≡ off = omega arith in
    ap₂ ◌∷◌ (rw first at (h 0 (omega arith))) (
      segment-eq f g (off + 1) n
        (λ i lt. let e : off + 1 + i ≡ off + suc i = omega arith in rw e (h (suc i) (omega arith))))

pub segment-zeros : (off n : ℕ) → segment (λ i. 0) off n ≡ replicate n 0
segment-zeros off zero = refl
segment-zeros off (suc n) = ap (λ r. 0 ∷ r) (segment-zeros (off + 1) n)

-- The file has these bytes from a position on.
abbrev pub Holds : (ℕ → ℕ) → ℕ → List ℕ → Type 0
Holds content off bs = segment content off (length bs) ≡ bs

pub append_inj :
    (as_ bs xs ys : List ℕ) → length as_ ≡ length xs → as_ ++ bs ≡ xs ++ ys → (as_ ≡ xs) × (bs ≡ ys)
append_inj [] bs [] ys e h = (refl, h)
append_inj [] bs (x ∷ xs) ys e h = absurd (omega arith)
append_inj (a ∷ as_) bs [] ys e h = absurd (omega arith)
append_inj (a ∷ as_) bs (x ∷ xs) ys e h =
    let head : a ≡ x = ap (λ l. get_or l 0 0) h in
    let tail : as_ ++ bs ≡ xs ++ ys = ap (drop 1) h in
    let (l, r) = append_inj as_ bs xs ys (omega arith) tail in (ap₂ ◌∷◌ head l, r)

pub Holds-split :
    (content : ℕ → ℕ) (off : ℕ) (xs ys : List ℕ)
    → Holds content off (xs ++ ys)
    → Holds content off xs × Holds content (off + length xs) ys
Holds-split content off xs ys h = append_inj _ _ xs ys (length-segment content off (length xs)) (
    sym (segment-add content off (length xs) (length ys))
    ∙ ap (segment content off) (sym (length-append xs ys))
    ∙ h)
