-- ===== src/Dd/Overlay.antt =====
-- The bytes of a file after writes to it, in order.
use imgeditor.Common.{
  ℕ, suc, ◌+◌, ◌-◌, ◌≤◌, ◌<◌, ◌⊎◌, inl, inr, ◌≡◌, refl, ◌∙◌, ap, ap₂, sym, arith, true, false, ◌&&◌,
  ltb, leb, if◌then◌else◌, max,
}
use imgeditor.Common.{List, [], ◌∷◌, ◌++◌, length, get_or, length-append}
use imgeditor.Dd.{Writes}
use imgeditor.Dd.Segment.{segment, segment-add, segment-eq, Holds}
use imgeditor.Dd.Copied.{concat, placed}

abbrev pub overlay : ℕ → List ℕ → (ℕ → ℕ) → ℕ → ℕ
overlay off bs f i = if leb off i && ltb i (off + length bs) then get_or bs (i - off) 0 else f i

abbrev pub file_after : Writes → (ℕ → ℕ) → ℕ → ℕ
file_after [] f = f
file_after ((off, bs) ∷ ws) f = file_after ws (overlay off bs f)

pub file_after-append :
    (ws vs : Writes) (f : ℕ → ℕ) → file_after (ws ++ vs) f ≡ file_after vs (file_after ws f)
file_after-append [] vs f = refl
file_after-append ((off, bs) ∷ ws) vs f = file_after-append ws vs (overlay off bs f)

pub overlay-before :
    (off : ℕ) (bs : List ℕ) (f : ℕ → ℕ) (i : ℕ) → i < off → overlay off bs f i ≡ f i
overlay-before off bs f i lt = let e : leb off i ≡ false = ground arith in rw e refl

pub overlay-behind :
    (off : ℕ) (bs : List ℕ) (f : ℕ → ℕ) (i : ℕ) → off + length bs ≤ i → overlay off bs f i ≡ f i
overlay-behind off bs f i le =
    let low : leb off i ≡ true = ground arith in
    let high : ltb i (off + length bs) ≡ false = ground arith in rw (low, high) refl

overlay-inside :
    (off : ℕ) (bs : List ℕ) (f : ℕ → ℕ) (i : ℕ)
    → i < length bs
    → overlay off bs f (off + i) ≡ get_or bs i 0
overlay-inside off bs f i lt =
    let low : leb off (off + i) ≡ true = ground arith in
    let high : ltb (off + i) (off + length bs) ≡ true = ground arith in
    let index : off + i - off ≡ i = omega arith in rw (low, high, index) refl

segment-get_or :
    (g : ℕ → ℕ) (off : ℕ) (bs : List ℕ)
    → ((i : ℕ) → i < length bs → g (off + i) ≡ get_or bs i 0)
    → segment g off (length bs) ≡ bs
segment-get_or g off [] h = refl
segment-get_or g off (b ∷ bs) h =
    let first : off + 0 ≡ off = omega arith in
    ap₂ ◌∷◌ (ap g (sym first) ∙ h 0 (omega arith)) (
      segment-get_or g (off + 1) bs (λ i lt.
        let e : off + 1 + i ≡ off + suc i = omega arith in ap g e ∙ h (suc i) (omega arith)))

pub overlay-Holds : (off : ℕ) (bs : List ℕ) (f : ℕ → ℕ) → Holds (overlay off bs f) off bs
overlay-Holds off bs f = segment-get_or (overlay off bs f) off bs (overlay-inside off bs f)

file_after-before :
    (off : ℕ) (ps : List (List ℕ)) (f : ℕ → ℕ) (i : ℕ)
    → i < off
    → file_after (placed off ps) f i ≡ f i
file_after-before off [] f i lt = refl
file_after-before off (p ∷ ps) f i lt =
    file_after-before (off + length p) ps (overlay off p f) i (omega arith)
    ∙ overlay-before off p f i lt

-- Consecutive writes leave their bytes in the file.
pub file_after-Holds :
    (off : ℕ) (ps : List (List ℕ)) (f : ℕ → ℕ)
    → Holds (file_after (placed off ps) f) off (concat ps)
file_after-Holds off [] f = refl
file_after-Holds off (p ∷ ps) f =
    let g = file_after (placed off (p ∷ ps)) f in
    ap (segment g off) (length-append p (concat ps))
    ∙ segment-add g off (length p) (length (concat ps))
    ∙ ap₂ (λ x y. x ++ y)
        (segment-eq g (overlay off p f) off (length p) (λ i lt.
            file_after-before (off + length p) ps (overlay off p f) (off + i) (omega arith))
          ∙ overlay-Holds off p f)
        (file_after-Holds (off + length p) ps (overlay off p f))

-- The length of the file that the writes leave, when it was empty.
abbrev pub extent : Writes → ℕ
extent [] = 0
extent ((off, bs) ∷ ws) = max (off + length bs) (extent ws)

pub extent-append : (vs ws : Writes) → extent ws ≤ extent (vs ++ ws)
extent-append [] ws = omega arith
extent-append ((off, bs) ∷ vs) ws = omega (arith, extent-append vs ws)

pub extent-placed :
    (off : ℕ) (ps : List (List ℕ)) (ws : Writes)
    → (length (concat ps) ≡ 0) ⊎ (off + length (concat ps) ≤ extent (placed off ps ++ ws))
extent-placed off [] ws = inl refl
extent-placed off (p ∷ ps) ws =
    let rest = extent-placed (off + length p) ps ws in
    inr (grind (arith, rest, length-append p (concat ps)))
