-- ===== src/Strings/Trim.antt =====
-- The trimming functions of string_helper.h take off spaces only, and as many as there are.
use imgeditor.Common.{
  ℕ, zero, suc, ◌≤◌, ◌<◌, ◌≡◌, refl, ◌∙◌, ap, sym, arith, inl, inr, Bool, true, false,
}
use imgeditor.Common.{List, [], ◌∷◌, ◌++◌, get_or, length, take, All, All-append, Bool-cases}
use imgeditor.Strings.{string_skip_head_space, string_remove_eol_space, eol_loop}
use mathlib.Core.List.{append_assoc, append-nil}

take-get : (s : List ℕ) (n : ℕ) → n < length s → take (suc n) s ≡ take n s ++ (get_or s n 0 ∷ [])
take-get [] n h = absurd (omega arith)
take-get (x ∷ xs) zero h = refl
take-get (x ∷ xs) (suc n) h = ap (λ r. x ∷ r) (take-get xs n (omega arith))

take-length : (s : List ℕ) → take (length s) s ≡ s
take-length [] = refl
take-length (x ∷ xs) = ap (λ r. x ∷ r) (take-length xs)

module _ (isspace : ℕ → Bool) where
  abbrev pub Spaces : List ℕ → Type 0
  Spaces s = All (λ c. isspace c ≡ true) s

  abbrev pub StartsPlain : List ℕ → Type 0
  StartsPlain [] = Unit
  StartsPlain (x ∷ xs) = isspace x ≡ false

  abbrev pub EndsPlain : List ℕ → Type 0
  EndsPlain [] = Unit
  EndsPlain (x ∷ []) = isspace x ≡ false
  EndsPlain (x ∷ y ∷ rest) = EndsPlain (y ∷ rest)

  -- string_skip_head_space cuts a string into spaces and a rest that it returns, which does not
  -- start with a space.
  pub skip_head-StartsPlain :
      (s : List ℕ)
      → (lead : List ℕ) × (s ≡ lead ++ string_skip_head_space isspace s)
        × Spaces lead
        × StartsPlain (string_skip_head_space isspace s)
  unfolding string_skip_head_space
  skip_head-StartsPlain [] = ([], refl, tt, tt)
  skip_head-StartsPlain (x ∷ xs) =
      let (lead, cut, spaces, plain) = skip_head-StartsPlain xs in
      elim (Bool-cases (isspace x)) [
        | inl space ↦ (x ∷ lead, rw space (ap (λ r. x ∷ r) cut), (space, spaces), rw space plain)
        | inr other ↦ ([], rw other refl, tt, rw other other)
      ]

  snoc-EndsPlain : (xs : List ℕ) (y : ℕ) → isspace y ≡ false → EndsPlain (xs ++ (y ∷ []))
  snoc-EndsPlain [] y h = h
  snoc-EndsPlain (x ∷ []) y h = h
  snoc-EndsPlain (x ∷ x' ∷ xs) y h = snoc-EndsPlain (x' ∷ xs) y h

  eol_loop-EndsPlain :
      (n : ℕ) (s : List ℕ)
      → n ≤ length s
      → (tail : List ℕ) × (take n s ≡ take (eol_loop isspace n s) s ++ tail)
        × Spaces tail
        × EndsPlain (take (eol_loop isspace n s) s)
  unfolding eol_loop
  eol_loop-EndsPlain zero s h = ([], refl, tt, tt)
  eol_loop-EndsPlain (suc n) s h =
      let (tail, cut, spaces, plain) = eol_loop-EndsPlain n s (omega arith) in
      let last = get_or s n 0 in
      let kept = take (eol_loop isspace n s) s in
      elim (Bool-cases (isspace last)) [
        | inl space ↦ (
          tail ++ (last ∷ []),
          rw space (
              take-get s n (omega arith)
              ∙ ap (λ r. r ++ (last ∷ [])) cut
              ∙ append_assoc kept tail (last ∷ [])),
          All-append (λ c. isspace c ≡ true) tail (last ∷ []) spaces (space, tt),
          rw space plain,
        )
        | inr other ↦ (
          [],
          rw other (sym (append-nil (take (suc n) s))),
          tt,
          rw (other, take-get s n (omega arith)) (snoc-EndsPlain (take n s) last other),
        )
      ]

  -- string_remove_eol_space cuts a string into a part that it returns, which does not end with a
  -- space, and spaces.
  pub remove_eol-EndsPlain :
      (s : List ℕ)
      → (tail : List ℕ) × (s ≡ string_remove_eol_space isspace s ++ tail)
        × Spaces tail
        × EndsPlain (string_remove_eol_space isspace s)
  unfolding string_remove_eol_space
  remove_eol-EndsPlain [] = ([], refl, tt, tt)
  remove_eol-EndsPlain (x ∷ xs) =
      let s = x ∷ xs in
      let (tail, cut, spaces, plain) = eol_loop-EndsPlain (length s) s (omega arith) in
      (tail, sym (take-length s) ∙ cut, spaces, plain)
