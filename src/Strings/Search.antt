-- ===== src/Strings/Search.antt =====
-- `strstr` as string_helper.c uses it: the first token of a string.
use imgeditor.Common.{ℕ, suc, ◌≤◌, ◌<◌, ◌≡◌, ◌≢◌, refl, ◌∙◌, ap, ap₂, sym, arith, inl, inr, ◌⊎◌}
use imgeditor.Common.{Option, none, some, Bool-cases, ◌==◌, ==_iff}
use imgeditor.Common.{List, [], ◌∷◌, ◌++◌, length, drop, length-append}
use imgeditor.Strings.Replace.{strip, skipped, found_here, strstr}

option_cases : {A : Type 0} (o : Option A) → (o ≡ none) ⊎ ((x : A) × (o ≡ some x))
option_cases none = inl refl
option_cases (some x) = inr (x, refl)

strip-cons :
    (t : ℕ) (token : List ℕ) (c : ℕ) (s : List ℕ)
    → ((t ≡ c) × (strip (t ∷ token) (c ∷ s) ≡ strip token s))
      ⊎ ((t ≢ c) × (strip (t ∷ token) (c ∷ s) ≡ none))
unfolding strip
strip-cons t token c s = elim (Bool-cases (t == c)) [
  | inl e ↦ inl ((==_iff t c).0 e, rw (strip, e) refl)
  | inr e ↦ inr (grind (arith, ==_iff t c, e), rw (strip, e) refl)
]

strip_sound : (token s post : List ℕ) → strip token s ≡ some post → s ≡ token ++ post
unfolding strip
strip_sound [] s post e = ap (λ o. elim o [ none ↦ s | some x ↦ x ]) e
strip_sound (t ∷ token) [] post e = absurd (grind (arith, e))
strip_sound (t ∷ token) (c ∷ s) post e = elim (strip-cons t token c s) [
  | inl (same, step) ↦ ap₂ ◌∷◌ (sym same) (strip_sound token s post (sym step ∙ e))
  | inr (other, step) ↦ let bad : none ≡ some post = sym step ∙ e in absurd (grind (arith, bad))
]

strip_complete : (token post : List ℕ) → strip token (token ++ post) ≡ some post
unfolding strip
strip_complete [] post = refl
strip_complete (t ∷ token) post = elim (strip-cons t token t (token ++ post)) [
  | inl (same, step) ↦ step ∙ strip_complete token post
  | inr (other, step) ↦ absurd (other refl)
]

-- No token begins before `k`.
abbrev pub NoneBefore : List ℕ → List ℕ → ℕ → Type 0
NoneBefore token s k = (pre post : List ℕ) → s ≡ pre ++ (token ++ post) → k ≤ length pre

abbrev pub Nowhere : List ℕ → List ℕ → Type 0
Nowhere token s = (pre post : List ℕ) → s ≢ pre ++ (token ++ post)

uncons :
    (c : ℕ) (s pre x : List ℕ)
    → c ∷ s ≡ pre ++ x
    → ((length pre ≡ 0) × (c ∷ s ≡ x))
      ⊎ ((pre' : List ℕ) × (length pre ≡ suc (length pre')) × (s ≡ pre' ++ x))
uncons c s [] x e = inl (refl, e)
uncons c s (p ∷ pre) x e = inr (pre, refl, ap (drop 1) e)

not_at_start : (token s post : List ℕ) → strip token s ≡ none → s ≢ token ++ post
not_at_start token s post not_here e =
    let bad : none ≡ some post = sym not_here ∙ ap (strip token) e ∙ strip_complete token post in
    absurd (grind (arith, bad))

-- strstr finds the first token, and none exactly if there is none.
pub strstr-IsFirst :
    (token s : List ℕ)
    → 0 < length token
    → ((strstr s token ≡ none) × Nowhere token s)
      ⊎ ((pre post : List ℕ) × (strstr s token ≡ some (pre, post))
          × (s ≡ pre ++ (token ++ post))
          × NoneBefore token s (length pre))
unfolding strstr found_here skipped strip
strstr-IsFirst [] s some_bytes = absurd (omega arith)
strstr-IsFirst (t ∷ token) [] some_bytes =
    inl (refl, λ pre post e. omega (arith, ap length e, length-append pre (t ∷ token ++ post)))
strstr-IsFirst (t ∷ token) (c ∷ s) some_bytes =
    let tok = t ∷ token in
    elim (option_cases (strip tok (c ∷ s))) [
      | inr (post, here) ↦ inr (
        [],
        post,
        ap (λ o. found_here o (skipped c (strstr s tok))) here,
        strip_sound tok (c ∷ s) post here,
        λ pre post' e. omega arith,
      )
      | inl not_here ↦ elim (strstr-IsFirst tok s some_bytes) [
        | inl (gone, nowhere) ↦ inl (
          ap (λ o. found_here o (skipped c (strstr s tok))) not_here ∙ ap (skipped c) gone,
          λ pre post e. elim (uncons c s pre (tok ++ post) e) [
            | inl (no_pre, start) ↦ not_at_start tok (c ∷ s) post not_here start
            | inr (pre', count, rest) ↦ nowhere pre' post rest
          ],
        )
        | inr (pre, post, found, whole, first) ↦ inr (
          c ∷ pre,
          post,
          ap (λ o. found_here o (skipped c (strstr s tok))) not_here ∙ ap (skipped c) found,
          ap (λ r. c ∷ r) whole,
          λ pre1 post1 e. elim (uncons c s pre1 (tok ++ post1) e) [
            | inl (no_pre, start) ↦ absurd (not_at_start tok (c ∷ s) post1 not_here start)
            | inr (pre', count, rest) ↦ omega (arith, count, first pre' post1 rest)
          ],
        )
      ]
    ]
