-- ===== src/Crc/Linear.antt =====
-- A round of the table's bit loop is linear for `^`, and plain shifting while the top bit is clear.
use imgeditor.Common.{
  ℕ, zero, suc, ◌+◌, ◌-◌, ◌*◌, ◌%◌, ◌^◌, ◌≤◌, ◌<◌, ◌≡◌, refl, ◌∙◌, ap, sym, arith,
}
use imgeditor.Common.{bit_xor, bit_of, bit_of-cases, bit_and-pow_clear, bit_and-pow_set, bit_of_ext}
use imgeditor.Common.{bit_xor-lt, bit_of-bit_xor, bit_of-mod, bit_of-double, mod-pow-lt}
use imgeditor.Common.{bit_of-high, inl, inr}
use imgeditor.Crc.Width.{shift_bit, shift_bits}
use native.Mathlib.Nat.{pow-suc, mod-eq_of_lt}

mul-pow-suc : (n x : ℕ) → x * 2 ^ suc n ≡ x * 2 * 2 ^ n
mul-pow-suc n x = omega (arith, ap (λ (p : ℕ). x * p) (pow-suc 2 n))

le-mul-pow : (n x : ℕ) → x ≤ x * 2 ^ n
le-mul-pow zero x = omega arith
le-mul-pow (suc n) x = omega (arith, ap (λ (p : ℕ). x * p) (pow-suc 2 n), le-mul-pow n x)

-- `(a ^ b) ^ (c ^ d)` and the like: two words of `w` bits are equal if they agree modulo 2 bit by bit.
module _ (w : ℕ) where
  pub xor_regroup :
      (a b p : ℕ)
      → a < 2 ^ w
      → b < 2 ^ w
      → p < 2 ^ w
      → (bit_xor (bit_xor a p) b ≡ bit_xor (bit_xor a b) p)
        × (bit_xor a (bit_xor b p) ≡ bit_xor (bit_xor a b) p)
        × (bit_xor (bit_xor a p) (bit_xor b p) ≡ bit_xor a b)
  xor_regroup a b p ha hb hp =
      let hab = bit_xor-lt w a b ha hb in
      let hap = bit_xor-lt w a p ha hp in
      let hbp = bit_xor-lt w b p hb hp in
      (
        bit_of_ext w _ _ (bit_xor-lt w _ b hap hb) (bit_xor-lt w _ p hab hp) λ k h. omega (
          arith,
          bit_of-bit_xor k (bit_xor a p) b,
          bit_of-bit_xor k (bit_xor a b) p,
          bit_of-bit_xor k a p,
          bit_of-bit_xor k a b,
        ),
        bit_of_ext w _ _ (bit_xor-lt w a _ ha hbp) (bit_xor-lt w _ p hab hp) λ k h. omega (
          arith,
          bit_of-bit_xor k a (bit_xor b p),
          bit_of-bit_xor k (bit_xor a b) p,
          bit_of-bit_xor k b p,
          bit_of-bit_xor k a b,
        ),
        bit_of_ext w _ _ (bit_xor-lt w _ _ hap hbp) hab λ k h. omega (
          arith,
          bit_of-bit_xor k (bit_xor a p) (bit_xor b p),
          bit_of-bit_xor k a p,
          bit_of-bit_xor k b p,
          bit_of-bit_xor k a b,
        ),
      )

  double_bit :
      (k x y : ℕ) → k < w → bit_of k (bit_xor x y * 2) ≡ (bit_of k (x * 2) + bit_of k (y * 2)) % 2
  double_bit zero x y h = omega arith
  double_bit (suc k) x y h = omega (
    arith,
    bit_of-double k (bit_xor x y),
    bit_of-double k x,
    bit_of-double k y,
    bit_of-bit_xor k x y,
  )

  double_xor :
      (x y : ℕ) → bit_xor x y * 2 ^ 1 % 2 ^ w ≡ bit_xor (x * 2 ^ 1 % 2 ^ w) (y * 2 ^ 1 % 2 ^ w)
  double_xor x y =
      bit_of_ext w _ _ (mod-pow-lt w _) (bit_xor-lt w _ _ (mod-pow-lt w _) (mod-pow-lt w _)) λ k h.
        omega (
          arith,
          bit_of-mod w k (bit_xor x y * 2) h,
          bit_of-bit_xor k (x * 2 % 2 ^ w) (y * 2 % 2 ^ w),
          bit_of-mod w k (x * 2) h,
          bit_of-mod w k (y * 2) h,
          double_bit k x y h,
        )

module _ (w : ℕ) (reverse : ℕ → ℕ) (poly : ℕ) (fits : poly < 2 ^ w) where
  abbrev round : ℕ → ℕ
  round = shift_bit w reverse poly

  pub shift_clear : (x : ℕ) → bit_of (w - 1) x ≡ 0 → round x ≡ x * 2 ^ 1 % 2 ^ w
  unfolding shift_bit
  shift_clear x h = ground (arith, bit_and-pow_clear (w - 1) x)

  pub shift_set : (x : ℕ) → bit_of (w - 1) x ≡ 1 → round x ≡ bit_xor (x * 2 ^ 1 % 2 ^ w) poly
  unfolding shift_bit
  shift_set x h = ground (arith, bit_and-pow_set (w - 1) x)

  pub shift_bit-lt : (x : ℕ) → round x < 2 ^ w
  shift_bit-lt x = elim (bit_of-cases (w - 1) x) [
    | inl c ↦ rw (shift_clear x c) (mod-pow-lt w _)
    | inr s ↦ rw (shift_set x s) (bit_xor-lt w _ poly (mod-pow-lt w _) fits)
  ]

  pub shift_bit-xor : (x y : ℕ) → round (bit_xor x y) ≡ bit_xor (round x) (round y)
  shift_bit-xor x y =
      let a = x * 2 ^ 1 % 2 ^ w in
      let b = y * 2 ^ 1 % 2 ^ w in
      let (one, other, both) =
        xor_regroup w a b poly (mod-pow-lt w (x * 2)) (mod-pow-lt w (y * 2)) fits in
      let top = bit_of-bit_xor (w - 1) x y in
      elim (bit_of-cases (w - 1) x) [
        | inl cx ↦ elim (bit_of-cases (w - 1) y) [
          | inl cy ↦
              rw
                (shift_clear x cx, shift_clear y cy, shift_clear (bit_xor x y) (omega (arith, top)))
                (double_xor w x y)
          | inr sy ↦
              rw (shift_clear x cx, shift_set y sy, shift_set (bit_xor x y) (omega (arith, top)))
                (ap (λ (t : ℕ). bit_xor t poly) (double_xor w x y) ∙ sym other)
        ]
        | inr sx ↦ elim (bit_of-cases (w - 1) y) [
          | inl cy ↦
              rw (shift_set x sx, shift_clear y cy, shift_set (bit_xor x y) (omega (arith, top)))
                (ap (λ (t : ℕ). bit_xor t poly) (double_xor w x y) ∙ sym one)
          | inr sy ↦
              rw (shift_set x sx, shift_set y sy, shift_clear (bit_xor x y) (omega (arith, top)))
                (double_xor w x y ∙ sym both)
        ]
      ]

  pub shift_bits-lt : (n x : ℕ) → x < 2 ^ w → shift_bits w reverse n poly x < 2 ^ w
  unfolding shift_bits
  shift_bits-lt zero x h = h
  shift_bits-lt (suc n) x h = shift_bits-lt n (round x) (shift_bit-lt x)

  pub shift_bits-xor :
      (n x y : ℕ)
      → shift_bits w reverse n poly (bit_xor x y)
        ≡ bit_xor (shift_bits w reverse n poly x) (shift_bits w reverse n poly y)
  unfolding shift_bits
  shift_bits-xor zero x y = refl
  shift_bits-xor (suc n) x y = rw (shift_bit-xor x y) (shift_bits-xor n (round x) (round y))

  pub shift_bits-add :
      (m n t x : ℕ)
      → m + n ≡ t
      → shift_bits w reverse t poly x ≡ shift_bits w reverse n poly (shift_bits w reverse m poly x)
  unfolding shift_bits
  shift_bits-add zero n t x e = let e' : t ≡ n = omega arith in rw e'
  shift_bits-add (suc m) n zero x e = absurd (omega arith)
  shift_bits-add (suc m) n (suc t) x e = shift_bits-add m n t (round x) (omega arith)

  -- While nothing reaches the top, the rounds only shift.
  pub shift_bits_plain :
      (n x : ℕ) → 0 < w → x * 2 ^ n < 2 ^ w → shift_bits w reverse n poly x ≡ x * 2 ^ n
  unfolding shift_bits
  shift_bits_plain zero x pos_w h = omega arith
  shift_bits_plain (suc n) x pos_w h =
      let apart : x * 2 ^ suc n ≡ x * 2 * 2 ^ n = mul-pow-suc n x in
      let small : x * 2 < 2 ^ w = omega (arith, apart, le-mul-pow n (x * 2)) in
      let width : 2 ^ suc (w - 1) ≡ 2 ^ w =
        let e : suc (w - 1) ≡ w = omega arith in ap (λ (t : ℕ). 2 ^ t) e in
      let low : x < 2 ^ (w - 1) = omega (arith, pow-suc 2 (w - 1), width) in
      let moved : round x ≡ x * 2 =
        shift_clear x (bit_of-high (w - 1) (w - 1) x low (omega arith)) ∙ mod-eq_of_lt small in
      rw moved (shift_bits_plain n (x * 2) pos_w (omega (arith, apart)) ∙ sym apart)
