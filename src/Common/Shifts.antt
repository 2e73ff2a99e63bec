-- ===== src/Common/Shifts.antt =====
-- C's `<<` and `>>` by a constant, and the cut to a width, bit by bit.
use Prim.Native.Nat.{ℕ, zero, suc, ◌+◌, ◌-◌, ◌*◌, ◌/◌, ◌%◌, ◌^◌, ◌<◌, bit_xor, bit_or}
use mathlib.Core.Path.{◌≡◌, refl, sym, ap, ◌∙◌}
use mathlib.Core.Logic.{inl, inr}
use native.Mathlib.Nat.{pow-suc, div-div-eq-div-mul, div-add-mod, mod-lt, one-le-pow}
use native.Mathlib.Omega.{arith}
use imgeditor.Common.Tests.{lt-or-ge, ltb, if◌then◌else◌}
use imgeditor.Common.Bits.{
  bit_of-le-one, bit_of, bit_of-bit_xor, bit_of_ext, bit_xor-lt, bit_or_step,
}

pub div-pow-suc : (n x : ℕ) → x / 2 ^ suc n ≡ x / 2 / 2 ^ n
div-pow-suc n x =
    let e : 2 ^ suc n ≡ 2 * 2 ^ n = omega (arith, pow-suc 2 n) in
    rw e (sym (div-div-eq-div-mul x 2 (2 ^ n)))

half-mod : (n x : ℕ) → x % 2 ^ suc n / 2 ≡ x / 2 % 2 ^ n
half-mod n x =
    let t = 2 ^ n * (x / 2 / 2 ^ n) in
    let e : 2 ^ suc n * (x / 2 ^ suc n) ≡ 2 * t =
      rw (div-pow-suc n x) (omega (arith, ap (λ (p : ℕ). p * (x / 2 / 2 ^ n)) (pow-suc 2 n))) in
    omega (arith, e, div-add-mod x (2 ^ suc n), div-add-mod (x / 2) (2 ^ n))

even-mod : (n x : ℕ) → x % 2 ^ suc n % 2 ≡ x % 2
even-mod n x =
    omega (arith, div-add-mod x (2 ^ suc n), ap (λ (p : ℕ). p * (x / 2 ^ suc n)) (pow-suc 2 n))

pub bit_of-shr : (n k x : ℕ) → bit_of k (x / 2 ^ n) ≡ bit_of (k + n) x
bit_of-shr zero k x =
    let e : x / 2 ^ 0 ≡ x = omega arith in let e' : k + 0 ≡ k = omega arith in rw (e, e')
bit_of-shr (suc n) k x =
    let e : k + suc n ≡ suc (k + n) = omega arith in
    rw (div-pow-suc n x, e) (bit_of-shr n k (x / 2))

pub bit_of-mod : (n k x : ℕ) → k < n → bit_of k (x % 2 ^ n) ≡ bit_of k x
bit_of-mod zero k x h = absurd (omega arith)
bit_of-mod (suc n) zero x h = even-mod n x
bit_of-mod (suc n) (suc k) x h = rw (half-mod n x) (bit_of-mod n k (x / 2) (omega arith))

pub mod-pow-lt : (n x : ℕ) → x % 2 ^ n < 2 ^ n
mod-pow-lt n x = mod-lt x (one-le-pow n 2 (omega arith))

-- Doubling moves every bit up.
pub bit_of-double_zero : (x : ℕ) → bit_of 0 (x * 2) ≡ 0
bit_of-double_zero x = omega arith

pub bit_of-double : (k x : ℕ) → bit_of (suc k) (x * 2) ≡ bit_of k x
bit_of-double k x = let e : x * 2 / 2 ≡ x = omega arith in rw e

mul-pow-suc : (n x : ℕ) → x * 2 ^ suc n ≡ x * 2 ^ n * 2
mul-pow-suc n x = omega (arith, ap (λ (p : ℕ). x * p) (pow-suc 2 n))

pub bit_of-shl : (n k x : ℕ) → bit_of (k + n) (x * 2 ^ n) ≡ bit_of k x
bit_of-shl zero k x =
    let e : x * 2 ^ 0 ≡ x = omega arith in let e' : k + 0 ≡ k = omega arith in rw (e, e')
bit_of-shl (suc n) k x =
    let e : k + suc n ≡ suc (k + n) = omega arith in
    rw (mul-pow-suc n x, e) (bit_of-double (k + n) (x * 2 ^ n) ∙ bit_of-shl n k x)

pub bit_of-shl_low : (n k x : ℕ) → k < n → bit_of k (x * 2 ^ n) ≡ 0
bit_of-shl_low zero k x h = absurd (omega arith)
bit_of-shl_low (suc n) zero x h = rw (mul-pow-suc n x) (omega arith)
bit_of-shl_low (suc n) (suc k) x h =
    rw (mul-pow-suc n x) (bit_of-double k (x * 2 ^ n) ∙ bit_of-shl_low n k x (omega arith))

-- Bit `k` of `x << s`.
abbrev pub moved_up : ℕ → ℕ → ℕ → ℕ
moved_up s k x = if ltb k s then 0 else bit_of (k - s) x

pub bit_of-moved : (s k x : ℕ) → bit_of k (x * 2 ^ s) ≡ moved_up s k x
bit_of-moved s k x = elim (lt-or-ge k s) [
  | inl low ↦ ground (arith, bit_of-shl_low s k x low)
  | inr high ↦
      let e : k - s + s ≡ k = omega arith in
      let shifted : bit_of k (x * 2 ^ s) ≡ bit_of (k - s) x = rw e at (bit_of-shl s (k - s) x) in
      ground (arith, shifted)
]

-- The laws of `^` on words of `n` bits.
module _ (n : ℕ) where
  pub bit_xor_comm : (a b : ℕ) → a < 2 ^ n → b < 2 ^ n → bit_xor a b ≡ bit_xor b a
  bit_xor_comm a b ha hb =
      bit_of_ext n _ _ (bit_xor-lt n a b ha hb) (bit_xor-lt n b a hb ha)
        λ k h. omega (arith, bit_of-bit_xor k a b, bit_of-bit_xor k b a)

  pub bit_xor_assoc :
      (a b c : ℕ)
      → a < 2 ^ n
      → b < 2 ^ n
      → c < 2 ^ n
      → bit_xor (bit_xor a b) c ≡ bit_xor a (bit_xor b c)
  bit_xor_assoc a b c ha hb hc =
      let hab = bit_xor-lt n a b ha hb in
      let hbc = bit_xor-lt n b c hb hc in
      bit_of_ext n _ _ (bit_xor-lt n _ c hab hc) (bit_xor-lt n a _ ha hbc) λ k h. omega (
        arith,
        bit_of-bit_xor k a b,
        bit_of-bit_xor k b c,
        bit_of-bit_xor k (bit_xor a b) c,
        bit_of-bit_xor k a (bit_xor b c),
      )

-- Adding the same word twice gives the first word back.
pub bit_xor_twice : (n x m : ℕ) → x < 2 ^ n → m < 2 ^ n → bit_xor (bit_xor x m) m ≡ x
bit_xor_twice n x m hx hm =
    bit_of_ext n _ x (bit_xor-lt n _ m (bit_xor-lt n x m hx hm) hm) hx λ k hk. ground (
      arith,
      bit_of-bit_xor k (bit_xor x m) m,
      bit_of-bit_xor k x m,
      bit_of-le-one k x,
      bit_of-le-one k m,
    )

bit_or_zero : (b : ℕ) → bit_or 0 b ≡ b
bit_or_zero b = bit_or_nothing (b + 1) b (omega arith)
  where
    bit_or_nothing : (fuel b : ℕ) → b < fuel → bit_or 0 b ≡ b
    bit_or_nothing zero b h = absurd (omega arith)
    bit_or_nothing (suc fuel) zero h = refl
    bit_or_nothing (suc fuel) (suc b) h =
        omega (arith, bit_or_step 0 (suc b), bit_or_nothing fuel (suc b / 2) (omega arith))

-- Bits that stand side by side are added by `|`.
pub bit_or-shifted : (n a b : ℕ) → a < 2 ^ n → bit_or a (b * 2 ^ n) ≡ a + b * 2 ^ n
bit_or-shifted zero a b fits =
    let a_zero : a ≡ 0 = omega arith in
    let same : b * 2 ^ 0 ≡ b = omega arith in rw (a_zero, same) (bit_or_zero b ∙ omega arith)
bit_or-shifted (suc n) a b fits =
    let pow = pow-suc 2 n in
    let shifted : b * 2 ^ suc n ≡ b * 2 ^ n * 2 = omega (arith, ap (λ (p : ℕ). b * p) pow) in
    let half : b * 2 ^ suc n / 2 ≡ b * 2 ^ n = omega (arith, shifted) in
    omega (
      arith,
      shifted,
      bit_or_step a (b * 2 ^ suc n),
      ap (bit_or (a / 2)) half,
      bit_or-shifted n (a / 2) b (omega (arith, pow)),
    )

-- A number of four bytes, lowest first.
pub little_endian :
    (a b c d : ℕ)
    → a < 256
    → b < 256
    → c < 256
    → bit_or (bit_or (bit_or a (b * 2 ^ 8)) (c * 2 ^ 16)) (d * 2 ^ 24)
      ≡ a + b * 2 ^ 8 + c * 2 ^ 16 + d * 2 ^ 24
little_endian a b c d fa fb fc =
    ap (λ t. bit_or (bit_or t (c * 2 ^ 16)) (d * 2 ^ 24)) (bit_or-shifted 8 a b (omega arith))
    ∙ ap (λ t. bit_or t (d * 2 ^ 24)) (bit_or-shifted 16 (a + b * 2 ^ 8) c (omega arith))
    ∙ bit_or-shifted 24 (a + b * 2 ^ 8 + c * 2 ^ 16) d (omega arith)
