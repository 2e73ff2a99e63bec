-- ===== src/Common/Bits.antt =====
-- C's `&`, `|` and `^` on words of every width, bit by bit.
use Prim.Native.Nat.{ℕ, zero, suc, ◌+◌, ◌*◌, ◌/◌, ◌%◌, ◌^◌, ◌≤◌, ◌<◌, min, max}
use Prim.Native.Nat.{bit_and, bit_or, bit_xor, digits, bitwise, differ}
use Prim.Native.Nat.{bit_and-bitwise, bit_or-bitwise, bit_xor-bitwise}
use mathlib.Core.Path.{◌≡◌, refl, sym, ap, ◌∙◌}
use mathlib.Core.Logic.{◌≢◌, ◌⊎◌, inl, inr}
use mathlib.Core.Bool.{Bool, true, ◌&&◌}
use native.Mathlib.Nat.{pow-suc}
use imgeditor.Common.Tests.{◌==◌, eq-or-ne}
use native.Mathlib.Omega.{arith}

-- Bit `k` of `x`, as 0 or 1.
abbrev pub bit_of : ℕ → ℕ → ℕ
bit_of zero x = x % 2
bit_of (suc k) x = bit_of k (x / 2)

-- The library's operations go through `digits`, which counts the digits still to come. `rest y` is
-- what it answers when the first word has run out, and `op` combines two digits.
module _ (rest : ℕ → ℕ) (op : ℕ → ℕ → ℕ) where
  digits_done : (count y : ℕ) → digits rest op count 0 y ≡ rest y
  digits_done zero y = refl
  digits_done (suc count) y = refl

  -- Any count that covers the first word gives the same answer.
  digits-count : (y x c d : ℕ) → x ≤ c → x ≤ d → digits rest op c x y ≡ digits rest op d x y
  digits-count y zero c d below_c below_d = digits_done c y ∙ sym (digits_done d y)
  digits-count y (suc x) zero d below_c below_d = absurd (omega arith)
  digits-count y (suc x) (suc c) zero below_c below_d = absurd (omega arith)
  digits-count y (suc x) (suc c) (suc d) below_c below_d =
      ap (λ (t : ℕ). t * 2 + op (suc x % 2) (y % 2))
        (digits-count (y / 2) (suc x / 2) c d (omega arith) (omega arith))

  -- The lowest digit apart from the others.
  bitwise_step :
      ((y : ℕ) → rest y ≡ rest (y / 2) * 2 + op 0 (y % 2))
      → (x y : ℕ) → bitwise rest op x y ≡ bitwise rest op (x / 2) (y / 2) * 2 + op (x % 2) (y % 2)
  bitwise_step base zero y = base y
  bitwise_step base (suc x) y =
      ap (λ (t : ℕ). t * 2 + op (suc x % 2) (y % 2))
        (digits-count (y / 2) (suc x / 2) x (suc x / 2) (omega arith) (omega arith))

differ_bits : (x y : ℕ) → x < 2 → y < 2 → differ x y ≡ (x + y) % 2
differ_bits zero y hx hy = omega arith
differ_bits (suc zero) zero hx hy = refl
differ_bits (suc zero) (suc zero) hx hy = refl
differ_bits (suc zero) (suc (suc y)) hx hy = absurd (omega arith)
differ_bits (suc (suc x)) y hx hy = absurd (omega arith)

pub bit_xor_step : (x y : ℕ) → bit_xor x y ≡ bit_xor (x / 2) (y / 2) * 2 + (x % 2 + y % 2) % 2
bit_xor_step x y = omega (
  arith,
  bit_xor-bitwise x y,
  bitwise_step (λ r. r) differ (λ r. omega arith) x y,
  bit_xor-bitwise (x / 2) (y / 2),
  differ_bits (x % 2) (y % 2) (omega arith) (omega arith),
)

pub bit_or_step : (x y : ℕ) → bit_or x y ≡ bit_or (x / 2) (y / 2) * 2 + max (x % 2) (y % 2)
bit_or_step x y = omega (
  arith,
  bit_or-bitwise x y,
  bitwise_step (λ r. r) max (λ r. omega arith) x y,
  bit_or-bitwise (x / 2) (y / 2),
)

pub bit_and_step : (x y : ℕ) → bit_and x y ≡ bit_and (x / 2) (y / 2) * 2 + min (x % 2) (y % 2)
bit_and_step x y = omega (
  arith,
  bit_and-bitwise x y,
  bitwise_step (λ r. 0) min (λ r. omega arith) x y,
  bit_and-bitwise (x / 2) (y / 2),
)

-- Each operation acts on every bit by itself.
pub bit_of-bit_and : (k a b : ℕ) → bit_of k (bit_and a b) ≡ min (bit_of k a) (bit_of k b)
bit_of-bit_and zero a b = omega (arith, bit_and_step a b)
bit_of-bit_and (suc k) a b =
    let e : bit_and a b / 2 ≡ bit_and (a / 2) (b / 2) = omega (arith, bit_and_step a b) in
    rw e (bit_of-bit_and k (a / 2) (b / 2))

pub bit_of-bit_or : (k a b : ℕ) → bit_of k (bit_or a b) ≡ max (bit_of k a) (bit_of k b)
bit_of-bit_or zero a b = omega (arith, bit_or_step a b)
bit_of-bit_or (suc k) a b =
    let e : bit_or a b / 2 ≡ bit_or (a / 2) (b / 2) = omega (arith, bit_or_step a b) in
    rw e (bit_of-bit_or k (a / 2) (b / 2))

pub bit_of-bit_xor : (k a b : ℕ) → bit_of k (bit_xor a b) ≡ (bit_of k a + bit_of k b) % 2
bit_of-bit_xor zero a b = omega (arith, bit_xor_step a b)
bit_of-bit_xor (suc k) a b =
    let e : bit_xor a b / 2 ≡ bit_xor (a / 2) (b / 2) = omega (arith, bit_xor_step a b) in
    rw e (bit_of-bit_xor k (a / 2) (b / 2))

pub bit_of-le-one : (k a : ℕ) → bit_of k a ≤ 1
bit_of-le-one zero a = omega arith
bit_of-le-one (suc k) a = bit_of-le-one k (a / 2)

pub bit_of-zero : (k : ℕ) → bit_of k 0 ≡ 0
bit_of-zero zero = refl
bit_of-zero (suc k) = bit_of-zero k

pub half-pow : (k : ℕ) → 2 ^ suc k / 2 ≡ 2 ^ k
half-pow k = omega (arith, pow-suc 2 k)

pub bit_of-pow_self : (k : ℕ) → bit_of k (2 ^ k) ≡ 1
bit_of-pow_self zero = refl
bit_of-pow_self (suc k) = rw (half-pow k) (bit_of-pow_self k)

pub bit_of-pow_ne : (k j : ℕ) → k ≢ j → bit_of k (2 ^ j) ≡ 0
bit_of-pow_ne zero zero ne = absurd (ne refl)
bit_of-pow_ne zero (suc j) ne = omega (arith, pow-suc 2 j)
bit_of-pow_ne (suc k) zero ne = bit_of-zero k
bit_of-pow_ne (suc k) (suc j) ne = rw (half-pow j) (bit_of-pow_ne k j (λ e. ne (ap suc e)))

-- A word of `n` bits has no bit from `n` on, and is determined by the bits below `n`.
pub bit_of-high : (n k a : ℕ) → a < 2 ^ n → n ≤ k → bit_of k a ≡ 0
bit_of-high zero k a h le = let e : a ≡ 0 = omega arith in rw e (bit_of-zero k)
bit_of-high (suc n) zero a h le = absurd (omega arith)
bit_of-high (suc n) (suc k) a h le =
    bit_of-high n k (a / 2) (omega (arith, pow-suc 2 n)) (omega arith)

pub bit_of_ext :
    (n a b : ℕ) → a < 2 ^ n → b < 2 ^ n → ((k : ℕ) → k < n → bit_of k a ≡ bit_of k b) → a ≡ b
bit_of_ext zero a b ha hb h = omega arith
bit_of_ext (suc n) a b ha hb h = omega (
  arith,
  h 0 (omega arith),
  bit_of_ext n (a / 2) (b / 2) (omega (arith, pow-suc 2 n)) (omega (arith, pow-suc 2 n))
      (λ k lt. h (suc k) (omega arith)),
)

-- The operations stay within the width of their operands.
pub bit_and-lt : (n a b : ℕ) → a < 2 ^ n → bit_and a b < 2 ^ n
bit_and-lt zero a b h = let e : a ≡ 0 = omega arith in rw e (omega (arith, bit_and-bitwise 0 b))
bit_and-lt (suc n) a b h = omega (
  arith,
  bit_and_step a b,
  pow-suc 2 n,
  bit_and-lt n (a / 2) (b / 2) (omega (arith, pow-suc 2 n)),
)

pub bit_or-lt : (n a b : ℕ) → a < 2 ^ n → b < 2 ^ n → bit_or a b < 2 ^ n
bit_or-lt zero a b h k =
    let ea : a ≡ 0 = omega arith in let eb : b ≡ 0 = omega arith in rw (ea, eb) (omega arith)
bit_or-lt (suc n) a b h k = omega (
  arith,
  bit_or_step a b,
  pow-suc 2 n,
  bit_or-lt n (a / 2) (b / 2) (omega (arith, pow-suc 2 n)) (omega (arith, pow-suc 2 n)),
)

pub bit_xor-lt : (n a b : ℕ) → a < 2 ^ n → b < 2 ^ n → bit_xor a b < 2 ^ n
bit_xor-lt zero a b h k =
    let ea : a ≡ 0 = omega arith in let eb : b ≡ 0 = omega arith in rw (ea, eb) (omega arith)
bit_xor-lt (suc n) a b h k = omega (
  arith,
  bit_xor_step a b,
  pow-suc 2 n,
  bit_xor-lt n (a / 2) (b / 2) (omega (arith, pow-suc 2 n)) (omega (arith, pow-suc 2 n)),
)

-- Testing a bit by a mask.
bit_and-zero_below : (bound x : ℕ) → x < bound → bit_and x 0 ≡ 0
bit_and-zero_below zero x h = absurd (omega arith)
bit_and-zero_below (suc bound) x h = elim (eq-or-ne x 0) [
  | inl e ↦ rw e (bit_and-bitwise 0 0)
  | inr ne ↦ omega (arith, bit_and_step x 0, bit_and-zero_below bound (x / 2) (omega arith))
]

pub bit_and-zero : (x : ℕ) → bit_and x 0 ≡ 0
bit_and-zero x = bit_and-zero_below (suc x) x (omega arith)

pub bit_and-lt_right : (n a b : ℕ) → b < 2 ^ n → bit_and a b < 2 ^ n
bit_and-lt_right zero a b h = let e : b ≡ 0 = omega arith in rw e (omega (arith, bit_and-zero a))
bit_and-lt_right (suc n) a b h = omega (
  arith,
  bit_and_step a b,
  pow-suc 2 n,
  bit_and-lt_right n (a / 2) (b / 2) (omega (arith, pow-suc 2 n)),
)

pub bit_and-pow_clear : (k a : ℕ) → bit_of k a ≡ 0 → bit_and a (2 ^ k) ≡ 0
bit_and-pow_clear zero a h = omega (arith, bit_and_step a 1, bit_and-zero (a / 2))
bit_and-pow_clear (suc k) a h = omega (
  arith,
  bit_and_step a (2 ^ suc k),
  ap (bit_and (a / 2)) (half-pow k),
  bit_and-pow_clear k (a / 2) h,
  pow-suc 2 k,
)

pub bit_and-pow_set : (k a : ℕ) → bit_of k a ≡ 1 → bit_and a (2 ^ k) ≢ 0
bit_and-pow_set k a h e =
    let none_left : bit_of k (bit_and a (2 ^ k)) ≡ 0 = rw e (bit_of-zero k) in
    absurd (omega (arith, bit_of-bit_and k a (2 ^ k), bit_of-pow_self k))

pub bit_of-cases : (k a : ℕ) → (bit_of k a ≡ 0) ⊎ (bit_of k a ≡ 1)
bit_of-cases k a = omega (arith, bit_of-le-one k a)

-- Over a small range two functions are compared by evaluation.
unfoldable pub agree_below : (ℕ → ℕ) → (ℕ → ℕ) → ℕ → Bool
agree_below f g zero = true
agree_below f g (suc n) = (f n == g n) && agree_below f g n

pub agree_below→eq : (f g : ℕ → ℕ) (n : ℕ) → agree_below f g n ≡ true → (i : ℕ) → i < n → f i ≡ g i
unfolding agree_below
agree_below→eq f g zero e i h = absurd (omega arith)
agree_below→eq f g (suc n) e i h = ground (arith, agree_below→eq f g n (ground arith) i)
