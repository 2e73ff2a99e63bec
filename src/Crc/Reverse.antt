-- ===== src/Crc/Reverse.antt =====
-- `reverse16` and `reverse32` turn a word round. Each of their lines swaps neighbouring groups of
-- bits, so bit `k` of the result is one bit of the argument, found by following the swaps.
use imgeditor.Common.{ℕ, ◌+◌, ◌-◌, ◌*◌, ◌/◌, ◌%◌, ◌^◌, ◌<◌, ◌≡◌, refl, ◌∙◌, ap, arith}
use imgeditor.Common.{
  bit_and, bit_or, bit_of, bit_of-bit_and, bit_of-bit_or, bit_of-mod, bit_of-shr,
}
use imgeditor.Common.{bit_of-le-one, bit_of-high, mod-pow-lt, bit_or-lt, bit_and-lt_right}
use imgeditor.Common.{
  agree_below, agree_below→eq, Bool, true, ◌&&◌, ◌||◌, ltb, leb, ◌==◌, if◌then◌else◌,
}
use imgeditor.Common.{bit_of-moved}
use imgeditor.Crc.{reverse16, reverse32}

pub record IsReverse (w : ℕ) (reverse : ℕ → ℕ) : Type 0 where
  pub in_width : (x : ℕ) → x < 2 ^ w → reverse x < 2 ^ w
  pub turns : (k x : ℕ) → k < w → x < 2 ^ w → bit_of k (reverse x) ≡ bit_of (w - 1 - k) x

-- A line of `reverse16`, with the masks `high` and `low` for the two groups.
abbrev swap16 : ℕ → ℕ → ℕ → ℕ → ℕ
swap16 high low s x = bit_or (bit_and x high / 2 ^ s) (bit_and x low * 2 ^ s) % 2 ^ 16

-- A line of `reverse32`.
abbrev swap32 : ℕ → ℕ → ℕ → ℕ
swap32 m s x = bit_or (bit_and x m * 2 ^ s % 2 ^ 32) (bit_and (x / 2 ^ s) m)

-- Where the bit comes from, if the group of place `k` comes from above or from below.
abbrev from_place : ℕ → ℕ → ℕ → ℕ
from_place above s k = if above == 1 then k + s else k - s

-- `above` and `below` are the masks' bits for place `k`; one of them is 1, the other 0.
abbrev one_side : ℕ → ℕ → ℕ → ℕ → Bool
one_side above below s k =
    (above == 1 && (ltb k s || below == 0)) || (above == 0 && leb s k && below == 1)

bit_of-swap16 :
    (high low s k x : ℕ)
    → k < 16
    → one_side (bit_of (k + s) high) (bit_of (k - s) low) s k ≡ true
    → bit_of k (swap16 high low s x) ≡ bit_of (from_place (bit_of (k + s) high) s k) x
bit_of-swap16 high low s k x h ok = ground (
  arith,
  bit_of-mod 16 k (bit_or (bit_and x high / 2 ^ s) (bit_and x low * 2 ^ s)) h,
  bit_of-bit_or k (bit_and x high / 2 ^ s) (bit_and x low * 2 ^ s),
  bit_of-shr s k (bit_and x high),
  bit_of-bit_and (k + s) x high,
  bit_of-moved s k (bit_and x low),
  bit_of-bit_and (k - s) x low,
  bit_of-le-one (k + s) x,
  bit_of-le-one (k - s) x,
)

bit_of-swap32 :
    (m s k x : ℕ)
    → k < 32
    → one_side (bit_of k m) (bit_of (k - s) m) s k ≡ true
    → bit_of k (swap32 m s x) ≡ bit_of (from_place (bit_of k m) s k) x
bit_of-swap32 m s k x h ok = ground (
  arith,
  bit_of-bit_or k (bit_and x m * 2 ^ s % 2 ^ 32) (bit_and (x / 2 ^ s) m),
  bit_of-mod 32 k (bit_and x m * 2 ^ s) h,
  bit_of-moved s k (bit_and x m),
  bit_of-bit_and (k - s) x m,
  bit_of-bit_and k (x / 2 ^ s) m,
  bit_of-shr s k x,
  bit_of-le-one (k + s) x,
  bit_of-le-one (k - s) x,
)

-- A test on small numbers, by evaluation.
true_below :
    (b : ℕ → Bool) (n : ℕ)
    → agree_below (λ k. if b k then 1 else 0) (λ k. 1) n ≡ true
    → (k : ℕ) → k < n
    → b k ≡ true
true_below b n table k h =
    ground (arith, agree_below→eq (λ k. if b k then 1 else 0) (λ k. 1) n table k h)

-- The places that bit `k` of `reverse16` is followed through, from the last line to the first.
abbrev place16 : ℕ → ℕ → ℕ → ℕ
place16 high s k = from_place (bit_of (k + s) high) s k

abbrev ok16 : ℕ → ℕ → ℕ → ℕ → Bool
ok16 high low s k = ltb k 16 && one_side (bit_of (k + s) high) (bit_of (k - s) low) s k

abbrev place32 : ℕ → ℕ → ℕ → ℕ
place32 m s k = from_place (bit_of k m) s k

abbrev ok32 : ℕ → ℕ → ℕ → Bool
ok32 m s k = ltb k 32 && one_side (bit_of k m) (bit_of (k - s) m) s k

-- A line at a place that passes the test.
step16 :
    (high low s k x : ℕ)
    → ok16 high low s k ≡ true
    → bit_of k (swap16 high low s x) ≡ bit_of (place16 high s k) x
step16 high low s k x ok = bit_of-swap16 high low s k x (ground arith) (ground arith)

step32 : (m s k x : ℕ) → ok32 m s k ≡ true → bit_of k (swap32 m s x) ≡ bit_of (place32 m s k) x
step32 m s k x ok = bit_of-swap32 m s k x (ground arith) (ground arith)

first16 : (k : ℕ) → k < 16 → ok16 0xff00 0x00ff 8 k ≡ true
unfolding agree_below
first16 = true_below _ 16 refl

second16 : (k : ℕ) → k < 16 → ok16 0xf0f0 0x0f0f 4 (place16 0xff00 8 k) ≡ true
unfolding agree_below
second16 = true_below _ 16 refl

third16 : (k : ℕ) → k < 16 → ok16 0xcccc 0x3333 2 (place16 0xf0f0 4 (place16 0xff00 8 k)) ≡ true
unfolding agree_below
third16 = true_below _ 16 refl

fourth16 :
    (k : ℕ)
    → k < 16
    → ok16 0xaaaa 0x5555 1 (place16 0xcccc 2 (place16 0xf0f0 4 (place16 0xff00 8 k))) ≡ true
unfolding agree_below
fourth16 = true_below _ 16 refl

final16 :
    (k : ℕ)
    → k < 16
    → place16 0xaaaa 1 (place16 0xcccc 2 (place16 0xf0f0 4 (place16 0xff00 8 k))) ≡ 15 - k
unfolding agree_below
final16 = agree_below→eq _ (λ k. 15 - k) 16 refl

pub reverse16-IsReverse : IsReverse 16 reverse16
unfolding reverse16
reverse16-IsReverse = record {
  in_width = λ x h. mod-pow-lt 16 _;
  turns = λ k x hk hx.
      let x1 = swap16 0xaaaa 0x5555 1 x in
      let x2 = swap16 0xcccc 0x3333 2 x1 in
      let x3 = swap16 0xf0f0 0x0f0f 4 x2 in
      step16 0xff00 0x00ff 8 k x3 (first16 k hk)
      ∙ step16 0xf0f0 0x0f0f 4 (place16 0xff00 8 k) x2 (second16 k hk)
      ∙ step16 0xcccc 0x3333 2 (place16 0xf0f0 4 (place16 0xff00 8 k)) x1 (third16 k hk)
      ∙ step16 0xaaaa 0x5555 1 (place16 0xcccc 2 (place16 0xf0f0 4 (place16 0xff00 8 k))) x
          (fourth16 k hk)
      ∙ ap (λ (p : ℕ). bit_of p x) (final16 k hk);
}

-- The last line of `reverse32` swaps the bytes.
abbrev swap_bytes : ℕ → ℕ
swap_bytes x =
    bit_or
      (bit_or (bit_or (x * 2 ^ 24 % 2 ^ 32) (bit_and x 0xff00 * 2 ^ 8 % 2 ^ 32))
        (bit_and (x / 2 ^ 8) 0xff00))
      (x / 2 ^ 24)

abbrev place_byte : ℕ → ℕ
place_byte k =
    if ltb k 8 then k + 24 else if ltb k 16 then k + 8 else if ltb k 24 then k - 8 else k - 24

byte_mask : (k : ℕ) → k < 32 → bit_of k 0xff00 ≡ (if leb 8 k && ltb k 16 then 1 else 0)
unfolding agree_below
byte_mask = agree_below→eq (λ k. bit_of k 0xff00) _ 32 refl

bit_of-swap_bytes :
    (k x : ℕ) → k < 32 → x < 2 ^ 32 → bit_of k (swap_bytes x) ≡ bit_of (place_byte k) x
bit_of-swap_bytes k x h hx = ground (
  arith,
  bit_of-bit_or k
      (bit_or (bit_or (x * 2 ^ 24 % 2 ^ 32) (bit_and x 0xff00 * 2 ^ 8 % 2 ^ 32))
        (bit_and (x / 2 ^ 8) 0xff00))
      (x / 2 ^ 24),
  bit_of-bit_or k (bit_or (x * 2 ^ 24 % 2 ^ 32) (bit_and x 0xff00 * 2 ^ 8 % 2 ^ 32))
      (bit_and (x / 2 ^ 8) 0xff00),
  bit_of-bit_or k (x * 2 ^ 24 % 2 ^ 32) (bit_and x 0xff00 * 2 ^ 8 % 2 ^ 32),
  bit_of-mod 32 k (x * 2 ^ 24) h,
  bit_of-mod 32 k (bit_and x 0xff00 * 2 ^ 8) h,
  bit_of-moved 24 k x,
  bit_of-moved 8 k (bit_and x 0xff00),
  bit_of-bit_and (k - 8) x 0xff00,
  bit_of-bit_and k (x / 2 ^ 8) 0xff00,
  bit_of-shr 8 k x,
  bit_of-shr 24 k x,
  byte_mask k h,
  byte_mask (k - 8) (omega arith),
  bit_of-high 32 (k + 24) x hx,
  bit_of-le-one (k + 24) x,
  bit_of-le-one (k + 8) x,
  bit_of-le-one (k - 8) x,
  bit_of-le-one (k - 24) x,
)

first32 : (k : ℕ) → k < 32 → ok32 0x0f0f0f0f 4 (place_byte k) ≡ true
unfolding agree_below
first32 = true_below _ 32 refl

second32 : (k : ℕ) → k < 32 → ok32 0x33333333 2 (place32 0x0f0f0f0f 4 (place_byte k)) ≡ true
unfolding agree_below
second32 = true_below _ 32 refl

third32 :
    (k : ℕ)
    → k < 32
    → ok32 0x55555555 1 (place32 0x33333333 2 (place32 0x0f0f0f0f 4 (place_byte k))) ≡ true
unfolding agree_below
third32 = true_below _ 32 refl

final32 :
    (k : ℕ)
    → k < 32
    → place32 0x55555555 1 (place32 0x33333333 2 (place32 0x0f0f0f0f 4 (place_byte k))) ≡ 31 - k
unfolding agree_below
final32 = agree_below→eq _ (λ k. 31 - k) 32 refl

swap32-lt : (m s x : ℕ) → m < 2 ^ 32 → swap32 m s x < 2 ^ 32
swap32-lt m s x h = bit_or-lt 32 _ _ (mod-pow-lt 32 _) (bit_and-lt_right 32 (x / 2 ^ s) m h)

swap_bytes-lt : (x : ℕ) → x < 2 ^ 32 → swap_bytes x < 2 ^ 32
swap_bytes-lt x h =
    bit_or-lt 32 _ _
      (bit_or-lt 32 _ _ (bit_or-lt 32 _ _ (mod-pow-lt 32 _) (mod-pow-lt 32 _))
        (bit_and-lt_right 32 (x / 2 ^ 8) 0xff00 (omega arith)))
      (omega arith)

pub reverse32-IsReverse : IsReverse 32 reverse32
unfolding reverse32
reverse32-IsReverse = record {
  in_width = λ x h. swap_bytes-lt _ (swap32-lt 0x0f0f0f0f 4 _ (omega arith));
  turns = λ k x hk hx.
      let x1 = swap32 0x55555555 1 x in
      let x2 = swap32 0x33333333 2 x1 in
      let x3 = swap32 0x0f0f0f0f 4 x2 in
      bit_of-swap_bytes k x3 hk (swap32-lt 0x0f0f0f0f 4 x2 (omega arith))
      ∙ step32 0x0f0f0f0f 4 (place_byte k) x2 (first32 k hk)
      ∙ step32 0x33333333 2 (place32 0x0f0f0f0f 4 (place_byte k)) x1 (second32 k hk)
      ∙ step32 0x55555555 1 (place32 0x33333333 2 (place32 0x0f0f0f0f 4 (place_byte k))) x
          (third32 k hk)
      ∙ ap (λ (p : ℕ). bit_of p x) (final32 k hk);
}
