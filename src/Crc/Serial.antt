-- ===== src/Crc/Serial.antt =====
-- The bit-serial CRC, a register that divides by the polynomial one bit at a time, and the proof
-- that the table-driven rounds of libcrc.c compute it.
use imgeditor.Common.{
  ℕ, zero, suc, ◌+◌, ◌-◌, ◌*◌, ◌/◌, ◌%◌, ◌^◌, ◌≤◌, ◌<◌, ◌≡◌, refl, ◌∙◌, ap, sym, arith,
}
use imgeditor.Common.{
  bit_and, bit_xor, bit_of, bit_of_ext, bit_xor-lt, bit_of-bit_xor, bit_of-bit_and,
}
use imgeditor.Common.{bit_of-mod, mod-pow-lt, bit_of-high, bit_of-le-one}
use imgeditor.Common.{bit_of-shr, bit_of-moved, bit_and-lt_right, bit_xor_comm}
use imgeditor.Common.{
  true, false, inl, inr, lt-or-ge, ltb, leb, ◌==◌, if◌then◌else◌, List, get_or, agree_below,
  agree_below→eq,
}
use imgeditor.Crc.Width.{shift_bit, shift_bits, update_high}
use imgeditor.Crc.Linear.{
  shift_bit-lt, shift_bits-lt, shift_bits-xor, shift_bits-add, shift_bits_plain,
}
use imgeditor.Crc.Linear.{shift_clear, shift_set}
use native.Mathlib.Numerals.{towards_suc}
use native.Mathlib.Nat.{
  pow-suc, one-le-pow, mod-eq_of_lt, mod-eq-sub-mod, div-eq_of_lt-le, div-lt_iff_lt-mul,
}

-- Highest bit first: when the register of `w` bits overflows, the polynomial is subtracted.
unfoldable pub high_round : ℕ → ℕ → ℕ → ℕ
high_round w poly x = if leb (2 ^ w) (2 * x) then bit_xor (2 * x - 2 ^ w) poly else 2 * x

-- Lowest bit first, with the polynomial turned round.
unfoldable pub low_round : ℕ → ℕ → ℕ
low_round poly x = if x % 2 == 1 then bit_xor (x / 2) poly else x / 2

unfoldable pub rounds : (ℕ → ℕ) → ℕ → ℕ → ℕ
rounds f zero x = x
rounds f (suc n) x = rounds f n (f x)

-- A byte goes into the register's end, and eight rounds follow.
unfoldable pub serial_high : ℕ → ℕ → ℕ → ℕ → ℕ
serial_high w poly next byte = rounds (high_round w poly) 8 (bit_xor next (byte * 2 ^ (w - 8)))

unfoldable pub serial_low : ℕ → ℕ → ℕ → ℕ
serial_low poly next byte = rounds (low_round poly) 8 (bit_xor next byte)

bit_of-byte : (k : ℕ) → k < 8 → bit_of k 0xff ≡ 1
unfolding agree_below
bit_of-byte = agree_below→eq (λ k. bit_of k 0xff) (λ k. 1) 8 refl

-- `x & 0xff` on bits.
pub byte_bits : (k x : ℕ) → bit_of k (bit_and x 0xff) ≡ (if ltb k 8 then bit_of k x else 0)
byte_bits k x =
    ground (arith, bit_of-bit_and k x 0xff, bit_of-byte k, bit_of-high 8 k 0xff, bit_of-le-one k x)

pub byte-lt : (x : ℕ) → bit_and x 0xff < 256
byte-lt x = bit_and-lt_right 8 x 0xff (omega arith)

pub byte_id : (x : ℕ) → x < 256 → bit_and x 0xff ≡ x
byte_id x h = bit_of_ext 8 _ x (byte-lt x) h (λ k hk. byte_bits k x ∙ ground arith)

-- The width is `n + 8`.
module _ (n w : ℕ) (width : w ≡ n + 8) (reverse : ℕ → ℕ) (poly : ℕ) (fits : poly < 2 ^ w) where
  pub pow-width : 2 ^ w ≡ 2 ^ n * 256
  pow-width = rw width (simp towards_suc (omega arith))

  pow-top : 2 ^ w ≡ 2 * 2 ^ (w - 1)
  pow-top =
      let e : suc (w - 1) ≡ w = omega arith in
      sym (ap (λ (t : ℕ). 2 ^ t) e) ∙ omega (arith, pow-suc 2 (w - 1))

  -- The top bit says whether doubling overflows.
  top_set : (x : ℕ) → x < 2 ^ w → 2 ^ (w - 1) ≤ x → bit_of (w - 1) x ≡ 1
  top_set x h high =
      let one_over : x / 2 ^ (w - 1) ≡ 1 =
        div-eq_of_lt-le {k = 1} (2 ^ (w - 1)) (omega arith) (omega (arith, pow-top)) in
      let e : 0 + (w - 1) ≡ w - 1 = omega arith in
      rw e at (sym (bit_of-shr (w - 1) 0 x)) ∙ rw one_over

  overflows : (x : ℕ) → x < 2 ^ w → 2 ^ (w - 1) ≤ x → x * 2 ^ 1 % 2 ^ w ≡ 2 * x - 2 ^ w
  overflows x h high =
      mod-eq-sub-mod {n = x * 2 ^ 1} {m = 2 ^ w} (omega (arith, pow-top))
      ∙ mod-eq_of_lt (omega (arith, pow-top))
      ∙ omega arith

  -- On words of the width the source's round is that of the register.
  shift_bit-high_round : (x : ℕ) → x < 2 ^ w → shift_bit w reverse poly x ≡ high_round w poly x
  unfolding high_round
  shift_bit-high_round x h = elim (lt-or-ge x (2 ^ (w - 1))) [
    | inl low ↦
        let test : leb (2 ^ w) (2 * x) ≡ false = ground (arith, pow-top) in
        rw test (
          shift_clear w reverse poly fits x (bit_of-high (w - 1) (w - 1) x low (omega arith))
          ∙ mod-eq_of_lt (omega (arith, pow-top))
          ∙ omega arith)
    | inr high ↦
        let test : leb (2 ^ w) (2 * x) ≡ true = ground (arith, pow-top) in
        rw test (
          shift_set w reverse poly fits x (top_set x h high)
          ∙ ap (λ (t : ℕ). bit_xor t poly) (overflows x h high))
  ]

  pub shift_bits-rounds :
      (m x : ℕ) → x < 2 ^ w → shift_bits w reverse m poly x ≡ rounds (high_round w poly) m x
  unfolding shift_bits rounds
  shift_bits-rounds zero x h = refl
  shift_bits-rounds (suc m) x h =
      shift_bits-rounds m _ (shift_bit-lt w reverse poly fits x)
      ∙ ap (rounds (high_round w poly) m) (shift_bit-high_round x h)

  pub byte_up : (b : ℕ) → b < 256 → b * 2 ^ n < 2 ^ w
  byte_up b h = rw pow-width (grind (arith, one-le-pow n 2 (omega arith)))

  low_in_width : (x : ℕ) → x < 2 ^ n → x < 2 ^ w
  low_in_width x h = omega (arith, pow-width)

  -- The register and the byte: the high byte of the one meets the other, the rest is shifted up.
  module _ (next byte : ℕ) (next_fits : next < 2 ^ w) (byte_fits : byte < 256) where
    index : ℕ
    index = bit_xor (next / 2 ^ n) byte

    rest : ℕ
    rest = next % 2 ^ n

    index-lt : index < 256
    unfolding index
    index-lt =
        bit_xor-lt 8 _ byte
          ((div-lt_iff_lt-mul (one-le-pow n 2 (omega arith))).1 (omega (arith, pow-width)))
          byte_fits

    split_high : bit_xor next (byte * 2 ^ n) ≡ bit_xor (index * 2 ^ n) rest
    unfolding index rest
    split_high =
        bit_of_ext w _ _ (bit_xor-lt w next _ next_fits (byte_up byte byte_fits))
          (bit_xor-lt w _ rest (byte_up index index-lt) (low_in_width rest (mod-pow-lt n next)))
          λ k h. elim (lt-or-ge k n) [
            | inl low ↦ ground (
              arith,
              bit_of-bit_xor k next (byte * 2 ^ n),
              bit_of-moved n k byte,
              bit_of-bit_xor k (bit_xor (next / 2 ^ n) byte * 2 ^ n) (next % 2 ^ n),
              bit_of-moved n k (bit_xor (next / 2 ^ n) byte),
              bit_of-mod n k next low,
            )
            | inr high ↦
                let e : k - n + n ≡ k = omega arith in
                let shifted : bit_of (k - n) (next / 2 ^ n) ≡ bit_of k next =
                  rw e at (bit_of-shr n (k - n) next) in
                ground (
                  arith,
                  shifted,
                  bit_of-bit_xor k next (byte * 2 ^ n),
                  bit_of-moved n k byte,
                  bit_of-bit_xor k (bit_xor (next / 2 ^ n) byte * 2 ^ n) (next % 2 ^ n),
                  bit_of-moved n k (bit_xor (next / 2 ^ n) byte),
                  bit_of-bit_xor (k - n) (next / 2 ^ n) byte,
                  bit_of-high n k (next % 2 ^ n) (mod-pow-lt n next),
                  bit_of-le-one k next,
                  bit_of-le-one (k - n) byte,
                )
          ]

    rest_shifted : rest * 2 ^ 8 ≡ next * 2 ^ 8 % 2 ^ w
    unfolding rest
    rest_shifted =
        bit_of_ext w _ _ (omega (arith, pow-width, mod-pow-lt n next)) (mod-pow-lt w _) λ k h.
          ground (
            arith,
            bit_of-moved 8 k (next % 2 ^ n),
            bit_of-mod w k (next * 2 ^ 8) h,
            bit_of-moved 8 k next,
            bit_of-mod n (k - 8) next,
          )

    pub update_high-serial :
        (table : List ℕ)
        → ((i : ℕ) → i < 256 → get_or table i 0 ≡ shift_bits w reverse w poly i)
        → update_high w reverse table next byte ≡ serial_high w poly next byte
    unfolding update_high serial_high index
    update_high-serial table entries =
        let e : w - 8 ≡ n = omega arith in
        let at_index : get_or table (bit_and index 0xff) 0
            ≡ shift_bits w reverse 8 poly (index * 2 ^ n) =
          rw (byte_id index index-lt) (
            entries index index-lt
            ∙ shift_bits-add w reverse poly fits n 8 w index (sym width)
            ∙ ap (shift_bits w reverse 8 poly) (
                shift_bits_plain w reverse poly fits n index (omega arith)
                  (byte_up index index-lt))) in
        let shifted : shift_bits w reverse 8 poly rest ≡ next * 2 ^ 8 % 2 ^ w =
          shift_bits_plain w reverse poly fits 8 rest (omega arith)
            (rw rest_shifted (mod-pow-lt w _))
          ∙ rest_shifted in
        let kept = next * 2 ^ 8 % 2 ^ w in
        let word = shift_bits w reverse 8 poly (index * 2 ^ n) in
        rw e (
          ap (bit_xor kept) at_index
          ∙ bit_xor_comm w kept word (mod-pow-lt w _)
              (shift_bits-lt w reverse poly fits 8 (index * 2 ^ n) (byte_up index index-lt))
          ∙ ap (bit_xor word) (sym shifted)
          ∙ sym (shift_bits-xor w reverse poly fits 8 (index * 2 ^ n) rest)
          ∙ ap (shift_bits w reverse 8 poly) (sym split_high)
          ∙ shift_bits-rounds 8 (bit_xor next (byte * 2 ^ n))
              (bit_xor-lt w next _ next_fits (byte_up byte byte_fits)))
