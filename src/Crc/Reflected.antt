-- ===== src/Crc/Reflected.antt =====
-- The rounds with `refout`: the register runs from its other end.
use imgeditor.Common.{
  ℕ, zero, suc, ◌+◌, ◌-◌, ◌*◌, ◌/◌, ◌%◌, ◌^◌, ◌<◌, ◌≡◌, refl, ◌∙◌, ap, sym, arith,
}
use imgeditor.Common.{
  bit_and, bit_xor, bit_of, bit_of-cases, bit_of_ext, bit_xor-lt, bit_of-bit_xor,
}
use imgeditor.Common.{
  bit_of-mod, bit_of-double, bit_of-double_zero, mod-pow-lt, bit_of-high, bit_of-le-one,
}
use imgeditor.Common.{bit_of-shr, bit_of-moved, bit_xor_step, bit_xor_comm}
use imgeditor.Common.{inl, inr, lt-or-ge, List, get_or, eq-or-ne}
use imgeditor.Crc.Width.{shift_bit, shift_bits, update_low}
use imgeditor.Crc.Linear.{xor_regroup, shift_bit-lt, shift_bits-add, shift_bits_plain}
use imgeditor.Crc.Linear.{shift_clear, shift_set}
use imgeditor.Crc.Reverse.{IsReverse}
use native.Mathlib.Nat.{pow-suc, one-le-pow, div-mul-le_self}
use imgeditor.Crc.Serial.{low_round, rounds, serial_low, byte_bits, byte-lt, pow-width}

half-xor : (x y : ℕ) → bit_xor x y / 2 ≡ bit_xor (x / 2) (y / 2)
half-xor x y = omega (arith, bit_xor_step x y)

low_clear : (poly x : ℕ) → x % 2 ≡ 0 → low_round poly x ≡ x / 2
unfolding low_round
low_clear poly x h = ground arith

low_set : (poly x : ℕ) → x % 2 ≡ 1 → low_round poly x ≡ bit_xor (x / 2) poly
unfolding low_round
low_set poly x h = ground arith

module _ (w : ℕ) (poly : ℕ) (fits : poly < 2 ^ w) where
  half-lt : (x : ℕ) → x < 2 ^ w → x / 2 < 2 ^ w
  half-lt x h = omega arith

  low_round-lt : (x : ℕ) → x < 2 ^ w → low_round poly x < 2 ^ w
  low_round-lt x h = elim (bit_of-cases 0 x) [
    | inl c ↦ rw (low_clear poly x c) (half-lt x h)
    | inr s ↦ rw (low_set poly x s) (bit_xor-lt w (x / 2) poly (half-lt x h) fits)
  ]

  low_round-xor :
      (x y : ℕ)
      → x < 2 ^ w
      → y < 2 ^ w
      → low_round poly (bit_xor x y) ≡ bit_xor (low_round poly x) (low_round poly y)
  low_round-xor x y hx hy =
      let (one, other, both) =
        xor_regroup w (x / 2) (y / 2) poly (half-lt x hx) (half-lt y hy) fits in
      let low = bit_xor_step x y in
      elim (bit_of-cases 0 x) [
        | inl cx ↦ elim (bit_of-cases 0 y) [
          | inl cy ↦
              rw
                (
                  low_clear poly x cx,
                  low_clear poly y cy,
                  low_clear poly (bit_xor x y) (omega (arith, low)),
                )
                (half-xor x y)
          | inr sy ↦
              rw
                (
                  low_clear poly x cx,
                  low_set poly y sy,
                  low_set poly (bit_xor x y) (omega (arith, low)),
                )
                (ap (λ (t : ℕ). bit_xor t poly) (half-xor x y) ∙ sym other)
        ]
        | inr sx ↦ elim (bit_of-cases 0 y) [
          | inl cy ↦
              rw
                (
                  low_set poly x sx,
                  low_clear poly y cy,
                  low_set poly (bit_xor x y) (omega (arith, low)),
                )
                (ap (λ (t : ℕ). bit_xor t poly) (half-xor x y) ∙ sym one)
          | inr sy ↦
              rw
                (
                  low_set poly x sx,
                  low_set poly y sy,
                  low_clear poly (bit_xor x y) (omega (arith, low)),
                )
                (half-xor x y ∙ sym both)
        ]
      ]

  low_rounds-xor :
      (n x y : ℕ)
      → x < 2 ^ w
      → y < 2 ^ w
      → rounds (low_round poly) n (bit_xor x y)
        ≡ bit_xor (rounds (low_round poly) n x) (rounds (low_round poly) n y)
  unfolding rounds
  low_rounds-xor zero x y hx hy = refl
  low_rounds-xor (suc n) x y hx hy =
      rw (low_round-xor x y hx hy) (low_rounds-xor n _ _ (low_round-lt x hx) (low_round-lt y hy))

  pub low_rounds-lt : (n x : ℕ) → x < 2 ^ w → rounds (low_round poly) n x < 2 ^ w
  unfolding rounds
  low_rounds-lt zero x h = h
  low_rounds-lt (suc n) x h = low_rounds-lt n _ (low_round-lt x h)

-- Rounds on a register whose low bits are clear shift it.
low_rounds_plain : (poly m h : ℕ) → rounds (low_round poly) m (h * 2 ^ m) ≡ h
unfolding rounds
low_rounds_plain poly zero h = omega arith
low_rounds_plain poly (suc m) h =
    let apart : h * 2 ^ suc m ≡ h * 2 ^ m * 2 =
      omega (arith, ap (λ (p : ℕ). h * p) (pow-suc 2 m)) in
    let half : h * 2 ^ m * 2 / 2 ≡ h * 2 ^ m = omega arith in
    rw (apart, low_clear poly (h * 2 ^ m * 2) (omega arith), half) (low_rounds_plain poly m h)

-- The table's side: turning round a round of the source is a round from the other end.
module _ (n w : ℕ) (width : w ≡ n + 8) (reverse : ℕ → ℕ) (turn : IsReverse w reverse) (poly : ℕ)
    (fits : poly < 2 ^ w) where
  reverse-reverse : (x : ℕ) → x < 2 ^ w → reverse (reverse x) ≡ x
  reverse-reverse x h = bit_of_ext w _ x (turn.in_width _ (turn.in_width x h)) h λ k hk.
      let e : w - 1 - (w - 1 - k) ≡ k = omega arith in
      turn.turns k (reverse x) hk (turn.in_width x h)
      ∙ turn.turns (w - 1 - k) x (omega arith) h
      ∙ ap (λ (p : ℕ). bit_of p x) e

  lowest : (x : ℕ) → x < 2 ^ w → reverse x % 2 ≡ bit_of (w - 1) x
  lowest x h = let e : w - 1 - 0 ≡ w - 1 = omega arith in rw e at (turn.turns 0 x (omega arith) h)

  -- Doubling, turned round, is halving.
  turned_double : (x : ℕ) → x < 2 ^ w → reverse (x * 2 ^ 1 % 2 ^ w) ≡ reverse x / 2
  turned_double x h =
      bit_of_ext w _ _ (turn.in_width _ (mod-pow-lt w _))
        (half-lt w poly fits _ (turn.in_width x h))
        λ k hk. turn.turns k _ hk (mod-pow-lt w _) ∙ doubled k hk
    where
      doubled : (k : ℕ) → k < w → bit_of (w - 1 - k) (x * 2 % 2 ^ w) ≡ bit_of k (reverse x / 2)
      doubled k hk = elim (eq-or-ne k (w - 1)) [
        | inl end ↦
            let e : w - 1 - k ≡ 0 = omega arith in
            rw e (
              bit_of-mod w 0 (x * 2) (omega arith)
              ∙ bit_of-double_zero x
              ∙ sym (bit_of-high w (suc k) (reverse x) (turn.in_width x h) (omega arith)))
        | inr ne ↦
            let e : w - 1 - k ≡ suc (w - 1 - suc k) = omega arith in
            rw e (
              bit_of-mod w (suc (w - 1 - suc k)) (x * 2) (omega arith)
              ∙ bit_of-double (w - 1 - suc k) x
              ∙ sym (turn.turns (suc k) x (omega arith) h))
      ]

  turned_xor :
      (x y : ℕ) → x < 2 ^ w → y < 2 ^ w → reverse (bit_xor x y) ≡ bit_xor (reverse x) (reverse y)
  turned_xor x y hx hy =
      bit_of_ext w _ _ (turn.in_width _ (bit_xor-lt w x y hx hy))
        (bit_xor-lt w _ _ (turn.in_width x hx) (turn.in_width y hy))
        λ k hk. omega (
          arith,
          turn.turns k (bit_xor x y) hk (bit_xor-lt w x y hx hy),
          bit_of-bit_xor (w - 1 - k) x y,
          bit_of-bit_xor k (reverse x) (reverse y),
          turn.turns k x hk hx,
          turn.turns k y hk hy,
        )

  turned_round :
      (x : ℕ)
      → x < 2 ^ w
      → reverse (shift_bit w reverse poly x) ≡ low_round (reverse poly) (reverse x)
  turned_round x h = elim (bit_of-cases (w - 1) x) [
    | inl c ↦
        rw (shift_clear w reverse poly fits x c)
          (turned_double x h ∙ sym (low_clear (reverse poly) (reverse x) (lowest x h ∙ c)))
    | inr s ↦ rw (shift_set w reverse poly fits x s) (
        turned_xor _ poly (mod-pow-lt w _) fits
        ∙ ap (λ (t : ℕ). bit_xor t (reverse poly)) (turned_double x h)
        ∙ sym (low_set (reverse poly) (reverse x) (lowest x h ∙ s)))
  ]

  turned_rounds :
      (m x : ℕ)
      → x < 2 ^ w
      → reverse (shift_bits w reverse m poly x) ≡ rounds (low_round (reverse poly)) m (reverse x)
  unfolding shift_bits rounds
  turned_rounds zero x h = refl
  turned_rounds (suc m) x h =
      turned_rounds m _ (shift_bit-lt w reverse poly fits x)
      ∙ ap (rounds (low_round (reverse poly)) m) (turned_round x h)

  pub in_wide : (i : ℕ) → i < 256 → i < 2 ^ w
  in_wide i h = omega (arith, one-le-pow n 2 (omega arith), pow-width n w width reverse poly fits)

  -- A byte turned round fills the top of the word.
  top_whole : (i : ℕ) → i < 256 → reverse i / 2 ^ n * 2 ^ n ≡ reverse i
  top_whole i h =
      let fits_w = turn.in_width i (in_wide i h) in
      bit_of_ext w _ _ (omega (arith, div-mul-le_self (reverse i) (2 ^ n))) fits_w λ k hk.
        elim (lt-or-ge k n) [
          | inl low ↦ ground (
            arith,
            bit_of-moved n k (reverse i / 2 ^ n),
            turn.turns k i hk (in_wide i h),
            bit_of-high 8 (w - 1 - k) i h (omega arith),
          )
          | inr high ↦
              let e : k - n + n ≡ k = omega arith in
              let shifted : bit_of (k - n) (reverse i / 2 ^ n) ≡ bit_of k (reverse i) =
                rw e at (bit_of-shr n (k - n) (reverse i)) in
              ground (arith, bit_of-moved n k (reverse i / 2 ^ n), shifted)
        ]

  -- The entry that the generator makes with both reflections is the byte after eight rounds.
  entry_serial :
      (i : ℕ)
      → i < 256
      → reverse (shift_bits w reverse w poly (reverse i / 2 ^ (w - 8)))
        ≡ rounds (low_round (reverse poly)) 8 i
  entry_serial i h =
      let e : w - 8 ≡ n = omega arith in
      let top = reverse i / 2 ^ n in
      let wide = in_wide i h in
      rw e (
        ap reverse (
          shift_bits-add w reverse poly fits n 8 w top (sym width)
          ∙ ap (shift_bits w reverse 8 poly) (
              shift_bits_plain w reverse poly fits n top (omega arith)
                (rw (top_whole i h) (turn.in_width i wide))
              ∙ top_whole i h))
        ∙ turned_rounds 8 (reverse i) (turn.in_width i wide)
        ∙ ap (rounds (low_round (reverse poly)) 8) (reverse-reverse i wide))

  module _ (next byte : ℕ) (next_fits : next < 2 ^ w) (byte_fits : byte < 256) where
    split_low :
        bit_xor next byte ≡ bit_xor (bit_and (bit_xor next byte) 0xff) (next / 2 ^ 8 * 2 ^ 8)
    split_low =
        let both = bit_xor next byte in
        let high = next / 2 ^ 8 * 2 ^ 8 in
        bit_of_ext w both _ (bit_xor-lt w next byte next_fits (in_wide byte byte_fits))
          (bit_xor-lt w (bit_and both 0xff) high (in_wide _ (byte-lt both)) (omega arith))
          λ k hk. elim (lt-or-ge k 8) [
            | inl low ↦ ground (
              arith,
              bit_of-bit_xor k (bit_and both 0xff) high,
              byte_bits k both,
              bit_of-moved 8 k (next / 2 ^ 8),
              bit_of-le-one k both,
            )
            | inr up ↦
                let e : k - 8 + 8 ≡ k = omega arith in
                let shifted : bit_of (k - 8) (next / 2 ^ 8) ≡ bit_of k next =
                  rw e at (bit_of-shr 8 (k - 8) next) in
                ground (
                  arith,
                  shifted,
                  bit_of-bit_xor k (bit_and both 0xff) high,
                  byte_bits k both,
                  bit_of-moved 8 k (next / 2 ^ 8),
                  bit_of-bit_xor k next byte,
                  bit_of-high 8 k byte byte_fits,
                  bit_of-le-one k next,
                )
          ]

    pub update_low-serial :
        (table : List ℕ)
        → ((i : ℕ)
            → i < 256
            → get_or table i 0 ≡ reverse (shift_bits w reverse w poly (reverse i / 2 ^ (w - 8))))
        → update_low w reverse table next byte ≡ serial_low (reverse poly) next byte
    unfolding update_low serial_low
    update_low-serial table entries =
        let i = bit_and (bit_xor next byte) 0xff in
        let high = next / 2 ^ 8 in
        let eight = rounds (low_round (reverse poly)) 8 in
        let small = in_wide i (byte-lt (bit_xor next byte)) in
        let turned = turn.in_width poly fits in
        ap (bit_xor high)
          (entries i (byte-lt (bit_xor next byte)) ∙ entry_serial i (byte-lt (bit_xor next byte)))
        ∙ bit_xor_comm w high (eight i) (omega arith)
            (low_rounds-lt w (reverse poly) turned 8 i small)
        ∙ ap (bit_xor (eight i)) (sym (low_rounds_plain (reverse poly) 8 high))
        ∙ sym (low_rounds-xor w (reverse poly) turned 8 i (high * 2 ^ 8) small (omega arith))
        ∙ ap eight (sym split_low)
