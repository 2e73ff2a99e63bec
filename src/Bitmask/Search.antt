-- ===== src/Bitmask/Search.antt =====
-- `_bitmask_first_one`: the byte loop and the bit loop against a search of the bits one by one.
use imgeditor.Common.{ℕ, zero, suc, ◌+◌, ◌-◌, ◌*◌, ◌/◌, ◌%◌, ◌^◌, ◌≤◌, ◌<◌, ◌≡◌, refl, arith}
use imgeditor.Common.{inl, inr, Bool, true, false, Option, none, some, not, ◌&&◌}
use imgeditor.Common.{ℤ, pos, minus_one, to_int, to_int_small, lt-or-ge, get_or}
use imgeditor.Common.{
  bit_of, bit_and, bit_xor, bit_of-zero, bit_of-cases, bit_and-pow_clear, bit_and-pow_set,
}
use imgeditor.Common.{bit_of-bit_xor, leb, ◌==◌, if◌then◌else◌, Bool-cases, ==_iff}
use imgeditor.Common.{bit_of-le-one}
use imgeditor.Bitmask.{Bitmask, IsValid, bit_at, scan_bits, first_one_loop, first_one}
use imgeditor.Bitmask.{bitmask_next_one, bitmask_next_zero}
use imgeditor.Bitmask.Write.{bit_of-all_ones}

-- The answer to "which is the first place from `from` on, in `lo .. hi`, where `p` is 1".
pub data IsFirst (p : ℕ → ℕ) (from lo hi : ℕ) : Option ℕ → Type 0 where
  found :
      (r : ℕ)
      → from ≤ r
      → lo ≤ r
      → r < hi
      → p r ≡ 1
      → ((j : ℕ) → from ≤ j → lo ≤ j → j < r → p j ≡ 0)
      → IsFirst p from lo hi (some r)
  absent : ((j : ℕ) → from ≤ j → lo ≤ j → j < hi → p j ≡ 0) → IsFirst p from lo hi none

-- The answer as the `int` that the source returns.
abbrev pub as_int : Option ℕ → ℤ
as_int none = minus_one
as_int (some r) = pos r

module _ (p : ℕ → ℕ) (from : ℕ) where
  -- Nothing in `lo .. mid`, so the search goes on behind it.
  IsFirst-extend :
      {lo mid hi : ℕ} {o : Option ℕ}
      → lo ≤ mid
      → ((j : ℕ) → from ≤ j → lo ≤ j → j < mid → p j ≡ 0)
      → IsFirst p from mid hi o
      → IsFirst p from lo hi o
  IsFirst-extend {mid = mid} low clear (found r a b c e before) =
      found r a (omega arith) c e λ j u v w. elim (lt-or-ge j mid) [
        | inl in_front ↦ clear j u v in_front
        | inr behind ↦ before j u behind w
      ]
  IsFirst-extend {mid = mid} low clear (absent none_left) = absent λ j u v w.
      elim (lt-or-ge j mid) [
        | inl in_front ↦ clear j u v in_front
        | inr behind ↦ none_left j u behind w
      ]

module _ (mask from i : ℕ) where
  -- The bit of the byte that stands for place `x` of the mask.
  place : ℕ → ℕ
  place x = bit_of (i * 8 + 7 - x) mask

  scan_test : (j bit : ℕ) → Bool
  scan_test j bit = leb from bit && not (bit_and mask (1 * 2 ^ j) == 0)

  scan_test_set :
      (j bit : ℕ)
      → bit + suc j ≡ i * 8 + 8
      → scan_test j bit ≡ true
      → (from ≤ bit) × (place bit ≡ 1)
  unfolding scan_test place
  scan_test_set j bit at h =
      let e : i * 8 + 7 - bit ≡ j = omega arith in
      rw e (ground (arith, bit_of-cases j mask, bit_and-pow_clear j mask))

  scan_test_clear :
      (j bit : ℕ) → bit + suc j ≡ i * 8 + 8 → scan_test j bit ≡ false → from ≤ bit → place bit ≡ 0
  unfolding scan_test place
  scan_test_clear j bit at h low =
      let e : i * 8 + 7 - bit ≡ j = omega arith in
      rw e (ground (arith, bit_of-cases j mask, bit_and-pow_set j mask))

  scan_bits-IsFirst :
      (j bit : ℕ)
      → bit + j ≡ i * 8 + 8
      → IsFirst place from bit (i * 8 + 8) (scan_bits j mask from bit)
  unfolding scan_bits scan_test
  scan_bits-IsFirst zero bit at = absent λ j u v w. absurd (omega arith)
  scan_bits-IsFirst (suc j) bit at = elim (Bool-cases (scan_test j bit)) [
    | inl yes_here ↦
        let (low, set) = scan_test_set j bit at yes_here in
        rw yes_here
          (found bit low (omega arith) (omega arith) set (λ k u v w. absurd (omega arith)))
    | inr not_here ↦
        let rest = scan_bits-IsFirst j (bit + 1) (omega arith) in
        rw not_here (
          IsFirst-extend place from (omega arith)
            (λ k u v w.
              let e : k ≡ bit = omega arith in
              rw e (scan_test_clear j bit at not_here (omega arith)))
            rest)
  ]

-- Place `x` of the mask after each byte is combined with `flip`, as `next_zero` and `next_one` do.
abbrev pub flipped : Bitmask → ℕ → ℕ → ℕ
flipped b flip x = bit_of (7 - x % 8) (bit_xor (get_or b.buffer (x / 8) 0) flip)

module _ (b : Bitmask) (from flip : ℕ) where
  -- A byte's places are places of the mask.
  place-flipped :
      (i x : ℕ)
      → i * 8 ≤ x
      → x < i * 8 + 8
      → place (bit_xor (get_or b.buffer i 0) flip) from i x ≡ flipped b flip x
  unfolding place
  place-flipped i x lo hi =
      let e : x / 8 ≡ i = omega arith in
      let e' : i * 8 + 7 - x ≡ 7 - x % 8 = omega arith in rw (e, e')

  IsFirst-flipped :
      (i : ℕ) {o : Option ℕ}
      → IsFirst (place (bit_xor (get_or b.buffer i 0) flip) from i) from (i * 8) (i * 8 + 8) o
      → IsFirst (flipped b flip) from (i * 8) (i * 8 + 8) o
  IsFirst-flipped i (found r u v w e before) =
      found r u v w (rw (← place-flipped i r v w) e)
        (λ j x y z. rw (← place-flipped i j y (omega arith)) (before j x y z))
  IsFirst-flipped i (absent none_left) =
      absent λ j x y z. rw (← place-flipped i j y z) (none_left j x y z)

  -- What the loop does with the answer of one byte.
  after_byte : Option ℕ → ℤ → ℤ
  after_byte none rest = rest
  after_byte (some bit) rest = if leb b.total_bits bit then minus_one else to_int bit

  loop_step :
      (left i : ℕ)
      → first_one_loop (suc left) i b from flip ≡ (
          if bit_xor (get_or b.buffer i 0) flip == 0
          then first_one_loop left (i + 1) b from flip
          else after_byte
              (scan_bits 8 (bit_xor (get_or b.buffer i 0) flip) from (i * 8))
              (first_one_loop left (i + 1) b from flip))
  unfolding first_one_loop after_byte
  loop_step left i = ground arith

  module _ (valid : IsValid b) where
    abbrev Answer : ℕ → ℤ → Type 0
    Answer lo r = (o : Option ℕ) × IsFirst (flipped b flip) from lo b.total_bits o × (r ≡ as_int o)

    after_byte-Answer :
        (lo hi : ℕ) (o : Option ℕ) (rest : ℤ)
        → lo ≤ hi
        → IsFirst (flipped b flip) from lo hi o
        → Answer hi rest
        → Answer lo (after_byte o rest)
    unfolding after_byte
    after_byte-Answer lo hi o rest le (found r u v w e before) more =
        elim (lt-or-ge r b.total_bits) [
          | inl fits ↦ (
            some r,
            found r u v fits e before,
            ground (arith, to_int_small r (omega (arith, valid.in_int))),
          )
          | inr out ↦ (none, absent (λ j x y z. before j x y (omega arith)), ground arith)
        ]
    after_byte-Answer lo hi o rest le (absent none_left) (o', first, e) =
        (o', IsFirst-extend (flipped b flip) from le none_left first, e)

    skip_byte :
        (i : ℕ) (rest : ℤ)
        → bit_xor (get_or b.buffer i 0) flip ≡ 0
        → Answer (i * 8 + 8) rest
        → Answer (i * 8) rest
    unfolding place
    skip_byte i rest e (o, first, answer) = (
      o,
      IsFirst-extend (flipped b flip) from (omega arith)
          (λ j u v w. rw (← place-flipped i j v w, e) (bit_of-zero (i * 8 + 7 - j))) first,
      answer,
    )

    first_one_loop-Answer :
        (left i lo : ℕ)
        → left ≡ b.bufsize - i
        → lo ≡ i * 8
        → Answer lo (first_one_loop left i b from flip)
    first_one_loop-Answer zero i lo end at = (
      none,
      absent (λ j x y z. absurd (omega (arith, valid.sized))),
      unfold first_one_loop in refl,
    )
    first_one_loop-Answer (suc left) i lo end at =
        let mask = bit_xor (get_or b.buffer i 0) flip in
        let rest = first_one_loop-Answer left (i + 1) (i * 8 + 8) (omega arith) (omega arith) in
        elim (Bool-cases (mask == 0)) [
          | inl empty ↦
              rw (at, loop_step left i, empty) (skip_byte i _ ((==_iff mask 0).0 empty) rest)
          | inr some_bit ↦
              rw (at, loop_step left i, some_bit)
                (after_byte-Answer (i * 8) (i * 8 + 8) _ _ (omega arith)
                  (IsFirst-flipped i (scan_bits-IsFirst mask from i 8 (i * 8) refl)) rest)
        ]

    -- The search starts in the byte of `from` and looks at no place before it.
    pub first_one-Answer : Answer 0 (first_one b from flip)
    unfolding first_one
    first_one-Answer =
        let (o, first, e) =
          first_one_loop-Answer (b.bufsize - from / 8) (from / 8) (from / 8 * 8) refl refl in
        (
          o,
          IsFirst-extend (flipped b flip) from (omega arith) (λ j u v w. absurd (omega arith))
              first,
          e,
        )

module _ (p q : ℕ → ℕ) (same : (x : ℕ) → p x ≡ q x) (from lo hi : ℕ) where
  IsFirst-eq : {o : Option ℕ} → IsFirst p from lo hi o → IsFirst q from lo hi o
  IsFirst-eq (found r u v w e before) =
      found r u v w (rw (← same r) e) (λ j x y z. rw (← same j) (before j x y z))
  IsFirst-eq (absent none_left) = absent λ j x y z. rw (← same j) (none_left j x y z)

-- Place `x` as `bitmask_next_zero` looks at it: 1 where the mask has 0.
abbrev pub cleared_at : Bitmask → ℕ → ℕ
cleared_at b x = 1 - bit_at b x

flipped-zero : (b : Bitmask) (x : ℕ) → flipped b 0 x ≡ bit_at b x
flipped-zero b x =
    let byte = get_or b.buffer (x / 8) 0 in
    omega (
      arith,
      bit_of-bit_xor (7 - x % 8) byte 0,
      bit_of-zero (7 - x % 8),
      bit_of-le-one (7 - x % 8) byte,
    )

flipped-ones : (b : Bitmask) (x : ℕ) → flipped b 0xff x ≡ cleared_at b x
flipped-ones b x =
    let byte = get_or b.buffer (x / 8) 0 in
    omega (
      arith,
      bit_of-bit_xor (7 - x % 8) byte 0xff,
      bit_of-all_ones (7 - x % 8) (omega arith),
      bit_of-le-one (7 - x % 8) byte,
    )

-- `bitmask_next_one` returns the first set bit at or after `from_bit`, and -1 exactly if no bit
-- from there to the end of the mask is set.
pub next_one-IsFirst :
    (b : Bitmask) (from_bit : ℕ)
    → IsValid b
    → (o : Option ℕ) × (bitmask_next_one b from_bit ≡ as_int o)
      × IsFirst (bit_at b) from_bit 0 b.total_bits o
unfolding bitmask_next_one
next_one-IsFirst b from_bit valid =
    let (o, first, e) = first_one-Answer b from_bit 0 valid in
    (o, e, IsFirst-eq (flipped b 0) (bit_at b) (flipped-zero b) from_bit 0 b.total_bits first)

-- `bitmask_next_zero` returns the first clear bit at or after `from_bit`, and -1 exactly if every
-- bit from there to the end of the mask is set.
pub next_zero-IsFirst :
    (b : Bitmask) (from_bit : ℕ)
    → IsValid b
    → (o : Option ℕ) × (bitmask_next_zero b from_bit ≡ as_int o)
      × IsFirst (cleared_at b) from_bit 0 b.total_bits o
unfolding bitmask_next_zero
next_zero-IsFirst b from_bit valid =
    let (o, first, e) = first_one-Answer b from_bit 0xff valid in
    (
      o,
      e,
      IsFirst-eq (flipped b 0xff) (cleared_at b) (flipped-ones b) from_bit 0 b.total_bits first,
    )
