-- ===== src/Bitmask/Contents.antt =====
-- What the operations on a whole mask leave in its bits.
use imgeditor.Common.{ℕ, ◌+◌, ◌-◌, ◌*◌, ◌/◌, ◌%◌, ◌^◌, ◌≤◌, ◌<◌, ◌≡◌, refl, ◌∙◌, ap, arith}
use imgeditor.Common.{◌≢◌, inl, inr, true, false, none, some, List, ◌++◌, lt-or-ge}
use imgeditor.Common.{
  replicate, length, get_or, get_or-replicate, length-replicate, get_or-out, get_or_ext, drop,
}
use imgeditor.Common.{
  length-append, length-drop, bit_of, bit_xor, bit_of-bit_xor, bit_of-zero, bit_xor-lt,
}
use imgeditor.Common.{agree_below, agree_below→eq, if◌then◌else◌, ==_iff, ltb, bit_of-le-one}
use imgeditor.Common.{get_or-append_left, get_or-append_right, get_or-drop}
use imgeditor.Bitmask.{
  Bitmask, IsValid, bit_at, aligned_bytes, alloc_bitmask, bitmask_memcpy, bitmask_not,
}
use imgeditor.Bitmask.{bitmask_memcpy_lsbfirst, bitmask_xor, for_bytes, reverse8}
use imgeditor.Bitmask.Bytes.{length-for_bytes, for_bytes_inside, for_bytes_outside}
use imgeditor.Bitmask.Write.{bit_of-all_ones}

-- `b'` is a well-formed mask of `total` bits, and bit `j` of it is `bits j`.
pub record Holds (total : ℕ) (bits : ℕ → ℕ) (b' : Bitmask) : Type 0 where
  pub valid : IsValid b'
  pub same_total : b'.total_bits ≡ total
  pub holds : (j : ℕ) → j < total → bit_at b' j ≡ bits j

-- For fewer than 2^31 bits `alloc_bitmask` makes a well-formed mask of that many bits, all clear, or
-- gives NULL if there is no memory.
pub alloc_bitmask-Holds :
    (total : ℕ)
    → total < 2 ^ 31
    → (alloc_bitmask false total ≡ none)
      × (b : Bitmask) × (alloc_bitmask true total ≡ some b)
      × Holds total (λ j. 0) b
unfolding alloc_bitmask
alloc_bitmask-Holds total small =
    let n = aligned_bytes total in
    (
      refl,
      _,
      refl,
      record {
        valid = record {
          sized = omega arith;
          filled = length-replicate {A = ℕ} n 0;
          bytes = λ i. zero_byte n i;
          in_int = small;
        };
        same_total = refl;
        holds = λ j h.
            rw (get_or-replicate {A = ℕ} n (j / 8) 0 0 (omega arith)) (bit_of-zero (7 - j % 8));
      },
    )
  where
    zero_byte : (n i : ℕ) → get_or (replicate n 0) i 0 < 2 ^ 8
    zero_byte n i = elim (lt-or-ge i n) [
      | inl h ↦ rw (get_or-replicate {A = ℕ} n i 0 0 h) (omega arith)
      | inr h ↦
          rw (get_or-out {A = ℕ} (replicate n 0) i 0 (omega (arith, length-replicate {A = ℕ} n 0)))
            (omega arith)
    ]

-- A loop over all bytes of a well-formed mask, each mapped to a byte.
module _ (f : ℕ → ℕ → ℕ) (b : Bitmask) (valid : IsValid b)
    (keeps : (i x : ℕ) → x < 2 ^ 8 → f i x < 2 ^ 8) where
  abbrev mapped : Bitmask
  mapped = record b { buffer = for_bytes f b.bufsize 0 b.buffer }

  mapped_byte : (i : ℕ) → i < b.bufsize → get_or mapped.buffer i 0 ≡ f i (get_or b.buffer i 0)
  mapped_byte i h =
      for_bytes_inside f b.bufsize 0 b.buffer i (omega (arith, valid.filled)) (omega arith)
        (omega arith)

  mapped-IsValid : IsValid mapped
  mapped-IsValid = record {
    sized = valid.sized;
    filled = length-for_bytes f b.bufsize 0 b.buffer ∙ valid.filled;
    bytes = λ i. elim (lt-or-ge i b.bufsize) [
      | inl h ↦ rw (mapped_byte i h) (keeps i (get_or b.buffer i 0) (valid.bytes i))
      | inr h ↦ rw (for_bytes_outside f b.bufsize 0 b.buffer i (inr (omega arith))) (valid.bytes i)
    ];
    in_int = valid.in_int;
  }

  mapped_bit :
      (j : ℕ)
      → j < b.total_bits
      → bit_at mapped j ≡ bit_of (7 - j % 8) (f (j / 8) (get_or b.buffer (j / 8) 0))
  mapped_bit j h = rw (mapped_byte (j / 8) (omega (arith, valid.sized)))

-- `bitmask_not` turns over every bit of the mask.
pub bitmask_not-Holds :
    (b : Bitmask)
    → IsValid b
    → (b' : Bitmask) × (bitmask_not (some b) ≡ some b')
      × Holds b.total_bits (λ j. 1 - bit_at b j) b'
unfolding bitmask_not
bitmask_not-Holds b valid =
    let f = λ (i x : ℕ). bit_xor x 0xff in
    let keeps : (i x : ℕ) → x < 2 ^ 8 → f i x < 2 ^ 8 =
      λ i x h. bit_xor-lt 8 x 0xff h (omega arith) in
    (
      _,
      refl,
      record {
        valid = mapped-IsValid f b valid keeps;
        same_total = refl;
        holds = λ j h.
            mapped_bit f b valid keeps j h
            ∙ omega (
              arith,
              bit_of-bit_xor (7 - j % 8) (get_or b.buffer (j / 8) 0) 0xff,
              bit_of-all_ones (7 - j % 8) (omega arith),
              bit_of-le-one (7 - j % 8) (get_or b.buffer (j / 8) 0),
            );
      },
    )

flip_twice : (x : ℕ) → x < 256 → bit_xor (bit_xor x 0xff) 0xff ≡ x
unfolding agree_below
flip_twice = agree_below→eq (λ x. bit_xor (bit_xor x 0xff) 0xff) (λ x. x) 256 refl

-- Turning a mask over twice gives the same mask back, its padding bits included.
pub bitmask_not-not : (b : Bitmask) → IsValid b → bitmask_not (bitmask_not (some b)) ≡ some b
unfolding bitmask_not
bitmask_not-not b valid = ap (λ (l : List ℕ). some (record b { buffer = l })) same
  where
    f : ℕ → ℕ → ℕ
    f i x = bit_xor x 0xff

    keeps : (i x : ℕ) → x < 2 ^ 8 → f i x < 2 ^ 8
    keeps i x h = bit_xor-lt 8 x 0xff h (omega arith)

    once : Bitmask
    once = mapped f b valid keeps

    once-IsValid : IsValid once
    once-IsValid = mapped-IsValid f b valid keeps

    same : (mapped f once once-IsValid keeps).buffer ≡ b.buffer
    same =
        get_or_ext 0 _ b.buffer
          (length-for_bytes f b.bufsize 0 once.buffer ∙ length-for_bytes f b.bufsize 0 b.buffer)
          λ i h.
            let fits : i < b.bufsize = omega (
              arith,
              valid.filled,
              length-for_bytes f b.bufsize 0 once.buffer,
              length-for_bytes f b.bufsize 0 b.buffer,
            ) in
            mapped_byte f once once-IsValid keeps i fits
            ∙ ap (f i) (mapped_byte f b valid keeps i fits)
            ∙ flip_twice (get_or b.buffer i 0) (valid.bytes i)

module _ (a b : Bitmask) (va : IsValid a) (vb : IsValid b) where
  differing : ℕ → ℕ → ℕ
  differing i x = bit_xor (get_or a.buffer i 0) (get_or b.buffer i 0)

  differing-lt : (i x : ℕ) → x < 2 ^ 8 → differing i x < 2 ^ 8
  unfolding differing
  differing-lt i x h = bit_xor-lt 8 _ _ (va.bytes i) (vb.bytes i)

  xor_returns :
      (r : Bitmask)
      → a.total_bits ≡ b.total_bits
      → alloc_bitmask true a.total_bits ≡ some r
      → IsValid r
      → r.total_bits ≡ a.total_bits
      → bitmask_xor true a b ≡ some (record r { buffer = for_bytes differing r.bufsize 0 r.buffer })
  unfolding bitmask_xor differing
  xor_returns r same alloc vr total =
      let e : b.bufsize ≡ r.bufsize = omega (arith, vb.sized, vr.sized) in
      rw ((==_iff a.total_bits b.total_bits).1 same, alloc, e)

  xor-Holds :
      a.total_bits ≡ b.total_bits
      → (c : Bitmask) × (bitmask_xor true a b ≡ some c)
        × Holds a.total_bits (λ j. (bit_at a j + bit_at b j) % 2) c
  unfolding differing
  xor-Holds same =
      let (no_memory, r, alloc, fresh) = alloc_bitmask-Holds a.total_bits va.in_int in
      (
        mapped differing r fresh.valid differing-lt,
        xor_returns r same alloc fresh.valid fresh.same_total,
        record {
          valid = mapped-IsValid differing r fresh.valid differing-lt;
          same_total = fresh.same_total;
          holds = λ j h.
              mapped_bit differing r fresh.valid differing-lt j (omega (arith, fresh.same_total))
              ∙ bit_of-bit_xor (7 - j % 8) (get_or a.buffer (j / 8) 0) (get_or b.buffer (j / 8) 0);
        },
      )

-- `bitmask_xor` gives NULL on masks of different sizes or without memory, and otherwise a mask
-- whose bits are those in which the two differ.
pub bitmask_xor-Holds :
    (a b : Bitmask)
    → IsValid a
    → IsValid b
    → (bitmask_xor false a b ≡ none)
      × (a.total_bits ≢ b.total_bits → bitmask_xor true a b ≡ none)
      × (a.total_bits ≡ b.total_bits
          → (c : Bitmask) × (bitmask_xor true a b ≡ some c)
            × Holds a.total_bits (λ j. (bit_at a j + bit_at b j) % 2) c)
unfolding bitmask_xor
bitmask_xor-Holds a b va vb =
    (unfold alloc_bitmask in ground arith, λ differ. ground arith, xor-Holds a b va vb)

-- `reverse8` turns a byte round.
reverse8_bits : (n : ℕ) → n < 2048 → bit_of (7 - n % 8) (reverse8 (n / 8)) ≡ bit_of (n % 8) (n / 8)
unfolding agree_below reverse8
reverse8_bits =
    agree_below→eq (λ n. bit_of (7 - n % 8) (reverse8 (n / 8))) (λ n. bit_of (n % 8) (n / 8)) 2048
      refl

reverse8_bit : (x k : ℕ) → x < 2 ^ 8 → k < 8 → bit_of (7 - k) (reverse8 x) ≡ bit_of k x
reverse8_bit x k hx hk =
    let e : (8 * x + k) / 8 ≡ x = omega arith in
    let e' : (8 * x + k) % 8 ≡ k = omega arith in
    rw (e, e') at (reverse8_bits (8 * x + k) (omega arith))

reverse8-lt : (x : ℕ) → reverse8 x < 2 ^ 8
unfolding reverse8
reverse8-lt x = omega arith

-- Bit `j` of what `bitmask_memcpy_lsbfirst` leaves: the source's bits count from the lowest of
-- each byte, and behind them the mask keeps its own.
abbrev pub lsbfirst_bits : Bitmask → List ℕ → ℕ → ℕ
lsbfirst_bits b src j =
    if ltb (j / 8) (length src) then bit_of (j % 8) (get_or src (j / 8) 0) else bit_at b j

module _ (b : Bitmask) (valid : IsValid b) (src : List ℕ) (bytes : (i : ℕ) → get_or src i 0 < 2 ^ 8)
    (fits : length src ≤ b.bufsize) where
  copied : List ℕ
  copied = src ++ drop (length src) b.buffer

  result : List ℕ
  result = for_bytes (λ i x. reverse8 x) (length src) 0 copied

  length-copied : length copied ≡ b.bufsize
  unfolding copied
  length-copied = omega (
    arith,
    length-append src (drop (length src) b.buffer),
    length-drop (length src) b.buffer,
    valid.filled,
  )

  result_front : (i : ℕ) → i < length src → get_or result i 0 ≡ reverse8 (get_or src i 0)
  unfolding result
  result_front i h =
      for_bytes_inside (λ i x. reverse8 x) (length src) 0 copied i (omega (arith, length-copied))
        (omega arith) (omega arith)
      ∙ ap reverse8 (unfold copied in get_or-append_left src (drop (length src) b.buffer) i 0 h)

  result_back : (i : ℕ) → length src ≤ i → get_or result i 0 ≡ get_or b.buffer i 0
  unfolding result copied
  result_back i h =
      for_bytes_outside (λ i x. reverse8 x) (length src) 0 copied i (inr (omega arith))
      ∙ get_or-append_right src (drop (length src) b.buffer) i (i - length src) 0 (omega arith)
      ∙ get_or-drop (length src) b.buffer (i - length src) i 0 (omega arith)

  result-lt : (i : ℕ) → get_or result i 0 < 2 ^ 8
  result-lt i = elim (lt-or-ge i (length src)) [
    | inl h ↦ rw (result_front i h) (reverse8-lt (get_or src i 0))
    | inr h ↦ rw (result_back i h) (valid.bytes i)
  ]

  result_bit : (j : ℕ) → bit_of (7 - j % 8) (get_or result (j / 8) 0) ≡ lsbfirst_bits b src j
  result_bit j = elim (lt-or-ge (j / 8) (length src)) [
    | inl h ↦
        rw (result_front (j / 8) h)
          (reverse8_bit (get_or src (j / 8) 0) (j % 8) (bytes (j / 8)) (omega arith) ∙ ground arith)
    | inr h ↦ rw (result_back (j / 8) h) (ground arith)
  ]

-- `bitmask_memcpy_lsbfirst` refuses a source that is longer than the buffer, and otherwise writes
-- the source's bits, lowest first in each byte, and leaves the bits behind them.
pub memcpy_lsbfirst-Holds :
    (b : Bitmask) (src : List ℕ)
    → IsValid b
    → ((i : ℕ) → get_or src i 0 < 2 ^ 8)
    → (b.bufsize < length src → bitmask_memcpy_lsbfirst (some b) src ≡ none)
      × (length src ≤ b.bufsize
          → (b' : Bitmask) × (bitmask_memcpy_lsbfirst (some b) src ≡ some b')
            × Holds b.total_bits (lsbfirst_bits b src) b')
unfolding bitmask_memcpy_lsbfirst bitmask_memcpy result copied
memcpy_lsbfirst-Holds b src valid bytes = (
  λ long. ground arith,
  λ fits. (
    record b { buffer = result b valid src bytes fits },
    ground arith,
    record {
      valid = record {
        sized = valid.sized;
        filled =
            length-for_bytes (λ i x. reverse8 x) (length src) 0 (copied b valid src bytes fits)
            ∙ length-copied b valid src bytes fits;
        bytes = result-lt b valid src bytes fits;
        in_int = valid.in_int;
      };
      same_total = refl;
      holds = λ j h. result_bit b valid src bytes fits j;
    },
  ),
)
