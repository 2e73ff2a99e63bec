-- ===== src/Bitmask/Write.antt =====
-- `bitmask_write` and `bitmask_get` against the bits that the mask stands for.
use imgeditor.Common.{ℕ, ◌-◌, ◌*◌, ◌/◌, ◌%◌, ◌^◌, ◌≤◌, ◌<◌, ◌≡◌, refl, ◌∙◌, arith}
use imgeditor.Common.{◌≢◌, ◌⊎◌, inl, inr, Bool, true, false, none, some, length, get_or}
use imgeditor.Common.{set, length-set, get_or-set_self, get_or-set_ne}
use imgeditor.Common.{
  bit_of, bit_and, bit_or, bit_xor, bit_of-bit_and, bit_of-bit_or, bit_of-bit_xor,
}
use imgeditor.Common.{bit_of-pow_self, bit_of-pow_ne, bit_of-le-one, bit_of-cases}
use imgeditor.Common.{bit_and-pow_clear, bit_and-pow_set, bit_and-lt, bit_or-lt}
use imgeditor.Common.{agree_below, agree_below→eq, leb, ◌==◌, if◌then◌else◌, eq-or-ne, lt-or-ge}
use imgeditor.Bitmask.{Bitmask, IsValid, bit_at, bitmask_write, bitmask_get}

pub one_shift : (k : ℕ) → k < 8 → 1 * 2 ^ k % 2 ^ 8 ≡ 2 ^ k
unfolding agree_below
one_shift = agree_below→eq (λ k. 1 * 2 ^ k % 2 ^ 8) (λ k. 2 ^ k) 8 refl

pub bit_of-all_ones : (k : ℕ) → k < 8 → bit_of k 0xff ≡ 1
unfolding agree_below
bit_of-all_ones = agree_below→eq (λ k. bit_of k 0xff) (λ k. 1) 8 refl

pub pow-lt_byte : (k : ℕ) → k < 8 → 2 ^ k < 2 ^ 8
pow-lt_byte k h = omega (arith, one_shift k h)

-- The byte that `bitmask_write` stores.
unfoldable pub stored : Bool → ℕ → ℕ → ℕ
stored v old bit =
    if v then bit_or old (1 * 2 ^ bit % 2 ^ 8) else bit_and old (bit_xor 0xff (1 * 2 ^ bit % 2 ^ 8))

abbrev pub as_bit : Bool → ℕ
as_bit v = if v then 1 else 0

stored-lt : (v : Bool) (old bit : ℕ) → old < 2 ^ 8 → bit < 8 → stored v old bit < 2 ^ 8
unfolding stored
stored-lt true old bit h k = rw (one_shift bit k) (bit_or-lt 8 old (2 ^ bit) h (pow-lt_byte bit k))
stored-lt false old bit h k = bit_and-lt 8 old (bit_xor 0xff (1 * 2 ^ bit % 2 ^ 8)) h

bit_of-stored_self : (v : Bool) (old bit : ℕ) → bit < 8 → bit_of bit (stored v old bit) ≡ as_bit v
unfolding stored
bit_of-stored_self true old bit k =
    rw (one_shift bit k)
      (omega (arith, bit_of-bit_or bit old (2 ^ bit), bit_of-pow_self bit, bit_of-le-one bit old))
bit_of-stored_self false old bit k = rw (one_shift bit k) (
    omega (
      arith,
      bit_of-bit_and bit old (bit_xor 0xff (2 ^ bit)),
      bit_of-bit_xor bit 0xff (2 ^ bit),
      bit_of-all_ones bit k,
      bit_of-pow_self bit,
    ))

bit_of-stored_ne :
    (v : Bool) (old bit k : ℕ)
    → bit < 8
    → k < 8
    → (k < bit) ⊎ (bit < k)
    → bit_of k (stored v old bit) ≡ bit_of k old
unfolding stored
bit_of-stored_ne true old bit k h hk ne =
    rw (one_shift bit h)
      (omega (arith, bit_of-bit_or k old (2 ^ bit), bit_of-pow_ne k bit (omega arith)))
bit_of-stored_ne false old bit k h hk ne = rw (one_shift bit h) (
    omega (
      arith,
      bit_of-bit_and k old (bit_xor 0xff (2 ^ bit)),
      bit_of-bit_xor k 0xff (2 ^ bit),
      bit_of-all_ones k hk,
      bit_of-pow_ne k bit (omega arith),
      bit_of-le-one k old,
    ))

-- The mask that it leaves behind.
unfoldable pub written : Bitmask → ℕ → Bool → Bitmask
written b i v = record b {
  buffer = set b.buffer (i / 8) (stored v (get_or b.buffer (i / 8) 0) (7 - i % 8));
}

pub bitmask_write_in :
    (b : Bitmask) (i : ℕ) (v : Bool) → i < b.total_bits → bitmask_write b i v ≡ some (written b i v)
unfolding bitmask_write written stored
bitmask_write_in b i true h = ground arith
bitmask_write_in b i false h = ground arith

pub bitmask_write_out :
    (b : Bitmask) (i : ℕ) (v : Bool) → b.total_bits ≤ i → bitmask_write b i v ≡ none
unfolding bitmask_write
bitmask_write_out b i v h = ground arith

module _ (b : Bitmask) (valid : IsValid b) (i : ℕ) (v : Bool) (inside : i < b.total_bits) where
  in_buffer : i / 8 < length b.buffer
  in_buffer = omega (arith, valid.sized, valid.filled)

  -- The write stays inside the buffer and keeps the mask well formed.
  pub written-IsValid : IsValid (written b i v)
  unfolding written
  written-IsValid =
      let old = get_or b.buffer (i / 8) 0 in
      let value = stored v old (7 - i % 8) in
      record {
        sized = valid.sized;
        filled = length-set b.buffer (i / 8) value ∙ valid.filled;
        bytes = λ j. ground (
          arith,
          valid.bytes j,
          in_buffer,
          stored-lt v old (7 - i % 8) (valid.bytes (i / 8)) (omega arith),
          eq-or-ne (i / 8) j,
          get_or-set_self b.buffer (i / 8) value 0,
          get_or-set_ne b.buffer (i / 8) j value 0,
        );
        in_int = valid.in_int;
      }

  same_byte :
      (j : ℕ)
      → i / 8 ≡ j / 8
      → get_or (written b i v).buffer (j / 8) 0 ≡ stored v (get_or b.buffer (i / 8) 0) (7 - i % 8)
  unfolding written
  same_byte j e = rw (← e) (get_or-set_self b.buffer (i / 8) _ 0 in_buffer)

  other_byte :
      (j : ℕ) → i / 8 ≢ j / 8 → get_or (written b i v).buffer (j / 8) 0 ≡ get_or b.buffer (j / 8) 0
  unfolding written
  other_byte j ne = get_or-set_ne b.buffer (i / 8) (j / 8) _ 0 ne

  pub bit_at-written_self : bit_at (written b i v) i ≡ as_bit v
  bit_at-written_self =
      rw (same_byte i refl)
        (bit_of-stored_self v (get_or b.buffer (i / 8) 0) (7 - i % 8) (omega arith))

  pub bit_at-written_ne : (j : ℕ) → i ≢ j → bit_at (written b i v) j ≡ bit_at b j
  bit_at-written_ne j ne = elim (eq-or-ne (i / 8) (j / 8)) [
    | inl e ↦ rw (same_byte j e) (
        bit_of-stored_ne v (get_or b.buffer (i / 8) 0) (7 - i % 8) (7 - j % 8) (omega arith)
          (omega arith) (omega arith)
        ∙ rw e)
    | inr apart ↦ rw (other_byte j (omega arith))
  ]

pub bitmask_get_in : (b : Bitmask) (i : ℕ) → i < b.total_bits → bitmask_get b i ≡ some (bit_at b i)
unfolding bitmask_get
bitmask_get_in b i h = elim (bit_of-cases (7 - i % 8) (get_or b.buffer (i / 8) 0)) [
  | inl e ↦ ground (arith, bit_and-pow_clear (7 - i % 8) (get_or b.buffer (i / 8) 0))
  | inr e ↦ ground (arith, bit_and-pow_set (7 - i % 8) (get_or b.buffer (i / 8) 0))
]

pub bitmask_get_out : (b : Bitmask) (i : ℕ) → b.total_bits ≤ i → bitmask_get b i ≡ none
unfolding bitmask_get
bitmask_get_out b i h = ground arith

module _ (b : Bitmask) (valid : IsValid b) (i : ℕ) (v : Bool) (inside : i < b.total_bits) where
  total_bits-written : (written b i v).total_bits ≡ b.total_bits
  unfolding written
  total_bits-written = refl

  get-written :
      (j : ℕ)
      → bitmask_get (written b i v) j
        ≡ (if leb b.total_bits j then none else if i == j then some (as_bit v) else bitmask_get b j)
  get-written j = ground (
    arith,
    total_bits-written,
    eq-or-ne i j,
    lt-or-ge j b.total_bits,
    bitmask_get_in b j,
    bitmask_get_in (written b i v) j,
    bitmask_get_out (written b i v) j,
    bit_at-written_self b valid i v inside,
    bit_at-written_ne b valid i v inside j,
  )

-- `bitmask_write` of a bit outside the mask returns -1. Inside, it leaves a well-formed mask on which
-- `bitmask_get` reads the new value at that bit and the old value at every other, and outside the
-- mask `bitmask_get` returns -1.
pub get-write :
    (b : Bitmask) (i j : ℕ) (v : Bool)
    → IsValid b
    → (b.total_bits ≤ i → bitmask_write b i v ≡ none)
      × (i < b.total_bits
          → (b' : Bitmask) × (bitmask_write b i v ≡ some b')
            × IsValid b'
            × (b'.total_bits ≡ b.total_bits)
            × (bitmask_get b' j ≡ (
                if leb b.total_bits j
                then none
                else if i == j
                then some (as_bit v)
                else bitmask_get b j)))
unfolding written
get-write b i j v valid = (
  bitmask_write_out b i v,
  λ inside. (
    written b i v,
    bitmask_write_in b i v inside,
    written-IsValid b valid i v inside,
    refl,
    get-written b valid i v inside j,
  ),
)
