-- ===== src/Bitmask/Range.antt =====
-- `_bitmask_write_bits` and its two callers.
use imgeditor.Common.{ℕ, zero, suc, ◌+◌, ◌%◌, ◌^◌, ◌≤◌, ◌<◌, ◌≡◌, refl, ◌∙◌, ap, arith}
use imgeditor.Common.{◌↔◌, ◌⊎◌, inl, inr, Bool, true, some}
use imgeditor.Common.{ltb, false, ◌-◌, pos, to_int, lt-or-ge, eq-or-ne, max}
use imgeditor.Bitmask.{Bitmask, IsValid, bit_at, write_bits_loop, write_bits, minus}
use imgeditor.Bitmask.{bitmask_set_bits, bitmask_unset_bits, bitmask_get}
use imgeditor.Bitmask.Write.{as_bit, written, bitmask_write_in, bitmask_write_out, written-IsValid}
use imgeditor.Bitmask.Write.{bit_at-written_self, bit_at-written_ne, bitmask_get_in}

-- `b'` is `b` with the bits of `lo .. hi` that it has set to `v`, and no other changed.
pub record IsFilled (v : Bool) (lo hi : ℕ) (b b' : Bitmask) : Type 0 where
  pub valid : IsValid b'
  pub same_total : b'.total_bits ≡ b.total_bits
  pub inside : (j : ℕ) → lo ≤ j → j < hi → j < b.total_bits → bit_at b' j ≡ as_bit v
  pub outside : (j : ℕ) → (j < lo) ⊎ (hi ≤ j) → bit_at b' j ≡ bit_at b j

total_bits-written : (b : Bitmask) (k : ℕ) (v : Bool) → (written b k v).total_bits ≡ b.total_bits
unfolding written
total_bits-written b k v = refl

module _ (from_bit : ℕ) (v : Bool) where
  loop_in :
      (left i k : ℕ) (b : Bitmask) (failed : ℕ)
      → (from_bit + i) % 2 ^ 64 ≡ k
      → k < b.total_bits
      → write_bits_loop (suc left) i b failed from_bit v
        ≡ write_bits_loop left (i + 1) (written b k v) failed from_bit v
  unfolding write_bits_loop
  loop_in left i k b failed e h =
      rw (e, write_bits_loop) (rw (bitmask_write_in b k v h, write_bits_loop))

  loop_out :
      (left i k : ℕ) (b : Bitmask) (failed : ℕ)
      → (from_bit + i) % 2 ^ 64 ≡ k
      → b.total_bits ≤ k
      → write_bits_loop (suc left) i b failed from_bit v
        ≡ write_bits_loop left (i + 1) b (failed + 1) from_bit v
  unfolding write_bits_loop
  loop_out left i k b failed e h =
      rw (e, write_bits_loop) (rw (bitmask_write_out b k v h, write_bits_loop))

  IsFilled-written :
      (k hi : ℕ) (b b' : Bitmask)
      → IsValid b
      → k < b.total_bits
      → k < hi
      → IsFilled v (k + 1) hi (written b k v) b'
      → IsFilled v k hi b b'
  unfolding written
  IsFilled-written k hi b b' valid h below rest = record {
    valid = rest.valid;
    same_total = rest.same_total;
    inside = λ j lo up fits. elim (eq-or-ne k j) [
      | inl e ↦ rest.outside j (omega arith) ∙ rw (← e) (bit_at-written_self b valid k v h)
      | inr ne ↦ rest.inside j (omega arith) up fits
    ];
    outside =
        λ j out. rest.outside j (omega arith) ∙ bit_at-written_ne b valid k v h j (omega arith);
  }

  IsFilled-skipped :
      (k hi : ℕ) (b b' : Bitmask)
      → b.total_bits ≤ k
      → k < hi
      → IsFilled v (k + 1) hi b b'
      → IsFilled v k hi b b'
  IsFilled-skipped k hi b b' past below rest = record {
    valid = rest.valid;
    same_total = rest.same_total;
    inside = λ j lo up fits. absurd (omega arith);
    outside = λ j out. rest.outside j (omega arith);
  }

  pub loop-IsFilled :
      (left i : ℕ) (b : Bitmask) (failed k hi : ℕ)
      → IsValid b
      → from_bit + i ≡ k
      → k + left ≡ hi
      → hi ≤ 2 ^ 64
      → IsFilled v k hi b (write_bits_loop left i b failed from_bit v).0
        × ((write_bits_loop left i b failed from_bit v).1 + max k b.total_bits
            ≡ failed + max hi b.total_bits)
  loop-IsFilled zero i b failed k hi valid at end fits =
      unfold write_bits_loop in
      (
        record {
          valid = valid;
          same_total = refl;
          inside = λ j lo up fits. absurd (omega arith);
          outside = λ j out. refl;
        },
        omega arith,
      )
  loop-IsFilled (suc left) i b failed k hi valid at end fits = elim (lt-or-ge k b.total_bits) [
    | inl inside ↦
        let next = written b k v in
        let (filled, count) =
          loop-IsFilled left (i + 1) next failed (k + 1) hi (written-IsValid b valid k v inside)
            (omega arith) (omega arith) fits in
        rw (loop_in left i k b failed (omega arith) inside) (
          IsFilled-written k hi b _ valid inside (omega arith) filled,
          omega (arith, count, total_bits-written b k v),
        )
    | inr past ↦
        let (filled, count) =
          loop-IsFilled left (i + 1) b (failed + 1) (k + 1) hi valid (omega arith) (omega arith)
            fits in
        rw (loop_out left i k b failed (omega arith) past)
          (IsFilled-skipped k hi b _ past (omega arith) filled, omega (arith, count))
  ]

set_bits_fills :
    (b : Bitmask) (from_bit bits : ℕ)
    → IsValid b
    → from_bit + bits ≤ 2 ^ 64
    → IsFilled true from_bit (from_bit + bits) b (bitmask_set_bits b from_bit bits).0
set_bits_fills b from_bit bits valid fits =
    let (filled, count) =
      loop-IsFilled from_bit true bits 0 b 0 from_bit (from_bit + bits) valid (omega arith) refl
        fits in
    unfold bitmask_set_bits write_bits in filled

-- Up to 2^31 failures the sum of the returns is 0 only if there is none.
minus-zero : (failed : ℕ) → failed ≤ 2 ^ 31 → (minus failed ≡ pos 0) ↔ (failed ≡ 0)
unfolding minus to_int
minus-zero failed few = elim (eq-or-ne failed 0) [
  | inl none_failed ↦ (λ e. none_failed, λ e. rw none_failed refl)
  | inr some_failed ↦
      let negative : ltb (((2 ^ 32 - failed % 2 ^ 32) % 2 ^ 32) % 2 ^ 32) (2 ^ 31) ≡ false =
        ground arith in
      (λ e. absurd (grind (arith, negative, e)), λ e. absurd (omega (arith, e)))
]

none_failed :
    (failed lo bits total : ℕ)
    → failed + max lo total ≡ 0 + max (lo + bits) total
    → (failed ≡ 0) ↔ ((bits ≡ 0) ⊎ (lo + bits ≤ total))
none_failed failed lo bits total count =
    let empty : failed ≡ 0 → (bits ≡ 0) ⊎ (lo + bits ≤ total) = λ e.
      elim (lt-or-ge total (lo + bits)) [
        | inr fits ↦ inr fits
        | inl past ↦ inl (omega (arith, count, e))
      ] in
    let full : (bits ≡ 0) ⊎ (lo + bits ≤ total) → failed ≡ 0 = λ o. omega (arith, count, o) in
    (empty, full)

-- `bitmask_set_bits` on a range of at most 2^31 bits that does not wrap `size_t` sets the bits of
-- the range that the mask has, changes no other, and returns 0 exactly if the range is empty or lies
-- in the mask.
pub set_bits-IsFilled :
    (b : Bitmask) (from_bit bits : ℕ)
    → IsValid b
    → from_bit + bits ≤ 2 ^ 64
    → bits ≤ 2 ^ 31
    → IsFilled true from_bit (from_bit + bits) b (bitmask_set_bits b from_bit bits).0
      × (((bitmask_set_bits b from_bit bits).1 ≡ pos 0)
          ↔ ((bits ≡ 0) ⊎ (from_bit + bits ≤ b.total_bits)))
set_bits-IsFilled b from_bit bits valid fits few =
    let (filled, count) =
      loop-IsFilled from_bit true bits 0 b 0 from_bit (from_bit + bits) valid (omega arith) refl
        fits in
    let failed = (write_bits_loop bits 0 b 0 from_bit true).1 in
    let zero_iff = minus-zero failed (omega (arith, count)) in
    let failed_iff = none_failed failed from_bit bits b.total_bits count in
    unfold bitmask_set_bits write_bits in
    (filled, (λ e. failed_iff.0 (zero_iff.0 e), λ e. zero_iff.1 (failed_iff.1 e)))

-- `bitmask_unset_bits` sets the bits of a range in the mask: a bit that was clear reads as 1.
pub unset_bits_sets :
    (b : Bitmask) (from_bit bits i : ℕ)
    → IsValid b
    → from_bit + bits ≤ 2 ^ 64
    → from_bit ≤ i
    → i < from_bit + bits
    → i < b.total_bits
    → bitmask_get (bitmask_unset_bits b from_bit bits).0 i ≡ some 1
unset_bits_sets b from_bit bits i valid fits lo hi inside =
    let filled = set_bits_fills b from_bit bits valid fits in
    let b' = (bitmask_set_bits b from_bit bits).0 in
    let reads : bitmask_get b' i ≡ some 1 =
      bitmask_get_in b' i (omega (arith, filled.same_total))
      ∙ ap some (filled.inside i lo hi inside) in
    unfold bitmask_unset_bits bitmask_set_bits in reads
