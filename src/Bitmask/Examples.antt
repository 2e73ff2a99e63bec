-- ===== src/Bitmask/Examples.antt =====
-- The bitmask's theorems at concrete masks, and runs of its operations.
use imgeditor.Common.{ℕ, zero, suc, ◌+◌, ◌-◌, ◌%◌, ◌^◌, ◌≤◌, ◌<◌, ◌≡◌, refl, ◌≢◌, ◌↔◌, ◌⊎◌, arith}
use imgeditor.Common.{
  true, false, Option, none, some, List, [], ◌∷◌, get_or, length, leb, ◌==◌, if◌then◌else◌,
}
use imgeditor.Common.{ℤ, pos, to_int}
use imgeditor.Bitmask.{
  Bitmask, IsValid, bit_at, alloc_bitmask, bitmask_write, bitmask_get, bitmask_not,
}
use imgeditor.Bitmask.{bitmask_set_bits, bitmask_unset_bits, bitmask_next_one, bitmask_next_zero}
use imgeditor.Bitmask.{first_one, first_one_loop, scan_bits, bitmask_xor}
use imgeditor.Bitmask.{bitmask_memcpy_lsbfirst}
use imgeditor.Bitmask.Write.{get-write}
use imgeditor.Bitmask.Range.{IsFilled, set_bits-IsFilled, unset_bits_sets}
use imgeditor.Bitmask.Search.{as_int, IsFirst, cleared_at, next_one-IsFirst, next_zero-IsFirst}
use imgeditor.Bitmask.Contents.{Holds, alloc_bitmask-Holds, bitmask_not-Holds}
use imgeditor.Bitmask.Contents.{bitmask_xor-Holds, lsbfirst_bits, memcpy_lsbfirst-Holds}
use imgeditor.Bitmask.Iterator.{
  foreach_continue, foreach_loop, iterator_init, iterator_next, update,
}
use imgeditor.Bitmask.Iterator.{IsRuns}
use imgeditor.Bitmask.Iterator.Runs.{foreach_continue-IsRuns}

-- Twelve bits, of which 1, 2, 3, 8 and 11 are set.
abbrev twelve : Bitmask
twelve = record { total_bits = 12; bufsize = 2; buffer = 0x70 ∷ 0x90 ∷ [] }

twelve_bytes : (i : ℕ) → get_or twelve.buffer i 0 < 2 ^ 8
twelve_bytes zero = omega arith
twelve_bytes (suc zero) = omega arith
twelve_bytes (suc (suc i)) = omega arith

twelve-IsValid : IsValid twelve
twelve-IsValid = record { sized = refl; filled = refl; bytes = twelve_bytes; in_int = omega arith }

-- The runs of the mask, as the iterator visits them.
twelve_runs :
    foreach_continue twelve ≡ some ((pos 1, pos 3) ∷ (pos 8, pos 1) ∷ (pos 11, pos 1) ∷ [])
unfolding foreach_continue foreach_loop iterator_init iterator_next update bitmask_next_one
    bitmask_next_zero first_one first_one_loop scan_bits to_int
twelve_runs = refl

get-write_example :
    (12 ≤ 5 → bitmask_write twelve 5 true ≡ none)
    × (5 < 12
        → (b' : Bitmask) × (bitmask_write twelve 5 true ≡ some b')
          × IsValid b'
          × (b'.total_bits ≡ 12)
          × (bitmask_get b' 8
              ≡ (if leb 12 8 then none else if 5 == 8 then some 1 else bitmask_get twelve 8)))
get-write_example = get-write twelve 5 8 true twelve-IsValid

set_bits-IsFilled_example :
    IsFilled true 4 7 twelve (bitmask_set_bits twelve 4 3).0
    × (((bitmask_set_bits twelve 4 3).1 ≡ pos 0) ↔ ((◌≡◌ {A = ℕ} 3 0) ⊎ (4 + 3 ≤ 12)))
set_bits-IsFilled_example = set_bits-IsFilled twelve 4 3 twelve-IsValid (omega arith) (omega arith)

unset_bits_sets_example : bitmask_get (bitmask_unset_bits twelve 4 3).0 5 ≡ some 1
unset_bits_sets_example =
    unset_bits_sets twelve 4 3 5 twelve-IsValid (omega arith) (omega arith) (omega arith)
      (omega arith)

next_one-IsFirst_example :
    (o : Option ℕ) × (bitmask_next_one twelve 4 ≡ as_int o) × IsFirst (bit_at twelve) 4 0 12 o
next_one-IsFirst_example = next_one-IsFirst twelve 4 twelve-IsValid

next_zero-IsFirst_example :
    (o : Option ℕ) × (bitmask_next_zero twelve 1 ≡ as_int o) × IsFirst (cleared_at twelve) 1 0 12 o
next_zero-IsFirst_example = next_zero-IsFirst twelve 1 twelve-IsValid

foreach_continue-IsRuns_example :
    (rs : List (ℤ × ℤ)) × (foreach_continue twelve ≡ some rs) × IsRuns twelve 0 rs
foreach_continue-IsRuns_example = foreach_continue-IsRuns twelve twelve-IsValid

alloc_bitmask-Holds_example :
    (alloc_bitmask false 12 ≡ none)
    × (b : Bitmask) × (alloc_bitmask true 12 ≡ some b)
    × Holds 12 (λ j. 0) b
alloc_bitmask-Holds_example = alloc_bitmask-Holds 12 (omega arith)

bitmask_not-Holds_example :
    (b' : Bitmask) × (bitmask_not (some twelve) ≡ some b') × Holds 12 (λ j. 1 - bit_at twelve j) b'
bitmask_not-Holds_example = bitmask_not-Holds twelve twelve-IsValid

bitmask_xor-Holds_example :
    (bitmask_xor false twelve twelve ≡ none)
    × (twelve.total_bits ≢ twelve.total_bits → bitmask_xor true twelve twelve ≡ none)
    × (twelve.total_bits ≡ twelve.total_bits
        → (c : Bitmask) × (bitmask_xor true twelve twelve ≡ some c)
          × Holds 12 (λ j. (bit_at twelve j + bit_at twelve j) % 2) c)
bitmask_xor-Holds_example = bitmask_xor-Holds twelve twelve twelve-IsValid twelve-IsValid

one_byte-lt : (i : ℕ) → get_or (0x0f ∷ []) i 0 < 2 ^ 8
one_byte-lt zero = omega arith
one_byte-lt (suc i) = omega arith

memcpy_lsbfirst-Holds_example :
    (2 < length {A = ℕ} (0x0f ∷ []) → bitmask_memcpy_lsbfirst (some twelve) (0x0f ∷ []) ≡ none)
    × (length {A = ℕ} (0x0f ∷ []) ≤ 2
        → (b' : Bitmask) × (bitmask_memcpy_lsbfirst (some twelve) (0x0f ∷ []) ≡ some b')
          × Holds 12 (lsbfirst_bits twelve (0x0f ∷ [])) b')
memcpy_lsbfirst-Holds_example = memcpy_lsbfirst-Holds twelve (0x0f ∷ []) twelve-IsValid one_byte-lt
