-- ===== src/Bitmask/Iterator.antt =====
-- `struct bitmask_continue_iterator` and `bitmask_foreach_continue`: the runs of set bits.
pub mod Runs
use imgeditor.Common.{
  ℕ, zero, suc, ◌+◌, ◌-◌, ◌^◌, ◌≤◌, ◌<◌, ◌≡◌, ◌⊎◌, Option, none, some, List, [], ◌∷◌,
}
use imgeditor.Common.{ℤ, pos, negsuc, to_int, is_negative, leb, if◌then◌else◌, true, false}
use imgeditor.Bitmask.{Bitmask, bit_at, bitmask_next_one, bitmask_next_zero}

pub record Iterator : Type 0 where
  pub start : ℤ
  pub bits : ℤ
  pub b : Bitmask
  pub run_end : ℤ

-- An `int` that is passed as a `size_t`.
abbrev pub to_size : ℤ → ℕ
to_size (pos n) = n
to_size (negsuc n) = 2 ^ 64 - 1 - n

-- `int` addition of 1 and subtraction; the values are bit numbers, which do not overflow.
abbrev pub int_suc : ℤ → ℤ
int_suc (pos n) = pos (n + 1)
int_suc (negsuc zero) = pos 0
int_suc (negsuc (suc n)) = negsuc n

abbrev pub int_sub : ℤ → ℤ → ℤ
int_sub (pos a) (pos b) = if leb b a then pos (a - b) else negsuc (b - a - 1)
int_sub (pos a) (negsuc b) = pos (a + b + 1)
int_sub (negsuc a) (pos b) = negsuc (a + b)
int_sub (negsuc a) (negsuc b) = if leb a b then pos (b - a) else negsuc (a - b - 1)

-- `it->b->total_bits - it->start` in `size_t`, stored into an `int`.
abbrev pub size_sub : ℕ → ℤ → ℤ
size_sub total start = to_int (total + 2 ^ 64 - to_size start)

unfoldable pub update : Iterator → Iterator
update it =
    let it1 : Iterator = record it { start = bitmask_next_one it.b (to_size it.start) } in
    let it2 : Iterator = record it1 {
      run_end = bitmask_next_zero it.b (to_size (int_suc it1.start));
    } in
    if is_negative it1.start
    then it1
    else if is_negative it2.run_end
    then record it2 { bits = size_sub it.b.total_bits it2.start }
    else record it2 { bits = int_sub it2.run_end it2.start }

unfoldable pub iterator_init : Bitmask → Iterator
iterator_init b = update (record { start = pos 0; bits = pos 0; b = b; run_end = pos 0 })

unfoldable pub iterator_next : Iterator → Iterator
iterator_next it =
    let it1 : Iterator = record it { start = it.run_end } in
    if is_negative it1.start then it1 else update it1

-- The rounds of `bitmask_foreach_continue`: `start` and `bits` of each. `none` means that the fuel
-- ran out.
unfoldable pub foreach_loop : ℕ → Iterator → Option (List (ℤ × ℤ))
foreach_loop zero it = none
foreach_loop (suc fuel) it = elim (is_negative it.start) [
  | true ↦ some []
  | false ↦ elim (foreach_loop fuel (iterator_next it)) [
    | none ↦ none
    | some rest ↦ some ((it.start, it.bits) ∷ rest)
  ]
]

unfoldable pub foreach_continue : Bitmask → Option (List (ℤ × ℤ))
foreach_continue b = foreach_loop (b.total_bits + 1) (iterator_init b)

-- A list of (first bit, number of bits) names the maximal runs of set bits from `lo` on, in order.
pub data IsRuns (b : Bitmask) : ℕ → List (ℤ × ℤ) → Type 0 where
  done : {lo : ℕ} → ((j : ℕ) → lo ≤ j → j < b.total_bits → bit_at b j ≡ 0) → IsRuns b lo []
  run :
      {lo : ℕ} {rest : List (ℤ × ℤ)} (s n : ℕ)
      → lo ≤ s
      → 0 < n
      → s + n ≤ b.total_bits
      → ((j : ℕ) → lo ≤ j → j < s → bit_at b j ≡ 0)
      → ((j : ℕ) → s ≤ j → j < s + n → bit_at b j ≡ 1)
      → (s + n ≡ b.total_bits) ⊎ (bit_at b (s + n) ≡ 0)
      → IsRuns b (s + n) rest
      → IsRuns b lo ((pos s, pos n) ∷ rest)
