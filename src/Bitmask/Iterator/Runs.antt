-- ===== src/Bitmask/Iterator/Runs.antt =====
-- The iterator visits the maximal runs of set bits, in order, and stops.
use imgeditor.Common.{ℕ, zero, suc, ◌+◌, ◌-◌, ◌/◌, ◌%◌, ◌^◌, ◌≤◌, ◌<◌, ◌≡◌, refl, arith}
use imgeditor.Common.{◌⊎◌, inl, inr, true, false, Option, some, List, [], ◌∷◌, eq-or-ne}
use imgeditor.Common.{ℤ, pos, minus_one, to_int, is_negative}
use imgeditor.Bitmask.{Bitmask, IsValid, bit_at, bitmask_next_one, bitmask_next_zero}
use imgeditor.Common.{bit_of-le-one, get_or}
use imgeditor.Bitmask.Search.{
  IsFirst, found, absent, next_one-IsFirst, next_zero-IsFirst, cleared_at, as_int,
}
use imgeditor.Bitmask.Iterator.{Iterator, to_size, size_sub, int_sub, update, iterator_init}
use imgeditor.Bitmask.Iterator.{iterator_next, foreach_loop, foreach_continue, IsRuns, done, run}

foreach_stop :
    (fuel : ℕ) (it : Iterator)
    → 0 < fuel
    → is_negative it.start ≡ true
    → foreach_loop fuel it ≡ some []
unfolding foreach_loop
foreach_stop zero it h e = absurd (omega arith)
foreach_stop (suc fuel) it h e = ground arith

foreach_visit :
    (fuel : ℕ) (it : Iterator) (rest : List (ℤ × ℤ))
    → is_negative it.start ≡ false
    → foreach_loop fuel (iterator_next it) ≡ some rest
    → foreach_loop (suc fuel) it ≡ some ((it.start, it.bits) ∷ rest)
unfolding foreach_loop
foreach_visit fuel it rest e h = ground arith

abbrev at_run : Bitmask → ℤ → ℤ → ℤ → Iterator
at_run b start bits run_end = record { start = start; bits = bits; b = b; run_end = run_end }

module _ (b : Bitmask) (start bits run_end : ℤ) where
  update_stop :
      bitmask_next_one b (to_size start) ≡ minus_one
      → update (at_run b start bits run_end) ≡ at_run b minus_one bits run_end
  unfolding update
  update_stop e = rw e

  update_last :
      (s : ℕ)
      → bitmask_next_one b (to_size start) ≡ pos s
      → bitmask_next_zero b (s + 1) ≡ minus_one
      → update (at_run b start bits run_end)
        ≡ at_run b (pos s) (size_sub b.total_bits (pos s)) minus_one
  unfolding update
  update_last s e f = rw (e, f)

  update_run :
      (s e : ℕ)
      → bitmask_next_one b (to_size start) ≡ pos s
      → bitmask_next_zero b (s + 1) ≡ pos e
      → update (at_run b start bits run_end) ≡ at_run b (pos s) (int_sub (pos e) (pos s)) (pos e)
  unfolding update
  update_run s e p q = rw (p, q)

size_sub_lem : (total s : ℕ) → total < 2 ^ 31 → s < total → size_sub total (pos s) ≡ pos (total - s)
unfolding to_int
size_sub_lem total s small h = ground arith

int_sub_lem : (s e : ℕ) → s < e → int_sub (pos e) (pos s) ≡ pos (e - s)
int_sub_lem s e h = ground arith

-- A bit that is not clear is set, and the other way round.
set_of-cleared : (b : Bitmask) (j : ℕ) → cleared_at b j ≡ 0 → bit_at b j ≡ 1
set_of-cleared b j h = omega (arith, bit_of-le-one (7 - j % 8) (get_or b.buffer (j / 8) 0))

clear_of-cleared : (b : Bitmask) (j : ℕ) → cleared_at b j ≡ 1 → bit_at b j ≡ 0
clear_of-cleared b j h = omega arith

-- Either a search finds nothing, or it finds the first place.
abbrev Nothing : (ℕ → ℕ) → ℕ → ℕ → Type 0
Nothing p from hi = (j : ℕ) → from ≤ j → j < hi → p j ≡ 0

abbrev Something : (ℕ → ℕ) → ℕ → ℕ → ℕ → Type 0
Something p from hi r = (from ≤ r) × (r < hi) × (p r ≡ 1) × ((j : ℕ) → from ≤ j → j < r → p j ≡ 0)

search_cases :
    (p : ℕ → ℕ) (from hi : ℕ) (result : ℤ) (o : Option ℕ)
    → result ≡ as_int o
    → IsFirst p from 0 hi o
    → ((result ≡ minus_one) × Nothing p from hi)
      ⊎ ((r : ℕ) × (result ≡ pos r) × Something p from hi r)
search_cases p from hi result o e (found r u v w one before) =
    inr (r, e, (u, w, one, λ j x y. before j x (omega arith) y))
search_cases p from hi result o e (absent none_left) =
    inl (e, λ j x y. none_left j x (omega arith) y)

module _ (b : Bitmask) (valid : IsValid b) where
  next_one_cases :
      (from : ℕ)
      → ((bitmask_next_one b from ≡ minus_one) × Nothing (bit_at b) from b.total_bits)
        ⊎ ((r : ℕ) × (bitmask_next_one b from ≡ pos r) × Something (bit_at b) from b.total_bits r)
  next_one_cases from =
      let (o, e, first) = next_one-IsFirst b from valid in search_cases _ from _ _ o e first

  next_zero_cases :
      (from : ℕ)
      → ((bitmask_next_zero b from ≡ minus_one) × Nothing (cleared_at b) from b.total_bits)
        ⊎ ((r : ℕ) × (bitmask_next_zero b from ≡ pos r)
            × Something (cleared_at b) from b.total_bits r)
  next_zero_cases from =
      let (o, e, first) = next_zero-IsFirst b from valid in search_cases _ from _ _ o e first

  Visits : ℕ → ℕ → Iterator → Type 0
  Visits fuel lo it = (rs : List (ℤ × ℤ)) × (foreach_loop fuel it ≡ some rs) × IsRuns b lo rs

  no_run :
      (fuel lo : ℕ) (bits run_end : ℤ)
      → Nothing (bit_at b) lo b.total_bits
      → Visits (suc fuel) lo (at_run b minus_one bits run_end)
  unfolding Visits
  no_run fuel lo bits run_end clear = ([], foreach_stop (suc fuel) _ (omega arith) refl, done clear)

  full_run :
      (s e : ℕ)
      → bit_at b s ≡ 1
      → Nothing (cleared_at b) (s + 1) e
      → (j : ℕ) → s ≤ j
      → j < e
      → bit_at b j ≡ 1
  full_run s e set after j x y = elim (eq-or-ne s j) [
    | inl same ↦ rw (← same) set
    | inr ne ↦ set_of-cleared b j (after j (omega arith) y)
  ]

  last_run :
      (fuel lo s n : ℕ)
      → s + n ≡ b.total_bits
      → Something (bit_at b) lo b.total_bits s
      → Nothing (cleared_at b) (s + 1) b.total_bits
      → 0 < fuel
      → Visits (suc fuel) lo (at_run b (pos s) (pos n) minus_one)
  unfolding Visits iterator_next
  last_run fuel lo s n end (low, fits, set, before) after enough =
      let it = at_run b (pos s) (pos n) minus_one in
      (
        (pos s, pos n) ∷ [],
        foreach_visit fuel it [] refl (foreach_stop fuel (iterator_next it) enough refl),
        run s n low (omega arith) (omega arith) before
            (λ j x y. full_run s b.total_bits set after j x (omega arith)) (inl end)
            (done (λ j x y. absurd (omega arith))),
      )

  inner_run :
      (fuel lo s n e : ℕ)
      → s + n ≡ e
      → Something (bit_at b) lo b.total_bits s
      → Something (cleared_at b) (s + 1) b.total_bits e
      → Visits fuel e (update (at_run b (pos e) (pos n) (pos e)))
      → Visits (suc fuel) lo (at_run b (pos s) (pos n) (pos e))
  unfolding Visits iterator_next
  inner_run fuel lo s n e end (low, fits, set, before) (above, below, clear, inside)
        (rs, more, runs) =
      let it = at_run b (pos s) (pos n) (pos e) in
      (
        (pos s, pos n) ∷ rs,
        foreach_visit fuel it rs refl more,
        run s n low (omega arith) (omega arith) before
            (λ j x y. full_run s e set inside j x (omega arith))
            (inr (rw end (clear_of-cleared b e clear))) (rw end runs),
      )

  visits :
      (fuel lo : ℕ) (start bits run_end : ℤ)
      → to_size start ≡ lo
      → b.total_bits - lo < fuel
      → Visits fuel lo (update (at_run b start bits run_end))
  visits zero lo start bits run_end at enough = absurd (omega arith)
  visits (suc fuel) lo start bits run_end at enough = elim (next_one_cases lo) [
    | inl (e, clear) ↦
        rw (update_stop b start bits run_end (rw at e)) (no_run fuel lo bits run_end clear)
    | inr (s, e, here) ↦ elim (next_zero_cases (s + 1)) [
      | inl (e', full) ↦
          rw
            (
              update_last b start bits run_end s (rw at e) e',
              size_sub_lem b.total_bits s valid.in_int (here.1),
            )
            (last_run fuel lo s (b.total_bits - s) (omega (arith, here.1)) here full (omega arith))
      | inr (z, e', next) ↦
          rw
            (
              update_run b start bits run_end s z (rw at e) e',
              int_sub_lem s z (omega (arith, next.0)),
            )
            (inner_run fuel lo s (z - s) z (omega arith) here next
              (visits fuel z (pos z) (pos (z - s)) (pos z) refl (omega arith)))
    ]
  ]

-- `bitmask_foreach_continue` stops, and its rounds are the maximal runs of set bits, in order.
pub foreach_continue-IsRuns :
    (b : Bitmask) → IsValid b → (rs : List (ℤ × ℤ)) × (foreach_continue b ≡ some rs) × IsRuns b 0 rs
unfolding foreach_continue iterator_init Visits
foreach_continue-IsRuns b valid =
    visits b valid (b.total_bits + 1) 0 (pos 0) (pos 0) (pos 0) refl (omega arith)
