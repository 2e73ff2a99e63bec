-- ===== src/Dd/Examples.antt =====
-- The copy at concrete inputs.
use imgeditor.Common.{ℕ, ◌+◌, ◌*◌, ◌≡◌, refl, arith, Option, none, some, List, [], ◌∷◌, length}
use imgeditor.Dd.{
  Source, Target, Copy, fetch, bufscan, after_write, put, scanned, after_read, counted, wrote,
  dd_round, dd_loop, dd64,
}
use imgeditor.Dd.Segment.{segment}
use imgeditor.Dd.Copied.{concat, Supplies, Supplies-file, placed_to, scan_all, dd64-Copied}

abbrev content : ℕ → ℕ
content i = 3 * i

abbrev read : Source
read off n = some (segment content off n)

abbrev write : Target
write off bs = some (length bs)

-- A scanner that adds up the sizes that it is shown.
abbrev scan : Option (List ℕ → ℕ → List ℕ × ℕ)
scan = some (λ b s. (b, s + length b))

scan_in_place : (b : List ℕ) (s : ℕ) → length (bufscan scan b s).0 ≡ length b
unfolding bufscan
scan_in_place b s = refl

supplies : Supplies (some read) content 14
supplies = Supplies-file read content 14 (λ off n le. refl)

dd64-Copied_example :
    (c : Copy ℕ) × (pieces : List (List ℕ)) × (dd64 scan
        (some [])
        (some read)
        (some write)
        4
        100
        10
        0
      ≡ some c)
    × (concat pieces ≡ segment content 4 10)
    × (c.copied ≡ 10)
    × (c.state ≡ (scan_all scan pieces 0).1)
    × (c.writes ≡ placed_to (some write) 100 (scan_all scan pieces 0).0)
dd64-Copied_example =
    dd64-Copied scan scan_in_place (some read) (some write) content [] 4 100 10 0 tt supplies
      (λ off bs. refl) (omega arith)

-- A target that takes two of three bytes: the copy stops, and its count has none of them.
abbrev full : Target
full off bs = some 2

copied_of : {A : Type 0} → Option (Copy A) → ℕ × List (ℕ × List ℕ)
copied_of none = (0, [])
copied_of (some c) = (c.copied, c.writes)

short_write :
    copied_of (dd64 scan (some []) (some read) (some full) 0 0 3 0) ≡ (0, (0, 0 ∷ 3 ∷ []) ∷ [])
unfolding copied_of dd64 dd_loop dd_round fetch after_read scanned put after_write bufscan counted
    wrote
short_write = refl
