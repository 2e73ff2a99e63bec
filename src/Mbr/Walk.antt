-- ===== src/Mbr/Walk.antt =====
-- The walk of `mbr_foreach_extended` with `mbr_save_logic_cb` along a chain of tables.
use imgeditor.Common.{ℕ, zero, suc, ◌+◌, ◌≤◌, ◌<◌, ◌≡◌, refl, ◌∙◌, ap, arith, inl, inr}
use imgeditor.Common.{true, false, Option, some, List, [], lt-or-ge}
use imgeditor.Common.{length, length-append, pos}
use imgeditor.Mbr.{DosPartition, Private, Outcome, entries, magic_differs, max_ext_parts}
use imgeditor.Mbr.{mbr_foreach_extended, mbr_save_logic_cb}
use imgeditor.Mbr.Chain.{logic_of, next_of, table_offset, Chain, Saved, Saved-none, Saved-append}
use imgeditor.Mbr.Entries.{entries_loop, after, entries_loop-Saved, entries_loop-full}

no_empty :
    {disk : ℕ → Option (List ℕ)} {extend_start tables part_start : ℕ} {listed : List DosPartition}
    → Chain disk extend_start tables part_start listed
    → tables ≤ 0
    → ⊥
no_empty (Chain.ended r g) h = omega arith
no_empty (Chain.last r g e) h = omega arith
no_empty (Chain.link r g e c) h = omega arith

module _ (disk : ℕ → Option (List ℕ)) (extend_start : ℕ) where
  walk_out_of_fuel :
      (part_start : ℕ) (p : Private)
      → mbr_foreach_extended mbr_save_logic_cb disk zero extend_start part_start p
        ≡ Outcome.still_running
  unfolding mbr_foreach_extended
  walk_out_of_fuel part_start p = refl

  walk-ended :
      (fuel part_start : ℕ) (buf : List ℕ) (p : Private)
      → disk (table_offset extend_start part_start) ≡ some buf
      → magic_differs buf ≡ true
      → mbr_foreach_extended mbr_save_logic_cb disk (suc fuel) extend_start part_start p
        ≡ Outcome.returned (pos 0) p
  unfolding mbr_foreach_extended
  walk-ended fuel part_start buf p r g = rw (mbr_foreach_extended, r, g) refl

  walk-table :
      (fuel part_start : ℕ) (buf : List ℕ) (p : Private)
      → disk (table_offset extend_start part_start) ≡ some buf
      → magic_differs buf ≡ false
      → mbr_foreach_extended mbr_save_logic_cb disk (suc fuel) extend_start part_start p
        ≡ entries_loop extend_start part_start
            (mbr_foreach_extended mbr_save_logic_cb disk fuel extend_start)
            (entries buf)
            p
  unfolding mbr_foreach_extended entries_loop
  walk-table fuel part_start buf p r g = rw (mbr_foreach_extended, r, g) refl

  -- On a chain of extended tables, with room in the array for what the chain lists,
  -- mbr_foreach_extended with mbr_save_logic_cb ends once the chain's tables are read, returns 0 and
  -- has appended the chain's logical partitions, in order and with absolute starts.
  pub foreach_extended-Saved :
      (tables part_start fuel : ℕ) (listed : List DosPartition) (p : Private)
      → Chain disk extend_start tables part_start listed
      → tables ≤ fuel
      → length p.logic ≡ max_ext_parts
      → p.logic_counts + length listed ≤ max_ext_parts
      → (p' : Private) × (mbr_foreach_extended mbr_save_logic_cb disk fuel extend_start part_start p
          ≡ Outcome.returned (pos 0) p')
        × Saved p listed p'
  unfolding after
  foreach_extended-Saved tables part_start zero listed p chain enough sized room =
      absurd (no_empty chain enough)
  foreach_extended-Saved tables part_start (suc fuel) listed p (Chain.ended {buf = buf} r g) enough
        sized room =
      (p, walk-ended fuel part_start buf p r g, Saved-none p sized)
  foreach_extended-Saved tables part_start (suc fuel) listed p (Chain.last {buf = buf} r g e) enough
        sized room =
      let next_table = mbr_foreach_extended mbr_save_logic_cb disk fuel extend_start in
      let (p', loop, saved) =
        entries_loop-Saved extend_start part_start next_table (entries buf) p sized room in
      (
        p',
        walk-table fuel part_start buf p r g
            ∙ loop
            ∙ ap (λ n. after extend_start part_start next_table n p') e,
        saved,
      )
  foreach_extended-Saved tables part_start (suc fuel) listed p
        (Chain.link {next = next} {tables = m} {buf = buf} {later = later} r g e c) enough sized
        room =
      let next_table = mbr_foreach_extended mbr_save_logic_cb disk fuel extend_start in
      let here = logic_of extend_start part_start (entries buf) in
      let both = length-append here later in
      let (p1, loop, one) =
        entries_loop-Saved extend_start part_start next_table (entries buf) p sized (omega arith) in
      let (p2, call, more) =
        foreach_extended-Saved m next fuel later p1 c (omega arith) one.sized
          (omega (arith, one.counted)) in
      (
        p2,
        walk-table fuel part_start buf p r g
            ∙ loop
            ∙ ap (λ n. after extend_start part_start next_table n p1) e
            ∙ call,
        Saved-append p p1 p2 here later one more,
      )

  -- On a chain that lists more logical partitions than the array has room left for,
  -- mbr_foreach_extended with mbr_save_logic_cb writes behind the end of the array.
  pub foreach_extended-full :
      (tables part_start fuel : ℕ) (listed : List DosPartition) (p : Private)
      → Chain disk extend_start tables part_start listed
      → tables ≤ fuel
      → length p.logic ≡ max_ext_parts
      → p.logic_counts ≤ max_ext_parts
      → max_ext_parts < p.logic_counts + length listed
      → mbr_foreach_extended mbr_save_logic_cb disk fuel extend_start part_start p
        ≡ Outcome.out_of_bounds
  unfolding after
  foreach_extended-full tables part_start zero listed p chain enough sized room many =
      absurd (no_empty chain enough)
  foreach_extended-full tables part_start (suc fuel) listed p (Chain.ended r g) enough sized room
        many =
      absurd (omega arith)
  foreach_extended-full tables part_start (suc fuel) listed p (Chain.last {buf = buf} r g e) enough
        sized room many =
      let next_table = mbr_foreach_extended mbr_save_logic_cb disk fuel extend_start in
      walk-table fuel part_start buf p r g
      ∙ entries_loop-full extend_start part_start next_table (entries buf) p sized room many
  foreach_extended-full tables part_start (suc fuel) listed p
        (Chain.link {next = next} {tables = m} {buf = buf} {later = later} r g e c) enough sized
        room many =
      let next_table = mbr_foreach_extended mbr_save_logic_cb disk fuel extend_start in
      let here = logic_of extend_start part_start (entries buf) in
      let both = length-append here later in
      elim (lt-or-ge max_ext_parts (p.logic_counts + length here)) [
        | inl overrun ↦
            walk-table fuel part_start buf p r g
            ∙ entries_loop-full extend_start part_start next_table (entries buf) p sized room
                overrun
        | inr fits ↦
            let (p1, loop, one) =
              entries_loop-Saved extend_start part_start next_table (entries buf) p sized fits in
            walk-table fuel part_start buf p r g
            ∙ loop
            ∙ ap (λ n. after extend_start part_start next_table n p1) e
            ∙ foreach_extended-full m next fuel later p1 c (omega arith) one.sized
                (omega (arith, one.counted)) (omega (arith, one.counted))
      ]

  -- On an extended table that lists no logical partition and names itself as the next table,
  -- mbr_foreach_extended does not end: it is still running however many tables it has read.
  pub foreach_extended_cycles :
      (part_start : ℕ) (buf : List ℕ) (p : Private)
      → disk (table_offset extend_start part_start) ≡ some buf
      → magic_differs buf ≡ false
      → next_of (entries buf) ≡ some part_start
      → logic_of extend_start part_start (entries buf) ≡ []
      → length p.logic ≡ max_ext_parts
      → p.logic_counts ≤ max_ext_parts
      → (fuel : ℕ)
      → mbr_foreach_extended mbr_save_logic_cb disk fuel extend_start part_start p
        ≡ Outcome.still_running
  unfolding after
  foreach_extended_cycles part_start buf p r g itself nothing sized room zero =
      walk_out_of_fuel part_start p
  foreach_extended_cycles part_start buf p r g itself nothing sized room (suc fuel) =
      let next_table = mbr_foreach_extended mbr_save_logic_cb disk fuel extend_start in
      let none_listed = ap length nothing in
      let (p1, loop, one) =
        entries_loop-Saved extend_start part_start next_table (entries buf) p sized (omega arith) in
      walk-table fuel part_start buf p r g
      ∙ loop
      ∙ ap (λ n. after extend_start part_start next_table n p1) itself
      ∙ foreach_extended_cycles part_start buf p1 r g itself nothing one.sized
          (omega (arith, one.counted)) fuel
