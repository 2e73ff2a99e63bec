-- ===== src/Mbr/Fill.antt =====
-- The loops of `mbr_detect` over tables without an extended entry.
use imgeditor.Common.{ℕ, suc, ◌+◌, ◌≤◌, ◌<◌, ◌≡◌, refl, ◌∙◌, ap, ap₂, sym, arith, inl, inr}
use imgeditor.Common.{Bool, true, false, Option, none, some, List, [], ◌∷◌, Bool-cases, lt-or-ge}
use imgeditor.Common.{
  replicate, length, length-set, All, get_or, set, ltb, leb, ◌==◌, if◌then◌else◌, pos,
}
use imgeditor.Partitions.{
  Partition, Partitions, Table, register_weak_disk_partitions, alloc_disk_partitions,
}
use imgeditor.Mbr.{DosPartition, Private, Outcome, is_extended}
use imgeditor.Mbr.Detect.{
  register_filled, register_found, scan_primary, fill_loop, no_entry, no_partition, sda,
}
use imgeditor.Mbr.Detect.{register_filled, start_addr_of, end_addr_of}

-- The number of plain entries, and whether the last entry is empty.
unfoldable pub plain_count : List DosPartition → ℕ
plain_count [] = 0
plain_count (part ∷ rest) = let n = plain_count rest in if part.sys_ind == 0 then n else n + 1

unfoldable pub ends_empty : List DosPartition → Bool
ends_empty [] = false
ends_empty (part ∷ []) = part.sys_ind == 0
ends_empty (part ∷ next ∷ rest) = ends_empty (next ∷ rest)

abbrev pub AllUsed : List DosPartition → Type 0
AllUsed parts = All (λ part. (part.sys_ind == 0) ≡ false) parts

abbrev pub NoExtended : List DosPartition → Type 0
NoExtended parts = All (λ part. is_extended part.sys_ind ≡ false) parts

pub scan-NoExtended :
    (disk : ℕ → Option (List ℕ)) (fuel : ℕ) (parts : List DosPartition) (n : ℕ) (p : Private)
    → NoExtended parts
    → scan_primary disk fuel parts (n, p) ≡ Outcome.returned (pos 0) (n + plain_count parts, p)
unfolding scan_primary plain_count
scan-NoExtended disk fuel [] n p done = ap (λ m. Outcome.returned (pos 0) (m, p)) (omega arith)
scan-NoExtended disk fuel (part ∷ rest) n p (inner, more) = elim (Bool-cases (part.sys_ind == 0)) [
  | inl empty ↦ rw empty (scan-NoExtended disk fuel rest n p more)
  | inr used ↦
      rw (used, inner)
        (scan-NoExtended disk fuel rest (n + 1) p more
          ∙ ap (λ m. Outcome.returned (pos 0) (m, p)) (omega arith))
]

module _ (decimal : ℕ → List ℕ) (p : Private) where
  fill-over :
      (left i li di sdax : ℕ) (parts : List Partition)
      → length parts ≤ di
      → fill_loop decimal (suc left) i p li di sdax parts ≡ none
  unfolding fill_loop
  fill-over left i li di sdax parts h =
      let test : leb (length parts) di ≡ true = ground arith in rw test refl

  pub fill-end :
      (i li di sdax : ℕ) (parts : List Partition)
      → fill_loop decimal 0 i p li di sdax parts ≡ some parts
  unfolding fill_loop
  fill-end i li di sdax parts = refl

  -- An entry that is skipped, and one that is taken in.
  fill-skip :
      (left i di sdax : ℕ) (parts : List Partition) (e : DosPartition)
      → i < 4
      → get_or p.primary i no_entry ≡ e
      → (e.sys_ind == 0) ≡ true
      → di < length parts
      → (parts' : List Partition) × (length parts' ≡ length parts)
        × (fill_loop decimal (suc left) i p 0 di sdax parts
            ≡ fill_loop decimal left (i + 1) p 0 di (sdax + 1) parts')
  unfolding fill_loop
  fill-skip left i di sdax parts e low slot empty room =
      let test : leb (length parts) di ≡ false = ground arith in
      let primary : ltb i 4 ≡ true = ground arith in
      let named : Partition = record (get_or parts di no_partition) { name = sda decimal sdax } in
      (set parts di named, length-set parts di named, rw (test, primary, slot, empty) refl)

  pub fill-plain :
      (left i di sdax : ℕ) (parts : List Partition) (e : DosPartition)
      → i < 4
      → get_or p.primary i no_entry ≡ e
      → (e.sys_ind == 0) ≡ false
      → is_extended e.sys_ind ≡ false
      → di < length parts
      → fill_loop decimal (suc left) i p 0 di sdax parts
        ≡ fill_loop decimal left (i + 1) p 0 (di + 1) (sdax + 1) (
            set parts di (record {
              name = sda decimal sdax;
              start_addr = start_addr_of e;
              end_addr = end_addr_of e;
            }))
  unfolding fill_loop
  fill-plain left i di sdax parts e low slot used plain room =
      let test : leb (length parts) di ≡ false = ground arith in
      let primary : ltb i 4 ≡ true = ground arith in rw (test, primary, slot, used, plain) refl

  -- A last entry that is empty finds the table of partitions already full.
  pub fill-overflows :
      (rest : List DosPartition) (i di sdax : ℕ) (parts : List Partition)
      → i + length rest ≡ 4
      → ((j : ℕ) → get_or p.primary (i + j) no_entry ≡ get_or rest j no_entry)
      → NoExtended rest
      → ends_empty rest ≡ true
      → di + plain_count rest ≡ length parts
      → fill_loop decimal (length rest) i p 0 di sdax parts ≡ none
  unfolding ends_empty plain_count
  fill-overflows [] i di sdax parts four slots inner last full = ground (arith, last)
  fill-overflows (part ∷ []) i di sdax parts four slots inner last full =
      let full' : di + 0 ≡ length parts = rw last at full in
      fill-over 0 i 0 di sdax parts (omega arith)
  fill-overflows (part ∷ next ∷ rest) i di sdax parts four slots (plain, inner) last full =
      let later : (j : ℕ)
          → get_or p.primary (i + 1 + j) no_entry ≡ get_or (next ∷ rest) j no_entry =
        λ j. let e : i + 1 + j ≡ i + suc j = omega arith in rw e (slots (suc j)) in
      let here : get_or p.primary i no_entry ≡ part =
        let e : i + 0 ≡ i = omega arith in rw e at (slots 0) in
      elim (lt-or-ge di (length parts)) [
        | inr over ↦ fill-over (length (next ∷ rest)) i 0 di sdax parts over
        | inl room ↦ elim (Bool-cases (part.sys_ind == 0)) [
          | inl empty ↦
              let full' : di + plain_count (next ∷ rest) ≡ length parts = rw empty at full in
              let (parts', same, step) =
                fill-skip (length (next ∷ rest)) i di sdax parts part (omega arith) here empty
                  room in
              step
              ∙ fill-overflows (next ∷ rest) (i + 1) di (sdax + 1) parts' (omega arith) later inner
                  last (full' ∙ sym same)
          | inr used ↦
              let full' : di + (plain_count (next ∷ rest) + 1) ≡ length parts = rw used at full in
              let made : Partition = record {
                name = sda decimal sdax;
                start_addr = start_addr_of part;
                end_addr = end_addr_of part;
              } in
              fill-plain (length (next ∷ rest)) i di sdax parts part (omega arith) here used plain
                room
              ∙ fill-overflows (next ∷ rest) (i + 1) (di + 1) (sdax + 1) (set parts di made)
                  (omega arith) later inner last (omega (arith, length-set parts di made))
        ]
      ]

  -- With no logical partition known, the filling loop makes four rounds.
  four_rounds :
      (n : ℕ)
      → p.logic_counts ≡ 0
      → fill_loop decimal
          (4 + p.logic_counts)
          0
          p
          0
          0
          1
          (replicate (n + p.logic_counts) no_partition)
        ≡ fill_loop decimal 4 0 p 0 0 1 (replicate n no_partition)
  four_rounds n fresh =
      let rounds : 4 + p.logic_counts ≡ 4 = omega arith in
      let all : n + p.logic_counts ≡ n = omega arith in
      ap₂ (λ a b. fill_loop decimal a 0 p 0 0 1 (replicate b no_partition)) rounds all

  -- The table as it is allocated.
  abbrev mbr_parts : ℕ → Partitions
  mbr_parts n = record {
    disk_type = b'M' ∷ b'B' ∷ b'R' ∷ [];
    score = 0;
    parts = replicate (n + p.logic_counts) no_partition;
  }

  pub register_found-overflows :
      (n : ℕ) (table : Table)
      → p.logic_counts ≡ 0
      → fill_loop decimal 4 0 p 0 0 1 (replicate n no_partition) ≡ none
      → register_found decimal true n p table ≡ Outcome.out_of_bounds
  unfolding register_found alloc_disk_partitions register_filled
  register_found-overflows n table fresh over =
      ap (register_filled p table (mbr_parts n)) (four_rounds n fresh ∙ over)

  pub register_found-fills :
      (n : ℕ) (table : Table) (parts : List Partition)
      → p.logic_counts ≡ 0
      → fill_loop decimal 4 0 p 0 0 1 (replicate n no_partition) ≡ some parts
      → register_found decimal true n p table
        ≡ Outcome.returned (pos 0) (
          p,
          register_weak_disk_partitions table
              (record { disk_type = b'M' ∷ b'B' ∷ b'R' ∷ []; score = 0; parts = parts }),
        )
  unfolding register_found alloc_disk_partitions register_filled
  register_found-fills n table parts fresh filled =
      ap (register_filled p table (mbr_parts n)) (four_rounds n fresh ∙ filled)
