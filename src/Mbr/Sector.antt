-- ===== src/Mbr/Sector.antt =====
-- How `mbr_detect` of disk/mbr.c ends on a sector, by its magic and by its four entries.
use imgeditor.Common.{ℕ, ◌+◌, ◌≡◌, refl, ◌∙◌, ap, sym, arith}
use imgeditor.Common.{Bool, true, false, not, ◌&&◌, inl, inr, ◌⊎◌, Option, some, List, [], ◌∷◌}
use imgeditor.Common.{replicate, length-replicate, get_or, ◌==◌, pos}
use imgeditor.Partitions.{Partition, Table, register_weak_disk_partitions}
use imgeditor.Mbr.{DosPartition, Private, Outcome, entries, entry_at, magic_differs}
use imgeditor.Mbr.Detect.{
  mbr_detect, register_found, fill_loop, disksig_at, no_entry, no_partition, sda,
}
use imgeditor.Mbr.Detect.{start_addr_of, end_addr_of}
use imgeditor.Mbr.Fill.{
  AllUsed, plain_count, ends_empty, NoExtended, scan-NoExtended, fill-plain, fill-end,
  fill-overflows, register_found-overflows, register_found-fills,
}

count_used :
    (buf : List ℕ)
    → ((entry_at buf 0x1be).sys_ind == 0) ≡ false
    → ((entry_at buf 0x1ce).sys_ind == 0) ≡ false
    → ((entry_at buf 0x1de).sys_ind == 0) ≡ false
    → ((entry_at buf 0x1ee).sys_ind == 0) ≡ false
    → 0 + plain_count (entries buf) ≡ 4
unfolding entries plain_count
count_used buf a b c d = rw (a, b, c, d) refl

zero_left : (j : ℕ) → 0 + j ≡ j
zero_left j = omega arith

module _ (decimal : ℕ → List ℕ) (disk : ℕ → Option (List ℕ)) (fuel : ℕ) (buf : List ℕ) (p : Private)
    (table : Table) where
  abbrev pub partition_of : ℕ → DosPartition → Partition
  partition_of n part = record {
    name = sda decimal n;
    start_addr = start_addr_of part;
    end_addr = end_addr_of part;
  }

  abbrev pub taken : Private
  taken = record p { disksig = disksig_at buf; primary = entries buf }

  -- Detection is not refused for a protective table: the type is forced, or the first entry is not of
  -- the type 0xee of EFI GPT.
  abbrev pub NotProtective : Bool → Type 0
  NotProtective force_type = (force_type ≡ true) ⊎ (((entry_at buf 0x1be).sys_ind == 0xee) ≡ false)

  not_refused :
      (force_type : Bool)
      → NotProtective force_type
      → (((get_or (entries buf) 0 no_entry).sys_ind == 0xee) && not force_type) ≡ false
  unfolding entries
  not_refused true open_to = grind arith
  not_refused false (inl e) = absurd (grind (arith, e))
  not_refused false (inr e) = rw e refl

  -- A sector without an extended entry that is not refused goes straight to the table.
  detected :
      (force_type : Bool)
      → magic_differs buf ≡ false
      → NotProtective force_type
      → NoExtended (entries buf)
      → mbr_detect decimal disk fuel true force_type (some buf) p table
        ≡ register_found decimal true (0 + plain_count (entries buf)) taken table
  unfolding mbr_detect
  detected force_type right open_to inner =
      rw
        (
          right,
          not_refused force_type open_to,
          scan-NoExtended disk fuel (entries buf) 0 taken inner,
        )
        (ground arith)

  -- With memory, no logical partition known, and the type forced or the first entry not of type 0xee:
  -- on a sector with the right magic and no extended entry, whose last entry is empty, mbr_detect
  -- writes behind the end of the table of partitions that it has allocated.
  pub mbr_detect-overflows :
      (force_type : Bool)
      → magic_differs buf ≡ false
      → NotProtective force_type
      → p.logic_counts ≡ 0
      → NoExtended (entries buf)
      → (entry_at buf 0x1ee).sys_ind ≡ 0
      → mbr_detect decimal disk fuel true force_type (some buf) p table ≡ Outcome.out_of_bounds
  unfolding entries ends_empty
  mbr_detect-overflows force_type right open_to fresh inner last =
      detected force_type right open_to inner
      ∙ register_found-overflows decimal taken _ table fresh (
          fill-overflows decimal taken (entries buf) 0 0 1 _ refl
            (λ j. ap (λ k. get_or (entries buf) k no_entry) (zero_left j)) inner (rw last refl)
            (sym (length-replicate {A = Partition} _ _)))

  -- With memory, no logical partition known, and the type forced or the first entry not of type 0xee:
  -- on a sector with the right magic and four entries in use, none of them extended, mbr_detect
  -- registers the partitions sda1 to sda4 weakly, in the order of the sector.
  pub mbr_detect-plain :
      (force_type : Bool)
      → magic_differs buf ≡ false
      → NotProtective force_type
      → p.logic_counts ≡ 0
      → NoExtended (entries buf)
      → AllUsed (entries buf)
      → mbr_detect decimal disk fuel true force_type (some buf) p table
        ≡ Outcome.returned (pos 0) (
          taken,
          register_weak_disk_partitions table (record {
            disk_type = b'M' ∷ b'B' ∷ b'R' ∷ [];
            score = 0;
            parts =
                partition_of 1 (entry_at buf 0x1be)
                ∷ partition_of 2 (entry_at buf 0x1ce)
                ∷ partition_of 3 (entry_at buf 0x1de)
                ∷ partition_of 4 (entry_at buf 0x1ee)
                ∷ [];
          }),
        )
  unfolding entries
  mbr_detect-plain force_type right open_to fresh (in0, (in1, (in2, (in3, _))))
        (use0, (use1, (use2, (use3, _)))) =
      let inner : NoExtended (entries buf) = (in0, (in1, (in2, (in3, tt)))) in
      let four_used : 0 + plain_count (entries buf) ≡ 4 = count_used buf use0 use1 use2 use3 in
      let filled =
        fill-plain decimal taken 3 0 0 1 (replicate 4 no_partition) (entry_at buf 0x1be)
          (omega arith) refl use0 in0 (omega arith)
        ∙ fill-plain decimal taken 2 1 1 2 _ (entry_at buf 0x1ce) (omega arith) refl use1 in1
            (omega arith)
        ∙ fill-plain decimal taken 1 2 2 3 _ (entry_at buf 0x1de) (omega arith) refl use2 in2
            (omega arith)
        ∙ fill-plain decimal taken 0 3 3 4 _ (entry_at buf 0x1ee) (omega arith) refl use3 in3
            (omega arith)
        ∙ fill-end decimal taken 4 0 4 5 _ in
      detected force_type right open_to inner
      ∙ register_found-fills decimal taken _ table _ fresh (
          ap (λ n. fill_loop decimal 4 0 taken 0 0 1 (replicate n no_partition)) four_used ∙ filled)
