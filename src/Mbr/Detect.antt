-- ===== src/Mbr/Detect.antt =====
-- `mbr_detect` of disk/mbr.c: the first sector is taken in, the chain is followed, and the table of
-- partitions is filled and registered.
use imgeditor.Common.{ℕ, zero, suc, ◌+◌, ◌-◌, ◌*◌, ◌%◌, ◌^◌, bit_or}
use imgeditor.Common.{Bool, not, ◌&&◌, ◌||◌, Option, none, some, List, [], ◌∷◌}
use imgeditor.Common.{
  length, get_or, set, ltb, leb, ◌==◌, if◌then◌else◌, pos, minus_one, is_negative,
}
use imgeditor.Partitions.{
  Partition, Partitions, Table, alloc_disk_partitions, register_weak_disk_partitions,
}
use imgeditor.Mbr.{DosPartition, Private, Outcome, is_extended, byte_at, entries, magic_differs}
use imgeditor.Mbr.{mbr_foreach_extended, mbr_save_logic_cb}

unfoldable pub disksig_at : List ℕ → ℕ
disksig_at buf =
    bit_or
      (bit_or (bit_or (byte_at buf 0x1b8) (byte_at buf 0x1b9 * 2 ^ 8)) (byte_at buf 0x1ba * 2 ^ 16))
      (byte_at buf 0x1bb * 2 ^ 24)

-- What a read outside of an array would find; no index that is used leaves its array.
abbrev pub no_entry : DosPartition
no_entry = record {
  boot_ind = 0;
  head = 0;
  sector = 0;
  cyl = 0;
  sys_ind = 0;
  end_head = 0;
  end_sector = 0;
  end_cyl = 0;
  start = 0;
  size = 0;
}

abbrev pub no_partition : Partition
no_partition = record { name = []; start_addr = 0; end_addr = 0 }

-- The entry's first byte, and its last: both in 64 bits.
unfoldable pub start_addr_of : DosPartition → ℕ
start_addr_of part = part.start * 512

unfoldable pub end_addr_of : DosPartition → ℕ
end_addr_of part = ((part.start + part.size) * 512 + 2 ^ 64 - 1) % 2 ^ 64

-- The loop over the primary entries; the state is the count and the private data.
unfoldable pub scan_primary :
    (ℕ → Option (List ℕ)) → ℕ → List DosPartition → ℕ × Private → Outcome (ℕ × Private)
scan_primary disk fuel [] (primary_count, p) = Outcome.returned (pos 0) (primary_count, p)
scan_primary disk fuel (primary ∷ rest) (primary_count, p) =
    if primary.sys_ind == 0
    then scan_primary disk fuel rest (primary_count, p)
    else if is_extended primary.sys_ind
    then elim (mbr_foreach_extended mbr_save_logic_cb disk fuel primary.start 0 p) [
      | Outcome.returned ret p' ↦ Outcome.returned ret (primary_count, p')
      | Outcome.out_of_bounds ↦ Outcome.out_of_bounds
      | Outcome.still_running ↦ Outcome.still_running
    ]
    else scan_primary disk fuel rest (primary_count + 1, p)

-- The end, with what the loop has made of the table.
unfoldable pub register_filled :
    Private → Table → Partitions → Option (List Partition) → Outcome (Private × Table)
register_filled p table disk_parts none = Outcome.out_of_bounds
register_filled p table disk_parts (some parts) =
    Outcome.returned (pos 0)
      (p, register_weak_disk_partitions table (record disk_parts { parts = parts }))

module _ (decimal : ℕ → List ℕ) where
  abbrev pub sda : ℕ → List ℕ
  sda n = b's' ∷ b'd' ∷ b'a' ∷ decimal n

  -- The loop that fills the table, at index `i`; `none` is a write behind its last element.
  unfoldable pub fill_loop : ℕ → ℕ → Private → ℕ → ℕ → ℕ → List Partition → Option (List Partition)
  fill_loop zero i p logic_index diskp_index sdax parts = some parts
  fill_loop (suc left) i p logic_index diskp_index sdax parts =
      let is_primary = ltb i 4 in
      let entry =
        if is_primary then get_or p.primary i no_entry else get_or p.logic logic_index no_entry in
      let logic_index' = if is_primary then logic_index else logic_index + 1 in
      let named : Partition = record (get_or parts diskp_index no_partition) { name = sda sdax } in
      let filled : Partition = record named {
        start_addr = start_addr_of entry;
        end_addr = end_addr_of entry;
      } in
      let skipped = is_primary && (entry.sys_ind == 0 || is_extended entry.sys_ind) in
      let diskp_index' = if skipped then diskp_index else diskp_index + 1 in
      let parts' = set parts diskp_index (if skipped then named else filled) in
      let rest = fill_loop left (i + 1) p logic_index' diskp_index' (sdax + 1) parts' in
      if leb (length parts) diskp_index then none else rest

  -- From the allocation to the end.
  unfoldable pub register_found : Bool → ℕ → Private → Table → Outcome (Private × Table)
  register_found has_memory primary_count p table =
      elim (alloc_disk_partitions has_memory (b'M' ∷ b'B' ∷ b'R' ∷ [])
        (primary_count + p.logic_counts)) [
          | none ↦ Outcome.returned (pos 0) (p, table)
          | some disk_parts ↦
              register_filled p table disk_parts
                (fill_loop (4 + p.logic_counts) 0 p 0 0 1 disk_parts.parts)
        ]

  unfoldable pub mbr_detect :
      (ℕ → Option (List ℕ))
      → ℕ
      → Bool
      → Bool
      → Option (List ℕ)
      → Private
      → Table
      → Outcome (Private × Table)
  mbr_detect disk fuel has_memory force_type none p table = Outcome.returned minus_one (p, table)
  mbr_detect disk fuel has_memory force_type (some buf) p table =
      let p1 : Private = record p { disksig = disksig_at buf; primary = entries buf } in
      let efi = (get_or (entries buf) 0 no_entry).sys_ind == 0xee in
      if magic_differs buf
      then Outcome.returned minus_one (p, table)
      else if efi && not force_type
      then Outcome.returned minus_one (p1, table)
      else elim (scan_primary disk fuel (entries buf) (0, p1)) [
        | Outcome.returned ret (primary_count, p2) ↦
            if is_negative ret
            then Outcome.returned ret (p2, table)
            else register_found has_memory primary_count p2 table
        | Outcome.out_of_bounds ↦ Outcome.out_of_bounds
        | Outcome.still_running ↦ Outcome.still_running
      ]
