-- ===== src/Mbr.antt =====
-- disk/mbr.c: the DOS partition table and the chain of extended tables behind it.
-- `start` and `size` of an entry are the values that `le32_to_cpu` reads. `struct
-- mbr_editor_private_data` is here without `fd`. A disk is a function from a byte offset to the
-- sector that `fileseek` and `fileread` give there, `none` for a failed read. `decimal` stands for
-- the conversion `%zu` of `snprintf`. The output of the listing commands is left out.
pub mod Chain
pub mod Entries
pub mod Walk
pub mod Detect
pub mod Fill
pub mod Sector
mod Examples
use imgeditor.Common.{ℕ, zero, suc, ◌+◌, ◌-◌, ◌*◌, ◌/◌, ◌%◌, ◌^◌, bit_and, bit_or}
use imgeditor.Common.{Bool, true, false, not, ◌&&◌, ◌||◌, Option, none, some, List, [], ◌∷◌, ◌++◌}
use imgeditor.Common.{
  length, get_or, set, ltb, leb, ◌==◌, if◌then◌else◌, ℤ, pos, minus_one, is_negative,
}
use imgeditor.Partitions.{
  Partition, Partitions, Table, alloc_disk_partitions, register_weak_disk_partitions,
}

pub record DosPartition : Type 0 where
  pub boot_ind : ℕ
  pub head : ℕ
  pub sector : ℕ
  pub cyl : ℕ
  pub sys_ind : ℕ
  pub end_head : ℕ
  pub end_sector : ℕ
  pub end_cyl : ℕ
  pub start : ℕ
  pub size : ℕ

pub record Private : Type 0 where
  pub disksig : ℕ
  pub primary : List DosPartition
  pub logic_counts : ℕ
  pub logic : List DosPartition

abbrev pub max_ext_parts : ℕ
max_ext_parts = 256

-- How a function ends: it returns, it writes outside an array, or it is still running when the
-- fuel is used up.
pub data Outcome {ℓ} (S : Type ℓ) : Type ℓ where
  returned : ℤ → S → Outcome S
  out_of_bounds : Outcome S
  still_running : Outcome S

unfoldable pub is_extended : ℕ → Bool
is_extended part_type = part_type == 0x05 || part_type == 0x0f || part_type == 0x85

-- The cylinder, the head and the sector of an entry's start and end.
unfoldable pub dos_partition_chs : DosPartition → ℕ × ℕ × ℕ
dos_partition_chs part =
    (bit_or (part.sector / 2 ^ 6 * 2 ^ 8) part.cyl, part.head, bit_and part.sector 0x3f)

unfoldable pub dos_partition_end_chs : DosPartition → ℕ × ℕ × ℕ
dos_partition_end_chs part = (
  bit_or (part.end_sector / 2 ^ 6 * 2 ^ 8) part.end_cyl,
  part.end_head,
  bit_and part.end_sector 0x3f,
)

abbrev byte_at : List ℕ → ℕ → ℕ
byte_at buf i = get_or buf i 0

unfoldable pub le32_at : List ℕ → ℕ → ℕ
le32_at buf i =
    byte_at buf i
    + byte_at buf (i + 1) * 2 ^ 8
    + byte_at buf (i + 2) * 2 ^ 16
    + byte_at buf (i + 3) * 2 ^ 24

-- The entry of 16 bytes at an offset.
unfoldable pub entry_at : List ℕ → ℕ → DosPartition
entry_at buf i = record {
  boot_ind = byte_at buf i;
  head = byte_at buf (i + 1);
  sector = byte_at buf (i + 2);
  cyl = byte_at buf (i + 3);
  sys_ind = byte_at buf (i + 4);
  end_head = byte_at buf (i + 5);
  end_sector = byte_at buf (i + 6);
  end_cyl = byte_at buf (i + 7);
  start = le32_at buf (i + 8);
  size = le32_at buf (i + 12);
}

-- The copy of the four entries out of a sector.
unfoldable pub entries : List ℕ → List DosPartition
entries buf = entry_at buf 0x1be ∷ entry_at buf 0x1ce ∷ entry_at buf 0x1de ∷ entry_at buf 0x1ee ∷ []

unfoldable pub magic_differs : List ℕ → Bool
magic_differs buf = not (byte_at buf 0x1fe == 0x55) && not (byte_at buf 0x1ff == 0xaa)

module _ {ℓ} {S : Type ℓ} (cb : DosPartition → ℕ → ℕ → S → Outcome S) where
  -- The loop over a table's entries; `follow` is the recursive call on the next table.
  unfoldable pub foreach_entry : (ℕ → S → Outcome S) → ℕ → ℕ → List DosPartition → S → Outcome S
  foreach_entry follow extend_start part_start [] s = Outcome.returned (pos 0) s
  foreach_entry follow extend_start part_start (part ∷ rest) s =
      if part.sys_ind == 0
      then foreach_entry follow extend_start part_start rest s
      else elim (cb part extend_start part_start s) [
        | Outcome.returned ret s' ↦
            if is_negative ret
            then Outcome.returned ret s'
            else if is_extended part.sys_ind
            then follow part.start s'
            else foreach_entry follow extend_start part_start rest s'
        | Outcome.out_of_bounds ↦ Outcome.out_of_bounds
        | Outcome.still_running ↦ Outcome.still_running
      ]

  -- `start * SECTOR_SIZE` is a product of `uint32_t`. The fuel counts the tables that are read.
  unfoldable pub mbr_foreach_extended : (ℕ → Option (List ℕ)) → ℕ → ℕ → ℕ → S → Outcome S
  mbr_foreach_extended disk zero extend_start part_start s = Outcome.still_running
  mbr_foreach_extended disk (suc fuel) extend_start part_start s =
      let start = (extend_start + part_start) % 2 ^ 32 in
      elim (disk (start * 512 % 2 ^ 32)) [
        | none ↦ Outcome.returned minus_one s
        | some buf ↦
            if magic_differs buf
            then Outcome.returned (pos 0) s
            else foreach_entry (mbr_foreach_extended disk fuel extend_start) extend_start part_start
                (entries buf) s
      ]

-- A copy to `logic[MAX_EXT_PARTS]` is out of bounds.
unfoldable pub mbr_save_logic_cb : DosPartition → ℕ → ℕ → Private → Outcome Private
mbr_save_logic_cb part extend_start part_start p =
    let logic_start = (part.start + part_start + extend_start) % 2 ^ 32 in
    let saved : Private = record p {
      logic = set p.logic p.logic_counts (record part { start = logic_start });
      logic_counts = p.logic_counts + 1;
    } in
    if ltb max_ext_parts p.logic_counts
    then Outcome.returned minus_one p
    else if is_extended part.sys_ind
    then Outcome.returned (pos 0) p
    else if leb max_ext_parts p.logic_counts
    then Outcome.out_of_bounds
    else Outcome.returned (pos 0) saved
