-- ===== src/Mbr/Examples.antt =====
-- The theorems on DOS partition tables at small disks.
use imgeditor.Common.{
  ℕ, ◌+◌, ◌≡◌, refl, arith, Bool, true, false, inr, ◌⊎◌, Option, none, some, List, [], ◌∷◌, ◌++◌,
}
use imgeditor.Common.{replicate, length, length-replicate, pos, ◌==◌, if◌then◌else◌}
use imgeditor.Partitions.{empty_table, register_weak_disk_partitions}
use imgeditor.Mbr.{
  DosPartition, Private, Outcome, is_extended, entries, entry_at, le32_at, magic_differs,
}
use imgeditor.Mbr.{mbr_foreach_extended, mbr_save_logic_cb, max_ext_parts}
use imgeditor.Mbr.Detect.{mbr_detect, no_entry}
use imgeditor.Mbr.Chain.{Chain, Saved, logic_of, next_of}
use imgeditor.Mbr.Walk.{foreach_extended-Saved, foreach_extended-full, foreach_extended_cycles}
use imgeditor.Mbr.Fill.{NoExtended, AllUsed}
use imgeditor.Mbr.Sector.{taken, partition_of, mbr_detect-overflows, mbr_detect-plain}

abbrev entry_bytes : ℕ → ℕ → ℕ → List ℕ
entry_bytes kind start size =
    0 ∷ 0 ∷ 0 ∷ 0 ∷ kind ∷ 0 ∷ 0 ∷ 0 ∷ start ∷ 0 ∷ 0 ∷ 0 ∷ size ∷ 0 ∷ 0 ∷ 0 ∷ []

abbrev sector_of : List ℕ → List ℕ → List ℕ → List ℕ → List ℕ
sector_of a b c d = replicate 446 0 ++ (a ++ (b ++ (c ++ (d ++ (0x55 ∷ 0xaa ∷ [])))))

abbrev empty_bytes : List ℕ
empty_bytes = replicate 16 0

-- Four Linux partitions; three of them; a logical partition; a table that names itself.
abbrev four : List ℕ
four =
    sector_of (entry_bytes 0x83 1 2) (entry_bytes 0x83 3 2) (entry_bytes 0x83 5 2)
      (entry_bytes 0x83 7 2)

abbrev three : List ℕ
three = sector_of (entry_bytes 0x83 1 2) (entry_bytes 0x83 3 2) (entry_bytes 0x83 5 2) empty_bytes

abbrev one_logical : List ℕ
one_logical = sector_of (entry_bytes 0x83 1 2) empty_bytes empty_bytes empty_bytes

abbrev itself : List ℕ
itself = sector_of (entry_bytes 0x05 0 2) empty_bytes empty_bytes empty_bytes

-- A disk that has one extended table, at sector 2048.
abbrev disk_with : List ℕ → ℕ → Option (List ℕ)
disk_with buf offset = if offset == 1048576 then some buf else none

abbrev private_with : ℕ → Private
private_with n = record {
  disksig = 0;
  primary = [];
  logic_counts = n;
  logic = replicate 256 no_entry;
}

private_sized : (n : ℕ) → length (private_with n).logic ≡ max_ext_parts
private_sized n = length-replicate 256 no_entry

abbrev listed : List DosPartition
listed = logic_of 2048 0 (entries one_logical)

one_logical-Chain : Chain (disk_with one_logical) 2048 1 0 listed
unfolding next_of entries entry_at is_extended magic_differs
one_logical-Chain = Chain.last {buf = one_logical} refl refl refl

one_logical-length : length listed ≡ 1
unfolding logic_of entries entry_at is_extended
one_logical-length = refl

foreach_extended-Saved_example :
    (p' : Private) × (mbr_foreach_extended mbr_save_logic_cb
        (disk_with one_logical)
        1
        2048
        0
        (private_with 0)
      ≡ Outcome.returned (pos 0) p')
    × Saved (private_with 0) listed p'
foreach_extended-Saved_example =
    foreach_extended-Saved (disk_with one_logical) 2048 1 0 1 listed (private_with 0)
      one_logical-Chain (omega arith) (private_sized 0) (omega (arith, one_logical-length))

foreach_extended-full_example :
    mbr_foreach_extended mbr_save_logic_cb (disk_with one_logical) 1 2048 0 (private_with 256)
    ≡ Outcome.out_of_bounds
foreach_extended-full_example =
    foreach_extended-full (disk_with one_logical) 2048 1 0 1 listed (private_with 256)
      one_logical-Chain (omega arith) (private_sized 256) (omega arith)
      (omega (arith, one_logical-length))

itself_next : next_of (entries itself) ≡ some 0
unfolding next_of entries entry_at is_extended le32_at
itself_next = refl

itself_lists_none : logic_of 2048 0 (entries itself) ≡ []
unfolding logic_of entries entry_at is_extended
itself_lists_none = refl

itself_magic : magic_differs itself ≡ false
unfolding magic_differs
itself_magic = refl

foreach_extended_cycles_example :
    mbr_foreach_extended mbr_save_logic_cb (disk_with itself) 1000 2048 0 (private_with 0)
    ≡ Outcome.still_running
foreach_extended_cycles_example =
    foreach_extended_cycles (disk_with itself) 2048 0 itself (private_with 0) refl itself_magic
      itself_next itself_lists_none (private_sized 0) (omega arith) 1000

-- The digits of a number below ten, as `%zu` prints it.
abbrev digit : ℕ → List ℕ
digit n = (b'0' + n) ∷ []

abbrev no_disk : ℕ → Option (List ℕ)
no_disk offset = none

four_magic : magic_differs four ≡ false
unfolding magic_differs
four_magic = refl

four_open : (◌≡◌ {A = Bool} false true) ⊎ (((entry_at four 0x1be).sys_ind == 0xee) ≡ false)
unfolding entry_at
four_open = inr refl

four-NoExtended : NoExtended (entries four)
unfolding entries entry_at is_extended
four-NoExtended = (refl, (refl, (refl, (refl, tt))))

four-AllUsed : AllUsed (entries four)
unfolding entries entry_at
four-AllUsed = (refl, (refl, (refl, (refl, tt))))

mbr_detect-plain_example :
    mbr_detect digit no_disk 0 true false (some four) (private_with 0) empty_table
    ≡ Outcome.returned (pos 0) (
      taken digit no_disk 0 four (private_with 0) empty_table,
      register_weak_disk_partitions empty_table (record {
        disk_type = b'M' ∷ b'B' ∷ b'R' ∷ [];
        score = 0;
        parts =
            partition_of digit no_disk 0 four (private_with 0) empty_table 1 (entry_at four 0x1be)
            ∷ partition_of digit no_disk 0 four (private_with 0) empty_table 2 (entry_at four 0x1ce)
            ∷ partition_of digit no_disk 0 four (private_with 0) empty_table 3 (entry_at four 0x1de)
            ∷ partition_of digit no_disk 0 four (private_with 0) empty_table 4 (entry_at four 0x1ee)
            ∷ [];
      }),
    )
mbr_detect-plain_example =
    mbr_detect-plain digit no_disk 0 four (private_with 0) empty_table false four_magic four_open
      refl four-NoExtended four-AllUsed

three_magic : magic_differs three ≡ false
unfolding magic_differs
three_magic = refl

three_open : (◌≡◌ {A = Bool} false true) ⊎ (((entry_at three 0x1be).sys_ind == 0xee) ≡ false)
unfolding entry_at
three_open = inr refl

three-NoExtended : NoExtended (entries three)
unfolding entries entry_at is_extended
three-NoExtended = (refl, (refl, (refl, (refl, tt))))

three_last : (entry_at three 0x1ee).sys_ind ≡ 0
unfolding entry_at
three_last = refl

mbr_detect-overflows_example :
    mbr_detect digit no_disk 0 true false (some three) (private_with 0) empty_table
    ≡ Outcome.out_of_bounds
mbr_detect-overflows_example =
    mbr_detect-overflows digit no_disk 0 three (private_with 0) empty_table false three_magic
      three_open refl three-NoExtended three_last
