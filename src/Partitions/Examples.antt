-- ===== src/Partitions/Examples.antt =====
-- The partition table's theorems at a GPT table and an MBR table of one disk.
use imgeditor.Common.{◌≡◌, refl, arith, none, some, [], ◌∷◌}
use imgeditor.Partitions.{Partition, Partitions, Table, Best, empty_table, score_weak}
use imgeditor.Partitions.{register_disk_partitions, register_weak_disk_partitions}
use imgeditor.Partitions.{free_registed_disk_partitions, find_registed_partition}
use imgeditor.Partitions.Registry.{Represents, appended, register-Represents, free-Represents}
use imgeditor.Partitions.Lookup.{IsBest, hits, find-IsBest}

abbrev boot : Partition
boot = record { name = b'b' ∷ []; start_addr = 1024; end_addr = 4095 }

abbrev whole : Partition
whole = record { name = b'w' ∷ []; start_addr = 512; end_addr = 8191 }

abbrev gpt : Partitions
gpt = record { disk_type = b'g' ∷ []; score = 80; parts = boot ∷ [] }

abbrev mbr : Partitions
mbr = record { disk_type = b'm' ∷ []; score = 10; parts = whole ∷ [] }

abbrev both : Table
both = record {
  active = 2;
  cells = some gpt ∷ some mbr ∷ none ∷ none ∷ none ∷ none ∷ none ∷ none ∷ [];
}

both-Represents : Represents both (gpt ∷ mbr ∷ [])
both-Represents = record {
  counted = refl;
  bounded = omega arith;
  stored = refl;
  scored = omega arith;
}

-- Registering the two gives this table.
both_registered :
    register_weak_disk_partitions (register_disk_partitions empty_table gpt) mbr ≡ both
unfolding register_weak_disk_partitions register_disk_partitions
both_registered = refl

register-Represents_example :
    Represents (register_disk_partitions both gpt) (appended (gpt ∷ mbr ∷ []) gpt)
    × Represents
        (register_weak_disk_partitions both gpt)
        (appended (gpt ∷ mbr ∷ []) (record gpt { score = score_weak }))
register-Represents_example = register-Represents both (gpt ∷ mbr ∷ []) gpt both-Represents

free-Represents_example :
    (free_registed_disk_partitions both ≡ empty_table) × Represents empty_table []
free-Represents_example = free-Represents both (gpt ∷ mbr ∷ []) both-Represents

find-IsBest_example :
    (best : Best) × (find_registed_partition both 2048 ≡ some best)
    × IsBest (hits 2048 (gpt ∷ mbr ∷ [])) best
find-IsBest_example = find-IsBest both (gpt ∷ mbr ∷ []) 2048 both-Represents
