-- ===== src/Partitions.antt =====
-- disk_partition.c: the table of partition tables found so far, and the lookup of an address.
-- The record holds the fields of `struct global_data` (gd_private.h) that this file uses. A cell of
-- the array is `none` for a null pointer; a read through one, which C leaves undefined, is the
-- answer `none` of `find_partition`. Scores are the non-negative constants of imgeditor.h.
-- `printf` at a high verbose level is left out.
pub mod Registry
pub mod Lookup
mod Examples
use imgeditor.Common.{
  ℕ, zero, suc, ◌+◌, ◌-◌, ◌≤◌, ◌<◌, ◌≡◌, Bool, true, false, ◌&&◌, Option, none, some,
}
use imgeditor.Common.{
  List, [], ◌∷◌, length, take, get_or, set, replicate, ltb, leb, ◌==◌, if◌then◌else◌,
}

pub record Partition : Type 0 where
  pub name : List ℕ
  pub start_addr : ℕ
  pub end_addr : ℕ

pub record Partitions : Type 0 where
  pub disk_type : List ℕ
  pub score : ℕ
  pub parts : List Partition

pub record Table : Type 0 where
  pub active : ℕ
  pub cells : List (Option Partitions)

abbrev pub gd_max_partitions : ℕ
gd_max_partitions = 8

abbrev pub score_weak : ℕ
score_weak = 10

abbrev pub score_good : ℕ
score_good = 80

-- The table of a process that has registered nothing.
abbrev pub empty_table : Table
empty_table = record { active = 0; cells = replicate gd_max_partitions none }

-- When the table is full, `dp` is freed and nothing changes.
unfoldable pub register_disk_partitions : Table → Partitions → Table
register_disk_partitions t dp =
    let dp' : Partitions = record dp { score = if dp.score == 0 then score_good else dp.score } in
    if ltb t.active gd_max_partitions
    then record { active = t.active + 1; cells = set t.cells t.active (some dp') }
    else t

unfoldable pub register_weak_disk_partitions : Table → Partitions → Table
register_weak_disk_partitions t dp = register_disk_partitions t (record dp { score = score_weak })

-- `calloc` of `n_parts` zeroed entries behind the head. `snprintf` into `disk_type`, of 64 bytes, keeps
-- 63 bytes of the name.
unfoldable pub alloc_disk_partitions : Bool → List ℕ → ℕ → Option Partitions
alloc_disk_partitions has_memory disk_type n_parts =
    if has_memory
    then some (record {
      disk_type = take 63 disk_type;
      score = 0;
      parts = replicate n_parts (record { name = []; start_addr = 0; end_addr = 0 });
    })
    else none

-- The loop over the cells from `i` on, with `left` of them to go.
unfoldable pub free_loop : ℕ → ℕ → List (Option Partitions) → List (Option Partitions)
free_loop zero i cells = cells
free_loop (suc left) i cells = free_loop left (i + 1) (set cells i none)

unfoldable pub free_registed_disk_partitions : Table → Table
free_registed_disk_partitions t = record { active = 0; cells = free_loop t.active 0 t.cells }

-- The local variables of `find_registed_partition`, and `*ret_disk_type`.
pub record Best : Type 0 where
  pub best_part : Option Partition
  pub best_score : ℕ
  pub ret_disk_type : Option (List ℕ)

abbrev pub contains : Partition → ℕ → Bool
contains part addr = leb part.start_addr addr && leb addr part.end_addr

-- One round of the inner loop.
unfoldable pub consider : ℕ → Partitions → Partition → Best → Best
consider addr dp part best =
    let better : Best = record {
      best_part = some part;
      best_score = dp.score;
      ret_disk_type = some dp.disk_type;
    } in
    if contains part addr
    then if ltb best.best_score dp.score
      then better
      else record best { ret_disk_type = some dp.disk_type }
    else best

unfoldable pub parts_loop : ℕ → Partitions → List Partition → Best → Best
parts_loop addr dp [] best = best
parts_loop addr dp (part ∷ rest) best = parts_loop addr dp rest (consider addr dp part best)

unfoldable pub cells_loop : ℕ → ℕ → ℕ → List (Option Partitions) → Best → Option Best
cells_loop addr zero i cells best = some best
cells_loop addr (suc left) i cells best = elim (get_or cells i none) [
  | none ↦ none
  | some dp ↦ cells_loop addr left (i + 1) cells (parts_loop addr dp dp.parts best)
]

abbrev pub nothing_found : Best
nothing_found = record { best_part = none; best_score = 0; ret_disk_type = none }

unfoldable pub find_registed_partition : Table → ℕ → Option Best
find_registed_partition t addr = cells_loop addr t.active 0 t.cells nothing_found
