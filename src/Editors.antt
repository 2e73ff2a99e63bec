-- ===== src/Editors.antt =====
-- gd.c: the registry of exported editors in `struct global_data` (gd_private.h). Of an
-- editor only the name is read here, so `id` stands for the other fields, which tell editors apart; a name has no zero byte, so `strcmp` compares the lists. A
-- cell of the array is `none` for a null pointer.
pub mod Registry
mod Examples
use imgeditor.Common.{ℕ, zero, suc, ◌+◌, Bool, true, false, ◌&&◌, Option, none, some, List, [], ◌∷◌}
use imgeditor.Common.{get_or, set, replicate, ltb, ◌==◌, if◌then◌else◌}

pub record Editor : Type 0 where
  pub name : List ℕ
  pub id : ℕ

pub record Exports : Type 0 where
  pub counts : ℕ
  pub editors : List (Option Editor)

abbrev pub gd_max_imgeditor : ℕ
gd_max_imgeditor = 64

abbrev pub no_exports : Exports
no_exports = record { counts = 0; editors = replicate gd_max_imgeditor none }

-- `!strcmp(a, b)`
abbrev pub same_name : List ℕ → List ℕ → Bool
same_name [] [] = true
same_name [] (y ∷ ys) = false
same_name (x ∷ xs) [] = false
same_name (x ∷ xs) (y ∷ ys) = x == y && same_name xs ys

unfoldable pub gd_export_imgeditor : Exports → Editor → Exports
gd_export_imgeditor gd editor =
    if ltb gd.counts gd_max_imgeditor
    then record { counts = gd.counts + 1; editors = set gd.editors gd.counts (some editor) }
    else gd

-- The loop at index `i`. The outer `none` is a read through a null pointer.
unfoldable pub get_loop : ℕ → ℕ → List (Option Editor) → List ℕ → Option (Option Editor)
get_loop zero i editors name = some none
get_loop (suc left) i editors name =
    let rest = get_loop left (i + 1) editors name in
    elim (get_or editors i none) [
      | none ↦ none
      | some editor ↦ if same_name editor.name name then some (some editor) else rest
    ]

unfoldable pub gd_get_imgeditor : Exports → List ℕ → Option (Option Editor)
gd_get_imgeditor gd name = get_loop gd.counts 0 gd.editors name
