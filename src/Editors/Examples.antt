-- ===== src/Editors/Examples.antt =====
-- The registry of gd.c with two editors.
use imgeditor.Common.{◌≡◌, refl, arith, some, [], ◌∷◌}
use imgeditor.Editors.{Editor, Exports, no_exports, gd_export_imgeditor, gd_get_imgeditor, get_loop}
use imgeditor.Editors.Registry.{
  Represents, with_export, first_named, export-Represents, get-IsFirst,
}

abbrev mbr : Editor
mbr = record { name = b'm' ∷ []; id = 0 }

abbrev gpt : Editor
gpt = record { name = b'g' ∷ []; id = 1 }

none-Represents : Represents no_exports []
none-Represents = record {
  counted = refl;
  bounded = omega arith;
  sized = refl;
  stored = λ i d h. absurd (omega arith);
}

abbrev two : Exports
two = gd_export_imgeditor (gd_export_imgeditor no_exports mbr) gpt

two_listed : with_export (with_export [] mbr) gpt ≡ mbr ∷ gpt ∷ []
unfolding with_export
two_listed = refl

export-Represents_example : Represents (gd_export_imgeditor no_exports mbr) (with_export [] mbr)
export-Represents_example = export-Represents no_exports [] mbr none-Represents

two-Represents : Represents two (with_export (with_export [] mbr) gpt)
two-Represents =
    export-Represents (gd_export_imgeditor no_exports mbr) (with_export [] mbr) gpt
      (export-Represents no_exports [] mbr none-Represents)

get-IsFirst_example :
    gd_get_imgeditor two (b'g' ∷ [])
    ≡ some (first_named (with_export (with_export [] mbr) gpt) (b'g' ∷ []))
get-IsFirst_example =
    get-IsFirst two (with_export (with_export [] mbr) gpt) (b'g' ∷ []) two-Represents

two_found : gd_get_imgeditor two (b'g' ∷ []) ≡ some (some gpt)
unfolding gd_get_imgeditor get_loop gd_export_imgeditor
two_found = refl
