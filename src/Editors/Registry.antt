-- ===== src/Editors/Registry.antt =====
-- The registry as the list of the editors that were exported, oldest first.
use imgeditor.Common.{ℕ, zero, suc, ◌+◌, ◌≤◌, ◌<◌, ◌≡◌, refl, ◌∙◌, ap, sym, arith, inl, inr}
use imgeditor.Common.{true, false, Option, none, some, List, [], ◌∷◌, ◌++◌, get_or, length}
use imgeditor.Common.{
  ltb, if◌then◌else◌, lt-or-ge, length-append, get_or-append_left, get_or-append_right,
}
use imgeditor.Common.{get_or-set_self, get_or-set_ne, length-set, Bool-cases}
use imgeditor.Editors.{
  Editor, Exports, gd_max_imgeditor, same_name, gd_export_imgeditor, get_loop, gd_get_imgeditor,
}

pub record Represents (gd : Exports) (exported : List Editor) : Type 0 where
  pub counted : gd.counts ≡ length exported
  pub bounded : length exported ≤ gd_max_imgeditor
  pub sized : length gd.editors ≡ gd_max_imgeditor
  pub stored :
      (i : ℕ) (d : Editor)
      → i < length exported
      → get_or gd.editors i none ≡ some (get_or exported i d)

-- What an export makes of the list: a full registry drops the editor.
unfoldable pub with_export : List Editor → Editor → List Editor
with_export exported editor =
    if ltb (length exported) gd_max_imgeditor then exported ++ (editor ∷ []) else exported

-- The first editor of a name.
unfoldable pub first_named : List Editor → List ℕ → Option Editor
first_named [] name = none
first_named (editor ∷ rest) name =
    let later = first_named rest name in if same_name editor.name name then some editor else later

-- gd_export_imgeditor appends the editor to the list that the registry stands for, and drops it
-- when there are 64 already.
pub export-Represents :
    (gd : Exports) (exported : List Editor) (editor : Editor)
    → Represents gd exported
    → Represents (gd_export_imgeditor gd editor) (with_export exported editor)
unfolding gd_export_imgeditor with_export
export-Represents gd exported editor rep = elim (lt-or-ge (length exported) gd_max_imgeditor) [
  | inl room ↦
      let test : ltb (length exported) gd_max_imgeditor ≡ true = ground arith in
      let test' : ltb gd.counts gd_max_imgeditor ≡ true = rw rep.counted test in
      rw (test, test')
        (record {
          counted = omega (arith, rep.counted, length-append exported (editor ∷ []));
          bounded = omega (arith, length-append exported (editor ∷ []));
          sized = length-set gd.editors gd.counts (some editor) ∙ rep.sized;
          stored = λ i d h. elim (lt-or-ge i (length exported)) [
            | inl old ↦
                get_or-set_ne gd.editors gd.counts i (some editor) none
                  (λ e. omega (arith, rep.counted, e))
                ∙ rep.stored i d old
                ∙ ap some (sym (get_or-append_left exported (editor ∷ []) i d old))
            | inr new ↦
                let last : gd.counts ≡ i =
                  omega (arith, rep.counted, length-append exported (editor ∷ [])) in
                rw (sym last) (
                  get_or-set_self gd.editors gd.counts (some editor) none
                    (omega (arith, rep.counted, rep.sized))
                  ∙ ap some (
                      sym (
                        get_or-append_right exported (editor ∷ []) gd.counts 0 d
                          (omega (arith, rep.counted)))))
          ];
        })
  | inr full ↦
      let test : ltb (length exported) gd_max_imgeditor ≡ false = ground arith in
      let test' : ltb gd.counts gd_max_imgeditor ≡ false = rw rep.counted test in
      rw (test, test') rep
]

get_loop-end :
    (i : ℕ) (cells : List (Option Editor)) (name : List ℕ) → get_loop zero i cells name ≡ some none
unfolding get_loop
get_loop-end i cells name = refl

get_loop-cell :
    (left i : ℕ) (cells : List (Option Editor)) (name : List ℕ) (editor : Editor)
    → get_or cells i none ≡ some editor
    → get_loop (suc left) i cells name ≡ (
        if same_name editor.name name then some (some editor) else get_loop left (i + 1) cells name)
unfolding get_loop
get_loop-cell left i cells name editor here = rw (get_loop, here) refl

get_loop-first :
    (rest : List Editor) (i : ℕ) (cells : List (Option Editor)) (name : List ℕ)
    → ((j : ℕ) (d : Editor) → j < length rest → get_or cells (i + j) none ≡ some (get_or rest j d))
    → get_loop (length rest) i cells name ≡ some (first_named rest name)
unfolding first_named
get_loop-first [] i cells name stored = get_loop-end i cells name
get_loop-first (editor ∷ rest) i cells name stored =
    let start : i + 0 ≡ i = omega arith in
    let here : get_or cells i none ≡ some editor = rw start at (stored 0 editor (omega arith)) in
    let later : (j : ℕ) (d : Editor)
        → j < length rest
        → get_or cells (i + 1 + j) none ≡ some (get_or rest j d) =
      λ j d h.
        let e : i + 1 + j ≡ i + suc j = omega arith in rw e (stored (suc j) d (omega arith)) in
    let rest_found = get_loop-first rest (i + 1) cells name later in
    get_loop-cell (length rest) i cells name editor here
    ∙ elim (Bool-cases (same_name editor.name name)) [
      | inl same ↦ rw same refl
      | inr other ↦ rw other rest_found
    ]

-- gd_get_imgeditor reads no null cell and finds the first exported editor of the name, and NULL
-- if there is none.
pub get-IsFirst :
    (gd : Exports) (exported : List Editor) (name : List ℕ)
    → Represents gd exported
    → gd_get_imgeditor gd name ≡ some (first_named exported name)
unfolding gd_get_imgeditor
get-IsFirst gd exported name rep = rw rep.counted (
    get_loop-first exported 0 gd.editors name
      (λ j d h. let e : 0 + j ≡ j = omega arith in rw e (rep.stored j d h)))
