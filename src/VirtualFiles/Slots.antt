-- ===== src/VirtualFiles/Slots.antt =====
-- The table of virtual_file.c after a change of one slot.
use imgeditor.Common.{◌≤◌, ◌≡◌, refl, ◌∙◌, ap, ap₂, sym, arith, inl, inr}
use imgeditor.Common.{Bool, true, false, ◌&&◌, Option, none, some, Bool-cases, if◌then◌else◌}
use imgeditor.Common.{List, ◌∷◌, ◌++◌, length, length-append, ℤ}
use imgeditor.VirtualFiles.{VirtualFile, max_virtual_file, same_fd}
use imgeditor.VirtualFiles.Table.{
  one_if, Part, matches, view, count, same_fd_eq, view-none, none-view, count-insert, view-skip,
  view-only,
}

abbrev pub Parts : Type 0
Parts = ℤ → Option Part

abbrev pub update : Parts → ℤ → Option Part → Parts
update f fd part fd' = if same_fd fd fd' then part else f fd'

-- The table has 32 slots, of which at most one has a descriptor, and shows the parts.
pub record Represents (vfps : List VirtualFile) (f : Parts) : Type 0 where
  pub sized : length vfps ≡ max_virtual_file
  pub unique : (fd : ℤ) → count vfps fd ≤ 1
  pub seen : (fd : ℤ) → view vfps fd ≡ f fd

one_if_le : (b : Bool) → one_if b ≤ 1
one_if_le true = omega arith
one_if_le false = omega arith

pub free-matches : (v : VirtualFile) (fd : ℤ) → v.used ≡ false → matches v fd ≡ false
free-matches v fd free = ap (λ u. u && same_fd v.fd fd) free

pub other-matches : (v : VirtualFile) (fd : ℤ) → same_fd v.fd fd ≡ false → matches v fd ≡ false
other-matches v fd other = elim (Bool-cases v.used) [
  | inl used ↦ ap₂ (λ u s. u && s) used other
  | inr free ↦ free-matches v fd free
]

matches_eq : (v : VirtualFile) (fd : ℤ) → matches v fd ≡ true → v.fd ≡ fd
matches_eq v fd m = elim (Bool-cases (same_fd v.fd fd)) [
  | inl same ↦ same_fd_eq v.fd fd same
  | inr other ↦ absurd (grind (arith, m, other-matches v fd other))
]

length-middle :
    (pre : List VirtualFile) (v w : VirtualFile) (post : List VirtualFile)
    → length (pre ++ w ∷ post) ≡ length (pre ++ v ∷ post)
length-middle pre v w post = length-append pre (w ∷ post) ∙ sym (length-append pre (v ∷ post))

module _ (f : Parts) (pre : List VirtualFile) (v w : VirtualFile) (post : List VirtualFile)
    (rep : Represents (pre ++ v ∷ post) f) where
  pub rest-view : (fd : ℤ) → matches v fd ≡ false → view (pre ++ post) fd ≡ f fd
  rest-view fd other = sym (view-skip pre v post fd other) ∙ rep.seen fd

  -- Another slot that is not used takes the place of one.
  pub free-Represents : v.used ≡ false → w.used ≡ false → Represents (pre ++ w ∷ post) f
  free-Represents v_free w_free = record {
    sized = length-middle pre v w post ∙ rep.sized;
    unique = λ fd.
        let before = count-insert pre v post fd in
        let after = count-insert pre w post fd in
        let no_v : one_if (matches v fd) ≡ 0 = rw (free-matches v fd v_free) refl in
        let no_w : one_if (matches w fd) ≡ 0 = rw (free-matches w fd w_free) refl in
        omega (arith, before, after, no_v, no_w, rep.unique fd);
    seen = λ fd.
        view-skip pre w post fd (free-matches w fd w_free)
        ∙ rest-view fd (free-matches v fd v_free);
  }

  -- A slot that is not used is given to a descriptor that no slot has.
  pub taken-Represents :
      v.used ≡ false
      → w.used ≡ true
      → f w.fd ≡ none
      → Represents (pre ++ w ∷ post) (update f w.fd (some (w.start_offset, w.total_length)))
  taken-Represents v_free w_used fresh = record {
    sized = length-middle pre v w post ∙ rep.sized;
    unique = λ fd.
        let before = count-insert pre v post fd in
        let after = count-insert pre w post fd in
        let no_v : one_if (matches v fd) ≡ 0 = rw (free-matches v fd v_free) refl in
        elim (Bool-cases (same_fd w.fd fd)) [
          | inl same ↦
              let gone =
                rest-view fd (free-matches v fd v_free)
                ∙ ap f (sym (same_fd_eq w.fd fd same))
                ∙ fresh in
              let one : one_if (matches w fd) ≤ 1 = one_if_le (matches w fd) in
              omega (arith, after, one, view-none (pre ++ post) fd gone)
          | inr other ↦
              let no_w : one_if (matches w fd) ≡ 0 = rw (other-matches w fd other) refl in
              omega (arith, before, after, no_v, no_w, rep.unique fd)
        ];
    seen = λ fd. elim (Bool-cases (same_fd w.fd fd)) [
      | inl same ↦
          let gone =
            rest-view fd (free-matches v fd v_free)
            ∙ ap f (sym (same_fd_eq w.fd fd same))
            ∙ fresh in
          view-only pre w post fd (ap₂ (λ u s. u && s) w_used same) gone ∙ rw same refl
      | inr other ↦
          view-skip pre w post fd (other-matches w fd other)
          ∙ rest-view fd (free-matches v fd v_free)
          ∙ rw other refl
    ];
  }

  -- The slot of a descriptor is given back.
  pub released-Represents :
      (fd : ℤ)
      → matches v fd ≡ true
      → w.used ≡ false
      → Represents (pre ++ w ∷ post) (update f fd none)
  released-Represents fd same w_free = record {
    sized = length-middle pre v w post ∙ rep.sized;
    unique = λ fd'.
        let no_w : one_if (matches w fd') ≡ 0 = rw (free-matches w fd' w_free) refl in
        omega
          (arith, count-insert pre v post fd', count-insert pre w post fd', no_w, rep.unique fd');
    seen = λ fd'.
        view-skip pre w post fd' (free-matches w fd' w_free) ∙ elim (Bool-cases (same_fd fd fd')) [
          | inl equal ↦
              let one : one_if (matches v fd) ≡ 1 = rw same refl in
              let gone =
                none-view (pre ++ post) fd
                  (omega (arith, one, count-insert pre v post fd, rep.unique fd)) in
              ap (view (pre ++ post)) (sym (same_fd_eq fd fd' equal)) ∙ gone ∙ rw equal refl
          | inr other ↦
              let v_other =
                other-matches v fd' (ap (λ k. same_fd k fd') (matches_eq v fd same) ∙ other) in
              rest-view fd' v_other ∙ rw other refl
        ];
  }
