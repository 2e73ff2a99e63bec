-- ===== src/Mbr/Entries.antt =====
-- The loop of `mbr_foreach_extended` over one table's entries, with `mbr_save_logic_cb`.
use imgeditor.Common.{ℕ, ◌+◌, ◌≤◌, ◌<◌, ◌≡◌, refl, ◌∙◌, ap, sym, arith, inl, inr}
use imgeditor.Common.{true, false, Option, none, some, List, [], ◌∷◌, Bool-cases, lt-or-ge}
use imgeditor.Common.{length, ◌==◌, pos}
use imgeditor.Mbr.{DosPartition, Private, Outcome, is_extended, max_ext_parts}
use imgeditor.Mbr.{foreach_entry, mbr_save_logic_cb}
use imgeditor.Mbr.Chain.{moved, logic_of, next_of, Saved, Saved-none, Saved-append, Saved-eq}
use imgeditor.Mbr.Chain.{save-Saved, save_full, save_extended}

module _ (extend_start part_start : ℕ) (part : DosPartition) (rest : List DosPartition) where
  logic_of-empty :
      (part.sys_ind == 0) ≡ true
      → (logic_of extend_start part_start (part ∷ rest) ≡ logic_of extend_start part_start rest)
        × (next_of (part ∷ rest) ≡ next_of rest)
  unfolding logic_of next_of
  logic_of-empty empty = (rw empty refl, rw empty refl)

  logic_of-extended :
      (part.sys_ind == 0) ≡ false
      → is_extended part.sys_ind ≡ true
      → (logic_of extend_start part_start (part ∷ rest) ≡ [])
        × (next_of (part ∷ rest) ≡ some part.start)
  unfolding logic_of next_of
  logic_of-extended used extended = (rw (used, extended) refl, rw (used, extended) refl)

  logic_of-logical :
      (part.sys_ind == 0) ≡ false
      → is_extended part.sys_ind ≡ false
      → (logic_of extend_start part_start (part ∷ rest)
          ≡ moved extend_start part_start part ∷ logic_of extend_start part_start rest)
        × (next_of (part ∷ rest) ≡ next_of rest)
  unfolding logic_of next_of
  logic_of-logical used logical = (rw (used, logical) refl, rw (used, logical) refl)

module _ (extend_start part_start : ℕ) (follow : ℕ → Private → Outcome Private) where
  -- What the loop over a table does after it has saved the table's logical partitions.
  unfoldable pub after : Option ℕ → Private → Outcome Private
  after none p = Outcome.returned (pos 0) p
  after (some next) p = follow next p

  unfoldable pub entries_loop : List DosPartition → Private → Outcome Private
  entries_loop = foreach_entry mbr_save_logic_cb follow extend_start part_start

  pub logic_of-nil : logic_of extend_start part_start [] ≡ []
  unfolding logic_of
  logic_of-nil = refl

  pub nothing_left : (p : Private) → entries_loop [] p ≡ after (next_of []) p
  unfolding entries_loop foreach_entry after next_of
  nothing_left p = refl

  pub followed : (next : ℕ) (p : Private) → follow next p ≡ after (some next) p
  unfolding after
  followed next p = refl

  pub step-empty :
      (part : DosPartition) (rest : List DosPartition) (p : Private)
      → (part.sys_ind == 0) ≡ true
      → entries_loop (part ∷ rest) p ≡ entries_loop rest p
  unfolding entries_loop foreach_entry
  step-empty part rest p empty = rw empty refl

  step-extended :
      (part : DosPartition) (rest : List DosPartition) (p : Private)
      → (part.sys_ind == 0) ≡ false
      → is_extended part.sys_ind ≡ true
      → p.logic_counts ≤ max_ext_parts
      → entries_loop (part ∷ rest) p ≡ follow part.start p
  unfolding entries_loop foreach_entry
  step-extended part rest p used extended room =
      rw (used, save_extended extend_start part_start part p room extended) (rw extended refl)

  step-logical :
      (part : DosPartition) (rest : List DosPartition) (p p' : Private)
      → (part.sys_ind == 0) ≡ false
      → is_extended part.sys_ind ≡ false
      → mbr_save_logic_cb part extend_start part_start p ≡ Outcome.returned (pos 0) p'
      → entries_loop (part ∷ rest) p ≡ entries_loop rest p'
  unfolding entries_loop foreach_entry
  step-logical part rest p p' used logical call = rw (used, call) (rw logical refl)

  step-full :
      (part : DosPartition) (rest : List DosPartition) (p : Private)
      → (part.sys_ind == 0) ≡ false
      → mbr_save_logic_cb part extend_start part_start p ≡ Outcome.out_of_bounds
      → entries_loop (part ∷ rest) p ≡ Outcome.out_of_bounds
  unfolding entries_loop foreach_entry
  step-full part rest p used call = rw (used, call) refl

  pub entries_loop-Saved :
      (parts : List DosPartition) (p : Private)
      → length p.logic ≡ max_ext_parts
      → p.logic_counts + length (logic_of extend_start part_start parts) ≤ max_ext_parts
      → (p' : Private) × (entries_loop parts p ≡ after (next_of parts) p')
        × Saved p (logic_of extend_start part_start parts) p'
  entries_loop-Saved [] p sized room = (p, nothing_left p, rw logic_of-nil (Saved-none p sized))
  entries_loop-Saved (part ∷ rest) p sized room = elim (Bool-cases (part.sys_ind == 0)) [
    | inl empty ↦
        let (same, next) = logic_of-empty extend_start part_start part rest empty in
        let (p', loop, saved) = entries_loop-Saved rest p sized (rw same at room) in
        (
          p',
          step-empty part rest p empty ∙ loop ∙ ap (λ n. after n p') (sym next),
          Saved-eq p _ _ p' same saved,
        )
    | inr used ↦ elim (Bool-cases (is_extended part.sys_ind)) [
      | inl extended ↦
          let (none_left, next) =
            logic_of-extended extend_start part_start part rest used extended in
          (
            p,
            step-extended part rest p used extended (omega arith)
                ∙ followed part.start p
                ∙ ap (λ n. after n p) (sym next),
            Saved-eq p _ _ p none_left (Saved-none p sized),
          )
      | inr logical ↦
          let (listed, next) = logic_of-logical extend_start part_start part rest used logical in
          let grown = ap length listed in
          let (p1, call, one) =
            save-Saved extend_start part_start part p sized (omega arith) logical in
          let (p2, loop, more) =
            entries_loop-Saved rest p1 one.sized (omega (arith, one.counted)) in
          (
            p2,
            step-logical part rest p p1 used logical call ∙ loop ∙ ap (λ n. after n p2) (sym next),
            Saved-eq p _ _ p2 listed (
                Saved-append p p1 p2 (moved extend_start part_start part ∷ [])
                  (logic_of extend_start part_start rest) one more),
          )
    ]
  ]

  -- More logical partitions than the array holds are written behind its end.
  pub entries_loop-full :
      (parts : List DosPartition) (p : Private)
      → length p.logic ≡ max_ext_parts
      → p.logic_counts ≤ max_ext_parts
      → max_ext_parts < p.logic_counts + length (logic_of extend_start part_start parts)
      → entries_loop parts p ≡ Outcome.out_of_bounds
  entries_loop-full [] p sized some_room many =
      let e = ap length logic_of-nil in absurd (omega arith)
  entries_loop-full (part ∷ rest) p sized some_room many = elim (Bool-cases (part.sys_ind == 0)) [
    | inl empty ↦
        let (same, next) = logic_of-empty extend_start part_start part rest empty in
        step-empty part rest p empty ∙ entries_loop-full rest p sized some_room (rw same at many)
    | inr used ↦ elim (Bool-cases (is_extended part.sys_ind)) [
      | inl extended ↦
          let (none_left, next) =
            logic_of-extended extend_start part_start part rest used extended in
          let e = ap length none_left in absurd (omega arith)
      | inr logical ↦
          let (listed, next) = logic_of-logical extend_start part_start part rest used logical in
          let grown = ap length listed in
          elim (lt-or-ge p.logic_counts max_ext_parts) [
            | inl room ↦
                let (p1, call, one) =
                  save-Saved extend_start part_start part p sized room logical in
                step-logical part rest p p1 used logical call
                ∙ entries_loop-full rest p1 one.sized (omega (arith, one.counted))
                    (omega (arith, one.counted))
            | inr full ↦
                step-full part rest p used
                  (save_full extend_start part_start part p (omega arith) logical)
          ]
    ]
  ]
