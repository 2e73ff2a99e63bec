-- ===== src/Mbr/Chain.antt =====
-- The chain of extended tables as a relation, and the walk of disk/mbr.c along it.
use imgeditor.Common.{ℕ, zero, suc, ◌+◌, ◌*◌, ◌%◌, ◌^◌, ◌≤◌, ◌<◌, ◌≡◌, refl, ◌∙◌, ap, sym, arith}
use imgeditor.Common.{true, false, Option, none, some, List, [], ◌∷◌, ◌++◌}
use imgeditor.Common.{
  length, set, take, length-set, length-append, ltb, leb, ◌==◌, if◌then◌else◌, pos,
}
use mathlib.Core.List.{append_assoc, append-nil}
use imgeditor.Mbr.{
  DosPartition, Private, Outcome, is_extended, entries, magic_differs, max_ext_parts,
}
use imgeditor.Mbr.{mbr_save_logic_cb}

take-set_next :
    {A : Type 0} (xs : List A) (n : ℕ) (v : A)
    → n < length xs
    → take (suc n) (set xs n v) ≡ take n xs ++ (v ∷ [])
take-set_next [] n v h = absurd (omega arith)
take-set_next (x ∷ xs) zero v h = refl
take-set_next (x ∷ xs) (suc n) v h = ap (λ r. x ∷ r) (take-set_next xs n v (omega arith))

-- An entry with its start counted from the disk's first sector.
abbrev pub moved : ℕ → ℕ → DosPartition → DosPartition
moved extend_start part_start part = record part {
  start = (part.start + part_start + extend_start) % 2 ^ 32;
}

-- A table's logical partitions, up to its first entry for a further table, and that table.
unfoldable pub logic_of : ℕ → ℕ → List DosPartition → List DosPartition
logic_of extend_start part_start [] = []
logic_of extend_start part_start (part ∷ rest) =
    let later = logic_of extend_start part_start rest in
    if part.sys_ind == 0
    then later
    else if is_extended part.sys_ind
    then []
    else moved extend_start part_start part ∷ later

unfoldable pub next_of : List DosPartition → Option ℕ
next_of [] = none
next_of (part ∷ rest) =
    let later = next_of rest in
    if part.sys_ind == 0 then later else if is_extended part.sys_ind then some part.start else later

abbrev pub table_offset : ℕ → ℕ → ℕ
table_offset extend_start part_start = (extend_start + part_start) % 2 ^ 32 * 512 % 2 ^ 32

-- The tables from `part_start` on, their number, and the logical partitions that they list.
pub data Chain (disk : ℕ → Option (List ℕ)) (extend_start : ℕ)
    : ℕ → ℕ → List DosPartition → Type 0 where
  ended :
      {part_start : ℕ} {buf : List ℕ}
      → disk (table_offset extend_start part_start) ≡ some buf
      → magic_differs buf ≡ true
      → Chain disk extend_start 1 part_start []
  last :
      {part_start : ℕ} {buf : List ℕ}
      → disk (table_offset extend_start part_start) ≡ some buf
      → magic_differs buf ≡ false
      → next_of (entries buf) ≡ none
      → Chain disk extend_start 1 part_start (logic_of extend_start part_start (entries buf))
  link :
      {part_start next tables : ℕ} {buf : List ℕ} {later : List DosPartition}
      → disk (table_offset extend_start part_start) ≡ some buf
      → magic_differs buf ≡ false
      → next_of (entries buf) ≡ some next
      → Chain disk extend_start tables next later
      → Chain disk extend_start
          (suc tables)
          part_start
          (logic_of extend_start part_start (entries buf) ++ later)

abbrev pub logicals : Private → List DosPartition
logicals p = take p.logic_counts p.logic

-- `p'` is `p` with more logical partitions.
pub record Saved (p : Private) (more : List DosPartition) (p' : Private) : Type 0 where
  pub sized : length p'.logic ≡ max_ext_parts
  pub counted : p'.logic_counts ≡ p.logic_counts + length more
  pub listed : logicals p' ≡ logicals p ++ more
  pub same_primary : p'.primary ≡ p.primary
  pub same_disksig : p'.disksig ≡ p.disksig

pub Saved-none : (p : Private) → length p.logic ≡ max_ext_parts → Saved p [] p
Saved-none p sized = record {
  sized = sized;
  counted = omega arith;
  listed = sym (append-nil (logicals p));
  same_primary = refl;
  same_disksig = refl;
}

pub Saved-eq :
    (p : Private) (xs ys : List DosPartition) (p' : Private)
    → xs ≡ ys
    → Saved p ys p'
    → Saved p xs p'
Saved-eq p xs ys p' e saved = rw e saved

pub Saved-append :
    (p p' p'' : Private) (xs ys : List DosPartition)
    → Saved p xs p'
    → Saved p' ys p''
    → Saved p (xs ++ ys) p''
Saved-append p p' p'' xs ys one two = record {
  sized = two.sized;
  counted = omega (arith, one.counted, two.counted, length-append xs ys);
  listed = two.listed ∙ ap (λ l. l ++ ys) one.listed ∙ append_assoc (logicals p) xs ys;
  same_primary = two.same_primary ∙ one.same_primary;
  same_disksig = two.same_disksig ∙ one.same_disksig;
}

pub save-Saved :
    (extend_start part_start : ℕ) (part : DosPartition) (p : Private)
    → length p.logic ≡ max_ext_parts
    → p.logic_counts < max_ext_parts
    → is_extended part.sys_ind ≡ false
    → (p' : Private) × (mbr_save_logic_cb part extend_start part_start p
        ≡ Outcome.returned (pos 0) p')
      × Saved p (moved extend_start part_start part ∷ []) p'
unfolding mbr_save_logic_cb
save-Saved extend_start part_start part p sized room logical =
    let small : ltb max_ext_parts p.logic_counts ≡ false = ground arith in
    let fits : leb max_ext_parts p.logic_counts ≡ false = ground arith in
    let next_suc : suc p.logic_counts ≡ p.logic_counts + 1 = omega arith in
    let saved : Private = record p {
      logic = set p.logic p.logic_counts (moved extend_start part_start part);
      logic_counts = p.logic_counts + 1;
    } in
    (
      saved,
      rw (small, logical, fits) refl,
      record {
        sized = length-set p.logic p.logic_counts (moved extend_start part_start part) ∙ sized;
        counted = omega arith;
        listed = rw (sym next_suc) (
            take-set_next p.logic p.logic_counts (moved extend_start part_start part)
              (omega arith));
        same_primary = refl;
        same_disksig = refl;
      },
    )

pub save_full :
    (extend_start part_start : ℕ) (part : DosPartition) (p : Private)
    → p.logic_counts ≡ max_ext_parts
    → is_extended part.sys_ind ≡ false
    → mbr_save_logic_cb part extend_start part_start p ≡ Outcome.out_of_bounds
unfolding mbr_save_logic_cb
save_full extend_start part_start part p full logical = rw (full, logical) refl

pub save_extended :
    (extend_start part_start : ℕ) (part : DosPartition) (p : Private)
    → p.logic_counts ≤ max_ext_parts
    → is_extended part.sys_ind ≡ true
    → mbr_save_logic_cb part extend_start part_start p ≡ Outcome.returned (pos 0) p
unfolding mbr_save_logic_cb
save_extended extend_start part_start part p room extended =
    let small : ltb max_ext_parts p.logic_counts ≡ false = ground arith in rw (small, extended) refl
