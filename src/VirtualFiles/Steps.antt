-- ===== src/VirtualFiles/Steps.antt =====
-- What one call of virtual_file.c makes of the table and of the parts that it shows.
use imgeditor.Common.{ℕ, ◌+◌, ◌≡◌, refl, ◌∙◌, ap, sym, arith, inl, inr, ◌⊎◌}
use imgeditor.Common.{true, false, Option, none, some, Bool-cases}
use imgeditor.Common.{List, [], ◌∷◌, ◌++◌, set, ℤ, pos, negsuc, minus_one, is_negative}
use mathlib.Core.Path.{subst}
use imgeditor.VirtualFiles.{
  VirtualFile, same_fd, virtual_file_get, virtual_file_get_unused, filestart, difference, dup_slot,
  dup_in, virtual_file_dup, open_in, virtual_file_open, close_slot, virtual_file_close,
}
use imgeditor.VirtualFiles.Table.{
  view, start_of, same_fd_eq, view-skip, set-middle, get_from-Slot, filestart-view,
  unused_from-Slot,
}
use imgeditor.VirtualFiles.Slots.{
  Parts, update, Represents, free-matches, other-matches, rest-view, free-Represents,
  taken-Represents, released-Represents,
}

-- A slot is taken out of the table for a descriptor.
record Given (vfps : List VirtualFile) (f : Parts) (j : ℕ) (v' : VirtualFile)
    (vfps' : List VirtualFile) : Type 0 where
  pre : List VirtualFile
  post : List VirtualFile
  old : VirtualFile
  old_free : old.used ≡ false
  fresh : v' ≡ record old { used = true }
  rep : Represents (pre ++ old ∷ post) f
  put : (w : VirtualFile) → set vfps' j w ≡ pre ++ w ∷ post

get_unused-Given :
    (vfps : List VirtualFile) (f : Parts)
    → Represents vfps f
    → (virtual_file_get_unused vfps ≡ none)
      ⊎ ((j : ℕ) × (v' : VirtualFile) × (vfps' : List VirtualFile) × (virtual_file_get_unused vfps
            ≡ some (j, v', vfps'))
          × Given vfps f j v' vfps')
unfolding virtual_file_get_unused
get_unused-Given vfps f rep = elim (unused_from-Slot vfps 0) [
  | inl full ↦ inl full
  | inr (j, v, vfps', slot, found, free, whole) ↦ inr (
    j,
    record v { used = true },
    vfps',
    found,
    record {
      pre = slot.pre;
      post = slot.post;
      old = v;
      old_free = free;
      fresh = refl;
      rep = subst (λ t. Represents t f) slot.whole rep;
      put = λ w.
          ap (λ t. set t j w) whole
          ∙ set-middle slot.pre (record v { used = true }) w slot.post j
              (omega (arith, slot.index));
    },
  )
]

dup_slot-start :
    (vfps : List VirtualFile) (f : Parts) (j n : ℕ) (v' : VirtualFile) (vfps' : List VirtualFile)
    (ref_fd : ℤ)
    → Given vfps f j v' vfps'
    → same_fd (pos n) ref_fd ≡ false
    → filestart (set vfps' j (record v' { fd = pos n })) ref_fd ≡ start_of (f ref_fd)
dup_slot-start vfps f j n v' vfps' ref_fd given apart =
    let w : VirtualFile = record v' { fd = pos n } in
    ap (λ t. filestart t ref_fd) (given.put w)
    ∙ filestart-view (given.pre ++ w ∷ given.post) ref_fd
    ∙ ap start_of (
        view-skip given.pre w given.post ref_fd (other-matches w ref_fd apart)
        ∙ rest-view f given.pre given.old w given.post given.rep ref_fd
            (free-matches given.old ref_fd given.old_free))

abbrev table_of : Option (List VirtualFile × ℤ) → List VirtualFile
table_of none = []
table_of (some r) = r.0

abbrev ret_of : Option (List VirtualFile × ℤ) → ℤ
ret_of none = minus_one
ret_of (some r) = r.1

pub open-Represents :
    (vfps vfps' : List VirtualFile) (f : Parts) (n end offset : ℕ)
    → Represents vfps f
    → f (pos n) ≡ none
    → virtual_file_open vfps (pos n) end offset ≡ (vfps', pos n)
    → Represents vfps' (update f (pos n) (some (offset, difference end offset)))
unfolding virtual_file_open open_in
open-Represents vfps vfps' f n end offset rep fresh result = elim (get_unused-Given vfps f rep) [
  | inl full ↦
      let failed : minus_one ≡ pos n =
        ap (λ t. (open_in vfps t (pos n) end offset).1) (sym full) ∙ ap (λ r. r.1) result in
      absurd (grind (arith, failed))
  | inr (j, v', vs', found, given) ↦
      let w : VirtualFile = record v' {
        fd = pos n;
        start_offset = offset;
        total_length = difference end offset;
      } in
      let table : set vs' j w ≡ vfps' =
        ap (λ t. (open_in vfps t (pos n) end offset).0) (sym found) ∙ ap (λ r. r.0) result in
      subst (λ t. Represents t (update f (pos n) (some (offset, difference end offset))))
        (sym (given.put w) ∙ table)
        (taken-Represents f given.pre given.old w given.post given.rep given.old_free
          (ap (λ v. v.used) given.fresh) fresh)
]

pub not_open-Represents :
    (vfps vfps' : List VirtualFile) (f : Parts) (fd ret : ℤ) (end offset : ℕ)
    → Represents vfps f
    → virtual_file_open vfps fd end offset ≡ (vfps', ret)
    → is_negative ret ≡ true
    → Represents vfps' f
unfolding virtual_file_open open_in
not_open-Represents vfps vfps' f (negsuc k) ret end offset rep result failed =
    subst (λ t. Represents t f) (ap (λ r. r.0) result) rep
not_open-Represents vfps vfps' f (pos n) ret end offset rep result failed =
    elim (get_unused-Given vfps f rep) [
      | inl full ↦
          let table : vfps ≡ vfps' =
            ap (λ t. (open_in vfps t (pos n) end offset).0) (sym full) ∙ ap (λ r. r.0) result in
          subst (λ t. Represents t f) table rep
      | inr (j, v', vs', found, given) ↦
          let good : pos n ≡ ret =
            ap (λ t. (open_in vfps t (pos n) end offset).1) (sym found) ∙ ap (λ r. r.1) result in
          let good' : false ≡ true = ap is_negative good ∙ failed in absurd (grind (arith, good'))
    ]

pub dup-Represents :
    (vfps vfps' : List VirtualFile) (f : Parts) (n : ℕ) (ref_fd : ℤ) (end offset : ℕ)
    → Represents vfps f
    → f (pos n) ≡ none
    → same_fd (pos n) ref_fd ≡ false
    → virtual_file_dup vfps (pos n) ref_fd end offset ≡ some (vfps', pos n)
    → Represents vfps' (
        update f
          (pos n)
          (some (offset + start_of (f ref_fd), difference end (offset + start_of (f ref_fd)))))
unfolding virtual_file_dup dup_in dup_slot
dup-Represents vfps vfps' f n ref_fd end offset rep fresh apart result =
    elim (get_unused-Given vfps f rep) [
      | inl full ↦
          let failed : minus_one ≡ pos n =
            ap (λ t. ret_of (dup_in t (pos n) ref_fd end offset)) (sym full) ∙ ap ret_of result in
          absurd (grind (arith, failed))
      | inr (j, v', vs', found, given) ↦
          let start = offset + start_of (f ref_fd) in
          let slot = λ (k : ℕ).
            let w : VirtualFile = record v' {
              fd = pos n;
              start_offset = k;
              total_length = difference end k;
            } in
            w in
          let starts : offset + filestart (set vs' j (record v' { fd = pos n })) ref_fd ≡ start =
            ap (λ k. offset + k) (dup_slot-start vfps f j n v' vs' ref_fd given apart) in
          let table : set vs' j (slot start) ≡ vfps' =
            ap (λ k. set vs' j (slot k)) (sym starts)
            ∙ ap (λ t. table_of (dup_in t (pos n) ref_fd end offset)) (sym found)
            ∙ ap table_of result in
          subst (λ t. Represents t (update f (pos n) (some (start, difference end start))))
            (sym (given.put (slot start)) ∙ table)
            (taken-Represents f given.pre given.old (slot start) given.post given.rep given.old_free
              (ap (λ v. v.used) given.fresh) fresh)
    ]

pub not_dup-Represents :
    (vfps vfps' : List VirtualFile) (f : Parts) (fd ref_fd : ℤ) (end offset : ℕ)
    → Represents vfps f
    → is_negative fd ≡ true
    → virtual_file_dup vfps fd ref_fd end offset ≡ some (vfps', fd)
    → Represents vfps' f
unfolding virtual_file_dup dup_in dup_slot
not_dup-Represents vfps vfps' f (pos n) ref_fd end offset rep failed result =
    absurd (grind (arith, failed))
not_dup-Represents vfps vfps' f (negsuc k) ref_fd end offset rep failed result =
    elim (get_unused-Given vfps f rep) [
      | inl full ↦
          let crashed : none ≡ some (vfps', negsuc k) =
            ap (λ t. dup_in t (negsuc k) ref_fd end offset) (sym full) ∙ result in
          absurd (grind (arith, crashed))
      | inr (j, v', vs', found, given) ↦
          let w : VirtualFile = record v' { fd = negsuc k; used = false } in
          let table : set vs' j w ≡ vfps' =
            ap (λ t. table_of (dup_in t (negsuc k) ref_fd end offset)) (sym found)
            ∙ ap table_of result in
          subst (λ t. Represents t f) (sym (given.put w) ∙ table)
            (free-Represents f given.pre given.old w given.post given.rep given.old_free refl)
    ]

pub close-Represents :
    (vfps : List VirtualFile) (f : Parts) (fd : ℤ)
    → Represents vfps f
    → Represents (virtual_file_close vfps fd).0 (update f fd none)
unfolding virtual_file_close close_slot virtual_file_get
close-Represents vfps f fd rep = elim (get_from-Slot vfps 0 fd) [
  | inl (gone, seen) ↦
      subst (λ t. Represents t (update f fd none)) (sym (ap (λ r. (close_slot vfps r).0) gone))
        (record {
          sized = rep.sized;
          unique = rep.unique;
          seen = λ fd'. elim (Bool-cases (same_fd fd fd')) [
            | inl equal ↦ ap (view vfps) (sym (same_fd_eq fd fd' equal)) ∙ seen ∙ rw equal refl
            | inr other ↦ rep.seen fd' ∙ rw other refl
          ];
        })
  | inr (j, v, found, seen, same, slot) ↦
      let w : VirtualFile = record {
        fd = minus_one;
        start_offset = 0;
        total_length = pos 0;
        used = false;
      } in
      subst (λ t. Represents t (update f fd none))
        (sym (
          ap (λ r. (close_slot vfps r).0) found
          ∙ ap (λ t. set t j w) slot.whole
          ∙ set-middle slot.pre v w slot.post j (omega (arith, slot.index))))
        (released-Represents f slot.pre v w slot.post (subst (λ t. Represents t f) slot.whole rep)
          fd same refl)
]
