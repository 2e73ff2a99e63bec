-- ===== src/VirtualFiles/Table.antt =====
-- The table of virtual_file.c as a map from descriptors to the part of the file that they stand for.
use imgeditor.Common.{ℕ, zero, suc, ◌+◌, ◌≡◌, refl, ◌∙◌, ap, sym, arith, inl, inr, ◌⊎◌}
use imgeditor.Common.{
  Bool, true, false, not, ◌&&◌, Option, none, some, Bool-cases, ==_iff, if◌then◌else◌,
}
use imgeditor.Common.{List, [], ◌∷◌, ◌++◌, length, set, ℤ, pos, negsuc}
use imgeditor.VirtualFiles.{
  VirtualFile, same_fd, get_from, virtual_file_get, unused_from, behind, slot_start, slot_length,
  filelength, filestart,
}

abbrev pub Part : Type 0
Part = ℕ × ℤ

abbrev pub matches : VirtualFile → ℤ → Bool
matches v fd = v.used && same_fd v.fd fd

abbrev pub one_if : Bool → ℕ
one_if true = 1
one_if false = 0

-- The part of a descriptor: that of the first slot that has it.
abbrev pub view : List VirtualFile → ℤ → Option Part
view [] fd = none
view (v ∷ vs) fd = if matches v fd then some (v.start_offset, v.total_length) else view vs fd

-- The number of slots that have a descriptor.
abbrev pub count : List VirtualFile → ℤ → ℕ
count [] fd = 0
count (v ∷ vs) fd = one_if (matches v fd) + count vs fd

abbrev pub start_of : Option Part → ℕ
start_of none = 0
start_of (some p) = p.0

abbrev pub length_of : Option Part → ℕ → ℤ
length_of none end = pos end
length_of (some p) end = p.1

pub same_fd_eq : (a b : ℤ) → same_fd a b ≡ true → a ≡ b
unfolding same_fd
same_fd_eq (pos a) (pos b) e = ap pos ((==_iff a b).0 e)
same_fd_eq (negsuc a) (negsuc b) e = ap negsuc ((==_iff a b).0 e)
same_fd_eq (pos a) (negsuc b) e = absurd (grind (arith, e))
same_fd_eq (negsuc a) (pos b) e = absurd (grind (arith, e))

pub view-none : (vs : List VirtualFile) (fd : ℤ) → view vs fd ≡ none → count vs fd ≡ 0
view-none [] fd e = refl
view-none (v ∷ vs) fd e = elim (Bool-cases (matches v fd)) [
  | inl m ↦ absurd (grind (arith, e, m))
  | inr m ↦ rw m (let rest : view vs fd ≡ none = rw m at e in omega (arith, view-none vs fd rest))
]

pub none-view : (vs : List VirtualFile) (fd : ℤ) → count vs fd ≡ 0 → view vs fd ≡ none
none-view [] fd e = refl
none-view (v ∷ vs) fd e = elim (Bool-cases (matches v fd)) [
  | inl m ↦ absurd (let one : 1 + count vs fd ≡ 0 = rw m at e in omega (arith, one))
  | inr m ↦
      rw m (let rest : 0 + count vs fd ≡ 0 = rw m at e in none-view vs fd (omega (arith, rest)))
]

pub count-insert :
    (pre : List VirtualFile) (w : VirtualFile) (post : List VirtualFile) (fd : ℤ)
    → count (pre ++ w ∷ post) fd ≡ one_if (matches w fd) + count (pre ++ post) fd
count-insert [] w post fd = refl
count-insert (v ∷ pre) w post fd =
    let here = one_if (matches v fd) in omega (arith, count-insert pre w post fd)

-- A slot that does not have the descriptor does not matter.
pub view-skip :
    (pre : List VirtualFile) (w : VirtualFile) (post : List VirtualFile) (fd : ℤ)
    → matches w fd ≡ false
    → view (pre ++ w ∷ post) fd ≡ view (pre ++ post) fd
view-skip [] w post fd other = rw other refl
view-skip (v ∷ pre) w post fd other = elim (Bool-cases (matches v fd)) [
  | inl m ↦ rw m refl
  | inr m ↦ rw m (view-skip pre w post fd other)
]

-- The only slot that has the descriptor is the one that is found.
pub view-only :
    (pre : List VirtualFile) (w : VirtualFile) (post : List VirtualFile) (fd : ℤ)
    → matches w fd ≡ true
    → view (pre ++ post) fd ≡ none
    → view (pre ++ w ∷ post) fd ≡ some (w.start_offset, w.total_length)
view-only [] w post fd same rest = rw same refl
view-only (v ∷ pre) w post fd same rest = elim (Bool-cases (matches v fd)) [
  | inl m ↦ absurd (grind (arith, rest, m))
  | inr m ↦ rw m (
      let rest' : view (pre ++ post) fd ≡ none = rw m at rest in view-only pre w post fd same rest')
]

pub set-middle :
    (pre : List VirtualFile) (v w : VirtualFile) (post : List VirtualFile) (i : ℕ)
    → i ≡ length pre
    → set (pre ++ v ∷ post) i w ≡ pre ++ w ∷ post
set-middle [] v w post zero e = refl
set-middle [] v w post (suc i) e = absurd (omega arith)
set-middle (x ∷ pre) v w post zero e = absurd (omega arith)
set-middle (x ∷ pre) v w post (suc i) e = ap (λ r. x ∷ r) (set-middle pre v w post i (omega arith))

-- The slot that a search from `i` on gives, with those before and behind it.
pub record Slot (vfps : List VirtualFile) (i j : ℕ) (v : VirtualFile) : Type 0 where
  pub pre : List VirtualFile
  pub post : List VirtualFile
  pub whole : vfps ≡ pre ++ v ∷ post
  pub index : j ≡ i + length pre

abbrev Slot-later :
    (x : VirtualFile) (vfps : List VirtualFile) (i j : ℕ) (v : VirtualFile)
    → Slot vfps (i + 1) j v
    → Slot (x ∷ vfps) i j v
Slot-later x vfps i j v s = record {
  pre = x ∷ s.pre;
  post = s.post;
  whole = ap (λ r. x ∷ r) s.whole;
  index = omega (arith, s.index);
}

get_from-here :
    (v : VirtualFile) (vs : List VirtualFile) (i : ℕ) (fd : ℤ)
    → matches v fd ≡ true
    → get_from (v ∷ vs) i fd ≡ some (i, v)
unfolding get_from
get_from-here v vs i fd m = rw (get_from, m) refl

get_from-there :
    (v : VirtualFile) (vs : List VirtualFile) (i : ℕ) (fd : ℤ)
    → matches v fd ≡ false
    → get_from (v ∷ vs) i fd ≡ get_from vs (i + 1) fd
unfolding get_from
get_from-there v vs i fd m = rw (get_from, m) refl

-- A descriptor is looked for: no slot has it, or one has it and gives its part.
pub get_from-Slot :
    (vfps : List VirtualFile) (i : ℕ) (fd : ℤ)
    → ((get_from vfps i fd ≡ none) × (view vfps fd ≡ none))
      ⊎ ((j : ℕ) × (v : VirtualFile) × (get_from vfps i fd ≡ some (j, v))
          × (view vfps fd ≡ some (v.start_offset, v.total_length))
          × (matches v fd ≡ true)
          × Slot vfps i j v)
unfolding get_from
get_from-Slot [] i fd = inl (refl, refl)
get_from-Slot (v ∷ vs) i fd = elim (Bool-cases (matches v fd)) [
  | inl m ↦ inr (
    i,
    v,
    get_from-here v vs i fd m,
    rw m refl,
    m,
    record { pre = []; post = vs; whole = refl; index = omega arith },
  )
  | inr m ↦ elim (get_from-Slot vs (i + 1) fd) [
    | inl (gone, seen) ↦ inl (get_from-there v vs i fd m ∙ gone, rw m seen)
    | inr (j, w, found, seen, same, slot) ↦
        inr (j, w, get_from-there v vs i fd m ∙ found, rw m seen, same, Slot-later v vs i j w slot)
  ]
]

-- The part of a descriptor is what the lookups give.
pub filestart-view :
    (vfps : List VirtualFile) (fd : ℤ) → filestart vfps fd ≡ start_of (view vfps fd)
unfolding filestart virtual_file_get slot_start
filestart-view vfps fd = elim (get_from-Slot vfps 0 fd) [
  | inl (gone, seen) ↦ ap slot_start gone ∙ ap start_of (sym seen)
  | inr (j, v, found, seen, same, slot) ↦ ap slot_start found ∙ ap start_of (sym seen)
]

pub filelength-view :
    (vfps : List VirtualFile) (fd : ℤ) (end : ℕ)
    → filelength vfps fd end ≡ length_of (view vfps fd) end
unfolding filelength virtual_file_get slot_length
filelength-view vfps fd end = elim (get_from-Slot vfps 0 fd) [
  | inl (gone, seen) ↦ ap (λ r. slot_length r end) gone ∙ ap (λ r. length_of r end) (sym seen)
  | inr (j, v, found, seen, same, slot) ↦
      ap (λ r. slot_length r end) found ∙ ap (λ r. length_of r end) (sym seen)
]

unused_from-here :
    (v : VirtualFile) (vs : List VirtualFile) (i : ℕ)
    → v.used ≡ false
    → unused_from (v ∷ vs) i ≡ some (i, record v { used = true }, record v { used = true } ∷ vs)
unfolding unused_from
unused_from-here v vs i free =
    let free' : not v.used ≡ true = ap not free in rw (unused_from, free') refl

unused_from-there :
    (v : VirtualFile) (vs : List VirtualFile) (i : ℕ)
    → v.used ≡ true
    → unused_from (v ∷ vs) i ≡ behind v (unused_from vs (i + 1))
unfolding unused_from
unused_from-there v vs i taken =
    let taken' : not v.used ≡ false = ap not taken in rw (unused_from, taken') refl

-- A slot is taken: the table is full, or the slot was not used and is now.
pub unused_from-Slot :
    (vfps : List VirtualFile) (i : ℕ)
    → (unused_from vfps i ≡ none)
      ⊎ ((j : ℕ) × (v : VirtualFile) × (vfps' : List VirtualFile) × (s : Slot vfps i j v)
          × (unused_from vfps i ≡ some (j, record v { used = true }, vfps'))
          × (v.used ≡ false)
          × (vfps' ≡ s.pre ++ record v { used = true } ∷ s.post))
unfolding unused_from behind
unused_from-Slot [] i = inl refl
unused_from-Slot (v ∷ vs) i = elim (Bool-cases v.used) [
  | inr free ↦ inr (
    i,
    v,
    record v { used = true } ∷ vs,
    record { pre = []; post = vs; whole = refl; index = omega arith },
    unused_from-here v vs i free,
    free,
    refl,
  )
  | inl taken ↦ elim (unused_from-Slot vs (i + 1)) [
    | inl full ↦ inl (unused_from-there v vs i taken ∙ ap (behind v) full)
    | inr (j, w, vs', slot, found, free, whole) ↦ inr (
      j,
      w,
      v ∷ vs',
      Slot-later v vs i j w slot,
      unused_from-there v vs i taken ∙ ap (behind v) found,
      free,
      ap (λ r. v ∷ r) whole,
    )
  ]
]
