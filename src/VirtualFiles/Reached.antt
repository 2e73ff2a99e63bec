-- ===== src/VirtualFiles/Reached.antt =====
-- The tables that the operations of virtual_file.c reach.
use imgeditor.Common.{ℕ, zero, suc, ◌+◌, ◌≤◌, ◌≡◌, refl, ◌∙◌, ap, arith}
use imgeditor.Common.{true, false, none, some}
use imgeditor.Common.{List, length, replicate, ℤ, pos, is_negative}
use imgeditor.VirtualFiles.{
  VirtualFile, max_virtual_file, same_fd, filelength, filestart, difference, virtual_file_dup,
  virtual_file_open, virtual_file_close,
}
use imgeditor.VirtualFiles.Table.{
  view, count, start_of, length_of, view-none, filestart-view, filelength-view,
}
use imgeditor.VirtualFiles.Slots.{Parts, update, Represents}
use imgeditor.VirtualFiles.Steps.{
  open-Represents, not_open-Represents, dup-Represents, not_dup-Represents, close-Represents,
}

-- The table of a program that starts.
abbrev pub empty_table : List VirtualFile
empty_table =
    replicate 32 (record { fd = pos 0; start_offset = 0; total_length = pos 0; used = false })

-- A table that the operations reach, with the parts that the open descriptors stand for. The system
-- gives a descriptor that is not open, and a `dup` another one than its argument.
pub data Reached : List VirtualFile → Parts → Type 0 where
  start : Reached empty_table (λ fd. none)
  opened :
      {vfps vfps' : List VirtualFile} {f : Parts} (n end offset : ℕ)
      → Reached vfps f
      → f (pos n) ≡ none
      → virtual_file_open vfps (pos n) end offset ≡ (vfps', pos n)
      → Reached vfps' (update f (pos n) (some (offset, difference end offset)))
  not_opened :
      {vfps vfps' : List VirtualFile} {f : Parts} (fd ret : ℤ) (end offset : ℕ)
      → Reached vfps f
      → virtual_file_open vfps fd end offset ≡ (vfps', ret)
      → is_negative ret ≡ true
      → Reached vfps' f
  dupped :
      {vfps vfps' : List VirtualFile} {f : Parts} (n : ℕ) (ref_fd : ℤ) (end offset : ℕ)
      → Reached vfps f
      → f (pos n) ≡ none
      → same_fd (pos n) ref_fd ≡ false
      → virtual_file_dup vfps (pos n) ref_fd end offset ≡ some (vfps', pos n)
      → Reached vfps' (
          update f
            (pos n)
            (some (offset + start_of (f ref_fd), difference end (offset + start_of (f ref_fd)))))
  not_dupped :
      {vfps vfps' : List VirtualFile} {f : Parts} (fd ref_fd : ℤ) (end offset : ℕ)
      → Reached vfps f
      → is_negative fd ≡ true
      → virtual_file_dup vfps fd ref_fd end offset ≡ some (vfps', fd)
      → Reached vfps' f
  closed :
      {vfps : List VirtualFile} {f : Parts} (fd : ℤ)
      → Reached vfps f
      → Reached (virtual_file_close vfps fd).0 (update f fd none)

empty-view :
    (k : ℕ) (fd : ℤ)
    → view
        (replicate k (record { fd = pos 0; start_offset = 0; total_length = pos 0; used = false }))
        fd
      ≡ none
empty-view zero fd = refl
empty-view (suc k) fd = empty-view k fd

pub Reached-Represents : (vfps : List VirtualFile) (f : Parts) → Reached vfps f → Represents vfps f
Reached-Represents _ _ Reached.start = record {
  sized = refl;
  unique = λ fd. omega (arith, view-none empty_table fd (empty-view 32 fd));
  seen = λ fd. empty-view 32 fd;
}
Reached-Represents _ _ (Reached.opened n end offset before fresh result) =
    open-Represents _ _ _ n end offset (Reached-Represents _ _ before) fresh result
Reached-Represents _ _ (Reached.not_opened fd ret end offset before result failed) =
    not_open-Represents _ _ _ fd ret end offset (Reached-Represents _ _ before) result failed
Reached-Represents _ _ (Reached.dupped n ref_fd end offset before fresh apart result) =
    dup-Represents _ _ _ n ref_fd end offset (Reached-Represents _ _ before) fresh apart result
Reached-Represents _ _ (Reached.not_dupped fd ref_fd end offset before failed result) =
    not_dup-Represents _ _ _ fd ref_fd end offset (Reached-Represents _ _ before) failed result
Reached-Represents _ _ (Reached.closed fd before) =
    close-Represents _ _ fd (Reached-Represents _ _ before)

-- In every table that the operations reach, from the empty one on, `filestart` and `filelength` of a
-- descriptor are those of the part of a file that it was last opened or duplicated for, with the start
-- of the duplicated descriptor added, and those of the whole file if it has none or was closed. A
-- descriptor has at most one of the 32 slots.
pub filestart-Reached :
    (vfps : List VirtualFile) (f : Parts)
    → Reached vfps f
    → ((fd : ℤ) → filestart vfps fd ≡ start_of (f fd))
      × ((fd : ℤ) (end : ℕ) → filelength vfps fd end ≡ length_of (f fd) end)
      × ((fd : ℤ) → count vfps fd ≤ 1)
      × (length vfps ≡ max_virtual_file)
filestart-Reached vfps f reached =
    let rep = Reached-Represents vfps f reached in
    (
      λ fd. filestart-view vfps fd ∙ ap start_of (rep.seen fd),
      λ fd end. filelength-view vfps fd end ∙ ap (λ p. length_of p end) (rep.seen fd),
      rep.unique,
      rep.sized,
    )
