-- ===== src/VirtualFiles/Examples.antt =====
-- The table of virtual files, and reading, at concrete inputs.
use imgeditor.Common.{ℕ, ◌+◌, ◌≤◌, ◌≡◌, refl, arith, inl, inr, ltb, if◌then◌else◌, lt-or-ge}
use imgeditor.Common.{true, false, none, some, List, [], length, set, replicate, ℤ, pos, minus_one}
use imgeditor.Dd.{Source}
use imgeditor.Dd.Segment.{segment}
use imgeditor.VirtualFiles.{
  VirtualFile, same_fd, get_from, virtual_file_get, unused_from, behind, virtual_file_get_unused,
  slot_start, filestart, filelength, dup_slot, dup_in, virtual_file_dup, open_in, virtual_file_open,
  fileread,
}
use imgeditor.VirtualFiles.Table.{count, start_of, length_of}
use imgeditor.VirtualFiles.Slots.{Parts, update}
use imgeditor.VirtualFiles.Reached.{empty_table, Reached, filestart-Reached}
use imgeditor.VirtualFiles.Reading.{ReadsSome, fileread-segment}

-- Descriptor 3 is opened at 512 of a file of 4096 bytes, and duplicated at 100 as descriptor 4.
abbrev slot : ℤ → ℕ → ℤ → VirtualFile
slot fd start len = record { fd = fd; start_offset = start; total_length = len; used = true }

abbrev one_open : List VirtualFile
one_open = set empty_table 0 (slot (pos 3) 512 (pos 3584))

abbrev two_open : List VirtualFile
two_open = set one_open 1 (slot (pos 4) 612 (pos 3484))

abbrev one_part : Parts
one_part = update (λ fd. none) (pos 3) (some (512, pos 3584))

one-Reached : Reached one_open one_part
unfolding virtual_file_open open_in virtual_file_get_unused unused_from
one-Reached = Reached.opened 3 4096 512 Reached.start refl refl

two-Reached : Reached two_open (update one_part (pos 4) (some (612, pos 3484)))
unfolding virtual_file_dup dup_in dup_slot virtual_file_get_unused unused_from behind same_fd
    filestart virtual_file_get get_from slot_start
two-Reached = Reached.dupped 4 (pos 3) 4096 100 one-Reached refl refl refl

filestart-Reached_example :
    ((fd : ℤ)
      → filestart two_open fd ≡ start_of (update one_part (pos 4) (some (612, pos 3484)) fd))
    × ((fd : ℤ) (end : ℕ)
        → filelength two_open fd end
          ≡ length_of (update one_part (pos 4) (some (612, pos 3484)) fd) end)
    × ((fd : ℤ) → count two_open fd ≤ 1)
    × (length two_open ≡ 32)
filestart-Reached_example =
    filestart-Reached two_open (update one_part (pos 4) (some (612, pos 3484))) two-Reached

-- A full table: an `open` closes the file again, a `dup` writes to NULL.
abbrev full : List VirtualFile
full = replicate 32 (slot (pos 9) 0 (pos 0))

full_table :
    (virtual_file_open full (pos 5) 10 0 ≡ (full, minus_one))
    × (virtual_file_dup full (pos 5) (pos 9) 10 0 ≡ none)
unfolding virtual_file_open open_in virtual_file_dup dup_in virtual_file_get_unused unused_from
    behind
full_table = (refl, refl)

-- A file of five bytes that is read a byte at a time.
abbrev content : ℕ → ℕ
content i = i + 10

abbrev byte_wise : Source
byte_wise off n = if ltb off 5 then some (segment content off 1) else some []

byte_wise-ReadsSome : ReadsSome byte_wise content 5
byte_wise-ReadsSome off n more = elim (lt-or-ge off 5) [
  | inl inside ↦
      let e : ltb off 5 ≡ true = ground arith in
      rw e (1, refl, omega arith, inl (omega arith, omega arith))
  | inr end ↦
      let e : ltb off 5 ≡ false = ground arith in
      rw e (0, refl, omega arith, inr (refl, omega arith))
]

fileread-segment_example : fileread byte_wise 2 4 ≡ some (segment content 2 3, minus_one)
fileread-segment_example = fileread-segment byte_wise content 5 2 4 byte_wise-ReadsSome
