-- ===== src/VirtualFiles.antt =====
-- virtual_file.c: the table of the descriptors that stand for a part of a file. The table is
-- `gd->vfps`, a list of its 32 slots, and a pointer into it is an index. What `open`, `dup` and
-- `lseek64` return are arguments; `lseek64` to the end of an open file gives its length, which is not
-- negative. An offset is not negative and stays in 64 bits.
pub mod Table
pub mod Slots
pub mod Steps
pub mod Reached
pub mod Reading
mod Examples
use imgeditor.Common.{ℕ, zero, suc, ◌+◌, ◌-◌, Bool, true, false, not, ◌&&◌, Option, none, some}
use imgeditor.Common.{
  List, [], ◌∷◌, ◌++◌, length, set, replicate, ltb, leb, ◌==◌, if◌then◌else◌, ℤ, pos, negsuc,
  minus_one, is_negative,
}
use imgeditor.Dd.{Source}

pub record VirtualFile : Type 0 where
  pub fd : ℤ
  pub start_offset : ℕ
  pub total_length : ℤ
  pub used : Bool

abbrev pub max_virtual_file : ℕ
max_virtual_file = 32

unfoldable pub same_fd : ℤ → ℤ → Bool
same_fd (pos a) (pos b) = a == b
same_fd (negsuc a) (negsuc b) = a == b
same_fd (pos a) (negsuc b) = false
same_fd (negsuc a) (pos b) = false

-- The slot of a descriptor, from slot `i` on.
unfoldable pub get_from : List VirtualFile → ℕ → ℤ → Option (ℕ × VirtualFile)
get_from [] i fd = none
get_from (vfp ∷ vfps) i fd =
    let later = get_from vfps (i + 1) fd in
    if vfp.used && same_fd vfp.fd fd then some (i, vfp) else later

unfoldable pub virtual_file_get : List VirtualFile → ℤ → Option (ℕ × VirtualFile)
virtual_file_get vfps fd = get_from vfps 0 fd

abbrev pub Taken : Type 0
Taken = Option (ℕ × VirtualFile × List VirtualFile)

-- A slot in front of those that are searched.
unfoldable pub behind : VirtualFile → Taken → Taken
behind vfp none = none
behind vfp (some (j, found, rest)) = some (j, found, vfp ∷ rest)

-- The first slot that is not used, from slot `i` on, and the table in which it is.
unfoldable pub unused_from : List VirtualFile → ℕ → Taken
unused_from [] i = none
unused_from (vfp ∷ vfps) i =
    let later = unused_from vfps (i + 1) in
    if not vfp.used
    then some (i, record vfp { used = true }, record vfp { used = true } ∷ vfps)
    else behind vfp later

unfoldable pub virtual_file_get_unused : List VirtualFile → Taken
virtual_file_get_unused vfps = unused_from vfps 0

-- `end` is the length of the file that the descriptor is open on.
unfoldable pub slot_length : Option (ℕ × VirtualFile) → ℕ → ℤ
slot_length none end = pos end
slot_length (some (i, vf)) end = vf.total_length

unfoldable pub filelength : List VirtualFile → ℤ → ℕ → ℤ
filelength vfps fd end = slot_length (virtual_file_get vfps fd) end

unfoldable pub slot_start : Option (ℕ × VirtualFile) → ℕ
slot_start none = 0
slot_start (some (i, vf)) = vf.start_offset

unfoldable pub filestart : List VirtualFile → ℤ → ℕ
filestart vfps fd = slot_start (virtual_file_get vfps fd)

-- The position that is sought.
unfoldable pub fileseek : List VirtualFile → ℤ → ℕ → ℕ
fileseek vfps fd offset = filestart vfps fd + offset

abbrev pub difference : ℕ → ℕ → ℤ
difference a b = if leb b a then pos (a - b) else negsuc (b - a - 1)

-- A duplicate is made as `vfp`, in slot `i` of the table.
unfoldable pub dup_slot : ℕ → VirtualFile → List VirtualFile → ℤ → ℤ → ℕ → ℕ → List VirtualFile × ℤ
dup_slot i vfp vfps fd ref_fd end offset =
    let vfp1 : VirtualFile = record vfp { fd = fd } in
    if is_negative fd
    then (set vfps i (record vfp1 { used = false }), fd)
    else let start = offset + filestart (set vfps i vfp1) ref_fd in
      (set vfps i (record vfp1 { start_offset = start; total_length = difference end start }), fd)

-- `fd` is what `dup` returns. A full table is NULL, to which the source writes: `none`.
unfoldable pub dup_in : Taken → ℤ → ℤ → ℕ → ℕ → Option (List VirtualFile × ℤ)
dup_in none fd ref_fd end offset = none
dup_in (some (i, vfp, vfps)) fd ref_fd end offset = some (dup_slot i vfp vfps fd ref_fd end offset)

unfoldable pub virtual_file_dup : List VirtualFile → ℤ → ℤ → ℕ → ℕ → Option (List VirtualFile × ℤ)
virtual_file_dup vfps fd ref_fd end offset =
    dup_in (virtual_file_get_unused vfps) fd ref_fd end offset

-- `fd` is what `open` returns.
unfoldable pub open_in : List VirtualFile → Taken → ℤ → ℕ → ℕ → List VirtualFile × ℤ
open_in old none fd end offset = (old, minus_one)
open_in old (some (i, vfp, vfps)) fd end offset = (
  set vfps i (record vfp { fd = fd; start_offset = offset; total_length = difference end offset }),
  fd,
)

unfoldable pub virtual_file_open : List VirtualFile → ℤ → ℕ → ℕ → List VirtualFile × ℤ
virtual_file_open vfps fd end offset =
    if is_negative fd then (vfps, fd) else open_in vfps (virtual_file_get_unused vfps) fd end offset

unfoldable pub close_slot : List VirtualFile → Option (ℕ × VirtualFile) → List VirtualFile × ℤ
close_slot vfps none = (vfps, minus_one)
close_slot vfps (some (i, vfp)) = (
  set vfps i (record { fd = minus_one; start_offset = 0; total_length = pos 0; used = false }),
  pos 0,
)

unfoldable pub virtual_file_close : List VirtualFile → ℤ → List VirtualFile × ℤ
virtual_file_close vfps fd = close_slot vfps (virtual_file_get vfps fd)

-- `fileread` at a position: `n` bytes are there, and `read` gives some of those that are missing, the
-- empty list at the end of the file, or an error. The bytes that were read, and the result.
unfoldable pub read_loop : ℕ → Source → ℕ → ℕ → List ℕ → Option (List ℕ × ℤ)
read_loop zero read at sz got = none
read_loop (suc fuel) read at sz got = elim (ltb (length got) sz) [
  | false ↦ some (got, if length got == sz then pos 0 else minus_one)
  | true ↦ elim (read (at + length got) (sz - length got)) [
    | none ↦ some (got, minus_one)
    | some [] ↦ some (got, if length got == sz then pos 0 else minus_one)
    | some (b ∷ bytes) ↦ read_loop fuel read at sz (got ++ b ∷ bytes)
  ]
]

-- A round reads at least a byte, so one round more than there are bytes is enough.
unfoldable pub fileread : Source → ℕ → ℕ → Option (List ℕ × ℤ)
fileread read at sz = read_loop (sz + 1) read at sz []
