-- ===== src/Uenv.antt =====
-- u-boot/uenv.c: the environment block of u-boot, whose first four bytes are the CRC-32 of the rest.
-- `read` is that of dd.c at a position, `length` what filelength gives; `table` is the entry of the
-- CRC library that crc32 keeps its state in. `old` is what an array on the stack holds before. The
-- file stands at its start when it is read.
pub mod Detect
mod Examples
use imgeditor.Common.{
  ℕ, zero, suc, ◌+◌, ◌-◌, ◌*◌, ◌/◌, ◌%◌, ◌^◌, Bool, true, false, not, Option, none, some,
}
use imgeditor.Common.{
  List, [], ◌∷◌, ◌++◌, length, drop, get_or, ltb, leb, ◌==◌, if◌then◌else◌, bit_or,
}
use imgeditor.Crc.Width.{Crc}
use imgeditor.Crc.Predefined.{crc32}
use imgeditor.Dd.{Source, Copy, dd64}

abbrev pub uenv_minimum_size : ℕ
uenv_minimum_size = 2048

abbrev pub uenv_maximum_size : ℕ
uenv_maximum_size = 2 * 2 ^ 20

abbrev pub better_sz : ℕ
better_sz = 128 * 2 ^ 10

-- The CRC that `p` points to, with the entry of the CRC library.
abbrev pub Sum : Type 0
Sum = ℕ × Option Crc

unfoldable pub uenv_calc_crc : List ℕ → Sum → List ℕ × Sum
uenv_calc_crc buf (crc, table) = (buf, crc32 table crc buf)

-- The `aligned_length` of imgeditor.h.
unfoldable pub aligned_length : ℕ → ℕ → ℕ
aligned_length len align = (len + align - 1) / align * align

unfoldable pub first_size : ℕ → ℕ
first_size sz = if leb uenv_maximum_size sz then uenv_maximum_size else aligned_length sz better_sz

unfoldable pub next_size : ℕ → ℕ
next_size sz = if ltb better_sz sz then sz - better_sz else sz / 2

-- The array after a read of four bytes, and the number that it has.
unfoldable pub read_buf : Option (List ℕ) → List ℕ → List ℕ
read_buf none old = old
read_buf (some bytes) old = bytes ++ drop (length bytes) old

unfoldable pub crc_expected : List ℕ → ℕ
crc_expected buf =
    bit_or (bit_or (bit_or (get_or buf 0 0) (get_or buf 1 0 * 2 ^ 8)) (get_or buf 2 0 * 2 ^ 16))
      (get_or buf 3 0 * 2 ^ 24)

-- The sum when a copy has ended. It always ends, so `none` does not occur.
abbrev pub sum_after : Option (Copy Sum) → Sum → Sum
sum_after none s = s
sum_after (some c) s = c.state

-- What follows a copy, by the sum that it leaves.
unfoldable pub tried : ℕ → ℕ → Sum → (Option Crc → Option (Option ℕ)) → Option (Option ℕ)
tried crc_expected sz (crc, table) rest = elim (crc == crc_expected) [
  | true ↦ some (some sz)
  | false ↦ rest table
]

-- The size is halved or made smaller by 128 KiB in a round, so one round more than the size is
-- enough. Outside, `none` is a loop that does not end; inside, it is a return of -1.
unfoldable pub size_loop : ℕ → Source → Option (List ℕ) → ℕ → ℕ → Option Crc → Option (Option ℕ)
size_loop zero read buffer crc_expected sz table = none
size_loop (suc fuel) read buffer crc_expected sz table = elim (ltb uenv_minimum_size sz) [
  | false ↦ some none
  | true ↦
      tried crc_expected sz
        (sum_after (dd64 (some uenv_calc_crc) buffer (some read) none 4 0 (sz - 4) (0, table))
          (0, table))
        (λ table'. size_loop fuel read buffer crc_expected (next_size sz) table')
]

unfoldable pub uenv_auto_detect_filesize :
    Source → ℕ → Option (List ℕ) → List ℕ → Option Crc → Option (Option ℕ)
uenv_auto_detect_filesize read length buffer old table =
    let buf = read_buf (read 0 4) old in
    size_loop (first_size length + 1) read buffer (crc_expected buf) (first_size length) table

unfoldable pub uenv_detect :
    Bool → Source → ℕ → Option (List ℕ) → List ℕ → Option Crc → Option (Option ℕ)
uenv_detect force_type read length buffer old table =
    if not force_type then some none else uenv_auto_detect_filesize read length buffer old table
