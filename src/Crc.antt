-- ===== src/Crc.antt =====
-- libs/crc/libcrc.c and libcrc.h: table-driven CRC32 and CRC16, and crc32.c.
-- The 32-bit and the 16-bit functions of the source differ in the width, in `reverse32` for
-- `reverse16` and in nothing else, so each is the function of `Width` at its width. `next` and the
-- table stand in the record itself, not in `private_data`. A `none` argument is a null pointer and
-- a `none` result a return of -1 or NULL. The table has 256 entries, so no index leaves it.
pub mod Width
pub mod Predefined
pub mod Reverse
pub mod Linear
pub mod Serial
pub mod Reflected
pub mod Table
pub mod Api
pub mod Standard
mod Examples
use imgeditor.Common.{ℕ, ◌*◌, ◌/◌, ◌%◌, ◌^◌, bit_and, bit_or, Option, List, Bool}
use Width.{Crc}
use Width

unfoldable pub reverse16 : ℕ → ℕ
reverse16 x0 =
    let x1 = bit_or (bit_and x0 0xaaaa / 2 ^ 1) (bit_and x0 0x5555 * 2 ^ 1) % 2 ^ 16 in
    let x2 = bit_or (bit_and x1 0xcccc / 2 ^ 2) (bit_and x1 0x3333 * 2 ^ 2) % 2 ^ 16 in
    let x3 = bit_or (bit_and x2 0xf0f0 / 2 ^ 4) (bit_and x2 0x0f0f * 2 ^ 4) % 2 ^ 16 in
    bit_or (bit_and x3 0xff00 / 2 ^ 8) (bit_and x3 0x00ff * 2 ^ 8) % 2 ^ 16

unfoldable pub reverse32 : ℕ → ℕ
reverse32 x0 =
    let x1 = bit_or (bit_and x0 0x55555555 * 2 ^ 1 % 2 ^ 32) (bit_and (x0 / 2 ^ 1) 0x55555555) in
    let x2 = bit_or (bit_and x1 0x33333333 * 2 ^ 2 % 2 ^ 32) (bit_and (x1 / 2 ^ 2) 0x33333333) in
    let x3 = bit_or (bit_and x2 0x0f0f0f0f * 2 ^ 4 % 2 ^ 32) (bit_and (x2 / 2 ^ 4) 0x0f0f0f0f) in
    bit_or
      (bit_or (bit_or (x3 * 2 ^ 24 % 2 ^ 32) (bit_and x3 0xff00 * 2 ^ 8 % 2 ^ 32))
        (bit_and (x3 / 2 ^ 8) 0xff00))
      (x3 / 2 ^ 24)

unfoldable pub libcrc32_generate_table : Crc → Crc
libcrc32_generate_table = Width.generate_table 32 reverse32

unfoldable pub libcrc32_init_seed : Option Crc → ℕ → Option Crc
libcrc32_init_seed = Width.init_seed 32 reverse32

unfoldable pub libcrc32_init : Option Crc → Option Crc
libcrc32_init = Width.init 32 reverse32

unfoldable pub libcrc32_update : Option Crc → List ℕ → Option Crc
libcrc32_update = Width.update 32 reverse32

unfoldable pub libcrc32_finish : Option Crc → ℕ
libcrc32_finish = Width.finish 32 reverse32

unfoldable pub libcrc16_generate_table : Crc → Crc
libcrc16_generate_table = Width.generate_table 16 reverse16

unfoldable pub libcrc16_init_seed : Option Crc → ℕ → Option Crc
libcrc16_init_seed = Width.init_seed 16 reverse16

unfoldable pub libcrc16_init : Option Crc → Option Crc
libcrc16_init = Width.init 16 reverse16

unfoldable pub libcrc16_update : Option Crc → List ℕ → Option Crc
libcrc16_update = Width.update 16 reverse16

unfoldable pub libcrc16_finish : Option Crc → ℕ
libcrc16_finish = Width.finish 16 reverse16
