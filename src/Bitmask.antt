-- ===== src/Bitmask.antt =====
-- bitmask.c and bitmask.h: a set of bits in a byte buffer, most significant bit of a byte first.
-- `bufsize` is the number of bytes of `buffer`. A read past it, which C leaves undefined, gives 0
-- here and a write past it does nothing; neither happens on a mask that `IsValid` holds of.
-- A `none` is a return of -1 or NULL.
pub mod Bytes
pub mod Write
pub mod Range
pub mod Search
pub mod Iterator
pub mod Contents
mod Examples
use imgeditor.Common.{ℕ, zero, suc, ◌+◌, ◌-◌, ◌*◌, ◌/◌, ◌%◌, ◌^◌, ◌<◌, bit_and, bit_or, bit_xor}
use imgeditor.Common.{◌≡◌, Bool, true, false, not, ◌&&◌, Option, none, some, List, ◌++◌}
use imgeditor.Common.{length, get_or, set, replicate, drop, bit_of}
use imgeditor.Common.{ltb, leb, ◌==◌, if◌then◌else◌, ℤ, pos, negsuc, minus_one, to_int}

pub record Bitmask : Type 0 where
  pub total_bits : ℕ
  pub bufsize : ℕ
  pub buffer : List ℕ

-- `aligned_bytes`, in `size_t`.
abbrev pub aligned_bytes : ℕ → ℕ
aligned_bytes bits = (bits + 7) % 2 ^ 64 / 8

-- `has_memory` is whether `calloc` finds the memory.
unfoldable pub alloc_bitmask : Bool → ℕ → Option Bitmask
alloc_bitmask has_memory total_bits =
    let bufsize = aligned_bytes total_bits in
    if has_memory
    then some (record { total_bits = total_bits; bufsize = bufsize; buffer = replicate bufsize 0 })
    else none

unfoldable pub bitmask_memset : Option Bitmask → ℕ → Option Bitmask
bitmask_memset none c = none
bitmask_memset (some b) c = some (record b { buffer = replicate b.bufsize (c % 2 ^ 8) })

-- `src` is the region of `src_bytes` bytes.
unfoldable pub bitmask_memcpy : Option Bitmask → List ℕ → Option Bitmask
bitmask_memcpy none src = none
bitmask_memcpy (some b) src =
    if ltb b.bufsize (length src)
    then none
    else some (record b { buffer = src ++ drop (length src) b.buffer })

-- `for (; left rounds; i++) buffer[i] = f(i, buffer[i])`
unfoldable pub for_bytes : (ℕ → ℕ → ℕ) → ℕ → ℕ → List ℕ → List ℕ
for_bytes f zero i buffer = buffer
for_bytes f (suc left) i buffer = for_bytes f left (i + 1) (set buffer i (f i (get_or buffer i 0)))

unfoldable pub bitmask_not : Option Bitmask → Option Bitmask
bitmask_not none = none
bitmask_not (some b) =
    some (record b { buffer = for_bytes (λ i x. bit_xor x 0xff) b.bufsize 0 b.buffer })

unfoldable pub reverse8 : ℕ → ℕ
reverse8 x0 =
    let x1 = bit_or (bit_and x0 0xaa / 2 ^ 1) (bit_and x0 0x55 * 2 ^ 1) % 2 ^ 8 in
    let x2 = bit_or (bit_and x1 0xcc / 2 ^ 2) (bit_and x1 0x33 * 2 ^ 2) % 2 ^ 8 in
    bit_or (bit_and x2 0xf0 / 2 ^ 4) (bit_and x2 0x0f * 2 ^ 4) % 2 ^ 8

unfoldable pub bitmask_memcpy_lsbfirst : Option Bitmask → List ℕ → Option Bitmask
bitmask_memcpy_lsbfirst b src = elim (bitmask_memcpy b src) [
  | none ↦ none
  | some c ↦ some (record c { buffer = for_bytes (λ i x. reverse8 x) (length src) 0 c.buffer })
]

-- `get_bit_index_msbfirst`: the result and `*byte_idx`.
abbrev pub bit_index_msbfirst : ℕ → ℕ × ℕ
bit_index_msbfirst bit_idx = (7 - bit_idx % 8, bit_idx / 8)

-- `~value` is cut to the byte that `&=` stores.
unfoldable pub bitmask_write : Bitmask → ℕ → Bool → Option Bitmask
bitmask_write b bit_idx v =
    let (bit, byte) = bit_index_msbfirst bit_idx in
    let value = 1 * 2 ^ bit % 2 ^ 8 in
    let old = get_or b.buffer byte 0 in
    if leb b.total_bits bit_idx
    then none
    else if v
    then some (record b { buffer = set b.buffer byte (bit_or old value) })
    else some (record b { buffer = set b.buffer byte (bit_and old (bit_xor 0xff value)) })

-- The loop of `_bitmask_write_bits` at index `i`, with the number of writes that returned -1.
unfoldable pub write_bits_loop : ℕ → ℕ → Bitmask → ℕ → ℕ → Bool → Bitmask × ℕ
write_bits_loop zero i b failed from_bit v = (b, failed)
write_bits_loop (suc left) i b failed from_bit v =
    elim (bitmask_write b ((from_bit + i) % 2 ^ 64) v) [
      | none ↦ write_bits_loop left (i + 1) b (failed + 1) from_bit v
      | some b' ↦ write_bits_loop left (i + 1) b' failed from_bit v
    ]

-- Minus a count, as the 32-bit `ret` adds up that many returns of -1. Behind 2^31 of them C does not
-- define the sum; it wraps here, as in two's complement.
unfoldable pub minus : ℕ → ℤ
minus failed = to_int ((2 ^ 32 - failed % 2 ^ 32) % 2 ^ 32)

unfoldable pub write_bits : Bitmask → ℕ → ℕ → Bool → Bitmask × ℤ
write_bits b from_bit bits v =
    let (b', failed) = write_bits_loop bits 0 b 0 from_bit v in (b', minus failed)

unfoldable pub bitmask_set : Bitmask → ℕ → Option Bitmask
bitmask_set b bit_idx = bitmask_write b bit_idx true

unfoldable pub bitmask_set_bits : Bitmask → ℕ → ℕ → Bitmask × ℤ
bitmask_set_bits b from_bit bits = write_bits b from_bit bits true

unfoldable pub bitmask_unset : Bitmask → ℕ → Option Bitmask
bitmask_unset b bit_idx = bitmask_write b bit_idx false

-- The source passes 1 here too.
unfoldable pub bitmask_unset_bits : Bitmask → ℕ → ℕ → Bitmask × ℤ
bitmask_unset_bits b from_bit bits = write_bits b from_bit bits true

-- `!!(buffer[byte] & (1 << bit))`
unfoldable pub bitmask_get : Bitmask → ℕ → Option ℕ
bitmask_get b bit_idx =
    let (bit, byte) = bit_index_msbfirst bit_idx in
    if leb b.total_bits bit_idx
    then none
    else some (if bit_and (get_or b.buffer byte 0) (1 * 2 ^ bit) == 0 then 0 else 1)

-- The loop over `j` of `_bitmask_first_one`, with `j + 1` rounds left: `found` and `bit`.
unfoldable pub scan_bits : ℕ → ℕ → ℕ → ℕ → Option ℕ
scan_bits zero mask from_bit bit = none
scan_bits (suc j) mask from_bit bit =
    let rest = scan_bits j mask from_bit (bit + 1) in
    if leb from_bit bit && not (bit_and mask (1 * 2 ^ j) == 0) then some bit else rest

-- Its loop over the bytes from `i` on, with `bufsize - i` rounds left.
unfoldable pub first_one_loop : ℕ → ℕ → Bitmask → ℕ → ℕ → ℤ
first_one_loop zero i b from_bit flip = minus_one
first_one_loop (suc left) i b from_bit flip =
    let rest = first_one_loop left (i + 1) b from_bit flip in
    let mask = bit_xor (get_or b.buffer i 0) flip in
    if mask == 0 then rest else elim (scan_bits 8 mask from_bit (i * 8)) [
      | none ↦ rest
      | some bit ↦ if leb b.total_bits bit then minus_one else to_int bit
    ]

unfoldable pub first_one : Bitmask → ℕ → ℕ → ℤ
first_one b from_bit flip = first_one_loop (b.bufsize - from_bit / 8) (from_bit / 8) b from_bit flip

unfoldable pub bitmask_next_zero : Bitmask → ℕ → ℤ
bitmask_next_zero b from_bit = first_one b from_bit 0xff

unfoldable pub bitmask_next_one : Bitmask → ℕ → ℤ
bitmask_next_one b from_bit = first_one b from_bit 0

unfoldable pub bitmask_xor : Bool → Bitmask → Bitmask → Option Bitmask
bitmask_xor has_memory a b =
    if a.total_bits == b.total_bits
    then elim (alloc_bitmask has_memory a.total_bits) [
      | none ↦ none
      | some r ↦ some (record r {
        buffer =
            for_bytes (λ i x. bit_xor (get_or a.buffer i 0) (get_or b.buffer i 0)) b.bufsize 0
              r.buffer;
      })
    ]
    else none

-- A mask as `alloc_bitmask` makes it, small enough that an `int` holds each bit number.
pub record IsValid (b : Bitmask) : Type 0 where
  pub sized : b.bufsize ≡ (b.total_bits + 7) / 8
  pub filled : length b.buffer ≡ b.bufsize
  pub bytes : (i : ℕ) → get_or b.buffer i 0 < 2 ^ 8
  pub in_int : b.total_bits < 2 ^ 31

-- What the mask stands for: its bit `i` as 0 or 1.
abbrev pub bit_at : Bitmask → ℕ → ℕ
bit_at b i = bit_of (7 - i % 8) (get_or b.buffer (i / 8) 0)
