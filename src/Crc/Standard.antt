-- ===== src/Crc/Standard.antt =====
-- The functions of libcrc.c at 32 and 16 bits, two of its predefined algorithms, and crc32.c.
use imgeditor.Common.{bit_xor_twice, ℕ, ◌^◌, ◌<◌, ◌≡◌, refl, ◌∙◌, ap, ap₂, sym, arith}
use imgeditor.Common.{Bool, true, false, some, List, [], ◌∷◌, ◌++◌, All}
use imgeditor.Common.{bit_xor, length-replicate, All-append, bit_xor-lt}
use imgeditor.Crc.{reverse32, reverse16, libcrc32_init_seed, libcrc32_update, libcrc32_finish}
use imgeditor.Crc.{libcrc16_init_seed, libcrc16_update, libcrc16_finish}
use imgeditor.Crc.Width.{Crc, update_loop}
use imgeditor.Crc.Predefined.{algo, crc32}
use imgeditor.Crc.Reverse.{reverse32-IsReverse, reverse16-IsReverse}
use imgeditor.Crc.Table.{SameAlgo, IsSound, IsReady}
use imgeditor.Crc.Api.{serial, init_update-IsReady, serial-same, serial-lt, serial-append}

-- libcrc32_init_seed followed by libcrc32_update and libcrc32_finish, on a sound state, a 32-bit
-- seed and any bytes, is the bit-serial CRC of the bytes from that seed, with `xor_result` added;
-- the state that is left is sound, of the same algorithm, and has its table made.
pub libcrc32-serial :
    (crc : Crc) (seed : ℕ) (bytes : List ℕ)
    → IsSound 32 reverse32 crc
    → seed < 2 ^ 32
    → All (λ b. b < 256) bytes
    → (left : Crc) × (libcrc32_update (libcrc32_init_seed (some crc) seed) bytes ≡ some left)
      × IsReady 32 reverse32 crc (serial 32 reverse32 crc seed bytes) left
      × (libcrc32_finish (some left) ≡ bit_xor (serial 32 reverse32 crc seed bytes) crc.xor_result)
unfolding libcrc32_init_seed libcrc32_update libcrc32_finish
libcrc32-serial = init_update-IsReady 24 32 (omega arith) reverse32 reverse32-IsReverse

-- libcrc16_init_seed followed by libcrc16_update and libcrc16_finish, on a sound state, a 16-bit
-- seed and any bytes, is the bit-serial CRC of the bytes from that seed, with `xor_result` added;
-- the state that is left is sound, of the same algorithm, and has its table made.
pub libcrc16-serial :
    (crc : Crc) (seed : ℕ) (bytes : List ℕ)
    → IsSound 16 reverse16 crc
    → seed < 2 ^ 16
    → All (λ b. b < 256) bytes
    → (left : Crc) × (libcrc16_update (libcrc16_init_seed (some crc) seed) bytes ≡ some left)
      × IsReady 16 reverse16 crc (serial 16 reverse16 crc seed bytes) left
      × (libcrc16_finish (some left) ≡ bit_xor (serial 16 reverse16 crc seed bytes) crc.xor_result)
unfolding libcrc16_init_seed libcrc16_update libcrc16_finish
libcrc16-serial = init_update-IsReady 8 16 (omega arith) reverse16 reverse16-IsReverse

update_loop-append :
    (w : ℕ) (reverse : ℕ → ℕ) (round : ℕ → ℕ → ℕ) (next : ℕ) (xs ys : List ℕ)
    → update_loop w reverse round (update_loop w reverse round next xs) ys
      ≡ update_loop w reverse round next (xs ++ ys)
unfolding update_loop
update_loop-append w reverse round next [] ys = refl
update_loop-append w reverse round next (x ∷ xs) ys =
    update_loop-append w reverse round (round next x) xs ys

algo-IsSound :
    (w : ℕ) (reverse : ℕ → ℕ) (poly seed xor_result : ℕ) (reflect : Bool)
    → poly < 2 ^ w
    → IsSound w reverse (algo poly seed xor_result reflect reflect)
algo-IsSound w reverse poly seed xor_result reflect fits = record {
  poly_fits = fits;
  reflected = refl;
  sized = length-replicate {A = ℕ} 256 0;
  tabled = λ made. ground (arith, made);
}

sound32 :
    {poly seed xor_result : ℕ} {reflect : Bool}
    → poly < 2 ^ 32
    → IsSound 32 reverse32 (algo poly seed xor_result reflect reflect)
sound32 = algo-IsSound 32 reverse32 _ _ _ _

sound16 :
    {poly seed xor_result : ℕ} {reflect : Bool}
    → poly < 2 ^ 16
    → IsSound 16 reverse16 (algo poly seed xor_result reflect reflect)
sound16 = algo-IsSound 16 reverse16 _ _ _ _

-- The entry LIBCRC32_CRC32 as the table of algorithms has it.
abbrev pub ieee : Crc
ieee = algo 0x04c11db7 0xffffffff 0xffffffff true true

pub ieee-IsSound : IsSound 32 reverse32 ieee
ieee-IsSound = sound32 (omega arith)

-- crc32 on the entry LIBCRC32_CRC32, sound, with or without its table, for a 32-bit start and any
-- bytes, is the inverse of the bit-serial CRC of the bytes from the inverted start, and leaves the
-- entry sound and of the same algorithm.
pub crc32-serial :
    (state : Crc) (crc : ℕ) (bytes : List ℕ)
    → IsSound 32 reverse32 state
    → SameAlgo state ieee
    → crc < 2 ^ 32
    → All (λ b. b < 256) bytes
    → (left : Crc) × (crc32 (some state) crc bytes
        ≡ (bit_xor (serial 32 reverse32 ieee (bit_xor crc 0xffffffff) bytes) 0xffffffff, some left))
      × IsSound 32 reverse32 left
      × SameAlgo left ieee
unfolding crc32
crc32-serial state crc bytes sound same fits bytes_fit =
    let seed = bit_xor crc 0xffffffff in
    let (left, run, ready, result) =
      libcrc32-serial state seed bytes sound (bit_xor-lt 32 crc _ fits (omega arith)) bytes_fit in
    let agree =
      serial-same 24 32 (omega arith) reverse32 reverse32-IsReverse state ieee seed bytes same in
    (
      left,
      rw run (ap (λ v. (v, some left)) (result ∙ ap₂ bit_xor agree same.xor_result)),
      ready.sound,
      record {
        poly = ready.same.poly ∙ same.poly;
        seed = ready.same.seed ∙ same.seed;
        xor_result = ready.same.xor_result ∙ same.xor_result;
        refin = ready.same.refin ∙ same.refin;
        refout = ready.same.refout ∙ same.refout;
      },
    )

-- crc32 over the concatenation of two byte strings is crc32 over the second, started from the
-- result over the first, on the entry that the first call leaves.
pub crc32-append :
    (state : Crc) (crc : ℕ) (xs ys : List ℕ)
    → IsSound 32 reverse32 state
    → SameAlgo state ieee
    → crc < 2 ^ 32
    → All (λ b. b < 256) xs
    → All (λ b. b < 256) ys
    → (crc32 (crc32 (some state) crc xs).1 (crc32 (some state) crc xs).0 ys).0
      ≡ (crc32 (some state) crc (xs ++ ys)).0
crc32-append state crc xs ys sound same fits xs_fit ys_fit =
    let seed = bit_xor crc 0xffffffff in
    let seed_fits = bit_xor-lt 32 crc 0xffffffff fits (omega arith) in
    let middle = serial 32 reverse32 ieee seed xs in
    let middle_fits =
      serial-lt 24 32 (omega arith) reverse32 reverse32-IsReverse ieee seed xs ieee-IsSound
        seed_fits xs_fit in
    let first_fits = bit_xor-lt 32 middle 0xffffffff middle_fits (omega arith) in
    let (left, first, left_sound, left_same) = crc32-serial state crc xs sound same fits xs_fit in
    let (_, second, _, _) =
      crc32-serial left (bit_xor middle 0xffffffff) ys left_sound left_same first_fits ys_fit in
    let (_, whole, _, _) =
      crc32-serial state crc (xs ++ ys) sound same fits (All-append _ xs ys xs_fit ys_fit) in
    rw (first, second, whole, bit_xor_twice 32 middle 0xffffffff middle_fits (omega arith))
      (ap (λ t. bit_xor t 0xffffffff)
        (sym (serial-append 24 32 (omega arith) reverse32 reverse32-IsReverse ieee seed xs ys)))

-- The entry LIBCRC16_CCITT_FALSE as the table of algorithms has it.
abbrev pub ccitt_false : Crc
ccitt_false = algo 0x1021 0xffff 0 false false

pub ccitt_false-IsSound : IsSound 16 reverse16 ccitt_false
ccitt_false-IsSound = sound16 (omega arith)
