-- ===== src/Crc/Examples.antt =====
-- The CRC theorems at predefined algorithms, and the check values of the catalogue of CRCs.
use imgeditor.Common.{ℕ, ◌<◌, ◌≡◌, refl, arith, none, some, List, [], ◌∷◌, ◌++◌, All}
use imgeditor.Common.{bit_xor, map}
use imgeditor.Crc.{reverse16, reverse32, libcrc32_init_seed, libcrc32_update, libcrc32_finish}
use imgeditor.Crc.{
  libcrc16_init_seed, libcrc16_update, libcrc16_finish, libcrc16_init, libcrc32_init,
}
use imgeditor.Crc.Width.{
  Crc, init, init_seed, generate_table, table_loop, table_entry, shift_bits, shift_bit,
}
use imgeditor.Crc.Width.{update, update_loop, update_low, update_high, finish}
use imgeditor.Crc.Predefined.{
  libcrc32_predefined, libcrc16_predefined, crc32, available_crc32_algos, available_crc16_algos,
}
use imgeditor.Crc.Table.{SameAlgo, IsSound, IsReady}
use imgeditor.Crc.Api.{serial}
use imgeditor.Crc.Standard.{libcrc32-serial, libcrc16-serial}
use imgeditor.Crc.Standard.{
  ieee, ieee-IsSound, ccitt_false, ccitt_false-IsSound, crc32-serial, crc32-append,
}

-- "123456789", the text whose CRC the catalogue gives.
abbrev digits : List ℕ
digits = 0x31 ∷ 0x32 ∷ 0x33 ∷ 0x34 ∷ 0x35 ∷ 0x36 ∷ 0x37 ∷ 0x38 ∷ 0x39 ∷ []

digits_fit : All (λ b. b < 256) digits
digits_fit = (
  omega arith,
  (
    omega arith,
    (
      omega arith,
      (omega arith, (omega arith, (omega arith, (omega arith, (omega arith, (omega arith, tt)))))),
    ),
  ),
)

ieee-SameAlgo : SameAlgo ieee ieee
ieee-SameAlgo = record { poly = refl; seed = refl; xor_result = refl; refin = refl; refout = refl }

-- The CRC of `digits` that each predefined algorithm gives, which is the check value of the catalogue.
abbrev check32 : ℕ → ℕ
check32 i = libcrc32_finish (libcrc32_update (libcrc32_init (libcrc32_predefined i)) digits)

abbrev check16 : ℕ → ℕ
check16 i = libcrc16_finish (libcrc16_update (libcrc16_init (libcrc16_predefined i)) digits)

check32_values :
    map check32 (0 ∷ 1 ∷ 2 ∷ 3 ∷ 4 ∷ 5 ∷ 6 ∷ 7 ∷ 8 ∷ [])
    ≡ 0xbd0be338 ∷ 0x765e7680 ∷ 0xfc891918 ∷ 0x0376e6e7 ∷ 0xcbf43926 ∷ 0x340bc6d9 ∷ 0xe3069283
      ∷ 0x3010bf7f ∷ 0x87315576 ∷ []
unfolding libcrc32_predefined available_crc32_algos init init_seed generate_table table_loop
    table_entry shift_bits shift_bit update update_loop update_low update_high finish reverse32
    libcrc32_init libcrc32_init_seed libcrc32_update libcrc32_finish
check32_values = refl

check16_values :
    map check16 (0 ∷ 1 ∷ 2 ∷ 3 ∷ 4 ∷ 5 ∷ 6 ∷ 7 ∷ 8 ∷ 9 ∷ [])
    ≡ 0x2189 ∷ 0x29b1 ∷ 0x31c3 ∷ 0x906e ∷ 0xe5cc ∷ 0x4b37 ∷ 0xbb3d ∷ 0x44c2 ∷ 0xb4c8 ∷ 0xea82 ∷ []
unfolding libcrc16_predefined available_crc16_algos init init_seed generate_table table_loop
    table_entry shift_bits shift_bit update update_loop update_low update_high finish reverse16
    libcrc16_init libcrc16_init_seed libcrc16_update libcrc16_finish
check16_values = refl

predefined_out : (libcrc32_predefined 9 ≡ none) × (libcrc16_predefined 10 ≡ none)
unfolding libcrc32_predefined libcrc16_predefined
predefined_out = (refl, refl)

libcrc32-serial_example :
    (left : Crc) × (libcrc32_update (libcrc32_init_seed (some ieee) 0xffffffff) digits ≡ some left)
    × IsReady 32 reverse32 ieee (serial 32 reverse32 ieee 0xffffffff digits) left
    × (libcrc32_finish (some left)
        ≡ bit_xor (serial 32 reverse32 ieee 0xffffffff digits) 0xffffffff)
libcrc32-serial_example =
    libcrc32-serial ieee 0xffffffff digits ieee-IsSound (omega arith) digits_fit

libcrc16-serial_example :
    (left : Crc) × (libcrc16_update (libcrc16_init_seed (some ccitt_false) 0xffff) digits
      ≡ some left)
    × IsReady 16 reverse16 ccitt_false (serial 16 reverse16 ccitt_false 0xffff digits) left
    × (libcrc16_finish (some left) ≡ bit_xor (serial 16 reverse16 ccitt_false 0xffff digits) 0)
libcrc16-serial_example =
    libcrc16-serial ccitt_false 0xffff digits ccitt_false-IsSound (omega arith) digits_fit

crc32-serial_example :
    (left : Crc) × (crc32 (some ieee) 0 digits
      ≡ (bit_xor (serial 32 reverse32 ieee (bit_xor 0 0xffffffff) digits) 0xffffffff, some left))
    × IsSound 32 reverse32 left
    × SameAlgo left ieee
crc32-serial_example =
    crc32-serial ieee 0 digits ieee-IsSound ieee-SameAlgo (omega arith) digits_fit

crc32-append_example :
    (crc32 (crc32 (some ieee) 0 digits).1 (crc32 (some ieee) 0 digits).0 digits).0
    ≡ (crc32 (some ieee) 0 (digits ++ digits)).0
crc32-append_example =
    crc32-append ieee 0 digits digits ieee-IsSound ieee-SameAlgo (omega arith) digits_fit digits_fit
