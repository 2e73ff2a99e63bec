-- ===== src/Crc/Predefined.antt =====
-- The tables `available_crc32_algos` and `available_crc16_algos`, and crc32.c.
use imgeditor.Common.{
  ℕ, leb, if◌then◌else◌, get_or, Bool, true, false, Option, none, some, List, [], ◌∷◌, replicate,
  bit_xor,
}
use imgeditor.Crc.Width.{Crc}
use imgeditor.Crc.{libcrc32_init_seed, libcrc32_update, libcrc32_finish}

-- An entry: everything that the initialiser does not name is zero.
abbrev pub algo : ℕ → ℕ → ℕ → Bool → Bool → Crc
algo poly seed xor_result refin refout = record {
  poly = poly;
  seed = seed;
  xor_result = xor_result;
  refin = refin;
  refout = refout;
  crc_table_generated = false;
  next = 0;
  crc_table = replicate 256 0;
}

unfoldable pub available_crc32_algos : List Crc
available_crc32_algos =
    algo 0x000000af 0x00000000 0x00000000 false false
    ∷ algo 0x04c11db7 0x00000000 0xffffffff false false
    ∷ algo 0x04c11db7 0xffffffff 0xffffffff false false
    ∷ algo 0x04c11db7 0xffffffff 0x00000000 false false
    ∷ algo 0x04c11db7 0xffffffff 0xffffffff true true
    ∷ algo 0x04c11db7 0xffffffff 0x00000000 true true
    ∷ algo 0x1edc6f41 0xffffffff 0xffffffff true true
    ∷ algo 0x814141ab 0x00000000 0x00000000 false false
    ∷ algo 0xa833982b 0xffffffff 0xffffffff true true
    ∷ []

unfoldable pub available_crc16_algos : List Crc
available_crc16_algos =
    algo 0x1021 0x0000 0x0000 true true
    ∷ algo 0x1021 0xffff 0x0000 false false
    ∷ algo 0x1021 0x0000 0x0000 false false
    ∷ algo 0x1021 0xffff 0xffff true true
    ∷ algo 0x1021 0x1d0f 0x0000 false false
    ∷ algo 0x8005 0xffff 0x0000 true true
    ∷ algo 0x8005 0x0000 0x0000 true true
    ∷ algo 0x8005 0x0000 0xffff true true
    ∷ algo 0x8005 0xffff 0xffff true true
    ∷ algo 0x3d65 0x0000 0xffff true true
    ∷ []

abbrev libcrc32_max : ℕ
libcrc32_max = 9

abbrev libcrc16_max : ℕ
libcrc16_max = 10

-- `algo` is the value of the argument as the enumeration's type holds it, which is not below 0. An
-- index behind the table, which C leaves undefined, would give an entry of zeros.
abbrev predefined : List Crc → ℕ → ℕ → Option Crc
predefined table max i = if leb max i then none else some (get_or table i (algo 0 0 0 false false))

unfoldable pub libcrc32_predefined : ℕ → Option Crc
libcrc32_predefined i = predefined available_crc32_algos libcrc32_max i

unfoldable pub libcrc16_predefined : ℕ → Option Crc
libcrc16_predefined i = predefined available_crc16_algos libcrc16_max i

-- `crc32`: `state` is the entry LIBCRC32_CRC32 of the static table, which keeps its table and `next`
-- from call to call. The result, and the entry that the call leaves.
unfoldable pub crc32 : Option Crc → ℕ → List ℕ → ℕ × Option Crc
crc32 state crc bytes =
    let started = libcrc32_init_seed state (bit_xor crc 0xffffffff) in
    let run = libcrc32_update started bytes in (libcrc32_finish run, run)
