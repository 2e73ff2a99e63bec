-- ===== src/Crc/Width.antt =====
-- The functions of libcrc.c at `w` bits, with the bit reversal of that width.
use imgeditor.Common.{ℕ, zero, suc, ◌+◌, ◌-◌, ◌*◌, ◌/◌, ◌%◌, ◌^◌, bit_and, bit_xor, Bool, true, not}
use imgeditor.Common.{Option, none, some, List, [], ◌∷◌, get_or, set, ◌==◌, if◌then◌else◌}

-- `struct libcrc32` or `struct libcrc16` with its private data.
pub record Crc : Type 0 where
  pub poly : ℕ
  pub seed : ℕ
  pub xor_result : ℕ
  pub refin : Bool
  pub refout : Bool
  pub crc_table_generated : Bool
  pub next : ℕ
  pub crc_table : List ℕ

module _ (w : ℕ) (reverse : ℕ → ℕ) where
  -- One round of the loop over `bit`.
  unfoldable pub shift_bit : ℕ → ℕ → ℕ
  shift_bit poly cur =
      if not (bit_and cur (2 ^ (w - 1)) == 0)
      then bit_xor (cur * 2 ^ 1 % 2 ^ w) poly
      else cur * 2 ^ 1 % 2 ^ w

  unfoldable pub shift_bits : ℕ → ℕ → ℕ → ℕ
  shift_bits zero poly cur = cur
  shift_bits (suc left) poly cur = shift_bits left poly (shift_bit poly cur)

  unfoldable pub table_entry : Crc → ℕ → ℕ
  table_entry crc i =
      let cur_byte = if crc.refin then reverse i / 2 ^ (w - 8) else i in
      let out = shift_bits w crc.poly cur_byte in if crc.refout then reverse out else out

  unfoldable pub table_loop : ℕ → ℕ → Crc → List ℕ → List ℕ
  table_loop zero i crc table = table
  table_loop (suc left) i crc table = table_loop left (i + 1) crc (set table i (table_entry crc i))

  unfoldable pub generate_table : Crc → Crc
  generate_table crc = record crc { crc_table = table_loop 256 0 crc crc.crc_table }

  unfoldable pub init_seed : Option Crc → ℕ → Option Crc
  init_seed none seed = none
  init_seed (some crc) seed =
      let ready : Crc =
        if crc.crc_table_generated
        then crc
        else generate_table (record crc { crc_table_generated = true }) in
      some (record ready { next = seed })

  unfoldable pub init : Option Crc → Option Crc
  init none = none
  init (some crc) = init_seed (some crc) crc.seed

  -- One round of the loops of the update: with `refout`, and without.
  unfoldable pub update_low : List ℕ → ℕ → ℕ → ℕ
  update_low table next byte =
      bit_xor (next / 2 ^ 8) (get_or table (bit_and (bit_xor next byte) 0xff) 0)

  unfoldable pub update_high : List ℕ → ℕ → ℕ → ℕ
  update_high table next byte =
      bit_xor (next * 2 ^ 8 % 2 ^ w)
        (get_or table (bit_and (bit_xor (next / 2 ^ (w - 8)) byte) 0xff) 0)

  unfoldable pub update_loop : (ℕ → ℕ → ℕ) → ℕ → List ℕ → ℕ
  update_loop round next [] = next
  update_loop round next (byte ∷ rest) = update_loop round (round next byte) rest

  unfoldable pub update : Option Crc → List ℕ → Option Crc
  update none bytes = none
  update (some crc) bytes =
      let round = if crc.refout then update_low crc.crc_table else update_high crc.crc_table in
      some (record crc { next = update_loop round crc.next bytes })

  unfoldable pub finish : Option Crc → ℕ
  finish none = 2 ^ w - 1
  finish (some crc) = bit_xor crc.next crc.xor_result
