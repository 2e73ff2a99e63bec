-- ===== src/Crc/Api.antt =====
-- The calls of libcrc.c in the order in which a caller makes them, against the bit-serial CRC.
use imgeditor.Common.{ℕ, ◌+◌, ◌-◌, ◌*◌, ◌^◌, ◌<◌, ◌≡◌, refl, ◌∙◌, ap, ap₂, sym, arith, inl, inr}
use imgeditor.Common.{true, some, List, [], ◌∷◌, ◌++◌, All}
use imgeditor.Common.{if◌then◌else◌, Bool-cases, bit_xor}
use imgeditor.Common.{bit_xor-lt}
use imgeditor.Crc.Width.{Crc, table_entry, init_seed}
use imgeditor.Crc.Width.{update_low, update_high, update_loop, update, finish}
use imgeditor.Crc.Reverse.{IsReverse}
use imgeditor.Crc.Linear.{shift_bits-lt}
use imgeditor.Crc.Serial.{serial_high, serial_low, update_high-serial}
use imgeditor.Crc.Serial.{shift_bits-rounds, byte_up}
use imgeditor.Crc.Reflected.{update_low-serial, low_rounds-lt, in_wide}
use imgeditor.Crc.Table.{SameAlgo, IsSound, IsReady, init_seed-IsReady}

module _ (w : ℕ) (reverse : ℕ → ℕ) where
  -- One byte through the bit-serial register, whichever way it runs.
  unfoldable pub serial_byte : Crc → ℕ → ℕ → ℕ
  serial_byte crc next byte =
      if crc.refout
      then serial_low (reverse crc.poly) next byte
      else serial_high w crc.poly next byte

  unfoldable pub serial : Crc → ℕ → List ℕ → ℕ
  serial crc next [] = next
  serial crc next (byte ∷ rest) = serial crc (serial_byte crc next byte) rest

-- `reverse` turns words of the width round; `n` is the width less a byte.
module _ (n w : ℕ) (width : w ≡ n + 8) (reverse : ℕ → ℕ) (turn : IsReverse w reverse) where
  serial_byte-update :
      (crc : Crc) (next byte : ℕ)
      → IsSound w reverse crc
      → crc.crc_table_generated ≡ true
      → next < 2 ^ w
      → byte < 256
      → (if crc.refout
            then update_low w reverse crc.crc_table
            else update_high w reverse crc.crc_table)
          next byte
        ≡ serial_byte w reverse crc next byte
  unfolding serial_byte table_entry
  serial_byte-update crc next byte sound made next_fits byte_fits = elim (Bool-cases crc.refout) [
    | inl low ↦ rw low (
        update_low-serial n w width reverse turn crc.poly sound.poly_fits next byte next_fits
          byte_fits crc.crc_table (λ i h. sound.tabled made i h ∙ rw (sound.reflected, low) refl))
    | inr high ↦ rw high (
        update_high-serial n w width reverse crc.poly sound.poly_fits next byte next_fits byte_fits
          crc.crc_table (λ i h. sound.tabled made i h ∙ rw (sound.reflected, high) refl))
  ]

  serial_high-lt :
      (poly next byte : ℕ)
      → poly < 2 ^ w
      → next < 2 ^ w
      → byte < 256
      → serial_high w poly next byte < 2 ^ w
  unfolding serial_high
  serial_high-lt poly next byte fits next_fits byte_fits =
      let e : w - 8 ≡ n = omega arith in
      let start = bit_xor next (byte * 2 ^ n) in
      let start_fits =
        bit_xor-lt w next _ next_fits (byte_up n w width reverse poly fits byte byte_fits) in
      rw (e, sym (shift_bits-rounds n w width reverse poly fits 8 start start_fits))
        (shift_bits-lt w reverse poly fits 8 start start_fits)

  serial_low-lt :
      (poly next byte : ℕ)
      → poly < 2 ^ w
      → next < 2 ^ w
      → byte < 256
      → serial_low poly next byte < 2 ^ w
  unfolding serial_low
  serial_low-lt poly next byte fits next_fits byte_fits =
      low_rounds-lt w poly fits 8 _
        (bit_xor-lt w next byte next_fits (in_wide n w width reverse turn poly fits byte byte_fits))

  serial_byte-lt :
      (crc : Crc) (next byte : ℕ)
      → IsSound w reverse crc
      → next < 2 ^ w
      → byte < 256
      → serial_byte w reverse crc next byte < 2 ^ w
  unfolding serial_byte
  serial_byte-lt crc next byte sound next_fits byte_fits = elim (Bool-cases crc.refout) [
    | inl low ↦ rw low (
        serial_low-lt (reverse crc.poly) next byte (turn.in_width crc.poly sound.poly_fits)
          next_fits byte_fits)
    | inr high ↦ rw high (serial_high-lt crc.poly next byte sound.poly_fits next_fits byte_fits)
  ]

  update_loop-serial :
      (crc : Crc) (next : ℕ) (bytes : List ℕ)
      → IsSound w reverse crc
      → crc.crc_table_generated ≡ true
      → next < 2 ^ w
      → All (λ b. b < 256) bytes
      → update_loop w reverse
          (if crc.refout
            then update_low w reverse crc.crc_table
            else update_high w reverse crc.crc_table)
          next
          bytes
        ≡ serial w reverse crc next bytes
  unfolding update_loop serial
  update_loop-serial crc next [] sound made next_fits fits = refl
  update_loop-serial crc next (byte ∷ rest) sound made next_fits (byte_fits, fits) =
      rw (serial_byte-update crc next byte sound made next_fits byte_fits) (
        update_loop-serial crc (serial_byte w reverse crc next byte) rest sound made
          (serial_byte-lt crc next byte sound next_fits byte_fits) fits)

  serial_byte-same :
      (a b : Crc) (next byte : ℕ)
      → SameAlgo a b
      → serial_byte w reverse a next byte ≡ serial_byte w reverse b next byte
  unfolding serial_byte
  serial_byte-same a b next byte same = rw (same.refout, same.poly) refl

  pub serial-same :
      (a b : Crc) (next : ℕ) (bytes : List ℕ)
      → SameAlgo a b
      → serial w reverse a next bytes ≡ serial w reverse b next bytes
  unfolding serial
  serial-same a b next [] same = refl
  serial-same a b next (byte ∷ rest) same =
      rw (serial_byte-same a b next byte same)
        (serial-same a b (serial_byte w reverse b next byte) rest same)

  pub serial-lt :
      (crc : Crc) (next : ℕ) (bytes : List ℕ)
      → IsSound w reverse crc
      → next < 2 ^ w
      → All (λ b. b < 256) bytes
      → serial w reverse crc next bytes < 2 ^ w
  unfolding serial
  serial-lt crc next [] sound next_fits fits = next_fits
  serial-lt crc next (byte ∷ rest) sound next_fits (byte_fits, fits) =
      serial-lt crc (serial_byte w reverse crc next byte) rest sound
        (serial_byte-lt crc next byte sound next_fits byte_fits) fits

  pub serial-append :
      (crc : Crc) (next : ℕ) (xs ys : List ℕ)
      → serial w reverse crc next (xs ++ ys)
        ≡ serial w reverse crc (serial w reverse crc next xs) ys
  unfolding serial
  serial-append crc next [] ys = refl
  serial-append crc next (x ∷ xs) ys = serial-append crc (serial_byte w reverse crc next x) xs ys

  update-IsReady :
      (crc ready : Crc) (next : ℕ) (bytes : List ℕ)
      → IsReady w reverse crc next ready
      → next < 2 ^ w
      → All (λ b. b < 256) bytes
      → (left : Crc) × (update w reverse (some ready) bytes ≡ some left)
        × IsReady w reverse crc (serial w reverse crc next bytes) left
  unfolding update table_entry
  update-IsReady crc ready next bytes facts next_fits fits =
      let round =
        if ready.refout
        then update_low w reverse ready.crc_table
        else update_high w reverse ready.crc_table in
      (
        record ready { next = serial w reverse crc next bytes },
        ap (λ t. some (record ready { next = t }))
            (ap (λ t. update_loop w reverse round t bytes) facts.loaded
              ∙ update_loop-serial ready next bytes facts.sound facts.made next_fits fits
              ∙ serial-same ready crc next bytes facts.same),
        record {
          same = record {
            poly = facts.same.poly;
            seed = facts.same.seed;
            xor_result = facts.same.xor_result;
            refin = facts.same.refin;
            refout = facts.same.refout;
          };
          sound = record {
            poly_fits = facts.sound.poly_fits;
            reflected = facts.sound.reflected;
            sized = facts.sound.sized;
            tabled = facts.sound.tabled;
          };
          made = facts.made;
          loaded = refl;
        },
      )

  -- A calculation: the table may be made on the way, the register is that of the bit-serial CRC.
  pub init_update-IsReady :
      (crc : Crc) (next : ℕ) (bytes : List ℕ)
      → IsSound w reverse crc
      → next < 2 ^ w
      → All (λ b. b < 256) bytes
      → (left : Crc) × (update w reverse (init_seed w reverse (some crc) next) bytes ≡ some left)
        × IsReady w reverse crc (serial w reverse crc next bytes) left
        × (finish w reverse (some left) ≡ bit_xor (serial w reverse crc next bytes) crc.xor_result)
  unfolding finish
  init_update-IsReady crc next bytes sound next_fits fits =
      let (ready, started, facts) = init_seed-IsReady w reverse crc next sound in
      let (left, updated, after) = update-IsReady crc ready next bytes facts next_fits fits in
      (left, rw started updated, after, ap₂ bit_xor after.loaded after.same.xor_result)
