-- ===== src/Uenv/Examples.antt =====
-- The search for the size of an environment at a concrete input.
use imgeditor.Common.{ℕ, zero, suc, ◌<◌, ◌≡◌, refl, arith, inl, Option, some, [], ◌∷◌, get_or}
use imgeditor.Dd.{Source}
use imgeditor.Dd.Segment.{segment}
use imgeditor.Crc.Standard.{ieee, ieee-IsSound}
use imgeditor.Uenv.{first_size, next_size, aligned_length, crc_expected, uenv_auto_detect_filesize}
use imgeditor.Uenv.Detect.{IsEntry, IsDetected, uenv_auto_detect_filesize-IsDetected}

-- A block with one variable, `a=1`, in 128 KiB.
abbrev content : ℕ → ℕ
content i = get_or (0 ∷ 0 ∷ 0 ∷ 0 ∷ 97 ∷ 61 ∷ 49 ∷ []) i 0

content_bytes : (i : ℕ) → content i < 256
content_bytes zero = omega arith
content_bytes (suc zero) = omega arith
content_bytes (suc (suc zero)) = omega arith
content_bytes (suc (suc (suc zero))) = omega arith
content_bytes (suc (suc (suc (suc zero)))) = omega arith
content_bytes (suc (suc (suc (suc (suc zero))))) = omega arith
content_bytes (suc (suc (suc (suc (suc (suc zero)))))) = omega arith
content_bytes (suc (suc (suc (suc (suc (suc (suc i))))))) = omega arith

abbrev read : Source
read off n = some (segment content off n)

ieee-IsEntry : IsEntry ieee
ieee-IsEntry = record {
  sound = ieee-IsSound;
  same = record { poly = refl; seed = refl; xor_result = refl; refin = refl; refout = refl };
}

uenv_auto_detect_filesize-IsDetected_example :
    (r : Option ℕ) × (uenv_auto_detect_filesize read 131072 (some []) [] (some ieee) ≡ some r)
    × IsDetected content 0 (first_size 131072) r
uenv_auto_detect_filesize-IsDetected_example =
    uenv_auto_detect_filesize-IsDetected read content 131072 [] (λ off n le. refl) content_bytes []
      ieee ieee-IsEntry (omega arith) (inl refl)

-- Sizes are 128 KiB apart down to 128 KiB, and halved from there.
sizes :
    (first_size 5000000 ≡ 2097152)
    × (first_size 5000 ≡ 131072)
    × (next_size 262144 ≡ 131072)
    × (next_size 131072 ≡ 65536)
unfolding first_size next_size aligned_length
sizes = (refl, refl, refl, refl)

number : crc_expected (0x78 ∷ 0x56 ∷ 0x34 ∷ 0x12 ∷ []) ≡ 0x12345678
unfolding crc_expected
number = refl
