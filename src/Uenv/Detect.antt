-- ===== src/Uenv/Detect.antt =====
-- The search of u-boot/uenv.c for the size of an environment finds the first size whose CRC is right.
use imgeditor.Common.{
  ℕ, zero, suc, ◌+◌, ◌-◌, ◌*◌, ◌%◌, ◌^◌, ◌≤◌, ◌<◌, ◌≡◌, ◌≢◌, refl, ◌∙◌, ap, sym, arith, inl, inr,
  ◌⊎◌,
}
use imgeditor.Common.{
  true, false, Option, none, some, List, [], ◌∷◌, ◌++◌, length, All, Bool-cases, ==_iff, ltb, ◌==◌,
}
use imgeditor.Common.{bit_xor, bit_xor-lt, bit_xor_twice, little_endian}
use imgeditor.Crc.{reverse32}
use imgeditor.Crc.Width.{Crc}
use imgeditor.Crc.Reverse.{reverse32-IsReverse}
use imgeditor.Crc.Table.{SameAlgo, IsSound}
use imgeditor.Crc.Api.{serial, serial-lt, serial-append}
use imgeditor.Crc.Standard.{ieee, ieee-IsSound, crc32-serial}
use imgeditor.Dd.{Source, dd64, bufscan}
use imgeditor.Dd.Segment.{segment}
use imgeditor.Dd.Copied.{concat, scan_all, Supplies-file, dd64-Copied}
use imgeditor.Uenv.{
  Sum, uenv_minimum_size, uenv_calc_crc, first_size, next_size, aligned_length, read_buf,
  crc_expected, sum_after, tried, size_loop, uenv_auto_detect_filesize,
}

-- The CRC-32 of bytes, from a start.
abbrev pub standard_crc : ℕ → List ℕ → ℕ
standard_crc crc bytes =
    bit_xor (serial 32 reverse32 ieee (bit_xor crc 0xffffffff) bytes) 0xffffffff

standard_crc-lt :
    (crc : ℕ) (bytes : List ℕ)
    → crc < 2 ^ 32
    → All (λ b. b < 256) bytes
    → standard_crc crc bytes < 2 ^ 32
standard_crc-lt crc bytes fits bytes_fit =
    bit_xor-lt 32 _ 0xffffffff
      (serial-lt 24 32 (omega arith) reverse32 reverse32-IsReverse ieee (bit_xor crc 0xffffffff)
        bytes ieee-IsSound (bit_xor-lt 32 crc 0xffffffff fits (omega arith)) bytes_fit)
      (omega arith)

standard_crc-append :
    (crc : ℕ) (xs ys : List ℕ)
    → crc < 2 ^ 32
    → All (λ b. b < 256) xs
    → standard_crc (standard_crc crc xs) ys ≡ standard_crc crc (xs ++ ys)
standard_crc-append crc xs ys fits xs_fit =
    let seed = bit_xor crc 0xffffffff in
    let middle = serial 32 reverse32 ieee seed xs in
    let middle_fits =
      serial-lt 24 32 (omega arith) reverse32 reverse32-IsReverse ieee seed xs ieee-IsSound
        (bit_xor-lt 32 crc 0xffffffff fits (omega arith)) xs_fit in
    ap (λ s. bit_xor (serial 32 reverse32 ieee s ys) 0xffffffff)
      (bit_xor_twice 32 middle 0xffffffff middle_fits (omega arith))
    ∙ ap (λ t. bit_xor t 0xffffffff)
        (sym (serial-append 24 32 (omega arith) reverse32 reverse32-IsReverse ieee seed xs ys))

All-parts : {A : Type 0} (P : A → Type 0) (xs ys : List A) → All P (xs ++ ys) → All P xs × All P ys
All-parts P [] ys h = (tt, h)
All-parts P (x ∷ xs) ys (px, h) = let (l, r) = All-parts P xs ys h in ((px, l), r)

-- The entry of the CRC library is sound, and LIBCRC32_CRC32.
pub record IsEntry (table : Crc) : Type 0 where
  pub sound : IsSound 32 reverse32 table
  pub same : SameAlgo table ieee

-- The scanner over pieces is the CRC of what they hold together.
scan_all-crc :
    (ps : List (List ℕ)) (crc : ℕ) (table : Crc)
    → IsEntry table
    → crc < 2 ^ 32
    → All (λ b. b < 256) (concat ps)
    → (left : Crc) × IsEntry left
      × ((scan_all (some uenv_calc_crc) ps (crc, some table)).1
          ≡ (standard_crc crc (concat ps), some left))
unfolding uenv_calc_crc bufscan serial
scan_all-crc [] crc table entry fits bytes = (
  table,
  entry,
  ap (λ c. (c, some table)) (sym (bit_xor_twice 32 crc 0xffffffff fits (omega arith))),
)
scan_all-crc (p ∷ ps) crc table entry fits bytes =
    let (p_fit, ps_fit) = All-parts (λ b. b < 256) p (concat ps) bytes in
    let (left, run, sound, same) = crc32-serial table crc p entry.sound entry.same fits p_fit in
    let (last, last_entry, rest) =
      scan_all-crc ps (standard_crc crc p) left (record { sound = sound; same = same })
        (standard_crc-lt crc p fits p_fit) ps_fit in
    (
      last,
      last_entry,
      ap (λ s. (scan_all (some uenv_calc_crc) ps s).1) run
          ∙ rest
          ∙ ap (λ c. (c, some last)) (standard_crc-append crc p (concat ps) fits p_fit),
    )

calc_in_place : (b : List ℕ) (s : Sum) → length (bufscan (some uenv_calc_crc) b s).0 ≡ length b
unfolding uenv_calc_crc bufscan
calc_in_place b (crc, table) = refl

All-segment :
    (content : ℕ → ℕ) (off n : ℕ)
    → ((i : ℕ) → content i < 256)
    → All (λ b. b < 256) (segment content off n)
All-segment content off zero bytes = tt
All-segment content off (suc n) bytes = (bytes off, All-segment content (off + 1) n bytes)

-- The search from a size: it ends at the first size above 2048 whose bytes behind the fourth have
-- the CRC `crc`, or with nothing.
pub data IsDetected (content : ℕ → ℕ) (crc : ℕ) : ℕ → Option ℕ → Type 0 where
  too_small : {sz : ℕ} → sz ≤ 2048 → IsDetected content crc sz none
  found :
      {sz : ℕ}
      → 2048 < sz
      → standard_crc 0 (segment content 4 (sz - 4)) ≡ crc
      → IsDetected content crc sz (some sz)
  smaller :
      {sz : ℕ} {r : Option ℕ}
      → 2048 < sz
      → standard_crc 0 (segment content 4 (sz - 4)) ≢ crc
      → IsDetected content crc (next_size sz) r
      → IsDetected content crc sz r

next_size-lt : (sz : ℕ) → 2048 < sz → next_size sz < sz
unfolding next_size
next_size-lt sz h = ground arith

module _ (read : Source) (content : ℕ → ℕ) (file_size : ℕ) (buffer : List ℕ)
    (reads : (at n : ℕ) → at + n ≤ file_size → read at n ≡ some (segment content at n))
    (bytes : (i : ℕ) → content i < 256) where
  copy-crc :
      (sz : ℕ) (table : Crc)
      → IsEntry table
      → 2048 < sz
      → sz ≤ file_size
      → sz < 2 ^ 64
      → (left : Crc) × IsEntry left
        × (sum_after
              (dd64
                (some uenv_calc_crc)
                (some buffer)
                (some read)
                none
                4
                0
                (sz - 4)
                (0, some table))
              (0, some table)
            ≡ (standard_crc 0 (segment content 4 (sz - 4)), some left))
  copy-crc sz table entry more room word =
      let (c, pieces, run, whole, copied, state, writes) =
        dd64-Copied (some uenv_calc_crc) calc_in_place (some read) none content buffer 4 0 (sz - 4)
          (0, some table) tt
          (Supplies-file read content (4 + (sz - 4))
            (λ at n below. reads at n (omega (arith, below, room))))
          tt (omega arith) in
      let fit : All (λ b. b < 256) (concat pieces) =
        rw whole (All-segment content 4 (sz - 4) bytes) in
      let (left, left_entry, sum) = scan_all-crc pieces 0 table entry (omega arith) fit in
      (
        left,
        left_entry,
        ap (λ r. sum_after r (0, some table)) run
            ∙ state
            ∙ sum
            ∙ ap (λ bs. (standard_crc 0 bs, some left)) whole,
      )

  loop-tried :
      (fuel sz crc : ℕ) (table : Option Crc)
      → ltb uenv_minimum_size sz ≡ true
      → size_loop (suc fuel) read (some buffer) crc sz table
        ≡ tried crc sz
            (sum_after
              (dd64 (some uenv_calc_crc) (some buffer) (some read) none 4 0 (sz - 4) (0, table))
              (0, table))
            (λ t. size_loop fuel read (some buffer) crc (next_size sz) t)
  unfolding size_loop
  loop-tried fuel sz crc table e = rw (size_loop, e) refl

  tried-found :
      (crc sum sz : ℕ) (table : Option Crc) (rest : Option Crc → Option (Option ℕ))
      → (sum == crc) ≡ true
      → tried crc sz (sum, table) rest ≡ some (some sz)
  unfolding tried
  tried-found crc sum sz table rest e = rw (tried, e) refl

  tried-next :
      (crc sum sz : ℕ) (table : Option Crc) (rest : Option Crc → Option (Option ℕ))
      → (sum == crc) ≡ false
      → tried crc sz (sum, table) rest ≡ rest table
  unfolding tried
  tried-next crc sum sz table rest e = rw (tried, e) refl

  loop-stop :
      (fuel sz crc : ℕ) (table : Option Crc)
      → ltb uenv_minimum_size sz ≡ false
      → size_loop (suc fuel) read (some buffer) crc sz table ≡ some none
  unfolding size_loop
  loop-stop fuel sz crc table e = rw (size_loop, e) refl

  size_loop-IsDetected :
      (fuel sz crc : ℕ) (table : Crc)
      → IsEntry table
      → sz < fuel
      → sz ≤ file_size
      → sz < 2 ^ 64
      → (r : Option ℕ) × (size_loop fuel read (some buffer) crc sz (some table) ≡ some r)
        × IsDetected content crc sz r
  size_loop-IsDetected zero sz crc table entry enough room word = absurd (omega arith)
  size_loop-IsDetected (suc fuel) sz crc table entry enough room word =
      elim (Bool-cases (ltb uenv_minimum_size sz)) [
        | inr small ↦
            (none, loop-stop fuel sz crc (some table) small, IsDetected.too_small (ground arith))
        | inl more ↦
            let above : 2048 < sz = ground arith in
            let (left, left_entry, sum) = copy-crc sz table entry above room word in
            let crc_here = standard_crc 0 (segment content 4 (sz - 4)) in
            let rest = λ (t : Option Crc). size_loop fuel read (some buffer) crc (next_size sz) t in
            let step =
              loop-tried fuel sz crc (some table) more ∙ ap (λ s. tried crc sz s rest) sum in
            elim (Bool-cases (crc_here == crc)) [
              | inl same ↦ (
                some sz,
                step ∙ tried-found crc crc_here sz (some left) rest same,
                IsDetected.found above ((==_iff crc_here crc).0 same),
              )
              | inr other ↦
                  let less = next_size-lt sz above in
                  let (r, run, detected) =
                    size_loop-IsDetected fuel (next_size sz) crc left left_entry
                      (omega (arith, less)) (omega (arith, less)) (omega (arith, less)) in
                  (
                    r,
                    step ∙ tried-next crc crc_here sz (some left) rest other ∙ run,
                    IsDetected.smaller above (grind (arith, ==_iff crc_here crc, other)) detected,
                  )
            ]
      ]

  first_size-le :
      (sz : ℕ)
      → (sz % (128 * 2 ^ 10) ≡ 0) ⊎ (2 * 2 ^ 20 ≤ sz)
      → (first_size sz ≤ sz) × (first_size sz ≤ 2 * 2 ^ 20)
  unfolding first_size aligned_length
  first_size-le sz whole = ground (arith, whole)

  -- When the length is a positive multiple of 128 KiB or at least 2 MiB, the file can be read up to it
  -- and the entry of the CRC library is sound, the search ends. It gives the first of its sizes above
  -- 2048 for which the number in the first four bytes, lowest first, is the CRC-32 of the bytes behind
  -- them up to the size, and -1 if there is none.
  pub uenv_auto_detect_filesize-IsDetected :
      (old : List ℕ) (table : Crc)
      → IsEntry table
      → 0 < file_size
      → (file_size % (128 * 2 ^ 10) ≡ 0) ⊎ (2 * 2 ^ 20 ≤ file_size)
      → (r : Option ℕ) × (uenv_auto_detect_filesize read file_size (some buffer) old (some table)
          ≡ some r)
        × IsDetected content
            (content 0 + content 1 * 2 ^ 8 + content 2 * 2 ^ 16 + content 3 * 2 ^ 24)
            (first_size file_size)
            r
  unfolding uenv_auto_detect_filesize read_buf crc_expected
  uenv_auto_detect_filesize-IsDetected old table entry some_bytes whole =
      let (fits, word) = first_size-le file_size whole in
      let crc = content 0 + content 1 * 2 ^ 8 + content 2 * 2 ^ 16 + content 3 * 2 ^ 24 in
      let (r, run, detected) =
        size_loop-IsDetected (first_size file_size + 1) (first_size file_size) crc table entry
          (omega arith) fits (omega (arith, word)) in
      let four : 0 + 4 ≤ file_size = omega arith in
      let buf =
        ap
          (λ b.
            size_loop (first_size file_size + 1) read (some buffer) (crc_expected (read_buf b old))
              (first_size file_size) (some table))
          (reads 0 4 four) in
      let number =
        little_endian (content 0) (content 1) (content 2) (content 3) (bytes 0) (bytes 1)
          (bytes 2) in
      (
        r,
        buf
            ∙ ap
                (λ k.
                  size_loop (first_size file_size + 1) read (some buffer) k (first_size file_size)
                    (some table))
                number
            ∙ run,
        detected,
      )
