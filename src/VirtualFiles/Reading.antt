-- ===== src/VirtualFiles/Reading.antt =====
-- `fileread` of virtual_file.c reads on when the system gives fewer bytes than it is asked for.
use imgeditor.Common.{
  ℕ, zero, suc, ◌+◌, ◌-◌, ◌≤◌, ◌<◌, ◌≡◌, ◌∙◌, ap, sym, arith, inl, inr, ◌⊎◌, min,
}
use imgeditor.Common.{
  true, false, Option, some, List, [], ◌∷◌, ◌++◌, length, ltb, ◌==◌, if◌then◌else◌, Bool-cases,
}
use imgeditor.Common.{ℤ, pos, minus_one}
use imgeditor.Dd.{Source}
use imgeditor.Dd.Segment.{segment, length-segment, segment-add}
use imgeditor.VirtualFiles.{read_loop, fileread}

-- A file of `size` bytes: a read gives at least one of the bytes that are asked for and at most all of
-- them, and none only at the end.
abbrev pub ReadsSome : Source → (ℕ → ℕ) → ℕ → Type 0
ReadsSome read content size =
    (at n : ℕ)
    → 0 < n
    → (k : ℕ) × (read at n ≡ some (segment content at k))
      × (k ≤ n)
      × (((0 < k) × (at + k ≤ size)) ⊎ ((k ≡ 0) × (size ≤ at)))

abbrev pub result_of : ℕ → ℕ → ℤ
result_of n sz = if n == sz then pos 0 else minus_one

module _ (read : Source) (content : ℕ → ℕ) (size at sz : ℕ)
    (reads : ReadsSome read content size) where
  -- The end with `g` bytes, whose number is `k`.
  abbrev ended : ℕ → ℕ → Option (List ℕ × ℤ)
  ended g k = some (segment content at g, result_of k sz)

  loop-full :
      (fuel g : ℕ)
      → ltb g sz ≡ false
      → read_loop (suc fuel) read at sz (segment content at g) ≡ ended g g
  unfolding read_loop
  loop-full fuel g e =
      let stop : ltb (length (segment content at g)) sz ≡ false =
        ap (λ k. ltb k sz) (length-segment content at g) ∙ e in
      rw (read_loop, stop) (ap (ended g) (length-segment content at g))

  loop-end :
      (fuel g : ℕ)
      → ltb g sz ≡ true
      → read (at + g) (sz - g) ≡ some []
      → read_loop (suc fuel) read at sz (segment content at g) ≡ ended g g
  unfolding read_loop
  loop-end fuel g e call =
      let sized = length-segment content at g in
      let on : ltb (length (segment content at g)) sz ≡ true = ap (λ k. ltb k sz) sized ∙ e in
      let call' : read (at + length (segment content at g)) (sz - length (segment content at g))
          ≡ some [] =
        ap (λ k. read (at + k) (sz - k)) sized ∙ call in
      rw (read_loop, on, call') (ap (ended g) sized)

  loop-more :
      (fuel g k : ℕ)
      → ltb g sz ≡ true
      → read (at + g) (sz - g) ≡ some (segment content (at + g) (suc k))
      → read_loop (suc fuel) read at sz (segment content at g)
        ≡ read_loop fuel read at sz (segment content at (g + suc k))
  unfolding read_loop
  loop-more fuel g k e call =
      let sized = length-segment content at g in
      let on : ltb (length (segment content at g)) sz ≡ true = ap (λ k. ltb k sz) sized ∙ e in
      let call' : read (at + length (segment content at g)) (sz - length (segment content at g))
          ≡ some (content (at + g) ∷ segment content (at + g + 1) k) =
        ap (λ k. read (at + k) (sz - k)) sized ∙ call in
      let joined : segment content at g ++ segment content (at + g) (suc k)
          ≡ segment content at (g + suc k) =
        sym (segment-add content at g (suc k)) in
      rw (read_loop, on, call') (ap (read_loop fuel read at sz) joined)

  read_loop-all :
      (fuel g : ℕ)
      → sz < fuel + g
      → g ≤ min sz (size - at)
      → read_loop fuel read at sz (segment content at g)
        ≡ some (segment content at (min sz (size - at)), result_of (min sz (size - at)) sz)
  read_loop-all zero g enough below = absurd (omega arith)
  read_loop-all (suc fuel) g enough below =
      let finished : g ≡ min sz (size - at)
          → ended g g ≡ ended (min sz (size - at)) (min sz (size - at)) =
        λ same. ap (λ k. ended k k) same in
      elim (Bool-cases (ltb g sz)) [
        | inr full ↦ loop-full fuel g full ∙ finished (ground arith)
        | inl more ↦
            let left : 0 < sz - g = ground arith in
            let (k, call, fits, edge) = reads (at + g) (sz - g) left in
            elim edge [
              | inl (some_bytes, inside) ↦
                  let k_is : k ≡ suc (k - 1) = omega arith in
                  let call' = call ∙ ap (λ m. some (segment content (at + g) m)) k_is in
                  loop-more fuel g (k - 1) more call'
                  ∙ read_loop-all fuel (g + suc (k - 1)) (omega arith) (omega arith)
              | inr (no_bytes, end) ↦
                  loop-end fuel g more (call ∙ ap (λ m. some (segment content (at + g) m)) no_bytes)
                  ∙ finished (omega arith)
            ]
      ]

  -- On a file whose reads may come short but give a byte where there is one, `fileread` ends with the
  -- bytes from the position on, as many as it is asked for or as the file has there. It returns 0 when
  -- it has them all and -1 otherwise.
  pub fileread-segment :
      fileread read at sz
      ≡ some (segment content at (min sz (size - at)), result_of (min sz (size - at)) sz)
  unfolding fileread
  fileread-segment = read_loop-all (sz + 1) 0 (omega arith) (omega arith)
