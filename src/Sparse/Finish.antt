-- ===== src/Sparse/Finish.antt =====
-- The writer of android/android_sparse.c: what `android_sparse_finish` writes for the runs of the
-- bitmask, when `write_cb` writes the blocks that it is asked for.
use imgeditor.Common.{ℕ, ◌+◌, ◌*◌, ◌%◌, ◌^◌, ◌≤◌, ◌<◌, ◌≡◌, refl, ◌∙◌, ap, ap₂, sym, arith}
use imgeditor.Common.{false, List, [], ◌∷◌, ◌++◌, length, length-append}
use imgeditor.Common.{ℤ, pos, is_negative}
use imgeditor.Bitmask.{Bitmask}
use imgeditor.Bitmask.Iterator.{IsRuns}
use imgeditor.Sparse.{
  Out, write, append_gap, last_gap, call_back, raw_run, one_run, run_loop, raw_bytes,
}
use imgeditor.Sparse.Plan.{Chunk, gap_to, plan, blocks}
use imgeditor.Sparse.Print.{print_all, length-blocks}
use mathlib.Core.List.{append_assoc, append-nil}
use mathlib.Core.Path.{subst, subst₂}
use native.Mathlib.Nat.{add-mul}
use imgeditor.Sparse.Grown.{
  length-raw_bytes, gap_to-append, small, times_le, print_all-append, length-gap_to, Grown, Behind,
  Grown-then, Behind-then, Grown-sought, append_gap-Grown, last_gap-Grown,
}

module _ (blksz : ℕ) (block : ℕ → List ℕ) {P : Type 0} (write_cb : ℕ → ℕ → P → ℤ × List ℕ × P)
    (b : Bitmask) (block_sized : (i : ℕ) → length (block i) ≡ blksz)
    (in_int : b.total_bits < 2 ^ 31) (fits : b.total_bits * blksz + 12 < 2 ^ 32)
    (serves : (s n : ℕ) (p : P)
      → s + n ≤ b.total_bits
      → (is_negative (write_cb s n p).0 ≡ false)
        × ((write_cb s n p).1 ≡ blocks blksz block s n)) where
  call_back-served :
      (s n : ℕ) (o : Out P)
      → is_negative (write_cb (s % 2 ^ 32) (n % 2 ^ 32) o.private_data).0 ≡ false
      → call_back write_cb blksz s n o
        ≡ record (write (write_cb (s % 2 ^ 32) (n % 2 ^ 32) o.private_data).1 o) {
          ret = (write_cb (s % 2 ^ 32) (n % 2 ^ 32) o.private_data).0;
          private_data = (write_cb (s % 2 ^ 32) (n % 2 ^ 32) o.private_data).2;
          offset = (o.offset + n * blksz) % 2 ^ 64;
          blk = (o.blk + n) % 2 ^ 64;
        }
  unfolding call_back
  call_back-served s n o e = rw e refl

  raw_run-Grown :
      (s n : ℕ) (o : Out P)
      → o.at ≡ o.offset
      → o.blk ≡ s
      → s + n ≤ b.total_bits
      → o.offset + 12 + n * blksz < 2 ^ 64
      → (pieces : List (List ℕ)) × Grown blksz block o
          (Chunk.raw s n ∷ [])
          pieces
          (raw_run write_cb blksz s n o)
        × Behind blksz block o (Chunk.raw s n ∷ []) (raw_run write_cb blksz s n o)
        × ((raw_run write_cb blksz s n o).blk ≡ s + n)
        × (is_negative (raw_run write_cb blksz s n o).ret ≡ false)
  unfolding raw_run
  raw_run-Grown s n o seeked is_s inside room =
      let s_small : s % 2 ^ 32 ≡ s = omega arith in
      let n_small : n % 2 ^ 32 ≡ n = omega arith in
      let (good, bytes) = serves s n o.private_data inside in
      let served =
        ap₂ (λ x y. is_negative (write_cb x y o.private_data).0) s_small n_small ∙ good in
      let written = ap₂ (λ x y. (write_cb x y o.private_data).1) s_small n_small ∙ bytes in
      let head = raw_bytes n blksz in
      let sized = length-raw_bytes n blksz in
      let body = blocks blksz block s n in
      let headed : Out P = record (write head o) {
        total_chunks = o.total_chunks + 1;
        offset = (o.offset + 12) % 2 ^ 64;
      } in
      let past_head = small (o.offset + 12) (omega arith) in
      let past_body =
        ap (λ k. (k + n * blksz) % 2 ^ 64) past_head ∙ small (o.offset + 12 + n * blksz) room in
      let printed = ap length (append-nil (head ++ body)) ∙ length-append head body in
      let body_sized = length-blocks blksz block block_sized s n in
      rw (call_back-served s n headed served) (
        head ∷ body ∷ [],
        record {
          writes =
              append_assoc o.writes ((o.at, head) ∷ []) _
              ∙ ap₂ (λ k bs. o.writes ++ (k, head) ∷ (k + length head, bs) ∷ []) seeked written;
          whole = sym (append_assoc head body []);
          total_chunks = refl;
        },
        past_body ∙ omega (arith, printed, sized, body_sized),
        ap (λ k. (k + n) % 2 ^ 64) is_s ∙ small (s + n) (omega arith),
        served,
      )

  one_run-Grown :
      (lo s n : ℕ) (o : Out P)
      → o.blk ≡ lo
      → lo ≤ s
      → s + n ≤ b.total_bits
      → o.offset + 24 + n * blksz < 2 ^ 64
      → (pieces : List (List ℕ)) × Grown blksz block o
          (gap_to lo s (Chunk.raw s n ∷ []))
          pieces
          (one_run write_cb blksz s n o)
        × Behind blksz block o (gap_to lo s (Chunk.raw s n ∷ [])) (one_run write_cb blksz s n o)
        × ((one_run write_cb blksz s n o).blk ≡ s + n)
        × (is_negative (one_run write_cb blksz s n o).ret ≡ false)
  unfolding one_run
  one_run-Grown lo s n o is_lo low inside room =
      let start : Out P = record o { at = o.offset } in
      let (ps, gapped, behind, seeked, is_s) =
        append_gap-Grown blksz block lo s start is_lo refl low (omega arith) (omega arith) in
      let mid = append_gap s start in
      let (qs, grown, behind', blk, good) =
        raw_run-Grown s n mid seeked is_s inside
          (omega (arith, behind, length-gap_to blksz block lo s)) in
      let chunks = gap_to-append lo s [] (Chunk.raw s n ∷ []) in
      let end = raw_run write_cb blksz s n mid in
      (
        ps ++ qs,
        subst (λ cs. Grown blksz block o cs (ps ++ qs) end) chunks
            (Grown-sought blksz block o end o.offset _ _ (
              Grown-then blksz block start mid end (gap_to lo s []) (Chunk.raw s n ∷ []) ps qs
                gapped behind grown)),
        subst (λ cs. Behind blksz block o cs end) chunks
            (Behind-then blksz block start mid end (gap_to lo s []) (Chunk.raw s n ∷ []) behind
              behind'),
        blk,
        good,
      )

  length-run :
      (lo s n : ℕ)
      → length (print_all blksz block (gap_to lo s (Chunk.raw s n ∷ []))) ≤ 24 + n * blksz
  length-run lo s n =
      let body = blocks blksz block s n in
      let printed = ap length (append-nil (raw_bytes n blksz ++ body)) in
      let parts = ap length (
        ap (print_all blksz block) (sym (gap_to-append lo s [] (Chunk.raw s n ∷ [])))
        ∙ print_all-append blksz block (gap_to lo s []) (Chunk.raw s n ∷ [])) in
      omega (
        arith,
        parts,
        printed,
        length-gap_to blksz block lo s,
        length-append (print_all blksz block (gap_to lo s []))
            (print_all blksz block (Chunk.raw s n ∷ [])),
        length-append (raw_bytes n blksz) body,
        length-raw_bytes n blksz,
        length-blocks blksz block block_sized s n,
      )

  loop-run :
      (s n : ℕ) (runs : List (ℤ × ℤ)) (o : Out P)
      → is_negative (one_run write_cb blksz s n o).ret ≡ false
      → run_loop write_cb blksz ((pos s, pos n) ∷ runs) o
        ≡ run_loop write_cb blksz runs (one_run write_cb blksz s n o)
  unfolding run_loop
  loop-run s n runs o e = rw (run_loop, e) refl

  -- A run takes at most two headers, and starts at or behind block `lo`.
  room_left :
      (lo s n off : ℕ)
      → lo ≤ s
      → 0 < n
      → s + n ≤ b.total_bits
      → off ≤ 28 + 24 * lo + lo * blksz
      → (off + 24 + n * blksz ≤ 28 + 24 * (s + n) + (s + n) * blksz)
        × (28 + 24 * (s + n) + (s + n) * blksz < 2 ^ 64)
  room_left lo s n off low some_bits inside room =
      let blocks_so_far = times_le lo s blksz low in
      let blocks_at_end = times_le (s + n) b.total_bits blksz inside in
      let split = add-mul s n blksz in
      (omega (arith, blocks_so_far, split), omega (arith, blocks_at_end))

  pub run_loop-Grown :
      (lo : ℕ) (runs : List (ℤ × ℤ)) (o : Out P)
      → IsRuns b lo runs
      → o.blk ≡ lo
      → o.offset ≤ 28 + 24 * lo + lo * blksz
      → (pieces : List (List ℕ)) × ((run_loop write_cb blksz runs o).0 ≡ false)
        × Grown blksz block o
            (plan b.total_bits lo runs)
            pieces
            (last_gap b.total_bits (run_loop write_cb blksz runs o).1)
  unfolding run_loop
  run_loop-Grown lo runs o (IsRuns.done clear) is_lo room =
      let (pieces, grown) = last_gap-Grown blksz block lo b.total_bits o is_lo (omega arith) in
      (pieces, refl, grown)
  run_loop-Grown lo runs o (IsRuns.run s n low some_bits inside before set after rest) is_lo room =
      let (less, word) = room_left lo s n o.offset low some_bits inside room in
      let (ps, one, behind, blk, good) = one_run-Grown lo s n o is_lo low inside (omega arith) in
      let o1 = one_run write_cb blksz s n o in
      let first = gap_to lo s (Chunk.raw s n ∷ []) in
      let (qs, ended, more) =
        run_loop-Grown (s + n) _ o1 rest blk (omega (arith, behind, length-run lo s n, less)) in
      let step = loop-run s n _ o good in
      (
        ps ++ qs,
        ap (λ r. r.0) step ∙ ended,
        subst₂ (λ cs r. Grown blksz block o cs (ps ++ qs) (last_gap b.total_bits r.1))
            (gap_to-append lo s (Chunk.raw s n ∷ []) (plan b.total_bits (s + n) _)) (sym step)
            (Grown-then blksz block o o1 _ first (plan b.total_bits (s + n) _) ps qs one behind
              more),
      )
