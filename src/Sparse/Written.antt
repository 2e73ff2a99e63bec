-- ===== src/Sparse/Written.antt =====
-- What `android_sparse_finish` leaves in the image file.
use imgeditor.Common.{
  ℕ, ◌+◌, ◌-◌, ◌*◌, ◌^◌, ◌≤◌, ◌<◌, ◌≡◌, refl, ◌∙◌, ap, ap₂, sym, arith, inl, inr,
}
use imgeditor.Common.{false, some, List, [], ◌∷◌, ◌++◌, length, Bool-cases, ltb}
use imgeditor.Common.{ℤ, pos, is_negative, ◌==◌}
use imgeditor.Bitmask.{Bitmask, IsValid}
use imgeditor.Bitmask.Iterator.{IsRuns}
use imgeditor.Bitmask.Iterator.Runs.{foreach_continue-IsRuns}
use imgeditor.Dd.Segment.{segment, segment-eq, Holds}
use imgeditor.Dd.Copied.{concat, placed}
use imgeditor.Dd.Overlay.{
  overlay, file_after, file_after-append, overlay-behind, overlay-Holds, file_after-Holds,
}
use imgeditor.Sparse.{
  Input, Out, header_bytes, new_header, android_sparse_finish, android_sparse_free, finish_mask,
  complete, run_loop, last_gap, start_out,
}
use imgeditor.Sparse.Unpack.{check_header}
use imgeditor.Sparse.Format.{HeaderFits, length-header_bytes}
use imgeditor.Sparse.Plan.{Chunk, gap_to, plan, blocks, expand_all, image, plan-image}
use imgeditor.Sparse.Print.{Fits, AllFit, print_all}
use imgeditor.Sparse.Grown.{times_le}
use imgeditor.Sparse.Finish.{run_loop-Grown}
use imgeditor.Sparse.Ends.{finish_mask-runs, complete-ended, mask_of}

module _ (blksz : ℕ) (block : ℕ → List ℕ) (b : Bitmask) (valid : IsValid b)
    (fits : b.total_bits * blksz + 12 < 2 ^ 32) where
  in_int : b.total_bits < 2 ^ 31
  in_int = valid.in_int

  gap-Fits : (n : ℕ) → n ≤ b.total_bits → Fits blksz block (Chunk.gap n)
  gap-Fits n le =
      let bytes = times_le n b.total_bits blksz le in (omega (arith, in_int), omega (arith, bytes))

  raw-Fits : (s n : ℕ) → n ≤ b.total_bits → Fits blksz block (Chunk.raw s n)
  raw-Fits s n le =
      let bytes = times_le n b.total_bits blksz le in (omega (arith, in_int), omega (arith, bytes))

  gap_to-AllFit :
      (lo s : ℕ) (cs : List Chunk)
      → s ≤ b.total_bits
      → AllFit blksz block cs
      → AllFit blksz block (gap_to lo s cs) × (length (gap_to lo s cs) ≤ length cs + 1)
  gap_to-AllFit lo s cs inside rest = elim (Bool-cases (lo == s)) [
    | inl same ↦ rw same (rest, omega arith)
    | inr other ↦ rw other ((gap-Fits (s - lo) (omega arith), rest), omega arith)
  ]

  pub plan-AllFit :
      (lo : ℕ) (runs : List (ℤ × ℤ))
      → IsRuns b lo runs
      → lo ≤ b.total_bits
      → AllFit blksz block (plan b.total_bits lo runs)
        × (length (plan b.total_bits lo runs) ≤ 2 * (b.total_bits - lo) + 1)
  plan-AllFit lo runs (IsRuns.done clear) low = elim (Bool-cases (ltb lo b.total_bits)) [
    | inl more ↦ rw more ((gap-Fits (b.total_bits - lo) (omega arith), tt), omega arith)
    | inr end ↦ rw end (tt, omega arith)
  ]
  plan-AllFit lo runs (IsRuns.run s n low some_bits inside before set after rest) le =
      let (fit, count) = plan-AllFit (s + n) _ rest inside in
      let cs = Chunk.raw s n ∷ plan b.total_bits (s + n) _ in
      let (fit', count') = gap_to-AllFit lo s cs (omega arith) (raw-Fits s n (omega arith), fit) in
      (fit', omega (arith, count, count'))

  module _ {P : Type 0} (write_cb : ℕ → ℕ → P → ℤ × List ℕ × P)
      (block_sized : (i : ℕ) → length (block i) ≡ blksz)
      (serves : (s n : ℕ) (p : P)
        → s + n ≤ b.total_bits
        → (is_negative (write_cb s n p).0 ≡ false)
          × ((write_cb s n p).1 ≡ blocks blksz block s n)) where
    -- What the writer leaves: `pieces` from byte 28 on, and the header in front of them.
    pub record Written (runs : List (ℤ × ℤ)) (pieces : List (List ℕ)) (o : Out P) : Type 0 where
      pub writes :
          o.writes
          ≡ placed 28 pieces
            ++ (0, header_bytes (new_header blksz b.total_bits (length (plan b.total_bits 0 runs))))
              ∷ []
      pub whole : concat pieces ≡ print_all blksz block (plan b.total_bits 0 runs)

    pub finish_mask-Written :
        (input : Input) (p : P)
        → input.error ≡ 0
        → input.blksz ≡ blksz
        → input.total_blks ≡ b.total_bits
        → (runs : List (ℤ × ℤ)) × (pieces : List (List ℕ)) × (o : Out P) × (finish_mask write_cb
              input
              (some b)
              p
            ≡ some o)
          × IsRuns b 0 runs
          × Written runs pieces o
    unfolding complete
    finish_mask-Written input p no_error same_size same_total =
        let (runs, found, are_runs) = foreach_continue-IsRuns b valid in
        let (pieces, ended, grown) =
          run_loop-Grown blksz block write_cb b block_sized in_int fits serves 0 runs (start_out p)
            are_runs refl (omega arith) in
        let looped = run_loop write_cb blksz runs (start_out p) in
        (
          runs,
          pieces,
          complete input (false, looped.1),
          finish_mask-runs b write_cb input p runs no_error found
              ∙ ap (λ k. some (complete input (run_loop write_cb k runs (start_out p)))) same_size
              ∙ ap some (complete-ended b write_cb input looped ended),
          are_runs,
          record {
            writes =
                ap₂
                  (λ k t.
                    (last_gap t looped.1).writes
                    ++ (0, header_bytes (new_header k t (last_gap t looped.1).total_chunks)) ∷ [])
                  same_size same_total
                ∙ ap₂ (λ ws n. ws ++ (0, header_bytes (new_header blksz b.total_bits n)) ∷ [])
                    grown.writes (omega (arith, grown.total_chunks));
            whole = grown.whole;
          },
        )

    -- Let the input have a valid bitmask, of as many bits as it has blocks, and no error; let the size of
    -- all blocks, with the 12 bytes of a chunk header, be below 2^32; and let `write_cb` never fail and
    -- write for each run exactly its blocks, each of the block size. Then `android_sparse_finish` ends
    -- and frees the input. It writes chunks in consecutive pieces from byte 28 on and then the header,
    -- with their count, at byte 0; the chunks stand for the image of the bitmask: the blocks that are
    -- set, and zeros for the others.
    pub android_sparse_finish-image :
        (input : Input) (p : P)
        → input.chunk_bitmasks ≡ some b
        → input.error ≡ 0
        → input.blksz ≡ blksz
        → input.total_blks ≡ b.total_bits
        → (cs : List Chunk) × (pieces : List (List ℕ)) × (o : Out P) × (android_sparse_finish
              write_cb input p
            ≡ (some o, android_sparse_free input))
          × (o.writes
              ≡ placed 28 pieces
                ++ (0, header_bytes (new_header blksz b.total_bits (length cs))) ∷ [])
          × (concat pieces ≡ print_all blksz block cs)
          × (expand_all blksz block cs ≡ image blksz block b 0 b.total_bits)
    android_sparse_finish-image input p has_mask no_error same_size same_total =
        let (runs, pieces, o, finished, are_runs, written) =
          finish_mask-Written input p no_error same_size same_total in
        let whole : b.total_bits - 0 ≡ b.total_bits = omega arith in
        (
          plan b.total_bits 0 runs,
          pieces,
          o,
          mask_of b write_cb input p has_mask ∙ ap (λ r. (r, android_sparse_free input)) finished,
          written.writes,
          written.whole,
          plan-image blksz block b 0 runs are_runs (omega arith) ∙ ap (image blksz block b 0) whole,
        )

    pub new_header-HeaderFits : (n : ℕ) → HeaderFits (new_header blksz b.total_bits n)
    unfolding new_header
    new_header-HeaderFits n = record {
      magic = omega arith;
      major_version = omega arith;
      minor_version = omega arith;
      file_hdr_sz = omega arith;
      chunk_hdr_sz = omega arith;
      blk_sz = omega arith;
      total_blks = omega arith;
      total_chunks = omega arith;
      image_checksum = omega arith;
    }

    pub check_header-new_header : (n : ℕ) → check_header (new_header blksz b.total_bits n) ≡ pos 0
    unfolding check_header new_header
    check_header-new_header n = refl

    -- The file that the writes leave has the header and the chunks.
    pub Written-Holds :
        (runs : List (ℤ × ℤ)) (pieces : List (List ℕ)) (o : Out P) (f : ℕ → ℕ)
        → Written runs pieces o
        → Holds
            (file_after o.writes f)
            0
            (header_bytes (new_header blksz b.total_bits (length (plan b.total_bits 0 runs))))
          × Holds (file_after o.writes f) 28 (print_all blksz block (plan b.total_bits 0 runs))
    Written-Holds runs pieces o f written =
        let head =
          header_bytes (new_header blksz b.total_bits (length (plan b.total_bits 0 runs))) in
        let body = file_after (placed 28 pieces) f in
        let sized =
          length-header_bytes (new_header blksz b.total_bits (length (plan b.total_bits 0 runs))) in
        let file : file_after o.writes f ≡ overlay 0 head body =
          ap (λ ws. file_after ws f) written.writes
          ∙ file_after-append (placed 28 pieces) ((0, head) ∷ []) f in
        (
          ap (λ g. segment g 0 (length head)) file ∙ overlay-Holds 0 head body,
          ap₂ (λ g bs. segment g 28 (length bs)) file (sym written.whole)
              ∙ segment-eq (overlay 0 head body) body 28 (length (concat pieces))
                  (λ i lt. overlay-behind 0 head body (28 + i) (omega (arith, sized)))
              ∙ file_after-Holds 28 pieces f
              ∙ written.whole,
        )
