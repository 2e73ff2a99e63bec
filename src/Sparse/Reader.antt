-- ===== src/Sparse/Reader.antt =====
-- The reader of android/android_sparse.c on a file that holds chunks writes what they expand to.
use imgeditor.Common.{
  ℕ, suc, ◌+◌, ◌-◌, ◌*◌, ◌%◌, ◌^◌, ◌≤◌, ◌<◌, ◌≡◌, refl, ◌∙◌, ap, ap₂, sym, arith,
}
use imgeditor.Common.{true, false, Option, none, some, List, [], ◌∷◌, ◌++◌, length, length-append}
use imgeditor.Common.{pos, ◌==◌, ==_iff, ap, length-append}
use imgeditor.Dd.{Source, Target, Writes, dd64, fetch}
use imgeditor.Dd.Segment.{segment, length-segment, segment-zeros, Holds, Holds-split}
use imgeditor.Dd.Copied.{
  Opened, concat, placed, Accepts, dd64-Copied, scan_all-none, bufscan-none, Supplies-zeros,
  Supplies-file,
}
use imgeditor.Sparse.{
  SparseHeader, ChunkHeader, chunk_bytes, dontcare_bytes, raw_bytes, chunk_type_raw,
  chunk_type_dont_care,
}
use imgeditor.Sparse.Unpack.{
  In, Step, done, no_scan, raw_copied, raw_chunk, dont_care_copied, dont_care_chunk, one_chunk,
  read_chunk, chunk_loop,
}
use imgeditor.Sparse.Format.{ChunkFits, chunk_of-chunk_bytes, length-chunk_bytes}
use imgeditor.Sparse.Plan.{Chunk, blocks, expand_all}
use mathlib.Core.List.{append_assoc, append-nil}
use imgeditor.Sparse.Print.{
  placed-append, concat-append, wide_enough, less_header, print, print_all, Fits, AllFit,
  length-blocks,
}

opens : (src : Option Source) (write : Target) → Opened src (some write)
opens none write = tt
opens (some read) write = tt

module _ (blksz : ℕ) (block : ℕ → List ℕ) (block_sized : (i : ℕ) → length (block i) ≡ blksz)
    (read : Source) (write : Target) (buffer : List ℕ) (h : SparseHeader) (content : ℕ → ℕ)
    (size : ℕ) (same_size : h.blk_sz ≡ blksz) (accepts : Accepts (some write))
    (reads : (at n : ℕ) → at + n ≤ size → read at n ≡ some (segment content at n)) where
  -- `v'` is `v` after chunks: their bytes are read, and what they expand to is written.
  pub record Advanced (v : In) (cs : List Chunk) (outs : List (List ℕ)) (v' : In) : Type 0 where
    pub offset_in : v'.offset_in ≡ v.offset_in + length (print_all blksz block cs)
    pub offset_out : v'.offset_out ≡ v.offset_out + length (concat outs)
    pub writes : v'.writes ≡ v.writes ++ placed v.offset_out outs
    pub joined : concat outs ≡ expand_all blksz block cs

  -- A copy of `n` bytes, as the two kinds of chunks make it.
  copy-done :
      (src : Option Source) (bytes : ℕ → ℕ) (from to n : ℕ)
      → ((at k : ℕ) → 0 < k → at + k ≤ from + n → fetch src at k ≡ some (segment bytes at k))
      → n < 2 ^ 64
      → (outs : List (List ℕ)) × (done (dd64 no_scan (some buffer) src (some write) from to n tt)
          ≡ (n, placed to outs))
        × (concat outs ≡ segment bytes from n)
  copy-done src bytes from to n supplies word =
      let (c, outs, run, whole, copied, _, writes) =
        dd64-Copied no_scan bufscan-none src (some write) bytes buffer from to n tt
          (opens src write) supplies accepts word in
      (
        outs,
        ap done run ∙ ap₂ (λ a b. (a, b)) copied (writes ∙ ap (placed to) (scan_all-none outs tt)),
        whole,
      )

  -- The header of a chunk is read and taken apart.
  read_chunk-header :
      (v : In) (ch : ChunkHeader)
      → ChunkFits ch
      → v.offset_in + 12 ≤ size
      → Holds content v.offset_in (chunk_bytes ch)
      → read_chunk read read write (some buffer) false h (read v.offset_in 12) v
        ≡ one_chunk read read write (some buffer) false h ch v
  unfolding read_chunk
  read_chunk-header v ch fits room holds =
      let sized = length-chunk_bytes ch in
      let found : segment content v.offset_in 12 ≡ chunk_bytes ch =
        ap (segment content v.offset_in) (sym sized) ∙ holds in
      let twelve : (length (chunk_bytes ch) == 12) ≡ true = (==_iff _ 12).1 sized in
      ap (λ r. read_chunk read read write (some buffer) false h r v)
        (reads v.offset_in 12 room ∙ ap some found)
      ∙ rw (twelve, chunk_of-chunk_bytes ch fits) refl

  raw_copied-whole :
      (n : ℕ) (ch : ChunkHeader) (v : In) (writes : Writes)
      → raw_copied read read write (some buffer) false h n ch v (n, writes)
        ≡ Step.next (record v {
          writes = v.writes ++ writes;
          offset_out = v.offset_out + n;
          offset_in = v.offset_in + ch.total_sz;
        })
  unfolding raw_copied
  raw_copied-whole n ch v writes = let same : (n == n) ≡ true = (==_iff n n).1 refl in rw same refl

  gap-Advanced :
      (n : ℕ) (v : In)
      → Fits blksz block (Chunk.gap n)
      → v.offset_in + length (print blksz block (Chunk.gap n)) ≤ size
      → Holds content v.offset_in (print blksz block (Chunk.gap n))
      → (v' : In) × (outs : List (List ℕ)) × (read_chunk read read write
            (some buffer)
            false
            h
            (read v.offset_in 12)
            v
          ≡ Step.next v')
        × Advanced v (Chunk.gap n ∷ []) outs v'
  unfolding dontcare_bytes one_chunk dont_care_chunk dont_care_copied
  gap-Advanced n v (small, whole) room holds =
      let ch : ChunkHeader = record {
        chunk_type = chunk_type_dont_care;
        reserved1 = 0;
        chunk_sz = n % 2 ^ 32;
        total_sz = 12;
      } in
      let ch_fits : ChunkFits ch = record {
        chunk_type = omega arith;
        reserved1 = omega arith;
        chunk_sz = omega arith;
        total_sz = omega arith;
      } in
      let count : n % 2 ^ 32 ≡ n = omega arith in
      let size_is : n % 2 ^ 32 * h.blk_sz % 2 ^ 32 ≡ n * blksz =
        ap₂ (λ a b. a * b % 2 ^ 32) count same_size ∙ wide_enough (n * blksz) whole in
      let (outs, run, bytes) =
        copy-done none (λ i. 0) 0 v.offset_out (n * blksz) (Supplies-zeros (0 + n * blksz))
          (omega arith) in
      let sized = length-chunk_bytes ch in
      let written = ap length bytes ∙ length-segment (λ i. 0) 0 (n * blksz) in
      (
        record v {
          writes = v.writes ++ placed v.offset_out outs;
          offset_out = v.offset_out + n * blksz;
          offset_in = v.offset_in + 12;
        },
        outs,
        read_chunk-header v ch ch_fits (omega (arith, sized, room)) holds
            ∙ ap
                (λ t.
                  dont_care_copied read read write (some buffer) false h t ch v
                    (done (dd64 no_scan (some buffer) none (some write) 0 v.offset_out t tt)))
                size_is
            ∙ ap (dont_care_copied read read write (some buffer) false h (n * blksz) ch v) run,
        record {
          offset_in =
              ap (λ k. v.offset_in + k) (sym sized ∙ ap length (sym (append-nil (chunk_bytes ch))));
          offset_out = ap (λ k. v.offset_out + k) (sym written);
          writes = refl;
          joined = bytes ∙ segment-zeros 0 (n * blksz) ∙ sym (append-nil _);
        },
      )

  raw-Advanced :
      (s n : ℕ) (v : In)
      → Fits blksz block (Chunk.raw s n)
      → v.offset_in + length (print blksz block (Chunk.raw s n)) ≤ size
      → Holds content v.offset_in (print blksz block (Chunk.raw s n))
      → (v' : In) × (outs : List (List ℕ)) × (read_chunk read read write
            (some buffer)
            false
            h
            (read v.offset_in 12)
            v
          ≡ Step.next v')
        × Advanced v (Chunk.raw s n ∷ []) outs v'
  unfolding raw_bytes one_chunk raw_chunk
  raw-Advanced s n v (small, whole) room holds =
      let ch : ChunkHeader = record {
        chunk_type = chunk_type_raw;
        reserved1 = 0;
        chunk_sz = n % 2 ^ 32;
        total_sz = (n * blksz + 12) % 2 ^ 32;
      } in
      let ch_fits : ChunkFits ch = record {
        chunk_type = omega arith;
        reserved1 = omega arith;
        chunk_sz = omega arith;
        total_sz = omega arith;
      } in
      let body = blocks blksz block s n in
      let total_is : (n * blksz + 12) % 2 ^ 32 ≡ n * blksz + 12 =
        wide_enough (n * blksz + 12) whole in
      let size_is : ((n * blksz + 12) % 2 ^ 32 + 2 ^ 32 - 12) % 2 ^ 32 ≡ n * blksz =
        ap (λ t. (t + 2 ^ 32 - 12) % 2 ^ 32) total_is ∙ less_header (n * blksz) whole in
      let sized = length-chunk_bytes ch in
      let data_sized = length-blocks blksz block block_sized s n in
      let both = length-append (chunk_bytes ch) body in
      let (head, tail) = Holds-split content v.offset_in (chunk_bytes ch) body holds in
      let (outs, run, bytes) =
        copy-done (some read) content (v.offset_in + 12) v.offset_out (n * blksz)
          (Supplies-file read content (v.offset_in + 12 + n * blksz)
            (λ at k below. reads at k (omega (arith, below, room, both, sized, data_sized))))
          (omega arith) in
      let written = ap length bytes ∙ length-segment content (v.offset_in + 12) (n * blksz) in
      (
        record v {
          writes = v.writes ++ placed v.offset_out outs;
          offset_out = v.offset_out + n * blksz;
          offset_in = v.offset_in + (n * blksz + 12) % 2 ^ 32;
        },
        outs,
        read_chunk-header v ch ch_fits (omega (arith, sized, room, both)) head
            ∙ ap
                (λ t. raw_copied read read write (some buffer) false h t ch v (
                  done (
                    dd64 no_scan (some buffer) (some read) (some write) (v.offset_in + 12)
                      v.offset_out t tt)))
                size_is
            ∙ ap (raw_copied read read write (some buffer) false h (n * blksz) ch v) run
            ∙ raw_copied-whole (n * blksz) ch v (placed v.offset_out outs),
        record {
          offset_in =
              ap (λ k. v.offset_in + k)
                (omega (arith, total_is, both, sized, data_sized)
                  ∙ ap length (sym (append-nil (chunk_bytes ch ++ body))));
          offset_out = ap (λ k. v.offset_out + k) (sym written);
          writes = refl;
          joined =
              bytes
              ∙ ap₂ (λ off k. segment content off k) (ap (λ k. v.offset_in + k) (sym sized))
                  (sym data_sized)
              ∙ tail
              ∙ sym (append-nil body);
        },
      )

  one_chunk-Advanced :
      (c : Chunk) (v : In)
      → Fits blksz block c
      → v.offset_in + length (print blksz block c) ≤ size
      → Holds content v.offset_in (print blksz block c)
      → (v' : In) × (outs : List (List ℕ)) × (read_chunk read read write
            (some buffer)
            false
            h
            (read v.offset_in 12)
            v
          ≡ Step.next v')
        × Advanced v (c ∷ []) outs v'
  one_chunk-Advanced (Chunk.gap n) v fits room holds = gap-Advanced n v fits room holds
  one_chunk-Advanced (Chunk.raw s n) v fits room holds = raw-Advanced s n v fits room holds

  Advanced-cons :
      (v v1 v2 : In) (c : Chunk) (cs : List Chunk) (ps qs : List (List ℕ))
      → Advanced v (c ∷ []) ps v1
      → Advanced v1 cs qs v2
      → Advanced v (c ∷ cs) (ps ++ qs) v2
  Advanced-cons v v1 v2 c cs ps qs one more = record {
    offset_in = omega (arith, one.offset_in, more.offset_in, printed);
    offset_out = omega (
      arith,
      one.offset_out,
      more.offset_out,
      ap length (concat-append ps qs),
      length-append (concat ps) (concat qs),
    );
    writes =
        more.writes
        ∙ ap₂ (λ ws off. ws ++ placed off qs) one.writes one.offset_out
        ∙ append_assoc v.writes _ _
        ∙ ap (λ r. v.writes ++ r) (placed-append v.offset_out ps qs);
    joined = concat-append ps qs ∙ ap₂ (λ x y. x ++ y) (one.joined ∙ append-nil _) more.joined;
  }
    where
      printed :
          length (print_all blksz block (c ∷ cs))
          ≡ length (print_all blksz block (c ∷ [])) + length (print_all blksz block cs)
      printed =
          length-append (print blksz block c) (print_all blksz block cs)
          ∙ ap (λ k. k + length (print_all blksz block cs))
              (ap length (sym (append-nil (print blksz block c))))

  loop-next :
      (left : ℕ) (v v' : In)
      → read_chunk read read write (some buffer) false h (read v.offset_in 12) v ≡ Step.next v'
      → chunk_loop read read write (some buffer) false h (suc left) v
        ≡ chunk_loop read read write (some buffer) false h left v'
  unfolding chunk_loop
  loop-next left v v' call = rw (chunk_loop, call) refl

  pub chunk_loop-Advanced :
      (cs : List Chunk) (v : In)
      → AllFit blksz block cs
      → v.offset_in + length (print_all blksz block cs) ≤ size
      → Holds content v.offset_in (print_all blksz block cs)
      → (v' : In) × (outs : List (List ℕ)) × (chunk_loop read read write
            (some buffer)
            false
            h
            (length cs)
            v
          ≡ (v', pos 0))
        × Advanced v cs outs v'
  unfolding chunk_loop
  chunk_loop-Advanced [] v fits room holds = (
    v,
    [],
    refl,
    record {
      offset_in = omega arith;
      offset_out = omega arith;
      writes = sym (append-nil v.writes);
      joined = refl;
    },
  )
  chunk_loop-Advanced (c ∷ cs) v (fit, fits) room holds =
      let both = length-append (print blksz block c) (print_all blksz block cs) in
      let (head, tail) =
        Holds-split content v.offset_in (print blksz block c) (print_all blksz block cs) holds in
      let (v1, ps, call, one) = one_chunk-Advanced c v fit (omega (arith, both, room)) head in
      let at_next : v1.offset_in ≡ v.offset_in + length (print blksz block c) =
        one.offset_in ∙ ap (λ k. v.offset_in + k) (ap length (append-nil (print blksz block c))) in
      let (v2, qs, rest, more) =
        chunk_loop-Advanced cs v1 fits (omega (arith, both, room, at_next))
          (ap (λ k. segment content k (length (print_all blksz block cs))) at_next ∙ tail) in
      (
        v2,
        ps ++ qs,
        loop-next (length cs) v v1 call ∙ rest,
        Advanced-cons v v1 v2 c cs ps qs one more,
      )
