-- ===== src/Sparse/Listing/Correct.antt =====
-- `sparse_list` of android/android_sparse.c on a file that holds chunks prints a line for each.
use imgeditor.Common.{ℕ, ◌+◌, ◌-◌, ◌*◌, ◌%◌, ◌^◌, ◌≤◌, ◌≡◌, refl, ◌∙◌, ap, ap₂, sym, arith}
use imgeditor.Common.{true, none, some, List, [], ◌∷◌, length, length-append}
use imgeditor.Common.{pos, to_int, ◌==◌, ==_iff}
use imgeditor.Dd.{Source}
use imgeditor.Dd.Segment.{segment, Holds, Holds-split}
use imgeditor.Sparse.{
  SparseHeader, ChunkHeader, chunk_bytes, dontcare_bytes, raw_bytes, chunk_type_raw,
  chunk_type_dont_care,
}
use imgeditor.Sparse.Format.{ChunkFits, chunk_of-chunk_bytes, length-chunk_bytes}
use imgeditor.Sparse.Plan.{Chunk, blocks}
use imgeditor.Sparse.Print.{print, print_all, Fits, AllFit, length-blocks, wide_enough, less_header}
use imgeditor.Sparse.Listing.{
  Line, Listed, is_known, line_of, list_chunk, list_read, list_from, list_loop, sparse_list,
}

-- The blocks of a chunk, its type, and the bytes behind its header.
abbrev pub blocks_of : Chunk → ℕ
blocks_of (Chunk.gap n) = n
blocks_of (Chunk.raw s n) = n

abbrev pub kind_of : Chunk → ℕ
kind_of (Chunk.gap n) = 0xcac3
kind_of (Chunk.raw s n) = 0xcac1

module _ (blksz : ℕ) (block : ℕ → List ℕ) where
  abbrev pub size_of : Chunk → ℕ
  size_of (Chunk.gap n) = 0
  size_of (Chunk.raw s n) = n * blksz

  -- The line of a chunk whose first block is `lo`.
  abbrev pub line_for : ℕ → ℕ → Chunk → Line
  line_for number lo c = record {
    number = number;
    kind = kind_of c;
    fs_start = lo;
    fs_end = (lo + blocks_of c + 2 ^ 64 - 1) % 2 ^ 64;
    blocks = to_int (blocks_of c);
    size = size_of c;
    fill = none;
  }

  abbrev pub lines : ℕ → ℕ → List Chunk → List Line
  lines number lo [] = []
  lines number lo (c ∷ cs) = line_for number lo c ∷ lines (number + 1) (lo + blocks_of c) cs

  module _ (block_sized : (i : ℕ) → length (block i) ≡ blksz) (read : Source) (content : ℕ → ℕ)
      (size : ℕ)
      (reads : (at n : ℕ) → at + n ≤ size → read at n ≡ some (segment content at n)) where
    list_read-header :
        (number offset lo : ℕ) (fill : List ℕ) (ch : ChunkHeader)
        → ChunkFits ch
        → offset + 12 ≤ size
        → Holds content offset (chunk_bytes ch)
        → list_read read number offset lo fill (read offset 12)
          ≡ list_chunk read number offset lo fill ch
    unfolding list_read
    list_read-header number offset lo fill ch fits room holds =
        let sized = length-chunk_bytes ch in
        let found : segment content offset 12 ≡ chunk_bytes ch =
          ap (segment content offset) (sym sized) ∙ holds in
        let twelve : (length (chunk_bytes ch) == 12) ≡ true = (==_iff _ 12).1 sized in
        ap (list_read read number offset lo fill) (reads offset 12 room ∙ ap some found)
        ∙ rw (twelve, chunk_of-chunk_bytes ch fits) refl

    -- A chunk is printed and the loop goes on behind it.
    record Shown (number offset lo : ℕ) (fill : List ℕ) (c : Chunk) (ch : ChunkHeader)
        : Type 0 where
      shown :
          list_read read number offset lo fill (read offset 12)
          ≡ Listed.listed ch (line_for number lo c) fill
      total_sz : ch.total_sz ≡ length (print blksz block c)
      chunk_sz : ch.chunk_sz ≡ blocks_of c

    chunk-Shown :
        (c : Chunk) (number offset lo : ℕ) (fill : List ℕ)
        → Fits blksz block c
        → offset + length (print blksz block c) ≤ size
        → Holds content offset (print blksz block c)
        → (ch : ChunkHeader) × Shown number offset lo fill c ch
    unfolding dontcare_bytes raw_bytes list_chunk is_known line_of
    chunk-Shown (Chunk.gap n) number offset lo fill (count, bytes) room holds =
        let ch : ChunkHeader = record {
          chunk_type = chunk_type_dont_care;
          reserved1 = 0;
          chunk_sz = n % 2 ^ 32;
          total_sz = 12;
        } in
        let ch_fits : ChunkFits ch = record {
          chunk_type = omega arith;
          reserved1 = omega arith;
          chunk_sz = omega arith;
          total_sz = omega arith;
        } in
        let sized = length-chunk_bytes ch in
        let n_is : n % 2 ^ 32 ≡ n = wide_enough n count in
        let line = λ (k : ℕ).
          let l : Line = record {
            number = number;
            kind = 0xcac3;
            fs_start = lo;
            fs_end = (lo + k + 2 ^ 64 - 1) % 2 ^ 64;
            blocks = to_int k;
            size = 0;
            fill = none;
          } in
          l in
        (
          ch,
          record {
            shown =
                list_read-header number offset lo fill ch ch_fits (omega (arith, sized, room)) holds
                ∙ ap (λ k. Listed.listed ch (line k) fill) n_is;
            total_sz = sym sized;
            chunk_sz = n_is;
          },
        )
    chunk-Shown (Chunk.raw s n) number offset lo fill (count, bytes) room holds =
        let ch : ChunkHeader = record {
          chunk_type = chunk_type_raw;
          reserved1 = 0;
          chunk_sz = n % 2 ^ 32;
          total_sz = (n * blksz + 12) % 2 ^ 32;
        } in
        let ch_fits : ChunkFits ch = record {
          chunk_type = omega arith;
          reserved1 = omega arith;
          chunk_sz = omega arith;
          total_sz = omega arith;
        } in
        let body = blocks blksz block s n in
        let sized = length-chunk_bytes ch in
        let body_sized = length-blocks blksz block block_sized s n in
        let both = length-append (chunk_bytes ch) body in
        let n_is : n % 2 ^ 32 ≡ n = wide_enough n count in
        let total_is : (n * blksz + 12) % 2 ^ 32 ≡ n * blksz + 12 =
          wide_enough (n * blksz + 12) bytes in
        let size_is : ((n * blksz + 12) % 2 ^ 32 + 2 ^ 32 - 12) % 2 ^ 32 ≡ n * blksz =
          ap (λ t. (t + 2 ^ 32 - 12) % 2 ^ 32) total_is ∙ less_header (n * blksz) bytes in
        let (head, tail) = Holds-split content offset (chunk_bytes ch) body holds in
        let line = λ (k m : ℕ).
          let l : Line = record {
            number = number;
            kind = 0xcac1;
            fs_start = lo;
            fs_end = (lo + k + 2 ^ 64 - 1) % 2 ^ 64;
            blocks = to_int k;
            size = m;
            fill = none;
          } in
          l in
        (
          ch,
          record {
            shown =
                list_read-header number offset lo fill ch ch_fits (omega (arith, sized, room, both))
                  head
                ∙ ap₂ (λ k m. Listed.listed ch (line k m) fill) n_is size_is;
            total_sz = omega (arith, total_is, both, sized, body_sized);
            chunk_sz = n_is;
          },
        )

    list_loop-lines :
        (cs : List Chunk) (number offset lo : ℕ) (fill : List ℕ)
        → AllFit blksz block cs
        → offset + length (print_all blksz block cs) ≤ size
        → Holds content offset (print_all blksz block cs)
        → list_loop read (length cs) number offset lo fill ≡ (lines number lo cs, pos 0)
    unfolding list_loop list_from
    list_loop-lines [] number offset lo fill fits room holds = refl
    list_loop-lines (c ∷ cs) number offset lo fill (fit, fits) room holds =
        let here = print blksz block c in
        let there = print_all blksz block cs in
        let both = length-append here there in
        let (head, tail) = Holds-split content offset here there holds in
        let (ch, one) = chunk-Shown c number offset lo fill fit (omega (arith, both, room)) head in
        let rest =
          list_loop-lines cs (number + 1) (offset + length here) (lo + blocks_of c) fill fits
            (omega (arith, both, room)) tail in
        ap
          (λ r. list_from r (λ chunk fill'.
            list_loop read (length cs) (number + 1) (offset + chunk.total_sz) (lo + chunk.chunk_sz)
              fill'))
          one.shown
        ∙ ap₂
            (λ t k. (
              line_for number lo c
                  ∷ (list_loop read (length cs) (number + 1) (offset + t) (lo + k) fill).0,
              (list_loop read (length cs) (number + 1) (offset + t) (lo + k) fill).1,
            ))
            one.total_sz one.chunk_sz
        ∙ ap (λ r. (line_for number lo c ∷ r.0, r.1)) rest

    -- On a readable file that has gap and raw chunks behind its header, as many as the header counts, with
    -- sizes of 32 bits, `sparse_list` returns 0 and prints a line for each chunk, in order. A line has the
    -- number of its chunk, the type, the first and the last block, the number of blocks as an `int`, and
    -- the size of what is behind the header of the chunk; the first block is the one behind the chunk before.
    pub sparse_list-lines :
        (fill : List ℕ) (header : SparseHeader) (cs : List Chunk)
        → header.total_chunks ≡ length cs
        → AllFit blksz block cs
        → header.file_hdr_sz + length (print_all blksz block cs) ≤ size
        → Holds content header.file_hdr_sz (print_all blksz block cs)
        → sparse_list read header fill ≡ (lines 0 0 cs, pos 0)
    unfolding sparse_list
    sparse_list-lines fill header cs same_count fits room holds =
        ap (λ n. list_loop read n 0 header.file_hdr_sz 0 fill) same_count
        ∙ list_loop-lines cs 0 header.file_hdr_sz 0 fill fits room holds
