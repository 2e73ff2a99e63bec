-- ===== src/Sparse/Digest/Correct.antt =====
-- `sparse_sha1sum` of android/android_sparse.c on a file that holds chunks gives the digest of what they
-- expand to, for a hash that takes its bytes in pieces.
use imgeditor.Common.{
  ℕ, zero, suc, ◌+◌, ◌*◌, ◌%◌, ◌^◌, ◌≤◌, ◌<◌, ◌≡◌, refl, ◌∙◌, ap, ap₂, sym, arith,
}
use imgeditor.Common.{true, none, some, List, [], ◌∷◌, ◌++◌, length, replicate, length-append}
use imgeditor.Common.{pos, ◌==◌, ==_iff}
use imgeditor.Common.{take}
use imgeditor.Dd.{Source, dd64, bufscan}
use imgeditor.Dd.Segment.{segment, segment-add, Holds, Holds-split}
use imgeditor.Dd.Copied.{concat, scan_all, Supplies-file, dd64-Copied}
use imgeditor.Sparse.{
  SparseHeader, ChunkHeader, chunk_bytes, dontcare_bytes, raw_bytes, chunk_type_raw,
  chunk_type_dont_care,
}
use imgeditor.Sparse.Format.{ChunkFits, chunk_of-chunk_bytes, length-chunk_bytes}
use imgeditor.Sparse.Plan.{Chunk, blocks, expand, expand_all, replicate-add}
use imgeditor.Sparse.Print.{print, print_all, Fits, AllFit, length-blocks, wide_enough}
use imgeditor.Sparse.Digest.{
  Digest, Walk, hash_after, sparse_hash_update, same_blocks, raw_blocks, hash_chunk, hash_read,
  hash_loop, hash_context_finish, digest_of, sparse_sha1sum,
}

module _ {H : Type 0} (update : List ℕ → H → H) (nothing : (s : H) → update [] s ≡ s)
    (streams : (xs ys : List ℕ) (s : H) → update ys (update xs s) ≡ update (xs ++ ys) s) where
  scan_all-hash :
      (ps : List (List ℕ)) (s : H)
      → (scan_all (some (sparse_hash_update update)) ps s).1 ≡ update (concat ps) s
  unfolding sparse_hash_update bufscan
  scan_all-hash [] s = sym (nothing s)
  scan_all-hash (p ∷ ps) s = scan_all-hash ps (update p s) ∙ streams p (concat ps) s

  hash_in_place :
      (b : List ℕ) (s : H) → length (bufscan (some (sparse_hash_update update)) b s).0 ≡ length b
  unfolding sparse_hash_update bufscan
  hash_in_place b s = refl

  same_blocks-zeros :
      (n blksz : ℕ) (s : H)
      → same_blocks update n (replicate blksz 0) s ≡ update (replicate (n * blksz) 0) s
  unfolding same_blocks sparse_hash_update
  same_blocks-zeros zero blksz s =
      let none_left : 0 * blksz ≡ 0 = omega arith in
      sym (ap (λ k. update (replicate k 0) s) none_left ∙ nothing s)
  same_blocks-zeros (suc n) blksz s =
      let count : suc n * blksz ≡ blksz + n * blksz = grind arith in
      same_blocks-zeros n blksz (update (replicate blksz 0) s)
      ∙ streams (replicate blksz 0) (replicate (n * blksz) 0) s
      ∙ ap (λ bs. update bs s) (sym (replicate-add blksz (n * blksz)))
      ∙ ap (λ k. update (replicate k 0) s) (sym count)

  module _ (read : Source) (buffer : List ℕ) (blksz : ℕ) (content : ℕ → ℕ) (size : ℕ)
      (reads : (at n : ℕ) → at + n ≤ size → read at n ≡ some (segment content at n)) where
    hash-copy :
        (from : ℕ) (s : H)
        → from + blksz ≤ size
        → blksz < 2 ^ 64
        → hash_after
            (dd64 (some (sparse_hash_update update)) (some buffer) (some read) none from 0 blksz s)
            s
          ≡ update (segment content from blksz) s
    hash-copy from s room word =
        let (c, pieces, run, whole, copied, state, writes) =
          dd64-Copied (some (sparse_hash_update update)) hash_in_place (some read) none content
            buffer from 0 blksz s tt
            (Supplies-file read content (from + blksz)
              (λ at n below. reads at n (omega (arith, below, room))))
            tt word in
        ap (λ r. hash_after r s) run ∙ state ∙ scan_all-hash pieces s ∙ ap (λ bs. update bs s) whole

    raw_blocks-segment :
        (left i offset : ℕ) (s : H)
        → offset + 12 + i * blksz + left * blksz ≤ size
        → blksz < 2 ^ 64
        → raw_blocks update read read (some buffer) blksz left i offset s
          ≡ update (segment content (offset + 12 + i * blksz) (left * blksz)) s
    unfolding raw_blocks
    raw_blocks-segment zero i offset s room word =
        let none_left : 0 * blksz ≡ 0 = omega arith in
        sym (ap (λ k. update (segment content (offset + 12 + i * blksz) k) s) none_left ∙ nothing s)
    raw_blocks-segment (suc left) i offset s room word =
        let from = offset + 12 + i * blksz in
        let count : suc left * blksz ≡ blksz + left * blksz = grind arith in
        let next : offset + 12 + (i + 1) * blksz ≡ from + blksz = grind arith in
        let room_here : from + blksz ≤ size = omega (arith, count) in
        let room_rest : offset + 12 + (i + 1) * blksz + left * blksz ≤ size =
          omega (arith, count, next) in
        let s' = update (segment content from blksz) s in
        ap (raw_blocks update read read (some buffer) blksz left (i + 1) offset)
          (hash-copy from s room_here word)
        ∙ raw_blocks-segment left (i + 1) offset s' room_rest word
        ∙ ap (λ k. update (segment content k (left * blksz)) s') next
        ∙ streams (segment content from blksz) (segment content (from + blksz) (left * blksz)) s
        ∙ ap (λ bs. update bs s) (sym (segment-add content from blksz (left * blksz)))
        ∙ ap (λ k. update (segment content from k) s) (sym count)

    hash_read-header :
        (v : Digest H) (ch : ChunkHeader)
        → ChunkFits ch
        → v.offset + 12 ≤ size
        → Holds content v.offset (chunk_bytes ch)
        → hash_read update read read (some buffer) blksz (read v.offset 12) v
          ≡ hash_chunk update read read (some buffer) blksz ch v
    unfolding hash_read
    hash_read-header v ch fits room holds =
        let sized = length-chunk_bytes ch in
        let found : segment content v.offset 12 ≡ chunk_bytes ch =
          ap (segment content v.offset) (sym sized) ∙ holds in
        let twelve : (length (chunk_bytes ch) == 12) ≡ true = (==_iff _ 12).1 sized in
        ap (λ r. hash_read update read read (some buffer) blksz r v)
          (reads v.offset 12 room ∙ ap some found)
        ∙ rw (twelve, chunk_of-chunk_bytes ch fits) refl

    module _ (block : ℕ → List ℕ) (block_sized : (i : ℕ) → length (block i) ≡ blksz)
        (small : blksz < 2 ^ 32) where
      -- `v'` is `v` behind the chunks, whose bytes are hashed.
      record Hashed (v : Digest H) (cs : List Chunk) (v' : Digest H) : Type 0 where
        offset : v'.offset ≡ v.offset + length (print_all blksz block cs)
        hash : v'.hash ≡ update (expand_all blksz block cs) v.hash

      -- One chunk.
      record HashedOne (v : Digest H) (c : Chunk) (v' : Digest H) : Type 0 where
        offset : v'.offset ≡ v.offset + length (print blksz block c)
        hash : v'.hash ≡ update (expand blksz block c) v.hash

      hash_chunk-HashedOne :
          (c : Chunk) (v : Digest H)
          → Fits blksz block c
          → v.offset + length (print blksz block c) ≤ size
          → Holds content v.offset (print blksz block c)
          → (v' : Digest H) × (hash_read update read read (some buffer) blksz (read v.offset 12) v
              ≡ Walk.on v')
            × HashedOne v c v'
      unfolding dontcare_bytes raw_bytes hash_chunk
      hash_chunk-HashedOne (Chunk.gap n) v (count, bytes) room holds =
          let ch : ChunkHeader = record {
            chunk_type = chunk_type_dont_care;
            reserved1 = 0;
            chunk_sz = n % 2 ^ 32;
            total_sz = 12;
          } in
          let ch_fits : ChunkFits ch = record {
            chunk_type = omega arith;
            reserved1 = omega arith;
            chunk_sz = omega arith;
            total_sz = omega arith;
          } in
          let sized = length-chunk_bytes ch in
          let n_is : n % 2 ^ 32 ≡ n = omega arith in
          (
            record {
              offset = v.offset + 12;
              hash = same_blocks update (n % 2 ^ 32) (replicate blksz 0) v.hash;
              blkbuf = replicate blksz 0;
              fill = v.fill;
            },
            hash_read-header v ch ch_fits (omega (arith, sized, room)) holds,
            record {
              offset = ap (λ k. v.offset + k) (sym sized);
              hash =
                  ap (λ k. same_blocks update k (replicate blksz 0) v.hash) n_is
                  ∙ same_blocks-zeros n blksz v.hash;
            },
          )
      hash_chunk-HashedOne (Chunk.raw s n) v (count, bytes) room holds =
          let ch : ChunkHeader = record {
            chunk_type = chunk_type_raw;
            reserved1 = 0;
            chunk_sz = n % 2 ^ 32;
            total_sz = (n * blksz + 12) % 2 ^ 32;
          } in
          let ch_fits : ChunkFits ch = record {
            chunk_type = omega arith;
            reserved1 = omega arith;
            chunk_sz = omega arith;
            total_sz = omega arith;
          } in
          let body = blocks blksz block s n in
          let sized = length-chunk_bytes ch in
          let body_sized = length-blocks blksz block block_sized s n in
          let both = length-append (chunk_bytes ch) body in
          let n_is : n % 2 ^ 32 ≡ n = omega arith in
          let total_is : (n * blksz + 12) % 2 ^ 32 ≡ n * blksz + 12 =
            wide_enough (n * blksz + 12) bytes in
          let (head, tail) = Holds-split content v.offset (chunk_bytes ch) body holds in
          let from : v.offset + 12 + 0 * blksz ≡ v.offset + length (chunk_bytes ch) =
            omega (arith, sized) in
          let room_body : v.offset + 12 + 0 * blksz + n * blksz ≤ size =
            omega (arith, room, both, sized, body_sized) in
          (
            record v {
              offset = v.offset + (n * blksz + 12) % 2 ^ 32;
              hash = raw_blocks update read read (some buffer) blksz (n % 2 ^ 32) 0 v.offset v.hash;
            },
            hash_read-header v ch ch_fits (omega (arith, sized, room, both)) head,
            record {
              offset = ap (λ k. v.offset + k) (omega (arith, total_is, both, sized, body_sized));
              hash =
                  ap (λ k. raw_blocks update read read (some buffer) blksz k 0 v.offset v.hash) n_is
                  ∙ raw_blocks-segment n 0 v.offset v.hash room_body (omega arith)
                  ∙ ap₂ (λ off k. update (segment content off k) v.hash) from (sym body_sized)
                  ∙ ap (λ bs. update bs v.hash) tail;
            },
          )

      hash-next :
          (left : ℕ) (v v' : Digest H)
          → hash_read update read read (some buffer) blksz (read v.offset 12) v ≡ Walk.on v'
          → hash_loop update read read (some buffer) blksz (suc left) v
            ≡ hash_loop update read read (some buffer) blksz left v'
      unfolding hash_loop
      hash-next left v v' call = rw (hash_loop, call) refl

      hash_loop-Hashed :
          (cs : List Chunk) (v : Digest H)
          → AllFit blksz block cs
          → v.offset + length (print_all blksz block cs) ≤ size
          → Holds content v.offset (print_all blksz block cs)
          → (v' : Digest H) × (hash_loop update read read (some buffer) blksz (length cs) v
              ≡ (v', pos 0))
            × Hashed v cs v'
      unfolding hash_loop
      hash_loop-Hashed [] v fits room holds =
          (v, refl, record { offset = omega arith; hash = sym (nothing v.hash) })
      hash_loop-Hashed (c ∷ cs) v (fit, fits) room holds =
          let here = print blksz block c in
          let there = print_all blksz block cs in
          let both = length-append here there in
          let (head, tail) = Holds-split content v.offset here there holds in
          let (v1, call, one) = hash_chunk-HashedOne c v fit (omega (arith, both, room)) head in
          let (v2, rest, more) =
            hash_loop-Hashed cs v1 fits (omega (arith, both, room, one.offset))
              (ap (λ k. segment content k (length there)) one.offset ∙ tail) in
          (
            v2,
            hash-next (length cs) v v1 call ∙ rest,
            record {
              offset = omega (arith, one.offset, more.offset, both);
              hash =
                  more.hash
                  ∙ ap (update (expand_all blksz block cs)) one.hash
                  ∙ streams (expand blksz block c) (expand_all blksz block cs) v.hash;
            },
          )

      -- For a hash that takes its bytes in pieces, on a readable descriptor that is not a virtual file,
      -- whose file has gap and raw chunks behind its header, as many as the header counts, with sizes of 32
      -- bits, and with memory, `sparse_sha1sum` returns 0. It prints the digest of what the chunks expand
      -- to, cut to the size of a block.
      pub sparse_sha1sum-expand :
          (start : H) (finish : H → List ℕ) (blkbuf fill : List ℕ) (head : SparseHeader)
          (cs : List Chunk)
          → head.blk_sz ≡ blksz
          → head.total_chunks ≡ length cs
          → AllFit blksz block cs
          → head.file_hdr_sz + length (print_all blksz block cs) ≤ size
          → Holds content head.file_hdr_sz (print_all blksz block cs)
          → sparse_sha1sum update start finish read read (some buffer) (some blkbuf) head fill
            ≡ (pos 0, some (take blksz (finish (update (expand_all blksz block cs) start))))
      unfolding sparse_sha1sum digest_of hash_context_finish
      sparse_sha1sum-expand start finish blkbuf fill head cs same_size same_count fits room holds =
          let begin : Digest H = record {
            offset = head.file_hdr_sz;
            hash = start;
            blkbuf = blkbuf;
            fill = fill;
          } in
          let (v, run, hashed) = hash_loop-Hashed cs begin fits room holds in
          ap₂
            (λ k n. digest_of update finish k (hash_loop update read read (some buffer) k n begin))
            same_size same_count
          ∙ ap (digest_of update finish blksz) run
          ∙ ap (λ h. (pos 0, some (take blksz (finish h)))) hashed.hash
