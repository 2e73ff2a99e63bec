-- ===== src/Sparse/Digest.antt =====
-- `sparse_sha1sum` of android/android_sparse.c: the digest of the unpacked image, without unpacking it.
-- The hash functions are those of libs/hash: `start` is what hash_context_init makes, `update` is
-- hash_context_update and `finish` gives the digest in full. `read` and `file` are those of
-- `Unpack`. `buffer` is what `malloc` gives to dd64, `blkbuf`
-- what it gives for the block.
pub mod Correct
use imgeditor.Common.{
  ℕ, zero, suc, ◌+◌, ◌-◌, ◌*◌, ◌/◌, ◌%◌, ◌^◌, Bool, true, false, not, Option, none, some,
}
use imgeditor.Common.{
  List, [], ◌∷◌, ◌++◌, length, take, replicate, ◌==◌, if◌then◌else◌, ℤ, pos, minus_one,
}
use imgeditor.Dd.{Source, Copy, dd64}
use imgeditor.Sparse.{
  SparseHeader, ChunkHeader, chunk_type_raw, chunk_type_fill, chunk_type_dont_care,
  chunk_type_crc32,
}
use imgeditor.Sparse.Unpack.{chunk_of, fill_words, fill_after}

-- The variables of `sparse_sha1sum`.
pub record Digest (H : Type 0) : Type 0 where
  pub offset : ℕ
  pub hash : H
  pub blkbuf : List ℕ
  pub fill : List ℕ

-- The loop goes on, or it is left with -1.
pub data Walk (H : Type 0) : Type 0 where
  on : Digest H → Walk H
  wrong : Digest H → Walk H

unfoldable pub blkbuf_fill : List ℕ → ℕ → List ℕ → List ℕ
blkbuf_fill blkbuf bufsz fill = fill_words (bufsz / 4) fill blkbuf

-- The end of hash_context_finish in libs/hash/hash_compatible.c: the digest is cut to the buffer.
unfoldable pub hash_context_finish : List ℕ → ℕ → List ℕ
hash_context_finish dgst bufsz = take bufsz dgst

-- The hash when a copy has ended. It always ends, so `none` does not occur.
abbrev pub hash_after : {H : Type 0} → Option (Copy H) → H → H
hash_after none hash = hash
hash_after (some c) hash = c.state

module _ {H : Type 0} (update : List ℕ → H → H) where
  unfoldable pub sparse_hash_update : List ℕ → H → List ℕ × H
  sparse_hash_update buf hash = (buf, update buf hash)

  -- The block in `blkbuf`, once for every block of the chunk.
  unfoldable pub same_blocks : ℕ → List ℕ → H → H
  same_blocks zero blkbuf hash = hash
  same_blocks (suc left) blkbuf hash = same_blocks left blkbuf (sparse_hash_update blkbuf hash).1

  module _ (read file : Source) (buffer : Option (List ℕ)) (blkbuf_sz : ℕ) where
    unfoldable pub raw_blocks : ℕ → ℕ → ℕ → H → H
    raw_blocks zero i offset hash = hash
    raw_blocks (suc left) i offset hash = raw_blocks left (i + 1) offset (
        hash_after
          (dd64 (some sparse_hash_update) buffer (some file) none (offset + 12 + i * blkbuf_sz) 0
            blkbuf_sz hash)
          hash)

    unfoldable pub fill_blocks : ChunkHeader → Digest H → Walk H
    fill_blocks chunk v =
        if not ((chunk.total_sz + 2 ^ 32 - 12) % 2 ^ 32 == 4)
        then Walk.wrong v
        else let fill = fill_after (read (v.offset + 12) 4) v.fill in
          let blkbuf = blkbuf_fill v.blkbuf blkbuf_sz fill in
          Walk.on (record {
            offset = v.offset + chunk.total_sz;
            hash = same_blocks chunk.chunk_sz blkbuf v.hash;
            blkbuf = blkbuf;
            fill = fill;
          })

    unfoldable pub hash_chunk : ChunkHeader → Digest H → Walk H
    hash_chunk chunk v =
        if chunk.chunk_type == chunk_type_raw
        then Walk.on (record v {
          offset = v.offset + chunk.total_sz;
          hash = raw_blocks chunk.chunk_sz 0 v.offset v.hash;
        })
        else if chunk.chunk_type == chunk_type_dont_care
        then Walk.on (record v {
          offset = v.offset + chunk.total_sz;
          hash = same_blocks chunk.chunk_sz (replicate blkbuf_sz 0) v.hash;
          blkbuf = replicate blkbuf_sz 0;
        })
        else if chunk.chunk_type == chunk_type_crc32
        then Walk.on (record v { offset = v.offset + chunk.total_sz })
        else if chunk.chunk_type == chunk_type_fill
        then fill_blocks chunk v
        else Walk.wrong v

    -- The chunk at `offset`, or nothing where 12 bytes cannot be read.
    unfoldable pub hash_read : Option (List ℕ) → Digest H → Walk H
    hash_read none v = Walk.wrong v
    hash_read (some bytes) v =
        if length bytes == 12 then hash_chunk (chunk_of bytes) v else Walk.wrong v

    unfoldable pub hash_loop : ℕ → Digest H → Digest H × ℤ
    hash_loop zero v = (v, pos 0)
    hash_loop (suc left) v = elim (hash_read (read v.offset 12) v) [
      | Walk.on v' ↦ hash_loop left v'
      | Walk.wrong v' ↦ (v', minus_one)
    ]

  -- The result, and the digest that is printed: as much of it as the block has room for.
  unfoldable pub digest_of : (H → List ℕ) → ℕ → Digest H × ℤ → ℤ × Option (List ℕ)
  digest_of finish blkbuf_sz (v, pos zero) =
      (pos 0, some (hash_context_finish (finish v.hash) blkbuf_sz))
  digest_of finish blkbuf_sz (v, ret) = (ret, none)

  unfoldable pub sparse_sha1sum :
      H
      → (H → List ℕ)
      → Source
      → Source
      → Option (List ℕ)
      → Option (List ℕ)
      → SparseHeader
      → List ℕ
      → ℤ × Option (List ℕ)
  sparse_sha1sum start finish read file buffer none head fill = (minus_one, none)
  sparse_sha1sum start finish read file buffer (some blkbuf) head fill =
      digest_of finish head.blk_sz (
        hash_loop read file buffer head.blk_sz head.total_chunks
          (record { offset = head.file_hdr_sz; hash = start; blkbuf = blkbuf; fill = fill }))
