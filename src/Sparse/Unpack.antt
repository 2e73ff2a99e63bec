-- ===== src/Sparse/Unpack.antt =====
-- The reader of android/android_sparse.c: `sparse_detect` and `sparse_unpack2fd`. `read` and `write`
-- are those of dd.c. The headers are read after an `lseek`, which counts from the start of the file:
-- that is `read`. The data is copied after a `fileseek`, which counts from the start of a virtual
-- file: that is `file`. The two agree on a descriptor that is not virtual. A read of a structure that comes short or fails is `none`; `buffer` is what
-- the `malloc` of a copy gives.
use imgeditor.Common.{
  ℕ, zero, suc, ◌+◌, ◌-◌, ◌*◌, ◌/◌, ◌%◌, ◌^◌, Bool, false, not, ◌||◌, Option, none, some,
}
use imgeditor.Common.{
  List, [], ◌∷◌, ◌++◌, length, get_or, drop, ◌==◌, if◌then◌else◌, ℤ, pos, minus_one,
}
use imgeditor.Dd.{Source, Target, Writes, Copy, dd64}
use imgeditor.Editors.{same_name}
use imgeditor.Sparse.{SparseHeader, ChunkHeader, sparse_header_magic}
use imgeditor.Sparse.{chunk_type_raw, chunk_type_fill, chunk_type_dont_care, chunk_type_crc32}

unfoldable pub read16 : List ℕ → ℕ → ℕ
read16 bs i = get_or bs i 0 + get_or bs (i + 1) 0 * 256

unfoldable pub read32 : List ℕ → ℕ → ℕ
read32 bs i =
    get_or bs i 0
    + get_or bs (i + 1) 0 * 2 ^ 8
    + get_or bs (i + 2) 0 * 2 ^ 16
    + get_or bs (i + 3) 0 * 2 ^ 24

unfoldable pub header_of : List ℕ → SparseHeader
header_of bs = record {
  magic = read32 bs 0;
  major_version = read16 bs 4;
  minor_version = read16 bs 6;
  file_hdr_sz = read16 bs 8;
  chunk_hdr_sz = read16 bs 10;
  blk_sz = read32 bs 12;
  total_blks = read32 bs 16;
  total_chunks = read32 bs 20;
  image_checksum = read32 bs 24;
}

unfoldable pub chunk_of : List ℕ → ChunkHeader
chunk_of bs = record {
  chunk_type = read16 bs 0;
  reserved1 = read16 bs 2;
  chunk_sz = read32 bs 4;
  total_sz = read32 bs 8;
}

-- The header's fields after the read, and the result.
unfoldable pub check_header : SparseHeader → ℤ
check_header h =
    if not (h.magic == sparse_header_magic)
    then minus_one
    else if not (h.major_version == 1) || not (h.minor_version == 0)
    then minus_one
    else if not (h.file_hdr_sz == 28)
    then minus_one
    else pos 0

-- `old` is what the structure held before; a short read overwrites its start.
unfoldable pub sparse_detect : Option (List ℕ) → List ℕ → SparseHeader × ℤ
sparse_detect none old = (header_of old, minus_one)
sparse_detect (some bytes) old =
    let h = header_of (bytes ++ drop (length bytes) old) in (h, check_header h)

-- `p_fill[i] = fill_number` for as many whole numbers as the buffer has; `fill` are its four bytes.
unfoldable pub fill_words : ℕ → List ℕ → List ℕ → List ℕ
fill_words zero fill buffer = buffer
fill_words (suc n) fill buffer = fill ++ fill_words n fill (drop 4 buffer)

unfoldable pub chunk_buffer_fill : List ℕ → List ℕ → List ℕ × List ℕ
chunk_buffer_fill buffer fill = (fill_words (length buffer / 4) fill buffer, fill)

-- The variables of `sparse_unpack2fd`, with the writes to the target.
pub record In : Type 0 where
  pub offset_in : ℕ
  pub offset_out : ℕ
  pub fill : List ℕ
  pub writes : Writes

-- A round goes on, or the function returns -1.
pub data Step : Type 0 where
  next : In → Step
  fail : In → Step

abbrev pub no_scan : Option (List ℕ → Unit {0} → List ℕ × Unit {0})
no_scan = none

-- A copy of dd.c: its count and its writes. It always ends, so `none` does not occur.
abbrev pub done : {S : Type 0} → Option (Copy S) → ℕ × Writes
done none = (0, [])
done (some c) = (c.copied, c.writes)

-- Whether an option is `--fast`.
unfoldable pub has_fast : List (List ℕ) → Bool
has_fast [] = false
has_fast (s ∷ argv) = same_name s (b'-' ∷ b'-' ∷ b'f' ∷ b'a' ∷ b's' ∷ b't' ∷ []) || has_fast argv

-- The number is read behind the chunk's header; what a short read leaves is the old one's.
unfoldable pub fill_after : Option (List ℕ) → List ℕ → List ℕ
fill_after none old = old
fill_after (some bytes) old = bytes ++ drop (length bytes) old

module _ (read file : Source) (write : Target) (buffer : Option (List ℕ)) (fast : Bool)
    (h : SparseHeader) where
  -- What follows the copy, by its count and its writes.
  unfoldable pub raw_copied : ℕ → ChunkHeader → In → ℕ × Writes → Step
  raw_copied total_data_size chunk v (n, writes) =
      let v' : In = record v { writes = v.writes ++ writes } in
      if n == total_data_size
      then Step.next (record v' {
        offset_out = v.offset_out + total_data_size;
        offset_in = v.offset_in + chunk.total_sz;
      })
      else Step.fail v'

  unfoldable pub raw_chunk : ChunkHeader → In → Step
  raw_chunk chunk v =
      let total_data_size = (chunk.total_sz + 2 ^ 32 - 12) % 2 ^ 32 in
      raw_copied total_data_size chunk v (
        done (
          dd64 no_scan buffer (some file) (some write) (v.offset_in + 12) v.offset_out
            total_data_size tt))

  unfoldable pub dont_care_copied : ℕ → ChunkHeader → In → ℕ × Writes → Step
  dont_care_copied total_data_size chunk v (n, writes) = Step.next (record v {
    writes = if fast then v.writes else v.writes ++ writes;
    offset_out = v.offset_out + total_data_size;
    offset_in = v.offset_in + chunk.total_sz;
  })

  unfoldable pub dont_care_chunk : ChunkHeader → In → Step
  dont_care_chunk chunk v =
      let total_data_size = chunk.chunk_sz * h.blk_sz % 2 ^ 32 in
      dont_care_copied total_data_size chunk v
        (done (dd64 no_scan buffer none (some write) 0 v.offset_out total_data_size tt))

  unfoldable pub fill_chunk : ChunkHeader → In → Step
  fill_chunk chunk v =
      let total_data_size = chunk.chunk_sz * h.blk_sz % 2 ^ 32 in
      let fill = fill_after (read (v.offset_in + 12) 4) v.fill in
      let (n, writes) = done (
        dd64 (some chunk_buffer_fill) buffer none (some write) 0 v.offset_out total_data_size
          fill) in
      if not ((chunk.total_sz + 2 ^ 32 - 12) % 2 ^ 32 == 4)
      then Step.fail v
      else Step.next (record v {
        fill = fill;
        writes = v.writes ++ writes;
        offset_out = v.offset_out + total_data_size;
        offset_in = v.offset_in + chunk.total_sz;
      })

  unfoldable pub one_chunk : ChunkHeader → In → Step
  one_chunk chunk v =
      if chunk.chunk_type == chunk_type_raw
      then raw_chunk chunk v
      else if chunk.chunk_type == chunk_type_dont_care
      then dont_care_chunk chunk v
      else if chunk.chunk_type == chunk_type_fill
      then fill_chunk chunk v
      else if chunk.chunk_type == chunk_type_crc32
      then Step.next (record v { offset_in = v.offset_in + chunk.total_sz })
      else Step.fail v

  -- The chunk at `offset_in`: its header, or nothing where 12 bytes cannot be read.
  unfoldable pub read_chunk : Option (List ℕ) → In → Step
  read_chunk none v = Step.fail v
  read_chunk (some bytes) v =
      if length bytes == 12 then one_chunk (chunk_of bytes) v else Step.fail v

  unfoldable pub chunk_loop : ℕ → In → In × ℤ
  chunk_loop zero v = (v, pos 0)
  chunk_loop (suc left) v = elim (read_chunk (read v.offset_in 12) v) [
    | Step.next v' ↦ chunk_loop left v'
    | Step.fail v' ↦ (v', minus_one)
  ]

-- `fill` is what the variable holds before it is set.
unfoldable pub sparse_unpack2fd :
    Source → Source → Target → Option (List ℕ) → SparseHeader → List (List ℕ) → List ℕ → In × ℤ
sparse_unpack2fd read file write buffer h argv fill =
    chunk_loop read file write buffer (has_fast argv) h h.total_chunks
      (record { offset_in = h.file_hdr_sz; offset_out = 0; fill = fill; writes = [] })
