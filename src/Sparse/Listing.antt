-- ===== src/Sparse/Listing.antt =====
-- `sparse_list` of android/android_sparse.c: the lines that it prints for the chunks, and its result. A
-- line has the values of its fields; the number of blocks is printed with %9d, as an `int`. The sums of fewer than 2^32 sizes below 2^32 stay in a `size_t`.
pub mod Correct
use imgeditor.Common.{
  ℕ, zero, suc, ◌+◌, ◌-◌, ◌%◌, ◌^◌, ◌≡◌, refl, ap, Bool, not, Option, none, some,
}
use imgeditor.Common.{
  List, [], ◌∷◌, length, ◌==◌, if◌then◌else◌, ℤ, pos, minus_one, to_int, ◌||◌, Bool-cases, inl, inr,
  ◌⊎◌,
}
use imgeditor.Dd.{Source}
use imgeditor.Sparse.{
  SparseHeader, ChunkHeader, chunk_type_raw, chunk_type_fill, chunk_type_dont_care,
  chunk_type_crc32,
}
use imgeditor.Sparse.Unpack.{chunk_of, fill_after}

-- `number` to `size` are printed for every chunk, `fill` for one that has a number to fill with.
pub record Line : Type 0 where
  pub number : ℕ
  pub kind : ℕ
  pub fs_start : ℕ
  pub fs_end : ℕ
  pub blocks : ℤ
  pub size : ℕ
  pub fill : Option (List ℕ)

-- A chunk prints a line and the loop goes on, or the function returns -1, with or without a line.
pub data Listed : Type 0 where
  listed : ChunkHeader → Line → List ℕ → Listed
  bad_fill : Line → Listed
  unknown : Listed

-- The lines from a chunk on, with the lines of the rest.
unfoldable pub list_from : Listed → (ChunkHeader → List ℕ → List Line × ℤ) → List Line × ℤ
list_from (Listed.listed chunk line fill) rest = (line ∷ (rest chunk fill).0, (rest chunk fill).1)
list_from (Listed.bad_fill line) rest = (line ∷ [], minus_one)
list_from Listed.unknown rest = ([], minus_one)

unfoldable pub is_known : ℕ → Bool
is_known chunk_type =
    (chunk_type == chunk_type_raw || chunk_type == chunk_type_dont_care)
    || (chunk_type == chunk_type_fill || chunk_type == chunk_type_crc32)

unfoldable pub line_of : ℕ → ℕ → ChunkHeader → Line
line_of number fs_blocknr chunk = record {
  number = number;
  kind = chunk.chunk_type;
  fs_start = fs_blocknr;
  fs_end = (fs_blocknr + chunk.chunk_sz + 2 ^ 64 - 1) % 2 ^ 64;
  blocks = to_int chunk.chunk_sz;
  size = (chunk.total_sz + 2 ^ 32 - 12) % 2 ^ 32;
  fill = none;
}

module _ (read : Source) where
  -- The number is read behind the header of the chunk, which stands at `offset`.
  unfoldable pub list_fill : ℕ → List ℕ → ChunkHeader → Line → Listed
  list_fill offset fill chunk line =
      if not ((chunk.total_sz + 2 ^ 32 - 12) % 2 ^ 32 == 4)
      then Listed.bad_fill line
      else let fill' = fill_after (read (offset + 12) 4) fill in
        Listed.listed chunk (record line { fill = some fill' }) fill'

  unfoldable pub list_chunk : ℕ → ℕ → ℕ → List ℕ → ChunkHeader → Listed
  list_chunk number offset fs_blocknr fill chunk =
      let line = line_of number fs_blocknr chunk in
      if is_known chunk.chunk_type
      then if chunk.chunk_type == chunk_type_fill
        then list_fill offset fill chunk line
        else Listed.listed chunk line fill
      else Listed.unknown

  unfoldable pub list_read : ℕ → ℕ → ℕ → List ℕ → Option (List ℕ) → Listed
  list_read number offset fs_blocknr fill none = Listed.unknown
  list_read number offset fs_blocknr fill (some bytes) =
      if length bytes == 12
      then list_chunk number offset fs_blocknr fill (chunk_of bytes)
      else Listed.unknown

  unfoldable pub list_loop : ℕ → ℕ → ℕ → ℕ → List ℕ → List Line × ℤ
  list_loop zero number offset fs_blocknr fill = ([], pos 0)
  list_loop (suc left) number offset fs_blocknr fill =
      list_from (list_read number offset fs_blocknr fill (read offset 12)) (λ chunk fill'.
        list_loop left (number + 1) (offset + chunk.total_sz) (fs_blocknr + chunk.chunk_sz) fill')

-- `fill` is what the variable holds before it is read.
unfoldable pub sparse_list : Source → SparseHeader → List ℕ → List Line × ℤ
sparse_list read header fill = list_loop read header.total_chunks 0 header.file_hdr_sz 0 fill
