-- ===== src/Sparse/Examples.antt =====
-- The sparse images at concrete inputs.
use imgeditor.Common.{ℕ, zero, suc, ◌+◌, ◌^◌, ◌≤◌, ◌<◌, ◌≡◌, refl, ap, arith, false}
use imgeditor.Common.{some, List, [], ◌∷◌, ◌++◌, length, get_or, replicate, ℤ, pos, is_negative}
use imgeditor.Bitmask.{Bitmask, IsValid}
use imgeditor.Dd.{Source, Target}
use imgeditor.Dd.Segment.{segment}
use imgeditor.Dd.Copied.{concat, placed}
use imgeditor.Dd.Overlay.{overlay, overlay-Holds, file_after}
use imgeditor.Sparse.{
  Input, Out, SparseHeader, header_bytes, new_header, android_sparse_finish, android_sparse_free,
}
use imgeditor.Sparse.Unpack.{In, sparse_detect, sparse_unpack2fd}
use imgeditor.Sparse.Plan.{Chunk, blocks, expand_all, image}
use imgeditor.Sparse.Print.{print_all}
use imgeditor.Sparse.Written.{android_sparse_finish-image}
use imgeditor.Sparse.Digest.{sparse_sha1sum}
use imgeditor.Sparse.Digest.Correct.{sparse_sha1sum-expand}
use mathlib.Core.List.{append_assoc, append-nil}
use imgeditor.Sparse.Listing.{sparse_list}
use imgeditor.Sparse.Listing.Correct.{lines, sparse_list-lines}
use imgeditor.Common.{take}
use imgeditor.Sparse.RoundTrip.{sparse_unpack2fd-android_sparse_finish}

-- Five blocks of two bytes, of which 1, 2 and 4 are set.
abbrev five : Bitmask
five = record { total_bits = 5; bufsize = 1; buffer = 0x68 ∷ [] }

five_bytes : (i : ℕ) → get_or five.buffer i 0 < 2 ^ 8
five_bytes zero = omega arith
five_bytes (suc i) = omega arith

five-IsValid : IsValid five
five-IsValid = record { sized = refl; filled = refl; bytes = five_bytes; in_int = omega arith }

abbrev block : ℕ → List ℕ
block i = i ∷ (i + 7) ∷ []

block_sized : (i : ℕ) → length (block i) ≡ 2
block_sized i = refl

abbrev write_cb : ℕ → ℕ → Unit {0} → ℤ × List ℕ × Unit {0}
write_cb s n p = (pos 0, blocks 2 block s n, p)

serves :
    (s n : ℕ) (p : Unit {0})
    → s + n ≤ five.total_bits
    → (is_negative (write_cb s n p).0 ≡ false) × ((write_cb s n p).1 ≡ blocks 2 block s n)
serves s n p le = (refl, refl)

abbrev input : Input
input = record { blksz = 2; total_blks = 5; error = 0; chunk_bitmasks = some five }

android_sparse_finish-image_example :
    (cs : List Chunk) × (pieces : List (List ℕ)) × (o : Out (Unit {0})) × (android_sparse_finish
        write_cb input tt
      ≡ (some o, android_sparse_free input))
    × (o.writes ≡ placed 28 pieces ++ (0, header_bytes (new_header 2 5 (length cs))) ∷ [])
    × (concat pieces ≡ print_all 2 block cs)
    × (expand_all 2 block cs ≡ image 2 block five 0 5)
android_sparse_finish-image_example =
    android_sparse_finish-image 2 block five five-IsValid (omega arith) write_cb block_sized serves
      input tt refl refl refl refl

abbrev out : Out (Unit {0})
out = android_sparse_finish-image_example.2

abbrev read : Source
read off n = some (segment (file_after out.writes (λ i. 0)) off n)

abbrev target : Target
target off bs = some (length bs)

sparse_unpack2fd-android_sparse_finish_example :
    (h : SparseHeader) × (v : In) × (outs : List (List ℕ)) × (sparse_detect
        (read 0 28)
        (replicate 28 0)
      ≡ (h, pos 0))
    × (sparse_unpack2fd read read target (some []) h [] [] ≡ (v, pos 0))
    × (v.writes ≡ placed 0 outs)
    × (concat outs ≡ image 2 block five 0 5)
sparse_unpack2fd-android_sparse_finish_example =
    sparse_unpack2fd-android_sparse_finish 2 block five five-IsValid (omega arith) write_cb
      block_sized serves input tt out (λ i. 0) read target [] (replicate 28 0) [] refl refl refl
      refl (omega arith) (ap (λ r. r.0) android_sparse_finish-image_example.3) (λ off n le. refl)
      (λ off bs. refl) refl

abbrev three_clear : Bitmask
three_clear = record { total_bits = 3; bufsize = 1; buffer = 0 ∷ [] }

abbrev empty : Input
empty = record { blksz = 2; total_blks = 3; error = 0; chunk_bitmasks = some three_clear }

-- A gap of one block and two blocks, in a file behind a header, and a hash that keeps its bytes.
abbrev chunks : List Chunk
chunks = Chunk.gap 1 ∷ Chunk.raw 1 2 ∷ []

abbrev chunks_content : ℕ → ℕ
chunks_content = overlay 28 (print_all 2 block chunks) (λ i. 0)

abbrev chunks_read : Source
chunks_read off n = some (segment chunks_content off n)

abbrev keep : List ℕ → List ℕ → List ℕ
keep xs s = s ++ xs

sparse_sha1sum-expand_example :
    sparse_sha1sum keep []
      (λ s. s)
      chunks_read
      chunks_read
      (some [])
      (some [])
      (new_header 2 3 2)
      []
    ≡ (pos 0, some (take 2 (expand_all 2 block chunks)))
unfolding new_header
sparse_sha1sum-expand_example =
    sparse_sha1sum-expand keep append-nil (λ xs ys s. append_assoc s xs ys) chunks_read [] 2
      chunks_content (28 + length (print_all 2 block chunks)) (λ off n le. refl) block block_sized
      (omega arith) [] (λ s. s) [] [] (new_header 2 3 2) chunks refl refl
      ((omega arith, omega arith), ((omega arith, omega arith), tt)) (omega arith)
      (overlay-Holds 28 (print_all 2 block chunks) (λ i. 0))

sparse_list-lines_example :
    sparse_list chunks_read (new_header 2 3 2) [] ≡ (lines 2 block 0 0 chunks, pos 0)
unfolding new_header
sparse_list-lines_example =
    sparse_list-lines 2 block block_sized chunks_read chunks_content
      (28 + length (print_all 2 block chunks)) (λ off n le. refl) [] (new_header 2 3 2) chunks refl
      ((omega arith, omega arith), ((omega arith, omega arith), tt)) (omega arith)
      (overlay-Holds 28 (print_all 2 block chunks) (λ i. 0))
