-- ===== src/Sparse.antt =====
-- android/android_sparse.c and android_sparse.h: images that leave the blocks out that nobody uses.
-- This module has the format and the writer, `Unpack` the reader. A header is the record of its
-- fields; the machine is little endian, so a field in memory is its bytes lowest first. What is
-- written to the target are its writes in order, each with its position; their results are not
-- looked at by the source. `write_cb` gives its return value, the bytes that it writes at the
-- current position, and its private data.
pub mod Unpack
pub mod Format
pub mod Plan
pub mod Grown
pub mod Finish
pub mod Print
pub mod Reader
pub mod Ends
pub mod Written
pub mod RoundTrip
pub mod Digest
pub mod Listing
mod Examples
use imgeditor.Common.{
  ℕ, zero, suc, ◌+◌, ◌-◌, ◌*◌, ◌/◌, ◌%◌, ◌^◌, Bool, true, false, not, ◌||◌, Option, none, some,
}
use imgeditor.Common.{
  List, [], ◌∷◌, ◌++◌, length, ltb, ◌==◌, if◌then◌else◌, ℤ, pos, minus_one, is_negative,
}
use imgeditor.Bitmask.{Bitmask, alloc_bitmask, bitmask_set_bits}
use imgeditor.Bitmask.Iterator.{foreach_continue, to_size}
use imgeditor.Dd.{Writes}

pub record SparseHeader : Type 0 where
  pub magic : ℕ
  pub major_version : ℕ
  pub minor_version : ℕ
  pub file_hdr_sz : ℕ
  pub chunk_hdr_sz : ℕ
  pub blk_sz : ℕ
  pub total_blks : ℕ
  pub total_chunks : ℕ
  pub image_checksum : ℕ

pub record ChunkHeader : Type 0 where
  pub chunk_type : ℕ
  pub reserved1 : ℕ
  pub chunk_sz : ℕ
  pub total_sz : ℕ

-- The bytes of a field of 16 or 32 bits.
unfoldable pub le16 : ℕ → List ℕ
le16 x = x % 256 ∷ x / 256 % 256 ∷ []

unfoldable pub le32 : ℕ → List ℕ
le32 x = x % 256 ∷ x / 2 ^ 8 % 256 ∷ x / 2 ^ 16 % 256 ∷ x / 2 ^ 24 % 256 ∷ []

-- The two structures as they stand in memory, 28 and 12 bytes.
unfoldable pub header_bytes : SparseHeader → List ℕ
header_bytes h =
    le32 h.magic
    ++ (le16 h.major_version
        ++ (le16 h.minor_version
            ++ (le16 h.file_hdr_sz
                ++ (le16 h.chunk_hdr_sz
                    ++ (le32 h.blk_sz
                        ++ (le32 h.total_blks
                            ++ (le32 h.total_chunks ++ le32 h.image_checksum)))))))

unfoldable pub chunk_bytes : ChunkHeader → List ℕ
chunk_bytes ch = le16 ch.chunk_type ++ (le16 ch.reserved1 ++ (le32 ch.chunk_sz ++ le32 ch.total_sz))

abbrev pub sparse_header_magic : ℕ
sparse_header_magic = 0xed26ff3a

abbrev pub chunk_type_raw : ℕ
chunk_type_raw = 0xcac1

abbrev pub chunk_type_fill : ℕ
chunk_type_fill = 0xcac2

abbrev pub chunk_type_dont_care : ℕ
chunk_type_dont_care = 0xcac3

abbrev pub chunk_type_crc32 : ℕ
chunk_type_crc32 = 0xcac4

pub record Input : Type 0 where
  pub blksz : ℕ
  pub total_blks : ℕ
  pub error : ℕ
  pub chunk_bitmasks : Option Bitmask

unfoldable pub android_sparse_init : Bool → ℕ → ℕ → Input × ℤ
android_sparse_init has_memory blksz total_blks =
    let mask = alloc_bitmask has_memory total_blks in
    (
      record { blksz = blksz; total_blks = total_blks; error = 0; chunk_bitmasks = mask },
      elim mask [ none ↦ minus_one | some b ↦ pos 0 ],
    )

unfoldable pub android_sparse_free : Input → Input
android_sparse_free input = record input { chunk_bitmasks = none; error = 0 }

-- With the bitmask taken out of the structure.
unfoldable pub add_to_mask : Input → Option Bitmask → ℕ → ℕ → Input × ℤ
add_to_mask input none fs_blocknr count = (input, minus_one)
add_to_mask input (some b) fs_blocknr count =
    let (b', ret) = bitmask_set_bits b fs_blocknr count in
    (
      record input {
        chunk_bitmasks = some b';
        error = if is_negative ret then input.error + 1 else input.error;
      },
      ret,
    )

unfoldable pub android_sparse_add_chunk : Input → ℕ → ℕ → Input × ℤ
android_sparse_add_chunk input fs_blocknr count =
    add_to_mask input input.chunk_bitmasks fs_blocknr count

-- The variables of `android_sparse_finish`, with the position in the target and its writes.
pub record Out (P : Type 0) : Type 0 where
  pub at : ℕ
  pub writes : Writes
  pub blk : ℕ
  pub total_chunks : ℕ
  pub offset : ℕ
  pub ret : ℤ
  pub private_data : P

unfoldable pub dontcare_bytes : ℕ → List ℕ
dontcare_bytes blks = chunk_bytes (record {
  chunk_type = chunk_type_dont_care % 2 ^ 16;
  reserved1 = 0;
  chunk_sz = blks % 2 ^ 32;
  total_sz = 12;
})

unfoldable pub raw_bytes : ℕ → ℕ → List ℕ
raw_bytes fs_count blksz = chunk_bytes (record {
  chunk_type = chunk_type_raw % 2 ^ 16;
  reserved1 = 0;
  chunk_sz = fs_count % 2 ^ 32;
  total_sz = (fs_count * blksz + 12) % 2 ^ 32;
})

unfoldable pub new_header : ℕ → ℕ → ℕ → SparseHeader
new_header blksz total_blks total_chunks = record {
  magic = sparse_header_magic;
  major_version = 1;
  minor_version = 0;
  file_hdr_sz = 28;
  chunk_hdr_sz = 12;
  blk_sz = blksz % 2 ^ 32;
  total_blks = total_blks % 2 ^ 32;
  total_chunks = total_chunks % 2 ^ 32;
  image_checksum = 0;
}

module _ {P : Type 0} where
  abbrev pub write : List ℕ → Out P → Out P
  write bs o = record o { at = o.at + length bs; writes = o.writes ++ (o.at, bs) ∷ [] }

  -- The gap before a run: nothing if there is none.
  unfoldable pub append_gap : ℕ → Out P → Out P
  append_gap fs_blocknr o =
      if o.blk == fs_blocknr
      then o
      else record (write (dontcare_bytes ((fs_blocknr + 2 ^ 64 - o.blk) % 2 ^ 64)) o) {
        blk = fs_blocknr;
        offset = (o.offset + 12) % 2 ^ 64;
        total_chunks = o.total_chunks + 1;
      }

  unfoldable pub last_gap : ℕ → Out P → Out P
  last_gap total_blks o =
      let sought : Out P = record o { at = o.offset } in
      if ltb o.blk total_blks
      then record (write (dontcare_bytes ((total_blks + 2 ^ 64 - o.blk) % 2 ^ 64)) sought) {
        total_chunks = o.total_chunks + 1;
      }
      else o

  abbrev pub start_out : P → Out P
  start_out private_data = record {
    at = 0;
    writes = [];
    blk = 0;
    total_chunks = 0;
    offset = 28;
    ret = minus_one;
    private_data = private_data;
  }

  -- From the end of the loop on.
  unfoldable pub complete : Input → Bool × Out P → Out P
  complete input (true, o) = o
  complete input (false, o) =
      let o' = last_gap input.total_blks o in
      write (header_bytes (new_header input.blksz input.total_blks o'.total_chunks))
        (record o' { at = 0 })

  module _ (write_cb : ℕ → ℕ → P → ℤ × List ℕ × P) where
    -- The call of `write_cb`, with the sum of `offset` and `blk` if it succeeds.
    unfoldable pub call_back : ℕ → ℕ → ℕ → Out P → Out P
    call_back blksz fs_blocknr fs_count o =
        let (ret, bytes, private_data) =
          write_cb (fs_blocknr % 2 ^ 32) (fs_count % 2 ^ 32) o.private_data in
        let called : Out P = record (write bytes o) { ret = ret; private_data = private_data } in
        if is_negative ret then called else record called {
          offset = (o.offset + fs_count * blksz) % 2 ^ 64;
          blk = (o.blk + fs_count) % 2 ^ 64;
        }

    -- The header of a run and its blocks, when the gap before it is written.
    unfoldable pub raw_run : ℕ → ℕ → ℕ → Out P → Out P
    raw_run blksz fs_blocknr fs_count o =
        call_back blksz fs_blocknr fs_count (record (write (raw_bytes fs_count blksz) o) {
          total_chunks = o.total_chunks + 1;
          offset = (o.offset + 12) % 2 ^ 64;
        })

    -- A round of `bitmask_foreach_continue`.
    unfoldable pub one_run : ℕ → ℕ → ℕ → Out P → Out P
    one_run blksz fs_blocknr fs_count o =
        raw_run blksz fs_blocknr fs_count (append_gap fs_blocknr (record o { at = o.offset }))

    -- The flag is whether the loop was left by `goto freemem`.
    unfoldable pub run_loop : ℕ → List (ℤ × ℤ) → Out P → Bool × Out P
    run_loop blksz [] o = (false, o)
    run_loop blksz ((start, bits) ∷ runs) o =
        let o' = one_run blksz (to_size start) (to_size bits) o in
        elim (is_negative o'.ret) [ true ↦ (true, o') | false ↦ run_loop blksz runs o' ]

    unfoldable pub finish_mask : Input → Option Bitmask → P → Option (Out P)
    finish_mask input none private_data = some (start_out private_data)
    finish_mask input (some b) private_data = elim (input.error == 0) [
      | false ↦ some (start_out private_data)
      | true ↦ elim (foreach_continue b) [
        | none ↦ none
        | some runs ↦ some (complete input (run_loop input.blksz runs (start_out private_data)))
      ]
    ]

    -- `none` would be a loop that does not end. The input is freed on every path.
    unfoldable pub android_sparse_finish : Input → P → Option (Out P) × Input
    android_sparse_finish input private_data =
        (finish_mask input input.chunk_bitmasks private_data, android_sparse_free input)
