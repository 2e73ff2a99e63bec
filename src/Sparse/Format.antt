-- ===== src/Sparse/Format.antt =====
-- The two structures of an Android sparse image are read back from their bytes.
use imgeditor.Common.{ℕ, ◌+◌, ◌*◌, ◌/◌, ◌%◌, ◌^◌, ◌<◌, ◌≡◌, refl, arith, length}
use imgeditor.Sparse.{SparseHeader, ChunkHeader, le16, le32, header_bytes, chunk_bytes}
use imgeditor.Sparse.Unpack.{read16, read32, header_of, chunk_of}

-- The fields are words of their size.
pub record HeaderFits (h : SparseHeader) : Type 0 where
  pub magic : h.magic < 2 ^ 32
  pub major_version : h.major_version < 2 ^ 16
  pub minor_version : h.minor_version < 2 ^ 16
  pub file_hdr_sz : h.file_hdr_sz < 2 ^ 16
  pub chunk_hdr_sz : h.chunk_hdr_sz < 2 ^ 16
  pub blk_sz : h.blk_sz < 2 ^ 32
  pub total_blks : h.total_blks < 2 ^ 32
  pub total_chunks : h.total_chunks < 2 ^ 32
  pub image_checksum : h.image_checksum < 2 ^ 32

pub record ChunkFits (ch : ChunkHeader) : Type 0 where
  pub chunk_type : ch.chunk_type < 2 ^ 16
  pub reserved1 : ch.reserved1 < 2 ^ 16
  pub chunk_sz : ch.chunk_sz < 2 ^ 32
  pub total_sz : ch.total_sz < 2 ^ 32

join16 : (x : ℕ) → x < 2 ^ 16 → x % 256 + x / 256 % 256 * 256 ≡ x
join16 x h = omega arith

join32 :
    (x : ℕ)
    → x < 2 ^ 32
    → x % 256 + x / 2 ^ 8 % 256 * 2 ^ 8 + x / 2 ^ 16 % 256 * 2 ^ 16 + x / 2 ^ 24 % 256 * 2 ^ 24 ≡ x
join32 x h = omega arith

pub chunk_of-chunk_bytes : (ch : ChunkHeader) → ChunkFits ch → chunk_of (chunk_bytes ch) ≡ ch
unfolding chunk_of chunk_bytes le16 le32 read16 read32
chunk_of-chunk_bytes ch fits =
    rw
      (
        join16 ch.chunk_type fits.chunk_type,
        join16 ch.reserved1 fits.reserved1,
        join32 ch.chunk_sz fits.chunk_sz,
        join32 ch.total_sz fits.total_sz,
      )
      refl

pub header_of-header_bytes : (h : SparseHeader) → HeaderFits h → header_of (header_bytes h) ≡ h
unfolding header_of header_bytes le16 le32 read16 read32
header_of-header_bytes h fits =
    rw
      (
        join32 h.magic fits.magic,
        join16 h.major_version fits.major_version,
        join16 h.minor_version fits.minor_version,
        join16 h.file_hdr_sz fits.file_hdr_sz,
        join16 h.chunk_hdr_sz fits.chunk_hdr_sz,
        join32 h.blk_sz fits.blk_sz,
        join32 h.total_blks fits.total_blks,
        join32 h.total_chunks fits.total_chunks,
        join32 h.image_checksum fits.image_checksum,
      )
      refl

pub length-chunk_bytes : (ch : ChunkHeader) → length (chunk_bytes ch) ≡ 12
unfolding chunk_bytes le16 le32
length-chunk_bytes ch = refl

pub length-header_bytes : (h : SparseHeader) → length (header_bytes h) ≡ 28
unfolding header_bytes le16 le32
length-header_bytes h = refl
