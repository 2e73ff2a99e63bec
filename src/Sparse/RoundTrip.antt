-- ===== src/Sparse/RoundTrip.antt =====
-- An image that `android_sparse_finish` writes, and `sparse_detect` and `sparse_unpack2fd` on it.
use imgeditor.Common.{ℕ, ◌+◌, ◌-◌, ◌*◌, ◌%◌, ◌^◌, ◌≤◌, ◌<◌, ◌≡◌, refl, ◌∙◌, ap, sym, arith}
use imgeditor.Common.{false, Option, none, some, List, [], ◌∷◌, ◌++◌, length, drop}
use imgeditor.Common.{ℤ, pos, is_negative}
use imgeditor.Bitmask.{Bitmask, IsValid}
use imgeditor.Dd.{Source, Target}
use imgeditor.Dd.Segment.{segment, Holds}
use imgeditor.Dd.Copied.{concat, placed, Accepts}
use imgeditor.Dd.Overlay.{file_after, extent, extent-append, extent-placed}
use imgeditor.Sparse.{Input, Out, SparseHeader, header_bytes, new_header, android_sparse_finish}
use imgeditor.Sparse.Unpack.{
  In, header_of, check_header, sparse_detect, sparse_unpack2fd, has_fast, chunk_loop,
}
use imgeditor.Sparse.Format.{header_of-header_bytes, length-header_bytes}
use imgeditor.Sparse.Plan.{Chunk, plan, blocks, expand_all, image, plan-image}
use imgeditor.Sparse.Print.{AllFit, print_all}
use imgeditor.Sparse.Reader.{chunk_loop-Advanced}
use imgeditor.Sparse.Ends.{mask_of}
use imgeditor.Sparse.Written.{
  plan-AllFit, Written, finish_mask-Written, new_header-HeaderFits, check_header-new_header,
  Written-Holds,
}
use mathlib.Core.List.{append-nil}
use mathlib.Core.Path.{subst}

abbrev or_else : {A : Type 0} → A → Option A → A
or_else x none = x
or_else x (some y) = y

drop_all : (xs : List ℕ) → drop (length xs) xs ≡ []
drop_all [] = refl
drop_all (x ∷ xs) = drop_all xs

module _ (blksz : ℕ) (block : ℕ → List ℕ) (b : Bitmask) (valid : IsValid b)
    (fits : b.total_bits * blksz + 12 < 2 ^ 32) {P : Type 0} (write_cb : ℕ → ℕ → P → ℤ × List ℕ × P)
    (block_sized : (i : ℕ) → length (block i) ≡ blksz)
    (serves : (s n : ℕ) (p : P)
      → s + n ≤ b.total_bits
      → (is_negative (write_cb s n p).0 ≡ false)
        × ((write_cb s n p).1 ≡ blocks blksz block s n)) where
  module _ (read : Source) (target : Target) (buffer : List ℕ) (content : ℕ → ℕ) (size : ℕ)
      (small_block : blksz < 2 ^ 32) (accepts : Accepts (some target))
      (reads : (at n : ℕ) → at + n ≤ size → read at n ≡ some (segment content at n)) where
    detect-whole :
        (n : ℕ) (old : List ℕ)
        → length old ≡ 28
        → 28 ≤ size
        → Holds content 0 (header_bytes (new_header blksz b.total_bits n))
        → sparse_detect (read 0 28) old ≡ (new_header blksz b.total_bits n, pos 0)
    unfolding sparse_detect
    detect-whole n old old_sized room holds =
        let h = new_header blksz b.total_bits n in
        let sized = length-header_bytes h in
        let rest : drop (length (header_bytes h)) old ≡ [] =
          ap (λ k. drop k old) (sized ∙ sym old_sized) ∙ drop_all old in
        let header : header_of (header_bytes h ++ drop (length (header_bytes h)) old) ≡ h =
          ap (λ r. header_of (header_bytes h ++ r)) rest
          ∙ ap header_of (append-nil (header_bytes h))
          ∙ header_of-header_bytes h
              (new_header-HeaderFits blksz block b valid fits write_cb block_sized serves n) in
        ap (λ r. sparse_detect r old)
          (reads 0 28 room ∙ ap some (ap (segment content 0) (sym sized) ∙ holds))
        ∙ ap (λ x. (x, check_header x)) header
        ∙ ap (λ r. (h, r))
            (check_header-new_header blksz block b valid fits write_cb block_sized serves n)

    unpack-whole :
        (cs : List Chunk) (fill : List ℕ)
        → AllFit blksz block cs
        → length cs < 2 ^ 32
        → 28 + length (print_all blksz block cs) ≤ size
        → Holds content 28 (print_all blksz block cs)
        → (v : In) × (outs : List (List ℕ)) × (sparse_unpack2fd read read target
              (some buffer)
              (new_header blksz b.total_bits (length cs))
              []
              fill
            ≡ (v, pos 0))
          × (v.writes ≡ placed 0 outs)
          × (concat outs ≡ expand_all blksz block cs)
    unfolding sparse_unpack2fd has_fast new_header
    unpack-whole cs fill fit count room holds =
        let h = new_header blksz b.total_bits (length cs) in
        let start : In = record { offset_in = 28; offset_out = 0; fill = fill; writes = [] } in
        let (v, outs, run, advanced) =
          chunk_loop-Advanced blksz block block_sized read target buffer h content size
            (omega arith) accepts reads cs start fit room holds in
        let count_is : length cs % 2 ^ 32 ≡ length cs = omega arith in
        (
          v,
          outs,
          ap (λ n. chunk_loop read read target (some buffer) false h n start) count_is ∙ run,
          advanced.writes,
          advanced.joined,
        )

  -- Let the input have a valid bitmask, of as many bits as it has blocks, and no error; let the block
  -- size be below 2^32 and the size of all blocks, with the 12 bytes of a chunk header, too; and let
  -- `write_cb` never fail and write for each run exactly its blocks, each of the block size. Then the
  -- file that the writes of `android_sparse_finish` leave, read through a descriptor that is not a
  -- virtual file and gives every byte asked for, is accepted by `sparse_detect`. With memory and
  -- without the option --fast, `sparse_unpack2fd` returns 0 on it, and to a target that takes every
  -- write whole it writes the blocks of the bitmask, with zeros for the others, in consecutive pieces
  -- from byte 0 on.
  pub sparse_unpack2fd-android_sparse_finish :
      (input : Input) (p : P) (o : Out P) (f : ℕ → ℕ) (read : Source) (target : Target)
      (buffer old fill : List ℕ)
      → input.chunk_bitmasks ≡ some b
      → input.error ≡ 0
      → input.blksz ≡ blksz
      → input.total_blks ≡ b.total_bits
      → blksz < 2 ^ 32
      → (android_sparse_finish write_cb input p).0 ≡ some o
      → ((at n : ℕ)
          → at + n ≤ extent o.writes
          → read at n ≡ some (segment (file_after o.writes f) at n))
      → Accepts (some target)
      → length old ≡ 28
      → (h : SparseHeader) × (v : In) × (outs : List (List ℕ)) × (sparse_detect (read 0 28) old
          ≡ (h, pos 0))
        × (sparse_unpack2fd read read target (some buffer) h [] fill ≡ (v, pos 0))
        × (v.writes ≡ placed 0 outs)
        × (concat outs ≡ image blksz block b 0 b.total_bits)
  sparse_unpack2fd-android_sparse_finish input p o f read target buffer old fill has_mask no_error
        same_size same_total small_block finished reads accepts old_sized =
      let (runs, pieces, o', finished', are_runs, written') =
        finish_mask-Written blksz block b valid fits write_cb block_sized serves input p no_error
          same_size same_total in
      let same_out : o' ≡ o =
        ap (or_else o')
          (sym finished' ∙ ap (λ r. r.0) (sym (mask_of b write_cb input p has_mask)) ∙ finished) in
      let written =
        subst (Written blksz block b valid fits write_cb block_sized serves runs pieces) same_out
          written' in
      let cs = plan b.total_bits 0 runs in
      let head = header_bytes (new_header blksz b.total_bits (length cs)) in
      let content = file_after o.writes f in
      let (head_there, body_there) =
        Written-Holds blksz block b valid fits write_cb block_sized serves runs pieces o f
          written in
      let ends = ap extent written.writes in
      let size_head = extent-append (placed 28 pieces) ((0, head) ∷ []) in
      let size_body = extent-placed 28 pieces ((0, head) ∷ []) in
      let head_sized = length-header_bytes (new_header blksz b.total_bits (length cs)) in
      let body_sized = ap length written.whole in
      let (fit, count) = plan-AllFit blksz block b valid fits 0 runs are_runs (omega arith) in
      let room : 28 ≤ extent o.writes = omega (arith, ends, size_head, head_sized) in
      let (v, outs, run, writes, joined) =
        unpack-whole read target buffer content (extent o.writes) small_block accepts reads cs fill
          fit (omega (arith, valid.in_int, count))
          (grind (arith, ends, size_body, body_sized, room)) body_there in
      let whole : b.total_bits - 0 ≡ b.total_bits = omega arith in
      (
        new_header blksz b.total_bits (length cs),
        v,
        outs,
        detect-whole read target buffer content (extent o.writes) small_block accepts reads
            (length cs) old old_sized room head_there,
        run,
        writes,
        joined
            ∙ plan-image blksz block b 0 runs are_runs (omega arith)
            ∙ ap (image blksz block b 0) whole,
      )
