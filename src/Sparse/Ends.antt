-- ===== src/Sparse/Ends.antt =====
-- The ends of `android_sparse_finish`, and the case of a bitmask without a set bit.
use imgeditor.Common.{ℕ, ◌≡◌, refl, ap}
use imgeditor.Common.{Bool, true, false, some, List, ==_iff}
use imgeditor.Common.{ℤ, ◌==◌}
use imgeditor.Bitmask.{Bitmask}
use imgeditor.Bitmask.Iterator.{foreach_continue}
use imgeditor.Dd.Overlay.{}
use imgeditor.Sparse.{
  Input, Out, android_sparse_finish, android_sparse_free, finish_mask, complete, run_loop,
  start_out,
}
use imgeditor.Sparse.Unpack.{}

module _ (b : Bitmask) {P : Type 0} (write_cb : ℕ → ℕ → P → ℤ × List ℕ × P) where
  pub finish_mask-runs :
      (input : Input) (p : P) (runs : List (ℤ × ℤ))
      → input.error ≡ 0
      → foreach_continue b ≡ some runs
      → finish_mask write_cb input (some b) p
        ≡ some (complete input (run_loop write_cb input.blksz runs (start_out p)))
  unfolding finish_mask
  finish_mask-runs input p runs no_error found =
      let none_wrong : (input.error == 0) ≡ true = (==_iff input.error 0).1 no_error in
      rw (finish_mask, none_wrong, found) refl

  pub complete-ended :
      (input : Input) (r : Bool × Out P)
      → r.0 ≡ false
      → complete input r ≡ complete input (false, r.1)
  complete-ended input r e = ap (λ x. complete input (x, r.1)) e

  pub mask_of :
      (input : Input) (p : P)
      → input.chunk_bitmasks ≡ some b
      → android_sparse_finish write_cb input p
        ≡ (finish_mask write_cb input (some b) p, android_sparse_free input)
  unfolding android_sparse_finish
  mask_of input p has_mask =
      ap (λ m. (finish_mask write_cb input m p, android_sparse_free input)) has_mask
