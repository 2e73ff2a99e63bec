-- ===== src/Sparse/Grown.antt =====
-- What `android_sparse_finish` writes grows by the bytes of chunks; the chunks of gaps.
use imgeditor.Common.{
  ℕ, ◌+◌, ◌-◌, ◌*◌, ◌%◌, ◌^◌, ◌≤◌, ◌<◌, ◌≡◌, refl, ◌∙◌, ap, ap₂, sym, arith, inl, inr,
}
use imgeditor.Common.{
  true, false, List, [], ◌∷◌, ◌++◌, length, length-append, Bool-cases, ==_iff, ltb,
}
use imgeditor.Common.{◌==◌}
use imgeditor.Dd.Copied.{concat, placed}
use imgeditor.Sparse.{Out, append_gap, last_gap, dontcare_bytes, raw_bytes}
use imgeditor.Sparse.Format.{length-chunk_bytes}
use imgeditor.Sparse.Plan.{Chunk, gap_to, plan}
use imgeditor.Sparse.Print.{placed-append, concat-append, print, print_all}
use mathlib.Core.List.{append_assoc, append-nil}

length-dontcare_bytes : (n : ℕ) → length (dontcare_bytes n) ≡ 12
unfolding dontcare_bytes
length-dontcare_bytes n = length-chunk_bytes _

pub length-raw_bytes : (n blksz : ℕ) → length (raw_bytes n blksz) ≡ 12
unfolding raw_bytes
length-raw_bytes n blksz = length-chunk_bytes _

pub gap_to-append :
    (lo s : ℕ) (cs rest : List Chunk) → gap_to lo s cs ++ rest ≡ gap_to lo s (cs ++ rest)
gap_to-append lo s cs rest = elim (Bool-cases (lo == s)) [
  | inl same ↦ rw same refl
  | inr other ↦ rw other refl
]

wrapped : (a b : ℕ) → b ≤ a → a < 2 ^ 64 → (a + 2 ^ 64 - b) % 2 ^ 64 ≡ a - b
wrapped a b le word = omega arith

pub small : (a : ℕ) → a < 2 ^ 64 → a % 2 ^ 64 ≡ a
small a word = omega arith

pub times_le : (a b k : ℕ) → a ≤ b → a * k ≤ b * k
times_le a b k le =
    let e : b * k ≡ a * k + (b - a) * k =
      let parts : b ≡ a + (b - a) = omega arith in ap (λ x. x * k) parts ∙ grind arith in
    omega (arith, e)

module _ (blksz : ℕ) (block : ℕ → List ℕ) where
  pub print_all-append :
      (cs ds : List Chunk)
      → print_all blksz block (cs ++ ds) ≡ print_all blksz block cs ++ print_all blksz block ds
  print_all-append [] ds = refl
  print_all-append (c ∷ cs) ds =
      ap (λ r. print blksz block c ++ r) (print_all-append cs ds)
      ∙ sym
          (append_assoc (print blksz block c) (print_all blksz block cs) (print_all blksz block ds))

  pub length-gap_to : (lo s : ℕ) → length (print_all blksz block (gap_to lo s [])) ≤ 12
  length-gap_to lo s = elim (Bool-cases (lo == s)) [
    | inl same ↦ rw same (omega arith)
    | inr other ↦ rw other (
        omega
          (arith, ap length (append-nil (dontcare_bytes (s - lo))), length-dontcare_bytes (s - lo)))
  ]

  module _ {P : Type 0} where
    -- From `o` to `o'` the chunks are written in these pieces, one after the other.
    pub record Grown (o : Out P) (cs : List Chunk) (pieces : List (List ℕ)) (o' : Out P)
        : Type 0 where
      pub writes : o'.writes ≡ o.writes ++ placed o.offset pieces
      pub whole : concat pieces ≡ print_all blksz block cs
      pub total_chunks : o'.total_chunks ≡ o.total_chunks + length cs

    -- `o'` goes on behind the chunks.
    abbrev pub Behind : Out P → List Chunk → Out P → Type 0
    Behind o cs o' = o'.offset ≡ o.offset + length (print_all blksz block cs)

    pub Grown-then :
        (o o1 o2 : Out P) (cs ds : List Chunk) (ps qs : List (List ℕ))
        → Grown o cs ps o1
        → Behind o cs o1
        → Grown o1 ds qs o2
        → Grown o (cs ++ ds) (ps ++ qs) o2
    Grown-then o o1 o2 cs ds ps qs one behind more = record {
      writes =
          more.writes
          ∙ ap₂ (λ ws off. ws ++ placed off qs) one.writes
              (behind ∙ ap (λ k. o.offset + k) (ap length (sym one.whole)))
          ∙ append_assoc o.writes _ _
          ∙ ap (λ r. o.writes ++ r) (placed-append o.offset ps qs);
      whole =
          concat-append ps qs
          ∙ ap₂ (λ x y. x ++ y) one.whole more.whole
          ∙ sym (print_all-append cs ds);
      total_chunks = omega (arith, one.total_chunks, more.total_chunks, length-append cs ds);
    }

    pub Behind-then :
        (o o1 o2 : Out P) (cs ds : List Chunk)
        → Behind o cs o1
        → Behind o1 ds o2
        → Behind o (cs ++ ds) o2
    Behind-then o o1 o2 cs ds one two = omega (
      arith,
      one,
      two,
      ap length (print_all-append cs ds),
      length-append (print_all blksz block cs) (print_all blksz block ds),
    )

    -- The position does not matter.
    pub Grown-sought :
        (o o' : Out P) (k : ℕ) (cs : List Chunk) (ps : List (List ℕ))
        → Grown (record o { at = k }) cs ps o'
        → Grown o cs ps o'
    Grown-sought o o' k cs ps g = record {
      writes = g.writes;
      whole = g.whole;
      total_chunks = g.total_chunks;
    }

    -- A gap of `n` blocks is written at `off`.
    gap-Grown :
        (n m : ℕ) (o o' : Out P)
        → m ≡ n
        → o'.writes ≡ o.writes ++ (o.offset, dontcare_bytes m) ∷ []
        → o'.total_chunks ≡ o.total_chunks + 1
        → Grown o (Chunk.gap n ∷ []) (dontcare_bytes n ∷ []) o'
    gap-Grown n m o o' same writes total_chunks = record {
      writes = writes ∙ ap (λ k. o.writes ++ (o.offset, dontcare_bytes k) ∷ []) same;
      whole = refl;
      total_chunks = total_chunks;
    }

    pub append_gap-Grown :
        (lo s : ℕ) (o : Out P)
        → o.blk ≡ lo
        → o.at ≡ o.offset
        → lo ≤ s
        → s < 2 ^ 64
        → o.offset + 12 < 2 ^ 64
        → (pieces : List (List ℕ)) × Grown o (gap_to lo s []) pieces (append_gap s o)
          × Behind o (gap_to lo s []) (append_gap s o)
          × ((append_gap s o).at ≡ (append_gap s o).offset)
          × ((append_gap s o).blk ≡ s)
    unfolding append_gap
    append_gap-Grown lo s o is_lo seeked low word room = elim (Bool-cases (lo == s)) [
      | inl same ↦
          let same' : (o.blk == s) ≡ true = ap (λ k. k == s) is_lo ∙ same in
          rw (same, same')
            (
              [],
              record {
                writes = sym (append-nil o.writes);
                whole = refl;
                total_chunks = omega arith;
              },
              omega arith,
              seeked,
              is_lo ∙ (==_iff lo s).0 same,
            )
      | inr other ↦
          let other' : (o.blk == s) ≡ false = ap (λ k. k == s) is_lo ∙ other in
          let m = (s + 2 ^ 64 - o.blk) % 2 ^ 64 in
          let gap_size : m ≡ s - lo =
            ap (λ k. (s + 2 ^ 64 - k) % 2 ^ 64) is_lo ∙ wrapped s lo low word in
          let offset_is = small (o.offset + 12) room in
          let gap_sized = length-dontcare_bytes (s - lo) in
          rw (other, other')
            (
              dontcare_bytes (s - lo) ∷ [],
              gap-Grown (s - lo) m o _ gap_size
                  (ap (λ k. o.writes ++ (k, dontcare_bytes m) ∷ []) seeked) refl,
              offset_is
                  ∙ ap (λ k. o.offset + k)
                      (sym gap_sized ∙ ap length (sym (append-nil (dontcare_bytes (s - lo))))),
              ap₂ (λ x y. x + y) seeked (length-dontcare_bytes m) ∙ sym offset_is,
              refl,
            )
    ]

    pub last_gap-Grown :
        (lo total : ℕ) (o : Out P)
        → o.blk ≡ lo
        → total < 2 ^ 64
        → (pieces : List (List ℕ)) × Grown o (plan total lo []) pieces (last_gap total o)
    unfolding last_gap
    last_gap-Grown lo total o is_lo word = elim (Bool-cases (ltb lo total)) [
      | inl more ↦
          let more' : ltb o.blk total ≡ true = ap (λ k. ltb k total) is_lo ∙ more in
          let m = (total + 2 ^ 64 - o.blk) % 2 ^ 64 in
          let gap_size : m ≡ total - lo =
            ap (λ k. (total + 2 ^ 64 - k) % 2 ^ 64) is_lo ∙ wrapped total lo (ground arith) word in
          rw (more, more')
            (dontcare_bytes (total - lo) ∷ [], gap-Grown (total - lo) m o _ gap_size refl refl)
      | inr end ↦
          let end' : ltb o.blk total ≡ false = ap (λ k. ltb k total) is_lo ∙ end in
          rw (end, end')
            (
              [],
              record {
                writes = sym (append-nil o.writes);
                whole = refl;
                total_chunks = omega arith;
              },
            )
    ]
