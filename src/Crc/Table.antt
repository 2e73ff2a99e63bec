-- ===== src/Crc/Table.antt =====
-- The table that libcrc.c generates: every entry is the one of `table_entry`, and `init_seed`
-- makes the table once.
use imgeditor.Common.{ℕ, zero, suc, ◌+◌, ◌^◌, ◌≤◌, ◌<◌, ◌≡◌, refl, ◌∙◌, sym, arith, inl, inr}
use imgeditor.Common.{true, some, List, get_or, set, length}
use imgeditor.Common.{Bool-cases, eq-or-ne, length-set, get_or-set_self, get_or-set_ne}
use imgeditor.Crc.Width.{Crc, table_entry, table_loop, generate_table, init_seed}

-- The parameters that a caller chooses, without the private data.
pub record SameAlgo (a b : Crc) : Type 0 where
  pub poly : a.poly ≡ b.poly
  pub seed : a.seed ≡ b.seed
  pub xor_result : a.xor_result ≡ b.xor_result
  pub refin : a.refin ≡ b.refin
  pub refout : a.refout ≡ b.refout

module _ (w : ℕ) (reverse : ℕ → ℕ) where
  -- The parameters are words of the width, both reflections or none are asked for, and a table
  -- that is marked as generated is the generated one.
  pub record IsSound (crc : Crc) : Type 0 where
    pub poly_fits : crc.poly < 2 ^ w
    pub reflected : crc.refin ≡ crc.refout
    pub sized : length crc.crc_table ≡ 256
    pub tabled :
        crc.crc_table_generated ≡ true
        → (i : ℕ) → i < 256
        → get_or crc.crc_table i 0 ≡ table_entry w reverse crc i

  length-table_loop :
      (left i : ℕ) (crc : Crc) (table : List ℕ)
      → length (table_loop w reverse left i crc table) ≡ length table
  unfolding table_loop
  length-table_loop zero i crc table = refl
  length-table_loop (suc left) i crc table =
      length-table_loop left (i + 1) crc (set table i (table_entry w reverse crc i))
      ∙ length-set table i (table_entry w reverse crc i)

  table_loop-below :
      (left i : ℕ) (crc : Crc) (table : List ℕ) (j : ℕ)
      → j < i
      → get_or (table_loop w reverse left i crc table) j 0 ≡ get_or table j 0
  unfolding table_loop
  table_loop-below zero i crc table j h = refl
  table_loop-below (suc left) i crc table j h =
      table_loop-below left (i + 1) crc (set table i (table_entry w reverse crc i)) j (omega arith)
      ∙ get_or-set_ne table i j (table_entry w reverse crc i) 0 (λ e. omega arith)

  table_loop-entry :
      (left i : ℕ) (crc : Crc) (table : List ℕ) (j : ℕ)
      → i + left ≤ length table
      → i ≤ j
      → j < i + left
      → get_or (table_loop w reverse left i crc table) j 0 ≡ table_entry w reverse crc j
  unfolding table_loop
  table_loop-entry zero i crc table j room low high = absurd (omega arith)
  table_loop-entry (suc left) i crc table j room low high =
      let v = table_entry w reverse crc i in
      elim (eq-or-ne i j) [
        | inl here ↦
            table_loop-below left (i + 1) crc (set table i v) j (omega arith)
            ∙ rw (sym here) (get_or-set_self table i v 0 (omega arith))
        | inr ne ↦
            table_loop-entry left (i + 1) crc (set table i v) j
              (rw (length-set table i v) (omega arith)) (omega arith) (omega arith)
      ]

  -- What `init_seed` leaves: the same algorithm, with its table made and the register loaded.
  pub record IsReady (crc : Crc) (next : ℕ) (ready : Crc) : Type 0 where
    pub same : SameAlgo ready crc
    pub sound : IsSound ready
    pub made : ready.crc_table_generated ≡ true
    pub loaded : ready.next ≡ next

  generate_table-IsReady :
      (crc : Crc) (next : ℕ)
      → IsSound crc
      → IsReady crc next
          (record (generate_table w reverse (record crc { crc_table_generated = true })) {
            next = next;
          })
  unfolding generate_table table_entry
  generate_table-IsReady crc next sound =
      let marked : Crc = record crc { crc_table_generated = true } in
      record {
        same = record { poly = refl; seed = refl; xor_result = refl; refin = refl; refout = refl };
        sound = record {
          poly_fits = sound.poly_fits;
          reflected = sound.reflected;
          sized = length-table_loop 256 0 marked crc.crc_table ∙ sound.sized;
          tabled = λ made i h.
              table_loop-entry 256 0 marked crc.crc_table i (omega (arith, sound.sized))
                (omega arith) (omega arith);
        };
        made = refl;
        loaded = refl;
      }

  pub init_seed-IsReady :
      (crc : Crc) (next : ℕ)
      → IsSound crc
      → (ready : Crc) × (init_seed w reverse (some crc) next ≡ some ready) × IsReady crc next ready
  unfolding init_seed table_entry
  init_seed-IsReady crc next sound = elim (Bool-cases crc.crc_table_generated) [
    | inl made ↦ (
      record crc { next = next },
      rw made refl,
      record {
        same = record { poly = refl; seed = refl; xor_result = refl; refin = refl; refout = refl };
        sound = record {
          poly_fits = sound.poly_fits;
          reflected = sound.reflected;
          sized = sound.sized;
          tabled = sound.tabled;
        };
        made = made;
        loaded = refl;
      },
    )
    | inr fresh ↦ (_, rw fresh refl, generate_table-IsReady crc next sound)
  ]
