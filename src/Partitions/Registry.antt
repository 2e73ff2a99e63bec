-- ===== src/Partitions/Registry.antt =====
-- The table as a list of at most eight partition tables in the order of registration.
use imgeditor.Common.{ℕ, zero, suc, ◌+◌, ◌-◌, ◌≤◌, ◌<◌, ◌≡◌, refl, ◌∙◌, ap, sym, arith, true, false}
use imgeditor.Common.{
  Option, none, some, List, [], ◌∷◌, ◌++◌, map, length, length-append, get_or, set, replicate,
}
use imgeditor.Common.{length-set, ltb, ◌==◌, if◌then◌else◌, lt-or-ge, inl, inr}
use imgeditor.Common.{
  All, All-append, ap₂, length-map, length-replicate, get_or-set_self, get_or-set_ne, eq-or-ne,
  get_or_ext,
}
use imgeditor.Partitions.{Partitions, Table, gd_max_partitions, score_weak, score_good}
use imgeditor.Partitions.{register_disk_partitions, register_weak_disk_partitions}
use imgeditor.Partitions.{free_registed_disk_partitions, free_loop, empty_table}

-- `registered` is what the table stands for: the cells in use hold its items, the others null.
pub record Represents (t : Table) (registered : List Partitions) : Type 0 where
  pub counted : t.active ≡ length registered
  pub bounded : length registered ≤ gd_max_partitions
  pub stored :
      t.cells ≡ map some registered ++ replicate (gd_max_partitions - length registered) none
  pub scored : All (λ (dp : Partitions). 0 < dp.score) registered

-- What `register_disk_partitions` puts into the table.
abbrev pub with_score : Partitions → Partitions
with_score dp = record dp { score = if dp.score == 0 then score_good else dp.score }

-- The list that registering `dp` leaves: `dp` at the end, if there is room.
abbrev pub appended : List Partitions → Partitions → List Partitions
appended registered dp =
    if ltb (length registered) gd_max_partitions
    then registered ++ with_score dp ∷ []
    else registered

-- Writing the first free cell appends.
set_first_free :
    (registered : List Partitions) (free : ℕ) (dp : Partitions)
    → set (map some registered ++ replicate (suc free) none) (length registered) (some dp)
      ≡ map some (registered ++ dp ∷ []) ++ replicate free none
set_first_free [] free dp = refl
set_first_free (x ∷ xs) free dp =
    ap (λ (l : List (Option Partitions)). some x ∷ l) (set_first_free xs free dp)

with_score_pos : (dp : Partitions) → 0 < (with_score dp).score
with_score_pos dp = ground arith

module _ (t : Table) (registered : List Partitions) (dp : Partitions)
    (r : Represents t registered) where
  stored_room :
      length registered < gd_max_partitions
      → set t.cells t.active (some (with_score dp))
        ≡ map some (registered ++ with_score dp ∷ [])
          ++ replicate (gd_max_partitions - length (registered ++ with_score dp ∷ [])) none
  stored_room room =
      let free = gd_max_partitions - length registered - 1 in
      let e : gd_max_partitions - length registered ≡ suc free = omega arith in
      let e' : gd_max_partitions - length (registered ++ with_score dp ∷ []) ≡ free =
        omega (arith, length-append registered (with_score dp ∷ [])) in
      rw (r.stored, r.counted, e, e') (set_first_free registered free (with_score dp))

  register_room :
      length registered < gd_max_partitions
      → Represents (register_disk_partitions t dp) (registered ++ with_score dp ∷ [])
  unfolding register_disk_partitions
  register_room room =
      let fits : ltb t.active gd_max_partitions ≡ true = ground (arith, r.counted) in
      rw fits (record {
        counted = omega (arith, r.counted, length-append registered (with_score dp ∷ []));
        bounded = omega (arith, length-append registered (with_score dp ∷ []));
        stored = stored_room room;
        scored =
            All-append (λ (d : Partitions). 0 < d.score) registered (with_score dp ∷ []) r.scored
              (with_score_pos dp, tt);
      })

  register_full :
      gd_max_partitions ≤ length registered → Represents (register_disk_partitions t dp) registered
  unfolding register_disk_partitions
  register_full full =
      let over : ltb t.active gd_max_partitions ≡ false = ground (arith, r.counted) in rw over r

  register_one : Represents (register_disk_partitions t dp) (appended registered dp)
  register_one = elim (lt-or-ge (length registered) gd_max_partitions) [
    | inl room ↦
        let e : ltb (length registered) gd_max_partitions ≡ true = ground arith in
        rw e (register_room room)
    | inr full ↦
        let e : ltb (length registered) gd_max_partitions ≡ false = ground arith in
        rw e (register_full full)
  ]

-- `register_disk_partitions` appends the table with its score, 80 in place of 0, and drops it when
-- eight are registered already; `register_weak_disk_partitions` does so with the score 10.
pub register-Represents :
    (t : Table) (registered : List Partitions) (dp : Partitions)
    → Represents t registered
    → Represents (register_disk_partitions t dp) (appended registered dp)
      × Represents
          (register_weak_disk_partitions t dp)
          (appended registered (record dp { score = score_weak }))
unfolding register_weak_disk_partitions
register-Represents t registered dp r =
    (register_one t registered dp r, register_one t registered (record dp { score = score_weak }) r)

get_or-nulls : (n j : ℕ) → get_or (replicate {A = Option Partitions} n none) j none ≡ none
get_or-nulls zero j = refl
get_or-nulls (suc n) zero = refl
get_or-nulls (suc n) (suc j) = get_or-nulls n j

-- Behind the cells in use there are null cells only.
unused_null :
    (xs : List Partitions) (n j : ℕ)
    → length xs ≤ j
    → get_or (map some xs ++ replicate n none) j none ≡ none
unused_null [] n j h = get_or-nulls n j
unused_null (x ∷ xs) n zero h = absurd (omega arith)
unused_null (x ∷ xs) n (suc j) h = unused_null xs n j (omega arith)

length-cells :
    (xs : List Partitions) (n : ℕ)
    → length (map some xs ++ replicate {A = Option Partitions} n none) ≡ length xs + n
length-cells xs n =
    length-append (map some xs) (replicate n none)
    ∙ ap₂ ◌+◌ (length-map {B = Option Partitions} some xs)
        (length-replicate {A = Option Partitions} n none)

length-free_loop :
    (left i : ℕ) (cells : List (Option Partitions)) → length (free_loop left i cells) ≡ length cells
unfolding free_loop
length-free_loop zero i cells = refl
length-free_loop (suc left) i cells =
    length-free_loop left (i + 1) (set cells i none) ∙ length-set cells i none

-- The loop makes a cell null if it is in its range or was null before.
free_loop_null :
    (left i : ℕ) (cells : List (Option Partitions)) (j : ℕ)
    → (i + left ≤ j → get_or cells j none ≡ none)
    → (j < i → get_or cells j none ≡ none)
    → j < length cells
    → get_or (free_loop left i cells) j none ≡ none
unfolding free_loop
free_loop_null zero i cells j behind before fits = elim (lt-or-ge j i) [
  | inl h ↦ before h
  | inr h ↦ behind (omega arith)
]
free_loop_null (suc left) i cells j behind before fits =
    free_loop_null left (i + 1) (set cells i none) j
      (λ h. get_or-set_ne cells i j none none (omega arith) ∙ behind (omega arith))
      (λ h. elim (eq-or-ne i j) [
        | inl e ↦ rw (← e) (get_or-set_self cells i none none (omega arith))
        | inr ne ↦ get_or-set_ne cells i j none none (omega arith) ∙ before (omega arith)
      ])
      (omega (arith, length-set cells i none))

-- `free_registed_disk_partitions` empties the table, and the empty table has registered nothing.
pub free-Represents :
    (t : Table) (registered : List Partitions)
    → Represents t registered
    → (free_registed_disk_partitions t ≡ empty_table) × Represents empty_table []
unfolding free_registed_disk_partitions
free-Represents t registered r = (
  ap (λ (l : List (Option Partitions)). record { active = 0; cells = l }) cleared,
  record { counted = refl; bounded = omega arith; stored = refl; scored = tt },
)
  where
    sized : length t.cells ≡ gd_max_partitions
    sized =
        ap length r.stored
        ∙ length-cells registered (gd_max_partitions - length registered)
        ∙ omega (arith, r.bounded)

    cleared : free_loop t.active 0 t.cells ≡ replicate gd_max_partitions none
    cleared = get_or_ext none _ _ (length-free_loop t.active 0 t.cells ∙ sized) λ j h.
        free_loop_null t.active 0 t.cells j
          (λ behind. rw r.stored (
            unused_null registered (gd_max_partitions - length registered) j
              (omega (arith, r.counted))))
          (λ before. absurd (omega arith)) (omega (arith, length-free_loop t.active 0 t.cells))
        ∙ sym (get_or-nulls gd_max_partitions j)
