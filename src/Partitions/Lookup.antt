-- ===== src/Partitions/Lookup.antt =====
-- `find_registed_partition` against the list of partitions that hold the address.
use imgeditor.Common.{ℕ, suc, ◌+◌, ◌≤◌, ◌<◌, ◌≡◌, refl, ◌∙◌, ap, sym, arith, true, false}
use imgeditor.Common.{Option, none, some, List, [], ◌∷◌, ◌++◌, map, length, get_or, All}
use imgeditor.Common.{ltb, if◌then◌else◌, lt-or-ge, inl, inr, Bool-cases}
use imgeditor.Partitions.{Partition, Partitions, Table, Best, contains, consider}
use imgeditor.Partitions.{parts_loop, cells_loop, nothing_found, find_registed_partition}
use imgeditor.Partitions.Registry.{Represents}
use imgeditor.Common.{All-append, All-weaken, get_or-append_left, length-map}
use mathlib.Core.Path.{subst}
use mathlib.Core.List.{append-nil, append_assoc}

abbrev pub Hit : Type 0
Hit = Partitions × Partition

-- The partitions of one table, and of all, that hold the address, in the order of the search.
abbrev pub hits_in : ℕ → Partitions → List Partition → List Hit
hits_in addr dp [] = []
hits_in addr dp (part ∷ rest) =
    if contains part addr then (dp, part) ∷ hits_in addr dp rest else hits_in addr dp rest

abbrev pub hits : ℕ → List Partitions → List Hit
hits addr [] = []
hits addr (dp ∷ rest) = hits_in addr dp dp.parts ++ hits addr rest

abbrev pub last_type : List Hit → Option (List ℕ)
last_type [] = none
last_type ((dp, part) ∷ []) = some dp.disk_type
last_type ((dp, part) ∷ next ∷ rest) = last_type (next ∷ rest)

-- The first of the partitions with the highest score, and the disk type of the last of all.
pub record IsChosen (found : List Hit) (best : Best) : Type 0 where
  pub front : List Hit
  pub back : List Hit
  pub disk : Partitions
  pub part : Partition
  pub here : found ≡ front ++ (disk, part) ∷ back
  pub above_front : All (λ (h : Hit). h.0.score < disk.score) front
  pub above_back : All (λ (h : Hit). h.0.score ≤ disk.score) back
  pub best_part : best.best_part ≡ some part
  pub best_score : best.best_score ≡ disk.score
  pub disk_type : best.ret_disk_type ≡ last_type found

pub data IsBest (found : List Hit) (best : Best) : Type 0 where
  no_hit : found ≡ [] → best ≡ nothing_found → IsBest found best
  chosen : IsChosen found best → IsBest found best

last_type-append :
    (xs : List Hit) (dp : Partitions) (part : Partition)
    → last_type (xs ++ (dp, part) ∷ []) ≡ some dp.disk_type
last_type-append [] dp part = refl
last_type-append (x ∷ []) dp part = refl
last_type-append (x ∷ y ∷ ys) dp part = last_type-append (y ∷ ys) dp part

module _ (addr : ℕ) (dp : Partitions) (pos_score : 0 < dp.score) (part : Partition)
    (inside : contains part addr ≡ true) where
  -- A better score than the chosen one is better than all.
  All-below :
      (found : List Hit) (best : Best) (c : IsChosen found best)
      → best.best_score < dp.score
      → All (λ (h : Hit). h.0.score < dp.score) found
  All-below found best c better =
      let Below : Hit → Type 0 = λ h. h.0.score < dp.score in
      subst (All Below) (sym c.here) (
        All-append Below c.front ((c.disk, c.part) ∷ c.back)
          (All-weaken (λ (h : Hit). h.0.score < c.disk.score) Below
            (λ h lt. omega (arith, c.best_score)) c.front c.above_front)
          (
            omega (arith, c.best_score),
            All-weaken (λ (h : Hit). h.0.score ≤ c.disk.score) Below
                (λ h le. omega (arith, c.best_score)) c.back c.above_back,
          ))

  consider-IsBest :
      (found : List Hit) (best : Best)
      → IsBest found best
      → IsBest (found ++ (dp, part) ∷ []) (consider addr dp part best)
  unfolding consider
  consider-IsBest found best (no_hit e f) =
      let e' : ltb 0 dp.score ≡ true = ground arith in
      rw (inside, e, f, e')
        (chosen (record {
          front = [];
          back = [];
          disk = dp;
          part = part;
          here = refl;
          above_front = tt;
          above_back = tt;
          best_part = refl;
          best_score = refl;
          disk_type = refl;
        }))
  consider-IsBest found best (chosen c) = elim (lt-or-ge best.best_score dp.score) [
    | inl better ↦
        let e : ltb best.best_score dp.score ≡ true = ground arith in
        rw (inside, e)
          (chosen (record {
            front = found;
            back = [];
            disk = dp;
            part = part;
            here = refl;
            above_front = All-below found best c better;
            above_back = tt;
            best_part = refl;
            best_score = refl;
            disk_type = sym (last_type-append found dp part);
          }))
    | inr not_better ↦
        let e : ltb best.best_score dp.score ≡ false = ground arith in
        rw (inside, e)
          (chosen (record {
            front = c.front;
            back = c.back ++ (dp, part) ∷ [];
            disk = c.disk;
            part = c.part;
            here =
                ap (λ (l : List Hit). l ++ (dp, part) ∷ []) c.here
                ∙ append_assoc c.front ((c.disk, c.part) ∷ c.back) ((dp, part) ∷ []);
            above_front = c.above_front;
            above_back =
                All-append (λ (h : Hit). h.0.score ≤ c.disk.score) c.back ((dp, part) ∷ [])
                  c.above_back (omega (arith, c.best_score), tt);
            best_part = c.best_part;
            best_score = c.best_score;
            disk_type = sym (last_type-append found dp part);
          }))
  ]

consider_out :
    (addr : ℕ) (dp : Partitions) (part : Partition) (best : Best)
    → contains part addr ≡ false
    → consider addr dp part best ≡ best
unfolding consider
consider_out addr dp part best outside = rw outside

module _ (addr : ℕ) (dp : Partitions) (pos_score : 0 < dp.score) where
  parts_loop-IsBest :
      (parts : List Partition) (found : List Hit) (best : Best)
      → IsBest found best
      → IsBest (found ++ hits_in addr dp parts) (parts_loop addr dp parts best)
  unfolding parts_loop
  parts_loop-IsBest [] found best h = rw append-nil h
  parts_loop-IsBest (part ∷ rest) found best h = elim (Bool-cases (contains part addr)) [
    | inl inside ↦
        let more =
          parts_loop-IsBest rest (found ++ (dp, part) ∷ []) (consider addr dp part best)
            (consider-IsBest addr dp pos_score part inside found best h) in
        rw inside (rw append_assoc at more)
    | inr outside ↦
        rw (outside, consider_out addr dp part best outside) (parts_loop-IsBest rest found best h)
  ]

cells_loop-some :
    (addr left i : ℕ) (cells : List (Option Partitions)) (best : Best) (dp : Partitions)
    → get_or cells i none ≡ some dp
    → cells_loop addr (suc left) i cells best
      ≡ cells_loop addr left (i + 1) cells (parts_loop addr dp dp.parts best)
unfolding cells_loop
cells_loop-some addr left i cells best dp e = rw (e, cells_loop)

-- The cells from `i` on hold the tables still to come.
cells_loop-IsBest :
    (addr : ℕ) (todo : List Partitions) (i : ℕ) (cells : List (Option Partitions))
    (found : List Hit) (best : Best)
    → ((k j : ℕ)
        → i + k ≡ j
        → k < length todo
        → get_or cells j none ≡ get_or (map some todo) k none)
    → All (λ (dp : Partitions). 0 < dp.score) todo
    → IsBest found best
    → (best' : Best) × (cells_loop addr (length todo) i cells best ≡ some best')
      × IsBest (found ++ hits addr todo) best'
cells_loop-IsBest addr [] i cells found best at scored h =
    (best, unfold cells_loop in refl, rw append-nil h)
cells_loop-IsBest addr (dp ∷ rest) i cells found best at (pos_score, scored) h =
    let (best', e, answer) =
      cells_loop-IsBest addr rest (i + 1) cells (found ++ hits_in addr dp dp.parts)
        (parts_loop addr dp dp.parts best) (λ k j s lt. at (suc k) j (omega arith) (omega arith))
        scored (parts_loop-IsBest addr dp pos_score dp.parts found best h) in
    (
      best',
      cells_loop-some addr (length rest) i cells best dp (at 0 i (omega arith) (omega arith)) ∙ e,
      rw append_assoc at answer,
    )

-- On a well-formed table `find_registed_partition` reads no null cell. If no registered partition
-- holds the address it finds nothing; otherwise it returns the first partition of the highest score
-- among those that hold the address, and as the disk type that of the last of them.
pub find-IsBest :
    (t : Table) (registered : List Partitions) (addr : ℕ)
    → Represents t registered
    → (best : Best) × (find_registed_partition t addr ≡ some best)
      × IsBest (hits addr registered) best
unfolding find_registed_partition
find-IsBest t registered addr r = rw r.counted (
    cells_loop-IsBest addr registered 0 t.cells [] nothing_found
      (λ k j e lt.
        let e' : j ≡ k = omega arith in
        rw (r.stored, e')
          (get_or-append_left (map some registered) _ k none
            (omega (arith, length-map {B = Option Partitions} some registered))))
      r.scored (no_hit refl refl))
