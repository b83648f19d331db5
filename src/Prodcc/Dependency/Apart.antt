-- ===== src/Prodcc/Dependency/Apart.antt =====
-- protocol/Prodcc/ProdccManager.h: a macro block from the predictions to the micro blocks.
use mathlib.Core.Bool.{false≢true}
use prdcc.Base.{
  ℕ, zero, suc, ◌≤◌, ◌<◌, ◌≡◌, refl, sym, ap, ◌∙◌, ◌⊎◌, inl, inr, Bool, true, false, List, [], ◌∷◌,
  length, get_or, In, All, arith, Bool-cases,
}
use prdcc.Prodcc.DataSummary.{DataSummary}
use prdcc.Prodcc.ConflictPredictor.{
  ConflictType, no_conflict, waw, raw, war, Range, build_summary, check_range_intersection,
  predict_conflict,
}
use prdcc.Prodcc.ConflictPredictor.Dense.{
  HasSorted, Meets, Clashes, intersection-dense, predict_conflict-dense,
}
use prdcc.Prodcc.ConflictPredictor.Sweep.{IsSorted}
use prdcc.Prodcc.Schedule.{Graph, partition_into_micro_blocks}
use prdcc.Prodcc.Schedule.Turn.{count, IsHarmless}
use prdcc.Prodcc.Schedule.Partition.{partition_into_micro_blocks-IsFree}
use prdcc.Prodcc.Schedule.Ordered.{
  IsIncreasing, partition_into_micro_blocks-IsIncreasing, IsFree-IsHarmless,
}
use prdcc.Prodcc.Dependency.{
  Scheduled, is_conflict, no_ranges, pair_conflict, prepare_dependency_graph, partition_phase,
}
use prdcc.Prodcc.Dependency.Appended.{IsScheduled}
use prdcc.Prodcc.Dependency.Complete.{edge_to, partition_phase_iff}

-- What is given of the macro block: the transactions are in the order of their ids, which are distinct and
-- within the graph, there are two of them at least, and every worker runs its task once.
pub record IsMacroBlock (s : Scheduled) (size worker_num : ℕ) (workers : List ℕ) : Type 0 where
  pub increasing : IsIncreasing s.ids
  pub scheduled : IsScheduled s size
  pub many : 1 < length s.ids
  pub some_worker : 0 < worker_num
  pub below : All (λ w. w < worker_num) workers
  pub once : (w : ℕ) → w < worker_num → count w workers ≡ 1

get_or-lt :
    (xs : List ℕ) (i j : ℕ)
    → IsIncreasing xs
    → i < j
    → j < length xs
    → get_or xs i 0 < get_or xs j 0
get_or-lt [] i j inc lt h = absurd (omega arith)
get_or-lt (x ∷ xs) i zero inc lt h = absurd (omega arith)
get_or-lt (x ∷ xs) zero (suc j) inc lt h = smallest xs j inc.0 (omega arith)
  where
    smallest : (ys : List ℕ) (j : ℕ) → All (λ y. x < y) ys → j < length ys → x < get_or ys j 0
    smallest [] j a h = absurd (omega arith)
    smallest (y ∷ ys) zero a h = a.0
    smallest (y ∷ ys) (suc j) a h = smallest ys j a.1 (omega arith)
get_or-lt (x ∷ xs) (suc i) (suc j) inc lt h = get_or-lt xs i j inc.1 (omega arith) (omega arith)

harmless-cases :
    (reordering : Bool) (c : ConflictType)
    → IsHarmless reordering c
    → (c ≡ no_conflict) ⊎ ((c ≡ war) × (reordering ≡ true))
harmless-cases reordering no_conflict h = inl refl
harmless-cases reordering waw h = absurd (h.0 refl)
harmless-cases reordering raw h = absurd (h.1 refl)
harmless-cases reordering war (a, b, inl c) = absurd (c refl)
harmless-cases reordering war (a, b, inr c) = inr (refl, c)

is_conflict-false : (c : ConflictType) → is_conflict c ≡ false → c ≡ no_conflict
is_conflict-false no_conflict h = refl
is_conflict-false waw h = absurd (false≢true (sym h))
is_conflict-false raw h = absurd (false≢true (sym h))
is_conflict-false war h = absurd (false≢true (sym h))

module _ (s : Scheduled) (size worker_num : ℕ) (workers : List ℕ) (reordering : Bool) where
  abbrev graph_of : Graph
  graph_of = partition_phase true worker_num s workers (prepare_dependency_graph size)

  together :
      (b : List ℕ) (i j : ℕ)
      → IsMacroBlock s size worker_num workers
      → In b (partition_into_micro_blocks reordering graph_of s.ids)
      → In (get_or s.ids i 0) b
      → In (get_or s.ids j 0) b
      → i < j
      → j < length s.ids
      → (pair_conflict s i j ≡ no_conflict) ⊎ ((pair_conflict s i j ≡ war) × (reordering ≡ true))
  together b i j mb ib ii ij lt n = elim (Bool-cases (is_conflict (pair_conflict s i j))) [
    | inr none_of ↦ inl (is_conflict-false (pair_conflict s i j) none_of)
    | inl c ↦
        let edge =
          (partition_phase_iff s worker_num workers size i (edge_to s i j) mb.scheduled mb.many
              mb.some_worker mb.below mb.once (omega arith)).1
            (j, lt, n, c, refl) in
        harmless-cases reordering (pair_conflict s i j) (
          IsFree-IsHarmless reordering graph_of b (get_or s.ids i 0) (edge_to s i j)
            (partition_into_micro_blocks-IsFree reordering graph_of s.ids b ib).1
            (partition_into_micro_blocks-IsIncreasing reordering graph_of s.ids b mb.increasing ib)
            ii ij (get_or-lt s.ids i j mb.increasing lt n) edge)
  ]

-- The prediction of a pair, read off its tests.
pair_conflict-war :
    (s : Scheduled) (i j : ℕ)
    → pair_conflict s i j ≡ war
    → let t1 = get_or s.txn_ranges i no_ranges in
      let t2 = get_or s.txn_ranges j no_ranges in
      (check_range_intersection s.summary t1.write t2.write ≡ false)
      × (check_range_intersection s.summary t1.write t2.read ≡ false)
unfolding pair_conflict predict_conflict
pair_conflict-war s i j h = ground (arith, h)

pair_conflict-no_conflict :
    (s : Scheduled) (i j : ℕ)
    → pair_conflict s i j ≡ no_conflict
    → predict_conflict s.summary (get_or s.txn_ranges i no_ranges) (get_or s.txn_ranges j no_ranges)
      ≡ no_conflict
unfolding pair_conflict
pair_conflict-no_conflict s i j h = ground (arith, h)

-- When two transactions are in one micro block of the schedule that is built from the predictions, and one of
-- them writes a key that the other reads or writes, then the reordering is on, the conflict was predicted as
-- WAR, and the one with the smaller id reads what the other writes. It is so over a dense key domain that has
-- the key, with ranges of the two that are sorted by their starts, when there are two transactions at least,
-- in the order of their ids, which are distinct and within the graph, and every worker runs its task once.
pub micro_block_apart :
    (s : Scheduled) (size worker_num : ℕ) (workers : List ℕ) (reordering : Bool) (d : DataSummary)
    (min_key max_key key : ℕ) (b : List ℕ) (i j : ℕ)
    → IsMacroBlock s size worker_num workers
    → s.summary ≡ build_summary d [] min_key max_key true
    → min_key ≤ key
    → key ≤ max_key
    → HasSorted (get_or s.txn_ranges i no_ranges)
    → HasSorted (get_or s.txn_ranges j no_ranges)
    → In b (
        partition_into_micro_blocks reordering
          (partition_phase true worker_num s workers (prepare_dependency_graph size))
          s.ids)
    → In (get_or s.ids i 0) b
    → In (get_or s.ids j 0) b
    → i < j
    → j < length s.ids
    → Clashes (get_or s.txn_ranges i no_ranges) (get_or s.txn_ranges j no_ranges) key
    → (reordering ≡ true)
      × (pair_conflict s i j ≡ war)
      × Meets (get_or s.txn_ranges i no_ranges).read (get_or s.txn_ranges j no_ranges).write key
micro_block_apart s size worker_num workers reordering d lo hi key b i j mb e lo_le le_hi si sj ib
      ii ij lt n clash =
    let t1 = get_or s.txn_ranges i no_ranges in
    let t2 = get_or s.txn_ranges j no_ranges in
    elim (together s size worker_num workers reordering b i j mb ib ii ij lt n) [
      | inl c ↦ absurd (
          predict_conflict-dense d lo hi key t1 t2 lo_le le_hi si sj clash
            (ap (λ x. predict_conflict x t1 t2) (sym e) ∙ pair_conflict-no_conflict s i j c))
      | inr (c, r) ↦
          let (ww, wr) = pair_conflict-war s i j c in
          let saw =
            λ (xs ys : List Range) (sx : IsSorted xs) (sy : IsSorted ys) (m : Meets xs ys key).
              ap (λ x. check_range_intersection x xs ys) e
              ∙ intersection-dense d lo hi key xs ys lo_le le_hi sx sy m in
          elim clash [
            | inl m ↦ absurd (false≢true (sym ww ∙ saw t1.write t2.write si.1 sj.1 m))
            | inr (inl m) ↦ absurd (false≢true (sym wr ∙ saw t1.write t2.read si.1 sj.0 m))
            | inr (inr m) ↦ (r, c, m)
          ]
    ]
