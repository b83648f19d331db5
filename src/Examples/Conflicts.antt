-- ===== src/Examples/Conflicts.antt =====
-- protocol/Prodcc: two transactions, 1 and 2, of which the one reads the key 5 and the other one writes it.
use prdcc.Base.{
  ℕ, zero, suc, ◌≤◌, ◌<◌, ◌≡◌, refl, inl, inr, true, false, List, [], ◌∷◌, none, some, get_or, In,
  arith,
}
use prdcc.Prodcc.Cleanup.{Flags}
use prdcc.Prodcc.L1Filter.{
  empty_filter, build_dense, query, scan, any_present, bucket_index_for_key, compute_bucket_width,
}
use prdcc.Prodcc.DataSummary
use prdcc.Prodcc.DataSummary.{DataSummary, query_range_exists}
use prdcc.Prodcc.ConflictPredictor.{
  Range, TxnQueryRanges, war, build_summary, predict_conflict, check_range_intersection, sweep,
  has_key,
}
use prdcc.Prodcc.ConflictPredictor.Dense.{Meets}
use prdcc.Prodcc.Schedule.{
  partition_into_micro_blocks, partition_loop, pass, repair, should_postpone, blocks, is_blocking,
  add_block,
}
use prdcc.Prodcc.Schedule.Turn.{count}
use prdcc.Prodcc.Worker.{worker_slots, slots_from}
use prdcc.Prodcc.Dependency.{
  Scheduled, pair_conflict, prepare_dependency_graph, partition_phase, partition_task, add_edges,
  append_edges, out_edges,
}
use prdcc.Prodcc.Dependency.Appended.{IsScheduled}
use prdcc.Prodcc.Dependency.Sorted.{kept}
use prdcc.Prodcc.Dependency.Apart.{IsMacroBlock, micro_block_apart}

abbrev two : List ℕ
two = 1 ∷ 2 ∷ []

abbrev slot : ℕ → Flags
slot id = record { id = id; abort_lock = false; delay_lock = false; abort_no_retry = false }

abbrev reads_five : TxnQueryRanges
reads_five = record { read = record { first = 5; second = 5 } ∷ []; write = [] }

abbrev writes_five : TxnQueryRanges
writes_five = record { read = []; write = record { first = 5; second = 5 } ∷ [] }

abbrev summary : DataSummary
summary = record { l1_filter = empty_filter 0 0; l2_verifier = []; dense_domain = false }

abbrev scheduled : Scheduled
scheduled = record {
  ids = 1 ∷ 2 ∷ [];
  txn_ranges = reads_five ∷ writes_five ∷ [];
  summary = build_summary summary [] 1 9 true;
  toxic = λ i j. false;
}

different : (i j : ℕ) → i < 2 → j < 2 → get_or two i 0 ≡ get_or two j 0 → i ≡ j
different zero j p q e = first j q e
  where
    first : (j : ℕ) → j < 2 → get_or two 0 0 ≡ get_or two j 0 → 0 ≡ j
    first zero q e = refl
    first (suc zero) q e = absurd (omega (arith, e))
    first (suc (suc j)) q e = absurd (omega (arith, q))
different (suc zero) j p q e = second j q e
  where
    second : (j : ℕ) → j < 2 → get_or two 1 0 ≡ get_or two j 0 → 1 ≡ j
    second zero q e = absurd (omega (arith, e))
    second (suc zero) q e = refl
    second (suc (suc j)) q e = absurd (omega (arith, q))
different (suc (suc i)) j p q e = absurd (omega (arith, p))

within : (i : ℕ) → i < 2 → get_or two i 0 < 3
within zero p = omega arith
within (suc zero) p = omega arith
within (suc (suc i)) p = absurd (omega (arith, p))

all_different : IsScheduled scheduled 3
all_different = record { distinct = different; small = within }

each_once : (w : ℕ) → w < 1 → count w (0 ∷ []) ≡ 1
each_once w h = ground (arith, h)

two_transactions : IsMacroBlock scheduled 3 1 (0 ∷ [])
two_transactions = record {
  increasing = ((omega arith, tt), (tt, tt));
  scheduled = all_different;
  many = omega arith;
  some_worker = omega arith;
  below = (omega arith, tt);
  once = each_once;
}

one_block : In two (
    partition_into_micro_blocks true
      (partition_phase true 1 scheduled (0 ∷ []) (prepare_dependency_graph 3))
      two)
unfolding partition_into_micro_blocks partition_loop pass repair should_postpone blocks is_blocking
    add_block partition_phase partition_task prepare_dependency_graph add_edges append_edges
    out_edges pair_conflict predict_conflict check_range_intersection sweep has_key build_summary
    DataSummary.build_dense query_range_exists worker_slots slots_from query build_dense
    empty_filter scan any_present bucket_index_for_key compute_bucket_width
one_block = inl refl

sorted_one : (y : Range) → In y [] → 5 ≤ y.first
sorted_one y m = absurd m

micro_block_apart_example :
    (true ≡ true) × (pair_conflict scheduled 0 1 ≡ war) × Meets reads_five.read writes_five.write 5
micro_block_apart_example =
    micro_block_apart scheduled 3 1 (0 ∷ []) true summary 1 9 5 two 0 1 two_transactions refl
      (omega arith) (omega arith) ((sorted_one, tt), tt) (tt, (sorted_one, tt)) one_block (inl refl)
      (inr (inl refl)) (omega arith) (omega arith)
      (inr (
        inr (
          record { first = 5; second = 5 },
          record { first = 5; second = 5 },
          inl refl,
          inl refl,
          (omega arith, omega arith),
          (omega arith, omega arith),
        )))

slots_once : (id : ℕ) → kept id (some (slot 2) ∷ some (slot 1) ∷ none ∷ []) ≤ 1
slots_once id = ground arith
