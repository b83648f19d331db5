-- ===== src/Examples/Planner.antt =====
-- protocol/Prodcc: predictions and schedules on small inputs.
use prdcc.Base.{
  ℕ, ◌<◌, ◌≡◌, ◌≢◌, refl, inl, inr, Bool, true, false, List, [], ◌∷◌, length, arith, ◌&&◌, leb,
}
use prdcc.Prodcc.L1Filter.{empty_filter}
use prdcc.Prodcc.DataSummary.{DataSummary}
use prdcc.Prodcc.ConflictPredictor.{
  Range, TxnQueryRanges, no_conflict, raw, build_summary, predict_conflict,
}
use prdcc.Prodcc.ConflictPredictor.Dense.{predict_conflict-dense}
use prdcc.Prodcc.Schedule.{
  Graph, blocks, partition_into_micro_blocks, pass, repair, partition_loop, should_postpone,
  is_blocking, add_block,
}
use prdcc.Prodcc.Schedule.Chunks.{flatten}
use prdcc.Prodcc.Schedule.Turn.{count, IsFree}
use prdcc.Prodcc.Schedule.Partition.{
  count-partition_into_micro_blocks, partition_into_micro_blocks-IsFree,
}
use prdcc.Prodcc.Schedule.{pad_schedule_to_size}
use prdcc.Prodcc.Align.{align_first, align_other, align_schedule_size-agrees}
use prdcc.Base.{All}
use prdcc.Prodcc.Cleanup.{Flags, Manager, macro_blocks, rate_reaches}
use prdcc.Prodcc.Cleanup.Counters.{macro_blocks-resume}
use prdcc.Base.{some}

abbrev range : ℕ → ℕ → Range
range a b = record { first = a; second = b }

-- A summary with one key, 15.
abbrev has_15 : ℕ → ℕ → Bool
has_15 a b = leb a 15 && leb 15 b

abbrev ranges : List Range → List Range → TxnQueryRanges
ranges reads writes = record { read = reads; write = writes }

abbrev summary : DataSummary
summary = record { l1_filter = empty_filter 0 0; l2_verifier = []; dense_domain = false }

-- The one writes the keys from 3 to 9, the other one reads those from 7 to 12.
predict_conflict-dense_example :
    predict_conflict
      (build_summary summary [] 1 100 true)
      (ranges [] (range 3 9 ∷ []))
      (ranges (range 7 12 ∷ []) [])
    ≢ no_conflict
predict_conflict-dense_example =
    predict_conflict-dense summary 1 100 8 (ranges [] (range 3 9 ∷ []))
      (ranges (range 7 12 ∷ []) []) (omega arith) (omega arith) (tt, ((λ y i. absurd i), tt))
      (((λ y i. absurd i), tt), tt)
      (inr (inl (range 3 9, range 7 12, inl refl, inl refl, omega arith, omega arith)))

-- An edge from 1 to 2.
abbrev graph : Graph
graph = [] ∷ (record { target = 2; conflict = raw } ∷ []) ∷ [] ∷ []

count-partition_into_micro_blocks_example :
    count 2 (flatten (partition_into_micro_blocks true graph (1 ∷ 2 ∷ 3 ∷ [])))
    ≡ count 2 (1 ∷ 2 ∷ 3 ∷ [])
count-partition_into_micro_blocks_example =
    count-partition_into_micro_blocks true graph (1 ∷ 2 ∷ 3 ∷ []) 2

-- The schedule is 1 and 3, then 2.
partition_into_micro_blocks-IsFree_example :
    (0 < length {A = ℕ} (1 ∷ 3 ∷ [])) × IsFree true graph (1 ∷ 3 ∷ [])
unfolding partition_into_micro_blocks partition_loop pass repair should_postpone blocks is_blocking
    add_block
partition_into_micro_blocks-IsFree_example =
    partition_into_micro_blocks-IsFree true graph (1 ∷ 2 ∷ 3 ∷ []) (1 ∷ 3 ∷ []) (inl refl)

abbrev flags : ℕ → Bool → Flags
flags id delayed = record {
  id = id;
  abort_lock = false;
  delay_lock = delayed;
  abort_no_retry = false;
}

-- Two transactions, one of them delayed, and a cooldown of 4.
abbrev manager : Manager
manager = record {
  transactions = some (flags 1 true) ∷ some (flags 2 false) ∷ [];
  total_abort = 0;
  last_macro_total_delay = 0;
  last_macro_total_valid = 0;
  last_macro_abort_ppm = 0;
  last_macro_prediction_enabled = false;
  bypass_baseline_abort_ppm = 0;
  prediction_bypass_cooldown = 4;
}

-- Four macro blocks that run nothing end the cooldown.
macro_blocks-resume_example :
    let m = macro_blocks 0 ([] ∷ [] ∷ [] ∷ [] ∷ []) manager in
    (m.prediction_bypass_cooldown ≡ 0) × (m.last_macro_prediction_enabled ≡ rate_reaches m 0)
macro_blocks-resume_example =
    macro_blocks-resume 0 ([] ∷ [] ∷ [] ∷ [] ∷ []) manager refl (omega arith) refl

-- The one coordinator has one micro block, the other one has two.
align_schedule_size-agrees_example :
    let size = align_first 1 (2 ∷ []) in
    (length (pad_schedule_to_size ((1 ∷ []) ∷ []) size) ≡ size)
    × (flatten (pad_schedule_to_size ((1 ∷ []) ∷ []) size) ≡ 1 ∷ [])
    × All
        (λ s.
          (length (pad_schedule_to_size s (align_other size)) ≡ size)
          × (flatten (pad_schedule_to_size s (align_other size)) ≡ flatten s))
        (((2 ∷ []) ∷ (4 ∷ []) ∷ []) ∷ [])
align_schedule_size-agrees_example =
    align_schedule_size-agrees ((1 ∷ []) ∷ []) (((2 ∷ []) ∷ (4 ∷ []) ∷ []) ∷ []) (omega arith)
      (omega arith, tt)
