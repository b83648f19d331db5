-- ===== src/Prodcc/Dependency.antt =====
-- protocol/Prodcc/ProdccManager.h: `partition_task`, which fills the dependency graph with the conflicts that
-- are predicted, each worker for its transactions. `txns_to_schedule_` is the list of the ids. A draw below
-- the toxic rate is `toxic i j`. A worker's edges out of a transaction are appended when the worker comes
-- to it, and not at its end: nobody else appends to that transaction. An edge out of a graph that is too
-- small for the id is lost.
pub mod Appended
pub mod Complete
pub mod Apart
pub mod Sorted
use prdcc.Base.{
  ℕ, zero, suc, ◌+◌, Bool, true, false, not, ◌||◌, List, [], ◌∷◌, ◌++◌, length, get_or, set,
  replicate, ltb, leb, Option, none, some, if◌then◌else◌,
}
use prdcc.Prodcc.Cleanup.{Flags}
use prdcc.Prodcc.DataSummary.{DataSummary}
use prdcc.Prodcc.ConflictPredictor.{
  ConflictType, no_conflict, waw, raw, war, TxnQueryRanges, predict_conflict,
}
use prdcc.Prodcc.Schedule.{Edge, Graph}
use prdcc.Prodcc.Worker.{worker_slots}

abbrev pub is_conflict : ConflictType → Bool
is_conflict no_conflict = false
is_conflict _ = true

-- `build_txns_to_schedule`: the ids of the slots in use that are not given up. `std::sort` is an insertion
-- sort: distinct ids have one order.
unfoldable pub insert_id : ℕ → List ℕ → List ℕ
insert_id id [] = id ∷ []
insert_id id (x ∷ xs) = let rest = insert_id id xs in if ltb id x then id ∷ x ∷ xs else x ∷ rest

unfoldable pub build_txns_to_schedule : List (Option Flags) → List ℕ
build_txns_to_schedule [] = []
build_txns_to_schedule (none ∷ slots) = build_txns_to_schedule slots
build_txns_to_schedule (some t ∷ slots) =
    let ids = build_txns_to_schedule slots in if t.abort_no_retry then ids else insert_id t.id ids

-- `prepare_dependency_graph`: whatever it was, the graph has the size and no edge.
unfoldable pub prepare_dependency_graph : ℕ → Graph
prepare_dependency_graph graph_size = replicate graph_size []

-- The transactions of the macro block, with their ranges, and what predicts.
pub record Scheduled : Type 0 where
  pub ids : List ℕ
  pub txn_ranges : List TxnQueryRanges
  pub summary : DataSummary
  pub toxic : ℕ → ℕ → Bool

abbrev pub no_ranges : TxnQueryRanges
no_ranges = record { read = []; write = [] }

unfoldable pub pair_conflict : Scheduled → ℕ → ℕ → ConflictType
pair_conflict s i j =
    if s.toxic i j
    then waw
    else predict_conflict s.summary (get_or s.txn_ranges i no_ranges)
        (get_or s.txn_ranges j no_ranges)

-- The inner loop, over `fuel` transactions from `j` on.
unfoldable pub out_edges : Scheduled → ℕ → ℕ → ℕ → List Edge
out_edges s i zero j = []
out_edges s i (suc fuel) j =
    let rest = out_edges s i fuel (j + 1) in
    let conflict = pair_conflict s i j in
    if ltb j (length s.ids)
    then (if is_conflict conflict
        then record { target = get_or s.ids j 0; conflict = conflict } ∷ rest
        else rest)
    else []

abbrev pub edges_of : Scheduled → ℕ → List Edge
edges_of s i = out_edges s i (length s.ids) (i + 1)

unfoldable pub append_edges : Graph → ℕ → List Edge → Graph
append_edges graph src edges = set graph src (get_or graph src [] ++ edges)

-- The outer loop and the merge.
unfoldable pub add_edges : Scheduled → List ℕ → Graph → Graph
add_edges s [] graph = graph
add_edges s (i ∷ slots) graph =
    add_edges s slots (append_edges graph (get_or s.ids i 0) (edges_of s i))

unfoldable pub partition_task : Bool → ℕ → Scheduled → ℕ → Graph → Graph
partition_task enable_prediction worker_num s worker_id graph =
    if not enable_prediction || leb worker_num worker_id || leb (length s.ids) 1
    then graph
    else add_edges s (worker_slots worker_num (length s.ids) worker_id) graph

-- The workers one after another.
unfoldable pub partition_phase : Bool → ℕ → Scheduled → List ℕ → Graph → Graph
partition_phase enable_prediction worker_num s [] graph = graph
partition_phase enable_prediction worker_num s (w ∷ workers) graph =
    partition_phase enable_prediction worker_num s workers
      (partition_task enable_prediction worker_num s w graph)
