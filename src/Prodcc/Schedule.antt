-- ===== src/Prodcc/Schedule.antt =====
-- protocol/Prodcc/ProdccManager.h: the schedule of a macro block. A transaction is its id. The dependency
-- graph is the list of the edges out of each id (`dependency_graph[id]`); outside it there is none.
-- Locks and atomics are left out.
pub mod Partition
pub mod Ordered
pub mod Turn
pub mod Chunks
use prdcc.Base.{
  ℕ, zero, suc, ◌+◌, ◌-◌, ◌*◌, ◌/◌, ◌%◌, ◌^◌, Bool, true, false, not, ◌&&◌, ◌||◌, List, [], ◌∷◌,
  ◌++◌, length, get_or, any, replicate, ltb, leb, ◌==◌, if◌then◌else◌,
}
use prdcc.Prodcc.ConflictPredictor.{ConflictType, no_conflict, waw, raw, war}

pub record Edge : Type 0 where
  pub target : ℕ
  pub conflict : ConflictType

abbrev pub Graph : Type 0
Graph = List (List Edge)

-- The two tests of the loop over the neighbours.
unfoldable pub is_blocking : Bool → ConflictType → Bool
is_blocking reordering waw = true
is_blocking reordering raw = true
is_blocking reordering war = not reordering
is_blocking reordering no_conflict = false

unfoldable pub blocks : Bool → Graph → ℕ → ℕ → Bool
blocks reordering graph t_i t_j =
    any (λ edge. (edge.target == t_i) && is_blocking reordering edge.conflict) (get_or graph t_j [])

-- The loop over `current_mb`.
unfoldable pub should_postpone : Bool → Graph → ℕ → List ℕ → Bool
should_postpone reordering graph t_i current_mb =
    any (λ t_j. blocks reordering graph t_i t_j) current_mb

pub record Pass : Type 0 where
  pub current_mb : List ℕ
  pub postponed_txns : List ℕ

-- The loop over `remaining_txns`.
unfoldable pub pass : Bool → Graph → List ℕ → Pass → Pass
pass reordering graph [] s = s
pass reordering graph (t_i ∷ remaining_txns) s = pass reordering graph remaining_txns (
    if should_postpone reordering graph t_i s.current_mb
    then record s { postponed_txns = s.postponed_txns ++ t_i ∷ [] }
    else record s { current_mb = s.current_mb ++ t_i ∷ [] })

-- std::remove with the erase after it.
unfoldable pub remove : ℕ → List ℕ → List ℕ
remove t [] = []
remove t (x ∷ xs) = if x == t then remove t xs else x ∷ remove t xs

-- The branch for an empty micro block.
unfoldable pub repair : List ℕ → Pass → Pass
repair [] s = s
repair (t ∷ remaining_txns) s = elim s.current_mb [
  | [] ↦ record { current_mb = t ∷ []; postponed_txns = remove t s.postponed_txns }
  | ◌∷◌ x xs ↦ s
]

-- A micro block is added unless it is empty.
unfoldable pub add_block : List ℕ → List (List ℕ) → List (List ℕ)
add_block [] final_schedule = final_schedule
add_block (t ∷ mb) final_schedule = (t ∷ mb) ∷ final_schedule

-- The outer loop. Every turn schedules a transaction, so the number of transactions is enough fuel.
unfoldable pub partition_loop : ℕ → Bool → Graph → List ℕ → List (List ℕ)
partition_loop zero reordering graph remaining_txns = []
partition_loop (suc fuel) reordering graph [] = []
partition_loop (suc fuel) reordering graph (t ∷ ts) =
    let s =
      repair (t ∷ ts)
        (pass reordering graph (t ∷ ts) (record { current_mb = []; postponed_txns = [] })) in
    add_block s.current_mb (partition_loop fuel reordering graph s.postponed_txns)

unfoldable pub partition_into_micro_blocks : Bool → Graph → List ℕ → List (List ℕ)
partition_into_micro_blocks reordering graph txns =
    partition_loop (length txns) reordering graph txns

-- The first `n` transactions, and those after them.
unfoldable pub take_block : ℕ → List ℕ → List ℕ
take_block zero xs = []
take_block (suc n) [] = []
take_block (suc n) (x ∷ xs) = x ∷ take_block n xs

unfoldable pub drop_block : ℕ → List ℕ → List ℕ
drop_block zero xs = xs
drop_block (suc n) [] = []
drop_block (suc n) (x ∷ xs) = drop_block n xs

-- The loop of `partition_into_fixed_micro_blocks` from the transaction `i` on.
unfoldable pub fixed_loop : ℕ → ℕ → List ℕ → List (List ℕ)
fixed_loop zero micro_block_size txns = []
fixed_loop (suc fuel) micro_block_size [] = []
fixed_loop (suc fuel) micro_block_size (t ∷ txns) =
    take_block micro_block_size (t ∷ txns)
    ∷ fixed_loop fuel micro_block_size (drop_block micro_block_size (t ∷ txns))

unfoldable pub partition_into_fixed_micro_blocks : List ℕ → ℕ → List (List ℕ)
partition_into_fixed_micro_blocks txns zero = []
partition_into_fixed_micro_blocks txns (suc n) = fixed_loop (length txns) (suc n) txns

-- `pad_schedule_to_size`: the loop adds empty blocks up to the size.
unfoldable pub pad_schedule_to_size : List (List ℕ) → ℕ → List (List ℕ)
pad_schedule_to_size schedule target_size = schedule ++ replicate (target_size - length schedule) []
