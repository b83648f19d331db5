-- ===== src/Examples/Granting.antt =====
-- protocol/Calvin: two transactions that both want row 5, of which the first has its locks; a worker of the second
-- of two lock managers; and a node of the second of two replica groups.
use prdcc.Base.{
  ℕ, ◌+◌, ◌*◌, ◌≤◌, ◌<◌, ◌≡◌, refl, ◌↔◌, Bool, true, false, some, List, [], ◌∷◌, arith,
}
use mathlib.Core.Bool.{false≢true}
use prdcc.TwoPl.Helper.{is_read_locked, is_write_locked, read_lock_num}
use prdcc.Calvin.Helper.{worker_id_to_lock_manager_id, get_available_worker}
use prdcc.Calvin.Helper.Workers.{get_available_worker-worker_id_to_lock_manager_id}
use prdcc.Calvin.Partitioner.{Group, calvin_partitioner, has_master_partition}
use prdcc.Calvin.Partitioner.Groups.{AllPositive, calvin_partitioner-has_master_partition}
use prdcc.Calvin.Locks.{CalvinKey, CalvinTxn}
use prdcc.Calvin.Manager.{Item, Move, grants, grant, moves, begin}
use prdcc.Calvin.Manager.Invariant.{IsOrderly}
use prdcc.Calvin.Manager.Progress.{IsFree}
use prdcc.Calvin.Manager.Drained.{mine, moves-finish}

abbrev key : ℕ → Bool → Bool → CalvinKey
key row r w = record {
  row = row;
  value = 1;
  local_index_read = false;
  read_lock = r;
  write_lock = w;
}

-- The first writes row 5, and the second reads it and writes row 6.
abbrev first : CalvinTxn
first = record {
  abort_no_retry = false;
  read_set = key 5 false true ∷ [];
  write_set = key 5 false false ∷ [];
}

abbrev second : CalvinTxn
second = record {
  abort_no_retry = false;
  read_set = key 5 true false ∷ key 6 false true ∷ [];
  write_set = key 6 false false ∷ [];
}

free : (row : ℕ) → IsFree 0
unfolding is_read_locked is_write_locked read_lock_num
free row = (omega arith, refl, refl, refl)

false_index : (false ≡ true) → (k : CalvinKey) → (k.read_lock ≡ false) × (k.write_lock ≡ false)
false_index e k = absurd (false≢true e)

first-IsOrderly : IsOrderly first
first-IsOrderly =
    (((((λ e. false_index e (key 5 false true)), λ e. refl), tt), λ row. ground arith), (refl, tt))

second-IsOrderly : IsOrderly second
second-IsOrderly = (
  (
    (
      ((λ e. false_index e (key 5 true false)), λ e. refl),
      (((λ e. false_index e (key 6 false true)), λ e. refl), tt),
    ),
    λ row. ground arith,
  ),
  (refl, (refl, tt)),
)

abbrev all_mine : ℕ → Bool
all_mine row = true

abbrev no_locks : ℕ → ℕ
no_locks row = 0

-- The third grant is of row 5 to the second transaction, and waits.
abbrev steps : List Move
steps = grants ∷ grants ∷ grants ∷ []

moves-finish_example :
    let m = mine all_mine (λ row. row) 1 1 0 no_locks no_locks (first ∷ second ∷ []) in
    let s = moves all_mine m steps (begin no_locks no_locks (first ∷ second ∷ [])) in
    ((item : Item) (rest : List Item)
      → s.running ≡ []
      → s.items ≡ item ∷ rest
      → (grant all_mine m s).items ≡ rest)
    × ((more : List Move) × ((moves all_mine m more s).items ≡ [])
        × ((moves all_mine m more s).running ≡ [])
        × ((row : ℕ) → (moves all_mine m more s).words row ≡ 0))
moves-finish_example =
    moves-finish all_mine (λ row. row) 1 1 0 no_locks no_locks (first ∷ second ∷ []) steps free
      (first-IsOrderly, (second-IsOrderly, tt))

get_available_worker-worker_id_to_lock_manager_id_example :
    let worker = get_available_worker 2 (2 * 2) 1 3 in
    (2 ≤ worker) × (worker < 2 + 2 * 2) × (worker_id_to_lock_manager_id worker 2 (2 * 2) ≡ 1)
get_available_worker-worker_id_to_lock_manager_id_example =
    get_available_worker-worker_id_to_lock_manager_id 2 2 1 3 (omega arith) (omega arith)

two_and_three-AllPositive : AllPositive (2 ∷ 3 ∷ [])
unfolding AllPositive
two_and_three-AllPositive = (omega arith, (omega arith, omega arith))

-- The second node of the second group, of two and of three nodes.
calvin_partitioner-has_master_partition_example :
    (g : Group) × (calvin_partitioner 3 5 (2 ∷ 3 ∷ []) ≡ some (some g))
    × ((p : ℕ)
        → (m : ℕ) × (m < 5)
          × (calvin_partitioner m 5 (2 ∷ 3 ∷ []) ≡ some (some g))
          × ((d : ℕ) → (has_master_partition g d p ≡ true) ↔ (d ≡ m)))
calvin_partitioner-has_master_partition_example =
    calvin_partitioner-has_master_partition 3 5 (2 ∷ 3 ∷ []) two_and_three-AllPositive (omega arith)
      (omega arith) (omega arith)
