-- ===== src/Calvin/Partitioner.antt =====
-- protocol/Calvin/CalvinPartitioner.h: the replica groups of the coordinators, and the partitions of a
-- coordinator in its group.
pub mod Groups
use prdcc.Base.{
  ℕ, suc, ◌+◌, ◌-◌, ◌%◌, ◌^◌, Bool, false, Option, none, some, List, [], ◌∷◌, ltb, ◌==◌,
  if◌then◌else◌,
}

-- The fields of the class.
pub record Group : Type 0 where
  pub replica_group_id : ℕ
  pub replica_group_size : ℕ
  pub coordinator_start_id : ℕ

-- The loop of the constructor from the group `i` on, of which `size` coordinators come before: `none` is a
-- failed CHECK, and `some none` a coordinator behind the last group, whose fields are not set.
-- The groups together have fewer than 2 ^ 64 coordinators, so that `size` does not wrap.
unfoldable pub find_group : ℕ → ℕ → ℕ → List ℕ → Option (Option Group)
find_group coordinator_id i size [] = some none
find_group coordinator_id i size (n ∷ sizes) =
    let rest = find_group coordinator_id (suc i) (size + n) sizes in
    if ltb 0 n
    then if ltb coordinator_id (size + n)
      then some (
          some record {
            replica_group_id = i;
            replica_group_size = n;
            coordinator_start_id = size + n - n;
          })
      else rest
    else none

-- `std::accumulate` of the sizes; the sum has the type of its 0u.
unfoldable pub accumulate : ℕ → List ℕ → ℕ
accumulate sum [] = sum
accumulate sum (n ∷ sizes) = accumulate ((sum + n) % 2 ^ 32) sizes

-- The constructor.
unfoldable pub calvin_partitioner : ℕ → ℕ → List ℕ → Option (Option Group)
calvin_partitioner coordinator_id coordinator_num sizes =
    let found = find_group coordinator_id 0 0 sizes in
    if accumulate 0 sizes == coordinator_num then found else none

unfoldable pub replica_num : Group → ℕ
replica_num g = g.replica_group_size

unfoldable pub is_replicated : Bool
is_replicated = false

unfoldable pub master_coordinator : Group → ℕ → ℕ
master_coordinator g partition_id = partition_id % g.replica_group_size + g.coordinator_start_id

unfoldable pub has_master_partition : Group → ℕ → ℕ → Bool
has_master_partition g coordinator_id partition_id =
    master_coordinator g partition_id == coordinator_id

unfoldable pub is_partition_replicated_on : ℕ → ℕ → Bool
is_partition_replicated_on partition_id coordinator_id = false

unfoldable pub is_backup : Bool
is_backup = false
