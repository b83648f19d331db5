-- ===== src/Bohm/Partitioner.antt =====
-- protocol/Bohm/BohmPartitioner.h: the partitions of a coordinator, and those of a worker.
use prdcc.Base.{ℕ, ◌%◌, Bool, false, ◌&&◌, ltb, ◌==◌}
use prdcc.Bohm.Helper.{partition_id_to_worker_id}

-- The CHECK of the constructor.
unfoldable pub is_constructed : ℕ → ℕ → Bool
is_constructed coordinator_id coordinator_num = ltb coordinator_id coordinator_num

unfoldable pub replica_num : ℕ
replica_num = 1

unfoldable pub is_replicated : Bool
is_replicated = false

unfoldable pub master_coordinator : ℕ → ℕ → ℕ
master_coordinator coordinator_num partition_id = partition_id % coordinator_num

unfoldable pub has_master_partition : ℕ → ℕ → ℕ → Bool
has_master_partition coordinator_num coordinator_id partition_id =
    master_coordinator coordinator_num partition_id == coordinator_id

unfoldable pub is_partition_replicated_on : ℕ → ℕ → Bool
is_partition_replicated_on partition_id coordinator_id = false

unfoldable pub is_backup : Bool
is_backup = false

-- The test of `insert_write_sets`: the partition is of this node and of this worker.
unfoldable pub inserts : ℕ → ℕ → ℕ → ℕ → ℕ → Bool
inserts worker_num coordinator_num coordinator_id id partition_id =
    has_master_partition coordinator_num coordinator_id partition_id
    && (partition_id_to_worker_id partition_id worker_num coordinator_num == id)
