-- ===== src/Core/Partitioner.antt =====
-- core/Partitioner.h: which coordinators a partition stands on. A partitioner is the coordinator's id and
-- the number of coordinators; the CHECK of each constructor is a test. The class that the factory makes is
-- a constructor of `Partitioner`, and a virtual call is a match on it.
pub mod Replicas
use prdcc.Base.{
  ℕ, zero, suc, ◌+◌, ◌-◌, ◌*◌, ◌/◌, ◌%◌, Bool, true, false, ◌&&◌, ◌||◌, Option, none, some, ltb,
  leb, ◌==◌, if◌then◌else◌,
}

-- The classes; `hash` has the number of replicas, its template argument.
pub data Partitioner : Type 0 where
  hash : ℕ → Partitioner
  primary_backup star_s star_c : Partitioner

-- The CHECK of the constructor.
unfoldable pub is_allowed : Partitioner → ℕ → Bool
is_allowed (hash n) coordinator_num = ltb 0 n && leb n coordinator_num
is_allowed primary_backup coordinator_num = coordinator_num == 2
is_allowed star_s coordinator_num = leb 2 coordinator_num
is_allowed star_c coordinator_num = leb 2 coordinator_num

unfoldable pub replica_num : Partitioner → ℕ
replica_num (hash n) = n
replica_num primary_backup = 2
replica_num star_s = 2
replica_num star_c = 2

unfoldable pub is_replicated : Partitioner → Bool
is_replicated (hash n) = ltb 1 n
is_replicated primary_backup = true
is_replicated star_s = true
is_replicated star_c = true

unfoldable pub master_coordinator : Partitioner → ℕ → ℕ → ℕ
master_coordinator (hash n) coordinator_num partition_id = partition_id % coordinator_num
master_coordinator primary_backup coordinator_num partition_id = 0
master_coordinator star_s coordinator_num partition_id = partition_id % coordinator_num
master_coordinator star_c coordinator_num partition_id = 0

unfoldable pub has_master_partition : Partitioner → ℕ → ℕ → ℕ → Bool
has_master_partition (hash n) coordinator_num me partition_id =
    master_coordinator (hash n) coordinator_num partition_id == me
has_master_partition primary_backup coordinator_num me partition_id = me == 0
has_master_partition star_s coordinator_num me partition_id =
    master_coordinator star_s coordinator_num partition_id == me
has_master_partition star_c coordinator_num me partition_id = me == 0

-- `is_partition_replicated_on` of HashReplicatedPartitioner, from the first replica on.
unfoldable pub in_ring : ℕ → ℕ → ℕ → ℕ → Bool
in_ring first_replica n coordinator_num coordinator_id =
    let last_replica = (first_replica + n - 1) % coordinator_num in
    if leb first_replica last_replica
    then leb first_replica coordinator_id && leb coordinator_id last_replica
    else leb first_replica coordinator_id || leb coordinator_id last_replica

-- The second coordinator of StarSPartitioner.
unfoldable pub secondary : ℕ → ℕ → ℕ
secondary coordinator_num partition_id =
    if (partition_id % coordinator_num) == 0 then partition_id % (coordinator_num - 1) + 1 else 0

unfoldable pub is_partition_replicated_on : Partitioner → ℕ → ℕ → ℕ → Bool
is_partition_replicated_on (hash n) coordinator_num partition_id coordinator_id =
    in_ring (partition_id % coordinator_num) n coordinator_num coordinator_id
is_partition_replicated_on primary_backup coordinator_num partition_id coordinator_id = true
is_partition_replicated_on star_s coordinator_num partition_id coordinator_id =
    (coordinator_id == (partition_id % coordinator_num))
    || (coordinator_id == secondary coordinator_num partition_id)
is_partition_replicated_on star_c coordinator_num partition_id coordinator_id =
    if coordinator_id == 0
    then true
    else coordinator_id == (partition_id % (coordinator_num - 1) + 1)

unfoldable pub is_backup : Partitioner → ℕ → Bool
is_backup (hash n) me = false
is_backup primary_backup me = me == 1
is_backup star_s me = false
is_backup star_c me = if me == 0 then false else true
