-- ===== src/Examples/Layout.antt =====
-- core/Partitioner.h and protocol/Prodcc/KeyConverter.h on small inputs.
use prdcc.Base.{◌≤◌, ◌<◌, ◌≡◌, refl, arith}
use prdcc.Core.Partitioner.{hash, is_allowed, replica_num, is_partition_replicated_on}
use prdcc.Core.Partitioner.Replicas.{hosts, hosts-replica_num}
use prdcc.Prodcc.KeyConverter.{TpccLayout, order_line, to_uint64}
use prdcc.Prodcc.KeyConverter.Disjoint.{base_of, end_of, to_uint64-bounds}

-- Three replicas of partition 6 on four coordinators: the ring wraps.
hosts-replica_num_example : hosts (is_partition_replicated_on (hash 3) 4 6) 4 ≡ replica_num (hash 3)
unfolding is_allowed
hosts-replica_num_example = hosts-replica_num (hash 3) 4 6 refl

abbrev layout : TpccLayout
layout = record { warehouse_count = 4; districts_per_warehouse = 10 }

to_uint64-bounds_example :
    (base_of layout (order_line 4 10 3001 15) ≤ to_uint64 layout (order_line 4 10 3001 15))
    × (to_uint64 layout (order_line 4 10 3001 15) < end_of layout (order_line 4 10 3001 15))
to_uint64-bounds_example =
    to_uint64-bounds layout (order_line 4 10 3001 15) (omega arith) (omega arith)
