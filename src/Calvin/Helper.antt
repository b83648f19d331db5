-- ===== src/Calvin/Helper.antt =====
-- protocol/Calvin/CalvinHelper.h and CalvinExecutor.h: which lock manager a partition and a worker belong to, and
-- the locks, which wait. The lock word and its fields are those of TwoPl/Helper, which the source copies. A DCHECK
-- is left out.
pub mod Workers
use prdcc.Base.{
  ℕ, ◌+◌, ◌-◌, ◌*◌, ◌/◌, ◌%◌, ◌^◌, Bool, ◌||◌, List, Option, none, some, get_elem?, ltb, ◌==◌,
  if◌then◌else◌,
}
use prdcc.Aria.Helper.{shl64}
use prdcc.TwoPl.Helper.{
  is_read_locked, is_write_locked, read_lock_num, read_lock_max, read_lock_bit_offset,
  write_lock_bit_offset, write_lock_bit_mask,
}

-- `none` is a failed CHECK.
unfoldable pub n_lock_manager : ℕ → List ℕ → Option ℕ
n_lock_manager replica_group_id lock_managers = get_elem? lock_managers replica_group_id

unfoldable pub worker_id_to_lock_manager_id : ℕ → ℕ → ℕ → ℕ
worker_id_to_lock_manager_id id n_lock_manager n_worker =
    if ltb id n_lock_manager then id else (id - n_lock_manager) / (n_worker / n_lock_manager)

unfoldable pub partition_id_to_lock_manager_id : ℕ → ℕ → ℕ → ℕ
partition_id_to_lock_manager_id partition_id n_lock_manager replica_group_size =
    partition_id / replica_group_size % n_lock_manager

unfoldable pub get_available_worker : ℕ → ℕ → ℕ → ℕ → ℕ
get_available_worker n_lock_manager n_workers id request_id =
    request_id % (n_workers / n_lock_manager) + (n_lock_manager + n_workers / n_lock_manager * id)

-- One turn of the loop, `none` while the word is locked.
unfoldable pub await_read_lock : ℕ → Option ℕ
await_read_lock a =
    if is_write_locked a || read_lock_num a == read_lock_max
    then none
    else some ((a + shl64 1 read_lock_bit_offset) % 2 ^ 64)

unfoldable pub await_write_lock : ℕ → Option ℕ
await_write_lock a =
    if is_read_locked a || is_write_locked a
    then none
    else some ((a + shl64 write_lock_bit_mask write_lock_bit_offset) % 2 ^ 64)

unfoldable pub release_read : ℕ → ℕ
release_read a = (a + (2 ^ 64 - shl64 1 read_lock_bit_offset)) % 2 ^ 64

unfoldable pub release_write : ℕ → ℕ
release_write a = (a + (2 ^ 64 - shl64 1 write_lock_bit_offset)) % 2 ^ 64
