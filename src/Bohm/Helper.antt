-- ===== src/Bohm/Helper.antt =====
-- protocol/Bohm/BohmHelper.h: the transaction id of a position in an epoch, the placeholder of a version and the
-- worker of a partition.
pub mod Order
use prdcc.Base.{ℕ, ◌-◌, ◌/◌, ◌%◌, ◌^◌, bit_and, bit_or, Bool, ◌==◌}
use prdcc.Base.Bits.{◌>>>◌}
use prdcc.Aria.Helper.{not64, shl64}

abbrev pub epoch_offset : ℕ
epoch_offset = 32

abbrev pub epoch_mask : ℕ
epoch_mask = 0xfffffffffff

abbrev pub pos_offset : ℕ
pos_offset = 0

abbrev pub pos_mask : ℕ
pos_mask = 0xffffff

unfoldable pub is_placeholder_ready : ℕ → Bool
is_placeholder_ready a = a == 0

unfoldable pub partition_id_to_worker_id : ℕ → ℕ → ℕ → ℕ
partition_id_to_worker_id partition_id n_worker n_coordinator =
    partition_id / n_coordinator % n_worker

unfoldable pub get_epoch : ℕ → ℕ
get_epoch value = bit_and (value >>> epoch_offset) epoch_mask

unfoldable pub set_epoch : ℕ → ℕ → ℕ
set_epoch value epoch =
    bit_or (bit_and value (not64 (shl64 epoch_mask epoch_offset))) (shl64 epoch epoch_offset)

unfoldable pub get_pos : ℕ → ℕ
get_pos value = bit_and (value >>> pos_offset) pos_mask

unfoldable pub set_pos : ℕ → ℕ → ℕ
set_pos value pos =
    bit_or (bit_and value (not64 (shl64 pos_mask pos_offset))) (shl64 pos pos_offset)

unfoldable pub get_tid : ℕ → ℕ → ℕ
get_tid epoch pos = bit_or (shl64 epoch epoch_offset) pos
