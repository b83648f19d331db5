-- ===== src/TwoPl/Helper.antt =====
-- protocol/TwoPL/TwoPLHelper.h: the lock word of a row,
-- [ write lock bit (1) | read lock bits (9) | seq id (54) ]. A DCHECK is left out. A loop round a
-- compare-exchange ends with one update of the word that it loaded last; a strong compare-exchange that is not in a
-- loop has the word that was loaded, `seen`, beside the word at the exchange, `a`.
pub mod Fields
pub mod Mode
pub mod Calls
pub mod Exclusion
pub mod Stuck
use prdcc.Base.{
  ℕ, ◌+◌, ◌-◌, ◌%◌, ◌^◌, bit_and, Bool, true, false, not, ◌||◌, Option, none, some, ◌==◌,
  if◌then◌else◌,
}
use prdcc.Base.Bits.{◌<<<◌, ◌>>>◌}
use prdcc.Aria.Helper.{not64, shl64}

abbrev pub lock_bit_offset : ℕ
lock_bit_offset = 54

abbrev pub lock_bit_mask : ℕ
lock_bit_mask = 0x3ff

abbrev pub read_lock_bit_offset : ℕ
read_lock_bit_offset = 54

abbrev pub read_lock_bit_mask : ℕ
read_lock_bit_mask = 0x1ff

abbrev pub write_lock_bit_offset : ℕ
write_lock_bit_offset = 63

abbrev pub write_lock_bit_mask : ℕ
write_lock_bit_mask = 0x1

unfoldable pub is_read_locked : ℕ → Bool
is_read_locked value = not (bit_and value (shl64 read_lock_bit_mask read_lock_bit_offset) == 0)

unfoldable pub is_write_locked : ℕ → Bool
is_write_locked value = not (bit_and value (shl64 write_lock_bit_mask write_lock_bit_offset) == 0)

unfoldable pub read_lock_num : ℕ → ℕ
read_lock_num value = bit_and (value >>> read_lock_bit_offset) read_lock_bit_mask

abbrev pub read_lock_max : ℕ
read_lock_max = read_lock_bit_mask

unfoldable pub remove_lock_bit : ℕ → ℕ
remove_lock_bit value = bit_and value (not64 (shl64 lock_bit_mask lock_bit_offset))

-- What a lock function leaves in the word, what it returns, and whether it took the lock.
pub record LockResult : Type 0 where
  pub word : ℕ
  pub tid : ℕ
  pub success : Bool

unfoldable pub read_lock : ℕ → LockResult
read_lock a =
    if is_write_locked a || read_lock_num a == read_lock_max
    then record { word = a; tid = remove_lock_bit a; success = false }
    else record {
      word = (a + shl64 1 read_lock_bit_offset) % 2 ^ 64;
      tid = remove_lock_bit a;
      success = true;
    }

unfoldable pub write_lock : ℕ → ℕ → LockResult
write_lock seen a =
    if is_read_locked seen || is_write_locked seen
    then record { word = a; tid = remove_lock_bit seen; success = false }
    else if a == seen
    then record {
      word = (seen + shl64 write_lock_bit_mask write_lock_bit_offset) % 2 ^ 64;
      tid = remove_lock_bit seen;
      success = true;
    }
    else record { word = a; tid = remove_lock_bit a; success = false }

-- The overload that waits: one turn of it, `none` while the word is locked.
unfoldable pub write_lock_wait : ℕ → Option LockResult
write_lock_wait a =
    if is_read_locked a || is_write_locked a
    then none
    else some (record {
      word = (a + shl64 write_lock_bit_mask write_lock_bit_offset) % 2 ^ 64;
      tid = remove_lock_bit a;
      success = true;
    })

unfoldable pub read_lock_release : ℕ → ℕ
read_lock_release a = (a + (2 ^ 64 - shl64 1 read_lock_bit_offset)) % 2 ^ 64

unfoldable pub write_lock_release : ℕ → ℕ
write_lock_release a = (a + (2 ^ 64 - shl64 1 write_lock_bit_offset)) % 2 ^ 64

-- The overload with a new value. Its compare-exchange is the weak one, which may fail for no reason.
unfoldable pub write_lock_release_to : Bool → ℕ → ℕ → ℕ
write_lock_release_to spurious a new_value = if spurious then a else new_value
