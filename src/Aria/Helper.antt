-- ===== src/Aria/Helper.antt =====
-- protocol/Aria/AriaHelper.h: the 64-bit metadata word of a row,
-- [ epoch (24) | read-rts (20) | write-wts (20) ], and the two reservations on it.
use prdcc.Base.{
  ℕ, ◌-◌, ◌%◌, ◌^◌, bit_and, bit_or, Bool, true, false, not, ◌&&◌, Option, none, some, ltb, leb,
  ◌==◌, if◌then◌else◌,
}
use prdcc.Base.Bits.{◌<<<◌, ◌>>>◌}

-- `~x` on uint64_t.
abbrev pub not64 : ℕ → ℕ
not64 x = 2 ^ 64 - 1 - x

-- `x << k` on uint64_t.
abbrev pub shl64 : ℕ → ℕ → ℕ
shl64 x k = (x <<< k) % 2 ^ 64

abbrev pub epoch_offset : ℕ
epoch_offset = 40

abbrev pub epoch_mask : ℕ
epoch_mask = 0xffffff

abbrev pub rts_offset : ℕ
rts_offset = 20

abbrev pub rts_mask : ℕ
rts_mask = 0xfffff

abbrev pub wts_offset : ℕ
wts_offset = 0

abbrev pub wts_mask : ℕ
wts_mask = 0xfffff

unfoldable pub get_epoch : ℕ → ℕ
get_epoch value = bit_and (value >>> epoch_offset) epoch_mask

unfoldable pub set_epoch : ℕ → ℕ → ℕ
set_epoch value epoch =
    bit_or (bit_and value (not64 (shl64 epoch_mask epoch_offset))) (shl64 epoch epoch_offset)

unfoldable pub get_rts : ℕ → ℕ
get_rts value = bit_and (value >>> rts_offset) rts_mask

unfoldable pub set_rts : ℕ → ℕ → ℕ
set_rts value rts =
    bit_or (bit_and value (not64 (shl64 rts_mask rts_offset))) (shl64 rts rts_offset)

unfoldable pub get_wts : ℕ → ℕ
get_wts value = bit_and (value >>> wts_offset) wts_mask

unfoldable pub set_wts : ℕ → ℕ → ℕ
set_wts value wts =
    bit_or (bit_and value (not64 (shl64 wts_mask wts_offset))) (shl64 wts wts_offset)

-- One reservation, as an update of the word. `none` is a failed `CHECK`, which ends the process;
-- otherwise the result says whether the word was changed, and what it is now. The loop round the
-- compare-exchange repeats the body until no other thread wrote in between, so a call that returns
-- is one such update of the word that it last loaded.
unfoldable pub reserve_read : ℕ → ℕ → ℕ → Option (Bool × ℕ)
reserve_read a epoch tid =
    if not (leb (get_epoch a) epoch)
    then none
    else if ltb (get_epoch a) epoch
    then some (true, set_rts (set_epoch 0 epoch) tid)
    else if ltb (get_rts a) tid && not (get_rts a == 0)
    then some (false, a)
    else some (true, set_rts a tid)

unfoldable pub reserve_write : ℕ → ℕ → ℕ → Option (Bool × ℕ)
reserve_write a epoch tid =
    if not (leb (get_epoch a) epoch)
    then none
    else if ltb (get_epoch a) epoch
    then some (true, set_wts (set_epoch 0 epoch) tid)
    else if ltb (get_wts a) tid && not (get_wts a == 0)
    then some (false, a)
    else some (true, set_wts a tid)
