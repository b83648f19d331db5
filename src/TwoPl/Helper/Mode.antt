-- ===== src/TwoPl/Helper/Mode.antt =====
-- protocol/TwoPL/TwoPLHelper.h: the lock that the word stands for, shared by some readers or held by one
-- writer, and the operations of the word as operations of that lock.
use prdcc.Base.{
  ℕ, zero, suc, ◌^◌, ◌<◌, ◌≡◌, true, false, Option, none, some, ◌==◌, arith, if◌then◌else◌,
}
use prdcc.TwoPl.Helper.{LockResult, read_lock, write_lock, read_lock_release, write_lock_release}
use prdcc.TwoPl.Helper.Fields.{
  lock_word, Fits, read_lock_num-lock_word, is_read_locked-lock_word, is_write_locked-lock_word,
  remove_lock_bit-lock_word,
}

-- No reader is `shared 0`.
pub data Mode : Type 0 where
  shared : ℕ → Mode
  exclusive : Mode

abbrev pub IsMode : Mode → Type 0
IsMode (shared n) = n < 2 ^ 9
IsMode exclusive = Unit

abbrev pub word_of : Mode → ℕ → ℕ
word_of (shared n) seq = lock_word 0 n seq
word_of exclusive seq = lock_word 1 0 seq

-- The lock as it should work: readers share it, at most 511 of them, and a writer has it alone.
abbrev pub acquire_shared : Mode → Option Mode
acquire_shared (shared n) = if n == 511 then none else some (shared (suc n))
acquire_shared exclusive = none

abbrev pub acquire_exclusive : Mode → Option Mode
acquire_exclusive (shared zero) = some exclusive
acquire_exclusive (shared (suc n)) = none
acquire_exclusive exclusive = none

abbrev pub release_shared : Mode → Option Mode
release_shared (shared zero) = none
release_shared (shared (suc n)) = some (shared n)
release_shared exclusive = none

abbrev pub release_exclusive : Mode → Option Mode
release_exclusive (shared n) = none
release_exclusive exclusive = some (shared 0)

-- What an attempt on the lock gives: the new lock, or a failure that leaves it as it was.
abbrev pub outcome : Mode → ℕ → Option Mode → LockResult
outcome m seq none = record { word = word_of m seq; tid = seq; success = false }
outcome m seq (some m') = record { word = word_of m' seq; tid = seq; success = true }

shared-Fits : (n seq : ℕ) → n < 2 ^ 9 → seq < 2 ^ 54 → Fits 0 n seq
shared-Fits n seq h hs = omega arith

pub exclusive-Fits : (seq : ℕ) → seq < 2 ^ 54 → Fits 1 0 seq
exclusive-Fits seq hs = omega arith

-- `read_lock` on the word of a lock is a shared acquisition: the word of the new lock, or failure and the
-- same word; the sequence number is returned and kept.
pub read_lock-acquire_shared :
    (m : Mode) (seq : ℕ)
    → IsMode m
    → seq < 2 ^ 54
    → read_lock (word_of m seq) ≡ outcome m seq (acquire_shared m)
unfolding read_lock
read_lock-acquire_shared (shared n) seq h hs =
    let f = shared-Fits n seq h hs in
    ground
      (arith, is_write_locked-lock_word f, read_lock_num-lock_word f, remove_lock_bit-lock_word f)
read_lock-acquire_shared exclusive seq h hs =
    let f = exclusive-Fits seq hs in
    ground
      (arith, is_write_locked-lock_word f, read_lock_num-lock_word f, remove_lock_bit-lock_word f)

-- `write_lock` on the word of a lock, with no other change between its load and its exchange, is an
-- exclusive acquisition.
pub write_lock-acquire_exclusive :
    (m : Mode) (seq : ℕ)
    → IsMode m
    → seq < 2 ^ 54
    → write_lock (word_of m seq) (word_of m seq) ≡ outcome m seq (acquire_exclusive m)
unfolding write_lock
write_lock-acquire_exclusive (shared zero) seq h hs =
    let f = shared-Fits 0 seq h hs in
    ground
      (arith, is_write_locked-lock_word f, is_read_locked-lock_word f, remove_lock_bit-lock_word f)
write_lock-acquire_exclusive (shared (suc n)) seq h hs =
    let f = shared-Fits (suc n) seq h hs in
    ground
      (arith, is_write_locked-lock_word f, is_read_locked-lock_word f, remove_lock_bit-lock_word f)
write_lock-acquire_exclusive exclusive seq h hs =
    let f = exclusive-Fits seq hs in
    ground
      (arith, is_write_locked-lock_word f, is_read_locked-lock_word f, remove_lock_bit-lock_word f)

pub read_lock_release-release_shared :
    (n seq : ℕ)
    → suc n < 2 ^ 9
    → seq < 2 ^ 54
    → read_lock_release (word_of (shared (suc n)) seq) ≡ word_of (shared n) seq
unfolding read_lock_release
read_lock_release-release_shared n seq h hs = omega arith

pub write_lock_release-release_exclusive :
    (seq : ℕ) → seq < 2 ^ 54 → write_lock_release (word_of exclusive seq) ≡ word_of (shared 0) seq
unfolding write_lock_release
write_lock_release-release_exclusive seq hs = omega arith

-- A write lock that was loaded from another word than that of the exchange is not taken, and the word stays.
pub write_lock-ne :
    (seen a : ℕ)
    → (a == seen) ≡ false
    → ((write_lock seen a).success ≡ false) × ((write_lock seen a).word ≡ a)
unfolding write_lock
write_lock-ne seen a h = ground arith
