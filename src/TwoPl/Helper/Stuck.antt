-- ===== src/TwoPl/Helper/Stuck.antt =====
-- protocol/TwoPL/TwoPLHelper.h: what the attempts to lock a row find after a commit's release whose weak exchange
-- failed for no reason.
use prdcc.Base.{
  ℕ, ◌^◌, ◌<◌, ◌≡◌, refl, ap, ap₂, inl, inr, subst, Bool, true, false, ◌||◌, List, [], ◌∷◌, ◌==◌,
  ==_iff, none, some, Option, arith, Bool-cases,
}
use prdcc.TwoPl.Helper.{LockResult, read_lock, write_lock, write_lock_wait, write_lock_release_to}
use prdcc.TwoPl.Helper.Mode.{
  exclusive, word_of, exclusive-Fits, read_lock-acquire_shared, write_lock-acquire_exclusive,
  write_lock-ne,
}
use prdcc.TwoPl.Helper.Fields.{is_write_locked-lock_word}

-- The calls that ask for a lock: the write lock of a client that loaded `seen` at some time before, and a turn
-- of the one that waits.
pub data Attempt : Type 0 where
  asks_read : Attempt
  asks_write : (seen : ℕ) → Attempt
  waits_write : Attempt

-- The word after an attempt, and whether it took the lock.
abbrev pub taken : LockResult → ℕ × Bool
taken r = (r.word, r.success)

abbrev pub waited : ℕ → Option LockResult → ℕ × Bool
waited word none = (word, false)
waited word (some r) = taken r

unfoldable pub attempt : Attempt → ℕ → ℕ × Bool
attempt asks_read word = taken (read_lock word)
attempt (asks_write seen) word = taken (write_lock seen word)
attempt waits_write word = waited word (write_lock_wait word)

-- The word after a sequence of them, and whether one took a lock.
unfoldable pub attempts : List Attempt → ℕ → ℕ × Bool
attempts [] word = (word, false)
attempts (a ∷ rest) word =
    let (word1, success) = attempt a word in
    let (word2, later) = attempts rest word1 in (word2, success || later)

locked-attempt :
    (seq : ℕ) (a : Attempt)
    → seq < 2 ^ 54
    → attempt a (word_of exclusive seq) ≡ (word_of exclusive seq, false)
unfolding attempt write_lock_wait
locked-attempt seq asks_read small = ap taken (read_lock-acquire_shared exclusive seq tt small)
locked-attempt seq (asks_write seen) small = elim (Bool-cases (word_of exclusive seq == seen)) [
  | inl e ↦
      subst (λ k. taken (write_lock k (word_of exclusive seq)) ≡ (word_of exclusive seq, false))
        ((==_iff (word_of exclusive seq) seen).0 e)
        (ap taken (write_lock-acquire_exclusive exclusive seq tt small))
  | inr e ↦ let n = write_lock-ne seen (word_of exclusive seq) e in ap₂ (λ w b. (w, b)) n.1 n.0
]
locked-attempt seq waits_write small =
    let f = exclusive-Fits seq small in ground (arith, is_write_locked-lock_word f)

-- A release whose weak exchange fails for no reason leaves the row locked for good: in every sequence of
-- attempts to lock it for reading or writing, with any earlier word loaded, and of turns of the write lock that
-- waits, none takes the lock, and the word stays as it is.
pub write_lock_release_to-spurious :
    (seq commit_tid : ℕ) (later : List Attempt)
    → seq < 2 ^ 54
    → attempts later (write_lock_release_to true (word_of exclusive seq) commit_tid)
      ≡ (word_of exclusive seq, false)
unfolding write_lock_release_to attempts
write_lock_release_to-spurious seq tid [] small = refl
write_lock_release_to-spurious seq tid (a ∷ rest) small =
    rw (locked-attempt seq a small) (write_lock_release_to-spurious seq tid rest small)
