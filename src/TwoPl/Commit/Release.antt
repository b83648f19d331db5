-- ===== src/TwoPl/Commit/Release.antt =====
-- protocol/TwoPL/TwoPL.h: the lock words of this node after the abort and after the commit of a transaction,
-- and its commit tid.
use prdcc.Base.{
  ℕ, ◌+◌, ◌%◌, ◌^◌, ◌≤◌, ◌<◌, ◌≡◌, refl, ap, Bool, false, not, ◌&&◌, ◌||◌, ◌==◌, arith, List, [],
  ◌∷◌, All, if◌then◌else◌, Bool-cases, inl, inr, max, In,
}
use prdcc.TwoPl.Helper.{read_lock_release, write_lock_release, write_lock_release_to}
use prdcc.TwoPl.Transaction.{LockKey, LockTxn, Locking, process_requests, lock_keys}
use prdcc.TwoPl.Transaction.Balance.{IsSingle, held, lock_keys-held}
use prdcc.TwoPl.Commit.{
  Node, abort_read_lock, abort_write_lock, abort_keys, release_read_lock, release_read_locks,
  release_write_lock, release_write_locks, release_lock, largest_tid, generate_tid,
}

module _ (is_master : ℕ → Bool) where
  abbrev one : ℕ → ℕ → ℕ → Bool → ℕ
  one row r unit bit = if is_master r && r == row then (if bit then unit else 0) else 0

  abort_read_lock-words :
      (row : ℕ) (k : LockKey) (s : Node)
      → ((abort_read_lock is_master k s).words row + one row k.row (2 ^ 54) k.read_lock_bit)
          % 2 ^ 64
        ≡ s.words row % 2 ^ 64
  unfolding abort_read_lock read_lock_release
  abort_read_lock-words row k s = ground (arith, ap s.words)

  abort_write_lock-words :
      (row : ℕ) (k : LockKey) (s : Node)
      → ((abort_write_lock is_master k s).words row + one row k.row (2 ^ 63) k.write_lock_bit)
          % 2 ^ 64
        ≡ s.words row % 2 ^ 64
  unfolding abort_write_lock write_lock_release
  abort_write_lock-words row k s = ground (arith, ap s.words)

  -- The locks are taken off the words.
  abort_keys-held :
      (row : ℕ) (ks : List LockKey) (s : Node)
      → ((abort_keys is_master ks s).words row + held is_master row ks) % 2 ^ 64
        ≡ s.words row % 2 ^ 64
  unfolding abort_keys held
  abort_keys-held row [] s = omega arith
  abort_keys-held row (k ∷ ks) s =
      let s1 = abort_read_lock is_master k s in
      let s2 = abort_write_lock is_master k s1 in
      ground (
        arith,
        abort_keys-held row ks s2,
        abort_write_lock-words row k s1,
        abort_read_lock-words row k s,
      )

  -- `process_requests` and then `abort` put every lock word of this node back: a word is again as it was
  -- before the requests, less the locks of it that the keys held already. It is so for keys that hold or
  -- ask for one lock at most each, and for no write lock through a local index.
  pub process_requests-abort :
      (t : LockTxn) (words db : ℕ → ℕ) (row : ℕ) (s : Node)
      → All IsSingle t.read_set
      → let (t', words', out) = process_requests is_master t words db in
        ((abort_keys is_master t'.read_set (record s { words = words' })).words row
            + held is_master row t.read_set)
          % 2 ^ 64
        ≡ words row % 2 ^ 64
  unfolding process_requests
  process_requests-abort t words db row s single =
      let start : Locking = record {
        words = words;
        db = db;
        out = [];
        abort_lock = t.abort_lock;
        distributed_transaction = t.distributed_transaction;
      } in
      let (ks, s', go) = lock_keys is_master 0 t.read_set start in
      omega (
        arith,
        lock_keys-held is_master row 0 t.read_set start single,
        abort_keys-held row ks (record s { words = s'.words }),
      )

  -- The read locks of the key list on a row of this node.
  unfoldable pub read_held : ℕ → List LockKey → ℕ
  read_held row [] = 0
  read_held row (k ∷ ks) = one row k.row (2 ^ 54) k.read_lock_bit + read_held row ks

  abbrev pub writes : ℕ → LockKey → Bool
  writes row k = is_master k.row && k.row == row

  release_read_lock-words :
      (row : ℕ) (k : LockKey) (s : Node)
      → ((release_read_lock is_master k s).words row + one row k.row (2 ^ 54) k.read_lock_bit)
          % 2 ^ 64
        ≡ s.words row % 2 ^ 64
  unfolding release_read_lock read_lock_release
  release_read_lock-words row k s = ground (arith, ap s.words)

  release_read_locks-read_held :
      (row : ℕ) (ks : List LockKey) (s : Node)
      → ((release_read_locks is_master ks s).words row + read_held row ks) % 2 ^ 64
        ≡ s.words row % 2 ^ 64
  unfolding release_read_locks read_held
  release_read_locks-read_held row [] s = omega arith
  release_read_locks-read_held row (k ∷ ks) s = ground (
    arith,
    release_read_locks-read_held row ks (release_read_lock is_master k s),
    release_read_lock-words row k s,
  )

  -- A release of the write lock of the row goes through, for one of the keys from position `i` on.
  unfoldable pub released : (ℕ → Bool) → ℕ → ℕ → List LockKey → Bool
  released spurious row i [] = false
  released spurious row i (k ∷ ks) =
      (writes row k && not (spurious i)) || released spurious row (i + 1) ks

  release_write_lock-words :
      (spurious : Bool) (row commit_tid : ℕ) (k : LockKey) (s : Node)
      → (release_write_lock is_master spurious commit_tid k s).words row
        ≡ (if writes row k && not spurious then commit_tid else s.words row)
  unfolding release_write_lock write_lock_release_to
  release_write_lock-words spurious row tid k s = ground (arith, ap s.words)

  release_write_locks-words :
      (spurious : ℕ → Bool) (row i commit_tid : ℕ) (ks : List LockKey) (s : Node)
      → (release_write_locks is_master spurious i commit_tid ks s).words row
        ≡ (if released spurious row i ks then commit_tid else s.words row)
  unfolding release_write_locks released
  release_write_locks-words spurious row i tid [] s = refl
  release_write_locks-words spurious row i tid (k ∷ ks) s = ground (
    arith,
    release_write_locks-words spurious row (i + 1) tid ks
        (release_write_lock is_master (spurious i) tid k s),
    release_write_lock-words (spurious i) row tid k s,
  )

  -- After the release of a commit, the word of a row of this node is the commit tid, with no lock in it, when the
  -- transaction wrote the row and the weak exchange of a release of it did not fail for no reason; any other word
  -- has lost the read locks that the keys held on it, and nothing else.
  pub release_lock-words :
      (spurious : ℕ → Bool) (t : LockTxn) (commit_tid row : ℕ) (s : Node)
      → let word = (release_lock is_master spurious t commit_tid s).words row in
        if released spurious row 0 t.write_set
        then word ≡ commit_tid
        else (word + read_held row t.read_set) % 2 ^ 64 ≡ s.words row % 2 ^ 64
  unfolding release_lock
  release_lock-words spurious t tid row s =
      let s' = release_read_locks is_master t.read_set s in
      let e = release_write_locks-words spurious row 0 tid t.write_set s' in
      elim (Bool-cases (released spurious row 0 t.write_set)) [
        | inl w ↦ rw w (rw w at e)
        | inr n ↦ rw n (omega (arith, rw n at e, release_read_locks-read_held row t.read_set s))
      ]

largest_tid-le : (next : ℕ) (ks : List LockKey) → next ≤ largest_tid next ks
unfolding largest_tid
largest_tid-le next [] = omega arith
largest_tid-le next (k ∷ ks) = omega (arith, largest_tid-le (max next k.tid) ks)

largest_tid-In :
    (next : ℕ) (ks : List LockKey) (k : LockKey) → In k ks → k.tid ≤ largest_tid next ks
unfolding largest_tid
largest_tid-In next [] k m = absurd m
largest_tid-In next (x ∷ xs) k (inl e) =
    omega (arith, largest_tid-le (max next x.tid) xs, ap (λ (y : LockKey). y.tid) e)
largest_tid-In next (x ∷ xs) k (inr m) = largest_tid-In (max next x.tid) xs k m

largest_tid-least :
    (next tid : ℕ) (ks : List LockKey)
    → next < tid
    → All (λ k. k.tid < tid) ks
    → largest_tid next ks < tid
unfolding largest_tid
largest_tid-least next tid [] h a = h
largest_tid-least next tid (k ∷ ks) h a =
    largest_tid-least (max next k.tid) tid ks (omega (arith, h, a.0)) a.1

-- The commit tid is larger than the tid of everything that the transaction read and than the worker's last
-- one, and it is the least such number.
pub generate_tid-least :
    (t : LockTxn) (max_tid : ℕ)
    → ((k : LockKey) → In k t.read_set → k.tid < generate_tid t max_tid)
      × (max_tid < generate_tid t max_tid)
      × ((tid : ℕ)
          → max_tid < tid
          → All (λ k. k.tid < tid) t.read_set
          → generate_tid t max_tid ≤ tid)
unfolding generate_tid
generate_tid-least t max_tid = (
  λ k m. omega (arith, largest_tid-In 0 t.read_set k m),
  omega arith,
  λ tid h a. omega (arith, h, largest_tid-least 0 tid t.read_set (omega (arith, h)) a),
)
