-- ===== src/Calvin/Locks.antt =====
-- protocol/Calvin/CalvinTransaction.h, CalvinExecutor.h and Calvin.h: the locks of a transaction, as one lock
-- manager grants and releases them. A table, a partition and a key together are one number, the row; the bit
-- vector of a CalvinRWKey is its flags. `is_master` says of a row whether its partition is of this node, and
-- `mine` whether it is also of this lock manager.
pub mod Balance
use prdcc.Base.{
  ℕ, Bool, true, false, not, ◌&&◌, ◌||◌, List, [], ◌∷◌, Option, none, some, ◌>>=◌, any, ◌==◌,
  if◌then◌else◌,
}
use prdcc.Prodcc.Message.{store}
use prdcc.Calvin.Helper.{
  partition_id_to_lock_manager_id, await_read_lock, await_write_lock, release_read, release_write,
}

pub record CalvinKey : Type 0 where
  pub row : ℕ
  pub value : ℕ
  pub local_index_read : Bool
  pub read_lock : Bool
  pub write_lock : Bool

pub record CalvinTxn : Type 0 where
  pub abort_no_retry : Bool
  pub read_set : List CalvinKey
  pub write_set : List CalvinKey

-- The rows of a lock manager.
unfoldable pub manages : (ℕ → Bool) → (ℕ → ℕ) → ℕ → ℕ → ℕ → ℕ → Bool
manages is_master partition_of n_lock_manager replica_group_size lock_manager_id row =
    is_master row
    && (partition_id_to_lock_manager_id (partition_of row) n_lock_manager replica_group_size
        == lock_manager_id)

abbrev pub set_word : (ℕ → ℕ) → ℕ → Option ℕ → Option (ℕ → ℕ)
set_word words row none = none
set_word words row (some a) = some (store words row a)

module _ (mine : ℕ → Bool) where
  abbrev pub is_locked_here : CalvinKey → Bool
  is_locked_here k = mine k.row && not k.local_index_read

  -- The body of the loop over the keys in `schedule_transactions`; `none` while the row is locked, and for a key
  -- that asks for no lock, the failed CHECK.
  unfoldable pub grant_key : CalvinKey → (ℕ → ℕ) → Option (ℕ → ℕ)
  grant_key k words =
      if not (is_locked_here k)
      then some words
      else if k.write_lock
      then set_word words k.row (await_write_lock (words k.row))
      else if k.read_lock
      then set_word words k.row (await_read_lock (words k.row))
      else none

  -- `grant_lock` after the loop.
  unfoldable pub is_granted : CalvinTxn → Bool
  is_granted t = any is_locked_here t.read_set

  unfoldable pub release_read_key : CalvinKey → (ℕ → ℕ) → ℕ → ℕ
  release_read_key k words =
      if mine k.row && k.read_lock then store words k.row (release_read (words k.row)) else words

  unfoldable pub release_read_locks : List CalvinKey → (ℕ → ℕ) → ℕ → ℕ
  release_read_locks [] words = words
  release_read_locks (k ∷ ks) words = release_read_locks ks (release_read_key k words)

  unfoldable pub release_write_key : CalvinKey → (ℕ → ℕ) → ℕ → ℕ
  release_write_key k words =
      if mine k.row then store words k.row (release_write (words k.row)) else words

  unfoldable pub release_write_locks : List CalvinKey → (ℕ → ℕ) → ℕ → ℕ
  release_write_locks [] words = words
  release_write_locks (k ∷ ks) words = release_write_locks ks (release_write_key k words)

  unfoldable pub write_values : List CalvinKey → (ℕ → ℕ) → ℕ → ℕ
  write_values [] db = db
  write_values (k ∷ ks) db = write_values ks (if mine k.row then store db k.row k.value else db)

  -- `abort` and `commit`, on the lock words and the values of the node.
  unfoldable pub abort_locks : CalvinTxn → (ℕ → ℕ) → ℕ → ℕ
  abort_locks t words = release_read_locks t.read_set words

  unfoldable pub commit_locks : CalvinTxn → (ℕ → ℕ) × (ℕ → ℕ) → (ℕ → ℕ) × (ℕ → ℕ)
  commit_locks t (words, db) = (
    release_write_locks t.write_set (release_read_locks t.read_set words),
    write_values t.write_set db,
  )

-- The entry of this node in `active_coordinators`.
unfoldable pub is_active : (ℕ → Bool) → CalvinTxn → Bool
is_active is_master t =
    any (λ k. not k.local_index_read && (k.write_lock && is_master k.row)) t.read_set
