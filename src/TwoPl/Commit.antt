-- ===== src/TwoPl/Commit.antt =====
-- protocol/TwoPL/TwoPL.h: commit and abort of a transaction. The waits of `sync_messages` are left out: they
-- take the responses, which only count.
pub mod Release
pub mod Replicas
use prdcc.Base.{
  ℕ, ◌+◌, Bool, true, false, not, ◌&&◌, List, [], ◌∷◌, ◌++◌, max, ◌==◌, if◌then◌else◌, Option, none,
  some, zero, suc,
}
use prdcc.Prodcc.Message.{store}
use prdcc.Core.Partitioner.{
  Partitioner, is_partition_replicated_on, master_coordinator, has_master_partition,
}
use prdcc.TwoPl.Helper.{read_lock_release, write_lock_release, write_lock_release_to}
use prdcc.TwoPl.Transaction.{
  LockKey, LockTxn, LockMessage, abort_request, write_request, replication_request,
  release_read_lock_request, release_write_lock_request,
}

-- The node's lock words and values, the messages, oldest first, and `pendingResponses`.
pub record Node : Type 0 where
  pub words : ℕ → ℕ
  pub db : ℕ → ℕ
  pub out : List LockMessage
  pub pending_responses : ℕ

abbrev pub send : LockMessage → Node → Node
send m s = record s { out = s.out ++ m ∷ [] }

abbrev pub send_waiting : LockMessage → Node → Node
send_waiting m s = record s { out = s.out ++ m ∷ []; pending_responses = s.pending_responses + 1 }

module _ (is_master : ℕ → Bool) where
  unfoldable pub abort_read_lock : LockKey → Node → Node
  abort_read_lock k s =
      if k.read_lock_bit
      then (if is_master k.row
          then record s { words = store s.words k.row (read_lock_release (s.words k.row)) }
          else send (abort_request k.row false) s)
      else s

  unfoldable pub abort_write_lock : LockKey → Node → Node
  abort_write_lock k s =
      if k.write_lock_bit
      then (if is_master k.row
          then record s { words = store s.words k.row (write_lock_release (s.words k.row)) }
          else send (abort_request k.row true) s)
      else s

  -- The loop of `abort` over the read set.
  unfoldable pub abort_keys : List LockKey → Node → Node
  abort_keys [] s = s
  abort_keys (k ∷ ks) s = abort_keys ks (abort_write_lock k (abort_read_lock k s))

  -- The two loops of `release_lock` and their bodies. `spurious` says of a position of the write
  -- set whether the weak exchange of its release fails for no reason.
  unfoldable pub release_read_lock : LockKey → Node → Node
  release_read_lock k s =
      if k.read_lock_bit
      then (if is_master k.row
          then record s { words = store s.words k.row (read_lock_release (s.words k.row)) }
          else send_waiting (release_read_lock_request k.row) s)
      else s

  unfoldable pub release_read_locks : List LockKey → Node → Node
  release_read_locks [] s = s
  release_read_locks (k ∷ ks) s = release_read_locks ks (release_read_lock k s)

  unfoldable pub release_write_lock : Bool → ℕ → LockKey → Node → Node
  release_write_lock spurious commit_tid k s =
      if is_master k.row
      then record s {
        db = store s.db k.row k.value;
        words = store s.words k.row (write_lock_release_to spurious (s.words k.row) commit_tid);
      }
      else send_waiting (release_write_lock_request k.row commit_tid) s

  unfoldable pub release_write_locks : (ℕ → Bool) → ℕ → ℕ → List LockKey → Node → Node
  release_write_locks spurious i commit_tid [] s = s
  release_write_locks spurious i commit_tid (k ∷ ks) s =
      release_write_locks spurious (i + 1) commit_tid ks
        (release_write_lock (spurious i) commit_tid k s)

  unfoldable pub release_lock : (ℕ → Bool) → LockTxn → ℕ → Node → Node
  release_lock spurious t commit_tid s =
      release_write_locks spurious 0 commit_tid t.write_set (release_read_locks t.read_set s)

-- The loop of `generate_tid` over the read set, and its new `max_tid`, which is the tid.
unfoldable pub largest_tid : ℕ → List LockKey → ℕ
largest_tid next_tid [] = next_tid
largest_tid next_tid (k ∷ ks) = largest_tid (max next_tid k.tid) ks

unfoldable pub generate_tid : LockTxn → ℕ → ℕ
generate_tid t max_tid = max (largest_tid 0 t.read_set) max_tid + 1

-- Replication, by the coordinator `me` of the `coordinator_num`.
module _ (p : Partitioner) (coordinator_num me : ℕ) (partition_of : ℕ → ℕ) where
  -- The test of the loop over the coordinators: `k` has a copy that is not the master's.
  unfoldable pub is_copy : ℕ → ℕ → Bool
  is_copy partition k =
      is_partition_replicated_on p coordinator_num partition k
      && not (k == master_coordinator p coordinator_num partition)

  unfoldable pub replicate_to : ℕ → LockKey → ℕ → Node → Node
  replicate_to commit_tid key k s =
      if is_copy (partition_of key.row) k
      then (if k == me
          then record s { db = store s.db key.row key.value }
          else send_waiting (replication_request k key.row key.value commit_tid) s)
      else s

  -- The loop from coordinator `k` on, over `count` of them.
  unfoldable pub replicate_loop : ℕ → LockKey → ℕ → ℕ → Node → Node
  replicate_loop commit_tid key k zero s = s
  replicate_loop commit_tid key k (suc count) s =
      replicate_loop commit_tid key (k + 1) count (replicate_to commit_tid key k s)

  unfoldable pub write_key : LockKey → Node → Node
  write_key key s =
      if has_master_partition p coordinator_num me (partition_of key.row)
      then record s { db = store s.db key.row key.value }
      else send_waiting (write_request key.row key.value) s

  unfoldable pub write_and_replicate : ℕ → List LockKey → Node → Node
  write_and_replicate commit_tid [] s = s
  write_and_replicate commit_tid (key ∷ ks) s =
      write_and_replicate commit_tid ks
        (replicate_loop commit_tid key 0 coordinator_num (write_key key s))

  -- `commit`: whether it committed, the node, and `max_tid`.
  unfoldable pub commit : (ℕ → Bool) → LockTxn → ℕ → Node → Bool × Node × ℕ
  commit spurious t max_tid s =
      let is_master = λ (row : ℕ). has_master_partition p coordinator_num me (partition_of row) in
      if t.abort_lock
      then (false, abort_keys is_master t.read_set s, max_tid)
      else let commit_tid = generate_tid t max_tid in
        (
          true,
          release_lock is_master spurious t commit_tid
              (write_and_replicate commit_tid t.write_set s),
          commit_tid,
        )
