-- ===== src/Examples/Locks.antt =====
-- protocol/TwoPL: a transaction that reads row 5 and updates row 6, both of this node; and node 0 of three
-- with two copies of each partition.
use prdcc.Base.{
  ℕ, ◌+◌, ◌%◌, ◌^◌, ◌<◌, ◌≡◌, refl, Bool, true, false, [], ◌∷◌, some, ◌==◌, arith, if◌then◌else◌,
  get_elem?, length, ◌*◌, All, ◌≤◌, In,
}
use prdcc.Core.Partitioner.{hash, is_allowed, replica_num}
use prdcc.Prodcc.Message.{dec64}
use prdcc.TwoPl.Helper.{is_write_locked, read_lock_num, read_lock, write_lock_release_to}
use prdcc.TwoPl.Helper.Mode.{shared, exclusive, word_of}
use prdcc.TwoPl.Helper.Calls.{Row, Step, read_tried, here, next}
use prdcc.TwoPl.Helper.Exclusion.{IsExclusive, Reach-IsExclusive}
use prdcc.TwoPl.Helper.Stuck.{
  asks_read, asks_write, waits_write, attempts, write_lock_release_to-spurious,
}
use prdcc.TwoPl.Transaction.{LockKey, LockTxn, new_key, process_requests}
use prdcc.TwoPl.Transaction.Balance.{locks, held}
use prdcc.TwoPl.Commit.{Node, abort_keys, release_lock, generate_tid, write_and_replicate}
use prdcc.TwoPl.Commit.Release.{
  process_requests-abort, released, read_held, release_lock-words, generate_tid-least,
}
use prdcc.TwoPl.Commit.Replicas.{hosted, write_and_replicate-replica_num}
use prdcc.TwoPl.Message.{Tables, lock_request_handler, handle_response}
use prdcc.TwoPl.Message.Remote.{lock_request-response}

-- A row that client 7 read-locked and let go.
abbrev row_free : Row
row_free = record { word = word_of (shared 0) 3; readers = []; writers = [] }

abbrev row_read : Row
row_read = record { word = word_of (shared 1) 3; readers = 7 ∷ []; writers = [] }

locked_once : Step row_free row_read
unfolding read_lock is_write_locked read_lock_num
locked_once = read_tried 7 refl

Reach-IsExclusive_example : IsExclusive row_read
Reach-IsExclusive_example = Reach-IsExclusive 3 row_read (omega arith) (next here locked_once)

write_lock_release_to-spurious_example :
    attempts
      (asks_read ∷ asks_write 3 ∷ waits_write ∷ [])
      (write_lock_release_to true (word_of exclusive 3) 4)
    ≡ (word_of exclusive 3, false)
write_lock_release_to-spurious_example =
    write_lock_release_to-spurious 3 4 (asks_read ∷ asks_write 3 ∷ waits_write ∷ []) (omega arith)

abbrev mine : ℕ → Bool
mine row = true

abbrev key_five : LockKey
key_five = record (new_key 5 0) { read_lock_request = true }

abbrev key_six : LockKey
key_six = record (new_key 6 0) { write_lock_request = true }

abbrev txn : LockTxn
txn = record {
  pending_responses = 0;
  abort_lock = false;
  distributed_transaction = false;
  execution_phase = true;
  read_set = key_five ∷ key_six ∷ [];
  write_set = [];
}

abbrev words : ℕ → ℕ
words row = 9

abbrev db : ℕ → ℕ
db row = 1

abbrev node : Node
node = record { words = words; db = db; out = []; pending_responses = 0 }

process_requests-abort_example :
    let (t', words', out) = process_requests mine txn words db in
    ((abort_keys mine t'.read_set (record node { words = words' })).words 6
        + held mine 6 txn.read_set)
      % 2 ^ 64
    ≡ words 6 % 2 ^ 64
process_requests-abort_example =
    process_requests-abort mine txn words db 6 node ((omega arith, refl), ((omega arith, refl), tt))

abbrev txn_locked : LockTxn
txn_locked = record txn {
  read_set =
      record (new_key 5 0) { read_lock_bit = true }
      ∷ record (new_key 6 0) { write_lock_bit = true; tid = 9 }
      ∷ [];
  write_set = new_key 6 44 ∷ [];
}

-- The weak exchange does not fail.
abbrev no_failure : ℕ → Bool
no_failure i = false

release_lock-words_example :
    let word = (release_lock mine no_failure txn_locked 10 node).words 6 in
    if released mine no_failure 6 0 txn_locked.write_set
    then word ≡ 10
    else (word + read_held mine 6 txn_locked.read_set) % 2 ^ 64 ≡ node.words 6 % 2 ^ 64
release_lock-words_example = release_lock-words mine no_failure txn_locked 10 6 node

generate_tid-least_example :
    ((k : LockKey) → In k txn_locked.read_set → k.tid < generate_tid txn_locked 7)
    × (7 < generate_tid txn_locked 7)
    × ((tid : ℕ)
        → 7 < tid
        → All (λ k. k.tid < tid) txn_locked.read_set
        → generate_tid txn_locked 7 ≤ tid)
generate_tid-least_example = generate_tid-least txn_locked 7

write_and_replicate-replica_num_example :
    (write_and_replicate (hash 2) 3 0 (λ row. row) 10 txn_locked.write_set node).pending_responses
      + hosted (hash 2) 3 0 (λ row. row) txn_locked.write_set
    ≡ node.pending_responses + replica_num (hash 2) * length txn_locked.write_set
unfolding is_allowed
write_and_replicate-replica_num_example =
    write_and_replicate-replica_num (hash 2) 3 0 (λ row. row) 10 txn_locked.write_set node refl
      (omega arith)

abbrev tables : Tables
tables = record { words = words; db = db }

lock_request-response_example :
    let (s', r) = lock_request_handler true 6 1 tables in
    (t' : LockTxn) × (k' : LockKey) × (handle_response r txn ≡ some t')
    × (get_elem? t'.read_set 1 ≡ some k')
    × ((s'.words 6) % 2 ^ 64 ≡ (tables.words 6 + locks k') % 2 ^ 64)
    × (t'.abort_lock ≡ (if locks k' == 0 then true else txn.abort_lock))
    × (t'.pending_responses ≡ dec64 txn.pending_responses)
lock_request-response_example = lock_request-response true 6 1 tables txn key_six refl refl
