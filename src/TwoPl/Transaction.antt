-- ===== src/TwoPl/Transaction.antt =====
-- protocol/TwoPL/TwoPLTransaction.h and TwoPLExecutor.h: the locks that a transaction asks for. A table, a
-- partition and a key together are one number, the row; `is_master` says of a row whether this node is the
-- master of its partition. The bit vector of a TwoPLRWKey is its flags. `network_size`, the timers and the
-- SQL emulation are left out. A write lock is tried with no change of the word in between (the other
-- interleavings of one row are those of TwoPl.Helper.Exclusion).
pub mod Balance
use prdcc.Base.{
  ℕ, ◌+◌, ◌%◌, ◌^◌, Bool, true, false, not, ◌&&◌, ◌||◌, List, [], ◌∷◌, ◌++◌, if◌then◌else◌,
}
use prdcc.Prodcc.Transaction.{u32}
use prdcc.Prodcc.Message.{store}
use prdcc.TwoPl.Helper.{LockResult, read_lock, write_lock, remove_lock_bit}

pub record LockKey : Type 0 where
  pub row : ℕ
  pub value : ℕ
  pub tid : ℕ
  pub local_index_read : Bool
  pub read_lock_request : Bool
  pub write_lock_request : Bool
  pub read_lock_bit : Bool
  pub write_lock_bit : Bool

pub record LockTxn : Type 0 where
  pub pending_responses : ℕ
  pub abort_lock : Bool
  pub distributed_transaction : Bool
  pub execution_phase : Bool
  pub read_set : List LockKey
  pub write_set : List LockKey

-- The messages to other nodes.
pub data LockMessage : Type 0 where
  read_lock_request write_lock_request : (row key_offset : ℕ) → LockMessage
  abort_request : (row : ℕ) (write_lock : Bool) → LockMessage
  write_request : (row value : ℕ) → LockMessage
  replication_request : (coordinator row value commit_tid : ℕ) → LockMessage
  release_read_lock_request : (row : ℕ) → LockMessage
  release_write_lock_request : (row commit_tid : ℕ) → LockMessage

unfoldable pub reset_locks : LockTxn → LockTxn
reset_locks t = record t {
  pending_responses = 0;
  abort_lock = false;
  distributed_transaction = false;
  execution_phase = true;
  read_set = [];
  write_set = [];
}

abbrev pub new_key : ℕ → ℕ → LockKey
new_key row value = record {
  row = row;
  value = value;
  tid = 0;
  local_index_read = false;
  read_lock_request = false;
  write_lock_request = false;
  read_lock_bit = false;
  write_lock_bit = false;
}

-- `pendingResponses++` for a row of another node.
abbrev pub awaiting : (ℕ → Bool) → ℕ → LockTxn → LockTxn
awaiting is_master row t =
    if is_master row then t else record t { pending_responses = t.pending_responses + 1 }

abbrev pub add_to_read_set : LockKey → LockTxn → LockTxn
add_to_read_set k t = record t { read_set = t.read_set ++ k ∷ [] }

unfoldable pub search_local_index : ℕ → LockTxn → LockTxn
search_local_index row t =
    add_to_read_set (record (new_key row 0) { local_index_read = true; read_lock_request = true }) t

unfoldable pub search_for_read : (ℕ → Bool) → ℕ → LockTxn → LockTxn
search_for_read is_master row t =
    add_to_read_set (record (new_key row 0) { read_lock_request = true }) (awaiting is_master row t)

unfoldable pub search_for_update : (ℕ → Bool) → ℕ → LockTxn → LockTxn
search_for_update is_master row t =
    add_to_read_set (record (new_key row 0) { write_lock_request = true })
      (awaiting is_master row t)

unfoldable pub update : ℕ → ℕ → LockTxn → LockTxn
update row value t = record t { write_set = t.write_set ++ new_key row value ∷ [] }

-- What the requests work on: the lock words and the values of this node, the messages, oldest first, and
-- two flags of the transaction.
pub record Locking : Type 0 where
  pub words : ℕ → ℕ
  pub db : ℕ → ℕ
  pub out : List LockMessage
  pub abort_lock : Bool
  pub distributed_transaction : Bool

-- The lock function that the handler calls on a row of this node.
unfoldable pub try_lock : Bool → ℕ → LockResult
try_lock for_write a = if for_write then write_lock a a else read_lock a

-- A key whose row was locked and read, without its requests.
unfoldable pub locked_key : LockKey → ℕ → ℕ → LockKey
locked_key k tid value = record k {
  tid = tid;
  value = value;
  read_lock_bit = (k.read_lock_request && not k.local_index_read) || k.read_lock_bit;
  write_lock_bit = k.write_lock_request || k.write_lock_bit;
  read_lock_request = false;
  write_lock_request = false;
}

abbrev pub served_key : LockKey → LockKey
served_key k = record k { read_lock_request = false; write_lock_request = false }

module _ (is_master : ℕ → Bool) where
  -- A row of this node: `lock_request_handler`, and what the loop does with its result.
  unfoldable pub lock_here : LockKey → Locking → LockKey × Locking
  lock_here k s =
      let r = try_lock k.write_lock_request (s.words k.row) in
      if r.success
      then (
        locked_key k (remove_lock_bit r.word) (s.db k.row),
        record s { words = store s.words k.row r.word },
      )
      else (served_key k, record s { words = store s.words k.row r.word; abort_lock = true })

  -- A row of another node.
  unfoldable pub ask_there : ℕ → LockKey → Locking → LockKey × Locking
  ask_there key_offset k s = (
    served_key k,
    record s {
      out =
          s.out
          ++ (if k.write_lock_request
              then write_lock_request k.row (u32 key_offset)
              else read_lock_request k.row (u32 key_offset))
            ∷ [];
      distributed_transaction = true;
    },
  )

  -- The body of the loop for the key at `key_offset`.
  unfoldable pub lock_key : ℕ → LockKey → Locking → LockKey × Locking
  lock_key key_offset k s =
      if k.local_index_read
      then (locked_key k (remove_lock_bit (s.words k.row)) (s.db k.row), s)
      else if is_master k.row
      then lock_here k s
      else ask_there key_offset k s

  -- The loop of `process_requests`, from the last key to the first. It stops, with `false`, at a key with no
  -- request.
  unfoldable pub lock_keys : ℕ → List LockKey → Locking → List LockKey × Locking × Bool
  lock_keys key_offset [] s = ([], s, true)
  lock_keys key_offset (k ∷ ks) s =
      let (ks', s', go) = lock_keys (key_offset + 1) ks s in
      let (k', s'') = lock_key key_offset k s' in
      if not go
      then (k ∷ ks', s', false)
      else if not k.read_lock_request && not k.write_lock_request
      then (k ∷ ks', s', false)
      else (k' ∷ ks', s'', true)

  -- `process_requests`, up to the wait for the responses.
  unfoldable pub process_requests :
      LockTxn → (ℕ → ℕ) → (ℕ → ℕ) → LockTxn × (ℕ → ℕ) × List LockMessage
  process_requests t words db =
      let (ks, s, go) = lock_keys 0 t.read_set (record {
        words = words;
        db = db;
        out = [];
        abort_lock = t.abort_lock;
        distributed_transaction = t.distributed_transaction;
      }) in
      (
        record t {
          read_set = ks;
          abort_lock = s.abort_lock;
          distributed_transaction = s.distributed_transaction;
        },
        s.words,
        s.out,
      )
