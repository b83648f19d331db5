-- ===== src/Bohm/Transaction.antt =====
-- protocol/Bohm/BohmTransaction.h and BohmRWKey.h: the state of a transaction. A table, a partition and a key
-- together are one number, the row; `is_master` says of a row whether this node is the master of its partition.
-- A value is a number. The bit vector of a BohmRWKey is its flags. `network_size`, `startTime` and the SQL
-- emulation are left out. An int32_t is its 32-bit word.
use prdcc.Base.{ℕ, ◌+◌, Bool, true, false, not, List, [], ◌∷◌, ◌++◌, map, if◌then◌else◌}
use prdcc.Prodcc.Transaction.{u32, is_empty}
use prdcc.Bohm.Helper.{get_tid}

pub record BohmKey : Type 0 where
  pub row : ℕ
  pub value : ℕ
  pub local_index_read : Bool
  pub read_request : Bool
  pub prepare_processed : Bool
  pub execution_processed : Bool

pub record BohmTxn : Type 0 where
  pub id : ℕ
  pub tid_offset : ℕ
  pub epoch : ℕ
  pub pending_responses : ℕ
  pub local_read : ℕ
  pub remote_read : ℕ
  pub saved_local_read : ℕ
  pub saved_remote_read : ℕ
  pub abort_read_not_ready : Bool
  pub abort_no_retry : Bool
  pub distributed_transaction : Bool
  pub execution_phase : Bool
  pub read_set : List BohmKey
  pub write_set : List BohmKey

unfoldable pub reset_txn : BohmTxn → BohmTxn
reset_txn t = record t {
  local_read = 0;
  saved_local_read = 0;
  remote_read = 0;
  saved_remote_read = 0;
  abort_read_not_ready = false;
  abort_no_retry = false;
  distributed_transaction = false;
  execution_phase = false;
  pending_responses = 0;
  read_set = [];
  write_set = [];
}

abbrev pub bohm_key : ℕ → ℕ → BohmKey
bohm_key row value = record {
  row = row;
  value = value;
  local_index_read = false;
  read_request = false;
  prepare_processed = false;
  execution_processed = false;
}

unfoldable pub add_read : BohmKey → BohmTxn → BohmTxn
add_read k t = record t { read_set = t.read_set ++ k ∷ [] }

unfoldable pub add_write : BohmKey → BohmTxn → BohmTxn
add_write k t = record t { write_set = t.write_set ++ k ∷ [] }

unfoldable pub search_index : ℕ → ℕ → BohmTxn → BohmTxn
search_index row value t =
    if t.execution_phase
    then t
    else add_read (record (bohm_key row value) { local_index_read = true; read_request = true }) t

unfoldable pub search_read : ℕ → ℕ → BohmTxn → BohmTxn
search_read row value t =
    if t.execution_phase
    then t
    else add_read (record (bohm_key row value) { read_request = true }) t

unfoldable pub search_update : ℕ → ℕ → BohmTxn → BohmTxn
search_update row value t =
    if t.execution_phase
    then t
    else add_read (record (bohm_key row value) { read_request = true }) t

unfoldable pub update_key : ℕ → ℕ → BohmTxn → BohmTxn
update_key row value t = if t.execution_phase then t else add_write (bohm_key row value) t

unfoldable pub set_id : ℕ → ℕ → BohmTxn → BohmTxn
set_id epoch tid_offset t = record t {
  epoch = epoch;
  tid_offset = tid_offset;
  id = get_tid epoch tid_offset;
}

-- The keys and the two counters.
pub record Preparing : Type 0 where
  pub local_read : ℕ
  pub remote_read : ℕ

module _ (is_master : ℕ → Bool) (index : ℕ → ℕ) where
  -- The body of the loop for a key: a read of an index, `index`, or a count.
  unfoldable pub prepare_key : BohmKey → Preparing → BohmKey × Preparing
  prepare_key k c =
      if k.local_index_read
      then (record k { value = index k.row; prepare_processed = true }, c)
      else if is_master k.row
      then (record k { prepare_processed = true }, record c { local_read = u32 (c.local_read + 1) })
      else (
        record k { prepare_processed = true },
        record c { remote_read = u32 (c.remote_read + 1) },
      )

  -- From the last key to the first; it stops, with `false`, at a key that was processed.
  unfoldable pub prepare_keys : List BohmKey → Preparing → List BohmKey × Preparing × Bool
  prepare_keys [] c = ([], c, true)
  prepare_keys (k ∷ ks) c =
      let (ks', c', go) = prepare_keys ks c in
      let (k', c'') = prepare_key k c' in
      if not go
      then (k ∷ ks', c', false)
      else if k.prepare_processed
      then (k ∷ ks', c', false)
      else (k' ∷ ks', c'', true)

  -- `process_requests` of the prepare phase.
  unfoldable pub prepare_requests : BohmTxn → BohmTxn
  prepare_requests t =
      let (ks, c, go) =
        prepare_keys t.read_set
          (record { local_read = t.local_read; remote_read = t.remote_read }) in
      record t { read_set = ks; local_read = c.local_read; remote_read = c.remote_read }

unfoldable pub save_read_count : BohmTxn → BohmTxn
save_read_count t = record t { saved_local_read = t.local_read; saved_remote_read = t.remote_read }

unfoldable pub load_read_count : BohmTxn → BohmTxn
load_read_count t = record t { local_read = t.saved_local_read; remote_read = t.saved_remote_read }

unfoldable pub clear_execution_bit : BohmTxn → BohmTxn
clear_execution_bit t = record t {
  read_set =
      map (λ k. if k.local_index_read then k else record k { execution_processed = false })
        t.read_set;
}

unfoldable pub is_read_only : BohmTxn → Bool
is_read_only t = is_empty t.write_set
