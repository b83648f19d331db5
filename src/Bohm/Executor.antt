-- ===== src/Bohm/Executor.antt =====
-- protocol/Bohm/BohmExecutor.h, BohmTransaction.h and Bohm.h: the placeholders of a batch, the reads and the
-- commit of a transaction, and the loops of a worker. The program of a transaction, `execute`, is given (a
-- virtual function); in the execution it is the values that it writes, in terms of those that it reads. Delays,
-- statistics and the signals between the phases are left out.
pub mod Reuse
pub mod Between
use prdcc.Base.{
  ℕ, ◌+◌, ◌*◌, ◌%◌, ◌^◌, Bool, true, false, ◌||◌, not, List, [], ◌∷◌, ◌++◌, map, Option, none, some,
  ◌>>=◌, get_elem?, set, if◌then◌else◌,
}
use prdcc.Core.MvccTable.{
  Cell, MvccTable, search_prev, search_metadata, insert, update, set_metadata, garbage_collect,
}
use prdcc.Prodcc.Transaction.{u32}
use prdcc.Prodcc.Finalize.{TransactionResult, abort_noretry}
use prdcc.Prodcc.Worker.{worker_slots}
use prdcc.Bohm.Helper.{is_placeholder_ready}
use prdcc.Bohm.Transaction.{
  BohmKey, BohmTxn, set_id, save_read_count, load_read_count, clear_execution_bit,
}
use prdcc.Bohm.Message.{BohmMessage, read_request, write_request}

module _ (execute : BohmTxn → BohmTxn × TransactionResult) (same_batch : Bool) where
  -- `execute` is run with the handlers of the prepare phase.
  unfoldable pub prepare_transaction : BohmTxn → BohmTxn
  prepare_transaction t =
      let (t', result) = execute t in
      let marked : BohmTxn = elim result [
        | abort_noretry ↦ record t' { abort_no_retry = true }
        | _ ↦ t'
      ] in
      record (if same_batch then save_read_count marked else marked) { execution_phase = true }

  -- The body of the loop of `generate_transactions`, where `next` is a new transaction.
  unfoldable pub generate_slot : Bool → ℕ → ℕ → BohmTxn → BohmTxn → BohmTxn
  generate_slot init_transaction epoch i next t = set_id epoch i (
      if not same_batch || not init_transaction
      then prepare_transaction next
      else clear_execution_bit (load_read_count t))

-- The loops of `insert_write_sets`: `mine` are the rows whose partition is of this node and this worker. `none`
-- is a failed CHECK.
module _ (mine : ℕ → Bool) where
  unfoldable pub insert_keys : ℕ → List BohmKey → MvccTable → Option MvccTable
  insert_keys tid [] table = some table
  insert_keys tid (k ∷ ks) table =
      (if mine k.row then insert table k.row k.value tid else some table) >>= insert_keys tid ks

  unfoldable pub insert_write_sets : List BohmTxn → MvccTable → Option MvccTable
  insert_write_sets [] table = some table
  insert_write_sets (t ∷ ts) table =
      (if t.abort_no_retry then some table else insert_keys t.id t.write_set table)
      >>= insert_write_sets ts

-- What the reads of a transaction change but its keys; the messages are those sent, oldest first.
pub record Reads : Type 0 where
  pub out : List BohmMessage
  pub pending_responses : ℕ
  pub abort_read_not_ready : Bool
  pub distributed_transaction : Bool

abbrev pub awaited : BohmMessage → Reads → Reads
awaited message s = record s {
  out = s.out ++ message ∷ [];
  pending_responses = (s.pending_responses + 1) % 2 ^ 64;
  distributed_transaction = true;
}

module _ (is_master : ℕ → Bool) (single_spin : Bool) where
  -- A read of this node. `none` is the access to a version that is not there, or the wait for a placeholder
  -- under `bohm_single_spin`.
  unfoldable pub read_here : MvccTable → ℕ → BohmKey → Reads → Option (BohmKey × Reads)
  read_here table tid k s = elim (search_prev table k.row tid) [
    | none ↦ none
    | some c ↦
        if is_placeholder_ready c.placeholder
        then some (record k { value = c.value; read_request = false }, s)
        else if single_spin
        then none
        else some (k, record s { abort_read_not_ready = true })
  ]

  -- `read_handler`.
  unfoldable pub read_handler : MvccTable → ℕ → ℕ → BohmKey → Reads → Option (BohmKey × Reads)
  read_handler table tid key_offset k s =
      if is_master k.row || k.local_index_read
      then read_here table tid k s
      else some (k, awaited (read_request k.row (u32 key_offset) tid) s)

  -- The body of the loop: a key that was read is left out.
  unfoldable pub read_key : MvccTable → ℕ → ℕ → BohmKey → Reads → Option (BohmKey × Reads)
  read_key table tid key_offset k s =
      if not k.read_request then some (k, s) else read_handler table tid key_offset k s

  -- The loop, from the last key to the first.
  unfoldable pub read_keys :
      MvccTable → ℕ → ℕ → List BohmKey → Reads → Option (List BohmKey × Reads)
  read_keys table tid key_offset [] s = some ([], s)
  read_keys table tid key_offset (k ∷ ks) s =
      read_keys table tid (key_offset + 1) ks s >>= λ (ks', s').
      read_key table tid key_offset k s' >>= λ (k', s''). some (k' ∷ ks', s'')

  -- `process_requests` of the execution phase, up to the wait for the responses.
  unfoldable pub process_requests : BohmTxn → MvccTable → Option (BohmTxn × List BohmMessage)
  process_requests t table =
      read_keys table t.id 0 t.read_set (record {
        out = [];
        pending_responses = t.pending_responses;
        abort_read_not_ready = t.abort_read_not_ready;
        distributed_transaction = t.distributed_transaction;
      })
      >>= λ (ks, s). some (
        record t {
          read_set = ks;
          pending_responses = s.pending_responses;
          abort_read_not_ready = s.abort_read_not_ready;
          distributed_transaction = s.distributed_transaction;
        },
        s.out,
      )

module _ (is_master : ℕ → Bool) where
  -- The body of the loop of `commit`; `none` is a failed CHECK.
  unfoldable pub commit_key :
      ℕ → BohmKey → MvccTable × List BohmMessage → Option (MvccTable × List BohmMessage)
  commit_key tid k (table, out) =
      let here = search_metadata table k.row tid >>= λ placeholder.
      if is_placeholder_ready placeholder
      then none
      else update table k.row k.value tid >>= λ s.
          set_metadata s k.row tid 0 >>= λ s'. some (s', out) in
      if is_master k.row then here else some (table, out ++ write_request k.row k.value tid ∷ [])

  unfoldable pub commit :
      ℕ → List BohmKey → MvccTable × List BohmMessage → Option (MvccTable × List BohmMessage)
  commit tid [] s = some s
  commit tid (k ∷ ks) s = commit_key tid k s >>= commit tid ks

unfoldable pub abort : BohmTxn → BohmTxn
abort t = record (clear_execution_bit (load_read_count t)) { abort_read_not_ready = false }

-- The values that a program writes, by their rows, through the pointers of the write set.
abbrev pub set_value : (ℕ → ℕ) → BohmKey → BohmKey
set_value f k = record k { value = f k.row }

unfoldable pub executed : (List ℕ → ℕ → ℕ) → BohmTxn → BohmTxn
executed program t = record t {
  write_set = map (set_value (λ row. program (map (λ k. k.value) t.read_set) row)) t.write_set;
}

-- The rest of a turn of `run_transaction`, once the responses are in: whether it is the last one, the
-- transaction, and the table and the messages.
unfoldable pub finish_turn :
    (List ℕ → ℕ → ℕ)
    → (ℕ → Bool)
    → BohmTxn
    → MvccTable
    → Option (Bool × BohmTxn × MvccTable × List BohmMessage)
finish_turn program is_master t table =
    let t' = executed program t in
    let committed = commit is_master t.id t'.write_set (table, []) >>= λ (table', out).
    some (true, t', table', out) in
    if t.abort_read_not_ready then some (false, abort t, table, []) else committed

-- The transactions that a worker runs, in their order: those whose partition is of this node, or those of the
-- worker among the workers of all nodes.
unfoldable pub run_slots : Bool → (ℕ → Bool) → ℕ → ℕ → ℕ → ℕ → ℕ → List ℕ
run_slots bohm_local is_home worker_num coordinator_num size coordinator_id id =
    if bohm_local
    then home (worker_slots worker_num size id)
    else worker_slots (worker_num * coordinator_num) size (id + coordinator_id * worker_num)
  where
    home : List ℕ → List ℕ
    home [] = []
    home (i ∷ is) = if is_home i then i ∷ home is else home is

module _ (is_master : ℕ → Bool) where
  unfoldable pub collect_keys : List BohmKey → MvccTable → MvccTable
  collect_keys [] table = table
  collect_keys (k ∷ ks) table =
      collect_keys ks (if is_master k.row then garbage_collect table k.row else table)

  -- `garbage_collect`, over the slots of the worker.
  unfoldable pub collect_slots : List ℕ → List BohmTxn → MvccTable → MvccTable
  collect_slots [] txns table = table
  collect_slots (i ∷ slots) txns table =
      collect_slots slots txns
        (elim (get_elem? txns i) [ none ↦ table | some t ↦ collect_keys t.write_set table ])
