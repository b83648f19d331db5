-- ===== src/Prodcc/Snapshot.antt =====
-- protocol/Prodcc/ProdccExecutor.h, ProdccManager.h and ProdccMessage.h: what a worker does to its slots at
-- the start of a macro block, and how a read of another node's row is asked for and answered. A new
-- transaction comes from the workload, `next` of the slot. The calls of `process_request`, the handlers that
-- are set up and the start time are left out.
pub mod Ids
use prdcc.Base.{
  ℕ, zero, suc, ◌+◌, ◌*◌, Bool, true, false, not, ◌||◌, List, [], ◌∷◌, ◌++◌, Option, none, some,
  get_elem?, set, length, ltb, leb, if◌then◌else◌,
}
use prdcc.Prodcc.Transaction.{Txn, RwKey, reset, u32}
use prdcc.Prodcc.Message.{Db, txn_at, answered}

-- The argument of `set_id`.
unfoldable pub txn_id : ℕ → ℕ → ℕ → ℕ
txn_id coordinator_num coordinator_id i = i * coordinator_num + coordinator_id + 1

-- The size that `prepare_dependency_graph` is called with.
unfoldable pub graph_size : ℕ → ℕ → ℕ
graph_size slots coordinator_num = slots * coordinator_num + 1

-- The transaction of slot `i`: a new one when there is none or the slot is past the aborted ones.
unfoldable pub renew : (ℕ → Txn) → ℕ → ℕ → Option Txn → Txn
renew next n_abort i none = next i
renew next n_abort i (some t) = if leb n_abort i then next i else reset t

unfoldable pub stamp : ℕ → ℕ → ℕ → ℕ → Txn → Txn
stamp coordinator_num coordinator_id epoch i t = record t {
  epoch = epoch;
  id = txn_id coordinator_num coordinator_id i;
  tid_offset = i;
  execution_phase = false;
}

-- The loop of a worker from slot `i` on, in steps of `worker_num`. Every turn goes up, so the number of
-- slots is enough fuel.
module _ (next : ℕ → Txn) (coordinator_num coordinator_id worker_num epoch n_abort : ℕ) where
  unfoldable pub snapshot_loop : ℕ → ℕ → List (Option Txn) → List (Option Txn)
  snapshot_loop zero i slots = slots
  snapshot_loop (suc fuel) i slots = elim (get_elem? slots i) [
    | none ↦ slots
    | some slot ↦ snapshot_loop fuel (i + worker_num) (
        set slots i
          (some (stamp coordinator_num coordinator_id epoch i (renew next n_abort i slot))))
  ]

  unfoldable pub read_snapshot : ℕ → List (Option Txn) → List (Option Txn)
  read_snapshot worker slots = snapshot_loop (length slots) worker slots

-- The messages of a read of another node's row.
pub record SearchRequest : Type 0 where
  pub row : ℕ
  pub tid : ℕ
  pub tid_offset : ℕ
  pub key_offset : ℕ

pub record SearchResponse : Type 0 where
  pub value : ℕ
  pub tid : ℕ
  pub tid_offset : ℕ
  pub key_offset : ℕ

-- `readRequestHandler` for the key at `key_offset`: a row of this node, or of a local index, is read at
-- once; another one is asked for.
unfoldable pub read_request_handler :
    (ℕ → Bool) → Db → RwKey → ℕ → Txn × List SearchRequest → Txn × List SearchRequest
read_request_handler is_master db k key_offset (t, out) =
    if is_master k.row || k.local_index
    then (record t { read_set = set t.read_set key_offset (record k { value = db k.row }) }, out)
    else (
      record t { distributed_transaction = true; pending_responses = t.pending_responses + 1 },
      out
          ++ (record {
            row = k.row;
            tid = u32 t.id;
            tid_offset = u32 t.tid_offset;
            key_offset = u32 key_offset;
          })
            ∷ [],
    )

unfoldable pub search_request_handler : Db → SearchRequest → SearchResponse
search_request_handler db q = record {
  value = db q.row;
  tid = q.tid;
  tid_offset = q.tid_offset;
  key_offset = q.key_offset;
}

-- The value goes into the key of the read set; `none` is a failed CHECK.
unfoldable pub search_response_handler : SearchResponse → List Txn → Option (List Txn)
search_response_handler r ts = elim (txn_at ts r.tid_offset r.tid) [
  | none ↦ none
  | some t ↦ elim (get_elem? t.read_set r.key_offset) [
    | none ↦ none
    | some k ↦ some (
        set ts r.tid_offset (
          answered
            (record t { read_set = set t.read_set r.key_offset (record k { value = r.value }) })))
  ]
]
