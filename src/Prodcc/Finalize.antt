-- ===== src/Prodcc/Finalize.antt =====
-- protocol/Prodcc/ProdccExecutor.h and Prodcc.h: the decision on a transaction, its commit, and the
-- clearing of the metadata that it touched; one step of a worker's loop for each.
use prdcc.Base.{ℕ, ◌+◌, Bool, true, false, not, ◌&&◌, ◌||◌, List, [], ◌∷◌, ◌++◌, if◌then◌else◌}
use prdcc.Prodcc.Transaction.{Txn, RwKey, is_read_only, u32}
use prdcc.Prodcc.Message.{Meta, Db, store, Message, write_request, cleanup_request}
use prdcc.Prodcc.Executor.{Context}

pub data TransactionResult : Type 0 where
  commit ready_to_commit abort abort_noretry : TransactionResult

-- `is_committed` and `should_abort` of `finalize_transactions`.
unfoldable pub decide : Context → Txn → Bool × Bool
decide c t =
    if c.read_only_optimization && is_read_only t
    then (true, false)
    else if t.waw
    then (false, true)
    else if c.snapshot_isolation
    then (true, false)
    else if c.reordering_optimization
    then (if not t.war || not t.raw then (true, false) else (false, true))
    else if t.raw
    then (false, true)
    else (true, false)

-- The counters `n_commit` and `n_abort_lock` of the worker.
pub record Counters : Type 0 where
  pub n_commit : ℕ
  pub n_abort_lock : ℕ

module _ (is_master : ℕ → Bool) where
  -- `Prodcc::commit`: the values of the write set, in order.
  unfoldable pub commit_key : RwKey → Txn × Db × List Message → Txn × Db × List Message
  commit_key k (t, db, out) = if is_master k.row then (t, store db k.row k.value, out) else (
    record t { pending_responses = t.pending_responses + 1 },
    db,
    out ++ write_request k.row k.value (u32 t.id) (u32 t.tid_offset) ∷ [],
  )

  unfoldable pub commit_keys : List RwKey → Txn × Db × List Message → Txn × Db × List Message
  commit_keys [] s = s
  commit_keys (k ∷ ks) s = commit_keys ks (commit_key k s)

  unfoldable pub finalize_transaction :
      Context → Txn × Db × List Message → Counters → (Txn × Db × List Message) × Counters
  finalize_transaction c (t, db, out) n =
      if t.abort_no_retry
      then ((t, db, out), n)
      else if t.abort_lock || t.delay_lock
      then ((t, db, out), record n { n_abort_lock = n.n_abort_lock + 1 })
      else if (decide c t).0
      then (commit_keys t.write_set (t, db, out), record n { n_commit = n.n_commit + 1 })
      else if (decide c t).1
      then (
        (record t { delay_lock = true }, db, out),
        record n { n_abort_lock = n.n_abort_lock + 1 },
      )
      else ((t, db, out), n)

  unfoldable pub cleanup_key : RwKey → Txn × Meta × List Message → Txn × Meta × List Message
  cleanup_key k (t, m, out) =
      if k.local_index
      then (t, m, out)
      else if is_master k.row
      then (t, store m k.row 0, out)
      else (
        record t { pending_responses = t.pending_responses + 1 },
        m,
        out ++ cleanup_request k.row (u32 t.id) (u32 t.tid_offset) ∷ [],
      )

  unfoldable pub cleanup_keys : List RwKey → Txn × Meta × List Message → Txn × Meta × List Message
  cleanup_keys [] s = s
  cleanup_keys (k ∷ ks) s = cleanup_keys ks (cleanup_key k s)

  unfoldable pub cleanup_transaction_metadata :
      Txn × Meta × List Message → Txn × Meta × List Message
  cleanup_transaction_metadata (t, m, out) =
      cleanup_keys t.write_set (cleanup_keys t.read_set (t, m, out))
