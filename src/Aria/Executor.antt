-- ===== src/Aria/Executor.antt =====
-- protocol/Aria/AriaExecutor.h, AriaTransaction.h and Aria.h: what a worker does with one transaction of an epoch
-- once its reads have come in. `is_master` says of a row whether this node is the master of its partition; for
-- another row a message is sent to the node that is. A table, a partition and a key together are one number, the
-- row; a message is its decoded fields, with the conversions to uint32_t.
pub mod View
pub mod Decision
pub mod Analysis
use prdcc.Base.{
  ◌>>=◌, ℕ, ◌+◌, Bool, true, false, not, ◌&&◌, ◌||◌, Option, some, List, [], ◌∷◌, ◌++◌,
  if◌then◌else◌,
}
use prdcc.Aria.Helper.{reserve_read, reserve_write}
use prdcc.Prodcc.Transaction.{RwKey, is_empty, u32}
use prdcc.Prodcc.Message.{Meta, Db, store, reserved, writer_before, reader_before}

pub record AriaTxn : Type 0 where
  pub id : ℕ
  pub tid_offset : ℕ
  pub epoch : ℕ
  pub pending_responses : ℕ
  pub abort_lock : Bool
  pub abort_no_retry : Bool
  pub abort_read_validation : Bool
  pub distributed_transaction : Bool
  pub execution_phase : Bool
  pub waw : Bool
  pub war : Bool
  pub raw : Bool
  pub read_set : List RwKey
  pub write_set : List RwKey

unfoldable pub reset : AriaTxn → AriaTxn
reset t = record t {
  abort_lock = false;
  abort_no_retry = false;
  abort_read_validation = false;
  distributed_transaction = false;
  execution_phase = false;
  waw = false;
  war = false;
  raw = false;
  pending_responses = 0;
  read_set = [];
  write_set = [];
}

unfoldable pub is_read_only : AriaTxn → Bool
is_read_only t = is_empty t.write_set

-- The requests of the executor.
pub data AriaMessage : Type 0 where
  reserve_request : (row tid epoch : ℕ) (is_write : Bool) → AriaMessage
  check_request : (row tid tid_offset epoch : ℕ) (is_write : Bool) → AriaMessage
  write_request : (row value : ℕ) → AriaMessage

-- The switches of `context`.
pub record AriaContext : Type 0 where
  pub aria_read_only_optmization : Bool
  pub aria_snapshot_isolation : Bool
  pub aria_reordering_optmization : Bool

abbrev pub awaiting : AriaTxn → AriaTxn
awaiting t = record t { pending_responses = t.pending_responses + 1 }

-- The values, the messages and the counters `n_abort_no_retry`, `n_commit` and `n_abort_lock` of the worker.
abbrev pub Finishing : Type 0
Finishing = (Db × List AriaMessage) × (ℕ × ℕ × ℕ)

module _ (is_master : ℕ → Bool) where
  unfoldable pub reserve_read_key :
      AriaTxn → RwKey → Meta × List AriaMessage → Option (Meta × List AriaMessage)
  reserve_read_key t k (m, out) =
      if k.local_index
      then some (m, out)
      else if is_master k.row
      then (reserved (reserve_read (m k.row) t.epoch (u32 t.id)) >>= λ a.
          some (store m k.row a, out))
      else some (m, out ++ reserve_request k.row (u32 t.id) t.epoch false ∷ [])

  unfoldable pub reserve_write_key :
      AriaTxn → RwKey → Meta × List AriaMessage → Option (Meta × List AriaMessage)
  reserve_write_key t k (m, out) =
      if is_master k.row
      then (reserved (reserve_write (m k.row) t.epoch (u32 t.id)) >>= λ a.
          some (store m k.row a, out))
      else some (m, out ++ reserve_request k.row (u32 t.id) t.epoch true ∷ [])

  unfoldable pub reserve_reads :
      AriaTxn → List RwKey → Meta × List AriaMessage → Option (Meta × List AriaMessage)
  reserve_reads t [] s = some s
  reserve_reads t (k ∷ ks) s = do s' ← reserve_read_key t k s; reserve_reads t ks s'

  unfoldable pub reserve_writes :
      AriaTxn → List RwKey → Meta × List AriaMessage → Option (Meta × List AriaMessage)
  reserve_writes t [] s = some s
  reserve_writes t (k ∷ ks) s = do s' ← reserve_write_key t k s; reserve_writes t ks s'

  unfoldable pub reserve_transaction :
      AriaContext → AriaTxn → Meta × List AriaMessage → Option (Meta × List AriaMessage)
  reserve_transaction c t s =
      if c.aria_read_only_optmization && is_read_only t
      then some s
      else do s' ← reserve_reads t t.read_set s; reserve_writes t t.write_set s'

  -- The loop over the reads stops at the first read of a row of this node that an earlier transaction writes.
  unfoldable pub analyze_reads :
      Meta → List RwKey → AriaTxn × List AriaMessage → AriaTxn × List AriaMessage
  analyze_reads m [] s = s
  analyze_reads m (k ∷ ks) (t, out) =
      let next = analyze_reads m ks (t, out) in
      let sent =
        analyze_reads m ks (
          awaiting t,
          out ++ check_request k.row (u32 t.id) (u32 t.tid_offset) t.epoch false ∷ [],
        ) in
      if k.local_index
      then next
      else if is_master k.row
      then (if writer_before (m k.row) t.epoch t.id then (record t { raw = true }, out) else next)
      else sent

  unfoldable pub analyze_write_key :
      Meta → RwKey → AriaTxn × List AriaMessage → AriaTxn × List AriaMessage
  analyze_write_key m k (t, out) =
      if is_master k.row
      then (
        record t {
          war = reader_before (m k.row) t.epoch t.id || t.war;
          waw = writer_before (m k.row) t.epoch t.id || t.waw;
        },
        out,
      )
      else (awaiting t, out ++ check_request k.row (u32 t.id) (u32 t.tid_offset) t.epoch true ∷ [])

  unfoldable pub analyze_writes :
      Meta → List RwKey → AriaTxn × List AriaMessage → AriaTxn × List AriaMessage
  analyze_writes m [] s = s
  analyze_writes m (k ∷ ks) s = analyze_writes m ks (analyze_write_key m k s)

  unfoldable pub analyze_dependency :
      AriaContext → Meta → AriaTxn × List AriaMessage → AriaTxn × List AriaMessage
  analyze_dependency c m (t, out) =
      if c.aria_read_only_optmization && is_read_only t
      then (t, out)
      else analyze_writes m t.write_set (analyze_reads m t.read_set (t, out))

  -- `Aria::commit`: the values of the write set, in order.
  unfoldable pub commit_key : RwKey → Db × List AriaMessage → Db × List AriaMessage
  commit_key k (db, out) =
      if is_master k.row
      then (store db k.row k.value, out)
      else (db, out ++ write_request k.row k.value ∷ [])

  unfoldable pub commit_keys : List RwKey → Db × List AriaMessage → Db × List AriaMessage
  commit_keys [] s = s
  commit_keys (k ∷ ks) s = commit_keys ks (commit_key k s)

  -- A turn of the second loop of `commit_transactions`. A read-only transaction is counted with nothing to commit.
  unfoldable pub finish_transaction : AriaContext → AriaTxn → Finishing → Finishing
  finish_transaction c t (s, (retry, commits, aborts)) =
      let committed : Finishing = (commit_keys t.write_set s, (retry, commits + 1, aborts)) in
      let aborted : Finishing = (s, (retry, commits, aborts + 1)) in
      if t.abort_no_retry
      then (s, (retry + 1, commits, aborts))
      else if c.aria_read_only_optmization && is_read_only t
      then (s, (retry, commits + 1, aborts))
      else if t.waw
      then aborted
      else if c.aria_snapshot_isolation
      then committed
      else if c.aria_reordering_optmization
      then (if not t.war || not t.raw then committed else aborted)
      else if t.raw
      then aborted
      else committed
