-- ===== src/Prodcc/Executor.antt =====
-- protocol/Prodcc/ProdccExecutor.h and Prodcc.h: what a worker does with one transaction in the
-- phases of a micro-block. `is_master` says of a row whether this node is the master of its
-- partition; for another row a message is sent to the node that is.
use prdcc.Base.{
  ◌>>=◌, ℕ, ◌+◌, Bool, true, false, ◌&&◌, ◌||◌, Option, some, List, [], ◌∷◌, ◌++◌, if◌then◌else◌,
}
use prdcc.Aria.Helper.{reserve_read, reserve_write}
use prdcc.Prodcc.Transaction.{Txn, RwKey, is_read_only, u32}
use prdcc.Prodcc.Message.{
  Meta, store, reserved, writer_before, reader_before, Message, reserve_request, check_request,
}

-- The switches of `context`.
pub record Context : Type 0 where
  pub read_only_optimization : Bool
  pub snapshot_isolation : Bool
  pub reordering_optimization : Bool

-- The metadata and the messages to send, oldest first.
abbrev pub Outgoing : Type 0
Outgoing = Meta × List Message

-- `pendingResponses++`.
abbrev pub awaiting : Txn → Txn
awaiting t = record t { pending_responses = t.pending_responses + 1 }

module _ (is_master : ℕ → Bool) where
  unfoldable pub reserve_read_key : Txn → RwKey → Outgoing → Option Outgoing
  reserve_read_key t k (m, out) =
      if k.local_index
      then some (m, out)
      else if is_master k.row
      then (reserved (reserve_read (m k.row) t.epoch (u32 t.id)) >>= λ a.
          some (store m k.row a, out))
      else some (m, out ++ reserve_request k.row (u32 t.id) t.epoch false ∷ [])

  unfoldable pub reserve_write_key : Txn → RwKey → Outgoing → Option Outgoing
  reserve_write_key t k (m, out) =
      if is_master k.row
      then (reserved (reserve_write (m k.row) t.epoch (u32 t.id)) >>= λ a.
          some (store m k.row a, out))
      else some (m, out ++ reserve_request k.row (u32 t.id) t.epoch true ∷ [])

  unfoldable pub reserve_reads : Txn → List RwKey → Outgoing → Option Outgoing
  reserve_reads t [] s = some s
  reserve_reads t (k ∷ ks) s = do s' ← reserve_read_key t k s; reserve_reads t ks s'

  unfoldable pub reserve_writes : Txn → List RwKey → Outgoing → Option Outgoing
  reserve_writes t [] s = some s
  reserve_writes t (k ∷ ks) s = do s' ← reserve_write_key t k s; reserve_writes t ks s'

  unfoldable pub reserve_transaction : Context → Txn → Outgoing → Option Outgoing
  reserve_transaction c t s =
      if c.read_only_optimization && is_read_only t
      then some s
      else do s' ← reserve_reads t t.read_set s; reserve_writes t t.write_set s'

  -- The loop over the reads stops at the first read of a row of this node that an earlier
  -- transaction writes.
  unfoldable pub analyze_reads : Meta → List RwKey → Txn × List Message → Txn × List Message
  analyze_reads m [] s = s
  analyze_reads m (k ∷ ks) (t, out) =
      let next = analyze_reads m ks (t, out) in
      let sent =
        analyze_reads m ks (
          awaiting t,
          out ++ check_request k.row (u32 t.id) (u32 t.tid_offset) t.epoch false ∷ [],
        ) in
      if k.local_index
      then next
      else if is_master k.row
      then (if writer_before (m k.row) t.epoch t.id then (record t { raw = true }, out) else next)
      else sent

  unfoldable pub analyze_write_key : Meta → RwKey → Txn × List Message → Txn × List Message
  analyze_write_key m k (t, out) =
      if is_master k.row
      then (
        record t {
          war = reader_before (m k.row) t.epoch t.id || t.war;
          waw = writer_before (m k.row) t.epoch t.id || t.waw;
        },
        out,
      )
      else (awaiting t, out ++ check_request k.row (u32 t.id) (u32 t.tid_offset) t.epoch true ∷ [])

  unfoldable pub analyze_writes : Meta → List RwKey → Txn × List Message → Txn × List Message
  analyze_writes m [] s = s
  analyze_writes m (k ∷ ks) s = analyze_writes m ks (analyze_write_key m k s)

  unfoldable pub analyze_dependency : Context → Meta → Txn × List Message → Txn × List Message
  analyze_dependency c m (t, out) =
      if c.read_only_optimization && is_read_only t
      then (t, out)
      else analyze_writes m t.write_set (analyze_reads m t.read_set (t, out))
