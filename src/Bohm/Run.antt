-- ===== src/Bohm/Run.antt =====
-- protocol/Bohm/BohmExecutor.h: the turns of the workers of one node over a batch, in any order. A turn of a
-- transaction is two steps, its reads and the rest, and the steps of other workers come in between. The rest, with
-- the commit, is one step: no read comes between its stores. Bohm/Executor/Between has a read that does.
pub mod Reads
pub mod Commit
pub mod Commits
pub mod Invariant
pub mod Turns
pub mod Serializable
pub mod Progress
pub mod Setting
pub mod Next
pub mod Outcome
pub mod Chain
use prdcc.Base.{
  ℕ, Bool, true, false, List, [], ◌∷◌, Option, none, some, ◌>>=◌, ltb, ◌==◌, if◌then◌else◌,
}
use prdcc.Core.MvccTable.{MvccTable}
use prdcc.Bohm.Transaction.{BohmTxn}
use prdcc.Bohm.Executor.{process_requests, finish_turn}

-- Where the worker of a transaction is: before its reads, after them, or past its last turn.
pub data Status : Type 0 where
  idle has_read finished : Status

pub record Node : Type 0 where
  pub txns : ℕ → BohmTxn
  pub status : ℕ → Status
  pub table : MvccTable

pub data Action : Type 0 where
  reads finishes : (i : ℕ) → Action

abbrev pub change {ℓ} : {A : Type ℓ} → (ℕ → A) → ℕ → A → ℕ → A
change f i a j = if j == i then a else f j

-- Every row is of this node.
abbrev pub all_rows : ℕ → Bool
all_rows row = true

module _ (programs : ℕ → List ℕ → ℕ → ℕ) (size : ℕ) where
  unfoldable pub read_turn : ℕ → Node → Option Node
  read_turn i s = process_requests all_rows false (s.txns i) s.table >>= λ (t, out).
      some (record s { txns = change s.txns i t; status = change s.status i has_read })

  unfoldable pub end_turn : ℕ → Node → Option Node
  end_turn i s = finish_turn (programs i) all_rows (s.txns i) s.table >>= λ (last, t, table, out).
      some (record {
        txns = change s.txns i t;
        status = change s.status i (if last then finished else idle);
        table = table;
      })

  -- A step that the worker is not at changes nothing; `none` is a failed CHECK or the read of a version that is
  -- not there.
  unfoldable pub act : Action → Node → Option Node
  act (reads i) s =
      if ltb i size then elim (s.status i) [ idle ↦ read_turn i s | _ ↦ some s ] else some s
  act (finishes i) s =
      if ltb i size then elim (s.status i) [ has_read ↦ end_turn i s | _ ↦ some s ] else some s

  unfoldable pub acts : List Action → Node → Option Node
  acts [] s = some s
  acts (a ∷ rest) s = act a s >>= acts rest

-- The node when the execution begins.
unfoldable pub start : (ℕ → BohmTxn) → MvccTable → Node
start txns table = record {
  txns = txns;
  status = λ i. if (txns i).abort_no_retry then finished else idle;
  table = table;
}

abbrev pub is_finished : Status → Bool
is_finished finished = true
is_finished _ = false
