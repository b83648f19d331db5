-- ===== src/Aria/Executor/Decision.antt =====
-- protocol/Aria/AriaExecutor.h: the decision on a transaction is that of PRDCC on the same flags.
use prdcc.Base.{ℕ, ◌+◌, ◌≡◌, refl, Bool, false, List, [], ◌∷◌, if◌then◌else◌, arith}
use prdcc.Prodcc.Transaction.{Txn, RwKey}
use prdcc.Prodcc.Message.{Db}
use prdcc.Prodcc.Finalize.{decide}
use prdcc.Prodcc.Transaction as Prodcc
use prdcc.Aria.Executor.View.{as_txn, as_context}
use prdcc.Aria.Executor as Aria
use prdcc.Aria.Executor.{AriaTxn, AriaContext, AriaMessage, commit_keys, finish_transaction}

-- Aria writes the values and counts a commit when PRDCC decides to commit, and else counts an abort and writes
-- nothing. The transaction is to be retried.
finish_transaction-decide :
    (is_master : ℕ → Bool) (c : AriaContext) (t : AriaTxn) (s : Db × List AriaMessage)
    (retry commits aborts : ℕ)
    → t.abort_no_retry ≡ false
    → finish_transaction is_master c t (s, (retry, commits, aborts)) ≡ (
        if (decide (as_context c) (as_txn t)).0
        then (commit_keys is_master t.write_set s, (retry, commits + 1, aborts))
        else (s, (retry, commits, aborts + 1)))
unfolding finish_transaction decide Aria.is_read_only Prodcc.is_read_only commit_keys
finish_transaction-decide is_master c t s retry commits aborts h = go t.write_set refl
  where
    go :
        (ks : List RwKey)
        → t.write_set ≡ ks
        → finish_transaction is_master c t (s, (retry, commits, aborts)) ≡ (
            if (decide (as_context c) (as_txn t)).0
            then (commit_keys is_master t.write_set s, (retry, commits + 1, aborts))
            else (s, (retry, commits, aborts + 1)))
    go [] e = rw e (ground (arith, h))
    go (k ∷ ks) e = rw e (ground (arith, h))
