-- ===== src/Examples/Ends.antt =====
-- protocol/Prodcc/ProdccExecutor.h: the commit and the cleanup of a transaction that touches a row of this
-- node, 5, and a row of another one, 9.
use prdcc.Base.{ℕ, ◌≡◌, Bool, false, ◌||◌, some, [], ◌∷◌, any, ◌==◌, if◌then◌else◌}
use prdcc.Prodcc.Transaction.{Txn}
use prdcc.Prodcc.Message.{Node}
use mathlib.Core.Option
use prdcc.Base.{get_elem?, arith, ◌<◌}
use prdcc.Prodcc.Schedule.Turn.{count}
use prdcc.Prodcc.Phases.{execute_slot, execute_phase}
use prdcc.Prodcc.Phases.Once.{execute_phase-once}
use prdcc.Prodcc.Finalize.{
  TransactionResult, abort_noretry, commit_keys, cleanup_transaction_metadata,
}
use prdcc.Prodcc.Cleared.{receive, touches, cleanup_transaction_metadata_lem}
use prdcc.Prodcc.Installed.{commit_keys_lem}
use prdcc.Prodcc.Serial.{apply_writes}

abbrev is_mine : ℕ → Bool
is_mine row = row == 5

abbrev txn : Txn
txn = record {
  id = 2;
  tid_offset = 0;
  epoch = 1;
  pending_responses = 0;
  abort_lock = false;
  delay_lock = false;
  abort_no_retry = false;
  abort_read_validation = false;
  distributed_transaction = false;
  execution_phase = false;
  waw = false;
  war = false;
  raw = false;
  read_set = record { row = 5; value = 0; local_index = false } ∷ [];
  write_set =
      record { row = 5; value = 7; local_index = false }
      ∷ record { row = 9; value = 8; local_index = false }
      ∷ [];
}

abbrev node : Node
node = record { metadata = λ row. 77; db = λ row. row; txns = []; responses = [] }

cleanup_transaction_metadata_lem_example :
    let (t', m', out) = cleanup_transaction_metadata is_mine (txn, node.metadata, []) in
    (n' : Node) × (receive out (record node { metadata = m' }) ≡ some n')
    × (n'.metadata 9 ≡ (
        if any (touches 9) txn.read_set || any (touches 9) txn.write_set
        then 0
        else node.metadata 9))
cleanup_transaction_metadata_lem_example = cleanup_transaction_metadata_lem is_mine txn node 9

commit_keys_lem_example :
    let (t', db', out) = commit_keys is_mine txn.write_set (txn, node.db, []) in
    (n' : Node) × (receive out (record node { db = db' }) ≡ some n')
    × (n'.db 9 ≡ apply_writes txn.write_set node.db 9)
commit_keys_lem_example = commit_keys_lem is_mine txn.write_set txn node 9

-- A program that gives up, run by two workers.
abbrev gives_up : Txn → Txn × TransactionResult
gives_up t = (t, abort_noretry)

each_once : (id : ℕ) → id < 2 → count id (1 ∷ 0 ∷ []) ≡ 1
each_once id h = ground (arith, h)

execute_phase-once_example :
    get_elem? (execute_phase gives_up 2 (1 ∷ 0 ∷ []) (txn ∷ txn ∷ txn ∷ [])) 2
    ≡ Option.map (execute_slot gives_up) (get_elem? (txn ∷ txn ∷ txn ∷ []) 2)
execute_phase-once_example =
    execute_phase-once gives_up 2 (1 ∷ 0 ∷ []) (txn ∷ txn ∷ txn ∷ []) 2 (omega arith)
      (omega arith, (omega arith, tt)) each_once (omega arith)
