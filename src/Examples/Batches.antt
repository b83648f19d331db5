-- ===== src/Examples/Batches.antt =====
-- protocol/Bohm: a batch of two transactions, of which the second reads what the first writes; a read and a write
-- by messages; a transaction that is run again; and a version between the stores of its update.
use prdcc.Base.{ℕ, zero, suc, ◌+◌, ◌%◌, ◌≡◌, refl, true, false, List, [], ◌∷◌, some, ◌>>=◌, set}
use prdcc.Common.MvccHashMap.{
  Version, get_key_version_prev, get_key_version_prev_with_version, find_prev,
}
use prdcc.Core.MvccTable.{Cell, MvccTable, search_prev, update_begin, update_end, update}
use prdcc.Bohm.Executor.Between.{update_begin-read_here}
use prdcc.Prodcc.Message.{dec64}
use prdcc.Prodcc.Finalize.{TransactionResult, ready_to_commit}
use prdcc.Bohm.Helper.{get_pos, is_placeholder_ready}
use prdcc.Bohm.Transaction.{BohmKey, BohmTxn, bohm_key}
use prdcc.Bohm.Message.{read_request_handler, write_request_handler}
use prdcc.Bohm.Message.Remote.{deliver_response, read_request-response, write_request-commit_key}
use prdcc.Bohm.Executor.{Reads, read_here, commit_key, process_requests, generate_slot}
use prdcc.Bohm.Executor.Reuse.{generate_slot-process_requests}
use prdcc.Bohm.Run.{Action, reads, finishes, all_rows}
use prdcc.Bohm.Run.Setting.{Setting}

abbrev asked : ℕ → BohmKey
asked row = record (bohm_key row 0) { read_request = true }

abbrev fresh_txn : ℕ → ℕ → List BohmKey → List BohmKey → BohmTxn
fresh_txn id pos rs ws = record {
  id = id;
  tid_offset = pos;
  epoch = 1;
  pending_responses = 0;
  local_read = 0;
  remote_read = 0;
  saved_local_read = 0;
  saved_remote_read = 0;
  abort_read_not_ready = false;
  abort_no_retry = false;
  distributed_transaction = false;
  execution_phase = true;
  read_set = rs;
  write_set = ws;
}

-- The first adds one to row 5, and the second copies row 5 to row 6.
abbrev txn : ℕ → BohmTxn
txn zero = fresh_txn 4294967296 0 (asked 5 ∷ []) (bohm_key 5 0 ∷ [])
txn (suc i) = fresh_txn 4294967297 1 (asked 5 ∷ []) (bohm_key 6 0 ∷ [])

abbrev head_or : List ℕ → ℕ
head_or [] = 0
head_or (v ∷ vs) = v

abbrev programs : ℕ → List ℕ → ℕ → ℕ
programs zero vs row = head_or vs + 1
programs (suc i) vs row = head_or vs

abbrev loaded : Version Cell
loaded = record { version = 0; value = record { placeholder = 0; value = 10 } }

abbrev two : Setting
two = record {
  programs = programs;
  txns = txn;
  old = λ row. 10;
  table = λ row. some (loaded ∷ []);
  partition_of = λ row. row % 2;
  epoch = 1;
  size = 2;
  worker_num = 2;
  workers = 1 ∷ 0 ∷ [];
}

-- The second transaction is read for before the first is done, and gives up its first turn.
abbrev steps : List Action
steps = reads 1 ∷ reads 0 ∷ finishes 0 ∷ finishes 1 ∷ reads 1 ∷ []

-- Row 5 of transaction 0 is still a placeholder.
abbrev waiting : MvccTable
waiting row = some (
    record { version = 4294967296; value = record { placeholder = 4294967296; value = 0 } }
    ∷ loaded
    ∷ [])

abbrev no_reads : Reads
no_reads = record {
  out = [];
  pending_responses = 1;
  abort_read_not_ready = false;
  distributed_transaction = true;
}

read_request-response_example :
    (k' : BohmKey) × (s' : Reads) × (t' : BohmTxn) × (read_here
        (λ _. false)
        false
        waiting
        4294967297
        (asked 5)
        no_reads
      ≡ some (k', s'))
    × ((read_request_handler 5 0 4294967297 waiting >>= λ r.
          deliver_response r (txn 0 ∷ txn 1 ∷ []))
        ≡ some (set (txn 0 ∷ txn 1 ∷ []) (get_pos 4294967297) t'))
    × (t'.read_set ≡ set (asked 5 ∷ []) 0 k')
    × (t'.abort_read_not_ready ≡ s'.abort_read_not_ready)
    × (t'.pending_responses ≡ dec64 0)
unfolding get_pos search_prev get_key_version_prev get_key_version_prev_with_version find_prev
read_request-response_example =
    read_request-response waiting (txn 0 ∷ txn 1 ∷ []) (txn 1) 0 4294967297 (asked 5) no_reads
      (record { placeholder = 4294967296; value = 0 }) refl refl refl refl

write_request-commit_key_example :
    commit_key (λ _. true) 4294967296 (bohm_key 5 11) (waiting, [])
    ≡ (write_request_handler 5 11 4294967296 waiting >>= λ s. some (s, []))
write_request-commit_key_example = write_request-commit_key waiting (bohm_key 5 11) 4294967296 []

abbrev as_it_is : BohmTxn → BohmTxn × TransactionResult
as_it_is t = (t, ready_to_commit)

abbrev read_txn : BohmTxn
read_txn = fresh_txn 4294967296 0 (bohm_key 5 10 ∷ []) (bohm_key 5 11 ∷ [])

generate_slot-process_requests_example :
    let t' = generate_slot as_it_is true true 2 0 read_txn read_txn in
    process_requests all_rows false t' waiting ≡ some (t', [])
generate_slot-process_requests_example =
    generate_slot-process_requests as_it_is 2 0 read_txn read_txn all_rows false waiting (refl, tt)

-- The placeholder of row 5 was inserted with 0, and 11 is committed.
abbrev placed : Version Cell
placed = record { version = 4294967296; value = record { placeholder = 4294967296; value = 0 } }

update_begin-read_here_example :
    let k = asked 5 in
    (read_here all_rows false waiting 4294967297 k no_reads
      ≡ some (k, record no_reads { abort_read_not_ready = true }))
    × ((between : MvccTable) × (update_begin waiting 5 4294967296 ≡ some between)
        × (read_here all_rows false between 4294967297 k no_reads
            ≡ some (record k { value = 0; read_request = false }, no_reads))
        × ((after : MvccTable) × (update_end between 5 11 4294967296 ≡ some after)
            × (update waiting 5 11 4294967296 ≡ some after)
            × (read_here all_rows false after 4294967297 k no_reads
                ≡ some (record k { value = 11; read_request = false }, no_reads))))
unfolding get_key_version_prev_with_version find_prev is_placeholder_ready
update_begin-read_here_example =
    update_begin-read_here all_rows waiting 4294967297 11 (asked 5) no_reads placed refl refl
