-- ===== src/Prodcc/Phases.antt =====
-- protocol/Prodcc/ProdccExecutor.h: the phases of a micro-block, as the loop of a worker over its slots. The
-- program of a transaction, `execute`, is given (a virtual function): what it leaves of the transaction, and
-- its result. The waits for responses, the flushes and `network_size` are left out.
pub mod Once
use prdcc.Base.{
  ℕ, Bool, true, false, ◌||◌, List, [], ◌∷◌, Option, none, some, get_elem?, set, length,
  if◌then◌else◌,
}
use prdcc.Prodcc.Transaction.{Txn}
use prdcc.Prodcc.Message.{Meta, Message}
use prdcc.Prodcc.Executor.{Context, Outgoing, reserve_transaction, analyze_dependency}
use prdcc.Prodcc.Finalize.{TransactionResult, abort, abort_noretry}
use prdcc.Prodcc.Worker.{worker_slots}

-- The flags that a result sets.
abbrev pub take_result : TransactionResult → Txn → Txn
take_result abort_noretry t = record t { abort_no_retry = true }
take_result abort t = record t { delay_lock = true }
take_result _ t = t

abbrev pub is_skipped : Txn → Bool
is_skipped t = t.abort_no_retry || t.abort_lock || t.delay_lock

module _ (execute : Txn → Txn × TransactionResult) where
  -- The body of the loop of `execute_transactions`.
  unfoldable pub execute_slot : Txn → Txn
  execute_slot t =
      let (t', result) = execute (record t { execution_phase = false }) in
      if t.abort_no_retry then t else take_result result t'

  -- That of `reserve_transactions`; `none` is a failed CHECK.
  unfoldable pub reserve_slot : (ℕ → Bool) → Context → Txn → Outgoing → Option (Txn × Outgoing)
  reserve_slot is_master c t s =
      let (t', result) = execute (record t { execution_phase = true }) in
      let reserved = elim (reserve_transaction is_master c t' s) as (λ o. Option (Txn × Outgoing)) [
        | none ↦ none
        | some s' ↦ some (t', s')
      ] in
      if is_skipped t then some (t, s) else elim result [
        | abort_noretry ↦ some (record t' { abort_no_retry = true }, s)
        | abort ↦ some (record t' { delay_lock = true }, s)
        | _ ↦ reserved
      ]

-- That of `analyze_transactions`.
unfoldable pub analyze_slot : (ℕ → Bool) → Context → Meta → Txn × List Message → Txn × List Message
analyze_slot is_master c m (t, out) =
    if is_skipped t then (t, out) else analyze_dependency is_master c m (t, out)

-- One turn of a loop, with what the slot holds.
abbrev pub change_slot {ℓ} : {A : Type ℓ} → (A → A) → List A → ℕ → Option A → List A
change_slot body block i none = block
change_slot body block i (some a) = set block i (body a)

-- The slots of a worker, each changed by the body of its loop, for a body that changes the slot only.
unfoldable pub for_slots {ℓ} : {A : Type ℓ} → (A → A) → List ℕ → List A → List A
for_slots body [] block = block
for_slots body (i ∷ slots) block =
    for_slots body slots (change_slot body block i (get_elem? block i))

unfoldable pub run_worker {ℓ} : {A : Type ℓ} → (A → A) → ℕ → ℕ → List A → List A
run_worker body worker_num id block =
    for_slots body (worker_slots worker_num (length block) id) block

-- The workers one after another.
unfoldable pub run_workers {ℓ} : {A : Type ℓ} → (A → A) → ℕ → List ℕ → List A → List A
run_workers body worker_num [] block = block
run_workers body worker_num (id ∷ ids) block =
    run_workers body worker_num ids (run_worker body worker_num id block)

unfoldable pub execute_transactions : (Txn → Txn × TransactionResult) → ℕ → ℕ → List Txn → List Txn
execute_transactions execute = run_worker (execute_slot execute)

unfoldable pub execute_phase : (Txn → Txn × TransactionResult) → ℕ → List ℕ → List Txn → List Txn
execute_phase execute = run_workers (execute_slot execute)
