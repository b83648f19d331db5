-- ===== src/Prodcc/Phases/Once.antt =====
-- protocol/Prodcc/ProdccExecutor.h: every transaction of a micro-block is taken by one worker, once.
use prdcc.Base.{
  ℕ, zero, suc, ◌+◌, ◌%◌, ◌<◌, ◌≡◌, refl, sym, ap, ◌∙◌, List, [], ◌∷◌, Option, none, some, All,
  get_elem?, length, length-set, ◌==◌, if◌then◌else◌, arith,
}
use mathlib.Core.Option
use native.Mathlib.Nat.{mod-lt}
use prdcc.Prodcc.Transaction.{Txn}
use prdcc.Prodcc.Finalize.{TransactionResult}
use prdcc.Prodcc.Schedule.Turn.{count}
use prdcc.Prodcc.Worker.{worker_slots}
use prdcc.Prodcc.Worker.Turns.{worker_slots-count}
use prdcc.Prodcc.Phases.{
  execute_slot, change_slot, for_slots, run_worker, run_workers, execute_phase,
}

module _ {ℓ} {A : Type ℓ} (body : A → A) where
  -- A slot changed some number of times.
  again : ℕ → Option A → Option A
  again n none = none
  again zero (some a) = some a
  again (suc n) (some a) = again n (some (body a))

  again-zero : (o : Option A) → again 0 o ≡ o
  unfolding again
  again-zero none = refl
  again-zero (some a) = refl

  again-add : (m n : ℕ) (o : Option A) → again n (again m o) ≡ again (m + n) o
  unfolding again
  again-add m n none = refl
  again-add zero n (some a) = ap (λ k. again k (some a)) (same n)
    where
      same : (n : ℕ) → n ≡ 0 + n
      same n = omega arith
  again-add (suc m) n (some a) =
      again-add m n (some (body a)) ∙ ap (λ k. again k (some a)) (same m n)
    where
      same : (m n : ℕ) → suc (m + n) ≡ suc m + n
      same m n = omega arith

  change_slot-length :
      (block : List A) (i : ℕ) (o : Option A) → length (change_slot body block i o) ≡ length block
  change_slot-length block i none = refl
  change_slot-length block i (some a) = length-set block i (body a)

  change_slot-cons :
      (x : A) (xs : List A) (i : ℕ) (o : Option A)
      → change_slot body (x ∷ xs) (suc i) o ≡ x ∷ change_slot body xs i o
  change_slot-cons x xs i none = refl
  change_slot-cons x xs i (some a) = refl

  again-at : (m n : ℕ) (o : Option A) → m ≡ n → again m o ≡ again n o
  again-at m n o e = ap (λ k. again k o) e

  change_slot-get :
      (block : List A) (i j : ℕ)
      → get_elem? (change_slot body block i (get_elem? block i)) j
        ≡ again (if i == j then 1 else 0) (get_elem? block j)
  unfolding again
  change_slot-get [] i j = refl
  change_slot-get (x ∷ xs) zero zero = refl
  change_slot-get (x ∷ xs) zero (suc j) =
      sym (again-zero (get_elem? xs j))
      ∙ again-at 0 (if 0 == suc j then 1 else 0) (get_elem? xs j) (ground arith)
  change_slot-get (x ∷ xs) (suc i) zero =
      ap (λ l. get_elem? l 0) (change_slot-cons x xs i (get_elem? xs i))
      ∙ sym (again-zero (some x))
      ∙ again-at 0 (if suc i == 0 then 1 else 0) (some x) (ground arith)
  change_slot-get (x ∷ xs) (suc i) (suc j) =
      ap (λ l. get_elem? l (suc j)) (change_slot-cons x xs i (get_elem? xs i))
      ∙ change_slot-get xs i j
      ∙ again-at (if i == j then 1 else 0) (if suc i == suc j then 1 else 0) (get_elem? xs j)
          (ground arith)

  for_slots-get :
      (slots : List ℕ) (block : List A) (j : ℕ)
      → get_elem? (for_slots body slots block) j ≡ again (count j slots) (get_elem? block j)
  unfolding for_slots
  for_slots-get [] block j = sym (again-zero (get_elem? block j))
  for_slots-get (i ∷ slots) block j =
      for_slots-get slots (change_slot body block i (get_elem? block i)) j
      ∙ ap (again (count j slots)) (change_slot-get block i j)
      ∙ again-add (if i == j then 1 else 0) (count j slots) (get_elem? block j)

  for_slots-length :
      (slots : List ℕ) (block : List A) → length (for_slots body slots block) ≡ length block
  unfolding for_slots
  for_slots-length [] block = refl
  for_slots-length (i ∷ slots) block =
      for_slots-length slots (change_slot body block i (get_elem? block i))
      ∙ change_slot-length block i (get_elem? block i)

  run_workers-get :
      (worker_num : ℕ) (ids : List ℕ) (block : List A) (j : ℕ)
      → All (λ id. id < worker_num) ids
      → j < length block
      → get_elem? (run_workers body worker_num ids block) j
        ≡ again (count (j % worker_num) ids) (get_elem? block j)
  unfolding run_workers run_worker
  run_workers-get worker_num [] block j h lt = sym (again-zero (get_elem? block j))
  run_workers-get worker_num (id ∷ ids) block j h lt =
      let slots = worker_slots worker_num (length block) id in
      run_workers-get worker_num ids (for_slots body slots block) j h.1
        (omega (arith, lt, for_slots-length slots block))
      ∙ ap (again (count (j % worker_num) ids)) (
          for_slots-get slots block j
          ∙ again-at (count j slots) (if id == j % worker_num then 1 else 0) (get_elem? block j)
              (ground (arith, lt, worker_slots-count worker_num (length block) id j h.0)))
      ∙ again-add (if id == j % worker_num then 1 else 0) (count (j % worker_num) ids)
          (get_elem? block j)

  again-one : (o : Option A) → again 1 o ≡ Option.map body o
  unfolding again
  again-one none = refl
  again-one (some a) = refl

-- When every worker has run its loop of `execute_transactions` one time, in any order, every transaction of the
-- micro-block was executed once: its slot holds what one turn makes of it. There is a worker.
pub execute_phase-once :
    (execute : Txn → Txn × TransactionResult) (worker_num : ℕ) (ids : List ℕ) (block : List Txn)
    (j : ℕ)
    → 0 < worker_num
    → All (λ id. id < worker_num) ids
    → ((id : ℕ) → id < worker_num → count id ids ≡ 1)
    → j < length block
    → get_elem? (execute_phase execute worker_num ids block) j
      ≡ Option.map (execute_slot execute) (get_elem? block j)
unfolding execute_phase
execute_phase-once execute worker_num ids block j pos below once lt =
    let body = execute_slot execute in
    run_workers-get body worker_num ids block j below lt
    ∙ again-at body (count (j % worker_num) ids) 1 (get_elem? block j)
        (once (j % worker_num) (mod-lt j pos))
    ∙ again-one body (get_elem? block j)
