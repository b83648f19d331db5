-- ===== src/Bohm/Executor/Reuse.antt =====
-- protocol/Bohm/BohmExecutor.h: a transaction that is run again in the next epoch, under `same_batch`.
use mathlib.Core.Bool.{true≢false}
use prdcc.Base.{
  sym, ℕ, ◌+◌, ◌≡◌, refl, ap, ◌∙◌, Bool, true, false, not, List, [], ◌∷◌, map, Option, some, All,
  if◌then◌else◌, if-cases,
}
use prdcc.Core.MvccTable.{MvccTable}
use prdcc.Prodcc.Finalize.{TransactionResult}
use prdcc.Bohm.Helper.{get_tid}
use prdcc.Bohm.Transaction.{BohmKey, BohmTxn, set_id, load_read_count, clear_execution_bit}
use prdcc.Bohm.Executor.{Reads, read_key, read_keys, process_requests, generate_slot}

module _ (is_master : ℕ → Bool) (single_spin : Bool) (table : MvccTable) (tid : ℕ) where
  read_key-done :
      (off : ℕ) (k : BohmKey) (s : Reads)
      → k.read_request ≡ false
      → read_key is_master single_spin table tid off k s ≡ some (k, s)
  unfolding read_key
  read_key-done off k s d =
      if-cases (λ (o : Option (BohmKey × Reads)). o ≡ some (k, s)) (not k.read_request) _ _
        (λ e. refl) (λ e. absurd (true≢false (ap not (sym d) ∙ e)))

  read_keys-done :
      (off : ℕ) (ks : List BohmKey) (s : Reads)
      → All (λ k. k.read_request ≡ false) ks
      → read_keys is_master single_spin table tid off ks s ≡ some (ks, s)
  unfolding read_keys
  read_keys-done off [] s d = refl
  read_keys-done off (k ∷ ks) s d =
      rw (read_keys-done (off + 1) ks s d.1, read_key-done off k s d.0) refl

All-clear :
    (ks : List BohmKey)
    → All (λ k. k.read_request ≡ false) ks
    → All
        (λ k. k.read_request ≡ false)
        (map (λ k. if k.local_index_read then k else record k { execution_processed = false }) ks)
All-clear [] d = tt
All-clear (k ∷ ks) d = (
  if-cases (λ (k' : BohmKey). k'.read_request ≡ false) k.local_index_read k _ (λ e. d.0) (λ e. d.0),
  All-clear ks d.1,
)

-- A transaction that has all of its reads asks for none of them again after the soft reset for the next epoch:
-- `process_requests` then gives it back as it is, with no message, whatever the table holds. (The reset clears the
-- bit for the execution, and the loop looks at the one for the request.)
pub generate_slot-process_requests :
    (execute : BohmTxn → BohmTxn × TransactionResult) (epoch i : ℕ) (next t : BohmTxn)
    (is_master : ℕ → Bool) (single_spin : Bool) (table : MvccTable)
    → All (λ k. k.read_request ≡ false) t.read_set
    → let t' = generate_slot execute true true epoch i next t in
      process_requests is_master single_spin t' table ≡ some (t', [])
unfolding generate_slot process_requests set_id clear_execution_bit load_read_count
generate_slot-process_requests execute epoch i next t is_master single_spin table d =
    rw (read_keys-done is_master single_spin table (get_tid epoch i) 0 _ _ (All-clear t.read_set d))
      refl
