-- ===== src/Examples/Epochs.antt =====
-- protocol/Aria: a transaction with id 2 that reads row 5, which the transaction with id 1 writes, and writes
-- row 9 of this node and row 12 of another.
use prdcc.Base.{ℕ, ◌≡◌, Bool, true, false, [], ◌∷◌, if◌then◌else◌, ltb, ◌==◌}
use prdcc.Aria.Fields.{pack}
use prdcc.Prodcc.Executor.{analyze_dependency}
use prdcc.Aria.Executor as Aria
use prdcc.Aria.Executor.{AriaTxn, AriaContext}
use prdcc.Aria.Executor.View.{as_context}
use prdcc.Aria.Executor.Analysis.{as_state, analyze_dependency-as_state}

abbrev txn : AriaTxn
txn = record {
  id = 2;
  tid_offset = 1;
  epoch = 1;
  pending_responses = 0;
  abort_lock = false;
  abort_no_retry = false;
  abort_read_validation = false;
  distributed_transaction = false;
  execution_phase = true;
  waw = false;
  war = false;
  raw = false;
  read_set = record { row = 5; value = 0; local_index = false } ∷ [];
  write_set =
      record { row = 9; value = 8; local_index = false }
      ∷ record { row = 12; value = 8; local_index = false }
      ∷ [];
}

abbrev switches : AriaContext
switches = record {
  aria_read_only_optmization = true;
  aria_snapshot_isolation = false;
  aria_reordering_optmization = true;
}

abbrev is_here : ℕ → Bool
is_here row = ltb row 10

abbrev epoch_words : ℕ → ℕ
epoch_words row = if row == 5 then pack 1 0 1 else pack 1 0 2

analyze_dependency-as_state_example :
    analyze_dependency is_here (as_context switches) epoch_words (as_state (txn, []))
    ≡ as_state (Aria.analyze_dependency is_here switches epoch_words (txn, []))
analyze_dependency-as_state_example =
    analyze_dependency-as_state is_here epoch_words switches txn []
