-- ===== src/Prodcc/Transaction.antt =====
-- protocol/Prodcc/ProdccTransaction.h: the state of a transaction. A table, a partition and a key
-- together are one number, the row; a value is a number. `network_size`, `startTime` and the SQL
-- emulation, which only feed statistics and delays, are left out.
use prdcc.Base.{ℕ, ◌%◌, ◌^◌, Bool, true, false, List, [], ◌∷◌, ◌++◌}

-- What the executor reads of an `AriaRWKey`.
pub record RwKey : Type 0 where
  pub row : ℕ
  pub value : ℕ
  pub local_index : Bool

pub record Txn : Type 0 where
  pub id : ℕ
  pub tid_offset : ℕ
  pub epoch : ℕ
  pub pending_responses : ℕ
  pub abort_lock : Bool
  pub delay_lock : Bool
  pub abort_no_retry : Bool
  pub abort_read_validation : Bool
  pub distributed_transaction : Bool
  pub execution_phase : Bool
  pub waw : Bool
  pub war : Bool
  pub raw : Bool
  pub read_set : List RwKey
  pub write_set : List RwKey

-- A conversion to uint32_t.
abbrev pub u32 : ℕ → ℕ
u32 n = n % 2 ^ 32

unfoldable pub reset : Txn → Txn
reset t = record t {
  abort_lock = false;
  delay_lock = false;
  abort_no_retry = false;
  abort_read_validation = false;
  distributed_transaction = false;
  execution_phase = false;
  waw = false;
  war = false;
  raw = false;
  pending_responses = 0;
  read_set = [];
  write_set = [];
}

abbrev pub is_empty {ℓ} : {A : Type ℓ} → List A → Bool
is_empty [] = true
is_empty (_ ∷ _) = false

unfoldable pub is_read_only : Txn → Bool
is_read_only t = is_empty t.write_set

-- The keys that the analysis and the reservations of reads leave out are those of a local index.
unfoldable pub search_local_index : ℕ → ℕ → Txn → Txn
search_local_index row value t = elim t.execution_phase [
  | true ↦ t
  | false ↦ record t {
    read_set = t.read_set ++ record { row = row; value = value; local_index = true } ∷ [];
  }
]

unfoldable pub search_for_read : ℕ → ℕ → Txn → Txn
search_for_read row value t = elim t.execution_phase [
  | true ↦ t
  | false ↦ record t {
    read_set = t.read_set ++ record { row = row; value = value; local_index = false } ∷ [];
  }
]

unfoldable pub update : ℕ → ℕ → Txn → Txn
update row value t = elim t.execution_phase [
  | true ↦ t
  | false ↦ record t {
    write_set = t.write_set ++ record { row = row; value = value; local_index = false } ∷ [];
  }
]
