-- ===== src/Bohm/Run/Setting.antt =====
-- protocol/Bohm/BohmExecutor.h: a batch on one node when its execution begins.
use mathlib.Core.Bool.{false≢true}
use native.Mathlib.Nat.{mod-lt}
use prdcc.Base.{
  ℕ, ◌+◌, ◌/◌, ◌%◌, ◌^◌, ◌<◌, ◌≡◌, refl, ap, ◌∙◌, subst, Bool, true, false, List, [], ◌∷◌, All,
  ◌==◌, if◌then◌else◌, arith,
}
use prdcc.Common.MvccHashMap.{Version, versions}
use prdcc.Core.MvccTable.{Cell, MvccTable}
use prdcc.Prodcc.Schedule.Turn.{count}
use prdcc.Bohm.Helper.{get_tid, partition_id_to_worker_id}
use prdcc.Bohm.Helper.Order.{get_tid-sum}
use prdcc.Bohm.Partitioner.{inserts, has_master_partition, master_coordinator}
use prdcc.Bohm.Transaction.{BohmKey, BohmTxn}
use prdcc.Bohm.Serial.{Matches}
use prdcc.Bohm.Insert.{rows, IsDistinct}
use prdcc.Bohm.Insert.Batch.{jobs, IsBatch, skipped, hits}
use prdcc.Bohm.Run.{Status, idle, has_read, finished, start, is_finished}
use prdcc.Bohm.Run.Reads.{IsSound}
use prdcc.Bohm.Run.Turns.{js, IsInvariant}
use prdcc.Bohm.Run.Serializable.{IsNew}

module _ (programs : ℕ → List ℕ → ℕ → ℕ) (txns : ℕ → BohmTxn) (old : ℕ → ℕ) (base size : ℕ)
    (batch : IsBatch programs txns old base size) where
  All-asked :
      (i : ℕ) (ks : List BohmKey)
      → All (λ k. k.read_request ≡ true) ks
      → All (IsSound (js programs txns old base size batch) old i) ks
  All-asked i [] a = tt
  All-asked i (k ∷ ks) a = ((λ h. absurd (apart_bool a.0 h)), All-asked i ks a.1)
    where
      apart_bool : k.read_request ≡ true → k.read_request ≡ false → ⊥
      apart_bool t f = ground (arith, t, f)

  pub start-IsInvariant :
      (table : MvccTable)
      → ((i : ℕ) → i < size → IsNew (txns i))
      → ((row : ℕ)
          → Matches
              (jobs programs txns old base size)
              old
              base
              (skipped programs txns old base size)
              row
              size
              (versions table row))
      → IsInvariant programs txns old base size batch (start txns table)
  unfolding start
  start-IsInvariant table new m = (
    λ row.
        subst
          (λ r. Matches (jobs programs txns old base size) old base r row size (versions table row))
          (λ n j. same (txns j).abort_no_retry n) (m row),
    λ i lt. record {
      id = (batch.1 i lt).0;
      reads = refl;
      writes = refl;
      sound = All-asked i (txns i).read_set (new i lt).1;
      fresh = λ st. (new i lt).0;
      done = λ st z. absurd (began (txns i).abort_no_retry st);
      taken = λ h. same (txns i).abort_no_retry ∙ h;
    },
  )
    where
      same : (b : Bool) → b ≡ is_finished (if b then finished else idle)
      same true = refl
      same false = refl

      is_busy : Status → Bool
      is_busy has_read = true
      is_busy _ = false

      began : (b : Bool) → (if b then finished else idle) ≡ has_read → ⊥
      began true h = false≢true (ap is_busy h)
      began false h = false≢true (ap is_busy h)

-- The rows of the workers, in the order of their passes.
abbrev pub passes : (ℕ → ℕ) → ℕ → List ℕ → List (ℕ → Bool)
passes partition_of worker_num [] = []
passes partition_of worker_num (w ∷ ws) =
    (λ row. inserts worker_num 1 0 w (partition_of row)) ∷ passes partition_of worker_num ws

hits-passes :
    (partition_of : ℕ → ℕ) (worker_num : ℕ) (ws : List ℕ) (row : ℕ)
    → hits row (passes partition_of worker_num ws)
      ≡ count (partition_id_to_worker_id (partition_of row) worker_num 1) ws
unfolding inserts has_master_partition master_coordinator
hits-passes partition_of worker_num [] row = refl
hits-passes partition_of worker_num (w ∷ ws) row =
    let one : partition_of row % 1 ≡ 0 = omega arith in
    let owner = partition_id_to_worker_id (partition_of row) worker_num 1 in
    let swap : (owner == w) ≡ (w == owner) = ground arith in
    rw (one, swap, hits-passes partition_of worker_num ws row) refl

-- The versions of a row before the batch: the newest is below `base`, ready and `value`.
abbrev pub IsOld : ℕ → ℕ → List (Version Cell) → Type 0
IsOld base value [] = ⊥
IsOld base value (vt ∷ l) =
    (vt.version < base) × (vt.value.placeholder ≡ 0) × (vt.value.value ≡ value)

-- A batch of `size` transactions on one node of `worker_num` workers: the transactions are new, have the ids
-- of their positions and write no row twice.
pub record Setting : Type 0 where
  pub programs : ℕ → List ℕ → ℕ → ℕ
  pub txns : ℕ → BohmTxn
  pub old : ℕ → ℕ
  pub table : MvccTable
  pub partition_of : ℕ → ℕ
  pub epoch : ℕ
  pub size : ℕ
  pub worker_num : ℕ
  pub workers : List ℕ

pub record IsSetting (b : Setting) : Type 0 where
  pub epoch_pos : 0 < b.epoch
  pub epoch_lt : b.epoch < 2 ^ 32
  pub size_lt : b.size < 2 ^ 32
  pub ids : (i : ℕ) → i < b.size → (b.txns i).id ≡ get_tid b.epoch i
  pub distinct : (i : ℕ) → i < b.size → IsDistinct (rows (b.txns i).write_set)
  pub new : (i : ℕ) → i < b.size → IsNew (b.txns i)
  pub olds : (row : ℕ) → IsOld (get_tid b.epoch 0) (b.old row) (versions b.table row)
  pub worker_pos : 0 < b.worker_num
  pub all_workers : (w : ℕ) → w < b.worker_num → count w b.workers ≡ 1

module _ (b : Setting) (is : IsSetting b) where
  abbrev pub base : ℕ
  base = get_tid b.epoch 0

  base-sum : (i : ℕ) → i < 2 ^ 32 → get_tid b.epoch i ≡ base + i
  base-sum i lt =
      omega (
        arith,
        get_tid-sum b.epoch i is.epoch_lt lt,
        get_tid-sum b.epoch 0 is.epoch_lt (omega arith),
      )

  pub is_batch : IsBatch b.programs b.txns b.old base b.size
  is_batch = (
    omega (arith, get_tid-sum b.epoch 0 is.epoch_lt (omega arith), is.epoch_pos),
    λ i lt. (is.ids i lt ∙ base-sum i (omega (arith, lt, is.size_lt)), is.distinct i lt),
  )

  pub IsOld-Matches :
      (row : ℕ) (l : List (Version Cell))
      → IsOld base (b.old row) l
      → Matches
          (jobs b.programs b.txns b.old base b.size)
          b.old
          base
          (skipped b.programs b.txns b.old base b.size)
          row
          0
          l
  IsOld-Matches row [] h = h
  IsOld-Matches row (vt ∷ l) h = h

  pub owned : (row : ℕ) → hits row (passes b.partition_of b.worker_num b.workers) ≡ 1
  unfolding partition_id_to_worker_id
  owned row =
      hits-passes b.partition_of b.worker_num b.workers row
      ∙ is.all_workers (b.partition_of row / 1 % b.worker_num)
          (mod-lt (b.partition_of row / 1) {m = b.worker_num} is.worker_pos)
