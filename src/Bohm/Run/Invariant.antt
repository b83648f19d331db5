-- ===== src/Bohm/Run/Invariant.antt =====
-- protocol/Bohm/BohmExecutor.h: what holds of a node between the steps of its workers.
use mathlib.Core.Bool.{false≢true, true≢false}
use prdcc.Base.{
  ℕ, suc, ◌+◌, ◌≤◌, ◌≡◌, refl, sym, ap, ap₂, ◌∙◌, subst, Bool, true, false, List, [], ◌∷◌, map,
  Option, none, some, ◌>>=◌, All, ◌==◌, ==_iff, if◌then◌else◌, if-cases, or-true,
}
use prdcc.Common.MvccHashMap.{versions}
use prdcc.Core.MvccTable.{MvccTable}
use prdcc.Bohm.Transaction.{BohmKey, BohmTxn, load_read_count, clear_execution_bit}
use prdcc.Bohm.Message.{BohmMessage}
use prdcc.Bohm.Executor.{Reads, read_keys, process_requests, abort, executed, set_value}
use prdcc.Bohm.Serial.{Job, writes_row, serial, serial-writes, Matches}
use prdcc.Bohm.Insert.{rows, has}
use prdcc.Bohm.Run.{Status, idle, has_read, finished, Node, all_rows, is_finished}
use prdcc.Bohm.Run.Reads.{IsDone, AreReady, IsSound, KeysOk, read_keys-KeysOk}
use prdcc.Bohm.Run.Commits.{IsOwnKey}

-- A transaction of the batch, `t₀` when the execution began, where its worker is at `status`.
pub record IsConsistent (js : ℕ → Job) (old : ℕ → ℕ) (base i : ℕ) (t₀ t : BohmTxn) (status : Status)
    : Type 0 where
  pub id : t.id ≡ base + i
  pub reads : rows t.read_set ≡ rows t₀.read_set
  pub writes : rows t.write_set ≡ rows t₀.write_set
  pub sound : All (IsSound js old i) t.read_set
  pub fresh : status ≡ idle → t.abort_read_not_ready ≡ false
  pub done : status ≡ has_read → t.abort_read_not_ready ≡ false → All IsDone t.read_set
  pub taken : is_finished status ≡ false → t₀.abort_no_retry ≡ false

abbrev begin : BohmTxn → Reads
begin t = record {
  out = [];
  pending_responses = t.pending_responses;
  abort_read_not_ready = t.abort_read_not_ready;
  distributed_transaction = t.distributed_transaction;
}

abbrev is_idle : Status → Bool
is_idle idle = true
is_idle _ = false

abbrev pub ready : Node → ℕ → Bool
ready s j = is_finished (s.status j)

module _ (js : ℕ → Job) (old : ℕ → ℕ) (base size i : ℕ) (t₀ : BohmTxn) where
  -- What the reads leave of a transaction.
  abbrev pub AfterReads : (ℕ → Bool) → BohmTxn → Option (BohmTxn × List BohmMessage) → Type 0
  AfterReads rd t none = ⊥
  AfterReads rd t (some (t', out)) =
      IsConsistent js old base i t₀ t' has_read × (AreReady rd i → t'.abort_read_not_ready ≡ false)

  pub process_requests-AfterReads :
      (rd : ℕ → Bool) (t : BohmTxn) (table : MvccTable)
      → i ≤ size
      → IsConsistent js old base i t₀ t idle
      → ((row : ℕ) → Matches js old base rd row size (versions table row))
      → AfterReads rd t (process_requests all_rows false t table)
  unfolding process_requests
  process_requests-AfterReads rd t table le c m = after _ (
      subst
        (λ tid.
          KeysOk js old base rd size i le table m t.read_set (begin t)
            (read_keys all_rows false table tid 0 t.read_set (begin t)))
        (sym c.id)
        (read_keys-KeysOk js old base rd size i le table m 0 t.read_set (begin t) c.sound))
    where
      after :
          (o : Option (List BohmKey × Reads))
          → KeysOk js old base rd size i le table m t.read_set (begin t) o
          → AfterReads rd t (
              o >>= λ (ks, s). some (
                record t {
                  read_set = ks;
                  pending_responses = s.pending_responses;
                  abort_read_not_ready = s.abort_read_not_ready;
                  distributed_transaction = s.distributed_transaction;
                },
                s.out,
              ))
      after none f = f
      after (some (ks, s)) (e, a, d, p) = (
        record {
          id = c.id;
          reads = e ∙ c.reads;
          writes = c.writes;
          sound = a;
          fresh = λ st. absurd (false≢true (ap is_idle st));
          done = λ st z. (d z).0;
          taken = λ st. c.taken refl;
        },
        λ r. p r (c.fresh refl),
      )

  rows-clear :
      (ks : List BohmKey)
      → rows
          (map (λ k. if k.local_index_read then k else record k { execution_processed = false }) ks)
        ≡ rows ks
  rows-clear [] = refl
  rows-clear (k ∷ ks) =
      ap₂ (λ r rs. r ∷ rs)
        (if-cases (λ (k' : BohmKey). k'.row ≡ k.row) k.local_index_read k _ (λ e. refl) (λ e. refl))
        (rows-clear ks)

  All-clear :
      (ks : List BohmKey)
      → All (IsSound js old i) ks
      → All
          (IsSound js old i)
          (map (λ k. if k.local_index_read then k else record k { execution_processed = false }) ks)
  All-clear [] a = tt
  All-clear (k ∷ ks) a =
      (if-cases (IsSound js old i) k.local_index_read k _ (λ e. a.0) (λ e. a.0), All-clear ks a.1)

  -- A turn that did not get all of its reads.
  pub abort-IsConsistent :
      (t : BohmTxn)
      → IsConsistent js old base i t₀ t has_read
      → IsConsistent js old base i t₀ (abort t) idle
  unfolding abort clear_execution_bit load_read_count
  abort-IsConsistent t c = record {
    id = c.id;
    reads = rows-clear t.read_set ∙ c.reads;
    writes = c.writes;
    sound = All-clear t.read_set c.sound;
    fresh = λ st. refl;
    done = λ st. absurd (false≢true (ap is_idle (sym st)));
    taken = λ st. c.taken refl;
  }

  rows-set_value : (f : ℕ → ℕ) (ks : List BohmKey) → rows (map (set_value f) ks) ≡ rows ks
  rows-set_value f [] = refl
  rows-set_value f (k ∷ ks) = ap (λ rs. k.row ∷ rs) (rows-set_value f ks)

  -- The last turn.
  pub executed-IsConsistent :
      (program : List ℕ → ℕ → ℕ) (t : BohmTxn)
      → IsConsistent js old base i t₀ t has_read
      → IsConsistent js old base i t₀ (executed program t) finished
  unfolding executed
  executed-IsConsistent program t c = record {
    id = c.id;
    reads = c.reads;
    writes = rows-set_value _ t.write_set ∙ c.writes;
    sound = c.sound;
    fresh = λ st. absurd (false≢true (ap is_idle st));
    done = λ st. absurd (true≢false (ap is_finished st));
    taken = λ st. c.taken refl;
  }

  values-serial :
      (ks : List BohmKey)
      → All (IsSound js old i) ks
      → All IsDone ks
      → map (λ (k : BohmKey). k.value) ks ≡ map (serial js old i) (rows ks)
  values-serial [] a d = refl
  values-serial (k ∷ ks) a d = ap₂ (λ v vs. v ∷ vs) (a.0 d.0) (values-serial ks a.1 d.1)

  -- The values that the program writes are those of the serial run.
  pub All-set_value :
      (f : ℕ → ℕ) (ks : List BohmKey)
      → ((row : ℕ) → has (rows ks) row ≡ true → writes_row (js i) row ≡ true)
      → ((row : ℕ) → writes_row (js i) row ≡ true → f row ≡ serial js old (suc i) row)
      → All (IsOwnKey js old i) (map (set_value f) ks)
  All-set_value f [] own val = tt
  All-set_value f (k ∷ ks) own val =
      let mine = own k.row (rw ((==_iff k.row k.row).1 refl) refl) in
      (
        (mine, val k.row mine),
        All-set_value f ks (λ row h. own row (rw h (or-true (k.row == row)))) val,
      )

  pub executed-serial :
      (t : BohmTxn) (row : ℕ)
      → IsConsistent js old base i t₀ t has_read
      → t.abort_read_not_ready ≡ false
      → (js i).reads ≡ rows t₀.read_set
      → writes_row (js i) row ≡ true
      → (js i).program (map (λ (k : BohmKey). k.value) t.read_set) row ≡ serial js old (suc i) row
  executed-serial t row c a e w =
      ap (λ vs. (js i).program vs row)
        (values-serial t.read_set c.sound (c.done refl a)
          ∙ ap (map (serial js old i)) (c.reads ∙ sym e))
      ∙ sym (serial-writes js old i row w)
