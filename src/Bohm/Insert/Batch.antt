-- ===== src/Bohm/Insert/Batch.antt =====
-- protocol/Bohm/BohmExecutor.h: the pass of a worker over a batch in `insert_write_sets`.
use mathlib.Core.Bool.{true≢false}
use prdcc.Base.{
  ℕ, zero, suc, ◌+◌, ◌<◌, ◌≡◌, ◌⊎◌, refl, sym, ◌∙◌, subst, inl, inr, Bool, true, false, ◌&&◌, List,
  [], ◌∷◌, Option, some, ◌>>=◌, if◌then◌else◌, Bool-cases, arith,
}
use prdcc.Common.MvccHashMap.{Version, versions}
use prdcc.Core.MvccTable.{Cell, MvccTable}
use prdcc.Bohm.Transaction.{BohmTxn}
use prdcc.Bohm.Executor.{insert_keys, insert_write_sets}
use prdcc.Bohm.Serial.{Job, writes_row, IsVersion, Matches, Matches-suc}
use prdcc.Bohm.Insert.{rows, has, IsDistinct, IsBelowHead, placeholder, IsPlaced, insert_keys_lem}

-- The transactions `n`, `n + 1`, … of a batch.
abbrev pub from : (ℕ → BohmTxn) → ℕ → ℕ → List BohmTxn
from txns n zero = []
from txns n (suc k) = txns n ∷ from txns (suc n) k

abbrev pub job_of : (List ℕ → ℕ → ℕ) → BohmTxn → Job
job_of program t = record {
  reads = rows t.read_set;
  writes = if t.abort_no_retry then [] else rows t.write_set;
  program = program;
}

-- The passes of the workers, one after another.
unfoldable pub insert_passes : (ℕ → BohmTxn) → ℕ → List (ℕ → Bool) → MvccTable → Option MvccTable
insert_passes txns size [] table = some table
insert_passes txns size (mine ∷ passes) table =
    insert_write_sets mine (from txns 0 size) table >>= insert_passes txns size passes

-- The passes that a row belongs to.
abbrev pub hits : ℕ → List (ℕ → Bool) → ℕ
hits row [] = 0
hits row (mine ∷ passes) = (if mine row then 1 else 0) + hits row passes

-- A batch: the transactions, which write no row twice and have the ids from `base` on.
module _ (programs : ℕ → List ℕ → ℕ → ℕ) (txns : ℕ → BohmTxn) (old : ℕ → ℕ) (base size : ℕ) where
  abbrev pub jobs : ℕ → Job
  jobs i = job_of (programs i) (txns i)

  abbrev pub IsBatch : Type 0
  IsBatch =
      (0 < base)
      × ((i : ℕ) → i < size → ((txns i).id ≡ base + i) × IsDistinct (rows (txns i).write_set))

  -- The transactions that are given up do not write.
  abbrev pub skipped : ℕ → Bool
  skipped i = (txns i).abort_no_retry

  abbrev pub Before : ℕ → ℕ → MvccTable → Type 0
  Before n row table = Matches (jobs) old base skipped row n (versions table row)

  Matches-IsBelowHead :
      (row n : ℕ) (l : List (Version Cell))
      → Matches jobs old base skipped row n l
      → IsBelowHead (base + n) l
  Matches-IsBelowHead row n [] m = tt
  Matches-IsBelowHead row zero (vt ∷ l) m = omega (arith, m.0)
  Matches-IsBelowHead row (suc n) (vt ∷ l) m = elim (Bool-cases (writes_row (jobs n) row)) [
    | inl w ↦
        let m' : IsVersion jobs old base skipped row n vt × Matches jobs old base skipped row n l =
          rw w at m in
        omega (arith, m'.0.0)
    | inr w ↦
        let m' : Matches jobs old base skipped row n (vt ∷ l) = rw w at m in
        omega (arith, Matches-IsBelowHead row n (vt ∷ l) m')
  ]

  Placed-Before :
      (mine : Bool) (row n : ℕ) (l l' : List (Version Cell))
      → 0 < base
      → skipped n ≡ false
      → mine ≡ true
      → IsPlaced (base + n) (mine && has (rows (txns n).write_set) row) l l'
      → Matches jobs old base skipped row n l
      → Matches jobs old base skipped row (suc n) l'
  Placed-Before mine row n l l' pos s own p m =
      elim (Bool-cases (has (rows (txns n).write_set) row)) [
        | inl w ↦
            let (value, e) : (value : ℕ) × (l' ≡ placeholder (base + n) value ∷ l) =
              rw (own, w) at p in
            let version : IsVersion jobs old base skipped row n (placeholder (base + n) value) =
              (refl, λ r. absurd (true≢false (sym r ∙ s)), λ r. λ z. omega (arith, z, pos)) in
            let w' : writes_row (jobs n) row ≡ true = rw s w in rw (e, w') (version, m)
        | inr w ↦
            let e : l' ≡ l = rw (own, w) at p in
            let w' : writes_row (jobs n) row ≡ false = rw s w in
            rw e (Matches-suc jobs old base skipped row n l w' m)
      ]

  -- The pass of a worker over the batch, from transaction `n` on: its own rows have the placeholders, and the
  -- other rows are as they were.
  pub insert_write_sets_lem :
      (mine : ℕ → Bool) (k n : ℕ) (table : MvccTable)
      → IsBatch
      → n + k ≡ size
      → ((row : ℕ) → mine row ≡ true → Before n row table)
      → (table' : MvccTable) × (insert_write_sets mine (from txns n k) table ≡ some table')
        × ((row : ℕ)
            → (mine row ≡ true → Before size row table')
              × (mine row ≡ false → versions table' row ≡ versions table row))
  unfolding insert_write_sets
  insert_write_sets_lem mine zero n table b e h =
      let last : n ≡ size = omega (arith, e) in
      (table, refl, λ row. (λ m. subst (λ j. Before j row table) last (h row m), λ m. refl))
  insert_write_sets_lem mine (suc k) n table b e h = elim (Bool-cases (skipped n)) [
    | inl s ↦
        let (table', q, p) =
          insert_write_sets_lem mine k (suc n) table b (omega (arith, e)) (λ row m.
            Matches-suc jobs old base skipped row n (versions table row) (rw s refl) (h row m)) in
        (table', rw s q, p)
    | inr s ↦
        let (id, distinct) = b.1 n (omega (arith, e)) in
        let (table1, q1, p1) =
          insert_keys_lem mine (base + n) (txns n).write_set table distinct
            (λ row m w. Matches-IsBelowHead row n (versions table row) (h row m)) in
        let (table', q, p) =
          insert_write_sets_lem mine k (suc n) table1 b (omega (arith, e)) (λ row m.
            Placed-Before (mine row) row n (versions table row) (versions table1 row) b.0 s m
              (p1 row) (h row m)) in
        (
          table',
          rw (s, subst (λ i. insert_keys mine i (txns n).write_set table ≡ some table1) (sym id) q1)
              q,
          λ row. ((p row).0, λ m. (p row).1 m ∙ (let p1' = p1 row in rw m at p1')),
        )
  ]

  -- What the passes that are left find of a row.
  abbrev IsPending : List (ℕ → Bool) → MvccTable → ℕ → Type 0
  IsPending passes table row =
      ((hits row passes ≡ 1) × Before 0 row table) ⊎ ((hits row passes ≡ 0) × Before size row table)

  insert_passes-IsPending :
      (passes : List (ℕ → Bool)) (table : MvccTable)
      → IsBatch
      → ((row : ℕ) → IsPending passes table row)
      → (table' : MvccTable) × (insert_passes txns size passes table ≡ some table')
        × ((row : ℕ) → Before size row table')
  unfolding insert_passes
  insert_passes-IsPending [] table b h =
      (table, refl, λ row. elim (h row) [ inl (e, m) ↦ absurd (omega (arith, e)) | inr (e, m) ↦ m ])
  insert_passes-IsPending (mine ∷ passes) table b h =
      let (table1, q1, p1) = insert_write_sets_lem mine size 0 table b (omega arith) (λ row own.
        elim (h row) [
          | inl (e, m) ↦ m
          | inr (e, m) ↦ let e' = rw own at e in absurd (omega (arith, e'))
        ]) in
      let (table', q, p) =
        insert_passes-IsPending passes table1 b (λ row. next row table1 (p1 row) (h row)) in
      (table', rw q1 q, p)
    where
      next :
          (row : ℕ) (table1 : MvccTable)
          → ((mine row ≡ true → Before size row table1)
              × (mine row ≡ false → versions table1 row ≡ versions table row))
          → IsPending (mine ∷ passes) table row
          → IsPending passes table1 row
      next row table1 (own, other) o = elim (Bool-cases (mine row)) [
        | inl w ↦ elim o [
          | inl (e, m) ↦ let e' = rw w at e in inr (omega (arith, e'), own w)
          | inr (e, m) ↦ let e' = rw w at e in absurd (omega (arith, e'))
        ]
        | inr w ↦ elim o [
          | inl (e, m) ↦ let e' = rw w at e in inl (omega (arith, e'), rw (other w) m)
          | inr (e, m) ↦ let e' = rw w at e in inr (omega (arith, e'), rw (other w) m)
        ]
      ]

  -- Every row is of one of the passes: afterwards it has the placeholders of its writers.
  pub insert_passes-Before :
      (passes : List (ℕ → Bool)) (table : MvccTable)
      → IsBatch
      → ((row : ℕ) → hits row passes ≡ 1)
      → ((row : ℕ) → Before 0 row table)
      → (table' : MvccTable) × (insert_passes txns size passes table ≡ some table')
        × ((row : ℕ) → Before size row table')
  insert_passes-Before passes table b h m =
      insert_passes-IsPending passes table b (λ row. inl (h row, m row))
