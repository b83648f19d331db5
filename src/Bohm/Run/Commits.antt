-- ===== src/Bohm/Run/Commits.antt =====
-- protocol/Bohm/Bohm.h: `commit` over the whole write set.
use prdcc.Base.{
  ℕ, ◌+◌, ◌<◌, ◌≡◌, refl, subst, inl, inr, Bool, true, false, List, [], ◌∷◌, suc, some, All, ◌==◌,
  ==_iff, Bool-cases, or-true, arith,
}
use prdcc.Common.MvccHashMap.{versions}
use prdcc.Core.MvccTable.{MvccTable}
use prdcc.Bohm.Transaction.{BohmKey}
use prdcc.Bohm.Message.{BohmMessage}
use prdcc.Bohm.Executor.{commit}
use prdcc.Bohm.Serial.{Job, writes_row, serial, Matches}
use prdcc.Bohm.Insert.{rows, has, apart, IsDistinct}
use prdcc.Bohm.Run.{all_rows}
use prdcc.Bohm.Run.Commit.{commit_key-IsWritten}

abbrev pub IsOwnKey : (ℕ → Job) → (ℕ → ℕ) → ℕ → BohmKey → Type 0
IsOwnKey jobs old i k =
    (writes_row (jobs i) k.row ≡ true) × (k.value ≡ serial jobs old (suc i) k.row)

module _ (jobs : ℕ → Job) (old : ℕ → ℕ) (base : ℕ) (ready ready' : ℕ → Bool) (i size : ℕ)
    (lt : i < size) (waits : ready i ≡ false) (now : ready' i ≡ true)
    (others : (j : ℕ) → (j == i) ≡ false → ready' j ≡ ready j) where
  -- The rows of the keys that are left are as they were, and the others are written.
  abbrev pub IsPartial : List BohmKey → MvccTable → Type 0
  IsPartial ks table =
      (row : ℕ)
      → (has (rows ks) row ≡ true → Matches jobs old base ready row size (versions table row))
        × (has (rows ks) row ≡ false → Matches jobs old base ready' row size (versions table row))

  pub commit-IsPartial :
      (ks : List BohmKey) (table : MvccTable) (out : List BohmMessage)
      → IsDistinct (rows ks)
      → All (IsOwnKey jobs old i) ks
      → IsPartial ks table
      → (table' : MvccTable) × (commit all_rows (base + i) ks (table, out) ≡ some (table', out))
        × ((row : ℕ) → Matches jobs old base ready' row size (versions table' row))
  unfolding commit
  commit-IsPartial [] table out d own p = (table, refl, λ row. (p row).1 refl)
  commit-IsPartial (k ∷ ks) table out d own p =
      let (table1, q1, (w, same)) =
        commit_key-IsWritten jobs old base ready ready' i size lt waits now others k table out
          own.0.0 own.0.1 ((p k.row).0 (rw ((==_iff k.row k.row).1 refl) refl)) in
      let (table', q, m) =
        commit-IsPartial ks table1 out d.1 own.1
          (λ row. (left row table1 same, gone row table1 w same)) in
      (table', rw q1 q, m)
    where
      left :
          (row : ℕ) (table1 : MvccTable)
          → ((r : ℕ) → (r == k.row) ≡ false → versions table1 r ≡ versions table r)
          → has (rows ks) row ≡ true
          → Matches jobs old base ready row size (versions table1 row)
      left row table1 same h =
          rw (same row (apart row k.row (rows ks) h d.0))
            ((p row).0 (rw h (or-true (k.row == row))))

      gone :
          (row : ℕ) (table1 : MvccTable)
          → Matches jobs old base ready' k.row size (versions table1 k.row)
          → ((r : ℕ) → (r == k.row) ≡ false → versions table1 r ≡ versions table r)
          → has (rows ks) row ≡ false
          → Matches jobs old base ready' row size (versions table1 row)
      gone row table1 w same h = elim (Bool-cases (k.row == row)) [
        | inl e ↦
            subst (λ r. Matches jobs old base ready' r size (versions table1 r))
              ((==_iff k.row row).0 e) w
        | inr e ↦
            let ne : (row == k.row) ≡ false = ground (arith, e) in
            rw (same row ne) ((p row).1 (rw e h))
      ]
