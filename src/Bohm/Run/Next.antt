-- ===== src/Bohm/Run/Next.antt =====
-- protocol/Bohm/BohmExecutor.h: what a batch and its garbage collection leave for the next batch.
use prdcc.Base.{
  ℕ, zero, suc, ◌+◌, ◌≤◌, ◌≡◌, refl, ◌∙◌, subst, inl, inr, Bool, List, [], ◌∷◌, Option, none, some,
  ◌==◌, ==_iff, if◌then◌else◌, if-cases, Bool-cases, get_elem?, arith,
}
use prdcc.Common.MvccHashMap.{Version, put, listed, versions, vacuum_key_keep_latest, keep_latest}
use prdcc.Core.MvccTable.{Cell, MvccTable, garbage_collect}
use prdcc.Bohm.Transaction.{BohmKey, BohmTxn}
use prdcc.Bohm.Executor.{collect_keys, collect_slots}
use prdcc.Bohm.Serial.{Job, writes_row, serial, IsVersion, Matches}
use prdcc.Bohm.Run.Reads.{AreReady}
use prdcc.Bohm.Run.Setting.{IsOld}

pub IsOld-le :
    (base base' v v' : ℕ) (l : List (Version Cell))
    → base ≤ base'
    → v ≡ v'
    → IsOld base v l
    → IsOld base' v' l
IsOld-le base base' v v' [] le e h = h
IsOld-le base base' v v' (vt ∷ l) le e (a, z, x) = (omega (arith, a, le), z, x ∙ e)

-- The versions of a row once all of the batch are done.
module _ (jobs : ℕ → Job) (old : ℕ → ℕ) (base : ℕ) (ready : ℕ → Bool) where
  pub Matches-IsOld :
      (row n : ℕ) (l : List (Version Cell))
      → AreReady ready n
      → Matches jobs old base ready row n l
      → IsOld (base + n) (serial jobs old n row) l
  unfolding serial
  Matches-IsOld row zero (vt ∷ l) r (a, z, x) = (omega (arith, a), z, x)
  Matches-IsOld row zero [] r m = m
  Matches-IsOld row (suc n) [] r m = elim (Bool-cases (writes_row (jobs n) row)) [
    | inl w ↦ absurd (rw w at m)
    | inr w ↦ Matches-IsOld row n [] (λ j lt. r j (omega (arith, lt))) (rw w at m)
  ]
  Matches-IsOld row (suc n) (vt ∷ l) r m = elim (Bool-cases (writes_row (jobs n) row)) [
    | inl w ↦
        let m' : IsVersion jobs old base ready row n vt × Matches jobs old base ready row n l =
          subst
            (λ b.
              if b
              then IsVersion jobs old base ready row n vt × Matches jobs old base ready row n l
              else Matches jobs old base ready row n (vt ∷ l))
            w m in
        let (z, x) = m'.0.1 (r n (omega arith)) in (omega (arith, m'.0.0), z, x)
    | inr w ↦
        let m' : Matches jobs old base ready row n (vt ∷ l) =
          subst
            (λ b.
              if b
              then IsVersion jobs old base ready row n vt × Matches jobs old base ready row n l
              else Matches jobs old base ready row n (vt ∷ l))
            w m in
        IsOld-le (base + n) (base + suc n) (serial jobs old n row) _ (vt ∷ l) (omega arith)
          (rw w refl) (Matches-IsOld row n (vt ∷ l) (λ j lt. r j (omega (arith, lt))) m')
  ]

-- The collection keeps the newest version of every row.
garbage_collect-IsOld :
    (base v : ℕ) (table : MvccTable) (key row : ℕ)
    → IsOld base v (versions table row)
    → IsOld base v (versions (garbage_collect table key) row)
unfolding garbage_collect vacuum_key_keep_latest keep_latest
garbage_collect-IsOld base v table key row h = by_list (table key) refl
  where
    latest : (l : List (Version Cell)) → IsOld base v l → IsOld base v (keep_latest l).0
    latest [] h = h
    latest (vt ∷ l) h = h

    by_list :
        (o : Option (List (Version Cell)))
        → table key ≡ o
        → IsOld base v (
            versions
              (elim o as (λ _. ℕ × MvccTable) [
                | none ↦ (0, table)
                | some l ↦ let (rest, size) = keep_latest l in (size, put table key (some rest))
              ]).1
              row)
    by_list none e = h
    by_list (some l) e =
        if-cases (λ o. IsOld base v (listed o)) (row == key) (some (keep_latest l).0) (table row)
          (λ same. latest l (
            subst (λ o. IsOld base v (listed o)) e
              (subst (λ r. IsOld base v (versions table r)) ((==_iff row key).0 same) h)))
          (λ other. h)

module _ (is_master : ℕ → Bool) (base : ℕ) (old : ℕ → ℕ) where
  collect_keys-IsOld :
      (ks : List BohmKey) (table : MvccTable)
      → ((row : ℕ) → IsOld base (old row) (versions table row))
      → (row : ℕ) → IsOld base (old row) (versions (collect_keys is_master ks table) row)
  unfolding collect_keys
  collect_keys-IsOld [] table h row = h row
  collect_keys-IsOld (k ∷ ks) table h row =
      collect_keys-IsOld ks _
        (λ r.
          if-cases (λ t. IsOld base (old r) (versions t r)) (is_master k.row)
            (garbage_collect table k.row) table
            (λ e. garbage_collect-IsOld base (old r) table k.row r (h r)) (λ e. h r))
        row

  pub collect_slots-IsOld :
      (slots : List ℕ) (txns : List BohmTxn) (table : MvccTable)
      → ((row : ℕ) → IsOld base (old row) (versions table row))
      → (row : ℕ) → IsOld base (old row) (versions (collect_slots is_master slots txns table) row)
  unfolding collect_slots
  collect_slots-IsOld [] txns table h row = h row
  collect_slots-IsOld (i ∷ slots) txns table h row =
      collect_slots-IsOld slots txns _ (λ r. at (get_elem? txns i) r) row
    where
      at :
          (o : Option BohmTxn) (r : ℕ)
          → IsOld base (old r) (
              versions
                (elim o [ none ↦ table | some t ↦ collect_keys is_master t.write_set table ])
                r)
      at none r = h r
      at (some t) r = collect_keys-IsOld t.write_set table h r
