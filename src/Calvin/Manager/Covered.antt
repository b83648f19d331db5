-- ===== src/Calvin/Manager/Covered.antt =====
-- protocol/Calvin/Calvin.h: the locks that a transaction is granted are those that its end releases.
use mathlib.Core.Bool.{true≢false}
use prdcc.Base.{
  ℕ, ◌+◌, ◌*◌, ◌%◌, ◌^◌, ◌≡◌, refl, sym, ap, ◌∙◌, inl, inr, Bool, true, false, not, ◌&&◌, ◌||◌,
  List, [], ◌∷◌, All, any, ◌==◌, ==_iff, if◌then◌else◌, if-cases, Bool-cases, arith,
}
use prdcc.Calvin.Locks.{
  CalvinKey, CalvinTxn, is_active, abort_locks, commit_locks, release_read_locks,
}
use prdcc.Calvin.Locks.Balance.{
  sum, weight, read_weight, write_weight, release_read_locks-word, release_write_locks-word,
}
use prdcc.Calvin.Manager.{end_txn}

-- A key asks for one lock, or is a read of a local index and asks for none.
abbrev pub IsLock : CalvinKey → Type 0
IsLock k =
    (k.local_index_read ≡ true → (k.read_lock ≡ false) × (k.write_lock ≡ false))
    × (k.local_index_read ≡ false → k.read_lock ≡ not k.write_lock)

abbrev pub written : ℕ → CalvinKey → ℕ
written row k = if k.row == row then 1 else 0

abbrev pub write_locked : ℕ → CalvinKey → ℕ
write_locked row k = if k.write_lock && (k.row == row) then 1 else 0

-- No blind write: the rows that are written are those with a write lock, each as often.
abbrev pub IsCovered : CalvinTxn → Type 0
IsCovered t =
    All IsLock t.read_set
    × ((row : ℕ) → sum (written row) t.write_set ≡ sum (write_locked row) t.read_set)

pub or_false : (a b : Bool) → (a || b) ≡ false → (a ≡ false) × (b ≡ false)
or_false true b h = absurd (true≢false h)
or_false false b h = (refl, h)

module _ (is_master mine : ℕ → Bool) (part : (row : ℕ) → mine row ≡ true → is_master row ≡ true)
    (row : ℕ) where
  sum-written :
      (ks : List CalvinKey)
      → sum (write_weight mine row) ks ≡ (if mine row then sum (written row) ks * 2 ^ 63 else 0)
  sum-written [] = ground arith
  sum-written (k ∷ ks) = elim (Bool-cases (k.row == row)) [
    | inl same ↦
        let here : mine k.row ≡ mine row = ap mine ((==_iff k.row row).0 same) in
        ground (arith, same, here, sum-written ks)
    | inr other ↦ ground (arith, other, sum-written ks)
  ]

  weight-split :
      (k : CalvinKey)
      → IsLock k
      → weight mine row k
        ≡ read_weight mine row k + (if mine row then write_locked row k * 2 ^ 63 else 0)
  weight-split k l = elim (Bool-cases (k.row == row)) [
    | inl same ↦
        let here : mine k.row ≡ mine row = ap mine ((==_iff k.row row).0 same) in
        ground (arith, same, here, l.0, l.1)
    | inr other ↦ ground (arith, other)
  ]

  sum-weight :
      (ks : List CalvinKey)
      → All IsLock ks
      → sum (weight mine row) ks
        ≡ sum (read_weight mine row) ks
          + (if mine row then sum (write_locked row) ks * 2 ^ 63 else 0)
  sum-weight [] l = ground arith
  sum-weight (k ∷ ks) l = ground (arith, weight-split k l.0, sum-weight ks l.1)

  inactive-write_locked :
      (ks : List CalvinKey)
      → All IsLock ks
      → any (λ k. not k.local_index_read && (k.write_lock && is_master k.row)) ks ≡ false
      → mine row ≡ true
      → sum (write_locked row) ks ≡ 0
  inactive-write_locked [] l a m = refl
  inactive-write_locked (k ∷ ks) l a m =
      let (a0, a1) = or_false (not k.local_index_read && (k.write_lock && is_master k.row)) _ a in
      let rest = inactive-write_locked ks l.1 a1 m in
      elim (Bool-cases (k.row == row)) [
        | inl same ↦
            let here : is_master k.row ≡ true =
              ap is_master ((==_iff k.row row).0 same) ∙ part row m in
            ground (arith, same, here, a0, l.0.0, rest)
        | inr other ↦ ground (arith, other, rest)
      ]

  -- The end of a transaction takes away from the word of a row what its locks added.
  pub end_txn-word :
      (t : CalvinTxn) (words db : ℕ → ℕ)
      → IsCovered t
      → ((end_txn is_master mine t (words, db)).0 row + sum (weight mine row) t.read_set) % 2 ^ 64
        ≡ words row % 2 ^ 64
  unfolding end_txn commit_locks abort_locks is_active
  end_txn-word t words db (l, covered) =
      let split = sum-weight t.read_set l in
      let wrote = sum-written t.write_set in
      let reads = release_read_locks-word mine row t.read_set words in
      if-cases
        (λ (r : (ℕ → ℕ) × (ℕ → ℕ)).
          (r.0 row + sum (weight mine row) t.read_set) % 2 ^ 64 ≡ words row % 2 ^ 64)
        _ _ _
        (λ active.
          let writes =
            release_write_locks-word mine row t.write_set
              (release_read_locks mine t.read_set words) in
          let both : sum (weight mine row) t.read_set
              ≡ sum (read_weight mine row) t.read_set + sum (write_weight mine row) t.write_set =
            split
            ∙ ap (λ x. sum (read_weight mine row) t.read_set + x)
                (ap (λ x. if mine row then x * 2 ^ 63 else 0) (sym (covered row)) ∙ sym wrote) in
          omega (arith, reads, writes, both))
        (λ idle.
          let none_there : (if mine row then sum (write_locked row) t.read_set * 2 ^ 63 else 0)
              ≡ 0 =
            if-cases (λ x. x ≡ 0) (mine row) _ 0
              (λ m. ap (λ x. x * 2 ^ 63) (inactive-write_locked t.read_set l idle m)) (λ m. refl) in
          omega (arith, reads, split, none_there))
