-- ===== src/Bohm/Run/Commit.antt =====
-- protocol/Bohm/Bohm.h: what `commit` leaves in the versions of a row, and `write_request_handler`
-- (BohmMessage.h) on the node that has the row.
use prdcc.Base.{
  ℕ, suc, ◌+◌, ◌<◌, ◌≡◌, ◌≢◌, refl, ◌∙◌, Bool, true, false, List, Option, none, some, ◌>>=◌, ◌==◌,
  ==_iff, arith,
}
use prdcc.Common.MvccHashMap.{Version, put, listed, versions, get_key_version, find_version}
use prdcc.Core.MvccTable.{
  Cell, MvccTable, write_version, write_key, set_metadata, search_metadata, placeholder_of,
}
use prdcc.Core.MvccTable.Write.{none≢some, write_key-some, write_key_fuse, update-write_key}
use prdcc.Bohm.Helper.{is_placeholder_ready}
use prdcc.Bohm.Transaction.{BohmKey}
use prdcc.Bohm.Message.{BohmMessage}
use prdcc.Bohm.Executor.{commit_key}
use prdcc.Bohm.Serial.{Job, writes_row, serial, Matches}
use prdcc.Bohm.Serial.Written.{IsOwn, find_version-IsOwn, write_version-Matches}
use prdcc.Bohm.Run.{all_rows}

chain_some :
    {A B C : Type 0} (o : Option A) (f : A → Option B) (g : B → C) (b : B)
    → (o >>= f) ≡ some b
    → (o >>= λ a. f a >>= λ b'. some (g b')) ≡ some (g b)
chain_some none f g b h = absurd (none≢some h)
chain_some (some a) f g b h = rw h refl

module _ (jobs : ℕ → Job) (old : ℕ → ℕ) (base : ℕ) (ready ready' : ℕ → Bool) (i size : ℕ)
    (lt : i < size) (waits : ready i ≡ false) (now : ready' i ≡ true)
    (others : (j : ℕ) → (j == i) ≡ false → ready' j ≡ ready j) where
  -- A row that the transaction has written, and the others as they were.
  abbrev pub IsWritten : MvccTable → ℕ → MvccTable → Type 0
  IsWritten table row table' =
      Matches jobs old base ready' row size (versions table' row)
      × ((r : ℕ) → (r == row) ≡ false → versions table' r ≡ versions table r)

  pub write_key_twice :
      (table : MvccTable) (row : ℕ) (g h : Cell → Cell)
      → writes_row (jobs i) row ≡ true
      → ((c : Cell) → ((h (g c)).placeholder ≡ 0) × ((h (g c)).value ≡ serial jobs old (suc i) row))
      → Matches jobs old base ready row size (versions table row)
      → (table' : MvccTable) × ((write_key table row (base + i) g >>= λ s.
            write_key s row (base + i) h)
          ≡ some table')
        × IsWritten table row table'
  unfolding write_version
  write_key_twice table row g h own new m =
      let (l', e, m') =
        write_version-Matches jobs old base ready ready' i now others row size (λ c. h (g c))
          (versions table row) lt own new m in
      let self : (row == row) ≡ true = (==_iff row row).1 refl in
      (
        put table row (some l'),
        write_key_fuse table row (base + i) g h ∙ by_list (table row) refl e,
        (rw self m', λ r ne. rw ne refl),
      )
    where
      by_list :
          {l' : List (Version Cell)} (o : Option (List (Version Cell)))
          → table row ≡ o
          → write_version (base + i) (λ c. h (g c)) (listed o) ≡ some l'
          → write_key table row (base + i) (λ c. h (g c)) ≡ some (put table row (some l'))
      by_list none q e = absurd (none≢some e)
      by_list (some l) q e = write_key-some table row (base + i) (λ c. h (g c)) l _ q e

  search_metadata-IsOwn :
      (table : MvccTable) (row : ℕ)
      → writes_row (jobs i) row ≡ true
      → Matches jobs old base ready row size (versions table row)
      → (p : ℕ) × (search_metadata table row (base + i) ≡ some p) × (p ≢ 0)
  unfolding search_metadata get_key_version find_version
  search_metadata-IsOwn table row own m =
      by_list (table row)
        (find_version-IsOwn jobs old base ready row size i (versions table row) lt own m)
    where
      by_cell :
          (o : Option Cell)
          → IsOwn jobs old base ready i o
          → (p : ℕ) × (elim o as (λ _. Option ℕ) [ none ↦ none | some c ↦ some c.placeholder ]
              ≡ some p)
            × (p ≢ 0)
      by_cell none h = absurd h
      by_cell (some c) h = (c.placeholder, refl, h waits)

      by_list :
          (o : Option (List (Version Cell)))
          → IsOwn jobs old base ready i (find_version (base + i) (listed o))
          → (p : ℕ) × (placeholder_of
                (elim o as (λ _. Option Cell) [ none ↦ none | some l ↦ find_version (base + i) l ])
              ≡ some p)
            × (p ≢ 0)
      by_list none h = absurd h
      by_list (some l) h = by_cell (find_version (base + i) l) h

  -- The write of one key.
  pub commit_key-IsWritten :
      (k : BohmKey) (table : MvccTable) (out : List BohmMessage)
      → writes_row (jobs i) k.row ≡ true
      → k.value ≡ serial jobs old (suc i) k.row
      → Matches jobs old base ready k.row size (versions table k.row)
      → (table' : MvccTable) × (commit_key all_rows (base + i) k (table, out) ≡ some (table', out))
        × IsWritten table k.row table'
  unfolding commit_key set_metadata is_placeholder_ready
  commit_key-IsWritten k table out own e m =
      let (p, q, nz) = search_metadata-IsOwn table k.row own m in
      let (table', w, written) =
        write_key_twice table k.row (λ c. record { placeholder = 0; value = k.value })
          (λ c. record c { placeholder = 0 }) own (λ c. (refl, e)) m in
      let busy : (p == 0) ≡ false = ground (arith, nz) in
      (
        table',
        rw (q, busy, update-write_key table k.row k.value (base + i))
            (chain_some
              (write_key table k.row (base + i) (λ c. record { placeholder = 0; value = k.value }))
              (λ s. write_key s k.row (base + i) (λ c. record c { placeholder = 0 }))
              (λ s'. (s', out)) table' w),
        written,
      )
