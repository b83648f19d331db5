-- ===== src/Bohm/Insert.antt =====
-- protocol/Bohm/BohmExecutor.h: the placeholders that `insert_write_sets` puts into each row.
pub mod Batch
use mathlib.Core.Bool.{false≢true, true≢false}
use prdcc.Base.{
  ℕ, zero, suc, ◌+◌, ◌≤◌, ◌<◌, ◌≡◌, ◌≢◌, ◌⊎◌, refl, sym, ap, ◌∙◌, subst, inl, inr, Bool, true,
  false, ◌&&◌, ◌||◌, List, [], ◌∷◌, map, Option, none, some, ◌>>=◌, any, or-true, ltb, ◌==◌, ==_iff,
  if◌then◌else◌, if-cases, Bool-cases, arith,
}
use prdcc.Common.MvccHashMap.{Version, HashMap, put, listed, versions, insert_key_version_holder}
use prdcc.Core.MvccTable.{Cell, MvccTable, insert}
use prdcc.Bohm.Transaction.{BohmKey, BohmTxn}
use prdcc.Bohm.Executor.{insert_keys, insert_write_sets}
use prdcc.Bohm.Serial.{Job, writes_row, IsVersion, Matches}

abbrev pub rows : List BohmKey → List ℕ
rows ks = map (λ (k : BohmKey). k.row) ks

abbrev pub has : List ℕ → ℕ → Bool
has rs row = any (λ r. r == row) rs

pub apart : (r r' : ℕ) (rs : List ℕ) → has rs r ≡ true → has rs r' ≡ false → (r == r') ≡ false
apart r r' rs h h' = elim (Bool-cases (r == r')) [
  | inl e ↦ absurd (true≢false (sym h ∙ ap (has rs) ((==_iff r r').0 e) ∙ h'))
  | inr e ↦ e
]

-- No row stands there twice.
abbrev pub IsDistinct : List ℕ → Type 0
IsDistinct [] = Unit
IsDistinct (r ∷ rs) = (has rs r ≡ false) × IsDistinct rs

abbrev pub IsBelowHead : ℕ → List (Version Cell) → Type 0
IsBelowHead tid [] = Unit
IsBelowHead tid (vt ∷ l) = vt.version < tid

abbrev pub placeholder : ℕ → ℕ → Version Cell
placeholder tid value = record {
  version = tid;
  value = record { placeholder = tid; value = value };
}

insert_lem :
    (table : MvccTable) (row value tid : ℕ)
    → IsBelowHead tid (versions table row)
    → insert table row value tid
      ≡ some (put table row (some (placeholder tid value ∷ versions table row)))
unfolding insert insert_key_version_holder
insert_lem table row value tid h = by_list (versions table row) h
  where
    by_list :
        (l : List (Version Cell))
        → IsBelowHead tid l
        → (elim l as (λ _. Option MvccTable) [
          | [] ↦ some (put table row (some (placeholder tid value ∷ [])))
          | ◌∷◌ head l' ↦
              if ltb head.version tid
              then some (put table row (some (placeholder tid value ∷ head ∷ l')))
              else none
        ])
          ≡ some (put table row (some (placeholder tid value ∷ l)))
    by_list [] h = refl
    by_list (vt ∷ l) h = let hit : ltb vt.version tid ≡ true = ground (arith, h) in rw hit refl

-- The versions of a row after the placeholders of the keys: one more when the row is one of theirs.
abbrev pub IsPlaced : ℕ → Bool → List (Version Cell) → List (Version Cell) → Type 0
IsPlaced tid false l l' = l' ≡ l
IsPlaced tid true l l' = (value : ℕ) × (l' ≡ placeholder tid value ∷ l)

module _ (mine : ℕ → Bool) where
  put-other :
      (table : MvccTable) (row row' : ℕ) (l : List (Version Cell))
      → (row' == row) ≡ false
      → versions (put table row (some l)) row' ≡ versions table row'
  put-other table row row' l h = rw h refl

  pub insert_keys_lem :
      (tid : ℕ) (ks : List BohmKey) (table : MvccTable)
      → IsDistinct (rows ks)
      → ((row : ℕ)
          → mine row ≡ true
          → has (rows ks) row ≡ true
          → IsBelowHead tid (versions table row))
      → (table' : MvccTable) × (insert_keys mine tid ks table ≡ some table')
        × ((row : ℕ)
            → IsPlaced tid
                (mine row && has (rows ks) row)
                (versions table row)
                (versions table' row))
  unfolding insert_keys
  insert_keys_lem tid [] table d below =
      (table, refl, λ row. elim (Bool-cases (mine row)) [ inl e ↦ rw e refl | inr e ↦ rw e refl ])
  insert_keys_lem tid (k ∷ ks) table d below = elim (Bool-cases (mine k.row)) [
    | inr other ↦
        let (table', q, p) =
          insert_keys_lem tid ks table d.1
            (λ row m h. below row m (rw (h, or-true (k.row == row)))) in
        (
          table',
          rw other q,
          λ row. elim (Bool-cases (k.row == row)) [
            | inl e ↦
                let own : mine row ≡ false = ap mine (sym ((==_iff k.row row).0 e)) ∙ other in
                let pr = p row in rw own (rw own at pr)
            | inr e ↦ rw e (p row)
          ],
        )
    | inl own ↦
        let table1 = put table k.row (some (placeholder tid k.value ∷ versions table k.row)) in
        let placed =
          insert_lem table k.row k.value tid (below k.row own (rw ((==_iff k.row k.row).1 refl))) in
        let (table', q, p) = insert_keys_lem tid ks table1 d.1 (λ row m h.
          let ne : (row == k.row) ≡ false = apart row k.row (rows ks) h d.0 in
          rw ne (below row m (rw (h, or-true (k.row == row))))) in
        (
          table',
          rw (own, placed) q,
          λ row. elim (Bool-cases (k.row == row)) [
            | inl e ↦
                subst
                  (λ r.
                    IsPlaced tid (mine r && ((k.row == r) || has (rows ks) r)) (versions table r)
                      (versions table' r))
                  ((==_iff k.row row).0 e) (here table' own d.0 (p k.row))
            | inr e ↦
                let ne : (row == k.row) ≡ false = ground (arith, e) in
                rw e (
                  subst (λ l. IsPlaced tid (mine row && has (rows ks) row) l (versions table' row))
                    (put-other table k.row row (placeholder tid k.value ∷ versions table k.row) ne)
                    (p row))
          ],
        )
  ]
    where
      here :
          (table' : MvccTable)
          → mine k.row ≡ true
          → has (rows ks) k.row ≡ false
          → IsPlaced tid
              (mine k.row && has (rows ks) k.row)
              (versions
                (put table k.row (some (placeholder tid k.value ∷ versions table k.row)))
                k.row)
              (versions table' k.row)
          → IsPlaced tid
              (mine k.row && ((k.row == k.row) || has (rows ks) k.row))
              (versions table k.row)
              (versions table' k.row)
      here table' own fresh p =
          let self : (k.row == k.row) ≡ true = (==_iff k.row k.row).1 refl in
          let p' : versions table' k.row ≡ placeholder tid k.value ∷ versions table k.row =
            rw (own, fresh, self) at p in
          rw (own, self) (k.value, p')
