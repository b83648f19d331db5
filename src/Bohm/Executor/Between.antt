-- ===== src/Bohm/Executor/Between.antt =====
-- core/Table.h and protocol/Bohm/BohmExecutor.h: a read of another worker between the two stores of `update`.
use prdcc.Base.{
  ℕ, ◌<◌, ◌≡◌, refl, ap, ◌∙◌, subst, inl, inr, Bool, true, false, List, [], ◌∷◌, Option, none, some,
  ltb, ◌==◌, ==_iff, Bool-cases, if◌then◌else◌, arith,
}
use prdcc.Common.MvccHashMap.{
  Version, put, find_prev, get_key_version_prev, get_key_version_prev_with_version,
}
use prdcc.Core.MvccTable.{
  Cell, MvccTable, write_version, write_key, search_prev, update_begin, update_end, update,
}
use prdcc.Core.MvccTable.Write.{none≢some, write_key-some}
use prdcc.Bohm.Helper.{is_placeholder_ready}
use prdcc.Bohm.Transaction.{BohmKey}
use prdcc.Bohm.Executor.{Reads, read_here}

some-same : (x y : Version Cell) → some x ≡ some y → x ≡ y
some-same x y e =
    ap (λ (o : Option (Version Cell)). elim o as (λ _. Version Cell) [ none ↦ x | some z ↦ z ]) e

find_prev-lt :
    (r : ℕ) (l : List (Version Cell)) (vt : Version Cell) → find_prev r l ≡ some vt → vt.version < r
unfolding find_prev
find_prev-lt r [] vt e = absurd (none≢some e)
find_prev-lt r (x ∷ l) vt e = elim (Bool-cases (ltb x.version r)) [
  | inl hit ↦
      let e' : some x ≡ some vt = rw hit at e in
      subst (λ (y : Version Cell). y.version < r) (some-same x vt e') (ground (arith, hit))
  | inr miss ↦ find_prev-lt r l vt (rw miss at e)
]

-- A write to the version that a reader finds is what the reader finds.
find_prev-write_version :
    (r : ℕ) (f : Cell → Cell) (l : List (Version Cell)) (vt : Version Cell)
    → find_prev r l ≡ some vt
    → (l' : List (Version Cell)) × (write_version vt.version f l ≡ some l')
      × (find_prev r l' ≡ some (record vt { value = f vt.value }))
unfolding find_prev write_version
find_prev-write_version r f [] vt e = absurd (none≢some e)
find_prev-write_version r f (x ∷ l) vt e = elim (Bool-cases (ltb x.version r)) [
  | inl hit ↦
      let e' : some x ≡ some vt = rw hit at e in
      subst
        (λ (y : Version Cell).
          (l' : List (Version Cell)) × (write_version y.version f (x ∷ l) ≡ some l')
          × (find_prev r l' ≡ some (record y { value = f y.value })))
        (some-same x vt e')
        (
          record x { value = f x.value } ∷ l,
          rw ((==_iff x.version x.version).1 refl) refl,
          rw hit refl,
        )
  | inr miss ↦
      let e' : find_prev r l ≡ some vt = rw miss at e in
      let (l', q, p) = find_prev-write_version r f l vt e' in
      let other : (x.version == vt.version) ≡ false =
        ground (arith, miss, find_prev-lt r l vt e') in
      (x ∷ l', rw (other, q) refl, rw miss p)
]

prev-write_key :
    (table : MvccTable) (row r : ℕ) (f : Cell → Cell) (vt : Version Cell)
    → get_key_version_prev_with_version table row r ≡ some vt
    → (table' : MvccTable) × (write_key table row vt.version f ≡ some table')
      × (get_key_version_prev_with_version table' row r ≡ some (record vt { value = f vt.value }))
unfolding get_key_version_prev_with_version
prev-write_key table row r f vt e = by_list (table row) refl e
  where
    by_list :
        (o : Option (List (Version Cell)))
        → table row ≡ o
        → (elim o as (λ _. Option (Version Cell)) [ none ↦ none | some l ↦ find_prev r l ])
          ≡ some vt
        → (table' : MvccTable) × (write_key table row vt.version f ≡ some table')
          × ((elim (table' row) as (λ _. Option (Version Cell)) [
            | none ↦ none
            | some l ↦ find_prev r l
          ])
              ≡ some (record vt { value = f vt.value }))
    by_list none q e = absurd (none≢some e)
    by_list (some l) q e =
        let (l', w, p) = find_prev-write_version r f l vt e in
        let self : (row == row) ≡ true = (==_iff row row).1 refl in
        let there : put table row (some l') row ≡ some l' = rw self refl in
        (
          put table row (some l'),
          write_key-some table row vt.version f l l' q w,
          ap
                (λ (o : Option (List (Version Cell))). elim o as (λ _. Option (Version Cell)) [
                  | none ↦ none
                  | some x ↦ find_prev r x
                ])
                there
              ∙ p,
        )

if-some :
    {A : Type 0} (b : Bool) (x y : A) → (if b then some x else some y) ≡ some (if b then x else y)
if-some true x y = refl
if-some false x y = refl

-- What a read makes of the version that it finds.
found-read_here :
    (is_master : ℕ → Bool) (table : MvccTable) (tid : ℕ) (k : BohmKey) (s : Reads)
    (vt : Version Cell)
    → get_key_version_prev_with_version table k.row tid ≡ some vt
    → read_here is_master false table tid k s
      ≡ some (
          if is_placeholder_ready vt.value.placeholder
          then (record k { value = vt.value.value; read_request = false }, s)
          else (k, record s { abort_read_not_ready = true }))
unfolding read_here search_prev get_key_version_prev
found-read_here is_master table tid k s vt e =
    rw (read_here, e)
      (if-some (is_placeholder_ready vt.value.placeholder)
        (record k { value = vt.value.value; read_request = false }, s)
        (k, record s { abort_read_not_ready = true }))

-- A reader whose version of a row is not ready marks its transaction as not ready. Between the two stores of the
-- `update` of that version it takes the value that the placeholder was inserted with for a read that is done,
-- whatever value is committed; after `update` it takes the committed one. With bohm_single_spin off.
pub update_begin-read_here :
    (is_master : ℕ → Bool) (table : MvccTable) (tid value : ℕ) (k : BohmKey) (s : Reads)
    (vt : Version Cell)
    → get_key_version_prev_with_version table k.row tid ≡ some vt
    → is_placeholder_ready vt.value.placeholder ≡ false
    → (read_here is_master false table tid k s ≡ some (k, record s { abort_read_not_ready = true }))
      × ((between : MvccTable) × (update_begin table k.row vt.version ≡ some between)
          × (read_here is_master false between tid k s
              ≡ some (record k { value = vt.value.value; read_request = false }, s))
          × ((after : MvccTable) × (update_end between k.row value vt.version ≡ some after)
              × (update table k.row value vt.version ≡ some after)
              × (read_here is_master false after tid k s
                  ≡ some (record k { value = value; read_request = false }, s))))
unfolding update update_begin update_end is_placeholder_ready
update_begin-read_here is_master table tid value k s vt e busy =
    let (between, q1, p1) =
      prev-write_key table k.row tid (λ c. record c { placeholder = 0 }) vt e in
    let (after, q2, p2) =
      prev-write_key between k.row tid (λ c. record c { value = value })
        (record vt { value = record { placeholder = 0; value = vt.value.value } }) p1 in
    (
      found-read_here is_master table tid k s vt e ∙ rw busy refl,
      (
        between,
        q1,
        found-read_here is_master between tid k s _ p1,
        (after, q2, rw q1 q2, found-read_here is_master after tid k s _ p2),
      ),
    )
