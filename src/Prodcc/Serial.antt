-- ===== src/Prodcc/Serial.antt =====
-- protocol/Prodcc/ProdccExecutor.h: the transactions of a micro-block all read the database as it was
-- when the block began, and those that commit then install their writes. The same transactions, run
-- one after another.
use prdcc.Base.{
  ℕ, ◌≡◌, refl, sym, ap, ◌∙◌, subst, inl, inr, Bool, true, false, List, [], ◌∷◌, In, any,
  if◌then◌else◌, ◌==◌, Bool-cases,
}
use prdcc.Prodcc.Transaction.{Txn, RwKey}
use prdcc.Prodcc.Message.{Db, store}

-- The effect of a commit on the database.
unfoldable pub apply_writes : List RwKey → Db → Db
apply_writes [] db = db
apply_writes (k ∷ ks) db = apply_writes ks (store db k.row k.value)

-- The commits of a block, in the order in which they happen.
unfoldable pub install : List Txn → Db → Db
install [] db = db
install (t ∷ ts) db = install ts (apply_writes t.write_set db)

-- What a transaction reads and writes when it runs on a database.
pub record Access : Type 0 where
  pub reads : List RwKey
  pub writes : List RwKey

-- The transactions, each run on what the ones before it left.
unfoldable pub serial_run : (ℕ → Db → Access) → List Txn → Db → Db
serial_run run [] db = db
serial_run run (t ∷ ts) db = serial_run run ts (apply_writes (run t.id db).writes db)

abbrev pub writes_row : ℕ → RwKey → Bool
writes_row row k = k.row == row

pub apply_writes-other :
    (ks : List RwKey) (db : Db) (row : ℕ)
    → any (writes_row row) ks ≡ false
    → apply_writes ks db row ≡ db row
unfolding apply_writes
apply_writes-other [] db row h = refl
apply_writes-other (k ∷ ks) db row h = elim (Bool-cases (k.row == row)) [
  | inl same ↦ cc (rw same at h)
  | inr other ↦ apply_writes-other ks (store db k.row k.value) row (rw other at h) ∙ rw other
]

here_of :
    (row : ℕ) (k : RwKey) (ks : List RwKey)
    → any (writes_row row) (k ∷ ks) ≡ true
    → any (writes_row row) ks ≡ false
    → (k.row == row) ≡ true
here_of row k ks h last = elim (Bool-cases (k.row == row)) [
  | inl same ↦ same
  | inr other ↦ cc (last, rw other at h)
]

store_same : (db db' : Db) (r row v : ℕ) → (r == row) ≡ true → store db r v row ≡ store db' r v row
store_same db db' r row v h = rw h

pub apply_writes-hit :
    (ks : List RwKey) (db db' : Db) (row : ℕ)
    → any (writes_row row) ks ≡ true
    → apply_writes ks db row ≡ apply_writes ks db' row
unfolding apply_writes
apply_writes-hit [] db db' row h = cc
apply_writes-hit (k ∷ ks) db db' row h = elim (Bool-cases (any (writes_row row) ks)) [
  | inl later ↦ apply_writes-hit ks (store db k.row k.value) (store db' k.row k.value) row later
  | inr last ↦
      let here = here_of row k ks h last in
      apply_writes-other ks (store db k.row k.value) row last
      ∙ store_same db db' k.row row k.value here
      ∙ sym (apply_writes-other ks (store db' k.row k.value) row last)
]

-- The transaction writes the row.
abbrev pub writes_to : ℕ → Txn → Bool
writes_to row t = any (writes_row row) t.write_set

if_same : (b : Bool) (v w : ℕ) → w ≡ v → (if b then v else w) ≡ v
if_same true v w h = refl
if_same false v w h = h

-- A row has the value of its one writer, or the old one if nobody writes it.
pub install-value :
    (cs : List Txn) (db : Db) (row v : ℕ)
    → ((u : Txn) → In u cs → writes_to row u ≡ true → (d : Db) → apply_writes u.write_set d row ≡ v)
    → install cs db row ≡ (if any (writes_to row) cs then v else db row)
unfolding install
install-value [] db row v h = refl
install-value (t ∷ ts) db row v h =
    let rest = install-value ts (apply_writes t.write_set db) row v (λ u i. h u (inr i)) in
    elim (Bool-cases (writes_to row t)) [
      | inl hit ↦ rest ∙ rw hit (if_same (any (writes_to row) ts) v _ (h t (inl refl) hit db))
      | inr miss ↦
          rest
          ∙ rw miss (
              ap (λ x. if any (writes_to row) ts then v else x)
                (apply_writes-other t.write_set db row miss))
    ]

-- Each transaction of the list reads nothing that one before it writes.
abbrev pub IsClear : List Txn → Type 0
IsClear [] = Unit
IsClear (t ∷ ts) =
    ((u : Txn) → In u ts → (k : RwKey) → In k u.read_set → writes_to k.row t ≡ false) × IsClear ts

-- The transactions as deterministic functions of what they read: `run id db` is what the transaction
-- `id` reads and writes on `db`. Their sets are those of a run on the database `snap` of the start of
-- the block.
pub record Programs (run : ℕ → Db → Access) (snap : Db) (ts : List Txn) : Type 0 where
  pub stable :
      (id : ℕ) (db db' : Db)
      → ((k : RwKey) → In k (run id db).reads → db' k.row ≡ db k.row)
      → run id db' ≡ run id db
  pub reads : (t : Txn) → In t ts → t.read_set ≡ (run t.id snap).reads
  pub writes : (t : Txn) → In t ts → t.write_set ≡ (run t.id snap).writes

module _ (run : ℕ → Db → Access) (snap : Db) where
  pub serial_run-install :
      (ts : List Txn) (db : Db)
      → Programs run snap ts
      → IsClear ts
      → ((t : Txn) → In t ts → (k : RwKey) → In k t.read_set → db k.row ≡ snap k.row)
      → serial_run run ts db ≡ install ts db
  unfolding serial_run install
  serial_run-install [] db p c same = refl
  serial_run-install (t ∷ ts) db p c same =
      let again : run t.id db ≡ run t.id snap =
        p.stable t.id snap db
          λ k i. same t (inl refl) k (subst (In k) (sym (p.reads t (inl refl))) i) in
      let ws : (run t.id db).writes ≡ t.write_set =
        ap (λ a. a.writes) again ∙ sym (p.writes t (inl refl)) in
      ap (λ w. serial_run run ts (apply_writes w db)) ws
      ∙ serial_run-install ts (apply_writes t.write_set db)
          (record {
            stable = p.stable;
            reads = λ u i. p.reads u (inr i);
            writes = λ u i. p.writes u (inr i);
          })
          c.1
          (λ u i k j. apply_writes-other t.write_set db k.row (c.0 u i k j) ∙ same u (inr i) k j)
