-- ===== src/Prodcc/Serializable.antt =====
-- protocol/Prodcc/ProdccExecutor.h: the commits of a micro-block and a serial run of the same transactions.
use mathlib.Core.Bool.{false≢true}
use prdcc.Base.{
  ℕ, ◌<◌, ◌≡◌, ◌≢◌, refl, sym, ap, ◌∙◌, ◌↔◌, inl, inr, true, false, List, [], ◌∷◌, In, any, any_iff,
  ==_iff, arith, Bool-cases, subst, if◌then◌else◌,
}
use prdcc.Prodcc.Transaction.{Txn, RwKey}
use prdcc.Prodcc.Message.{Db}
use prdcc.Prodcc.Executor.{Context}
use prdcc.Prodcc.Ops.{Writes}
use prdcc.Prodcc.Precedence.{rank, rank-lt, one_writer, Settled, Commits, rank-injective}
use prdcc.Prodcc.Order.{serial_order, IsOrdered, IsApart, In-serial_order, serial_order-IsOrdered}
use prdcc.Prodcc.Serial.{
  apply_writes, apply_writes-hit, install, install-value, Access, serial_run, Programs, IsClear,
  writes_to, serial_run-install,
}

-- No id occurs twice.
abbrev pub HasDistinctIds : List Txn → Type 0
HasDistinctIds [] = Unit
HasDistinctIds (t ∷ ts) = ((u : Txn) → In u ts → t.id ≢ u.id) × HasDistinctIds ts

same_of_id :
    (ts : List Txn) (t u : Txn) → HasDistinctIds ts → In t ts → In u ts → t.id ≡ u.id → t ≡ u
same_of_id [] t u d i j e = absurd i
same_of_id (x ∷ xs) t u d (inl p) (inl q) e = p ∙ sym q
same_of_id (x ∷ xs) t u d (inl p) (inr j) e = absurd (d.0 u j (ap (λ y. y.id) (sym p) ∙ e))
same_of_id (x ∷ xs) t u d (inr i) (inl q) e = absurd (d.0 t i (ap (λ y. y.id) (sym q) ∙ sym e))
same_of_id (x ∷ xs) t u d (inr i) (inr j) e = same_of_id xs t u d.1 i j e

writes_to_iff : (row : ℕ) (t : Txn) → (writes_to row t ≡ true) ↔ Writes t row
writes_to_iff row t = (
  λ h. let (k, i, p) = (any_iff _ t.write_set).0 h in (k, i, (==_iff k.row row).0 p),
  λ (k, i, p). (any_iff _ t.write_set).1 (k, i, (==_iff k.row row).1 p),
)

-- A block whose transactions have gone through their analysis, and the commits `cs` of those on
-- which the decision is to commit, in whatever order they happen.
pub record Committed (c : Context) (ts cs : List Txn) (settled : Txn → Txn) : Type 0 where
  pub serial : c.snapshot_isolation ≡ false
  pub block : (t : Txn) → In t ts → Settled c ts settled t
  pub commits : (t : Txn) → In t cs → In t ts × Commits c (settled t)
  pub distinct : HasDistinctIds cs
  -- A local index is never written.
  pub index :
      (t u : Txn)
      → In t ts
      → In u ts
      → (k : RwKey) → In k t.read_set
      → k.local_index ≡ true
      → writes_to k.row u ≡ false

module _ (c : Context) (ts cs : List Txn) (settled : Txn → Txn)
    (b : Committed c ts cs settled) where
  abbrev rank_of : Txn → ℕ
  rank_of t = rank c t (settled t)

  apart : (xs : List Txn) → HasDistinctIds xs → ((t : Txn) → In t xs → In t cs) → IsApart rank_of xs
  apart [] d sub = tt
  apart (t ∷ ts') d sub = (
    λ u i e. d.0 u i (
        rank-injective c t u (settled t) (settled u)
          (b.block t (b.commits t (sub t (inl refl))).0).tid
          (b.block u (b.commits u (sub u (inr i))).0).tid e),
    apart ts' d.1 (λ u i. sub u (inr i)),
  )

  -- A transaction before another one in the order does not write what that reads.
  before :
      (t u : Txn)
      → In t cs
      → In u cs
      → rank_of t < rank_of u
      → (k : RwKey) → In k u.read_set
      → writes_to k.row t ≡ false
  before t u i j lt k m =
      let (it, ct) = b.commits t i in
      let (iu, cu) = b.commits u j in
      elim (Bool-cases (writes_to k.row t)) [
        | inr no_write ↦ no_write
        | inl hit ↦ elim (Bool-cases k.local_index) [
          | inl index ↦ b.index u t iu it k m index
          | inr plain ↦
              let ne : u.id ≢ t.id = λ e.
                let p = same_of_id cs u t b.distinct j i e in let q = ap rank_of p in omega arith in
              let gt =
                rank-lt c ts settled b.serial u t (b.block u iu) (b.block t it) cu ct k.row ne
                  (k, m, plain, refl) ((writes_to_iff k.row t).0 hit) in
              absurd (omega arith)
        ]
      ]

  order-IsClear :
      (xs : List Txn) → IsOrdered rank_of xs → ((t : Txn) → In t xs → In t cs) → IsClear xs
  order-IsClear [] o sub = tt
  order-IsClear (t ∷ xs) o sub = (
    λ u i k m. before t u (sub t (inl refl)) (sub u (inr i)) (o.0 u i) k m,
    order-IsClear xs o.1 (λ u i. sub u (inr i)),
  )

  -- The value that a row gets from a transaction that writes it does not depend on the others.
  one_value :
      (t : Txn) (row : ℕ) (db : Db)
      → In t cs
      → writes_to row t ≡ true
      → (u : Txn) → In u cs
      → writes_to row u ≡ true
      → (d : Db) → apply_writes u.write_set d row ≡ apply_writes t.write_set db row
  one_value t row db i hit u j hit' d =
      let (it, ct) = b.commits t i in
      let (iu, cu) = b.commits u j in
      let e =
        one_writer c ts settled b.serial t u (b.block t it) (b.block u iu) ct cu row
          ((writes_to_iff row t).0 hit) ((writes_to_iff row u).0 hit') in
      let p = same_of_id cs t u b.distinct i j e in
      subst (λ x. apply_writes x.write_set d row ≡ apply_writes t.write_set db row) p
        (apply_writes-hit t.write_set d db row hit)

  nobody_writes :
      (xs : List Txn) (db : Db) (row : ℕ)
      → ((t : Txn) → In t xs ↔ In t cs)
      → any (writes_to row) cs ≡ false
      → install xs db row ≡ install cs db row
  nobody_writes xs db row same none =
      let vacuous = λ (u : Txn) (i : In u cs) (hit : writes_to row u ≡ true).
        false≢true (sym none ∙ (any_iff (writes_to row) cs).1 (u, i, hit)) in
      let also : any (writes_to row) xs ≡ false = elim (Bool-cases (any (writes_to row) xs)) [
        | inr no_writer ↦ no_writer
        | inl hit ↦ let (u, i, h) = (any_iff _ xs).0 hit in absurd (vacuous u ((same u).0 i) h)
      ] in
      install-value xs db row 0 (λ u i h d. absurd (vacuous u ((same u).0 i) h))
      ∙ ap (λ x. if x then 0 else db row) (also ∙ sym none)
      ∙ sym (install-value cs db row 0 (λ u i h d. absurd (vacuous u i h)))

  -- The order in which the commits happen does not matter.
  pub install-order :
      (xs : List Txn) (db : Db) (row : ℕ)
      → ((t : Txn) → In t xs ↔ In t cs)
      → install xs db row ≡ install cs db row
  install-order xs db row same = elim (Bool-cases (any (writes_to row) cs)) [
    | inl some_writer ↦
        let (t, i, hit) = (any_iff _ cs).0 some_writer in
        let v = one_value t row db i hit in
        let also : any (writes_to row) xs ≡ true = (any_iff _ xs).1 (t, (same t).1 i, hit) in
        install-value xs db row _ (λ u j. v u ((same u).0 j))
        ∙ ap (λ x. if x then apply_writes t.write_set db row else db row) (also ∙ sym some_writer)
        ∙ sym (install-value cs db row _ v)
    | inr nobody ↦ nobody_writes xs db row same nobody
  ]

  -- The commits of a micro-block, however they are ordered, leave the database that the same
  -- transactions leave when they run one after another in the order of their ranks.
  pub serializable :
      (run : ℕ → Db → Access) (snap : Db)
      → Programs run snap cs
      → (row : ℕ) → install cs snap row ≡ serial_run run (serial_order rank_of cs) snap row
  serializable run snap p row =
      let order = serial_order rank_of cs in
      let inside = λ (t : Txn) (i : In t order). (In-serial_order rank_of t cs).0 i in
      let clear =
        order-IsClear order (serial_order-IsOrdered rank_of cs (apart cs b.distinct (λ t i. i)))
          inside in
      sym (install-order order snap row (λ t. In-serial_order rank_of t cs))
      ∙ ap (λ f. f row)
          (sym (
            serial_run-install run snap order snap
              (record {
                stable = p.stable;
                reads = λ t i. p.reads t (inside t i);
                writes = λ t i. p.writes t (inside t i);
              })
              clear (λ t i k j. refl)))
