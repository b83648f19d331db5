-- ===== src/Prodcc/Block.antt =====
-- protocol/Prodcc/ProdccExecutor.h: a micro-block through its reservation and its analysis, and what the
-- flags of its transactions say.
pub mod Words
use native.Mathlib.Nat.{mod-eq_of_lt}
use prdcc.Base.{
  ℕ, ◌^◌, ◌<◌, ◌≡◌, refl, sym, ap, ap₂, ◌∙◌, subst, ◌↔◌, inl, inr, Bool, true, false, ◌&&◌, not,
  some, List, [], ◌∷◌, In, All, any, any_iff, concat_map, In-concat_map, arith,
}
use prdcc.Aria.Helper.{get_epoch}
use prdcc.Aria.Least.{IsTid, merge, merge-lt, merge-is_earlier, is_earlier}
use prdcc.Aria.Fields.{pack, Fits, get_epoch-pack, get_rts-pack, get_wts-pack}
use prdcc.Aria.Reservation.{Request, read, write, readers, writers, IsValid}
use prdcc.Prodcc.Transaction.{Txn, u32}
use prdcc.Prodcc.Message.{Meta, writer_before, reader_before}
use prdcc.Prodcc.Executor.{Context, analyze_dependency}
use prdcc.Prodcc.Reserve.{Op, run_ops, ops_of}
use prdcc.Prodcc.Rows.{at, word_of, IsValidOp, at-IsValid, run_ops-word_of}
use prdcc.Prodcc.Ops.{
  Reads, Writes, Takes, Interleaves, op_at, reader_of, writer_of, In-ops_of_read, In-ops_of_write,
}
use prdcc.Prodcc.Analysis.{settle, analyze_dependency-flags}
use prdcc.Prodcc.Block.Words.{writer_before-word_of, reader_before-word_of}

-- What the manager and the executor see to before the block's reservations: an epoch that fits its
-- field, ids that fit theirs, and clear flags.
pub record IsFresh (e : ℕ) (t : Txn) : Type 0 where
  pub epoch : t.epoch ≡ e
  pub tid : IsTid t.id
  pub raw : t.raw ≡ false
  pub war : t.war ≡ false
  pub waw : t.waw ≡ false

pub record IsBlock (e : ℕ) (ts : List Txn) : Type 0 where
  pub pos : 0 < e
  pub small : e < 2 ^ 24
  pub fresh : (t : Txn) → In t ts → IsFresh e t

-- The flags of `t` say exactly whether a transaction of the block with a smaller id writes what `t`
-- reads, reads what `t` writes, or writes what `t` writes.
pub record IsExact (c : Context) (ts : List Txn) (t s : Txn) : Type 0 where
  pub raw_iff :
      (s.raw ≡ true)
      ↔ ((u : Txn) × In u ts × Takes c u × (u.id < t.id) × ((row : ℕ) × Reads t row × Writes u row))
  pub war_iff :
      (s.war ≡ true)
      ↔ ((u : Txn) × In u ts × Takes c u × (u.id < t.id) × ((row : ℕ) × Writes t row × Reads u row))
  pub waw_iff : (s.waw ≡ true) ↔ (
      (u : Txn) × In u ts × Takes c u × (u.id < t.id) × ((row : ℕ) × Writes t row × Writes u row))

and_true : (a b : Bool) → (not a && b) ≡ true → (a ≡ false) × (b ≡ true)
and_true true b h = cc
and_true false b h = (refl, h)

true_and : (a b : Bool) → a ≡ false → b ≡ true → (not a && b) ≡ true
true_and a b p q = rw (p, q)

iff_trans : {a b : Bool} {P : Type 0} → a ≡ b → (b ≡ true) ↔ P → (a ≡ true) ↔ P
iff_trans p h = (λ q. h.0 (sym p ∙ q), λ x. p ∙ h.1 x)

All-of_In : {A : Type 0} (P : A → Type 0) (xs : List A) → ((x : A) → In x xs → P x) → All P xs
All-of_In P [] h = tt
All-of_In P (x ∷ xs) h = (h x (inl refl), All-of_In P xs (λ y m. h y (inr m)))

module _ (c : Context) (e : ℕ) (ts : List Txn) (os : List Op) (b : IsBlock e ts)
    (all : Interleaves c ts os) where
  id_fits : (t : Txn) → In t ts → IsTid (u32 t.id)
  id_fits t m = let h = (b.fresh t m).tid in omega arith

  op_valid : (o : Op) → In o os → IsValidOp o
  op_valid o m = go o.request ((all o).0 m)
    where
      go : (q : Request) → In (op_at o.row q) (concat_map (ops_of c) ts) → IsValid (q ∷ [])
      go (read tid) h =
          let (u, n, i) = (In-concat_map (ops_of c) _ ts).0 h in
          let p = ((In-ops_of_read c u o.row tid).0 i).1 in
          ((subst IsTid (sym p) (id_fits u n), tt), tt)
      go (write tid) h =
          let (u, n, i) = (In-concat_map (ops_of c) _ ts).0 h in
          let p = ((In-ops_of_write c u o.row tid).0 i).1 in
          (tt, (subst IsTid (sym p) (id_fits u n), tt))

  ops_valid : All IsValidOp os
  ops_valid = All-of_In IsValidOp os op_valid

  small_id : (t : Txn) → In t ts → t.id < 2 ^ 32
  small_id t m = let h = (b.fresh t m).tid in omega arith

  same_id : (t : Txn) → In t ts → u32 t.id ≡ t.id
  same_id t m = mod-eq_of_lt (small_id t m)

  writer_iff :
      (id row : ℕ)
      → (writer_before (word_of e (at row os)) e id ≡ true)
        ↔ ((u : Txn) × In u ts × Takes c u × (u.id < id) × Writes u row)
  writer_iff id row =
      let w = writer_before-word_of e (at row os) id b.pos b.small (at-IsValid row os ops_valid) in
      (
        λ h.
            let (i, n, lt) = w.0 h in
            let (u, n', g, p, x) = (writer_of c ts os all row i).0 n in
            (u, n', g, subst (λ j. j < id) (p ∙ same_id u n') lt, x),
        λ (u, n, g, lt, x). w.1 (
          u32 u.id,
          (writer_of c ts os all row _).1 (u, n, g, refl, x),
          subst (λ j. j < id) (sym (same_id u n)) lt,
        ),
      )

  reader_iff :
      (id row : ℕ)
      → (reader_before (word_of e (at row os)) e id ≡ true)
        ↔ ((u : Txn) × In u ts × Takes c u × (u.id < id) × Reads u row)
  reader_iff id row =
      let w = reader_before-word_of e (at row os) id b.pos b.small (at-IsValid row os ops_valid) in
      (
        λ h.
            let (i, n, lt) = w.0 h in
            let (u, n', g, p, x) = (reader_of c ts os all row i).0 n in
            (u, n', g, subst (λ j. j < id) (p ∙ same_id u n') lt, x),
        λ (u, n, g, lt, x). w.1 (
          u32 u.id,
          (reader_of c ts os all row _).1 (u, n, g, refl, x),
          subst (λ j. j < id) (sym (same_id u n)) lt,
        ),
      )

  module _ (m : Meta) (words : (row : ℕ) → m row ≡ word_of e (at row os)) (t : Txn)
      (n : In t ts) where
    writer_path :
        (row : ℕ)
        → writer_before (m row) t.epoch t.id ≡ writer_before (word_of e (at row os)) e t.id
    writer_path row = ap₂ (λ a x. writer_before a x t.id) (words row) (b.fresh t n).epoch

    reader_path :
        (row : ℕ)
        → reader_before (m row) t.epoch t.id ≡ reader_before (word_of e (at row os)) e t.id
    reader_path row = ap₂ (λ a x. reader_before a x t.id) (words row) (b.fresh t n).epoch

    raw_lem :
        (any (λ k. not k.local_index && writer_before (m k.row) t.epoch t.id) t.read_set ≡ true) ↔ (
          (u : Txn) × In u ts
          × Takes c u
          × (u.id < t.id)
          × ((row : ℕ) × Reads t row × Writes u row))
    raw_lem = (
      λ h.
          let (k, i, p) = (any_iff _ t.read_set).0 h in
          let (plain, hit) = and_true k.local_index _ p in
          let (u, j, g, lt, x) = (writer_iff t.id k.row).0 (sym (writer_path k.row) ∙ hit) in
          (u, j, g, lt, (k.row, (k, i, plain, refl), x)),
      λ (u, j, g, lt, (row, (k, i, plain, at_row), x)).
          let hit = writer_path row ∙ (writer_iff t.id row).1 (u, j, g, lt, x) in
          (any_iff _ t.read_set).1 (
            k,
            i,
            true_and k.local_index _ plain
                (ap (λ r. writer_before (m r) t.epoch t.id) at_row ∙ hit),
          ),
    )

    war_lem : (any (λ k. reader_before (m k.row) t.epoch t.id) t.write_set ≡ true) ↔ (
        (u : Txn) × In u ts × Takes c u × (u.id < t.id) × ((row : ℕ) × Writes t row × Reads u row))
    war_lem = (
      λ h.
          let (k, i, hit) = (any_iff _ t.write_set).0 h in
          let (u, j, g, lt, x) = (reader_iff t.id k.row).0 (sym (reader_path k.row) ∙ hit) in
          (u, j, g, lt, (k.row, (k, i, refl), x)),
      λ (u, j, g, lt, (row, (k, i, at_row), x)).
          let hit = reader_path row ∙ (reader_iff t.id row).1 (u, j, g, lt, x) in
          (any_iff _ t.write_set).1 (k, i, ap (λ r. reader_before (m r) t.epoch t.id) at_row ∙ hit),
    )

    waw_lem : (any (λ k. writer_before (m k.row) t.epoch t.id) t.write_set ≡ true) ↔ (
        (u : Txn) × In u ts × Takes c u × (u.id < t.id) × ((row : ℕ) × Writes t row × Writes u row))
    waw_lem = (
      λ h.
          let (k, i, hit) = (any_iff _ t.write_set).0 h in
          let (u, j, g, lt, x) = (writer_iff t.id k.row).0 (sym (writer_path k.row) ∙ hit) in
          (u, j, g, lt, (k.row, (k, i, refl), x)),
      λ (u, j, g, lt, (row, (k, i, at_row), x)).
          let hit = writer_path row ∙ (writer_iff t.id row).1 (u, j, g, lt, x) in
          (any_iff _ t.write_set).1 (k, i, ap (λ r. writer_before (m r) t.epoch t.id) at_row ∙ hit),
    )

  -- From cleared metadata, whatever the order of the reservations, they all go through, and the
  -- analysis of each transaction then leaves exact flags, however its rows are spread over the nodes.
  pub block_flags :
      (is_master : ℕ → Bool) (m : Meta)
      → ((row : ℕ) → m row ≡ 0)
      → (m' : Meta) × (run_ops e os m ≡ some m')
        × ((t : Txn)
            → In t ts
            → Takes c t
            → let (t', out) = analyze_dependency is_master c m' (t, []) in
              IsExact c ts t (settle m' out t'))
  block_flags is_master m clear =
      let (m', ran, words) = run_ops-word_of e os m b.pos b.small ops_valid clear in
      (
        m',
        ran,
        λ t n g.
            let f = b.fresh t n in
            let (fr, fa, fw) =
              analyze_dependency-flags m' is_master c t (small_id t n) g f.raw f.war f.waw in
            record {
              raw_iff = iff_trans fr (raw_lem m' words t n);
              war_iff = iff_trans fa (war_lem m' words t n);
              waw_iff = iff_trans fw (waw_lem m' words t n);
            },
      )
