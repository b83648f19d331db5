-- ===== src/Prodcc/Ops.antt =====
-- protocol/Prodcc/ProdccExecutor.h: which transactions have reserved a row, read from the operations
-- of a micro-block.
use mathlib.Core.Bool.{false≢true}
use prdcc.Base.{
  ℕ, ◌≡◌, refl, sym, ap, ap₂, ◌∙◌, ◌↔◌, inl, inr, false, ◌&&◌, List, [], ◌∷◌, In, concat_map,
  In-append, In-concat_map, ◌==◌, ==_iff, Bool-cases,
}
use prdcc.Aria.Reservation.{Request, read, write, readers, writers, readers-In, writers-In}
use prdcc.Prodcc.Transaction.{Txn, RwKey, is_read_only, u32}
use prdcc.Prodcc.Executor.{Context}
use prdcc.Prodcc.Reserve.{Op, read_ops, write_ops, ops_of}
use prdcc.Prodcc.Rows.{at}

-- The rows that a transaction touches, other than by local index reads.
abbrev pub Reads : Txn → ℕ → Type 0
Reads t row = (k : RwKey) × In k t.read_set × (k.local_index ≡ false) × (k.row ≡ row)

abbrev pub Writes : Txn → ℕ → Type 0
Writes t row = (k : RwKey) × In k t.write_set × (k.row ≡ row)

-- The transaction is not passed over as read-only.
abbrev pub Takes : Context → Txn → Type 0
Takes c t = (c.read_only_optimization && is_read_only t) ≡ false

abbrev pub op_at : ℕ → Request → Op
op_at row q = record { row = row; request = q }

tid_of : Request → ℕ
tid_of (read t) = t
tid_of (write t) = t

tid_path : {row tid row' tid' : ℕ} → op_at row (read tid) ≡ op_at row' (read tid') → tid ≡ tid'
unfolding tid_of
tid_path q = ap (λ x. tid_of x.request) q

tid_path' : {row tid row' tid' : ℕ} → op_at row (write tid) ≡ op_at row' (write tid') → tid ≡ tid'
unfolding tid_of
tid_path' q = ap (λ x. tid_of x.request) q

kinds : {t u : ℕ} → read t ≡ write u → ⊥
kinds p = cc

pub In-at : (q : Request) (row : ℕ) (os : List Op) → In q (at row os) ↔ In (op_at row q) os
In-at q row [] = (λ h. h, λ h. h)
In-at q row (o ∷ os) = elim (Bool-cases (o.row == row)) [
  | inl same ↦
      let e = (==_iff o.row row).0 same in
      rw same (
        λ h. elim h [ inl p ↦ inl (ap₂ op_at (sym e) p) | inr m ↦ inr ((In-at q row os).0 m) ],
        λ h. elim h [ inl p ↦ inl (ap (λ x. x.request) p) | inr m ↦ inr ((In-at q row os).1 m) ],
      )
  | inr other ↦ rw other (
    λ h. inr ((In-at q row os).0 h),
    λ h. elim h [
      | inl p ↦ cc (other, (==_iff o.row row).1 (ap (λ x. x.row) (sym p)))
      | inr m ↦ (In-at q row os).1 m
    ],
  )
]

In-read_ops :
    (row tid id : ℕ) (ks : List RwKey)
    → In (op_at row (read tid)) (read_ops id ks)
      ↔ ((tid ≡ id) × ((k : RwKey) × In k ks × (k.local_index ≡ false) × (k.row ≡ row)))
In-read_ops row tid id [] = (λ h. absurd h, λ h. absurd h.1.1)
In-read_ops row tid id (k ∷ ks) = elim (Bool-cases k.local_index) [
  | inl index ↦ simp index (
    λ h. let (p, (x, m, l, e)) = (In-read_ops row tid id ks).0 h in (p, (x, inr m, l, e)),
    λ (p, (x, m, l, e)). elim m [
      | inl q ↦ absurd (false≢true (sym l ∙ ap (λ y. y.local_index) q ∙ index))
      | inr m' ↦ (In-read_ops row tid id ks).1 (p, (x, m', l, e))
    ],
  )
  | inr plain ↦ simp plain (
    λ h. elim h [
      | inl q ↦ (tid_path q, (k, inl refl, plain, sym (ap (λ x. x.row) q)))
      | inr m ↦ let (p, (x, m', l, e)) = (In-read_ops row tid id ks).0 m in (p, (x, inr m', l, e))
    ],
    λ (p, (x, m, l, e)). elim m [
      | inl q ↦ inl (ap₂ op_at (sym e ∙ ap (λ y. y.row) q) (ap read p))
      | inr m' ↦ inr ((In-read_ops row tid id ks).1 (p, (x, m', l, e)))
    ],
  )
]

In-write_ops :
    (row tid id : ℕ) (ks : List RwKey)
    → In (op_at row (write tid)) (write_ops id ks)
      ↔ ((tid ≡ id) × ((k : RwKey) × In k ks × (k.row ≡ row)))
In-write_ops row tid id [] = (λ h. absurd h, λ h. absurd h.1.1)
In-write_ops row tid id (k ∷ ks) = (
  λ h. elim h [
    | inl q ↦ (tid_path' q, (k, inl refl, sym (ap (λ x. x.row) q)))
    | inr m ↦ let (p, (x, m', e)) = (In-write_ops row tid id ks).0 m in (p, (x, inr m', e))
  ],
  λ (p, (x, m, e)). elim m [
    | inl q ↦ inl (ap₂ op_at (sym e ∙ ap (λ y. y.row) q) (ap write p))
    | inr m' ↦ inr ((In-write_ops row tid id ks).1 (p, (x, m', e)))
  ],
)

-- No operation of the wrong kind.
read-not-write_ops :
    (row tid id : ℕ) (ks : List RwKey) → ¬ In (op_at row (read tid)) (write_ops id ks)
read-not-write_ops row tid id [] h = h
read-not-write_ops row tid id (k ∷ ks) (inl q) = kinds (ap (λ x. x.request) q)
read-not-write_ops row tid id (k ∷ ks) (inr m) = read-not-write_ops row tid id ks m

write-not-read_ops :
    (row tid id : ℕ) (ks : List RwKey) → ¬ In (op_at row (write tid)) (read_ops id ks)
write-not-read_ops row tid id [] h = h
write-not-read_ops row tid id (k ∷ ks) h = elim (Bool-cases k.local_index) [
  | inl index ↦ write-not-read_ops row tid id ks (simp index at h)
  | inr plain ↦ elim (simp plain at h) [
    | inl q ↦ kinds (sym (ap (λ x. x.request) q))
    | inr m ↦ write-not-read_ops row tid id ks m
  ]
]

pub In-ops_of_read :
    (c : Context) (t : Txn) (row tid : ℕ)
    → In (op_at row (read tid)) (ops_of c t) ↔ (Takes c t × (tid ≡ u32 t.id) × Reads t row)
In-ops_of_read c t row tid = elim (Bool-cases (c.read_only_optimization && is_read_only t)) [
  | inl skip ↦ rw skip (λ h. absurd h, λ h. cc)
  | inr go ↦ rw go (
    λ h. elim ((In-append _ (read_ops (u32 t.id) t.read_set) _).0 h) [
      | inl m ↦ let (p, r) = (In-read_ops row tid (u32 t.id) t.read_set).0 m in (refl, p, r)
      | inr m ↦ absurd (read-not-write_ops row tid (u32 t.id) t.write_set m)
    ],
    λ (_, p, r).
        (In-append _ (read_ops (u32 t.id) t.read_set) _).1
          (inl ((In-read_ops row tid (u32 t.id) t.read_set).1 (p, r))),
  )
]

pub In-ops_of_write :
    (c : Context) (t : Txn) (row tid : ℕ)
    → In (op_at row (write tid)) (ops_of c t) ↔ (Takes c t × (tid ≡ u32 t.id) × Writes t row)
In-ops_of_write c t row tid = elim (Bool-cases (c.read_only_optimization && is_read_only t)) [
  | inl skip ↦ rw skip (λ h. absurd h, λ h. cc)
  | inr go ↦ rw go (
    λ h. elim ((In-append _ (read_ops (u32 t.id) t.read_set) _).0 h) [
      | inl m ↦ absurd (write-not-read_ops row tid (u32 t.id) t.read_set m)
      | inr m ↦ let (p, r) = (In-write_ops row tid (u32 t.id) t.write_set).0 m in (refl, p, r)
    ],
    λ (_, p, r).
        (In-append _ (read_ops (u32 t.id) t.read_set) _).1
          (inr ((In-write_ops row tid (u32 t.id) t.write_set).1 (p, r))),
  )
]

-- A sequence of operations that consists of those of the transactions `ts`: in any order, and
-- perhaps with repetitions.
abbrev pub Interleaves : Context → List Txn → List Op → Type 0
Interleaves c ts os = (o : Op) → In o os ↔ In o (concat_map (ops_of c) ts)

module _ (c : Context) (ts : List Txn) (os : List Op) (all : Interleaves c ts os) where
  pub reader_of :
      (row tid : ℕ)
      → In tid (readers (at row os))
        ↔ ((u : Txn) × In u ts × Takes c u × (tid ≡ u32 u.id) × Reads u row)
  reader_of row tid = (
    λ h.
        let o = (all _).0 ((In-at _ row os).0 ((readers-In tid (at row os)).0 h)) in
        let (u, m, i) = (In-concat_map (ops_of c) _ ts).0 o in
        let (g, p, r) = (In-ops_of_read c u row tid).0 i in (u, m, g, p, r),
    λ (u, m, g, p, r). (readers-In tid (at row os)).1 (
        (In-at _ row os).1 (
          (all _).1
            ((In-concat_map (ops_of c) _ ts).1 (u, m, (In-ops_of_read c u row tid).1 (g, p, r))))),
  )

  pub writer_of :
      (row tid : ℕ)
      → In tid (writers (at row os))
        ↔ ((u : Txn) × In u ts × Takes c u × (tid ≡ u32 u.id) × Writes u row)
  writer_of row tid = (
    λ h.
        let o = (all _).0 ((In-at _ row os).0 ((writers-In tid (at row os)).0 h)) in
        let (u, m, i) = (In-concat_map (ops_of c) _ ts).0 o in
        let (g, p, r) = (In-ops_of_write c u row tid).0 i in (u, m, g, p, r),
    λ (u, m, g, p, r). (writers-In tid (at row os)).1 (
        (In-at _ row os).1 (
          (all _).1
            ((In-concat_map (ops_of c) _ ts).1 (u, m, (In-ops_of_write c u row tid).1 (g, p, r))))),
  )
