-- ===== src/Prodcc/Rows.antt =====
-- protocol/Prodcc/ProdccExecutor.h: what the reservations of a micro-block leave in each row.
use prdcc.Base.{
  ℕ, ◌^◌, ◌<◌, ◌≡◌, refl, sym, ap, ◌∙◌, ◌⊎◌, inl, inr, none, some, List, [], ◌∷◌, All, arith, ◌==◌,
  ==_iff, if◌then◌else◌, Bool-cases, Option-cases,
}
use prdcc.Aria.Helper.{get_epoch}
use prdcc.Aria.Least.{merge, merge-lt}
use prdcc.Aria.Fields.{pack, Fits}
use prdcc.Aria.Reservation.{
  Request, reserve, reserve_all, readers, writers, IsValid, reserve_all-newer, reserve_all-pack,
  reserve_all-one, cons_IsValid,
}
use prdcc.Prodcc.Message.{Meta, store}
use prdcc.Prodcc.Reserve.{Op, run_op, run_ops}

-- The requests for one row.
abbrev pub at : ℕ → List Op → List Request
at row [] = []
at row (o ∷ os) = if o.row == row then o.request ∷ at row os else at row os

run_ops-at :
    (e : ℕ) (os : List Op) (m m' : Meta) (row : ℕ)
    → run_ops e os m ≡ some m'
    → reserve_all e (at row os) (m row) ≡ some (m' row)
unfolding run_ops run_op reserve_all
run_ops-at e [] m m' row h = ap (λ x. elim x [ none ↦ none | some f ↦ some (f row) ]) h
run_ops-at e (o ∷ os) m m' row h = elim (Option-cases (reserve e o.request (m o.row))) [
  | inl p ↦ ground arith
  | inr (a, p) ↦
      let next : run_ops e os (store m o.row a) ≡ some m' = ground arith in
      let rest = run_ops-at e os (store m o.row a) m' row next in
      elim (Bool-cases (o.row == row)) [
        | inl same ↦
            let here : m o.row ≡ m row = ap m ((==_iff o.row row).0 same) in ground (arith, rest)
        | inr other ↦ ground (arith, rest)
      ]
]

-- A row's word in the epoch of the block: cleared, or with fields that fit.
abbrev IsReady : ℕ → ℕ → Type 0
IsReady e a = (a ≡ 0) ⊎ ((r : ℕ) × (w : ℕ) × Fits e r w × (a ≡ pack e r w))

merged-Fits :
    (e r w : ℕ) (q : Request)
    → e < 2 ^ 24
    → r < 2 ^ 20
    → w < 2 ^ 20
    → IsValid (q ∷ [])
    → Fits e (merge r (readers (q ∷ []))) (merge w (writers (q ∷ [])))
merged-Fits e r w q small hr hw v = record {
  epoch = small;
  rts = merge-lt r _ hr v.0;
  wts = merge-lt w _ hw v.1;
}

reserve-IsReady :
    (e : ℕ) (q : Request) (a : ℕ)
    → 0 < e
    → e < 2 ^ 24
    → IsValid (q ∷ [])
    → IsReady e a
    → (b : ℕ) × (reserve e q a ≡ some b) × IsReady e b
unfolding get_epoch
reserve-IsReady e q a pos small v (inl z) = (
  _,
  sym (reserve_all-one a e q)
      ∙ reserve_all-newer a e q [] (omega arith) (rw z (omega arith)) small v,
  inr (_, _, merged-Fits e 0 0 q small (omega arith) (omega arith) v, refl),
)
reserve-IsReady e q a pos small v (inr (r, w, f, p)) = (
  _,
  sym (reserve_all-one a e q) ∙ ap (reserve_all e (q ∷ [])) p ∙ reserve_all-pack e r w (q ∷ []) f v,
  inr (_, _, merged-Fits e r w q small f.rts f.wts v, refl),
)

abbrev pub IsValidOp : Op → Type 0
IsValidOp o = IsValid (o.request ∷ [])

run_op-IsReady :
    (e : ℕ) (o : Op) (m : Meta)
    → 0 < e
    → e < 2 ^ 24
    → IsValidOp o
    → ((row : ℕ) → IsReady e (m row))
    → (m' : Meta) × (run_op e o m ≡ some m') × ((row : ℕ) → IsReady e (m' row))
unfolding run_op
run_op-IsReady e o m pos small v ready =
    let (a, p, ok) = reserve-IsReady e o.request (m o.row) pos small v (ready o.row) in
    (
      store m o.row a,
      rw (p, run_op),
      λ row. elim (Bool-cases (o.row == row)) [
        | inl same ↦ rw same ok
        | inr other ↦ rw other (ready row)
      ],
    )

run_ops-IsReady :
    (e : ℕ) (os : List Op) (m : Meta)
    → 0 < e
    → e < 2 ^ 24
    → All IsValidOp os
    → ((row : ℕ) → IsReady e (m row))
    → (m' : Meta) × (run_ops e os m ≡ some m')
unfolding run_ops
run_ops-IsReady e [] m pos small v ready = (m, refl)
run_ops-IsReady e (o ∷ os) m pos small v ready =
    let (m1, p, ready1) = run_op-IsReady e o m pos small v.0 ready in
    let (m', q) = run_ops-IsReady e os m1 pos small v.1 ready1 in (m', rw (p, run_ops) q)

-- The word that the requests for a row leave in it: 0 if there are none, and else the epoch with the
-- least reader and the least writer.
abbrev pub word_of : ℕ → List Request → ℕ
word_of e [] = 0
word_of e (q ∷ qs) = pack e (merge 0 (readers (q ∷ qs))) (merge 0 (writers (q ∷ qs)))

pub at-IsValid : (row : ℕ) (os : List Op) → All IsValidOp os → IsValid (at row os)
at-IsValid row [] v = (tt, tt)
at-IsValid row (o ∷ os) v = elim (Bool-cases (o.row == row)) [
  | inl same ↦ rw same (cons_IsValid o.request (at row os) v.0 (at-IsValid row os v.1))
  | inr other ↦ rw other (at-IsValid row os v.1)
]

reserve_all-word_of :
    (e a b : ℕ) (qs : List Request)
    → 0 < e
    → e < 2 ^ 24
    → a ≡ 0
    → IsValid qs
    → reserve_all e qs a ≡ some b
    → b ≡ word_of e qs
unfolding reserve_all get_epoch
reserve_all-word_of e a b [] pos small z v h = ground arith
reserve_all-word_of e a b (q ∷ qs) pos small z v h =
    cc (h, reserve_all-newer a e q qs (omega arith) (rw z (omega arith)) small v)

-- From cleared metadata, the reservations of a block go through in every order, and leave in each
-- row the word of the requests for it.
pub run_ops-word_of :
    (e : ℕ) (os : List Op) (m : Meta)
    → 0 < e
    → e < 2 ^ 24
    → All IsValidOp os
    → ((row : ℕ) → m row ≡ 0)
    → (m' : Meta) × (run_ops e os m ≡ some m') × ((row : ℕ) → m' row ≡ word_of e (at row os))
run_ops-word_of e os m pos small v clear =
    let (m', p) = run_ops-IsReady e os m pos small v (λ row. inl (clear row)) in
    (
      m',
      p,
      λ row.
          reserve_all-word_of e (m row) (m' row) (at row os) pos small (clear row)
            (at-IsValid row os v) (run_ops-at e os m m' row p),
    )
