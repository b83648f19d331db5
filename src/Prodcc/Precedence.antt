-- ===== src/Prodcc/Precedence.antt =====
-- protocol/Prodcc/ProdccExecutor.h: the decision on the transactions of a micro-block, as an order of
-- those that commit.
use prdcc.Base.{
  ℕ, ◌+◌, ◌-◌, ◌^◌, ◌≤◌, ◌<◌, ◌≡◌, ◌≢◌, refl, ap, ◌∙◌, ◌⊎◌, inl, inr, true, false, ◌&&◌, List, [],
  ◌∷◌, In, if◌then◌else◌, arith, Bool-cases,
}
use native.Mathlib.Decide.{dec_lt}
use prdcc.Aria.Least.{IsTid}
use prdcc.Prodcc.Transaction.{Txn, RwKey, is_read_only, is_empty}
use prdcc.Prodcc.Executor.{Context}
use prdcc.Prodcc.Finalize.{decide}
use prdcc.Prodcc.Ops.{Reads, Writes, Takes}
use prdcc.Prodcc.Block.{IsExact}

-- Where a transaction that commits stands in the serial order: first those passed over as
-- read-only, then those with a read-after-write flag, latest id first, then the others by id.
pub rank : Context → Txn → Txn → ℕ
rank c t s =
    if c.read_only_optimization && is_read_only t
    then t.id
    else if s.raw
    then 2 ^ 21 - t.id
    else 2 ^ 21 + t.id

-- A writer is not passed over.
writer-Takes : (c : Context) (u : Txn) (row : ℕ) → Writes u row → Takes c u
unfolding is_read_only
writer-Takes c u row (k, i, p) = elim (Bool-cases c.read_only_optimization) [
  | inl on ↦ rw (on, nonempty u.write_set k i)
  | inr off ↦ rw off
]
  where
    nonempty : (ks : List RwKey) (k : RwKey) → In k ks → is_empty ks ≡ false
    nonempty [] k i = absurd i
    nonempty (x ∷ ks) k i = refl

-- A member of a block with the flags that its analysis leaves.
pub record Settled (c : Context) (ts : List Txn) (settled : Txn → Txn) (t : Txn) : Type 0 where
  pub member : In t ts
  pub tid : IsTid t.id
  pub kept : (settled t).write_set ≡ t.write_set
  pub exact : Takes c t → IsExact c ts t (settled t)

abbrev pub Commits : Context → Txn → Type 0
Commits c s = (decide c s).0 ≡ true

-- A transaction that takes part and commits has no write-after-write flag, and not both of the others.
commit_flags :
    (c : Context) (s : Txn)
    → c.snapshot_isolation ≡ false
    → Takes c s
    → Commits c s
    → (s.waw ≡ false) × ((s.war && s.raw) ≡ false)
unfolding decide
commit_flags c s serial takes h = ground arith

module _ (c : Context) (ts : List Txn) (settled : Txn → Txn) (serial : c.snapshot_isolation ≡ false)
    (t u : Txn) (st : Settled c ts settled t) (su : Settled c ts settled u)
    (ct : Commits c (settled t)) (cu : Commits c (settled u)) where
  Takes-kept : (x : Txn) → Settled c ts settled x → Takes c x → Takes c (settled x)
  unfolding is_read_only
  Takes-kept x sx takes = ap (λ ks. c.read_only_optimization && is_empty ks) sx.kept ∙ takes

  -- The cases of the order between the ids.
  in_order :
      (row : ℕ)
      → Takes c t
      → Reads t row
      → Writes u row
      → ((u.id < t.id) × ((settled t).raw ≡ true))
        ⊎ ((u.id ≤ t.id → ⊥) × ((settled u).war ≡ true))
        ⊎ (t.id ≡ u.id)
  in_order row takes r w = elim (dec_lt u.id t.id) [
    | yes lt ↦
        inl (lt, (st.exact takes).raw_iff.1 (u, su.member, writer-Takes c u row w, lt, (row, r, w)))
    | no ge ↦ elim (dec_lt t.id u.id) [
      | yes lt ↦ inr (
          inl (
            λ le. omega arith,
            (su.exact (writer-Takes c u row w)).war_iff.1 (t, st.member, takes, lt, (row, w, r)),
          ))
      | no ge' ↦ inr (inr (omega arith))
    ]
  ]

  -- Of two transactions that commit and that differ, the one that reads a row stands before the one
  -- that writes it.
  pub rank-lt :
      (row : ℕ)
      → t.id ≢ u.id
      → Reads t row
      → Writes u row
      → rank c t (settled t) < rank c u (settled u)
  unfolding rank
  rank-lt row ne r w =
      let tu = writer-Takes c u row w in
      let (_, fu) = commit_flags c (settled u) serial (Takes-kept u su tu) cu in
      let lt = st.tid in
      let lu = su.tid in
      elim (Bool-cases (c.read_only_optimization && is_read_only t)) [
        | inl skip ↦ ground arith
        | inr takes ↦
            let (_, ft) = commit_flags c (settled t) serial (Takes-kept t st takes) ct in
            ground (arith, in_order row takes r w)
      ]

  -- No two of them write the same row.
  pub one_writer : (row : ℕ) → Writes t row → Writes u row → t.id ≡ u.id
  one_writer row wt wu =
      let tu = writer-Takes c u row wu in
      let tt' = writer-Takes c t row wt in
      let (fu, _) = commit_flags c (settled u) serial (Takes-kept u su tu) cu in
      let (ft, _) = commit_flags c (settled t) serial (Takes-kept t st tt') ct in
      elim (dec_lt u.id t.id) [
        | yes lt ↦ cc (ft, (st.exact tt').waw_iff.1 (u, su.member, tu, lt, (row, wt, wu)))
        | no ge ↦ elim (dec_lt t.id u.id) [
          | yes lt ↦ cc (fu, (su.exact tu).waw_iff.1 (t, st.member, tt', lt, (row, wu, wt)))
          | no ge' ↦ omega arith
        ]
      ]

-- Different transactions have different ranks.
pub rank-injective :
    (c : Context) (t u s s' : Txn)
    → IsTid t.id
    → IsTid u.id
    → rank c t s ≡ rank c u s'
    → t.id ≡ u.id
unfolding rank
rank-injective c t u s s' ht hu h = ground arith
