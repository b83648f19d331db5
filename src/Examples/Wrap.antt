-- ===== src/Examples/Wrap.antt =====
-- protocol/Prodcc/L2Verifier.h: a narrow range, and a range of a whole turn of the ring.
use prdcc.Base.{ℕ, ◌≡◌, ◌≢◌, refl, inl, inr, false, [], ◌∷◌, arith}
use prdcc.Prodcc.L1Filter.{empty_filter}
use prdcc.Prodcc.L2Verifier.{
  build, query, conflict, no_conflict, q_func, hash_func, build_tree, insert_hash, lower_bound,
  at_most, is_found,
}
use prdcc.Prodcc.L2Verifier.Narrow.{query-narrow}
use prdcc.Prodcc.DataSummary.{DataSummary}
use prdcc.Prodcc.ConflictPredictor.{Range, TxnQueryRanges, build_summary, predict_conflict}
use prdcc.Prodcc.ConflictPredictor
use prdcc.Prodcc.ConflictPredictor.Sparse.{HasNarrow, predict_conflict-sparse}

-- The range wraps round the ring.
query-narrow_example : query (build (16777215 ∷ [])) 16777214 16777220 ≡ conflict
query-narrow_example =
    query-narrow (16777215 ∷ []) 16777215 16777214 16777220 (inl refl) (omega arith) (omega arith)
      (omega arith) (omega arith)

-- From 0 to 2 ^ 24, the key 5 is missed: the two ends are next to each other on the ring.
missed : query (build (5 ∷ [])) 0 16777216 ≡ no_conflict
unfolding q_func hash_func build build_tree insert_hash lower_bound at_most is_found query
missed = refl

abbrev range : ℕ → ℕ → Range
range a b = record { first = a; second = b }

abbrev first_txn : TxnQueryRanges
first_txn = record { read = []; write = range 3 9 ∷ [] }

abbrev second_txn : TxnQueryRanges
second_txn = record { read = range 7 12 ∷ []; write = [] }

abbrev summary : DataSummary
summary = record { l1_filter = empty_filter 0 0; l2_verifier = []; dense_domain = false }

first_txn-HasNarrow : HasNarrow first_txn
first_txn-HasNarrow =
    (λ r i. absurd i, λ r i. elim i [ inl e ↦ rw e (omega arith) | inr a ↦ absurd a ])

predict_conflict-sparse_example :
    predict_conflict (build_summary summary (8 ∷ 50 ∷ []) 1 100 false) first_txn second_txn
    ≢ ConflictPredictor.no_conflict
predict_conflict-sparse_example =
    predict_conflict-sparse summary (8 ∷ 50 ∷ []) 1 100 8 first_txn second_txn (inl refl)
      (omega arith) (omega arith) (omega arith) first_txn-HasNarrow (tt, ((λ y i. absurd i), tt))
      (((λ y i. absurd i), tt), tt)
      (inr (inl (range 3 9, range 7 12, inl refl, inl refl, omega arith, omega arith)))
