-- ===== src/Prodcc/ConflictPredictor.antt =====
-- protocol/Prodcc/ConflictPredictor.h: the conflict that two transactions' key ranges predict. A
-- transaction's ranges (`get_query_ranges`, a virtual function) are given. ConflictType is that of
-- protocol/Prodcc/ProdccTransaction.h.
pub mod Sweep
pub mod Dense
pub mod Sparse
use prdcc.Base.{
  ℕ, zero, suc, ◌+◌, Bool, true, false, List, [], ◌∷◌, length, ltb, leb, min, max, if◌then◌else◌,
}
use prdcc.Prodcc.DataSummary.{DataSummary, query_range_exists}
use prdcc.Prodcc.DataSummary

pub data ConflictType : Type 0 where
  no_conflict waw raw war : ConflictType

pub record Range : Type 0 where
  pub first : ℕ
  pub second : ℕ

pub record TxnQueryRanges : Type 0 where
  pub read : List Range
  pub write : List Range

-- `build_summary`.
unfoldable pub build_summary : DataSummary → List ℕ → ℕ → ℕ → Bool → DataSummary
build_summary s keys min_key max_key dense_domain =
    if dense_domain
    then DataSummary.build_dense s min_key max_key
    else DataSummary.build s keys min_key max_key

-- The test of the loop for one pair of ranges.
unfoldable pub has_key : (ℕ → ℕ → Bool) → Range → Range → Bool
has_key query a b =
    let intersect_start = max a.first b.first in
    let intersect_end = min a.second b.second in
    if leb intersect_start intersect_end then query intersect_start intersect_end else false

-- The loop of `check_range_intersection`. Each turn passes one range, so the two lengths are enough fuel.
unfoldable pub sweep : ℕ → (ℕ → ℕ → Bool) → List Range → List Range → Bool
sweep zero query xs ys = false
sweep (suc fuel) query [] ys = false
sweep (suc fuel) query (x ∷ xs) [] = false
sweep (suc fuel) query (x ∷ xs) (y ∷ ys) =
    let next_left = sweep fuel query xs (y ∷ ys) in
    let next_right = sweep fuel query (x ∷ xs) ys in
    if has_key query x y then true else if ltb x.second y.second then next_left else next_right

unfoldable pub check_range_intersection : DataSummary → List Range → List Range → Bool
check_range_intersection s ranges1 ranges2 =
    sweep (length ranges1 + length ranges2) (query_range_exists s) ranges1 ranges2

unfoldable pub predict_conflict : DataSummary → TxnQueryRanges → TxnQueryRanges → ConflictType
predict_conflict s t1 t2 =
    if check_range_intersection s t1.write t2.write
    then waw
    else if check_range_intersection s t1.write t2.read
    then raw
    else if check_range_intersection s t1.read t2.write
    then war
    else no_conflict
