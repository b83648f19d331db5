-- ===== src/Prodcc/DataSummary.antt =====
-- protocol/Prodcc/DataSummary.h: the two filters together. `build_dense` leaves the second filter as it
-- was, as the code does.
use prdcc.Base.{ℕ, Bool, true, false, List, if◌then◌else◌}
use prdcc.Prodcc.L1Filter.{L1Filter, L1Result, no_conflict, maybe_conflict}
use prdcc.Prodcc.L1Filter
use prdcc.Prodcc.L2Verifier.{L2Result}
use prdcc.Prodcc.L2Verifier

pub record DataSummary : Type 0 where
  pub l1_filter : L1Filter
  pub l2_verifier : List ℕ
  pub dense_domain : Bool

unfoldable pub build : DataSummary → List ℕ → ℕ → ℕ → DataSummary
build s keys min_key max_key = record s {
  dense_domain = false;
  l1_filter = L1Filter.build keys min_key max_key;
  l2_verifier = L2Verifier.build keys;
}

unfoldable pub build_dense : DataSummary → ℕ → ℕ → DataSummary
build_dense s min_key max_key = record s {
  dense_domain = true;
  l1_filter = L1Filter.build_dense min_key max_key;
}

unfoldable pub is_conflict : L2Result → Bool
is_conflict L2Verifier.no_conflict = false
is_conflict L2Verifier.conflict = true

unfoldable pub query_range_exists : DataSummary → ℕ → ℕ → Bool
query_range_exists s start end = elim (L1Filter.query s.l1_filter start end) [
  | no_conflict ↦ false
  | maybe_conflict ↦
      if s.dense_domain then true else is_conflict (L2Verifier.query s.l2_verifier start end)
]
