-- ===== src/Prodcc/ConflictPredictor/Sparse.antt =====
-- protocol/Prodcc/ConflictPredictor.h: predictions over a list of keys, with both filters.
use prdcc.Base.{ℕ, ◌+◌, ◌^◌, ◌≤◌, ◌≡◌, ◌≢◌, refl, inl, inr, true, false, List, In, length, arith}
use prdcc.Prodcc.L1Filter.Sound.{query-build}
use prdcc.Prodcc.L2Verifier.{ring}
use prdcc.Prodcc.L2Verifier.Narrow.{query-narrow}
use prdcc.Prodcc.DataSummary.{DataSummary, query_range_exists, is_conflict}
use prdcc.Prodcc.DataSummary
use prdcc.Prodcc.ConflictPredictor.{
  Range, TxnQueryRanges, no_conflict, build_summary, check_range_intersection, predict_conflict,
}
use prdcc.Prodcc.ConflictPredictor.Sweep.{IsSorted, IsNarrow, sweep-finds}
use prdcc.Prodcc.ConflictPredictor.Dense.{HasSorted, Meets, Clashes}

-- The widest range that the second filter answers for, less one.
abbrev pub width : ℕ
width = 16777214

query_range_exists-sparse :
    (s : DataSummary) (keys : List ℕ) (min_key max_key key start end : ℕ)
    → In key keys
    → min_key ≤ key
    → key ≤ max_key
    → key + ring ≤ 2 ^ 64
    → start ≤ key
    → key ≤ end
    → end ≤ start + width
    → query_range_exists (build_summary s keys min_key max_key false) start end ≡ true
unfolding query_range_exists build_summary DataSummary.build is_conflict
query_range_exists-sparse s keys min_key max_key key start end m lo hi top p q w =
    rw
      (
        query_range_exists,
        query-build keys min_key max_key key start end m lo hi p q,
        query-narrow keys key start end m p q (omega arith) (omega arith),
      )
      refl

-- The ranges of a transaction are narrow.
abbrev pub HasNarrow : TxnQueryRanges → Type 0
HasNarrow t =
    ((r : Range) → In r t.read → IsNarrow width r) × ((r : Range) → In r t.write → IsNarrow width r)

intersection-sparse :
    (s : DataSummary) (keys : List ℕ) (min_key max_key key : ℕ) (xs ys : List Range)
    → In key keys
    → min_key ≤ key
    → key ≤ max_key
    → key + ring ≤ 2 ^ 64
    → ((r : Range) → In r xs → IsNarrow width r)
    → IsSorted xs
    → IsSorted ys
    → Meets xs ys key
    → check_range_intersection (build_summary s keys min_key max_key false) xs ys ≡ true
unfolding check_range_intersection
intersection-sparse s keys min_key max_key key xs ys m lo hi top narrow sx sy (x, y, i, j, cx, cy) =
    sweep-finds (length xs + length ys)
      (query_range_exists (build_summary s keys min_key max_key false)) width key xs ys x y
      (omega arith)
      (λ a b p q w. query_range_exists-sparse s keys min_key max_key key a b m lo hi top p q w)
      narrow sx sy i j cx cy

-- Over a list of keys, with ranges sorted by their starts and those of the first transaction narrower than
-- the ring, two transactions of which one writes a key of the list that the other one reads or writes are
-- never predicted free of conflict. The key is in the domain, and a turn of the ring below 2 ^ 64.
pub predict_conflict-sparse :
    (s : DataSummary) (keys : List ℕ) (min_key max_key key : ℕ) (t1 t2 : TxnQueryRanges)
    → In key keys
    → min_key ≤ key
    → key ≤ max_key
    → key + ring ≤ 2 ^ 64
    → HasNarrow t1
    → HasSorted t1
    → HasSorted t2
    → Clashes t1 t2 key
    → predict_conflict (build_summary s keys min_key max_key false) t1 t2 ≢ no_conflict
unfolding predict_conflict
predict_conflict-sparse s keys min_key max_key key t1 t2 m lo hi top n s1 s2 (inl h) = ground (
  arith,
  intersection-sparse s keys min_key max_key key t1.write t2.write m lo hi top n.1 s1.1 s2.1 h,
)
predict_conflict-sparse s keys min_key max_key key t1 t2 m lo hi top n s1 s2 (inr (inl h)) =
    ground (
      arith,
      intersection-sparse s keys min_key max_key key t1.write t2.read m lo hi top n.1 s1.1 s2.0 h,
    )
predict_conflict-sparse s keys min_key max_key key t1 t2 m lo hi top n s1 s2 (inr (inr h)) =
    ground (
      arith,
      intersection-sparse s keys min_key max_key key t1.read t2.write m lo hi top n.0 s1.0 s2.1 h,
    )
