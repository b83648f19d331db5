-- ===== src/Prodcc/ConflictPredictor/Dense.antt =====
-- protocol/Prodcc/ConflictPredictor.h: predictions over a dense key domain.
use prdcc.Base.{ℕ, ◌+◌, ◌≤◌, ◌≡◌, refl, ◌⊎◌, inl, inr, true, List, [], ◌∷◌, In, ◌≢◌, length, arith}
use prdcc.Prodcc.L1Filter.Sound.{query-build_dense}
use prdcc.Prodcc.DataSummary.{DataSummary, query_range_exists}
use prdcc.Prodcc.DataSummary
use prdcc.Prodcc.ConflictPredictor.{
  Range, TxnQueryRanges, no_conflict, build_summary, check_range_intersection, predict_conflict,
}
use prdcc.Prodcc.ConflictPredictor.Sweep.{IsSorted, Covers, sweep-finds}

abbrev pub HasSorted : TxnQueryRanges → Type 0
HasSorted t = IsSorted t.read × IsSorted t.write

-- A range of the one list and a range of the other both have the key.
abbrev pub Meets : List Range → List Range → ℕ → Type 0
Meets xs ys k = (x : Range) × (y : Range) × In x xs × In y ys × Covers x k × Covers y k

-- A width that no range of the list exceeds.
widest : List Range → ℕ
widest [] = 0
widest (x ∷ xs) = x.second + widest xs

widest-In : (xs : List Range) (r : Range) → In r xs → r.second ≤ r.first + widest xs
unfolding widest
widest-In [] r m = absurd m
widest-In (x ∷ xs) r (inl e) = rw e (omega arith)
widest-In (x ∷ xs) r (inr m) = omega (arith, widest-In xs r m)

-- The summary of a dense domain says yes to every range with a key of the domain.
pub query_range_exists-dense :
    (s : DataSummary) (min_key max_key key start end : ℕ)
    → min_key ≤ key
    → key ≤ max_key
    → start ≤ key
    → key ≤ end
    → query_range_exists (build_summary s [] min_key max_key true) start end ≡ true
unfolding query_range_exists build_summary DataSummary.build_dense
query_range_exists-dense s min_key max_key key start end lo hi p q =
    rw (query_range_exists, query-build_dense min_key max_key key start end lo hi p q) refl

pub intersection-dense :
    (s : DataSummary) (min_key max_key key : ℕ) (xs ys : List Range)
    → min_key ≤ key
    → key ≤ max_key
    → IsSorted xs
    → IsSorted ys
    → Meets xs ys key
    → check_range_intersection (build_summary s [] min_key max_key true) xs ys ≡ true
unfolding check_range_intersection
intersection-dense s min_key max_key key xs ys lo hi sx sy (x, y, i, j, cx, cy) =
    sweep-finds (length xs + length ys)
      (query_range_exists (build_summary s [] min_key max_key true)) (widest xs) key xs ys x y
      (omega arith) (λ a b p q w. query_range_exists-dense s min_key max_key key a b lo hi p q)
      (widest-In xs) sx sy i j cx cy

-- One of the two transactions writes the key, and the other one reads or writes it.
abbrev pub Clashes : TxnQueryRanges → TxnQueryRanges → ℕ → Type 0
Clashes t1 t2 k = Meets t1.write t2.write k ⊎ (Meets t1.write t2.read k ⊎ Meets t1.read t2.write k)

-- Over a dense domain, with ranges sorted by their starts, two transactions of which one writes a key of
-- the domain that the other one reads or writes are never predicted free of conflict.
pub predict_conflict-dense :
    (s : DataSummary) (min_key max_key key : ℕ) (t1 t2 : TxnQueryRanges)
    → min_key ≤ key
    → key ≤ max_key
    → HasSorted t1
    → HasSorted t2
    → Clashes t1 t2 key
    → predict_conflict (build_summary s [] min_key max_key true) t1 t2 ≢ no_conflict
unfolding predict_conflict
predict_conflict-dense s min_key max_key key t1 t2 lo hi s1 s2 (inl h) =
    ground (arith, intersection-dense s min_key max_key key t1.write t2.write lo hi s1.1 s2.1 h)
predict_conflict-dense s min_key max_key key t1 t2 lo hi s1 s2 (inr (inl h)) =
    ground (arith, intersection-dense s min_key max_key key t1.write t2.read lo hi s1.1 s2.0 h)
predict_conflict-dense s min_key max_key key t1 t2 lo hi s1 s2 (inr (inr h)) =
    ground (arith, intersection-dense s min_key max_key key t1.read t2.write lo hi s1.0 s2.1 h)
