-- ===== src/Prodcc/Dependency/Complete.antt =====
-- protocol/Prodcc/ProdccManager.h: the dependency graph once every worker has run its `partition_task`.
use prdcc.Base.{
  append_nil, ℕ, zero, suc, ◌+◌, ◌%◌, ◌≤◌, ◌<◌, ◌≡◌, refl, sym, ap, ◌∙◌, subst, ◌↔◌, replicate, inl,
  inr, true, List, [], ◌++◌, length, get_or, In, All, ltb, ◌==◌, ==_iff, arith, Bool-cases,
}
use native.Mathlib.Nat.{mod-lt}
use prdcc.Prodcc.Schedule.{Edge}
use prdcc.Prodcc.Schedule.Turn.{count}
use prdcc.Prodcc.Dependency.Appended.{IsScheduled, times, times-at, partition_phase-get}
use prdcc.Prodcc.Dependency.{
  Scheduled, is_conflict, pair_conflict, out_edges, edges_of, prepare_dependency_graph,
  partition_phase,
}

length-replicate : (n : ℕ) → length (replicate {A = List Edge} n []) ≡ n
length-replicate zero = refl
length-replicate (suc n) = ap suc (length-replicate n)

get_or-replicate : (n i : ℕ) → get_or (replicate {A = List Edge} n []) i [] ≡ []
get_or-replicate zero i = refl
get_or-replicate (suc n) zero = refl
get_or-replicate (suc n) (suc i) = get_or-replicate n i

module _ (s : Scheduled) where
  -- The edge of a pair of transactions.
  abbrev pub edge_to : ℕ → ℕ → Edge
  edge_to i k = record { target = get_or s.ids k 0; conflict = pair_conflict s i k }

  In-out_edges :
      (i fuel j k : ℕ)
      → j ≤ k
      → k < j + fuel
      → k < length s.ids
      → is_conflict (pair_conflict s i k) ≡ true
      → In (edge_to i k) (out_edges s i fuel j)
  unfolding out_edges
  In-out_edges i zero j k le lt n c = absurd (omega arith)
  In-out_edges i (suc fuel) j k le lt n c =
      let inside : ltb j (length s.ids) ≡ true = ground (arith, le, n) in
      elim (Bool-cases (j == k)) [
        | inl e ↦
            let same : j ≡ k = (==_iff j k).0 e in
            rw (inside, ap (λ x. is_conflict (pair_conflict s i x)) same ∙ c)
              (inl (ap (edge_to i) (sym same)))
        | inr e ↦
            let m =
              In-out_edges i fuel (j + 1) k (ground (arith, e, le)) (ground (arith, e, lt)) n c in
            elim (Bool-cases (is_conflict (pair_conflict s i j))) [
              | inl d ↦ rw (inside, d) (inr m)
              | inr d ↦ rw (inside, d) m
            ]
      ]

  out_edges-In :
      (i fuel j : ℕ) (e : Edge)
      → In e (out_edges s i fuel j)
      → (k : ℕ) × (j ≤ k)
        × (k < length s.ids)
        × (is_conflict (pair_conflict s i k) ≡ true)
        × (e ≡ edge_to i k)
  unfolding out_edges
  out_edges-In i zero j e m = absurd m
  out_edges-In i (suc fuel) j e m =
      let later : In e (out_edges s i fuel (j + 1))
          → (k : ℕ) × (j ≤ k)
            × (k < length s.ids)
            × (is_conflict (pair_conflict s i k) ≡ true)
            × (e ≡ edge_to i k) =
        λ m.
          let (k, le, lt, c, p) = out_edges-In i fuel (j + 1) e m in
          (k, omega (arith, le), lt, c, p) in
      elim (Bool-cases (ltb j (length s.ids))) [
        | inr out ↦ absurd (rw out at m)
        | inl inside ↦ elim (Bool-cases (is_conflict (pair_conflict s i j))) [
          | inr d ↦ later (rw (inside, d) at m)
          | inl d ↦ elim (rw (inside, d) at m) [
            | inl p ↦ (j, omega arith, ground (arith, inside), d, p)
            | inr q ↦ later q
          ]
        ]
      ]

  -- Once every worker has run its task one time, in any order, from a graph with no edge, a transaction's edges in the
  -- graph are those to the later transactions that a conflict is predicted with, each with that conflict.
  -- There are two transactions at least and a worker, their ids are distinct and the graph has room for them.
  pub partition_phase_iff :
      (worker_num : ℕ) (workers : List ℕ) (size : ℕ) (i : ℕ) (e : Edge)
      → IsScheduled s size
      → 1 < length s.ids
      → 0 < worker_num
      → All (λ w. w < worker_num) workers
      → ((w : ℕ) → w < worker_num → count w workers ≡ 1)
      → i < length s.ids
      → In e (
          get_or
            (partition_phase true worker_num s workers (prepare_dependency_graph size))
            (get_or s.ids i 0)
            [])
        ↔ ((k : ℕ) × (i < k)
            × (k < length s.ids)
            × (is_conflict (pair_conflict s i k) ≡ true)
            × (e ≡ edge_to i k))
  unfolding prepare_dependency_graph
  partition_phase_iff worker_num workers size i e ok two pos below once lt =
      let graph = replicate {A = List Edge} size [] in
      let exact : get_or (partition_phase true worker_num s workers graph) (get_or s.ids i 0) []
          ≡ edges_of s i =
        partition_phase-get s worker_num workers graph i
          (subst (IsScheduled s) (sym (length-replicate size)) ok) two below lt
        ∙ ap (λ r. r ++ times (count (i % worker_num) workers) (edges_of s i))
            (get_or-replicate size (get_or s.ids i 0))
        ∙ times-at (edges_of s i) (count (i % worker_num) workers) 1
            (once (i % worker_num) (mod-lt i pos))
        ∙ append_nil (edges_of s i) in
      (
        λ m.
            let (k, le, lt, c, p) =
              out_edges-In i (length s.ids) (i + 1) e (subst (In e) exact m) in
            (k, omega (arith, le), lt, c, p),
        λ (k, le, n, c, p).
            subst
              (λ x.
                In x
                  (get_or (partition_phase true worker_num s workers graph) (get_or s.ids i 0) []))
              (sym p)
              (subst (In (edge_to i k)) (sym exact) (
                In-out_edges i (length s.ids) (i + 1) k (omega (arith, le)) (omega (arith, n)) n
                  c)),
      )
