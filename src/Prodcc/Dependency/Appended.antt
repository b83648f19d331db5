-- ===== src/Prodcc/Dependency/Appended.antt =====
-- protocol/Prodcc/ProdccManager.h: what the tasks of the workers append to the dependency graph.
use mathlib.Core.Bool.{false≢true}
use prdcc.Base.{
  append_nil, ℕ, zero, suc, ◌+◌, ◌%◌, ◌<◌, ◌≡◌, ◌≢◌, refl, sym, ap, ◌∙◌, subst, inl, inr, true,
  false, ◌||◌, List, [], ◌∷◌, ◌++◌, length, length-set, get_or, set, All, leb, ◌==◌, ==_iff,
  if◌then◌else◌, arith, Bool-cases,
}
use prdcc.Prodcc.Schedule.{Edge, Graph}
use prdcc.Prodcc.Schedule.Turn.{count}
use prdcc.Prodcc.Worker.{worker_slots}
use prdcc.Prodcc.Worker.Turns.{worker_slots-count, worker_slots-lt}
use prdcc.Prodcc.Dependency.{
  Scheduled, edges_of, append_edges, add_edges, partition_task, partition_phase,
}

-- A list that is appended some number of times.
abbrev pub times : ℕ → List Edge → List Edge
times zero es = []
times (suc n) es = es ++ times n es

append_assoc : (xs ys zs : List Edge) → (xs ++ ys) ++ zs ≡ xs ++ (ys ++ zs)
append_assoc [] ys zs = refl
append_assoc (x ∷ xs) ys zs = ap (λ r. x ∷ r) (append_assoc xs ys zs)

pub times-at : (es : List Edge) (m n : ℕ) → m ≡ n → times m es ≡ times n es
times-at es m n e = ap (λ k. times k es) e

times-add : (m n : ℕ) (es : List Edge) → times m es ++ times n es ≡ times (m + n) es
times-add zero n es = times-at es n (0 + n) (omega arith)
times-add (suc m) n es =
    append_assoc es (times m es) (times n es)
    ∙ ap (λ r. es ++ r) (times-add m n es)
    ∙ times-at es (suc (m + n)) (suc m + n) (omega arith)

equal-false : (i j : ℕ) → i ≢ j → (i == j) ≡ false
equal-false i j h = ground (arith, h)

equal-suc : (i j : ℕ) → (i == j) ≡ (suc i == suc j)
equal-suc i j = ground arith

get_or-set :
    (graph : Graph) (i j : ℕ) (es : List Edge)
    → i < length graph
    → get_or (set graph i es) j [] ≡ (if i == j then es else get_or graph j [])
get_or-set [] i j es h = absurd (omega arith)
get_or-set (x ∷ xs) zero zero es h = refl
get_or-set (x ∷ xs) zero (suc j) es h = rw (equal-false 0 (suc j) (omega arith)) refl
get_or-set (x ∷ xs) (suc i) zero es h = rw (equal-false (suc i) 0 (omega arith)) refl
get_or-set (x ∷ xs) (suc i) (suc j) es h =
    get_or-set xs i j es (omega arith) ∙ ap (λ b. if b then es else get_or xs j []) (equal-suc i j)

module _ (s : Scheduled) where
  -- The ids of different transactions are different, and the graph has them.
  pub record IsScheduled (size : ℕ) : Type 0 where
    pub distinct :
        (i j : ℕ)
        → i < length s.ids
        → j < length s.ids
        → get_or s.ids i 0 ≡ get_or s.ids j 0
        → i ≡ j
    pub small : (i : ℕ) → i < length s.ids → get_or s.ids i 0 < size

  add_edges-length :
      (slots : List ℕ) (graph : Graph) → length (add_edges s slots graph) ≡ length graph
  unfolding add_edges append_edges
  add_edges-length [] graph = refl
  add_edges-length (i ∷ slots) graph =
      add_edges-length slots (append_edges graph (get_or s.ids i 0) (edges_of s i))
      ∙ length-set graph (get_or s.ids i 0) _

  -- A transaction's edges are appended once for each time that its slot comes.
  add_edges-get :
      (slots : List ℕ) (graph : Graph) (q : ℕ)
      → IsScheduled (length graph)
      → All (λ p. p < length s.ids) slots
      → q < length s.ids
      → get_or (add_edges s slots graph) (get_or s.ids q 0) []
        ≡ get_or graph (get_or s.ids q 0) [] ++ times (count q slots) (edges_of s q)
  unfolding add_edges append_edges
  add_edges-get [] graph q ok h lt = sym (append_nil _)
  add_edges-get (i ∷ slots) graph q ok h lt =
      let g = append_edges graph (get_or s.ids i 0) (edges_of s i) in
      let ok' : IsScheduled (length g) =
        subst IsScheduled (sym (length-set graph (get_or s.ids i 0) _)) ok in
      add_edges-get slots g q ok' h.1 lt
      ∙ ap (λ r. r ++ times (count q slots) (edges_of s q))
          (get_or-set graph (get_or s.ids i 0) (get_or s.ids q 0) _ (ok.small i h.0))
      ∙ elim (Bool-cases (i == q)) [
        | inl e ↦
            let same : i ≡ q = (==_iff i q).0 e in
            let hit : (get_or s.ids i 0 == get_or s.ids q 0) ≡ true =
              (==_iff (get_or s.ids i 0) (get_or s.ids q 0)).1 (ap (λ k. get_or s.ids k 0) same) in
            rw (e, hit)
              (ap
                  (λ k.
                    (get_or graph (get_or s.ids k 0) [] ++ edges_of s k)
                    ++ times (count q slots) (edges_of s q))
                  same
                ∙ append_assoc (get_or graph (get_or s.ids q 0) []) (edges_of s q)
                    (times (count q slots) (edges_of s q))
                ∙ ap (λ r. get_or graph (get_or s.ids q 0) [] ++ r)
                    (times-at (edges_of s q) (suc (count q slots)) (1 + count q slots)
                      (omega arith)))
        | inr e ↦
            let miss : (get_or s.ids i 0 == get_or s.ids q 0) ≡ false =
              equal-false (get_or s.ids i 0) (get_or s.ids q 0)
                (λ p. false≢true (sym e ∙ (==_iff i q).1 (ok.distinct i q h.0 lt p))) in
            rw (e, miss)
              (ap (λ r. get_or graph (get_or s.ids q 0) [] ++ r)
                (times-at (edges_of s q) (count q slots) (0 + count q slots) (omega arith)))
      ]

  partition_task-length :
      (worker_num w : ℕ) (graph : Graph)
      → length (partition_task true worker_num s w graph) ≡ length graph
  unfolding partition_task
  partition_task-length worker_num w graph =
      elim (Bool-cases (leb worker_num w || leb (length s.ids) 1)) [
        | inl idle ↦ rw idle refl
        | inr busy ↦ rw busy (add_edges-length (worker_slots worker_num (length s.ids) w) graph)
      ]

  pub partition_phase-get :
      (worker_num : ℕ) (workers : List ℕ) (graph : Graph) (q : ℕ)
      → IsScheduled (length graph)
      → 1 < length s.ids
      → All (λ w. w < worker_num) workers
      → q < length s.ids
      → get_or (partition_phase true worker_num s workers graph) (get_or s.ids q 0) []
        ≡ get_or graph (get_or s.ids q 0) []
          ++ times (count (q % worker_num) workers) (edges_of s q)
  unfolding partition_phase partition_task
  partition_phase-get worker_num [] graph q ok two h lt = sym (append_nil _)
  partition_phase-get worker_num (w ∷ workers) graph q ok two h lt =
      let g = partition_task true worker_num s w graph in
      let busy : (leb worker_num w || leb (length s.ids) 1) ≡ false = ground (arith, h.0, two) in
      let here : get_or g (get_or s.ids q 0) []
          ≡ get_or graph (get_or s.ids q 0) []
            ++ times (if w == q % worker_num then 1 else 0) (edges_of s q) =
        rw busy (
          add_edges-get (worker_slots worker_num (length s.ids) w) graph q ok
            (worker_slots-lt worker_num (length s.ids) w) lt
          ∙ ap (λ r. get_or graph (get_or s.ids q 0) [] ++ r)
              (times-at (edges_of s q) (count q (worker_slots worker_num (length s.ids) w))
                (if w == q % worker_num then 1 else 0)
                (ground (arith, lt, worker_slots-count worker_num (length s.ids) w q h.0)))) in
      partition_phase-get worker_num workers g q
        (subst IsScheduled (sym (partition_task-length worker_num w graph)) ok) two h.1 lt
      ∙ ap (λ r. r ++ times (count (q % worker_num) workers) (edges_of s q)) here
      ∙ append_assoc (get_or graph (get_or s.ids q 0) [])
          (times (if w == q % worker_num then 1 else 0) (edges_of s q))
          (times (count (q % worker_num) workers) (edges_of s q))
      ∙ ap (λ r. get_or graph (get_or s.ids q 0) [] ++ r)
          (times-add (if w == q % worker_num then 1 else 0) (count (q % worker_num) workers)
            (edges_of s q))
