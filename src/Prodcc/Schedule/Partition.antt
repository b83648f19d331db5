-- ===== src/Prodcc/Schedule/Partition.antt =====
-- protocol/Prodcc/ProdccManager.h: the micro blocks of `partition_into_micro_blocks`.
use prdcc.Base.{
  ℕ, zero, suc, ◌≤◌, ◌<◌, ◌≡◌, refl, sym, ap, ◌∙◌, Bool, List, [], ◌∷◌, length, length-append, In,
  inl, inr, arith, subst,
}
use prdcc.Prodcc.Schedule.{
  Graph, should_postpone, Pass, pass, remove, repair, add_block, partition_loop,
  partition_into_micro_blocks,
}
use prdcc.Prodcc.Schedule.Chunks.{flatten}
use prdcc.Prodcc.Schedule.Turn.{count, count-append, IsFree, pass-IsFree, pass-measure, pass-grows}

module _ (reordering : Bool) (graph : Graph) where
  -- The first transaction of a pass is never postponed.
  first-kept :
      (t : ℕ) (ts : List ℕ)
      → 0
        < length
            (pass reordering graph
              (t ∷ ts)
              (record { current_mb = []; postponed_txns = [] })).current_mb
  unfolding pass should_postpone
  first-kept t ts =
      omega (
        arith,
        pass-grows reordering graph ts (record { current_mb = t ∷ []; postponed_txns = [] }),
      )

  repair-kept : (ts : List ℕ) (s : Pass) → 0 < length s.current_mb → repair ts s ≡ s
  unfolding repair
  repair-kept [] s h = refl
  repair-kept (t ∷ ts) s h = kept s.current_mb h
    where
      kept :
          (mb : List ℕ)
          → 0 < length mb
          → (elim mb [
            | [] ↦ record { current_mb = t ∷ []; postponed_txns = remove t s.postponed_txns }
            | ◌∷◌ x xs ↦ s
          ])
            ≡ s
      kept [] h = absurd (omega arith)
      kept (x ∷ xs) h = refl

  -- The pass that starts a turn of the outer loop.
  abbrev pub turn : List ℕ → Pass
  turn ts = pass reordering graph ts (record { current_mb = []; postponed_txns = [] })

  pub loop-turn :
      (fuel t : ℕ) (ts : List ℕ)
      → partition_loop (suc fuel) reordering graph (t ∷ ts)
        ≡ (turn (t ∷ ts)).current_mb
          ∷ partition_loop fuel reordering graph (turn (t ∷ ts)).postponed_txns
  unfolding partition_loop add_block
  loop-turn fuel t ts =
      ap (λ s. add_block s.current_mb (partition_loop fuel reordering graph s.postponed_txns))
        (repair-kept (t ∷ ts) (turn (t ∷ ts)) (first-kept t ts))
      ∙ added (turn (t ∷ ts)).current_mb (first-kept t ts)
    where
      added :
          (mb : List ℕ)
          → 0 < length mb
          → add_block mb (partition_loop fuel reordering graph (turn (t ∷ ts)).postponed_txns)
            ≡ mb ∷ partition_loop fuel reordering graph (turn (t ∷ ts)).postponed_txns
      added [] h = absurd (omega arith)
      added (x ∷ xs) h = refl

  pub shorter :
      (fuel t : ℕ) (ts : List ℕ)
      → length (t ∷ ts) ≤ suc fuel
      → length (turn (t ∷ ts)).postponed_txns ≤ fuel
  shorter fuel t ts h = omega (
    arith,
    first-kept t ts,
    pass-measure reordering graph length length-append refl (t ∷ ts)
        (record { current_mb = []; postponed_txns = [] }),
  )

  count-partition_loop :
      (fuel : ℕ) (ts : List ℕ) (x : ℕ)
      → length ts ≤ fuel
      → count x (flatten (partition_loop fuel reordering graph ts)) ≡ count x ts
  unfolding partition_loop
  count-partition_loop zero [] x h = refl
  count-partition_loop zero (t ∷ ts) x h = absurd (omega arith)
  count-partition_loop (suc fuel) [] x h = refl
  count-partition_loop (suc fuel) (t ∷ ts) x h =
      ap (λ r. count x (flatten r)) (loop-turn fuel t ts)
      ∙ count-append x (turn (t ∷ ts)).current_mb
          (flatten (partition_loop fuel reordering graph (turn (t ∷ ts)).postponed_txns))
      ∙ omega (
        arith,
        count-partition_loop fuel (turn (t ∷ ts)).postponed_txns x (shorter fuel t ts h),
        pass-measure reordering graph (count x) (count-append x) refl (t ∷ ts)
            (record { current_mb = []; postponed_txns = [] }),
      )

  In-partition_loop :
      (fuel : ℕ) (ts b : List ℕ)
      → length ts ≤ fuel
      → In b (partition_loop fuel reordering graph ts)
      → (0 < length b) × IsFree reordering graph b
  unfolding partition_loop
  In-partition_loop zero ts b h m = absurd m
  In-partition_loop (suc fuel) [] b h m = absurd m
  In-partition_loop (suc fuel) (t ∷ ts) b h m = elim (subst (In b) (loop-turn fuel t ts) m) [
    | inl e ↦ (
      subst (λ l. 0 < length l) (sym e) (first-kept t ts),
      subst (IsFree reordering graph) (sym e) (
          pass-IsFree reordering graph (t ∷ ts) (record { current_mb = []; postponed_txns = [] })
            tt),
    )
    | inr r ↦ In-partition_loop fuel (turn (t ∷ ts)).postponed_txns b (shorter fuel t ts h) r
  ]

-- The schedule of `partition_into_micro_blocks` has every transaction exactly as often as it was given.
pub count-partition_into_micro_blocks :
    (reordering : Bool) (graph : Graph) (txns : List ℕ) (t : ℕ)
    → count t (flatten (partition_into_micro_blocks reordering graph txns)) ≡ count t txns
unfolding partition_into_micro_blocks
count-partition_into_micro_blocks reordering graph txns t =
    count-partition_loop reordering graph (length txns) txns t (omega arith)

-- A micro block of the schedule of `partition_into_micro_blocks` is not empty, and no edge from a
-- transaction of it to a later one of it is WAW or RAW, or WAR when the reordering is off.
pub partition_into_micro_blocks-IsFree :
    (reordering : Bool) (graph : Graph) (txns b : List ℕ)
    → In b (partition_into_micro_blocks reordering graph txns)
    → (0 < length b) × IsFree reordering graph b
unfolding partition_into_micro_blocks
partition_into_micro_blocks-IsFree reordering graph txns b m =
    In-partition_loop reordering graph (length txns) txns b (omega arith) m
