-- ===== src/Prodcc/Schedule/Ordered.antt =====
-- protocol/Prodcc/ProdccManager.h: the order of the transactions in a micro block.
use prdcc.Base.{
  append_nil, ℕ, zero, suc, ◌≤◌, ◌<◌, ◌≡◌, refl, sym, ap, Bool, List, [], ◌∷◌, ◌++◌, length, In,
  All, get_or, if-cases, inl, inr, arith, subst,
}
use prdcc.Prodcc.Schedule.{
  Edge, Graph, should_postpone, Pass, pass, partition_loop, partition_into_micro_blocks,
}
use prdcc.Prodcc.Schedule.Turn.{IsHarmless, IsFree}
use prdcc.Prodcc.Schedule.Partition.{turn, loop-turn, shorter}

-- Each number is smaller than those after it.
abbrev pub IsIncreasing : List ℕ → Type 0
IsIncreasing [] = Unit
IsIncreasing (x ∷ xs) = All (λ y. x < y) xs × IsIncreasing xs

All-drop :
    (x : ℕ) (xs : List ℕ) (t : ℕ) (ts : List ℕ)
    → All (λ y. x < y) (xs ++ t ∷ ts)
    → All (λ y. x < y) (xs ++ ts)
All-drop x [] t ts h = h.1
All-drop x (y ∷ xs) t ts h = (h.0, All-drop x xs t ts h.1)

IsIncreasing-drop :
    (xs : List ℕ) (t : ℕ) (ts : List ℕ) → IsIncreasing (xs ++ t ∷ ts) → IsIncreasing (xs ++ ts)
IsIncreasing-drop [] t ts h = h.1
IsIncreasing-drop (x ∷ xs) t ts h = (All-drop x xs t ts h.0, IsIncreasing-drop xs t ts h.1)

snoc_append : (xs : List ℕ) (t : ℕ) (ts : List ℕ) → (xs ++ t ∷ []) ++ ts ≡ xs ++ t ∷ ts
snoc_append [] t ts = refl
snoc_append (x ∷ xs) t ts = ap (λ r. x ∷ r) (snoc_append xs t ts)

module _ (reordering : Bool) (graph : Graph) where
  pass-IsIncreasing :
      (ts : List ℕ) (s : Pass)
      → IsIncreasing (s.current_mb ++ ts)
      → IsIncreasing (s.postponed_txns ++ ts)
      → IsIncreasing (pass reordering graph ts s).current_mb
        × IsIncreasing (pass reordering graph ts s).postponed_txns
  unfolding pass
  pass-IsIncreasing [] s h p = (
    subst IsIncreasing (append_nil s.current_mb) h,
    subst IsIncreasing (append_nil s.postponed_txns) p,
  )
  pass-IsIncreasing (t ∷ ts) s h p =
      let (cm, pp) =
        if-cases (λ u. IsIncreasing (u.current_mb ++ ts) × IsIncreasing (u.postponed_txns ++ ts))
          (should_postpone reordering graph t s.current_mb)
          (record s { postponed_txns = s.postponed_txns ++ t ∷ [] })
          (record s { current_mb = s.current_mb ++ t ∷ [] })
          (λ e. (
            IsIncreasing-drop s.current_mb t ts h,
            subst IsIncreasing (sym (snoc_append s.postponed_txns t ts)) p,
          ))
          (λ e. (
            subst IsIncreasing (sym (snoc_append s.current_mb t ts)) h,
            IsIncreasing-drop s.postponed_txns t ts p,
          )) in
      pass-IsIncreasing ts _ cm pp

  partition_loop-IsIncreasing :
      (fuel : ℕ) (ts b : List ℕ)
      → length ts ≤ fuel
      → IsIncreasing ts
      → In b (partition_loop fuel reordering graph ts)
      → IsIncreasing b
  unfolding partition_loop
  partition_loop-IsIncreasing zero ts b h inc m = absurd m
  partition_loop-IsIncreasing (suc fuel) [] b h inc m = absurd m
  partition_loop-IsIncreasing (suc fuel) (t ∷ ts) b h inc m =
      let (mb, rest) =
        pass-IsIncreasing (t ∷ ts) (record { current_mb = []; postponed_txns = [] }) inc inc in
      elim (subst (In b) (loop-turn reordering graph fuel t ts) m) [
        | inl e ↦ subst IsIncreasing (sym e) mb
        | inr r ↦
            partition_loop-IsIncreasing fuel (turn reordering graph (t ∷ ts)).postponed_txns b
              (shorter reordering graph fuel t ts h) rest r
      ]

  -- The micro blocks keep the order of the transactions.
  pub partition_into_micro_blocks-IsIncreasing :
      (txns b : List ℕ)
      → IsIncreasing txns
      → In b (partition_into_micro_blocks reordering graph txns)
      → IsIncreasing b
  unfolding partition_into_micro_blocks
  partition_into_micro_blocks-IsIncreasing txns b inc m =
      partition_loop-IsIncreasing (length txns) txns b (omega arith) inc m

  All-In : (x y : ℕ) (ts : List ℕ) → All (λ z. x < z) ts → In y ts → x < y
  All-In x y [] h m = absurd m
  All-In x y (t ∷ ts) h (inl e) = omega (arith, h.0, e)
  All-In x y (t ∷ ts) h (inr m) = All-In x y ts h.1 m

  -- An edge between two transactions of such a list is harmless.
  pub IsFree-IsHarmless :
      (b : List ℕ) (x : ℕ) (edge : Edge)
      → IsFree reordering graph b
      → IsIncreasing b
      → In x b
      → In edge.target b
      → x < edge.target
      → In edge (get_or graph x [])
      → IsHarmless reordering edge.conflict
  IsFree-IsHarmless [] x edge free inc m n lt i = absurd m
  IsFree-IsHarmless (t ∷ ts) x edge free inc (inl e) (inl p) lt i = absurd (omega (arith, e, p, lt))
  IsFree-IsHarmless (t ∷ ts) x edge free inc (inl e) (inr q) lt i =
      free.0 edge (subst (λ k. In edge (get_or graph k [])) e i) q
  IsFree-IsHarmless (t ∷ ts) x edge free inc (inr q) (inl p) lt i =
      absurd (omega (arith, All-In t x ts inc.0 q, p, lt))
  IsFree-IsHarmless (t ∷ ts) x edge free inc (inr q) (inr r) lt i =
      IsFree-IsHarmless ts x edge free.1 inc.1 q r lt i
