-- ===== src/Prodcc/ConflictPredictor/Sweep.antt =====
-- protocol/Prodcc/ConflictPredictor.h: what the sweep over two lists of ranges finds. The lists are
-- sorted by their ranges' starts; the ranges of a list may overlap.
use mathlib.Core.Bool.{false≢true}
use prdcc.Base.{
  ℕ, zero, suc, ◌+◌, ◌≤◌, ◌≡◌, refl, sym, ◌∙◌, inl, inr, Bool, true, false, List, [], ◌∷◌, In,
  length, ltb, ltb→lt, min, max, arith, subst, Bool-cases,
}
use prdcc.Prodcc.ConflictPredictor.{Range, has_key, sweep}

-- Sorted by the start.
abbrev pub IsSorted : List Range → Type 0
IsSorted [] = Unit
IsSorted (x ∷ xs) = ((y : Range) → In y xs → x.first ≤ y.first) × IsSorted xs

-- The key is in the range.
abbrev pub Covers : Range → ℕ → Type 0
Covers r k = (r.first ≤ k) × (k ≤ r.second)

-- The summary answers yes to every range of at most `width` further keys that has the key.
abbrev pub Sees : (ℕ → ℕ → Bool) → ℕ → ℕ → Type 0
Sees query width k = (a b : ℕ) → a ≤ k → k ≤ b → b ≤ a + width → query a b ≡ true

abbrev pub IsNarrow : ℕ → Range → Type 0
IsNarrow width r = r.second ≤ r.first + width

pub has_key-Covers :
    (query : ℕ → ℕ → Bool) (width k : ℕ) (x y : Range)
    → Sees query width k
    → IsNarrow width x
    → Covers x k
    → Covers y k
    → has_key query x y ≡ true
unfolding has_key
has_key-Covers query width k x y sees narrow p q = ground (
  arith,
  sees (max x.first y.first) (min x.second y.second) (ground arith) (ground arith) (ground arith),
)

pub sweep-finds :
    (fuel : ℕ) (query : ℕ → ℕ → Bool) (width k : ℕ) (xs ys : List Range) (x y : Range)
    → length xs + length ys ≤ fuel
    → Sees query width k
    → ((r : Range) → In r xs → IsNarrow width r)
    → IsSorted xs
    → IsSorted ys
    → In x xs
    → In y ys
    → Covers x k
    → Covers y k
    → sweep fuel query xs ys ≡ true
unfolding sweep
sweep-finds zero query width k [] ys x y f s n sx sy p q cx cy = absurd p
sweep-finds zero query width k (a ∷ xs) ys x y f s n sx sy p q cx cy = absurd (omega arith)
sweep-finds (suc fuel) query width k [] ys x y f s n sx sy p q cx cy = absurd p
sweep-finds (suc fuel) query width k (a ∷ xs) [] x y f s n sx sy p q cx cy = absurd q
sweep-finds (suc fuel) query width k (a ∷ xs) (b ∷ ys) x y f s n sx sy p q cx cy =
    elim (Bool-cases (has_key query a b)) [
      | inl e ↦ rw e refl
      | inr e ↦ elim (Bool-cases (ltb a.second b.second)) [
        | inl o ↦
            rw (e, o)
              (sweep-finds fuel query width k xs (b ∷ ys) x y (omega arith) s (λ r i. n r (inr i))
                sx.1 sy
                (elim p [
                  | inl l ↦ absurd (
                      miss e (subst (λ r. Covers r k) l cx) (elim q [
                        | inl m ↦ subst (λ r. Covers r k) m cy
                        | inr m ↦ passed b y (sy.0 y m) cy (
                            omega
                              (arith, ltb→lt a.second b.second o, (subst (λ r. Covers r k) l cx).1))
                      ]))
                  | inr l ↦ l
                ])
                q cx cy)
        | inr o ↦
            rw (e, o)
              (sweep-finds fuel query width k (a ∷ xs) ys x y (omega arith) s n sx sy.1 p
                (elim q [
                  | inl m ↦ absurd (
                      miss e
                        (elim p [
                          | inl l ↦ subst (λ r. Covers r k) l cx
                          | inr l ↦
                              passed a x (sx.0 x l) cx
                                (ground (arith, o, (subst (λ r. Covers r k) m cy).1))
                        ])
                        (subst (λ r. Covers r k) m cy))
                  | inr m ↦ m
                ])
                cx cy)
      ]
    ]
  where
    miss : has_key query a b ≡ false → Covers a k → Covers b k → ⊥
    miss e ca cb = false≢true (sym e ∙ has_key-Covers query width k a b s (n a (inl refl)) ca cb)

    passed : (r z : Range) → r.first ≤ z.first → Covers z k → k ≤ r.second → Covers r k
    passed r z h c t = (omega (arith, c.0), t)

-- If the sweep says yes, it is for two ranges with a common key that the summary says yes to.
pub sweep_sound :
    (fuel : ℕ) (query : ℕ → ℕ → Bool) (xs ys : List Range)
    → sweep fuel query xs ys ≡ true
    → (x : Range) × (y : Range) × In x xs × In y ys × (has_key query x y ≡ true)
unfolding sweep
sweep_sound zero query xs ys h = absurd (false≢true h)
sweep_sound (suc fuel) query [] ys h = absurd (false≢true h)
sweep_sound (suc fuel) query (a ∷ xs) [] h = absurd (false≢true h)
sweep_sound (suc fuel) query (a ∷ xs) (b ∷ ys) h = elim (Bool-cases (has_key query a b)) [
  | inl e ↦ (a, b, inl refl, inl refl, e)
  | inr e ↦ elim (Bool-cases (ltb a.second b.second)) [
    | inl o ↦
        let (x, y, p, q, r) = sweep_sound fuel query xs (b ∷ ys) (sym (simp (e, o) refl) ∙ h) in
        (x, y, inr p, q, r)
    | inr o ↦
        let (x, y, p, q, r) = sweep_sound fuel query (a ∷ xs) ys (sym (simp (e, o) refl) ∙ h) in
        (x, y, p, inr q, r)
  ]
]
