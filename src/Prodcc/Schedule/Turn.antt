-- ===== src/Prodcc/Schedule/Turn.antt =====
-- protocol/Prodcc/ProdccManager.h: the micro block that one pass over the transactions makes.
use mathlib.Core.Bool.{false≢true, ◌||◌}
use prdcc.Base.{
  any_iff, ==_iff, ◌&&◌, ◌≢◌, ◌⊎◌, get_or, ℕ, ◌+◌, ◌≤◌, ◌≡◌, refl, sym, ◌∙◌, Bool, true, false,
  List, [], ◌∷◌, ◌++◌, length, length-append, In, In-append, inl, inr, arith, Bool-cases,
  if◌then◌else◌, ◌==◌,
}
use prdcc.Prodcc.ConflictPredictor.{ConflictType, no_conflict, waw, raw, war}
use prdcc.Prodcc.Schedule.{Edge, is_blocking, Graph, blocks, should_postpone, Pass, pass}

-- How often a transaction stands in a list.
abbrev pub count : ℕ → List ℕ → ℕ
count t [] = 0
count t (x ∷ xs) = (if x == t then 1 else 0) + count t xs

pub count-append : (t : ℕ) (xs ys : List ℕ) → count t (xs ++ ys) ≡ count t xs + count t ys
count-append t [] ys = omega arith
count-append t (x ∷ xs) ys = omega (arith, count-append t xs ys)

-- What an edge inside a micro block may be.
abbrev pub IsHarmless : Bool → ConflictType → Type 0
IsHarmless reordering conflict =
    (conflict ≢ waw) × (conflict ≢ raw) × ((conflict ≢ war) ⊎ (reordering ≡ true))

-- No edge from a transaction of the list to a later one is WAW or RAW, or WAR without the reordering.
abbrev pub IsFree : Bool → Graph → List ℕ → Type 0
IsFree reordering graph [] = Unit
IsFree reordering graph (t_j ∷ ts) =
    ((edge : Edge)
      → In edge (get_or graph t_j [])
      → In edge.target ts
      → IsHarmless reordering edge.conflict)
    × IsFree reordering graph ts

neither : (a b : Bool) → (a || b) ≡ false → (a ≡ false) × (b ≡ false)
neither true b h = absurd (false≢true (sym h))
neither false b h = (refl, h)

is_blocking-IsHarmless : (r : Bool) (c : ConflictType) → is_blocking r c ≡ false → IsHarmless r c
unfolding is_blocking
is_blocking-IsHarmless r waw h = absurd (false≢true (sym h))
is_blocking-IsHarmless r raw h = absurd (false≢true (sym h))
is_blocking-IsHarmless true war h = (λ e. cc, λ e. cc, inr refl)
is_blocking-IsHarmless false war h = absurd (false≢true (sym h))
is_blocking-IsHarmless r no_conflict h = (λ e. cc, λ e. cc, inl (λ e. cc))

module _ (reordering : Bool) (graph : Graph) where
  blocks-IsHarmless :
      (t_i t_j : ℕ) (edge : Edge)
      → blocks reordering graph t_i t_j ≡ false
      → In edge (get_or graph t_j [])
      → edge.target ≡ t_i
      → IsHarmless reordering edge.conflict
  unfolding blocks
  blocks-IsHarmless t_i t_j edge h m e =
      is_blocking-IsHarmless reordering edge.conflict
        (elim (Bool-cases (is_blocking reordering edge.conflict)) [
          | inr safe ↦ safe
          | inl yes_it ↦ absurd (
              false≢true (
                sym h
                ∙ (any_iff _ (get_or graph t_j [])).1
                    (edge, m, both ((==_iff edge.target t_i).1 e) yes_it)))
        ])
    where
      both : {a b : Bool} → a ≡ true → b ≡ true → (a && b) ≡ true
      both p q = rw (p, q) refl

  IsFree-snoc :
      (xs : List ℕ) (t : ℕ)
      → IsFree reordering graph xs
      → should_postpone reordering graph t xs ≡ false
      → IsFree reordering graph (xs ++ t ∷ [])
  unfolding should_postpone
  IsFree-snoc [] t h p = ((λ edge m n. absurd n), h)
  IsFree-snoc (x ∷ xs) t h p =
      let quiet = neither (blocks reordering graph t x) (should_postpone reordering graph t xs) p in
      (
        λ edge m n. elim ((In-append edge.target xs (t ∷ [])).0 n) [
          | inl a ↦ h.0 edge m a
          | inr b ↦ elim b [ inl e ↦ blocks-IsHarmless t x edge quiet.0 m e | inr a ↦ absurd a ]
        ],
        IsFree-snoc xs t h.1 quiet.1,
      )

  pub pass-IsFree :
      (ts : List ℕ) (s : Pass)
      → IsFree reordering graph s.current_mb
      → IsFree reordering graph (pass reordering graph ts s).current_mb
  unfolding pass
  pass-IsFree [] s h = h
  pass-IsFree (t ∷ ts) s h = elim (Bool-cases (should_postpone reordering graph t s.current_mb)) [
    | inl e ↦ simp e (pass-IsFree ts (record s { postponed_txns = s.postponed_txns ++ t ∷ [] }) h)
    | inr e ↦ simp e (
        pass-IsFree ts (record s { current_mb = s.current_mb ++ t ∷ [] })
          (IsFree-snoc s.current_mb t h e))
  ]

  -- A measure that adds up over lists.
  pub pass-measure :
      (measure : List ℕ → ℕ)
      → ((xs ys : List ℕ) → measure (xs ++ ys) ≡ measure xs + measure ys)
      → measure [] ≡ 0
      → (ts : List ℕ) (s : Pass)
      → measure (pass reordering graph ts s).current_mb
          + measure (pass reordering graph ts s).postponed_txns
        ≡ measure s.current_mb + measure s.postponed_txns + measure ts
  unfolding pass
  pass-measure measure add nil [] s = omega (arith, nil)
  pass-measure measure add nil (t ∷ ts) s =
      elim (Bool-cases (should_postpone reordering graph t s.current_mb)) [
        | inl e ↦ simp e (
            pass-measure measure add nil ts
              (record s { postponed_txns = s.postponed_txns ++ t ∷ [] })
            ∙ omega (arith, add s.postponed_txns (t ∷ []), add (t ∷ []) ts))
        | inr e ↦ simp e (
            pass-measure measure add nil ts (record s { current_mb = s.current_mb ++ t ∷ [] })
            ∙ omega (arith, add s.current_mb (t ∷ []), add (t ∷ []) ts))
      ]

  pub pass-grows :
      (ts : List ℕ) (s : Pass)
      → length s.current_mb ≤ length (pass reordering graph ts s).current_mb
  unfolding pass
  pass-grows [] s = omega arith
  pass-grows (t ∷ ts) s = elim (Bool-cases (should_postpone reordering graph t s.current_mb)) [
    | inl e ↦ simp e (pass-grows ts (record s { postponed_txns = s.postponed_txns ++ t ∷ [] }))
    | inr e ↦ simp e (
        omega (
          arith,
          length-append s.current_mb (t ∷ []),
          pass-grows ts (record s { current_mb = s.current_mb ++ t ∷ [] }),
        ))
  ]
