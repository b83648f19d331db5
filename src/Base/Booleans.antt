-- ===== src/Base/Booleans.antt =====
-- Boolean disjunction, also over a list.
use mathlib.Core.Path.{◌≡◌, refl, sym, ap, ◌∙◌}
use mathlib.Core.Bool.{Bool, true, false, ◌||◌, false≢true}
use mathlib.Core.List.{List, [], ◌∷◌, ◌++◌}
use mathlib.Core.Logic.{◌↔◌, inl, inr}
use prdcc.Base.Lists.{In}
use prdcc.Base.Tests.{Bool-cases, if◌then◌else◌}

abbrev pub any {ℓ} : {A : Type ℓ} → (A → Bool) → List A → Bool
any test [] = false
any test (x ∷ xs) = test x || any test xs

pub or_assoc : (a b c : Bool) → ((a || b) || c) ≡ (a || (b || c))
or_assoc true b c = refl
or_assoc false b c = refl

pub or_comm : (a b : Bool) → (a || b) ≡ (b || a)
or_comm true true = refl
or_comm true false = refl
or_comm false true = refl
or_comm false false = refl

pub or-true : (a : Bool) → (a || true) ≡ true
or-true true = refl
or-true false = refl

pub regroup : (a b c d : Bool) → ((a || (b || c)) || d) ≡ ((a || b) || (c || d))
regroup true b c d = refl
regroup false true c d = refl
regroup false false c d = refl

pub or-false : (a : Bool) → (a || false) ≡ a
or-false true = refl
or-false false = refl

pub front : (a b c : Bool) → ((a || b) || c) ≡ ((b || c) || a)
front true true c = refl
front true false true = refl
front true false false = refl
front false b c = sym (or-false (b || c))

pub any-snoc {ℓ} :
    {A : Type ℓ} (test : A → Bool) (xs : List A) (x : A)
    → any test (xs ++ x ∷ []) ≡ (any test xs || test x)
any-snoc test [] x = or-false (test x)
any-snoc test (y ∷ ys) x = rw (any-snoc test ys x) (sym (or_assoc (test y) (any test ys) (test x)))

-- A test that some element of the list passes.
pub any_iff :
    {A : Type 0} (test : A → Bool) (xs : List A)
    → (any test xs ≡ true) ↔ ((x : A) × In x xs × (test x ≡ true))
any_iff test [] = (λ h. cc, λ h. absurd h.1)
any_iff test (x ∷ xs) = elim (Bool-cases (test x)) [
  | inl hit ↦ (λ h. (x, inl refl, hit), λ h. rw hit)
  | inr miss ↦ (
    λ h. let (y, m, e) = (any_iff test xs).0 (rw miss at h) in (y, inr m, e),
    λ (y, m, e). rw miss (
        (any_iff test xs).1 (elim m [
          | inl p ↦ absurd (false≢true (sym miss ∙ ap test (sym p) ∙ e))
          | inr q ↦ (y, q, e)
        ])),
  )
]

-- What holds of both branches holds of the `if`.
pub if-cases {ℓ ℓ'} :
    {A : Type ℓ} (P : A → Type ℓ') (c : Bool) (x y : A)
    → (c ≡ true → P x)
    → (c ≡ false → P y)
    → P (if c then x else y)
if-cases P true x y t f = t refl
if-cases P false x y t f = f refl
