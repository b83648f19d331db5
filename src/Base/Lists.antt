-- ===== src/Base/Lists.antt =====
-- Lists measured and indexed by native numbers, under the library's names.
use Prim.Native.Nat.{ℕ, zero, suc, ◌+◌}
use mathlib.Core.Path.{◌≡◌, refl, ap, subst}
use mathlib.Core.Logic.{◌⊎◌, ◌↔◌, inl, inr}
use mathlib.Core.List.{List, [], ◌∷◌, ◌++◌}
use mathlib.Core.Option.{Option, none, some}
use native.Mathlib.Omega.{arith}

module _ {ℓ} {A : Type ℓ} where
  abbrev pub length : List A → ℕ
  length [] = 0
  length (x ∷ xs) = suc (length xs)

  abbrev pub get_elem? : List A → ℕ → Option A
  get_elem? [] i = none
  get_elem? (x ∷ xs) zero = some x
  get_elem? (x ∷ xs) (suc i) = get_elem? xs i

  abbrev pub get_or : List A → ℕ → A → A
  get_or [] i d = d
  get_or (x ∷ xs) zero d = x
  get_or (x ∷ xs) (suc i) d = get_or xs i d

  -- A write out of bounds changes nothing.
  abbrev pub set : List A → ℕ → A → List A
  set [] i v = []
  set (x ∷ xs) zero v = v ∷ xs
  set (x ∷ xs) (suc i) v = x ∷ set xs i v

  abbrev pub replicate : ℕ → A → List A
  replicate zero a = []
  replicate (suc n) a = a ∷ replicate n a

  pub append_nil : (xs : List A) → xs ++ [] ≡ xs
  append_nil [] = refl
  append_nil (x ∷ xs) = ap (λ r. x ∷ r) (append_nil xs)

  pub length-append : (xs ys : List A) → length (xs ++ ys) ≡ length xs + length ys
  length-append [] ys = omega arith
  length-append (x ∷ xs) ys = omega (arith, length-append xs ys)

  pub length-set : (xs : List A) (i : ℕ) (v : A) → length (set xs i v) ≡ length xs
  length-set [] i v = refl
  length-set (x ∷ xs) zero v = refl
  length-set (x ∷ xs) (suc i) v = ap suc (length-set xs i v)

-- Membership by recursion, which the tactics read and build.
abbrev pub In : {A : Type 0} → A → List A → Type 0
In x [] = ⊥
In x (y ∷ ys) = (x ≡ y) ⊎ In x ys

abbrev pub All {ℓ κ} : {A : Type ℓ} → (A → Type κ) → List A → Type κ
All P [] = Unit
All P (x ∷ xs) = P x × All P xs

abbrev pub concat_map : {A B : Type 0} → (A → List B) → List A → List B
concat_map f [] = []
concat_map f (x ∷ xs) = f x ++ concat_map f xs

pub In-append : {A : Type 0} (x : A) (xs ys : List A) → In x (xs ++ ys) ↔ (In x xs ⊎ In x ys)
In-append x [] ys = (inr, λ h. elim h [ inl m ↦ absurd m | inr m ↦ m ])
In-append x (y ∷ xs) ys = (
  λ h. elim h [
    | inl e ↦ inl (inl e)
    | inr m ↦ elim ((In-append x xs ys).0 m) [ inl a ↦ inl (inr a) | inr b ↦ inr b ]
  ],
  λ h. elim h [
    | inl a ↦ elim a [ inl e ↦ inl e | inr m ↦ inr ((In-append x xs ys).1 (inl m)) ]
    | inr b ↦ inr ((In-append x xs ys).1 (inr b))
  ],
)

pub In-concat_map :
    {A B : Type 0} (f : A → List B) (y : B) (xs : List A)
    → In y (concat_map f xs) ↔ ((x : A) × In x xs × In y (f x))
In-concat_map f y [] = (λ h. absurd h, λ h. absurd h.1)
In-concat_map f y (x ∷ xs) = (
  λ h. elim ((In-append y (f x) (concat_map f xs)).0 h) [
    | inl m ↦ (x, inl refl, m)
    | inr m ↦ let (z, p, q) = (In-concat_map f y xs).0 m in (z, inr p, q)
  ],
  λ (z, p, q). (In-append y (f x) (concat_map f xs)).1 (elim p [
    | inl e ↦ inl (subst (λ v. In y (f v)) e q)
    | inr m ↦ inr ((In-concat_map f y xs).1 (z, m, q))
  ]),
)
