-- ===== src/Aria/Least.antt =====
-- protocol/Aria/AriaHelper.h: a 20-bit field of the metadata word as the least of the transaction ids
-- that reserved it, 0 for none.
use prdcc.Base.{
  ℕ, ◌^◌, ◌≤◌, ◌<◌, ◌≡◌, refl, ◌↔◌, ◌⊎◌, inl, inr, Bool, true, not, ◌&&◌, List, [], ◌∷◌, In, All,
  ltb, ◌==◌, if◌then◌else◌, arith,
}

-- A field that holds `w`, 0 for nobody, after a reservation by `t`.
unfoldable pub join : ℕ → ℕ → ℕ
join w t = if ltb w t && not (w == 0) then w else t

unfoldable pub merge : ℕ → List ℕ → ℕ
merge w [] = w
merge w (t ∷ ts) = merge (join w t) ts

-- Transaction ids that fit a field; 0 stands for nobody.
abbrev pub IsTid : ℕ → Type 0
IsTid t = (0 < t) × (t < 2 ^ 20)

join-IsTid : (w t : ℕ) → IsTid t → 0 < join w t
unfolding join
join-IsTid w t h = ground arith

pub join-lt : (w t : ℕ) → w < 2 ^ 20 → IsTid t → join w t < 2 ^ 20
unfolding join
join-lt w t hw h = ground arith

join-le : (w t : ℕ) → join w t ≤ t
unfolding join
join-le w t = ground arith

pub merge-lt : (w : ℕ) (ts : List ℕ) → w < 2 ^ 20 → All IsTid ts → merge w ts < 2 ^ 20
unfolding merge
merge-lt w [] hw h = hw
merge-lt w (t ∷ ts) hw h = merge-lt (join w t) ts (join-lt w t hw h.0) h.1

merge-le_start : (w : ℕ) (ts : List ℕ) → 0 < w → All IsTid ts → (0 < merge w ts) × (merge w ts ≤ w)
unfolding merge join
merge-le_start w [] hw h = omega arith
merge-le_start w (t ∷ ts) hw h =
    ground (arith, merge-le_start w ts hw h.1, merge-le_start t ts h.0.0 h.1)

pub merge-le :
    (w u : ℕ) (ts : List ℕ) → All IsTid ts → In u ts → (0 < merge w ts) × (merge w ts ≤ u)
unfolding merge
merge-le w u [] h m = absurd m
merge-le w u (t ∷ ts) h (inl e) =
    omega (arith, merge-le_start (join w t) ts (join-IsTid w t h.0) h.1, join-le w t)
merge-le w u (t ∷ ts) h (inr m) = merge-le (join w t) u ts h.1 m

pub merge-In : (w : ℕ) (ts : List ℕ) → (merge w ts ≡ w) ⊎ In (merge w ts) ts
unfolding merge join
merge-In w [] = inl refl
merge-In w (t ∷ ts) = ground (arith, merge-In w ts, merge-In t ts)

-- The field holds the least of the ids, and 0 if there is none: it depends on which ids there are,
-- and neither on their order nor on how often each occurs.
pub merge-eq :
    (ts us : List ℕ)
    → All IsTid ts
    → All IsTid us
    → ((u : ℕ) → In u ts → In u us)
    → ((u : ℕ) → In u us → In u ts)
    → merge 0 ts ≡ merge 0 us
merge-eq ts us ht hu to from = elim (merge-In 0 ts) [
  | inl e ↦ elim (merge-In 0 us) [
    | inl e' ↦ omega arith
    | inr m ↦ absurd (omega (arith, merge-le 0 _ ts ht (from _ m)))
  ]
  | inr m ↦ elim (merge-In 0 us) [
    | inl e' ↦ absurd (omega (arith, merge-le 0 _ us hu (to _ m)))
    | inr m' ↦ omega (arith, merge-le 0 _ us hu (to _ m), merge-le 0 _ ts ht (from _ m'))
  ]
]

-- The test of the analysis on such a field.
abbrev pub is_earlier : ℕ → ℕ → Bool
is_earlier field t = ltb field t && not (field == 0)

pub merge-is_earlier :
    (ts : List ℕ) (t : ℕ)
    → All IsTid ts
    → (is_earlier (merge 0 ts) t ≡ true) ↔ ((u : ℕ) × In u ts × (u < t))
merge-is_earlier ts t h = (
  λ e. elim (merge-In 0 ts) [
    | inl z ↦ absurd (ground arith)
    | inr m ↦ (merge 0 ts, m, ground arith)
  ],
  λ (u, m, lt). ground (arith, merge-le 0 u ts h m),
)
