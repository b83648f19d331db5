-- ===== src/Common/MvccHashMap/Vacuum.antt =====
-- common/MVCCHashMap.h: what the readers see after an insertion and after a vacuum.
use mathlib.Core.Bool.{false≢true}
use prdcc.Base.{
  ℕ, suc, ◌+◌, ◌≤◌, ◌≡◌, refl, sym, ap, ◌∙◌, subst, ◌⊎◌, inl, inr, Bool, true, false, ◌&&◌, List,
  [], ◌∷◌, Option, none, some, All, arith, Bool-cases, length, ltb, leb, ==_iff, if◌then◌else◌,
  if-cases,
}
use prdcc.Common.MvccHashMap.{
  Version, HashMap, listed, versions, is_empty, version_count, find_prev,
  get_key_version_prev_with_version, vacuum_loop, vacuum_key_versions,
}
use prdcc.Common.MvccHashMap.Newest.{IsBelow, IsDecreasing}

module _ {ℓ} {A : Type ℓ} where
  -- A version that a vacuum leaves.
  abbrev pub above : ℕ → Option (Version A) → Option (Version A)
  above v none = none
  above v (some vt) = if leb vt.version v then none else some vt

  vacuum_loop-All :
      (v : ℕ) (l : List (Version A)) → All (λ vt. vt.version ≤ v) l → (vacuum_loop v l).0 ≡ []
  unfolding vacuum_loop
  vacuum_loop-All v [] h = refl
  vacuum_loop-All v (vt ∷ l) h =
      let old : leb vt.version v ≡ true = ground (arith, h.0) in
      rw (vacuum_loop-All v l h.1, old) refl

  All-up_to :
      (v w : ℕ) (l : List (Version A)) → All (IsBelow v) l → v ≤ w → All (λ vt. vt.version ≤ w) l
  All-up_to v w [] h le = tt
  All-up_to v w (vt ∷ l) h le = (omega (arith, h.0, le), All-up_to v w l h.1 le)

  -- On versions that are decreasing, the loop erases exactly those up to the vacuum's.
  vacuum_loop-cons :
      (v : ℕ) (vt : Version A) (l : List (Version A))
      → All (IsBelow vt.version) l
      → (vacuum_loop v (vt ∷ l)).0 ≡ (if leb vt.version v then [] else vt ∷ (vacuum_loop v l).0)
  unfolding vacuum_loop
  vacuum_loop-cons v vt l h = elim (Bool-cases (leb vt.version v)) [
    | inl old ↦
        rw (old, vacuum_loop-All v l (All-up_to vt.version v l h (ground (arith, old)))) refl
    | inr new ↦ elim (Bool-cases (is_empty (vacuum_loop v l).0)) [
      | inl e ↦ rw (new, e) refl
      | inr e ↦ rw (new, e) refl
    ]
  ]

  -- Of old versions nothing that is found is left.
  find_prev-All :
      (v version : ℕ) (l : List (Version A))
      → All (λ vt. vt.version ≤ v) l
      → above v (find_prev version l) ≡ none
  unfolding find_prev
  find_prev-All v version [] h = refl
  find_prev-All v version (vt ∷ l) h =
      let old : leb vt.version v ≡ true = ground (arith, h.0) in
      if-cases (λ o. above v o ≡ none) (ltb vt.version version) (some vt) (find_prev version l)
        (λ e. rw old refl) (λ e. find_prev-All v version l h.1)

  vacuum_loop-find_prev :
      (v version : ℕ) (l : List (Version A))
      → IsDecreasing l
      → find_prev version (vacuum_loop v l).0 ≡ above v (find_prev version l)
  unfolding find_prev vacuum_loop
  vacuum_loop-find_prev v version [] d = refl
  vacuum_loop-find_prev v version (vt ∷ l) d =
      ap (find_prev version) (vacuum_loop-cons v vt l d.0) ∙ elim (Bool-cases (leb vt.version v)) [
        | inl old ↦ rw old (
            sym (
              find_prev-All v version (vt ∷ l)
                (ground (arith, old), All-up_to vt.version v l d.0 (ground (arith, old)))))
        | inr new ↦ elim (Bool-cases (ltb vt.version version)) [
          | inl e ↦ rw (new, e, new) refl
          | inr e ↦ rw (new, e) (vacuum_loop-find_prev v version l d.1)
        ]
      ]

  is_empty-length : (l : List (Version A)) → is_empty l ≡ true → length l ≡ 0
  is_empty-length [] h = refl
  is_empty-length (vt ∷ l) h = absurd (false≢true h)

  vacuum_loop-length :
      (v : ℕ) (l : List (Version A)) → length (vacuum_loop v l).0 + (vacuum_loop v l).1 ≡ length l
  unfolding vacuum_loop
  vacuum_loop-length v [] = omega arith
  vacuum_loop-length v (vt ∷ l) =
      let (rest, size) = vacuum_loop v l in
      if-cases (λ (r : List (Version A) × ℕ). length r.0 + r.1 ≡ suc (length l))
        (is_empty rest && leb vt.version v) ([], size + 1) (vt ∷ rest, size)
        (λ e. omega (
          arith,
          vacuum_loop-length v l,
          is_empty-length rest (both (is_empty rest) (leb vt.version v) e),
        ))
        (λ e. omega (arith, vacuum_loop-length v l))
    where
      both : (a b : Bool) → (a && b) ≡ true → a ≡ true
      both true b h = refl
      both false b h = absurd (false≢true h)

  Option-cases :
      (o : Option (List (Version A))) → (o ≡ none) ⊎ ((l : List (Version A)) × (o ≡ some l))
  Option-cases none = inl refl
  Option-cases (some l) = inr (l, refl)

  -- After `vacuum_key_versions` a reader of the key gets what it got before when that version is above the
  -- vacuum's, and else nothing; and the result is the number of versions that are gone. The versions of the
  -- key are decreasing.
  pub vacuum_key_versions-prev :
      (map : HashMap A) (key vacuum_version version : ℕ)
      → IsDecreasing (versions map key)
      → let (size, map') = vacuum_key_versions map key vacuum_version in
        (get_key_version_prev_with_version map' key version
          ≡ above vacuum_version (get_key_version_prev_with_version map key version))
        × (version_count map' key + size ≡ version_count map key)
  unfolding vacuum_key_versions get_key_version_prev_with_version version_count
  vacuum_key_versions-prev map key v version d = elim (Option-cases (map key)) [
    | inl e ↦
        rw (get_key_version_prev_with_version, vacuum_key_versions, version_count, e)
          (rw e refl, rw e (omega arith))
    | inr (l, e) ↦
        let decreasing : IsDecreasing l = subst (λ o. IsDecreasing (listed o)) e d in
        rw
          (
            get_key_version_prev_with_version,
            vacuum_key_versions,
            version_count,
            e,
            (==_iff key key).1 refl,
          )
          (vacuum_loop-find_prev v version l decreasing, vacuum_loop-length v l)
  ]
