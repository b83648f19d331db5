-- ===== src/Common/MvccHashMap/Newest.antt =====
-- common/MVCCHashMap.h: the order of the versions, and which version a reader gets.
use prdcc.Base.{
  ℕ, ◌≤◌, ◌<◌, ◌≡◌, subst, inl, inr, true, false, List, [], ◌∷◌, Option, none, some, All, arith,
  Bool-cases, ltb, ◌==◌, if◌then◌else◌, if-cases,
}
use prdcc.Common.MvccHashMap.{
  Version, HashMap, put, listed, versions, remove_key, erase_version, remove_key_version,
  insert_key_version_holder, find_prev, get_key_version_prev_with_version, vacuum_loop,
  vacuum_key_versions, keep_latest, vacuum_key_keep_latest, Call, inserted, removed,
  version_removed, vacuumed, latest_kept, call, calls,
}

module _ {ℓ} {A : Type ℓ} where
  abbrev pub IsBelow : ℕ → Version A → Type 0
  IsBelow version vt = vt.version < version

  -- Each version is larger than those after it.
  abbrev pub IsDecreasing : List (Version A) → Type 0
  IsDecreasing [] = Unit
  IsDecreasing (vt ∷ l) = All (IsBelow vt.version) l × IsDecreasing l

  abbrev pub IsOrdered : HashMap A → Type 0
  IsOrdered map = (key : ℕ) → IsDecreasing (versions map key)

  All-erase :
      (v : ℕ) (l : List (Version A)) (w : ℕ)
      → All (IsBelow w) l
      → All (IsBelow w) (erase_version v l).1
  unfolding erase_version
  All-erase v [] w h = tt
  All-erase v (vt ∷ l) w h = elim (Bool-cases (vt.version == v)) [
    | inl e ↦ rw e h.1
    | inr e ↦ rw e (h.0, All-erase v l w h.1)
  ]

  erase_version-IsDecreasing :
      (v : ℕ) (l : List (Version A)) → IsDecreasing l → IsDecreasing (erase_version v l).1
  unfolding erase_version
  erase_version-IsDecreasing v [] h = tt
  erase_version-IsDecreasing v (vt ∷ l) h = elim (Bool-cases (vt.version == v)) [
    | inl e ↦ rw e h.1
    | inr e ↦ rw e (All-erase v l vt.version h.0, erase_version-IsDecreasing v l h.1)
  ]

  All-vacuum :
      (v : ℕ) (l : List (Version A)) (w : ℕ)
      → All (IsBelow w) l
      → All (IsBelow w) (vacuum_loop v l).0
  unfolding vacuum_loop
  All-vacuum v [] w h = tt
  All-vacuum v (vt ∷ l) w h =
      if-cases (λ (r : List (Version A) × ℕ). All (IsBelow w) r.0) _ ([], _)
        (vt ∷ (vacuum_loop v l).0, _) (λ e. tt) (λ e. (h.0, All-vacuum v l w h.1))

  vacuum_loop-IsDecreasing :
      (v : ℕ) (l : List (Version A)) → IsDecreasing l → IsDecreasing (vacuum_loop v l).0
  unfolding vacuum_loop
  vacuum_loop-IsDecreasing v [] h = tt
  vacuum_loop-IsDecreasing v (vt ∷ l) h =
      if-cases (λ (r : List (Version A) × ℕ). IsDecreasing r.0) _ ([], _)
        (vt ∷ (vacuum_loop v l).0, _) (λ e. tt)
        (λ e. (All-vacuum v l vt.version h.0, vacuum_loop-IsDecreasing v l h.1))

  put-IsOrdered :
      (map : HashMap A) (key : ℕ) (l : List (Version A))
      → IsOrdered map
      → IsDecreasing l
      → IsOrdered (put map key (some l))
  put-IsOrdered map key l h d k =
      if-cases (λ o. IsDecreasing (listed o)) (k == key) (some l) (map k) (λ e. d) (λ e. h k)

  put-none-IsOrdered : (map : HashMap A) (key : ℕ) → IsOrdered map → IsOrdered (put map key none)
  put-none-IsOrdered map key h k =
      if-cases (λ o. IsDecreasing (listed o)) (k == key) none (map k) (λ e. tt) (λ e. h k)

  All-IsBelow : (v w : ℕ) (l : List (Version A)) → v < w → All (IsBelow v) l → All (IsBelow w) l
  All-IsBelow v w [] lt h = tt
  All-IsBelow v w (vt ∷ l) lt h = (omega (arith, lt, h.0), All-IsBelow v w l lt h.1)

  -- What holds when no CHECK failed.
  abbrev Returns : Option (HashMap A) → Type 0
  Returns none = Unit
  Returns (some map) = IsOrdered map

  insert-Returns :
      (map : HashMap A) (key version : ℕ) (value : A) (l : List (Version A))
      → IsDecreasing l
      → IsOrdered map
      → Returns (elim l [
        | [] ↦ some (put map key (some (record { version = version; value = value } ∷ [])))
        | ◌∷◌ head l ↦
            if ltb head.version version
            then some (put map key (some (record { version = version; value = value } ∷ head ∷ l)))
            else none
      ])
  insert-Returns map key version value [] d h =
      put-IsOrdered map key (record { version = version; value = value } ∷ []) h (tt, tt)
  insert-Returns map key version value (head ∷ l) d h =
      let l' = record { version = version; value = value } ∷ head ∷ l in
      if-cases Returns (ltb head.version version) (some (put map key (some l'))) none
        (λ e.
          let lt : head.version < version = ground (arith, e) in
          put-IsOrdered map key l' h ((lt, All-IsBelow head.version version l lt d.0), d))
        (λ e. tt)

  -- The list of a key under a call that keeps the order of a list.
  changed-IsOrdered :
      {X : Type 0} (map : HashMap A) (key : ℕ) (absent : X) (result : List (Version A) → X)
      (f : List (Version A) → Option (List (Version A))) (o : Option (List (Version A)))
      → IsOrdered map
      → IsDecreasing (listed o)
      → ((l : List (Version A)) → IsDecreasing l → IsDecreasing (listed (f l)))
      → IsOrdered
          (elim o as (λ x. X × HashMap A) [
            | none ↦ (absent, map)
            | some l ↦ (result l, put map key (f l))
          ]).1
  changed-IsOrdered map key absent result f none h d p k = h k
  changed-IsOrdered map key absent result f (some l) h d p k =
      if-cases (λ o. IsDecreasing (listed o)) (k == key) (f l) (map k) (λ e. p l d) (λ e. h k)

  call-Returns : (c : Call A) (map : HashMap A) → IsOrdered map → Returns (call c map)
  unfolding call insert_key_version_holder remove_key remove_key_version vacuum_key_versions
      vacuum_key_keep_latest keep_latest
  call-Returns (inserted key version value) map h =
      insert-Returns map key version value (versions map key) (h key) h
  call-Returns (removed key) map h =
      changed-IsOrdered map key false (λ l. true) (λ l. none) (map key) h (h key) (λ l d. tt)
  call-Returns (version_removed key version) map h =
      changed-IsOrdered map key false (λ l. (erase_version version l).0)
        (λ l. some (erase_version version l).1) (map key) h (h key)
        (erase_version-IsDecreasing version)
  call-Returns (vacuumed key v) map h =
      changed-IsOrdered map key 0 (λ l. (vacuum_loop v l).1) (λ l. some (vacuum_loop v l).0)
        (map key) h (h key) (vacuum_loop-IsDecreasing v)
  call-Returns (latest_kept key) map h =
      changed-IsOrdered map key 0 (λ l. (keep_latest l).1) (λ l. some (keep_latest l).0) (map key) h
        (h key) latest
    where
      latest : (l : List (Version A)) → IsDecreasing l → IsDecreasing (keep_latest l).0
      latest [] d = tt
      latest (vt ∷ l) d = (tt, tt)

  calls-Returns : (cs : List (Call A)) (map : HashMap A) → IsOrdered map → Returns (calls cs map)
  unfolding calls
  calls-Returns [] map h = h
  calls-Returns (c ∷ cs) map h = after (call c map) (call-Returns c map h) (calls-Returns cs)
    where
      after :
          (o : Option (HashMap A))
          → Returns o
          → ((map : HashMap A) → IsOrdered map → Returns (calls cs map))
          → Returns (elim o [ none ↦ none | some map' ↦ calls cs map' ])
      after none r ih = tt
      after (some map') r ih = ih map' r

  -- What a reader at a version should get: nothing when every version is at or above its own, and else a
  -- version below it that no other version below it exceeds.
  abbrev pub IsNewest : ℕ → List (Version A) → Option (Version A) → Type 0
  IsNewest version l none = All (λ vt. version ≤ vt.version) l
  IsNewest version l (some found) =
      (found.version < version) × All (λ vt. vt.version < version → vt.version ≤ found.version) l

  All-implies :
      (v w : ℕ) (l : List (Version A))
      → All (IsBelow v) l
      → All (λ vt. vt.version < w → vt.version ≤ v) l
  All-implies v w [] h = tt
  All-implies v w (vt ∷ l) h = (λ lt. omega (arith, h.0), All-implies v w l h.1)

  find_prev-IsNewest :
      (version : ℕ) (l : List (Version A))
      → IsDecreasing l
      → IsNewest version l (find_prev version l)
  unfolding find_prev
  find_prev-IsNewest version [] d = tt
  find_prev-IsNewest version (vt ∷ l) d = elim (Bool-cases (ltb vt.version version)) [
    | inl e ↦ rw e (ground (arith, e), (λ lt. omega arith, All-implies vt.version version l d.0))
    | inr e ↦
        rw e (later (find_prev version l) (ground (arith, e)) (find_prev-IsNewest version l d.1))
  ]
    where
      later :
          (o : Option (Version A))
          → version ≤ vt.version
          → IsNewest version l o
          → IsNewest version (vt ∷ l) o
      later none le h = (le, h)
      later (some found) le h = (h.0, (λ lt. absurd (omega (arith, le, lt)), h.1))

  get_prev-IsNewest :
      (map : HashMap A) (key version : ℕ)
      → IsOrdered map
      → IsNewest version (versions map key) (get_key_version_prev_with_version map key version)
  unfolding get_key_version_prev_with_version
  get_prev-IsNewest map key version h = looked (map key) (h key)
    where
      looked :
          (o : Option (List (Version A)))
          → IsDecreasing (listed o)
          → IsNewest version (listed o) (elim o [ none ↦ none | some l ↦ find_prev version l ])
      looked none d = tt
      looked (some l) d = find_prev-IsNewest version l d

  abbrev pub empty : HashMap A
  empty key = none

  -- Whatever calls changed the map since it was empty, when no CHECK of them failed: the versions of every key
  -- are decreasing, and `get_key_version_prev_with_version` finds the newest version below the reader's, or
  -- nothing when there is none.
  pub calls-IsNewest :
      (cs : List (Call A)) (map : HashMap A) (key version : ℕ)
      → calls cs empty ≡ some map
      → IsDecreasing (versions map key)
        × IsNewest version (versions map key) (get_key_version_prev_with_version map key version)
  calls-IsNewest cs map key version e =
      let ordered : IsOrdered map = subst Returns e (calls-Returns cs empty (λ k. tt)) in
      (ordered key, get_prev-IsNewest map key version ordered)
