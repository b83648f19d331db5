-- ===== src/Common/MvccHashMap.antt =====
-- common/MVCCHashMap.h: the versions of each key, the newest first. A key is a number, and the map of its
-- bucket is a function; the buckets and their locks are left out, since a key is only looked for in the bucket
-- of its hash. A value that is given out by reference is the value that its holder puts there.
pub mod Newest
pub mod Vacuum
use prdcc.Base.{
  ℕ, zero, suc, ◌+◌, Bool, true, false, ◌&&◌, List, [], ◌∷◌, Option, none, some, length, any, ltb,
  leb, ◌==◌, if◌then◌else◌,
}

pub record Version {ℓ} (A : Type ℓ) : Type ℓ where
  pub version : ℕ
  pub value : A

-- A key is absent at `none`.
abbrev pub HashMap {ℓ} : Type ℓ → Type ℓ
HashMap A = ℕ → Option (List (Version A))

module _ {ℓ} {A : Type ℓ} where
  abbrev pub put : HashMap A → ℕ → Option (List (Version A)) → HashMap A
  put map key l k = if k == key then l else map k

  -- The list of a key, empty for a key that is absent.
  abbrev pub listed : Option (List (Version A)) → List (Version A)
  listed none = []
  listed (some l) = l

  abbrev pub versions : HashMap A → ℕ → List (Version A)
  versions map key = listed (map key)

  abbrev pub is_empty : List (Version A) → Bool
  is_empty [] = true
  is_empty (_ ∷ _) = false

  unfoldable pub contains_key : HashMap A → ℕ → Bool
  contains_key map key = elim (map key) [
    | none ↦ false
    | some l ↦ if is_empty l then false else true
  ]

  unfoldable pub contains_key_version : HashMap A → ℕ → ℕ → Bool
  contains_key_version map key version = elim (map key) [
    | none ↦ false
    | some l ↦ any (λ vt. vt.version == version) l
  ]

  unfoldable pub remove_key : HashMap A → ℕ → Bool × HashMap A
  remove_key map key = elim (map key) [ none ↦ (false, map) | some l ↦ (true, put map key none) ]

  -- The loop of `remove_key_version`.
  unfoldable pub erase_version : ℕ → List (Version A) → Bool × List (Version A)
  erase_version version [] = (false, [])
  erase_version version (vt ∷ l) =
      let (found, rest) = erase_version version l in
      if vt.version == version then (true, l) else (found, vt ∷ rest)

  unfoldable pub remove_key_version : HashMap A → ℕ → ℕ → Bool × HashMap A
  remove_key_version map key version = elim (map key) [
    | none ↦ (false, map)
    | some l ↦ let (found, l') = erase_version version l in (found, put map key (some l'))
  ]

  -- `none` is the failed CHECK.
  unfoldable pub insert_key_version_holder : HashMap A → ℕ → ℕ → A → Option (HashMap A)
  insert_key_version_holder map key version value = elim (versions map key) [
    | [] ↦ some (put map key (some (record { version = version; value = value } ∷ [])))
    | ◌∷◌ head l ↦
        if ltb head.version version
        then some (put map key (some (record { version = version; value = value } ∷ head ∷ l)))
        else none
  ]

  unfoldable pub version_count : HashMap A → ℕ → ℕ
  version_count map key = elim (map key) [ none ↦ 0 | some l ↦ length l ]

  -- The loops that look for a version, and for one that is older.
  unfoldable pub find_version : ℕ → List (Version A) → Option A
  find_version version [] = none
  find_version version (vt ∷ l) =
      if vt.version == version then some vt.value else find_version version l

  unfoldable pub find_prev : ℕ → List (Version A) → Option (Version A)
  find_prev version [] = none
  find_prev version (vt ∷ l) = if ltb vt.version version then some vt else find_prev version l

  unfoldable pub get_key_version : HashMap A → ℕ → ℕ → Option A
  get_key_version map key version = elim (map key) [ none ↦ none | some l ↦ find_version version l ]

  unfoldable pub get_key_version_prev_with_version : HashMap A → ℕ → ℕ → Option (Version A)
  get_key_version_prev_with_version map key version = elim (map key) [
    | none ↦ none
    | some l ↦ find_prev version l
  ]

  unfoldable pub get_key_version_prev : HashMap A → ℕ → ℕ → Option A
  get_key_version_prev map key version = elim (get_key_version_prev_with_version map key version) [
    | none ↦ none
    | some vt ↦ some vt.value
  ]

  -- The loop of `vacuum_key_versions`, from the last version to the first: it goes on at a version as long as
  -- all after it are erased.
  unfoldable pub vacuum_loop : ℕ → List (Version A) → List (Version A) × ℕ
  vacuum_loop vacuum_version [] = ([], 0)
  vacuum_loop vacuum_version (vt ∷ l) =
      let (rest, size) = vacuum_loop vacuum_version l in
      if is_empty rest && leb vt.version vacuum_version then ([], size + 1) else (vt ∷ rest, size)

  unfoldable pub vacuum_key_versions : HashMap A → ℕ → ℕ → ℕ × HashMap A
  vacuum_key_versions map key vacuum_version = elim (map key) [
    | none ↦ (0, map)
    | some l ↦ let (rest, size) = vacuum_loop vacuum_version l in (size, put map key (some rest))
  ]

  unfoldable pub keep_latest : List (Version A) → List (Version A) × ℕ
  keep_latest [] = ([], 0)
  keep_latest (vt ∷ l) = (vt ∷ [], length l)

  unfoldable pub vacuum_key_keep_latest : HashMap A → ℕ → ℕ × HashMap A
  vacuum_key_keep_latest map key = elim (map key) [
    | none ↦ (0, map)
    | some l ↦ let (rest, size) = keep_latest l in (size, put map key (some rest))
  ]

-- The calls that change the map, one after another.
pub data Call {ℓ} (A : Type ℓ) : Type ℓ where
  inserted : (key version : ℕ) (value : A) → Call A
  removed : (key : ℕ) → Call A
  version_removed : (key version : ℕ) → Call A
  vacuumed : (key vacuum_version : ℕ) → Call A
  latest_kept : (key : ℕ) → Call A

module _ {ℓ} {A : Type ℓ} where
  unfoldable pub call : Call A → HashMap A → Option (HashMap A)
  call (inserted key version value) map = insert_key_version_holder map key version value
  call (removed key) map = some (remove_key map key).1
  call (version_removed key version) map = some (remove_key_version map key version).1
  call (vacuumed key vacuum_version) map = some (vacuum_key_versions map key vacuum_version).1
  call (latest_kept key) map = some (vacuum_key_keep_latest map key).1

  -- `none` is a failed CHECK in one of the calls.
  unfoldable pub calls : List (Call A) → HashMap A → Option (HashMap A)
  calls [] map = some map
  calls (c ∷ cs) map = elim (call c map) [ none ↦ none | some map' ↦ calls cs map' ]
