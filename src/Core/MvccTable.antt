-- ===== src/Core/MvccTable.antt =====
-- core/Table.h: MVCCTable, the table of rows with versions. A row is a number, and a value is a number. `none`
-- is a failed CHECK, or the null pointers that `search_prev` gives. The encoded value of `deserialize_value` is
-- its decoded value. `update` is its two stores, one after the other.
pub mod Write
use prdcc.Base.{
  ℕ, ◌+◌, ◌-◌, ◌^◌, Bool, List, [], ◌∷◌, Option, none, some, ◌>>=◌, ◌==◌, if◌then◌else◌,
}
use prdcc.Common.MvccHashMap.{
  Version, HashMap, put, contains_key, insert_key_version_holder, get_key_version,
  get_key_version_prev_with_version, get_key_version_prev, vacuum_key_keep_latest,
}

-- The tuple of a version: its metadata word and its value.
pub record Cell : Type 0 where
  pub placeholder : ℕ
  pub value : ℕ

abbrev pub MvccTable : Type 0
MvccTable = HashMap Cell

unfoldable pub search : MvccTable → ℕ → ℕ → Option Cell
search table key version = get_key_version table key version

unfoldable pub contains : MvccTable → ℕ → Bool
contains table key = contains_key table key

unfoldable pub search_latest : MvccTable → ℕ → ℕ → Option (Version Cell)
search_latest table key upper_bound =
    get_key_version_prev_with_version table key
      (if upper_bound == (2 ^ 64 - 1) then upper_bound else upper_bound + 1)

abbrev pub value_of : Option Cell → Option ℕ
value_of none = none
value_of (some c) = some c.value

abbrev pub placeholder_of : Option Cell → Option ℕ
placeholder_of none = none
placeholder_of (some c) = some c.placeholder

unfoldable pub search_value : MvccTable → ℕ → ℕ → Option ℕ
search_value table key version = value_of (get_key_version table key version)

unfoldable pub search_metadata : MvccTable → ℕ → ℕ → Option ℕ
search_metadata table key version = placeholder_of (get_key_version table key version)

unfoldable pub search_prev : MvccTable → ℕ → ℕ → Option Cell
search_prev table key version = get_key_version_prev table key version

unfoldable pub search_value_prev : MvccTable → ℕ → ℕ → Option ℕ
search_value_prev table key version = value_of (get_key_version_prev table key version)

unfoldable pub search_metadata_prev : MvccTable → ℕ → ℕ → Option ℕ
search_metadata_prev table key version = placeholder_of (get_key_version_prev table key version)

unfoldable pub insert : MvccTable → ℕ → ℕ → ℕ → Option MvccTable
insert table key value version =
    insert_key_version_holder table key version (record { placeholder = version; value = value })

-- A write through the pointer that `get_key_version` gives, to the version that its loop finds.
unfoldable pub write_version :
    ℕ → (Cell → Cell) → List (Version Cell) → Option (List (Version Cell))
write_version version f [] = none
write_version version f (vt ∷ l) =
    let rest = write_version version f l in
    if vt.version == version
    then some (record vt { value = f vt.value } ∷ l)
    else elim rest [ none ↦ none | some l' ↦ some (vt ∷ l') ]

unfoldable pub write_key : MvccTable → ℕ → ℕ → (Cell → Cell) → Option MvccTable
write_key table key version f = elim (table key) [
  | none ↦ none
  | some l ↦ elim (write_version version f l) [
    | none ↦ none
    | some l' ↦ some (put table key (some l'))
  ]
]

-- The two stores of `update`: the placeholder is made ready, and then the value is written.
unfoldable pub update_begin : MvccTable → ℕ → ℕ → Option MvccTable
update_begin table key version = write_key table key version (λ c. record c { placeholder = 0 })

unfoldable pub update_end : MvccTable → ℕ → ℕ → ℕ → Option MvccTable
update_end table key value version = write_key table key version (λ c. record c { value = value })

unfoldable pub update : MvccTable → ℕ → ℕ → ℕ → Option MvccTable
update table key value version =
    update_begin table key version >>= λ s. update_end s key value version

-- The reference of `search_metadata`, which is written to.
unfoldable pub set_metadata : MvccTable → ℕ → ℕ → ℕ → Option MvccTable
set_metadata table key version word =
    write_key table key version (λ c. record c { placeholder = word })

unfoldable pub garbage_collect : MvccTable → ℕ → MvccTable
garbage_collect table key = (vacuum_key_keep_latest table key).1

unfoldable pub deserialize_value : MvccTable → ℕ → ℕ → ℕ → Option MvccTable
deserialize_value table key value version =
    write_key table key version (λ c. record c { value = value })
