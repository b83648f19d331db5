-- ===== src/Prodcc/L1Filter.antt =====
-- protocol/Prodcc/L1Filter.h: the coarse filter, a bitmap of `num_blocks` buckets over the key domain.
-- The log lines are left out. Keys are uint64_t: no operation below leaves their range.
pub mod Bitmap
pub mod Sound
use prdcc.Base.{
  ℕ, zero, suc, ◌+◌, ◌-◌, ◌/◌, ◌<◌, ◌≤◌, Bool, true, false, not, ◌||◌, List, [], ◌∷◌, min, max, ltb,
  leb, if◌then◌else◌, get_or, set, replicate,
}

abbrev pub num_blocks : ℕ
num_blocks = 4096

pub data L1Result : Type 0 where
  no_conflict maybe_conflict : L1Result

pub record L1Filter : Type 0 where
  pub presence_bitmap : List Bool
  pub has_domain : Bool
  pub min_key : ℕ
  pub max_key : ℕ
  pub bucket_width : ℕ

unfoldable pub compute_bucket_width : ℕ → ℕ → ℕ
compute_bucket_width min_key max_key =
    if ltb max_key min_key then 1 else (max_key - min_key) / num_blocks + 1

unfoldable pub bucket_index_for_key : L1Filter → ℕ → ℕ
bucket_index_for_key f key =
    if leb key f.min_key
    then 0
    else if leb f.max_key key
    then num_blocks - 1
    else let block_idx = (key - f.min_key) / f.bucket_width in
      if leb num_blocks block_idx then num_blocks - 1 else block_idx

-- The filter over a domain, with no key in it.
unfoldable pub empty_filter : ℕ → ℕ → L1Filter
empty_filter min_key max_key = record {
  presence_bitmap = replicate num_blocks false;
  has_domain = leb min_key max_key;
  min_key = min_key;
  max_key = max_key;
  bucket_width = compute_bucket_width min_key max_key;
}

-- The loop of `build` over the keys.
unfoldable pub add_keys : L1Filter → List ℕ → L1Filter
add_keys f [] = f
add_keys f (key ∷ keys) =
    add_keys
      (if get_or f.presence_bitmap (bucket_index_for_key f key) false
        then f
        else record f { presence_bitmap = set f.presence_bitmap (bucket_index_for_key f key) true })
      keys

unfoldable pub build : List ℕ → ℕ → ℕ → L1Filter
build keys min_key max_key = add_keys (empty_filter min_key max_key) keys

unfoldable pub build_dense : ℕ → ℕ → L1Filter
build_dense min_key max_key =
    if not (leb min_key max_key)
    then empty_filter min_key max_key
    else record (empty_filter min_key max_key) { presence_bitmap = replicate num_blocks true }

-- The loop of `query` over `count` buckets from `i` on.
unfoldable pub any_present : List Bool → ℕ → ℕ → Bool
any_present bitmap i zero = false
any_present bitmap i (suc count) = elim (get_or bitmap i false) [
  | true ↦ true
  | false ↦ any_present bitmap (suc i) count
]

-- The buckets from `start_block` to `end_block`, both included.
unfoldable pub scan : L1Filter → ℕ → ℕ → L1Result
scan f start_block end_block =
    if any_present f.presence_bitmap start_block (end_block + 1 - start_block)
    then maybe_conflict
    else no_conflict

unfoldable pub query : L1Filter → ℕ → ℕ → L1Result
query f start end =
    if not f.has_domain || ltb end start
    then no_conflict
    else if ltb end f.min_key || ltb f.max_key start
    then no_conflict
    else if ltb (min end f.max_key) (max start f.min_key)
    then no_conflict
    else scan f (bucket_index_for_key f (max start f.min_key))
        (bucket_index_for_key f (min end f.max_key))
