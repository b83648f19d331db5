-- ===== src/Prodcc/L1Filter/Sound.antt =====
-- protocol/Prodcc/L1Filter.h: what `query` answers after `build` and after `build_dense`.
use prdcc.Base.{
  ℕ, zero, suc, ◌+◌, ◌-◌, ◌≤◌, ◌<◌, ◌≡◌, refl, sym, ap, inr, true, false, List, In, subst, length,
  min, max, get_or, replicate, arith,
}
use prdcc.Prodcc.L1Filter.{
  L1Filter, maybe_conflict, num_blocks, empty_filter, bucket_index_for_key, build, build_dense,
  scan, query,
}
use prdcc.Prodcc.L1Filter.Bitmap.{
  bucket_index-lt, bucket_index_mono, marks, marks_iff, add_keys-marks, any_present_iff,
}

-- A query over a key of the domain whose bucket is set.
query-present :
    (f : L1Filter) (key start end : ℕ)
    → f.has_domain ≡ true
    → f.min_key ≤ key
    → key ≤ f.max_key
    → start ≤ key
    → key ≤ end
    → get_or f.presence_bitmap (bucket_index_for_key f key) false ≡ true
    → query f start end ≡ maybe_conflict
unfolding query scan
query-present f key start end d lo hi p q h = ground (
  arith,
  d,
  (any_present_iff f.presence_bitmap (bucket_index_for_key f (max start f.min_key)) (
        bucket_index_for_key f (min end f.max_key)
        + 1
        - bucket_index_for_key f (max start f.min_key))).1
      (bucket_index_for_key f key, below, omega (arith, below, above), h),
)
  where
    below : bucket_index_for_key f (max start f.min_key) ≤ bucket_index_for_key f key
    below = bucket_index_mono f (max start f.min_key) key (ground arith)

    above : bucket_index_for_key f key ≤ bucket_index_for_key f (min end f.max_key)
    above = bucket_index_mono f key (min end f.max_key) (ground arith)

length-replicate : (n : ℕ) → length (replicate n false) ≡ n
length-replicate zero = refl
length-replicate (suc n) = ap suc (length-replicate n)

get_or-replicate : (n i : ℕ) → i < n → get_or (replicate n true) i false ≡ true
get_or-replicate zero i h = absurd (omega arith)
get_or-replicate (suc n) zero h = refl
get_or-replicate (suc n) (suc i) h = get_or-replicate n i (omega arith)

build-marks :
    (keys : List ℕ) (min_key max_key : ℕ)
    → build keys min_key max_key ≡ record (empty_filter min_key max_key) {
      presence_bitmap =
          marks
            (bucket_index_for_key (empty_filter min_key max_key))
            keys
            (replicate num_blocks false);
    }
unfolding build empty_filter
build-marks keys min_key max_key =
    add_keys-marks (empty_filter min_key max_key) keys (replicate num_blocks false)

-- After `build`, no range with a key of the list is answered `no_conflict`: the coarse filter has no
-- false negative.
pub query-build :
    (keys : List ℕ) (min_key max_key key start end : ℕ)
    → In key keys
    → min_key ≤ key
    → key ≤ max_key
    → start ≤ key
    → key ≤ end
    → query (build keys min_key max_key) start end ≡ maybe_conflict
unfolding empty_filter bucket_index_for_key
query-build keys min_key max_key key start end m lo hi p q =
    subst (λ g. query g start end ≡ maybe_conflict) (sym (build-marks keys min_key max_key))
      (query-present
        (record (empty_filter min_key max_key) {
          presence_bitmap =
              marks (bucket_index_for_key (empty_filter min_key max_key)) keys
                (replicate num_blocks false);
        })
        key start end (ground (arith, lo, hi)) lo hi p q marked)
  where
    marked :
        get_or
          (marks
            (bucket_index_for_key (empty_filter min_key max_key))
            keys
            (replicate num_blocks false))
          (bucket_index_for_key (empty_filter min_key max_key) key)
          false
        ≡ true
    marked =
        (marks_iff (bucket_index_for_key (empty_filter min_key max_key)) keys
            (replicate num_blocks false) (bucket_index_for_key (empty_filter min_key max_key) key)
            (λ k. omega (
              arith,
              bucket_index-lt (empty_filter min_key max_key) k,
              length-replicate num_blocks,
            ))).1
          (inr (key, m, refl))

-- After `build_dense`, a range that meets the domain is answered `maybe_conflict`.
pub query-build_dense :
    (min_key max_key key start end : ℕ)
    → min_key ≤ key
    → key ≤ max_key
    → start ≤ key
    → key ≤ end
    → query (build_dense min_key max_key) start end ≡ maybe_conflict
unfolding build_dense empty_filter bucket_index_for_key
query-build_dense min_key max_key key start end lo hi p q =
    subst (λ g. query g start end ≡ maybe_conflict) (sym dense)
      (query-present
        (record (empty_filter min_key max_key) { presence_bitmap = replicate num_blocks true }) key
        start end (ground (arith, lo, hi)) lo hi p q
        (get_or-replicate num_blocks (bucket_index_for_key (empty_filter min_key max_key) key)
          (bucket_index-lt (empty_filter min_key max_key) key)))
  where
    dense :
        build_dense min_key max_key
        ≡ record (empty_filter min_key max_key) { presence_bitmap = replicate num_blocks true }
    dense = ground (arith, lo, hi)
