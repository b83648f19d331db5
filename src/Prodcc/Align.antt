-- ===== src/Prodcc/Align.antt =====
-- protocol/Prodcc/ProdccManager.h: `align_schedule_size`, by which the coordinators agree on the number of
-- micro blocks. The sizes are sent as int: a size goes through the conversion there and back.
use prdcc.Base.{
  ℕ, ◌+◌, ◌-◌, ◌%◌, ◌^◌, ◌≤◌, ◌<◌, ◌≡◌, List, [], ◌∷◌, All, length, max, map, ltb, if◌then◌else◌,
  arith,
}
use prdcc.Prodcc.Schedule.{pad_schedule_to_size}
use prdcc.Prodcc.Schedule.Chunks.{flatten, pad_schedule_to_size_lem}

unfoldable pub through_int : ℕ → ℕ
through_int size =
    let low = size % 2 ^ 32 in if ltb low (2 ^ 31) then low else low + (2 ^ 64 - 2 ^ 32)

-- Coordinator 0, with the sizes of the others in the order in which they arrive.
unfoldable pub align_first : ℕ → List ℕ → ℕ
align_first local_size [] = local_size
align_first local_size (size ∷ sizes) = align_first (max local_size (through_int size)) sizes

-- Another coordinator, with what coordinator 0 found.
unfoldable pub align_other : ℕ → ℕ
align_other max_size = through_int max_size

through_int-eq_of_lt : (size : ℕ) → size < 2 ^ 31 → through_int size ≡ size
unfolding through_int
through_int-eq_of_lt size h = ground (arith, h)

module _ {A : Type 0} (size_of : A → ℕ) where
  align_first-bounds :
      (local_size : ℕ) (xs : List A)
      → local_size < 2 ^ 31
      → All (λ x. size_of x < 2 ^ 31) xs
      → (local_size ≤ align_first local_size (map size_of xs))
        × (align_first local_size (map size_of xs) < 2 ^ 31)
        × All (λ x. size_of x ≤ align_first local_size (map size_of xs)) xs
  unfolding align_first
  align_first-bounds local_size [] h hs = (omega arith, h, tt)
  align_first-bounds local_size (x ∷ xs) h hs =
      let e = through_int-eq_of_lt (size_of x) hs.0 in
      let (le, lt, rest) =
        align_first-bounds (max local_size (through_int (size_of x))) xs (omega (arith, e, h, hs.0))
          hs.1 in
      (omega (arith, le, e), lt, (omega (arith, le, e), rest))

-- The padding brings the schedule of every coordinator to one length, and none of them loses or gains a
-- transaction or has its order changed. There are fewer than 2 ^ 31 micro blocks on each.
pub align_schedule_size-agrees :
    (first : List (List ℕ)) (others : List (List (List ℕ)))
    → length first < 2 ^ 31
    → All (λ s. length s < 2 ^ 31) others
    → let size = align_first (length first) (map length others) in
      (length (pad_schedule_to_size first size) ≡ size)
      × (flatten (pad_schedule_to_size first size) ≡ flatten first)
      × All
          (λ s.
            (length (pad_schedule_to_size s (align_other size)) ≡ size)
            × (flatten (pad_schedule_to_size s (align_other size)) ≡ flatten s))
          others
unfolding align_other
align_schedule_size-agrees first others h hs =
    let size = align_first (length first) (map length others) in
    let (le, lt, all_le) = align_first-bounds length (length first) others h hs in
    let (same_length, same_txns) = pad_schedule_to_size_lem first size le in
    (same_length, same_txns, each size lt others all_le)
  where
    each :
        (size : ℕ)
        → size < 2 ^ 31
        → (xs : List (List (List ℕ))) → All (λ s. length s ≤ size) xs
        → All
            (λ s.
              (length (pad_schedule_to_size s (through_int size)) ≡ size)
              × (flatten (pad_schedule_to_size s (through_int size)) ≡ flatten s))
            xs
    each size lt [] h = tt
    each size lt (s ∷ xs) h = (
      rw (through_int-eq_of_lt size lt) (pad_schedule_to_size_lem s size h.0),
      each size lt xs h.1,
    )
