-- ===== src/Prodcc/L1Filter/Bitmap.antt =====
-- protocol/Prodcc/L1Filter.h: the buckets of the keys, the bitmap that `build` makes, and the scan of
-- `query`.
use native.Mathlib.Nat.{le-div_iff_mul-le, div-mul-le_self, div-zero}
use mathlib.Core.Bool.{false≢true}
use native.Mathlib.Decide.{dec_lt}
use prdcc.Base.{
  ℕ, zero, suc, ◌+◌, ◌-◌, ◌/◌, ◌<◌, ◌≤◌, ◌≡◌, refl, sym, ap, ◌∙◌, ◌↔◌, ◌⊎◌, inl, inr, Bool, true,
  false, ◌||◌, List, [], ◌∷◌, In, length, ◌==◌, ==_iff, or-true, if◌then◌else◌, get_or, set,
  length-set, arith, Bool-cases,
}
use prdcc.Prodcc.L1Filter.{num_blocks, L1Filter, bucket_index_for_key, add_keys, any_present}

div_mono : (a b w : ℕ) → a ≤ b → a / w ≤ b / w
div_mono a b zero h = rw (div-zero, div-zero) (omega arith)
div_mono a b (suc w) h =
    (le-div_iff_mul-le (omega arith)).1 (omega (arith, div-mul-le_self a (suc w)))

-- Every bucket is in the bitmap, so no access is out of range.
pub bucket_index-lt : (f : L1Filter) (key : ℕ) → bucket_index_for_key f key < num_blocks
unfolding bucket_index_for_key
bucket_index-lt f key = ground arith

-- A larger key has no smaller bucket.
pub bucket_index_mono :
    (f : L1Filter) (a b : ℕ) → a ≤ b → bucket_index_for_key f a ≤ bucket_index_for_key f b
unfolding bucket_index_for_key
bucket_index_mono f a b h =
    ground (arith, div_mono (a - f.min_key) (b - f.min_key) f.bucket_width (omega arith))

-- The bitmap after the loop of `build`.
pub marks : (ℕ → ℕ) → List ℕ → List Bool → List Bool
marks index [] bitmap = bitmap
marks index (key ∷ keys) bitmap =
    marks index keys
      (if get_or bitmap (index key) false then bitmap else set bitmap (index key) true)

pub add_keys-marks :
    (f : L1Filter) (keys : List ℕ) (bitmap : List Bool)
    → add_keys (record f { presence_bitmap = bitmap }) keys
      ≡ record f { presence_bitmap = marks (bucket_index_for_key f) keys bitmap }
unfolding add_keys marks bucket_index_for_key
add_keys-marks f [] bitmap = refl
add_keys-marks f (key ∷ keys) bitmap =
    elim (Bool-cases (get_or bitmap (bucket_index_for_key f key) false)) [
      | inl e ↦ rw e (add_keys-marks f keys bitmap)
      | inr e ↦ rw e (add_keys-marks f keys (set bitmap (bucket_index_for_key f key) true))
    ]

get_or-set :
    (bm : List Bool) (i j : ℕ)
    → i < length bm
    → get_or (set bm i true) j false ≡ ((i == j) || get_or bm j false)
get_or-set [] i j h = absurd (omega arith)
get_or-set (x ∷ bm) zero zero h = refl
get_or-set (x ∷ bm) zero (suc j) h = ground arith
get_or-set (x ∷ bm) (suc i) zero h = ground arith
get_or-set (x ∷ bm) (suc i) (suc j) h = ground (arith, get_or-set bm i j (omega arith))

-- A bucket is set exactly if it was, or if it is that of a key.
pub marks_iff :
    (index : ℕ → ℕ) (keys : List ℕ) (bm : List Bool) (j : ℕ)
    → ((key : ℕ) → index key < length bm)
    → (get_or (marks index keys bm) j false ≡ true)
      ↔ ((get_or bm j false ≡ true) ⊎ ((key : ℕ) × In key keys × (index key ≡ j)))
unfolding marks
marks_iff index [] bm j h = (λ p. inl p, λ p. elim p [ inl q ↦ q | inr q ↦ absurd q.1 ])
marks_iff index (k ∷ ks) bm j h = elim (Bool-cases (get_or bm (index k) false)) [
  | inl e ↦ rw e (
    λ p. elim ((marks_iff index ks bm j h).0 p) [
      | inl q ↦ inl q
      | inr (a, b, c) ↦ inr (a, inr b, c)
    ],
    λ p. (marks_iff index ks bm j h).1 (elim p [
      | inl q ↦ inl q
      | inr (a, inl b, c) ↦ inl (ap (λ x. get_or bm x false) (sym c ∙ ap index b) ∙ e)
      | inr (a, inr b, c) ↦ inr (a, b, c)
    ]),
  )
  | inr e ↦ rw e (
      let ih =
        marks_iff index ks (set bm (index k) true) j
          (λ q. rw (length-set bm (index k) true) (h q)) in
      let g = get_or-set bm (index k) j (h k) in
      (
        λ p. elim (ih.0 p) [
          | inl q ↦ elim (Bool-cases (index k == j)) [
            | inl m ↦ inr (k, inl refl, (==_iff (index k) j).0 m)
            | inr m ↦ inl (sym (g ∙ ap (λ b. b || get_or bm j false) m) ∙ q)
          ]
          | inr (a, b, c) ↦ inr (a, inr b, c)
        ],
        λ p. ih.1 (elim p [
          | inl q ↦ inl (g ∙ ap (λ b. (index k == j) || b) q ∙ or-true (index k == j))
          | inr (a, inl b, c) ↦
              inl (
                g
                ∙ ap (λ m. m || get_or bm j false) ((==_iff (index k) j).1 (ap index (sym b) ∙ c)))
          | inr (a, inr b, c) ↦ inr (a, b, c)
        ]),
      ))
]

pub any_present_iff :
    (bm : List Bool) (i count : ℕ)
    → (any_present bm i count ≡ true)
      ↔ ((j : ℕ) × (i ≤ j) × (j < i + count) × (get_or bm j false ≡ true))
unfolding any_present
any_present_iff bm i zero = (λ h. cc, λ (j, p, q, r). absurd (omega arith))
any_present_iff bm i (suc count) = elim (Bool-cases (get_or bm i false)) [
  | inl e ↦ rw (any_present, e) (λ h. (i, omega arith, omega arith, e), λ h. refl)
  | inr e ↦
      rw (any_present, e)
        (
          λ h.
              let r = (any_present_iff bm (suc i) count).0 h in
              (r.0, omega (arith, r.1), omega (arith, r.2), r.3),
          λ (j, p, q, r). (any_present_iff bm (suc i) count).1 (j, later j p r e, omega arith, r),
        )
]
  where
    later : (j : ℕ) → i ≤ j → get_or bm j false ≡ true → get_or bm i false ≡ false → suc i ≤ j
    later j p r e = elim (dec_lt i j) [
      | yes q ↦ q
      | no q ↦ absurd (false≢true (sym e ∙ ap (λ k. get_or bm k false) (omega arith) ∙ r))
    ]
