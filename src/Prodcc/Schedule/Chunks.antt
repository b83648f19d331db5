-- ===== src/Prodcc/Schedule/Chunks.antt =====
-- protocol/Prodcc/ProdccManager.h: the micro blocks of `partition_into_fixed_micro_blocks`, and the
-- padding of a schedule.
use prdcc.Base.{
  ℕ, zero, suc, ◌-◌, ◌≤◌, ◌<◌, ◌≡◌, refl, ap, ◌∙◌, List, [], ◌∷◌, ◌++◌, length, length-append, In,
  replicate, concat_map, inl, inr, arith,
}
use prdcc.Prodcc.Schedule.{
  take_block, drop_block, fixed_loop, partition_into_fixed_micro_blocks, pad_schedule_to_size,
}

abbrev pub flatten : List (List ℕ) → List ℕ
flatten = concat_map (λ b. b)

take_block-drop_block : (n : ℕ) (xs : List ℕ) → take_block n xs ++ drop_block n xs ≡ xs
unfolding take_block drop_block
take_block-drop_block zero xs = refl
take_block-drop_block (suc n) [] = refl
take_block-drop_block (suc n) (x ∷ xs) = ap (λ t. x ∷ t) (take_block-drop_block n xs)

length-take_block : (n : ℕ) (xs : List ℕ) → length (take_block n xs) ≤ n
unfolding take_block
length-take_block zero xs = omega arith
length-take_block (suc n) [] = omega arith
length-take_block (suc n) (x ∷ xs) = omega (arith, length-take_block n xs)

length-drop_block : (n : ℕ) (xs : List ℕ) → length (drop_block n xs) ≤ length xs
unfolding drop_block
length-drop_block zero xs = omega arith
length-drop_block (suc n) [] = omega arith
length-drop_block (suc n) (x ∷ xs) = omega (arith, length-drop_block n xs)

flatten-fixed_loop :
    (fuel n : ℕ) (txns : List ℕ)
    → length txns ≤ fuel
    → flatten (fixed_loop fuel (suc n) txns) ≡ txns
unfolding fixed_loop take_block drop_block
flatten-fixed_loop zero n [] h = refl
flatten-fixed_loop zero n (t ∷ ts) h = absurd (omega arith)
flatten-fixed_loop (suc fuel) n [] h = refl
flatten-fixed_loop (suc fuel) n (t ∷ ts) h =
    ap (λ r. t ∷ (take_block n ts ++ r))
      (flatten-fixed_loop fuel n (drop_block n ts) (omega (arith, length-drop_block n ts)))
    ∙ ap (λ r. t ∷ r) (take_block-drop_block n ts)

In-fixed_loop :
    (fuel n : ℕ) (txns b : List ℕ)
    → In b (fixed_loop fuel (suc n) txns)
    → (0 < length b) × (length b ≤ suc n)
unfolding fixed_loop take_block drop_block
In-fixed_loop zero n txns b m = absurd m
In-fixed_loop (suc fuel) n [] b m = absurd m
In-fixed_loop (suc fuel) n (t ∷ ts) b m = elim m [
  | inl e ↦ rw e (omega arith, omega (arith, length-take_block n ts))
  | inr r ↦ In-fixed_loop fuel n (drop_block n ts) b r
]

-- With prediction off and a positive size, the micro blocks in order are the transactions in order.
pub flatten-partition_into_fixed_micro_blocks :
    (txns : List ℕ) (size : ℕ)
    → 0 < size
    → flatten (partition_into_fixed_micro_blocks txns size) ≡ txns
unfolding partition_into_fixed_micro_blocks
flatten-partition_into_fixed_micro_blocks txns zero h = absurd (omega arith)
flatten-partition_into_fixed_micro_blocks txns (suc n) h =
    flatten-fixed_loop (length txns) n txns (omega arith)

-- With prediction off, a micro block holds at least one transaction and at most the size.
pub In-partition_into_fixed_micro_blocks :
    (txns : List ℕ) (size : ℕ) (b : List ℕ)
    → In b (partition_into_fixed_micro_blocks txns size)
    → (0 < length b) × (length b ≤ size)
unfolding partition_into_fixed_micro_blocks
In-partition_into_fixed_micro_blocks txns zero b m = absurd m
In-partition_into_fixed_micro_blocks txns (suc n) b m = In-fixed_loop (length txns) n txns b m

-- The padding brings a schedule that is not longer than the target to it, and adds no transaction.
pub pad_schedule_to_size_lem :
    (schedule : List (List ℕ)) (target_size : ℕ)
    → length schedule ≤ target_size
    → (length (pad_schedule_to_size schedule target_size) ≡ target_size)
      × (flatten (pad_schedule_to_size schedule target_size) ≡ flatten schedule)
unfolding pad_schedule_to_size
pad_schedule_to_size_lem schedule n h = (
  length-append schedule (replicate (n - length schedule) [])
      ∙ omega (arith, length-replicate (n - length schedule)),
  flatten-pad schedule (n - length schedule),
)
  where
    length-replicate : (k : ℕ) → length {A = List ℕ} (replicate k []) ≡ k
    length-replicate zero = refl
    length-replicate (suc k) = ap suc (length-replicate k)

    no_more : (k : ℕ) → flatten (replicate k []) ≡ []
    no_more zero = refl
    no_more (suc k) = no_more k

    flatten-pad : (xs : List (List ℕ)) (k : ℕ) → flatten (xs ++ replicate k []) ≡ flatten xs
    flatten-pad [] k = no_more k
    flatten-pad (x ∷ xs) k = ap (λ r. x ++ r) (flatten-pad xs k)
