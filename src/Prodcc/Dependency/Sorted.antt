-- ===== src/Prodcc/Dependency/Sorted.antt =====
-- protocol/Prodcc/ProdccManager.h: the transactions of `build_txns_to_schedule`.
use prdcc.Base.{
  ℕ, ◌+◌, ◌≤◌, ◌<◌, ◌≡◌, refl, inl, inr, List, [], ◌∷◌, Option, none, some, All, arith, Bool-cases,
  if◌then◌else◌, ltb, ◌==◌,
}
use prdcc.Prodcc.Cleanup.{Flags}
use prdcc.Prodcc.Schedule.Turn.{count}
use prdcc.Prodcc.Schedule.Ordered.{IsIncreasing}
use prdcc.Prodcc.Dependency.{insert_id, build_txns_to_schedule}

-- The slots in use with the id that are not given up.
abbrev pub is_kept : ℕ → Option Flags → ℕ
is_kept id none = 0
is_kept id (some t) = if t.abort_no_retry then 0 else if t.id == id then 1 else 0

abbrev pub kept : ℕ → List (Option Flags) → ℕ
kept id [] = 0
kept id (slot ∷ slots) = is_kept id slot + kept id slots

insert_id-count :
    (id x : ℕ) (xs : List ℕ) → count x (insert_id id xs) ≡ (if id == x then 1 else 0) + count x xs
unfolding insert_id
insert_id-count id x [] = refl
insert_id-count id x (y ∷ ys) = elim (Bool-cases (ltb id y)) [
  | inl e ↦ rw e refl
  | inr e ↦ rw e (omega (arith, insert_id-count id x ys))
]

build_txns_to_schedule-count :
    (slots : List (Option Flags)) (id : ℕ) → count id (build_txns_to_schedule slots) ≡ kept id slots
unfolding build_txns_to_schedule
build_txns_to_schedule-count [] id = refl
build_txns_to_schedule-count (none ∷ slots) id =
    omega (arith, build_txns_to_schedule-count slots id)
build_txns_to_schedule-count (some t ∷ slots) id = elim (Bool-cases t.abort_no_retry) [
  | inl e ↦ rw e (omega (arith, build_txns_to_schedule-count slots id))
  | inr e ↦ rw e (
      omega (
        arith,
        build_txns_to_schedule-count slots id,
        insert_id-count t.id id (build_txns_to_schedule slots),
      ))
]

All-insert_id :
    (x id : ℕ) (xs : List ℕ) → x < id → All (λ y. x < y) xs → All (λ y. x < y) (insert_id id xs)
unfolding insert_id
All-insert_id x id [] lt h = (lt, tt)
All-insert_id x id (y ∷ ys) lt h = elim (Bool-cases (ltb id y)) [
  | inl e ↦ rw e (lt, h)
  | inr e ↦ rw e (h.0, All-insert_id x id ys lt h.1)
]

All-above : (x y : ℕ) (xs : List ℕ) → x < y → All (λ z. y < z) xs → All (λ z. x < z) xs
All-above x y [] lt h = tt
All-above x y (z ∷ zs) lt h = (omega (arith, lt, h.0), All-above x y zs lt h.1)

insert_id-IsIncreasing :
    (id : ℕ) (xs : List ℕ) → count id xs ≡ 0 → IsIncreasing xs → IsIncreasing (insert_id id xs)
unfolding insert_id
insert_id-IsIncreasing id [] fresh inc = (tt, tt)
insert_id-IsIncreasing id (y ∷ ys) fresh inc = elim (Bool-cases (ltb id y)) [
  | inl e ↦ let lt : id < y = ground (arith, e) in rw e ((lt, All-above id y ys lt inc.0), inc)
  | inr e ↦
      let lt : y < id = ground (arith, e, fresh) in
      rw e
        (All-insert_id y id ys lt inc.0, insert_id-IsIncreasing id ys (ground (arith, fresh)) inc.1)
]

-- The transactions to schedule are those of the slots in use that are not given up, each as often as its id
-- stands there, and when no id stands there twice they are in the order of their ids.
pub build_txns_to_schedule-IsIncreasing :
    (slots : List (Option Flags))
    → ((id : ℕ) → kept id slots ≤ 1)
    → IsIncreasing (build_txns_to_schedule slots)
      × ((id : ℕ) → count id (build_txns_to_schedule slots) ≡ kept id slots)
unfolding build_txns_to_schedule
build_txns_to_schedule-IsIncreasing slots once =
    (increasing slots once, build_txns_to_schedule-count slots)
  where
    increasing :
        (slots : List (Option Flags))
        → ((id : ℕ) → kept id slots ≤ 1)
        → IsIncreasing (build_txns_to_schedule slots)
    increasing [] once = tt
    increasing (none ∷ slots) once = increasing slots (λ id. omega (arith, once id))
    increasing (some t ∷ slots) once = elim (Bool-cases t.abort_no_retry) [
      | inl e ↦ rw e (increasing slots (λ id. omega (arith, once id)))
      | inr e ↦ rw e (
          insert_id-IsIncreasing t.id (build_txns_to_schedule slots)
            (ground (arith, e, once t.id, build_txns_to_schedule-count slots t.id))
            (increasing slots (λ id. omega (arith, once id))))
    ]
