-- ===== src/Prodcc/Worker/Turns.antt =====
-- protocol/Prodcc/ProdccExecutor.h: which worker comes to which slot.
use native.Mathlib.Nat.{mod-lt, mod-eq_of_lt, mod-eq-sub-mod, mod-add-mod}
use prdcc.Base.{
  ℕ, zero, suc, ◌+◌, ◌-◌, ◌%◌, ◌≤◌, ◌<◌, ◌≡◌, ◌≢◌, ap, ◌∙◌, inl, inr, Bool, true, false, ◌&&◌, ltb,
  leb, ◌==◌, if◌then◌else◌, arith, All, Bool-cases,
}
use prdcc.Prodcc.Schedule.Turn.{count}
use prdcc.Prodcc.Worker.{slots_from, worker_slots}

-- The rest of a sum with `id` is `id` when the rest of the other summand is 0, and only then.
mod-add_iff :
    (d id m : ℕ)
    → id < m
    → ((d % m == 0) ≡ true → (d + id) % m ≡ id) × ((d % m == 0) ≡ false → (d + id) % m ≢ id)
mod-add_iff d id m lt =
    let r_lt = mod-lt d {m = m} (omega arith) in
    let e = mod-add-mod d m id in
    (
      λ h.
          let z : d % m + id ≡ id = ground (arith, h) in
          omega (arith, ap (λ x. x % m) z, e, mod-eq_of_lt lt),
      λ h p. elim (Bool-cases (leb m (d % m + id))) [
        | inl wraps ↦ ground (
          arith,
          h,
          p,
          e,
          r_lt,
          lt,
          wraps,
          mod-eq-sub-mod {n = d % m + id} {m = m} (ground (arith, wraps)),
          mod-eq_of_lt {n = d % m + id - m} {m = m} (ground (arith, wraps, r_lt, lt)),
        )
        | inr stays ↦
            ground
              (arith, h, p, e, stays, mod-eq_of_lt {n = d % m + id} {m = m} (ground (arith, stays)))
      ],
    )

module _ (worker_num size : ℕ) where
  -- A slot comes after `i` in steps of the loop.
  abbrev comes : ℕ → ℕ → Bool
  comes slot i = leb i slot && ltb slot size && ((slot - i) % worker_num == 0)

  comes-step :
      (slot i : ℕ)
      → 0 < worker_num
      → i < size
      → (if comes slot i then 1 else 0)
        ≡ (if i == slot then 1 else 0) + (if comes slot (i + worker_num) then 1 else 0)
  comes-step slot i pos lt = elim (Bool-cases (leb (i + worker_num) slot)) [
    | inl h ↦
        let e : slot - i - worker_num ≡ slot - (i + worker_num) = omega arith in
        ground (
          arith,
          h,
          pos,
          lt,
          ap (λ x. x % worker_num) e,
          mod-eq-sub-mod {n = slot - i} {m = worker_num} (ground (arith, h)),
        )
    | inr h ↦ elim (Bool-cases (leb i slot)) [
      | inr below ↦ ground (arith, h, pos, lt, below)
      | inl above ↦ ground (
        arith,
        h,
        pos,
        lt,
        above,
        mod-eq_of_lt {n = slot - i} {m = worker_num} (ground (arith, h, above)),
      )
    ]
  ]

  slots_from-count :
      (slot fuel i : ℕ)
      → 0 < worker_num
      → size ≤ fuel + i
      → count slot (slots_from worker_num size fuel i) ≡ (if comes slot i then 1 else 0)
  unfolding slots_from
  slots_from-count slot zero i pos h = ground (arith, h)
  slots_from-count slot (suc fuel) i pos h = elim (Bool-cases (ltb i size)) [
    | inl lt ↦ rw lt (
        omega (
          arith,
          slots_from-count slot fuel (i + worker_num) pos (omega (arith, h, pos)),
          comes-step slot i pos (ground (arith, lt)),
        ))
    | inr ge ↦ rw ge (ground (arith, ge))
  ]

  slots_from-lt : (fuel i : ℕ) → All (λ slot. slot < size) (slots_from worker_num size fuel i)
  unfolding slots_from
  slots_from-lt zero i = tt
  slots_from-lt (suc fuel) i = elim (Bool-cases (ltb i size)) [
    | inl lt ↦ rw lt (ground (arith, lt), slots_from-lt fuel (i + worker_num))
    | inr ge ↦ rw ge tt
  ]

  pub worker_slots-lt : (id : ℕ) → All (λ slot. slot < size) (worker_slots worker_num size id)
  unfolding worker_slots
  worker_slots-lt id = slots_from-lt size id

  -- The loop of a worker comes to a slot once when the slot is below the size and the slot's rest by the
  -- number of workers is the worker, and else not at all.
  pub worker_slots-count :
      (id slot : ℕ)
      → id < worker_num
      → count slot (worker_slots worker_num size id)
        ≡ (if ltb slot size && (slot % worker_num == id) then 1 else 0)
  unfolding worker_slots
  worker_slots-count id slot lt =
      slots_from-count slot size id (omega (arith, lt)) (omega arith)
      ∙ elim (Bool-cases (leb id slot)) [
        | inl h ↦
            let back : slot - id + id ≡ slot = ground (arith, h) in
            let (zero_rest, other_rest) = mod-add_iff (slot - id) id worker_num lt in
            let m = ap (λ x. x % worker_num) back in
            elim (Bool-cases ((slot - id) % worker_num == 0)) [
              | inl z ↦ ground (arith, h, z, m, zero_rest z)
              | inr z ↦ ground (arith, h, z, m, other_rest z)
            ]
        | inr h ↦
            ground (arith, h, lt, mod-eq_of_lt {n = slot} {m = worker_num} (ground (arith, h, lt)))
      ]
