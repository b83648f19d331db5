-- ===== src/Calvin/Partitioner/Groups.antt =====
-- protocol/Calvin/CalvinPartitioner.h: every coordinator has a replica group, and in it every partition has
-- one master.
use native.Mathlib.Nat.{mod-lt, mod-eq_of_lt}
use native.Mathlib.Decide.{dec_lt}
use prdcc.Base.{
  ℕ, suc, ◌+◌, ◌-◌, ◌%◌, ◌^◌, ◌≤◌, ◌<◌, ◌≡◌, ap, ◌∙◌, true, some, ◌↔◌, List, [], ◌∷◌, arith,
}
use prdcc.Calvin.Partitioner.{
  Group, find_group, accumulate, calvin_partitioner, master_coordinator, has_master_partition,
}

-- The number of coordinators in the groups, and that no group is empty.
abbrev pub total : List ℕ → ℕ
total [] = 0
total (n ∷ sizes) = n + total sizes

unfoldable pub AllPositive : List ℕ → Type 0
AllPositive [] = 0 < 1
AllPositive (n ∷ sizes) = (0 < n) × AllPositive sizes

-- Below 2 ^ 32 the sum is the number of the coordinators.
accumulate-total :
    (s : ℕ) (sizes : List ℕ) → s + total sizes < 2 ^ 32 → accumulate s sizes ≡ s + total sizes
unfolding accumulate
accumulate-total s [] h = omega arith
accumulate-total s (n ∷ sizes) h =
    ap (λ m. accumulate m sizes) (mod-eq_of_lt (omega arith))
    ∙ accumulate-total (s + n) sizes (omega arith)
    ∙ omega arith

-- The coordinator is one of the group.
abbrev pub IsMember : ℕ → Group → Type 0
IsMember c g = (g.coordinator_start_id ≤ c) × (c < g.coordinator_start_id + g.replica_group_size)

-- A coordinator of one of the groups finds its group, and the other members find the same.
find_group-IsMember :
    (c i s : ℕ) (sizes : List ℕ)
    → AllPositive sizes
    → s ≤ c
    → c < s + total sizes
    → (g : Group) × (find_group c i s sizes ≡ some (some g))
      × IsMember c g
      × (s ≤ g.coordinator_start_id)
      × (g.coordinator_start_id + g.replica_group_size ≤ s + total sizes)
      × (0 < g.replica_group_size)
      × ((d : ℕ) → IsMember d g → find_group d i s sizes ≡ some (some g))
unfolding find_group AllPositive
find_group-IsMember c i s [] p l h = absurd (omega arith)
find_group-IsMember c i s (n ∷ sizes) (q, p) l h = elim (dec_lt c (s + n)) [
  | yes b ↦ (
    record { replica_group_id = i; replica_group_size = n; coordinator_start_id = s + n - n },
    ground (arith, b, q),
    (omega arith, omega arith),
    omega arith,
    omega arith,
    q,
    λ d m. ground (arith, m, q),
  )
  | no b ↦
      let (g, e, m, a, z, u, f) =
        find_group-IsMember c (suc i) (s + n) sizes p (omega arith) (omega arith) in
      (
        g,
        ground (arith, b, q, e),
        m,
        omega arith,
        omega arith,
        u,
        λ d k. ground (arith, f d k, k, a, q),
      )
]

-- In the replica group that a coordinator finds every partition has exactly one master, a coordinator that
-- finds the same group. The groups are not empty, and have the coordinators, fewer than 2 ^ 32.
pub calvin_partitioner-has_master_partition :
    (c num : ℕ) (sizes : List ℕ)
    → AllPositive sizes
    → total sizes ≡ num
    → num < 2 ^ 32
    → c < num
    → (g : Group) × (calvin_partitioner c num sizes ≡ some (some g))
      × ((p : ℕ)
          → (m : ℕ) × (m < num)
            × (calvin_partitioner m num sizes ≡ some (some g))
            × ((d : ℕ) → (has_master_partition g d p ≡ true) ↔ (d ≡ m)))
unfolding calvin_partitioner has_master_partition master_coordinator
calvin_partitioner-has_master_partition c num sizes p t w h =
    let (g, e, m, a, z, u, f) = find_group-IsMember c 0 0 sizes p (omega arith) (omega arith) in
    let sum = accumulate-total 0 sizes (omega arith) in
    (
      g,
      ground (arith, e, sum, t),
      λ q.
          let r = mod-lt q u in
          let v =
            f (q % g.replica_group_size + g.coordinator_start_id) (omega arith, omega arith) in
          (
            q % g.replica_group_size + g.coordinator_start_id,
            omega arith,
            ground (arith, v, sum, t),
            λ d. (λ k. ground (arith, k), λ k. ground (arith, k)),
          ),
    )
