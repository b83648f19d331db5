-- ===== src/Prodcc/Snapshot/Ids.antt =====
-- protocol/Prodcc/ProdccExecutor.h: the ids of `read_snapshot`.
use native.Mathlib.Nat.{mul-le-mul_right, suc-mul}
use native.Mathlib.Decide.{dec_lt}
use prdcc.Base.{ℕ, suc, ◌+◌, ◌*◌, ◌<◌, ◌≡◌, sym, subst, arith}
use prdcc.Prodcc.Snapshot.{txn_id, graph_size}

-- A smaller slot gives a smaller id, whichever the coordinators.
id_lt : (n c d i j : ℕ) → c < n → i < j → i * n + c + 1 < j * n + d + 1
id_lt n c d i j p h =
    omega (arith, suc-mul i n, mul-le-mul_right {m = suc i} {n = j} n (omega arith))

-- On coordinators below `n`, two slots get the same id only if they are the same slot of the same
-- coordinator.
txn_id-injective : (n c d i j : ℕ) → c < n → d < n → txn_id n c i ≡ txn_id n d j → (i ≡ j) × (c ≡ d)
unfolding txn_id
txn_id-injective n c d i j p q e = elim (dec_lt i j) [
  | yes lt ↦ absurd (omega (arith, id_lt n c d i j p lt))
  | no ge ↦ elim (dec_lt j i) [
    | yes lt ↦ absurd (omega (arith, id_lt n d c j i q lt))
    | no le ↦ same (omega arith)
  ]
]
  where
    cancel : i * n + c + 1 ≡ i * n + d + 1 → c ≡ d
    cancel h = omega arith

    same : i ≡ j → (i ≡ j) × (c ≡ d)
    same h = (h, cancel (subst (λ k. i * n + c + 1 ≡ k * n + d + 1) (sym h) e))

-- The id of a transaction of one of `slots` slots is an index of the dependency graph, and never 0, which
-- the metadata words take for nobody.
pub txn_id-graph_size :
    (n c i slots : ℕ) → c < n → i < slots → (0 < txn_id n c i) × (txn_id n c i < graph_size slots n)
unfolding txn_id graph_size
txn_id-graph_size n c i slots p h = (omega arith, omega (arith, id_lt n c 0 i slots p h))
