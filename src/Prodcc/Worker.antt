-- ===== src/Prodcc/Worker.antt =====
-- protocol/Prodcc/ProdccExecutor.h and ProdccManager.h: the slots of a worker,
-- `for (i = id; i < size; i += worker_num)`. Every turn goes up, so the size is enough fuel.
pub mod Turns
use prdcc.Base.{ℕ, zero, suc, ◌+◌, List, [], ◌∷◌, ltb, if◌then◌else◌}

unfoldable pub slots_from : ℕ → ℕ → ℕ → ℕ → List ℕ
slots_from worker_num size zero i = []
slots_from worker_num size (suc fuel) i =
    let rest = slots_from worker_num size fuel (i + worker_num) in
    if ltb i size then i ∷ rest else []

unfoldable pub worker_slots : ℕ → ℕ → ℕ → List ℕ
worker_slots worker_num size id = slots_from worker_num size size id
