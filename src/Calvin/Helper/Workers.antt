-- ===== src/Calvin/Helper/Workers.antt =====
-- protocol/Calvin/CalvinExecutor.h: the workers of a lock manager.
use native.Mathlib.Nat.{mod-lt, mul-div_cancel_left, mul-le-mul_right, mul-add-div, div-eq_of_lt}
use prdcc.Base.{ℕ, ◌+◌, ◌-◌, ◌*◌, ◌/◌, ◌%◌, ◌≤◌, ◌<◌, ◌≡◌, ◌∙◌, false, ltb, arith}
use prdcc.Calvin.Helper.{worker_id_to_lock_manager_id, get_available_worker}

-- The worker that a lock manager gives a transaction to is one of the workers, and its own lock manager is that
-- one. The number of workers is a multiple of that of the lock managers, and not 0.
pub get_available_worker-worker_id_to_lock_manager_id :
    (n len id request_id : ℕ)
    → id < n
    → 0 < len
    → let worker = get_available_worker n (n * len) id request_id in
      (n ≤ worker) × (worker < n + n * len) × (worker_id_to_lock_manager_id worker n (n * len) ≡ id)
unfolding get_available_worker worker_id_to_lock_manager_id
get_available_worker-worker_id_to_lock_manager_id n len id request_id lt pos =
    let one : n * len / n ≡ len = mul-div_cancel_left len {n = n} (omega (arith, lt)) in
    let r_lt : request_id % len < len = mod-lt request_id {m = len} pos in
    let room : (id + 1) * len ≤ n * len =
      mul-le-mul_right {m = id + 1} {n = n} len (omega (arith, lt)) in
    let split : (id + 1) * len ≡ len * id + len = grind arith in
    let back : (len * id + request_id % len) / len ≡ id =
      mul-add-div {m = len} pos id (request_id % len)
      ∙ omega (arith, div-eq_of_lt {n = request_id % len} {m = len} r_lt) in
    let gone : request_id % len + (n + len * id) - n ≡ len * id + request_id % len = omega arith in
    let miss : ltb (request_id % len + (n + len * id)) n ≡ false = ground arith in
    rw one (omega arith, omega (arith, r_lt, room, split), rw (miss, gone) back)
