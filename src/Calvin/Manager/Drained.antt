-- ===== src/Calvin/Manager/Drained.antt =====
-- protocol/Calvin/CalvinExecutor.h: a run of a lock manager comes to its end.
use prdcc.Base.{ℕ, ◌≡◌, refl, ap, subst, Bool, true, false, ◌&&◌, List, [], ◌∷◌, All, ◌==◌, arith}
use mathlib.Core.Bool.{false≢true}
use prdcc.Calvin.Helper.{partition_id_to_lock_manager_id}
use prdcc.Calvin.Locks.{CalvinTxn, manages}
use prdcc.Calvin.Locks.Balance.{sum, weight}
use prdcc.Calvin.Manager.{Item, Manager, Move, grant, moves, begin}
use prdcc.Calvin.Manager.Invariant.{IsOrderly, IsReady, load, IsInvariant, items_of-IsReady}
use prdcc.Calvin.Manager.Progress.{IsFree, moves-IsInvariant, grant-items, finish}

module _ (is_master : ℕ → Bool) (partition_of : ℕ → ℕ)
    (n_lock_manager group_size lock_manager_id : ℕ) (words db : ℕ → ℕ) (txns : List CalvinTxn) where
  abbrev pub mine : ℕ → Bool
  mine = manages is_master partition_of n_lock_manager group_size lock_manager_id

  mine-is_master : (row : ℕ) → mine row ≡ true → is_master row ≡ true
  unfolding manages
  mine-is_master row h =
      both (is_master row)
        (partition_id_to_lock_manager_id (partition_of row) n_lock_manager group_size
          == lock_manager_id)
        h
    where
      both : (a b : Bool) → (a && b) ≡ true → a ≡ true
      both true b h = refl
      both false b h = absurd (false≢true h)

  begin-IsInvariant :
      ((row : ℕ) → IsFree (words row))
      → All IsOrderly txns
      → IsInvariant mine words (begin words db txns)
  unfolding begin
  begin-IsInvariant free o =
      ((λ row. omega arith), (λ row. (free row).0), tt, items_of-IsReady mine txns o)

  -- At the end nothing is held.
  nothing_held :
      (s : Manager)
      → ((row : ℕ) → IsFree (words row))
      → IsInvariant mine words s
      → s.items ≡ []
      → s.running ≡ []
      → (row : ℕ) → s.words row ≡ words row
  nothing_held s free (w, b, c, r) i q row =
      let held : (r : ℕ) → sum (weight mine r) s.taken ≡ 0 = subst (IsReady mine s.taken) i r in
      omega (arith, w row, b row, (free row).0, ap (load mine row) q, held row)

  -- A lock manager that grants the locks of a batch in its order is never stuck, whatever the steps so far: when
  -- no transaction is in the queues of its workers the next grant goes through, and there are steps to the end,
  -- where everything is granted, every transaction has ended and every lock word is as in the beginning. The
  -- words were free, and a transaction asks for a row once and writes the rows that it has a write lock of.
  pub moves-finish :
      (ms : List Move)
      → ((row : ℕ) → IsFree (words row))
      → All IsOrderly txns
      → let s = moves is_master mine ms (begin words db txns) in
        ((item : Item) (rest : List Item)
          → s.running ≡ []
          → s.items ≡ item ∷ rest
          → (grant is_master mine s).items ≡ rest)
        × ((more : List Move) × ((moves is_master mine more s).items ≡ [])
            × ((moves is_master mine more s).running ≡ [])
            × ((row : ℕ) → (moves is_master mine more s).words row ≡ words row))
  moves-finish ms free o =
      let s = moves is_master mine ms (begin words db txns) in
      let v =
        moves-IsInvariant is_master mine mine-is_master words free ms (begin words db txns)
          (begin-IsInvariant free o) in
      let (more, i, q) = finish is_master mine mine-is_master words free s.items s v refl in
      (
        λ item rest. grant-items is_master mine mine-is_master words free s item rest v,
        (
          more,
          i,
          q,
          nothing_held (moves is_master mine more s) free
              (moves-IsInvariant is_master mine mine-is_master words free more s v) i q,
        ),
      )
