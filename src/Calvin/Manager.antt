-- ===== src/Calvin/Manager.antt =====
-- protocol/Calvin/CalvinExecutor.h: a lock manager, which grants the locks of the transactions in their order, and
-- its workers, which end the granted transactions in any order. The grant of one key is a step, and so is the end
-- of a transaction, its commit or its abort; the calls on one word are atomic. The transaction counters are left
-- out, and so is the result of `execute`: a transaction without a write on this node aborts there.
pub mod Covered
pub mod Invariant
pub mod Steps
pub mod Progress
pub mod Drained
use prdcc.Base.{
  ℕ, zero, suc, Bool, true, false, List, [], ◌∷◌, ◌++◌, Option, none, some, if◌then◌else◌, length,
}
use prdcc.Calvin.Locks.{
  CalvinKey, CalvinTxn, grant_key, is_granted, abort_locks, commit_locks, is_active,
}

-- What the loops of `schedule_transactions` do next.
pub data Item : Type 0 where
  lock : (k : CalvinKey) → Item
  push : (t : CalvinTxn) → Item

abbrev pub lock_items : List CalvinKey → List Item → List Item
lock_items [] rest = rest
lock_items (k ∷ ks) rest = lock k ∷ lock_items ks rest

unfoldable pub items_of : List CalvinTxn → List Item
items_of [] = []
items_of (t ∷ ts) =
    let rest = items_of ts in
    if t.abort_no_retry then rest else lock_items t.read_set (push t ∷ rest)

-- The lock words and the values of the node; the keys of the transaction in hand that have their locks, the
-- newest first; the transactions in the queues of the workers; and what is left to do.
pub record Manager : Type 0 where
  pub words : ℕ → ℕ
  pub db : ℕ → ℕ
  pub taken : List CalvinKey
  pub running : List CalvinTxn
  pub items : List Item

abbrev pub remove_at : List CalvinTxn → ℕ → Option (CalvinTxn × List CalvinTxn)
remove_at [] i = none
remove_at (t ∷ ts) zero = some (t, ts)
remove_at (t ∷ ts) (suc i) = elim (remove_at ts i) [ none ↦ none | some (u, us) ↦ some (u, t ∷ us) ]

module _ (is_master mine : ℕ → Bool) where
  -- The manager waits while its next row is locked.
  abbrev pub locked : Manager → CalvinKey → List Item → Option (ℕ → ℕ) → Manager
  locked s k rest none = s
  locked s k rest (some words) = record s { words = words; taken = k ∷ s.taken; items = rest }

  abbrev pub next_item : Manager → List Item → Manager
  next_item s [] = s
  next_item s (lock k ∷ rest) = locked s k rest (grant_key mine k s.words)
  next_item s (push t ∷ rest) = record s {
    taken = [];
    running = if is_granted mine t then s.running ++ t ∷ [] else s.running;
    items = rest;
  }

  unfoldable pub grant : Manager → Manager
  grant s = next_item s s.items

  -- The words and the values after the end of a transaction.
  unfoldable pub end_txn : CalvinTxn → (ℕ → ℕ) × (ℕ → ℕ) → (ℕ → ℕ) × (ℕ → ℕ)
  end_txn t (words, db) =
      if is_active is_master t
      then commit_locks mine t (words, db)
      else (abort_locks mine t words, db)

  abbrev pub ended : Manager → Option (CalvinTxn × List CalvinTxn) → Manager
  ended s none = s
  ended s (some (t, ts)) =
      let (words, db) = end_txn t (s.words, s.db) in
      record s { words = words; db = db; running = ts }

  -- The end of the transaction at a place of the queues.
  unfoldable pub end_at : ℕ → Manager → Manager
  end_at i s = ended s (remove_at s.running i)

pub data Move : Type 0 where
  grants : Move
  ends : (i : ℕ) → Move

module _ (is_master mine : ℕ → Bool) where
  unfoldable pub move : Move → Manager → Manager
  move grants s = grant is_master mine s
  move (ends i) s = end_at is_master mine i s

  unfoldable pub moves : List Move → Manager → Manager
  moves [] s = s
  moves (m ∷ ms) s = moves ms (move m s)

unfoldable pub begin : (ℕ → ℕ) → (ℕ → ℕ) → List CalvinTxn → Manager
begin words db txns = record {
  words = words;
  db = db;
  taken = [];
  running = [];
  items = items_of txns;
}
