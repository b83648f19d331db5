-- ===== src/Calvin/Manager/Steps.antt =====
-- protocol/Calvin/CalvinExecutor.h: the steps of a lock manager and its workers keep the lock words.
use prdcc.Base.{
  ℕ, zero, suc, ◌+◌, ◌%◌, ◌^◌, ◌≡◌, refl, Bool, true, false, List, [], ◌∷◌, ◌++◌, All, Option, none,
  some, if-cases, arith,
}
use prdcc.Calvin.Locks.{CalvinKey, CalvinTxn, is_granted, grant_key, abort_locks, commit_locks}
use prdcc.Calvin.Locks.Balance.{sum, weight, grant_key-word}
use prdcc.Calvin.Manager.{
  Item, lock, push, Manager, remove_at, locked, next_item, grant, end_txn, ended, end_at,
}
use prdcc.Calvin.Manager.Covered.{IsCovered, end_txn-word}
use prdcc.Calvin.Manager.Invariant.{
  IsReady, load, load-append, All-append, IsInvariant, sum-ungranted, IsSmall, AreSmall,
  grant_key-IsSmall, release_reads-AreSmall, release_writes-AreSmall,
}

module _ (is_master mine : ℕ → Bool) (part : (row : ℕ) → mine row ≡ true → is_master row ≡ true)
    (init : ℕ → ℕ) where
  empty :
      (t : CalvinTxn) (row : ℕ) → is_granted mine t ≡ false → sum (weight mine row) t.read_set ≡ 0
  unfolding is_granted
  empty t row g = sum-ungranted mine row t.read_set g

  end_txn-AreSmall :
      (t : CalvinTxn) (words db : ℕ → ℕ)
      → AreSmall mine words
      → AreSmall mine (end_txn is_master mine t (words, db)).0
  unfolding end_txn commit_locks abort_locks
  end_txn-AreSmall t words db b =
      if-cases (λ (r : (ℕ → ℕ) × (ℕ → ℕ)). AreSmall mine r.0) _ _ _
        (λ e.
          release_writes-AreSmall mine t.write_set _
            (release_reads-AreSmall mine t.read_set words b))
        (λ e. release_reads-AreSmall mine t.read_set words b)

  -- The queues without one transaction.
  abbrev Removed : List CalvinTxn → Option (CalvinTxn × List CalvinTxn) → Type 0
  Removed ts none = Unit
  Removed ts (some (t, us)) =
      IsCovered t
      × All IsCovered us
      × ((row : ℕ) → load mine row ts ≡ sum (weight mine row) t.read_set + load mine row us)

  remove_at-Removed : (ts : List CalvinTxn) (i : ℕ) → All IsCovered ts → Removed ts (remove_at ts i)
  remove_at-Removed [] i c = tt
  remove_at-Removed (t ∷ ts) zero c = (c.0, c.1, λ row. refl)
  remove_at-Removed (t ∷ ts) (suc i) c = behind (remove_at ts i) (remove_at-Removed ts i c.1)
    where
      behind :
          (o : Option (CalvinTxn × List CalvinTxn))
          → Removed ts o
          → Removed (t ∷ ts) (elim o [ none ↦ none | some (u, us) ↦ some (u, t ∷ us) ])
      behind none r = tt
      behind (some (u, us)) (cu, cs, e) = (cu, (c.0, cs), λ row. omega (arith, e row))

  pub end_at-IsInvariant :
      (i : ℕ) (s : Manager)
      → IsInvariant mine init s
      → IsInvariant mine init (end_at is_master mine i s)
  unfolding end_at
  end_at-IsInvariant i s (w, b, c, r) = at (remove_at s.running i) (remove_at-Removed s.running i c)
    where
      at :
          (o : Option (CalvinTxn × List CalvinTxn))
          → Removed s.running o
          → IsInvariant mine init (ended is_master mine s o)
      at none d = (w, b, c, r)
      at (some (t, ts)) (ct, cs, e) = (
        λ row. omega (arith, w row, e row, end_txn-word is_master mine part row t s.words s.db ct),
        end_txn-AreSmall t s.words s.db b,
        cs,
        r,
      )

  pub grant-IsInvariant :
      (s : Manager) → IsInvariant mine init s → IsInvariant mine init (grant is_master mine s)
  unfolding grant
  grant-IsInvariant s (w, b, c, r) = at s.items r
    where
      locks :
          (k : CalvinKey) (rest : List Item) (o : Option (ℕ → ℕ))
          → ((words : ℕ → ℕ)
              → o ≡ some words
              → (row : ℕ) → words row % 2 ^ 64 ≡ (s.words row + weight mine row k) % 2 ^ 64)
          → IsSmall mine o
          → IsReady mine (k ∷ s.taken) rest
          → IsInvariant mine init (locked is_master mine s k rest o)
      locks k rest none f small d = (w, b, c, r)
      locks k rest (some words) f small d =
          (λ row. omega (arith, f words refl row, w row), small, c, d)

      at :
          (items : List Item)
          → IsReady mine s.taken items
          → IsInvariant mine init (next_item is_master mine s items)
      at [] d = (w, b, c, r)
      at (lock k ∷ rest) d =
          locks k rest (grant_key mine k s.words)
            (λ words e row. grant_key-word mine row k s.words words e)
            (grant_key-IsSmall mine k s.words b) d.2
      at (push t ∷ rest) (ct, e, d) =
          if-cases
            (λ running.
              IsInvariant mine init (record s { taken = []; running = running; items = rest }))
            (is_granted mine t) (s.running ++ t ∷ []) s.running
            (λ g. (
              λ row. omega (arith, w row, e row, load-append mine row s.running (t ∷ [])),
              b,
              All-append mine s.running (t ∷ []) c (ct, tt),
              d,
            ))
            (λ g. (λ row. omega (arith, w row, e row, empty t row g), b, c, d))
