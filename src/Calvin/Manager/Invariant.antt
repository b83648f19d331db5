-- ===== src/Calvin/Manager/Invariant.antt =====
-- protocol/Calvin/CalvinExecutor.h: the lock words while a lock manager and its workers run.
use mathlib.Core.Bool.{true≢false}
use prdcc.Base.{
  ℕ, ◌+◌, ◌%◌, ◌^◌, ◌<◌, ◌≡◌, refl, sym, ap, ◌∙◌, inl, inr, Bool, true, false, not, ◌&&◌, List, [],
  ◌∷◌, ◌++◌, All, any, Option, none, some, ◌==◌, ==_iff, if-cases, Bool-cases, arith,
}
use prdcc.Prodcc.Message.{store}
use prdcc.Calvin.Helper.{await_read_lock, await_write_lock, release_read, release_write}
use prdcc.Calvin.Locks.{
  CalvinKey, CalvinTxn, set_word, is_locked_here, grant_key, release_read_locks, release_read_key,
  release_write_locks, release_write_key,
}
use prdcc.Calvin.Locks.Balance.{sum, weight, await_read_lock-word, await_write_lock-word}
use prdcc.Calvin.Manager.{Item, lock, push, lock_items, items_of, Manager}
use prdcc.Calvin.Manager.Covered.{IsLock, IsCovered, or_false}

abbrev pub has_row : List CalvinKey → ℕ → Bool
has_row ks row = any (λ k. k.row == row) ks

abbrev pub IsDistinct : List CalvinKey → Type 0
IsDistinct [] = Unit
IsDistinct (k ∷ ks) = (has_row ks k.row ≡ false) × IsDistinct ks

-- A transaction that asks for each row once, and writes what it has a write lock of.
abbrev pub IsOrderly : CalvinTxn → Type 0
IsOrderly t = IsCovered t × IsDistinct t.read_set

module _ (mine : ℕ → Bool) where
  -- What is left to do, after the keys that the transaction in hand has taken.
  abbrev pub IsReady : List CalvinKey → List Item → Type 0
  IsReady taken [] = (row : ℕ) → sum (weight mine row) taken ≡ 0
  IsReady taken (lock k ∷ rest) =
      IsLock k × (has_row taken k.row ≡ false) × IsReady (k ∷ taken) rest
  IsReady taken (push t ∷ rest) =
      IsCovered t
      × ((row : ℕ) → sum (weight mine row) taken ≡ sum (weight mine row) t.read_set)
      × IsReady [] rest

  lock_items-IsReady :
      (ks taken : List CalvinKey) (rest : List Item)
      → All IsLock ks
      → IsDistinct ks
      → ((k : CalvinKey) → has_row ks k.row ≡ true → has_row taken k.row ≡ false)
      → ((taken' : List CalvinKey)
          → ((row : ℕ)
              → sum (weight mine row) taken'
                ≡ sum (weight mine row) taken + sum (weight mine row) ks)
          → IsReady taken' rest)
      → IsReady taken (lock_items ks rest)
  lock_items-IsReady [] taken rest l d apart f = f taken (λ row. omega arith)
  lock_items-IsReady (k ∷ ks) taken rest l d apart f = (
    l.0,
    apart k (rw ((==_iff k.row k.row).1 refl) refl),
    lock_items-IsReady ks (k ∷ taken) rest l.1 d.1
        (λ k' h. elim (Bool-cases (k.row == k'.row)) [
          | inl same ↦
              absurd
                (true≢false (sym h ∙ ap (has_row ks) (sym ((==_iff k.row k'.row).0 same)) ∙ d.0))
          | inr other ↦ rw other (apart k' (rw (other, h) refl))
        ])
        (λ taken' e. f taken' (λ row. omega (arith, e row))),
  )

  pub items_of-IsReady : (txns : List CalvinTxn) → All IsOrderly txns → IsReady [] (items_of txns)
  unfolding items_of
  items_of-IsReady [] o = λ row. refl
  items_of-IsReady (t ∷ ts) o =
      if-cases (IsReady []) t.abort_no_retry (items_of ts) _ (λ e. items_of-IsReady ts o.1)
        (λ e.
          lock_items-IsReady t.read_set [] (push t ∷ items_of ts) o.0.0.0 o.0.1 (λ k h. refl)
            (λ taken' s. (o.0.0, (λ row. omega (arith, s row)), items_of-IsReady ts o.1)))

  -- What the transactions in the queues hold.
  abbrev pub load : ℕ → List CalvinTxn → ℕ
  load row [] = 0
  load row (t ∷ ts) = sum (weight mine row) t.read_set + load row ts

  pub load-append :
      (row : ℕ) (ts us : List CalvinTxn) → load row (ts ++ us) ≡ load row ts + load row us
  load-append row [] us = omega arith
  load-append row (t ∷ ts) us = omega (arith, load-append row ts us)

  pub All-append :
      (ts us : List CalvinTxn) → All IsCovered ts → All IsCovered us → All IsCovered (ts ++ us)
  All-append [] us a b = b
  All-append (t ∷ ts) us a b = (a.0, All-append ts us a.1 b)

  -- Every lock word is the one of the beginning with the locks that are held.
  abbrev pub IsInvariant : (ℕ → ℕ) → Manager → Type 0
  IsInvariant init s =
      ((row : ℕ)
        → s.words row % 2 ^ 64
          ≡ (init row + load row s.running + sum (weight mine row) s.taken) % 2 ^ 64)
      × ((row : ℕ) → s.words row < 2 ^ 64)
      × All IsCovered s.running
      × IsReady s.taken s.items

  pub sum-ungranted :
      (row : ℕ) (ks : List CalvinKey)
      → any (is_locked_here mine) ks ≡ false
      → sum (weight mine row) ks ≡ 0
  sum-ungranted row [] h = refl
  sum-ungranted row (k ∷ ks) h =
      let (out, rest) = or_false (is_locked_here mine k) (any (is_locked_here mine) ks) h in
      ground (arith, out, sum-ungranted row ks rest)

  store-lt :
      (words : ℕ → ℕ) (r a : ℕ)
      → a < 2 ^ 64
      → ((row : ℕ) → words row < 2 ^ 64)
      → (row : ℕ) → store words r a row < 2 ^ 64
  store-lt words r a lt b row =
      if-cases (λ x. x < 2 ^ 64) (r == row) a (words row) (λ e. lt) (λ e. b row)

  abbrev pub IsSmall : Option (ℕ → ℕ) → Type 0
  IsSmall none = Unit
  IsSmall (some words) = (row : ℕ) → words row < 2 ^ 64

  set_word-IsSmall :
      (words : ℕ → ℕ) (r : ℕ) (o : Option ℕ)
      → ((row : ℕ) → words row < 2 ^ 64)
      → ((a : ℕ) → o ≡ some a → a < 2 ^ 64)
      → IsSmall (set_word words r o)
  set_word-IsSmall words r none b f = tt
  set_word-IsSmall words r (some a) b f = store-lt words r a (f a refl) b

  pub grant_key-IsSmall :
      (k : CalvinKey) (words : ℕ → ℕ)
      → ((row : ℕ) → words row < 2 ^ 64)
      → IsSmall (grant_key mine k words)
  unfolding grant_key
  grant_key-IsSmall k words b =
      if-cases IsSmall (not (is_locked_here mine k)) (some words) _ (λ e. b)
        (λ e.
          if-cases IsSmall k.write_lock _ _
            (λ e.
              set_word-IsSmall words k.row _ b (λ a (q : await_write_lock (words k.row) ≡ some a).
                omega (arith, await_write_lock-word (words k.row) a q)))
            (λ e.
              if-cases IsSmall k.read_lock _ none
                (λ e.
                  set_word-IsSmall words k.row _ b
                    (λ a (q : await_read_lock (words k.row) ≡ some a).
                      omega (arith, await_read_lock-word (words k.row) a q)))
                (λ e. tt)))

  abbrev pub AreSmall : (ℕ → ℕ) → Type 0
  AreSmall words = (row : ℕ) → words row < 2 ^ 64

  pub release_reads-AreSmall :
      (ks : List CalvinKey) (words : ℕ → ℕ)
      → AreSmall words
      → AreSmall (release_read_locks mine ks words)
  unfolding release_read_locks release_read_key release_read
  release_reads-AreSmall [] words b = b
  release_reads-AreSmall (k ∷ ks) words b = release_reads-AreSmall ks _ (
      if-cases AreSmall (mine k.row && k.read_lock) _ words
        (λ e. store-lt words k.row _ (omega arith) b) (λ e. b))

  pub release_writes-AreSmall :
      (ks : List CalvinKey) (words : ℕ → ℕ)
      → AreSmall words
      → AreSmall (release_write_locks mine ks words)
  unfolding release_write_locks release_write_key release_write
  release_writes-AreSmall [] words b = b
  release_writes-AreSmall (k ∷ ks) words b = release_writes-AreSmall ks _ (
      if-cases AreSmall (mine k.row) _ words (λ e. store-lt words k.row _ (omega arith) b) (λ e. b))
