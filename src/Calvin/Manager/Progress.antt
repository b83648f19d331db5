-- ===== src/Calvin/Manager/Progress.antt =====
-- protocol/Calvin/CalvinExecutor.h: a lock manager never waits for good.
use mathlib.Core.Bool.{true≢false}
use prdcc.Base.{
  ℕ, ◌^◌, ◌<◌, ◌≡◌, refl, sym, ap, ◌∙◌, subst, inl, inr, Bool, true, false, not, List, [], ◌∷◌,
  ◌++◌, Option, none, some, ◌==◌, if-cases, Bool-cases, arith,
}
use prdcc.TwoPl.Helper.{is_read_locked, is_write_locked, read_lock_num, read_lock_max}
use prdcc.Calvin.Helper.{await_read_lock, await_write_lock}
use prdcc.Calvin.Locks.{CalvinKey, CalvinTxn, is_locked_here, grant_key}
use prdcc.Calvin.Locks.Balance.{sum, weight}
use prdcc.Calvin.Manager.{
  Item, lock, push, Manager, remove_at, locked, next_item, grant, ended, end_at, Move, grants, ends,
  move, moves,
}
use prdcc.Calvin.Manager.Covered.{IsLock}
use prdcc.Calvin.Manager.Invariant.{has_row, IsReady, load, IsInvariant}
use prdcc.Calvin.Manager.Steps.{end_at-IsInvariant, grant-IsInvariant}

-- A word that nobody holds a lock on.
abbrev pub IsFree : ℕ → Type 0
IsFree a =
    (a < 2 ^ 64)
    × (is_read_locked a ≡ false)
    × (is_write_locked a ≡ false)
    × ((read_lock_num a == read_lock_max) ≡ false)

module _ (mine : ℕ → Bool) where
  sum-fresh :
      (row : ℕ) (ks : List CalvinKey) → has_row ks row ≡ false → sum (weight mine row) ks ≡ 0
  sum-fresh row [] h = refl
  sum-fresh row (k ∷ ks) h = elim (Bool-cases (k.row == row)) [
    | inl same ↦ absurd (true≢false (rw same at h))
    | inr other ↦
        let rest : has_row ks row ≡ false = rw other at h in
        ground (arith, other, sum-fresh row ks rest)
  ]

  -- A key on a free row gets its lock.
  abbrev IsGranted : Option (ℕ → ℕ) → Type 0
  IsGranted none = ⊥
  IsGranted (some words) = Unit

  grant_key-IsGranted :
      (k : CalvinKey) (words : ℕ → ℕ)
      → IsLock k
      → IsFree (words k.row)
      → IsGranted (grant_key mine k words)
  unfolding grant_key await_read_lock await_write_lock
  grant_key-IsGranted k words l (small, r, w, n) =
      if-cases IsGranted (not (is_locked_here mine k)) (some words) _ (λ e. tt)
        (λ here.
          if-cases IsGranted k.write_lock _ _ (λ e. rw (r, w) tt)
            (λ nw.
              if-cases IsGranted k.read_lock _ none (λ e. rw (w, n) tt)
                (λ nr. ground (arith, here, nw, nr, l.0, l.1))))

module _ (is_master mine : ℕ → Bool) (part : (row : ℕ) → mine row ≡ true → is_master row ≡ true)
    (init : ℕ → ℕ) (free : (row : ℕ) → IsFree (init row)) where
  next_item-items :
      (s : Manager) (item : Item) (rest : List Item)
      → IsInvariant mine init s
      → s.running ≡ []
      → IsReady mine s.taken (item ∷ rest)
      → (next_item is_master mine s (item ∷ rest)).items ≡ rest
  next_item-items s (push t) rest v e d = refl
  next_item-items s (lock k) rest (w, b, c, r) e d =
      granted (grant_key mine k s.words)
        (grant_key-IsGranted mine k s.words d.0 (subst IsFree (sym there) (free k.row)))
    where
      there : s.words k.row ≡ init k.row
      there = omega (
        arith,
        w k.row,
        b k.row,
        (free k.row).0,
        ap (load mine k.row) e,
        sum-fresh mine k.row s.taken d.1,
      )

      granted :
          (o : Option (ℕ → ℕ)) → IsGranted mine o → (locked is_master mine s k rest o).items ≡ rest
      granted none g = absurd g
      granted (some words) g = refl

  pub moves-IsInvariant :
      (ms : List Move) (s : Manager)
      → IsInvariant mine init s
      → IsInvariant mine init (moves is_master mine ms s)
  unfolding moves move
  moves-IsInvariant [] s v = v
  moves-IsInvariant (grants ∷ ms) s v =
      moves-IsInvariant ms (grant is_master mine s) (grant-IsInvariant is_master mine part init s v)
  moves-IsInvariant (ends i ∷ ms) s v =
      moves-IsInvariant ms (end_at is_master mine i s)
        (end_at-IsInvariant is_master mine part init i s v)

  moves-append :
      (ms ns : List Move) (s : Manager)
      → moves is_master mine (ms ++ ns) s ≡ moves is_master mine ns (moves is_master mine ms s)
  unfolding moves
  moves-append [] ns s = refl
  moves-append (m ∷ ms) ns s = moves-append ms ns (move is_master mine m s)

  -- The ends of all transactions in the queues.
  abbrev end_all : List CalvinTxn → List Move
  end_all [] = []
  end_all (t ∷ ts) = ends 0 ∷ end_all ts

  end_all-running :
      (ts : List CalvinTxn) (s : Manager)
      → s.running ≡ ts
      → ((moves is_master mine (end_all ts) s).running ≡ [])
        × ((moves is_master mine (end_all ts) s).items ≡ s.items)
  unfolding moves move end_at
  end_all-running [] s e = (e, refl)
  end_all-running (t ∷ ts) s e =
      let first : ended is_master mine s (remove_at s.running 0)
          ≡ ended is_master mine s (some (t, ts)) =
        ap (λ l. ended is_master mine s (remove_at l 0)) e in
      let (a, b) =
        end_all-running ts (ended is_master mine s (remove_at s.running 0))
          (ap (λ (m : Manager). m.running) first) in
      (a, b ∙ ap (λ (m : Manager). m.items) first)

  -- With nothing in the queues the next grant goes through.
  pub grant-items :
      (s : Manager) (item : Item) (rest : List Item)
      → IsInvariant mine init s
      → s.running ≡ []
      → s.items ≡ item ∷ rest
      → (grant is_master mine s).items ≡ rest
  unfolding grant
  grant-items s item rest v a e =
      ap (λ items. (next_item is_master mine s items).items) e
      ∙ next_item-items s item rest v a (subst (IsReady mine s.taken) e v.3)

  -- From any state of the run there is a way to its end.
  pub finish :
      (items : List Item) (s : Manager)
      → IsInvariant mine init s
      → s.items ≡ items
      → (ms : List Move) × ((moves is_master mine ms s).items ≡ [])
        × ((moves is_master mine ms s).running ≡ [])
  unfolding moves move
  finish [] s v e = let (a, b) = end_all-running s.running s refl in (end_all s.running, b ∙ e, a)
  finish (item ∷ rest) s v e =
      let s1 = moves is_master mine (end_all s.running) s in
      let v1 = moves-IsInvariant (end_all s.running) s v in
      let (a, b) = end_all-running s.running s refl in
      let v2 = grant-IsInvariant is_master mine part init s1 v1 in
      let (ms, p, q) =
        finish rest (grant is_master mine s1) v2 (grant-items s1 item rest v1 a (b ∙ e)) in
      (
        end_all s.running ++ grants ∷ ms,
        ap (λ (m : Manager). m.items) (moves-append (end_all s.running) (grants ∷ ms) s) ∙ p,
        ap (λ (m : Manager). m.running) (moves-append (end_all s.running) (grants ∷ ms) s) ∙ q,
      )
