-- ===== src/Bohm/Run/Progress.antt =====
-- protocol/Bohm/BohmExecutor.h: a transaction whose predecessors are done gets its reads and commits.
use mathlib.Core.Bool.{false≢true, true≢false}
use prdcc.Base.{
  ℕ, zero, suc, ◌<◌, ◌≡◌, ◌⊎◌, refl, ap, inl, inr, Bool, true, false, List, [], ◌∷◌, ◌++◌, Option,
  none, some, ◌>>=◌, ltb, Bool-cases, arith,
}
use prdcc.Bohm.Transaction.{BohmTxn}
use prdcc.Bohm.Insert.Batch.{IsBatch}
use prdcc.Bohm.Run.{
  Status, idle, has_read, finished, Node, Action, reads, finishes, read_turn, end_turn, act, acts,
  is_finished,
}
use prdcc.Bohm.Run.Reads.{AreReady}
use prdcc.Bohm.Run.Invariant.{ready}
use prdcc.Bohm.Run.Turns.{IsInvariant, read_turn-Keeps, end_turn-Keeps}
use prdcc.Bohm.Run.Serializable.{Grows, KeepsAll, Keeps-implies}

-- The turn of a transaction that may be in the middle of one.
abbrev pub turn : ℕ → List Action
turn i = finishes i ∷ reads i ∷ finishes i ∷ []

-- The turns of the first `n` transactions, in their order.
abbrev pub sweep : ℕ → List Action
sweep zero = []
sweep (suc n) = sweep n ++ turn n

pub acts-append :
    (programs : ℕ → List ℕ → ℕ → ℕ) (size : ℕ) (as' bs : List Action) (s : Node)
    → acts programs size (as' ++ bs) s ≡ (acts programs size as' s >>= acts programs size bs)
unfolding acts
acts-append programs size [] bs s = refl
acts-append programs size (a ∷ rest) bs s =
    by_node (act programs size a s) (acts-append programs size rest bs)
  where
    by_node :
        (o : Option Node)
        → ((s1 : Node)
            → acts programs size (rest ++ bs) s1
              ≡ (acts programs size rest s1 >>= acts programs size bs))
        → (o >>= acts programs size (rest ++ bs))
          ≡ (o >>= acts programs size rest >>= acts programs size bs)
    by_node none ih = refl
    by_node (some s1) ih = ih s1

module _ (programs : ℕ → List ℕ → ℕ → ℕ) (txns : ℕ → BohmTxn) (old : ℕ → ℕ) (base size : ℕ)
    (batch : IsBatch programs txns old base size) (i : ℕ) (lt : i < size) where
  abbrev Kept : (Node → Type 0) → Option Node → Type 0
  Kept = KeepsAll programs txns old base size batch

  abbrev IsOut : Node → Type 0
  IsOut s = (s.status i ≡ idle) ⊎ (is_finished (s.status i) ≡ true)

  abbrev HasAll : Node → Type 0
  HasAll s =
      ((s.status i ≡ has_read) × ((s.txns i).abort_read_not_ready ≡ false))
      ⊎ (is_finished (s.status i) ≡ true)

  abbrev Then : Node → (Node → Type 0) → Node → Type 0
  Then s P s' = Grows programs txns old base size batch s s' × P s'

  here : ltb i size ≡ true
  here = ground (arith, lt)

  finishes-IsOut :
      (s : Node)
      → IsInvariant programs txns old base size batch s
      → Kept (Then s IsOut) (act programs size (finishes i) s)
  unfolding act
  finishes-IsOut s v = rw here (by_status (s.status i) refl)
    where
      by_status :
          (st : Status)
          → s.status i ≡ st
          → Kept (Then s IsOut) (elim st [ has_read ↦ end_turn programs size i s | _ ↦ some s ])
      by_status idle e = (v, ((λ j h. h), inl e))
      by_status finished e = (v, ((λ j h. h), inr (ap is_finished e)))
      by_status has_read e =
          Keeps-implies programs txns old base size batch _ _ (end_turn programs size i s)
            (λ s' h. (
              h.2,
              (elim (Bool-cases (s.txns i).abort_read_not_ready) [
                | inl a ↦ inl (h.1 a)
                | inr a ↦ inr (ap is_finished (h.0 a))
              ]),
            ))
            (end_turn-Keeps programs txns old base size batch i s lt e v)

  reads-HasAll :
      (s : Node)
      → IsInvariant programs txns old base size batch s
      → AreReady (ready s) i
      → IsOut s
      → Kept (Then s HasAll) (act programs size (reads i) s)
  unfolding act
  reads-HasAll s v before out = rw here (by_status (s.status i) refl out)
    where
      by_status :
          (st : Status)
          → s.status i ≡ st
          → (st ≡ idle) ⊎ (is_finished st ≡ true)
          → Kept (Then s HasAll) (elim st [ idle ↦ read_turn programs size i s | _ ↦ some s ])
      by_status has_read e (inl p) = absurd (true≢false (ap busy p))
        where
          busy : Status → Bool
          busy has_read = true
          busy _ = false
      by_status has_read e (inr p) = absurd (false≢true p)
      by_status finished e p = (v, ((λ j h. h), inr (ap is_finished e)))
      by_status idle e p =
          Keeps-implies programs txns old base size batch _ _ (read_turn programs size i s)
            (λ s' h. (h.1, inl (h.0, h.2 before)))
            (read_turn-Keeps programs txns old base size batch i s lt e v)

  finishes-HasAll :
      (s : Node)
      → IsInvariant programs txns old base size batch s
      → HasAll s
      → Kept (Then s (λ s'. is_finished (s'.status i) ≡ true)) (act programs size (finishes i) s)
  unfolding act
  finishes-HasAll s v all = rw here (by_status (s.status i) refl all)
    where
      by_status :
          (st : Status)
          → s.status i ≡ st
          → ((st ≡ has_read) × ((s.txns i).abort_read_not_ready ≡ false)) ⊎ (is_finished st ≡ true)
          → Kept
              (Then s (λ s'. is_finished (s'.status i) ≡ true))
              (elim st [ has_read ↦ end_turn programs size i s | _ ↦ some s ])
      by_status finished e p = (v, ((λ j h. h), ap is_finished e))
      by_status idle e (inl p) = absurd (true≢false (ap waiting p.0))
        where
          waiting : Status → Bool
          waiting idle = true
          waiting _ = false
      by_status idle e (inr p) = absurd (false≢true p)
      by_status has_read e (inr p) = absurd (false≢true p)
      by_status has_read e (inl p) =
          Keeps-implies programs txns old base size batch _ _ (end_turn programs size i s)
            (λ s' h. (h.2, ap is_finished (h.0 p.1)))
            (end_turn-Keeps programs txns old base size batch i s lt e v)

  -- One step after another.
  step :
      {P : Node → Type 0} (a : Action) (rest : List Action) (s : Node)
      → Kept (Then s P) (act programs size a s)
      → ((s1 : Node)
          → IsInvariant programs txns old base size batch s1
          → Then s P s1
          → (s' : Node) × (acts programs size rest s1 ≡ some s')
            × IsInvariant programs txns old base size batch s'
            × Then s (λ s'. is_finished (s'.status i) ≡ true) s')
      → (s' : Node) × (acts programs size (a ∷ rest) s ≡ some s')
        × IsInvariant programs txns old base size batch s'
        × Then s (λ s'. is_finished (s'.status i) ≡ true) s'
  unfolding acts
  step {P} a rest s k f = by_node (act programs size a s) k
    where
      by_node :
          (o : Option Node)
          → Kept (Then s P) o
          → (s' : Node) × ((o >>= acts programs size rest) ≡ some s')
            × IsInvariant programs txns old base size batch s'
            × Then s (λ s'. is_finished (s'.status i) ≡ true) s'
      by_node none k = absurd k
      by_node (some s1) (v, h) = f s1 v h

  pub turn-Then :
      (s : Node)
      → IsInvariant programs txns old base size batch s
      → AreReady (ready s) i
      → (s' : Node) × (acts programs size (turn i) s ≡ some s')
        × IsInvariant programs txns old base size batch s'
        × Then s (λ s'. is_finished (s'.status i) ≡ true) s'
  unfolding acts
  turn-Then s v before =
      step (finishes i) (reads i ∷ finishes i ∷ []) s (finishes-IsOut s v) (λ s1 v1 (g1, o1).
        let (s', q, v', (g', d)) =
          step (reads i) (finishes i ∷ []) s1 (reads-HasAll s1 v1 (λ j l. g1 j (before j l)) o1)
            (λ s2 v2 (g2, o2).
              let (s', q, v', (g', d)) =
                step (finishes i) [] s2 (finishes-HasAll s2 v2 o2)
                  (λ s3 v3 t3. (s3, refl, v3, t3)) in
              (s', q, v', ((λ j h. g' j (g2 j h)), d))) in
        (s', q, v', ((λ j h. g' j (g1 j h)), d)))
