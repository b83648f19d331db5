-- ===== src/Bohm/Run/Serializable.antt =====
-- protocol/Bohm/BohmExecutor.h: the execution of a batch next to its serial run.
use prdcc.Base.{
  ℕ, ◌<◌, ◌≡◌, refl, true, false, List, [], ◌∷◌, Option, none, some, ◌>>=◌, All, ltb, if-cases,
  arith,
}
use prdcc.Bohm.Transaction.{BohmTxn}
use prdcc.Bohm.Insert.Batch.{IsBatch}
use prdcc.Bohm.Run.{
  Status, idle, has_read, finished, Node, Action, reads, finishes, read_turn, end_turn, act, acts,
  is_finished,
}
use prdcc.Bohm.Run.Turns.{IsInvariant, Keeps, read_turn-Keeps, end_turn-Keeps}

-- A transaction that nothing was read for yet.
abbrev pub IsNew : BohmTxn → Type 0
IsNew t = (t.abort_read_not_ready ≡ false) × All (λ k. k.read_request ≡ true) t.read_set

module _ (programs : ℕ → List ℕ → ℕ → ℕ) (txns : ℕ → BohmTxn) (old : ℕ → ℕ) (base size : ℕ)
    (batch : IsBatch programs txns old base size) where
  -- A step takes back nothing that is done.
  abbrev pub Grows : Node → Node → Type 0
  Grows s s' = (j : ℕ) → is_finished (s.status j) ≡ true → is_finished (s'.status j) ≡ true

  abbrev pub KeepsAll : (Node → Type 0) → Option Node → Type 0
  KeepsAll = Keeps programs txns old base size batch

  pub Keeps-implies :
      (P Q : Node → Type 0) (o : Option Node)
      → ((s : Node) → P s → Q s)
      → KeepsAll P o
      → KeepsAll Q o
  Keeps-implies P Q none f h = h
  Keeps-implies P Q (some s) f (v, h) = (v, f s h)

  -- What a step of transaction `i` does, by where its worker is.
  act-Keeps :
      (a : Action) (s : Node)
      → IsInvariant programs txns old base size batch s
      → KeepsAll (Grows s) (act programs size a s)
  unfolding act
  act-Keeps (reads i) s v =
      if-cases (KeepsAll (Grows s)) (ltb i size) _ (some s)
        (λ lt. by_status (s.status i) refl (ground (arith, lt))) (λ e. (v, λ j h. h))
    where
      by_status :
          (st : Status)
          → s.status i ≡ st
          → i < size
          → KeepsAll (Grows s) (elim st [ idle ↦ read_turn programs size i s | _ ↦ some s ])
      by_status idle e lt =
          Keeps-implies _ _ (read_turn programs size i s) (λ s' h. h.1)
            (read_turn-Keeps programs txns old base size batch i s lt e v)
      by_status has_read e lt = (v, λ j h. h)
      by_status finished e lt = (v, λ j h. h)
  act-Keeps (finishes i) s v =
      if-cases (KeepsAll (Grows s)) (ltb i size) _ (some s)
        (λ lt. by_status (s.status i) refl (ground (arith, lt))) (λ e. (v, λ j h. h))
    where
      by_status :
          (st : Status)
          → s.status i ≡ st
          → i < size
          → KeepsAll (Grows s) (elim st [ has_read ↦ end_turn programs size i s | _ ↦ some s ])
      by_status has_read e lt =
          Keeps-implies _ _ (end_turn programs size i s) (λ s' h. h.2)
            (end_turn-Keeps programs txns old base size batch i s lt e v)
      by_status idle e lt = (v, λ j h. h)
      by_status finished e lt = (v, λ j h. h)

  pub acts-Keeps :
      (as' : List Action) (s : Node)
      → IsInvariant programs txns old base size batch s
      → (s' : Node) × (acts programs size as' s ≡ some s')
        × IsInvariant programs txns old base size batch s'
        × Grows s s'
  unfolding acts
  acts-Keeps [] s v = (s, refl, v, λ j h. h)
  acts-Keeps (a ∷ rest) s v = next (act programs size a s) (act-Keeps a s v) (acts-Keeps rest)
    where
      next :
          (o : Option Node)
          → KeepsAll (Grows s) o
          → ((s1 : Node)
              → IsInvariant programs txns old base size batch s1
              → (s' : Node) × (acts programs size rest s1 ≡ some s')
                × IsInvariant programs txns old base size batch s'
                × Grows s1 s')
          → (s' : Node) × ((o >>= acts programs size rest) ≡ some s')
            × IsInvariant programs txns old base size batch s'
            × Grows s s'
      next none k ih = absurd k
      next (some s1) (v1, g1) ih =
          let (s', q, v', g') = ih s1 v1 in (s', q, v', λ j h. g' j (g1 j h))
