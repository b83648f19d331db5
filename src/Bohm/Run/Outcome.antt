-- ===== src/Bohm/Run/Outcome.antt =====
-- protocol/Bohm/BohmExecutor.h: a batch on one node, from the insertion of its placeholders to the last commit.
use prdcc.Base.{
  ℕ, zero, suc, ◌≤◌, ◌≡◌, refl, ap, ◌∙◌, subst, inl, inr, true, List, ◌++◌, Option, some, ◌>>=◌,
  ltb, Bool-cases, arith,
}
use prdcc.Common.MvccHashMap.{versions}
use prdcc.Core.MvccTable.{MvccTable}
use prdcc.Bohm.Transaction.{BohmTxn}
use prdcc.Bohm.Serial.{serial}
use prdcc.Bohm.Insert.Batch.{jobs, IsBatch, insert_passes, insert_passes-Before}
use prdcc.Bohm.Run.{Node, Action, acts, start, is_finished}
use prdcc.Bohm.Run.Reads.{AreReady}
use prdcc.Bohm.Run.Invariant.{ready}
use prdcc.Bohm.Run.Turns.{IsInvariant}
use prdcc.Bohm.Run.Serializable.{acts-Keeps}
use prdcc.Bohm.Run.Progress.{turn, sweep, acts-append, turn-Then}
use prdcc.Bohm.Run.Setting.{
  Setting, IsSetting, passes, start-IsInvariant, base, is_batch, IsOld-Matches, owned,
}

module _ (programs : ℕ → List ℕ → ℕ → ℕ) (txns : ℕ → BohmTxn) (old : ℕ → ℕ) (base size : ℕ)
    (batch : IsBatch programs txns old base size) where
  sweep-AreReady :
      (n : ℕ) (s : Node)
      → n ≤ size
      → IsInvariant programs txns old base size batch s
      → (s' : Node) × (acts programs size (sweep n) s ≡ some s')
        × IsInvariant programs txns old base size batch s'
        × AreReady (ready s') n
  unfolding acts
  sweep-AreReady zero s le v = (s, refl, v, λ j l. absurd (omega (arith, l)))
  sweep-AreReady (suc n) s le v =
      let (s1, q1, v1, r1) = sweep-AreReady n s (omega (arith, le)) v in
      let (s', q, v', (g, d)) =
        turn-Then programs txns old base size batch n (omega (arith, le)) s1 v1 r1 in
      (
        s',
        acts-append programs size (sweep n) (turn n) s
            ∙ ap (λ (o : Option Node). o >>= acts programs size (turn n)) q1
            ∙ q,
        v',
        λ j l. elim (Bool-cases (ltb j n)) [
          | inl below ↦ g j (r1 j (ground (arith, below)))
          | inr top ↦
              let e : n ≡ j = ground (arith, top, l) in
              subst (λ x. is_finished (s'.status x) ≡ true) e d
        ],
      )

-- The passes of the workers, and then their steps.
unfoldable pub run_batch : Setting → List Action → Option Node
run_batch b actions =
    insert_passes b.txns b.size (passes b.partition_of b.worker_num b.workers) b.table >>= λ table.
    acts b.programs b.size actions (start b.txns table)

module _ (b : Setting) (is : IsSetting b) where
  -- A row after the first `i` transactions of the batch, one after another.
  abbrev pub serial_value : ℕ → ℕ → ℕ
  serial_value i row = serial (jobs b.programs b.txns b.old (base b is) b.size) b.old i row

  abbrev pub IsKept : Node → Type 0
  IsKept = IsInvariant b.programs b.txns b.old (base b is) b.size (is_batch b is)

  began :
      (table : MvccTable) × ((actions : List Action)
        → run_batch b actions ≡ acts b.programs b.size actions (start b.txns table))
      × IsKept (start b.txns table)
  unfolding run_batch
  began =
      let (table, q, m) =
        insert_passes-Before b.programs b.txns b.old (base b is) b.size
          (passes b.partition_of b.worker_num b.workers) b.table (is_batch b is) (owned b is)
          (λ row. IsOld-Matches b is row (versions b.table row) (is.olds row)) in
      (
        table,
        (λ actions.
            ap
              (λ (o : Option MvccTable). o >>= λ t. acts b.programs b.size actions (start b.txns t))
              q),
        start-IsInvariant b.programs b.txns b.old (base b is) b.size (is_batch b is) table is.new m,
      )

  pub swept :
      (actions : List Action)
      → (s : Node) × (run_batch b (actions ++ sweep b.size) ≡ some s)
        × IsKept s
        × AreReady (ready s) b.size
  swept actions =
      let (table, q, v) = began in
      let (s1, q1, v1, g) =
        acts-Keeps b.programs b.txns b.old (base b is) b.size (is_batch b is) actions
          (start b.txns table) v in
      let (s, q2, v2, r) =
        sweep-AreReady b.programs b.txns b.old (base b is) b.size (is_batch b is) b.size s1
          (omega arith) v1 in
      (
        s,
        q (actions ++ sweep b.size)
            ∙ acts-append b.programs b.size actions (sweep b.size) (start b.txns table)
            ∙ ap (λ (o : Option Node). o >>= acts b.programs b.size (sweep b.size)) q1
            ∙ q2,
        v2,
        r,
      )
