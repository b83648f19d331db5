-- ===== src/Bohm/Run/Turns.antt =====
-- protocol/Bohm/BohmExecutor.h: the steps of the workers keep what holds of the node, and none fails.
use mathlib.Core.Bool.{false≢true, true≢false}
use prdcc.Base.{
  ℕ, ◌<◌, ◌≡◌, refl, sym, ap, ◌∙◌, subst, inl, inr, Bool, true, false, List, [], map, Option, none,
  some, ◌>>=◌, ◌==◌, ==_iff, if◌then◌else◌, if-cases, Bool-cases, arith,
}
use prdcc.Common.MvccHashMap.{versions}
use prdcc.Core.MvccTable.{MvccTable}
use prdcc.Bohm.Transaction.{BohmKey, BohmTxn}
use prdcc.Bohm.Message.{BohmMessage}
use prdcc.Bohm.Executor.{process_requests, commit, abort, executed, set_value, finish_turn}
use prdcc.Bohm.Serial.{Job, writes_row, Matches}
use prdcc.Bohm.Serial.Written.{Matches-ready}
use prdcc.Bohm.Insert.{rows, has, IsDistinct}
use prdcc.Bohm.Insert.Batch.{jobs, IsBatch}
use prdcc.Bohm.Run.{
  Status, idle, has_read, finished, Node, change, all_rows, read_turn, end_turn, is_finished,
}
use prdcc.Bohm.Run.Reads.{AreReady}
use prdcc.Bohm.Run.Commits.{commit-IsPartial}
use prdcc.Bohm.Run.Invariant.{
  IsConsistent, ready, AfterReads, process_requests-AfterReads, abort-IsConsistent,
  executed-IsConsistent, All-set_value, executed-serial,
}

module _ (programs : ℕ → List ℕ → ℕ → ℕ) (txns : ℕ → BohmTxn) (old : ℕ → ℕ) (base size : ℕ)
    (batch : IsBatch programs txns old base size) where
  abbrev pub js : ℕ → Job
  js = jobs programs txns old base size

  -- Every row has the versions of its writers, ready with the serial values for the transactions that are
  -- done; and every transaction is as its worker left it.
  abbrev pub IsInvariant : Node → Type 0
  IsInvariant s =
      ((row : ℕ) → Matches js old base (ready s) row size (versions s.table row))
      × ((i : ℕ) → i < size → IsConsistent js old base i (txns i) (s.txns i) (s.status i))

  change-IsConsistent :
      (s : Node) (i : ℕ) (t : BohmTxn) (st : Status)
      → ((j : ℕ) → j < size → IsConsistent js old base j (txns j) (s.txns j) (s.status j))
      → IsConsistent js old base i (txns i) t st
      → (j : ℕ) → j < size
      → IsConsistent js old base j (txns j) (change s.txns i t j) (change s.status i st j)
  change-IsConsistent s i t st all c j lt = elim (Bool-cases (j == i)) [
    | inl e ↦
        rw e (subst (λ x. IsConsistent js old base x (txns x) t st) (sym ((==_iff j i).0 e)) c)
    | inr e ↦ rw e (all j lt)
  ]

  -- A step that finishes nothing.
  ready-same :
      (s : Node) (i : ℕ) (st : Status)
      → is_finished (s.status i) ≡ false
      → is_finished st ≡ false
      → ready s ≡ (λ j. is_finished (change s.status i st j))
  ready-same s i st a b = λ n j. same j n
    where
      same : (j : ℕ) → is_finished (s.status j) ≡ is_finished (change s.status i st j)
      same j = elim (Bool-cases (j == i)) [
        | inl e ↦ rw e (ap (λ x. is_finished (s.status x)) ((==_iff j i).0 e) ∙ a ∙ sym b)
        | inr e ↦ rw e refl
      ]

  -- The node after a step that did not fail.
  abbrev pub Keeps : (Node → Type 0) → Option Node → Type 0
  Keeps P none = ⊥
  Keeps P (some s) = IsInvariant s × P s

  -- What the reads of transaction `i` bring: every other transaction is as it was, and it has all of its
  -- reads when those before it are done.
  abbrev pub HasRead : Node → ℕ → Node → Type 0
  HasRead s i s' =
      (s'.status i ≡ has_read)
      × ((j : ℕ) → is_finished (s.status j) ≡ true → is_finished (s'.status j) ≡ true)
      × (AreReady (ready s) i → (s'.txns i).abort_read_not_ready ≡ false)

  pub read_turn-Keeps :
      (i : ℕ) (s : Node)
      → i < size
      → s.status i ≡ idle
      → IsInvariant s
      → Keeps (HasRead s i) (read_turn programs size i s)
  unfolding read_turn
  read_turn-Keeps i s lt e (m, c) =
      let idle_here : IsConsistent js old base i (txns i) (s.txns i) idle =
        subst (IsConsistent js old base i (txns i) (s.txns i)) e (c i lt) in
      after (process_requests all_rows false (s.txns i) s.table) (
        process_requests-AfterReads js old base size i (txns i) (ready s) (s.txns i) s.table
          (omega (arith, lt)) idle_here m)
    where
      after :
          (o : Option (BohmTxn × List BohmMessage))
          → AfterReads js old base size i (txns i) (ready s) (s.txns i) o
          → Keeps (HasRead s i) (
              o >>= λ (t, out).
              some (record s { txns = change s.txns i t; status = change s.status i has_read }))
      after none f = f
      after (some (t, out)) (c', p) =
          let self : (i == i) ≡ true = (==_iff i i).1 refl in
          let same = ready-same s i has_read (ap is_finished e) refl in
          (
            (
              λ row.
                  subst (λ r. Matches js old base r row size (versions s.table row)) same (m row),
              change-IsConsistent s i t has_read c c',
            ),
            (rw self refl, (λ j h. sym (ap (λ r. r j) same) ∙ h), λ r. rw self (p r)),
          )

  -- What the rest of the turn does: the transaction is done if it had all of its reads.
  abbrev pub HasEnded : Node → ℕ → Node → Type 0
  HasEnded s i s' =
      ((s.txns i).abort_read_not_ready ≡ false → s'.status i ≡ finished)
      × ((s.txns i).abort_read_not_ready ≡ true → s'.status i ≡ idle)
      × ((j : ℕ) → is_finished (s.status j) ≡ true → is_finished (s'.status j) ≡ true)

  -- The commit of a transaction that has all of its reads.
  commit_turn :
      (i : ℕ) (s : Node)
      → i < size
      → s.status i ≡ has_read
      → (s.txns i).abort_read_not_ready ≡ false
      → IsInvariant s
      → (table : MvccTable) × (commit all_rows
            (s.txns i).id
            (executed (programs i) (s.txns i)).write_set
            (s.table, [])
          ≡ some (table, []))
        × ((row : ℕ)
            → Matches js old base
                (λ j. is_finished (change s.status i finished j))
                row
                size
                (versions table row))
  unfolding executed
  commit_turn i s lt e a (m, c) =
      let here : IsConsistent js old base i (txns i) (s.txns i) has_read =
        subst (IsConsistent js old base i (txns i) (s.txns i)) e (c i lt) in
      let given : (txns i).abort_no_retry ≡ false = here.taken refl in
      let waits : ready s i ≡ false = ap is_finished e in
      let now : is_finished (change s.status i finished i) ≡ true =
        if-cases (λ st. is_finished st ≡ true) (i == i) finished (s.status i) (λ x. refl)
          (λ x. absurd (true≢false (sym ((==_iff i i).1 refl) ∙ x))) in
      let others : (j : ℕ)
          → (j == i) ≡ false
          → is_finished (change s.status i finished j) ≡ ready s j =
        λ j ne. rw ne refl in
      let f : ℕ → ℕ = λ row. programs i (map (λ (k : BohmKey). k.value) (s.txns i).read_set) row in
      let written : rows (map (set_value f) (s.txns i).write_set) ≡ rows (txns i).write_set =
        (executed-IsConsistent js old base size i (txns i) (programs i) (s.txns i) here).writes in
      let own : (row : ℕ) → writes_row (js i) row ≡ has (rows (txns i).write_set) row =
        λ row. ap (λ b. has (if b then [] else rows (txns i).write_set) row) given in
      let (table, q, m') =
        commit-IsPartial js old base (ready s) (λ j. is_finished (change s.status i finished j)) i
          size lt waits now others (map (set_value f) (s.txns i).write_set) s.table []
          (subst IsDistinct (sym written) (batch.1 i lt).1)
          (All-set_value js old base size i (txns i) f (s.txns i).write_set
            (λ row h. own row ∙ ap (λ rs. has rs row) (sym here.writes) ∙ h)
            (λ row w. executed-serial js old base size i (txns i) (s.txns i) row here a refl w))
          (λ row. (
            λ h. m row,
            λ h.
                Matches-ready js old base (ready s)
                  (λ j. is_finished (change s.status i finished j)) i now others row size
                  (versions s.table row) (λ lt'. own row ∙ ap (λ rs. has rs row) (sym written) ∙ h)
                  (m row),
          )) in
      (
        table,
        subst
            (λ tid.
              commit all_rows tid (map (set_value f) (s.txns i).write_set) (s.table, [])
              ≡ some (table, []))
            (sym here.id) q,
        m',
      )

  pub end_turn-Keeps :
      (i : ℕ) (s : Node)
      → i < size
      → s.status i ≡ has_read
      → IsInvariant s
      → Keeps (HasEnded s i) (end_turn programs size i s)
  unfolding end_turn finish_turn
  end_turn-Keeps i s lt e (m, c) =
      let read_here : IsConsistent js old base i (txns i) (s.txns i) has_read =
        subst (IsConsistent js old base i (txns i) (s.txns i)) e (c i lt) in
      let self : (i == i) ≡ true = (==_iff i i).1 refl in
      if-cases
        (λ (o : Option (Bool × BohmTxn × MvccTable × List BohmMessage)). Keeps (HasEnded s i) (
          o >>= λ (last, t, table, out). some (record {
            txns = change s.txns i t;
            status = change s.status i (if last then finished else idle);
            table = table;
          })))
        (s.txns i).abort_read_not_ready _ _
        (λ a.
          let same = ready-same s i idle (ap is_finished e) refl in
          (
            (
              λ row.
                  subst (λ r. Matches js old base r row size (versions s.table row)) same (m row),
              change-IsConsistent s i (abort (s.txns i)) idle c
                  (abort-IsConsistent js old base size i (txns i) (s.txns i) read_here),
            ),
            (
              (λ h. absurd (true≢false (sym a ∙ h))),
              (λ h. rw self refl),
              λ j h. sym (ap (λ r. r j) same) ∙ h,
            ),
          ))
        (λ a.
          let (table, q, m') = commit_turn i s lt e a (m, c) in
          rw q (
            (
              m',
              change-IsConsistent s i (executed (programs i) (s.txns i)) finished c (
                  executed-IsConsistent js old base size i (txns i) (programs i) (s.txns i)
                    read_here),
            ),
            (
              (λ h. rw self refl),
              (λ h. absurd (false≢true (sym a ∙ h))),
              λ j h.
                  if-cases (λ st. is_finished st ≡ true) (j == i) finished (s.status j) (λ x. refl)
                    (λ x. h),
            ),
          ))
