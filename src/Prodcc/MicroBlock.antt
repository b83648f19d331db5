-- ===== src/Prodcc/MicroBlock.antt =====
-- protocol/Prodcc/ProdccExecutor.h: a micro-block from its reservations to its commits.
use prdcc.Base.{
  ℕ, ◌≡◌, refl, ◌∙◌, subst, inl, inr, Bool, true, false, ◌&&◌, Option, some, List, [], ◌∷◌, In,
  Bool-cases,
}
use prdcc.Prodcc.Transaction.{Txn, RwKey, is_read_only}
use prdcc.Prodcc.Message.{
  Meta, Db, Message, writer_before, check_request, check_request_handler, take_flags, answered,
}
use prdcc.Prodcc.Executor.{
  Context, awaiting, analyze_reads, analyze_write_key, analyze_writes, analyze_dependency,
}
use prdcc.Prodcc.Reserve.{Op, run_ops}
use prdcc.Prodcc.Ops.{Interleaves, Takes}
use prdcc.Prodcc.Analysis.{deliver, settle}
use prdcc.Prodcc.Block.{IsBlock, IsExact, block_flags}
use prdcc.Prodcc.Precedence.{Commits, rank}
use prdcc.Prodcc.Order.{serial_order}
use prdcc.Prodcc.Serial.{install, Access, serial_run, Programs, writes_to}
use prdcc.Prodcc.Serializable.{HasDistinctIds, serializable}

module _ (is_master : ℕ → Bool) (m : Meta) where
  analyze_reads-write_set :
      (ks : List RwKey) (s : Txn × List Message)
      → (analyze_reads is_master m ks s).0.write_set ≡ s.0.write_set
  unfolding analyze_reads
  analyze_reads-write_set [] s = refl
  analyze_reads-write_set (k ∷ ks) (t, out) = elim (Bool-cases k.local_index) [
    | inl index ↦ rw index (analyze_reads-write_set ks (t, out))
    | inr row ↦ elim (Bool-cases (is_master k.row)) [
      | inl mine ↦ elim (Bool-cases (writer_before (m k.row) t.epoch t.id)) [
        | inl hit ↦ rw (row, mine, hit)
        | inr miss ↦ rw (row, mine, miss) (analyze_reads-write_set ks (t, out))
      ]
      | inr other ↦ rw (row, other) (analyze_reads-write_set ks (awaiting t, _))
    ]
  ]

  analyze_write_key-write_set :
      (k : RwKey) (t : Txn) (out : List Message)
      → (analyze_write_key is_master m k (t, out)).0.write_set ≡ t.write_set
  unfolding analyze_write_key
  analyze_write_key-write_set k t out = elim (Bool-cases (is_master k.row)) [
    | inl mine ↦ rw mine
    | inr other ↦ rw other
  ]

  analyze_writes-write_set :
      (ks : List RwKey) (s : Txn × List Message)
      → (analyze_writes is_master m ks s).0.write_set ≡ s.0.write_set
  unfolding analyze_writes
  analyze_writes-write_set [] s = refl
  analyze_writes-write_set (k ∷ ks) (t, out) =
      analyze_writes-write_set ks (analyze_write_key is_master m k (t, out))
      ∙ analyze_write_key-write_set k t out

  deliver-write_set : (x : Message) (t : Txn) → (deliver m x t).write_set ≡ t.write_set
  unfolding deliver check_request_handler take_flags answered
  deliver-write_set (check_request row tid off epoch true) t = refl
  deliver-write_set (check_request row tid off epoch false) t = refl
  deliver-write_set _ t = refl

  settle-write_set : (xs : List Message) (t : Txn) → (settle m xs t).write_set ≡ t.write_set
  unfolding settle
  settle-write_set [] t = refl
  settle-write_set (x ∷ xs) t = settle-write_set xs (deliver m x t) ∙ deliver-write_set x t

  -- A transaction after its analysis, with all responses in.
  unfoldable pub analyzed : Context → Txn → Txn
  analyzed c t = let s = analyze_dependency is_master c m (t, []) in settle m s.1 s.0

  analyzed-write_set : (c : Context) (t : Txn) → (analyzed c t).write_set ≡ t.write_set
  unfolding analyzed analyze_dependency
  analyzed-write_set c t = elim (Bool-cases (c.read_only_optimization && is_read_only t)) [
    | inl skip ↦ rw skip (settle-write_set [] t)
    | inr takes ↦ rw takes (
        settle-write_set _ _
        ∙ analyze_writes-write_set t.write_set (analyze_reads is_master m t.read_set (t, []))
        ∙ analyze_reads-write_set t.read_set (t, []))
  ]

same_result : {o : Option Meta} {a b : Meta} → o ≡ some a → o ≡ some b → a ≡ b
same_result p q = cc (p, q)

-- From cleared metadata the reservations of a micro-block go through in every interleaving. After the
-- analysis, with all responses in, the flags of a transaction that takes part in them say exactly whether
-- one with a smaller id that takes part writes what it reads, reads what it writes, or writes what it writes.
-- A read-only transaction does not take part under aria_read_only_optmization.
pub micro_block_flags :
    (is_master : ℕ → Bool) (c : Context) (e : ℕ) (ts : List Txn) (os : List Op) (m : Meta) (t : Txn)
    → IsBlock e ts
    → Interleaves c ts os
    → ((row : ℕ) → m row ≡ 0)
    → In t ts
    → Takes c t
    → (m' : Meta) × (run_ops e os m ≡ some m') × IsExact c ts t (analyzed is_master m' c t)
unfolding analyzed
micro_block_flags is_master c e ts os m t b all clear i g =
    let (m', ran, exact) = block_flags c e ts os b all is_master m clear in (m', ran, exact t i g)

-- A micro-block runs serializably, without snapshot isolation: when its reservations, in any interleaving,
-- have gone from cleared metadata to `m'`, then the commits of distinct transactions on which the decision
-- is to commit, in whatever order, leave in each row what a serial run of them leaves. The transactions are
-- deterministic in what they read, and no transaction writes what one of them reads by a local index.
pub micro_block_serializable :
    (is_master : ℕ → Bool) (c : Context) (e : ℕ) (ts cs : List Txn) (os : List Op) (m m' : Meta)
    (run : ℕ → Db → Access) (snap : Db) (row : ℕ)
    → c.snapshot_isolation ≡ false
    → IsBlock e ts
    → Interleaves c ts os
    → ((r : ℕ) → m r ≡ 0)
    → HasDistinctIds cs
    → ((t u : Txn)
        → In t ts
        → In u ts
        → (k : RwKey) → In k t.read_set
        → k.local_index ≡ true
        → writes_to k.row u ≡ false)
    → Programs run snap cs
    → run_ops e os m ≡ some m'
    → ((t : Txn) → In t cs → In t ts × Commits c (analyzed is_master m' c t))
    → install cs snap row
      ≡ serial_run run (serial_order (λ t. rank c t (analyzed is_master m' c t)) cs) snap row
micro_block_serializable is_master c e ts cs os m m' run snap row si b all clear distinct index p
      ran commits =
    serializable c ts cs (analyzed is_master m' c)
      (record {
        serial = si;
        block = λ t i. record {
          member = i;
          tid = (b.fresh t i).tid;
          kept = analyzed-write_set is_master m' c t;
          exact = λ g.
              let (w, also, exact) = micro_block_flags is_master c e ts os m t b all clear i g in
              subst (λ x. IsExact c ts t (analyzed is_master x c t)) (same_result also ran) exact;
        };
        commits = commits;
        distinct = distinct;
        index = index;
      })
      run snap p row
