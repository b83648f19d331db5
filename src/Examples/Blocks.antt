-- ===== src/Examples/Blocks.antt =====
-- protocol/Prodcc/ProdccExecutor.h: a micro-block of two transactions. The one with id 1 writes row 5, the
-- one with id 2 reads row 5 and writes row 9. Both commit, the reader first in the serial order.
use mathlib.Core.Bool.{false≢true}
use prdcc.Base.{
  ℕ, ◌≡◌, refl, sym, ap, ◌∙◌, ◌↔◌, inl, inr, Bool, true, false, none, some, List, [], ◌∷◌, ◌++◌, In,
  concat_map, arith, any, subst, if◌then◌else◌, ◌==◌,
}
use prdcc.Aria.Fields.{pack}
use prdcc.Aria.Helper.{
  reserve_read, reserve_write, get_epoch, get_rts, get_wts, set_epoch, set_rts, set_wts,
}
use prdcc.Aria.Reservation.{reserve}
use prdcc.Prodcc.Transaction.{Txn, RwKey, is_read_only}
use prdcc.Prodcc.Message.{
  Meta, Db, reader_before, writer_before, check_request_handler, take_flags, answered,
}
use prdcc.Prodcc.Executor.{
  Context, reserve_transaction, analyze_dependency, analyze_reads, analyze_writes,
  analyze_write_key,
}
use prdcc.Prodcc.Finalize.{decide}
use prdcc.Prodcc.Reserve.{
  Op, run_op, run_ops, ops_of, here, elsewhere, outgoing, reserve_transaction-run_ops,
}
use prdcc.Prodcc.Analysis.{deliver, settle, writer_test, analyze_dependency-flags}
use prdcc.Prodcc.Block.{IsBlock, IsFresh, IsExact}
use prdcc.Prodcc.Precedence.{rank, Commits}
use prdcc.Prodcc.Order.{serial_order}
use prdcc.Prodcc.Serial.{install, Access, serial_run, Programs, writes_to}
use prdcc.Prodcc.Serializable.{HasDistinctIds}
use prdcc.Prodcc.MicroBlock.{analyzed, micro_block_flags, micro_block_serializable}

abbrev context : Context
context = record {
  read_only_optimization = true;
  snapshot_isolation = false;
  reordering_optimization = true;
}

abbrev txn : ℕ → List RwKey → List RwKey → Txn
txn id read_set write_set = record {
  id = id;
  tid_offset = 0;
  epoch = 1;
  pending_responses = 0;
  abort_lock = false;
  delay_lock = false;
  abort_no_retry = false;
  abort_read_validation = false;
  distributed_transaction = false;
  execution_phase = false;
  waw = false;
  war = false;
  raw = false;
  read_set = read_set;
  write_set = write_set;
}

abbrev key : ℕ → ℕ → RwKey
key row value = record { row = row; value = value; local_index = false }

abbrev writer : Txn
writer = txn 1 [] (key 5 7 ∷ [])

abbrev reader : Txn
reader = txn 2 (key 5 0 ∷ []) (key 9 8 ∷ [])

abbrev block : List Txn
block = writer ∷ reader ∷ []

abbrev ops : List Op
ops = concat_map (ops_of context) block

abbrev cleared : Meta
cleared row = 0

abbrev is_mine : ℕ → Bool
is_mine row = row == 5

writer-IsFresh : IsFresh 1 writer
writer-IsFresh = record { epoch = refl; tid = omega arith; raw = refl; war = refl; waw = refl }

reader-IsFresh : IsFresh 1 reader
reader-IsFresh = record { epoch = refl; tid = omega arith; raw = refl; war = refl; waw = refl }

member-IsFresh : (t : Txn) → In t block → IsFresh 1 t
member-IsFresh t (inl e) = subst (IsFresh 1) (sym e) writer-IsFresh
member-IsFresh t (inr (inl e)) = subst (IsFresh 1) (sym e) reader-IsFresh
member-IsFresh t (inr (inr e)) = absurd e

block-IsBlock : IsBlock 1 block
block-IsBlock = record { pos = omega arith; small = omega arith; fresh = member-IsFresh }

same_ops : (o : Op) → In o ops ↔ In o (concat_map (ops_of context) block)
same_ops o = (λ h. h, λ h. h)

micro_block_flags_example :
    (m' : Meta) × (run_ops 1 ops cleared ≡ some m')
    × IsExact context block reader (analyzed is_mine m' context reader)
unfolding is_read_only
micro_block_flags_example =
    micro_block_flags is_mine context 1 block ops cleared reader block-IsBlock same_ops
      (λ row. refl) (inr (inl refl)) refl

-- Row 5 is on this node: the write of row 9 is sent to another one.
reserve_transaction-run_ops_example :
    reserve_transaction is_mine context reader (cleared, [])
    ≡ outgoing
        (run_ops 1 (here is_mine (ops_of context reader)) cleared)
        ([] ++ elsewhere is_mine 1 (ops_of context reader))
reserve_transaction-run_ops_example = reserve_transaction-run_ops is_mine reader context cleared []

-- The words of the rows after the reservations: row 5 read by 2 and written by 1, row 9 written by 2.
abbrev words : Meta
words row = if row == 5 then pack 1 2 1 else if row == 9 then pack 1 0 2 else 0

analyze_dependency-flags_example :
    let (t', out) = analyze_dependency is_mine context words (reader, []) in
    ((settle words out t').raw ≡ any (writer_test words reader) reader.read_set)
    × ((settle words out t').war
        ≡ any (λ k. reader_before (words k.row) reader.epoch reader.id) reader.write_set)
    × ((settle words out t').waw
        ≡ any (λ k. writer_before (words k.row) reader.epoch reader.id) reader.write_set)
unfolding is_read_only
analyze_dependency-flags_example =
    analyze_dependency-flags words is_mine context reader (omega arith) refl refl refl refl

-- The transactions as programs: what they read and write does not depend on what is read.
abbrev program : ℕ → Db → Access
program id db =
    if id == 1
    then record { reads = []; writes = key 5 7 ∷ [] }
    else record { reads = key 5 0 ∷ []; writes = key 9 8 ∷ [] }

abbrev snapshot : Db
snapshot row = 0

programs : Programs program snapshot (reader ∷ writer ∷ [])
programs = record {
  stable = λ id db db' h. refl;
  reads =
      λ t i. elim i [ inl e ↦ rw e refl | inr j ↦ elim j [ inl e ↦ rw e refl | inr a ↦ absurd a ] ];
  writes =
      λ t i. elim i [ inl e ↦ rw e refl | inr j ↦ elim j [ inl e ↦ rw e refl | inr a ↦ absurd a ] ];
}

-- What the reservations leave.
abbrev left : Meta
left = elim (run_ops 1 ops cleared) [ none ↦ cleared | some m ↦ m ]

left_run : run_ops 1 ops cleared ≡ some left
unfolding run_ops run_op reserve reserve_read reserve_write get_epoch get_rts get_wts set_epoch
    set_rts set_wts is_read_only
left_run = refl

writer-Commits : Commits context (analyzed is_mine left context writer)
unfolding run_ops run_op reserve reserve_read reserve_write get_epoch get_rts get_wts set_epoch
    set_rts set_wts is_read_only analyzed analyze_dependency analyze_reads analyze_writes
    analyze_write_key writer_before reader_before settle deliver decide check_request_handler
    take_flags answered
writer-Commits = refl

reader-Commits : Commits context (analyzed is_mine left context reader)
unfolding run_ops run_op reserve reserve_read reserve_write get_epoch get_rts get_wts set_epoch
    set_rts set_wts is_read_only analyzed analyze_dependency analyze_reads analyze_writes
    analyze_write_key writer_before reader_before settle deliver decide check_request_handler
    take_flags answered
reader-Commits = refl

both_commit :
    (t : Txn)
    → In t (reader ∷ writer ∷ [])
    → In t block × Commits context (analyzed is_mine left context t)
both_commit t (inl e) = (
  inr (inl e),
  subst (λ x. Commits context (analyzed is_mine left context x)) (sym e) reader-Commits,
)
both_commit t (inr (inl e)) =
    (inl e, subst (λ x. Commits context (analyzed is_mine left context x)) (sym e) writer-Commits)
both_commit t (inr (inr e)) = absurd e

distinct : HasDistinctIds (reader ∷ writer ∷ [])
distinct =
    (λ u i. elim i [ inl e ↦ rw e (omega arith) | inr a ↦ absurd a ], ((λ u i. absurd i), tt))

no_index :
    (t u : Txn)
    → In t block
    → In u block
    → (k : RwKey) → In k t.read_set
    → k.local_index ≡ true
    → writes_to k.row u ≡ false
no_index t u i j k h l = absurd (false≢true (sym (plain t i k h) ∙ l))
  where
    plain : (t : Txn) → In t block → (k : RwKey) → In k t.read_set → k.local_index ≡ false
    plain t (inl e) k h = absurd (subst (λ x. In k x.read_set) e h)
    plain t (inr (inl e)) k h = elim (subst (λ x. In k x.read_set) e h) [
      | inl p ↦ ap (λ x. x.local_index) p
      | inr a ↦ absurd a
    ]
    plain t (inr (inr e)) k h = absurd e

-- The commit of the reader first; the row 5 is left with the value 7.
micro_block_serializable_example :
    install (reader ∷ writer ∷ []) snapshot 5
    ≡ serial_run program
        (serial_order
          (λ t. rank context t (analyzed is_mine left context t))
          (reader ∷ writer ∷ []))
        snapshot
        5
micro_block_serializable_example =
    micro_block_serializable is_mine context 1 block (reader ∷ writer ∷ []) ops cleared left program
      snapshot 5 refl block-IsBlock same_ops (λ row. refl) distinct no_index programs left_run
      both_commit
