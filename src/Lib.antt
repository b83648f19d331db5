-- ===== src/Lib.antt =====
-- prdcc: PRDCC, a deterministic concurrency control with predicted conflicts.
--
-- A coordinator runs macro blocks. It predicts which of the transactions conflict
-- (protocol/Prodcc/ConflictPredictor.h over DataSummary.h, L1Filter.h, L2Verifier.h and KeyConverter.h), cuts them
-- into micro-blocks without predicted conflicts (ProdccManager.h), and its workers take each micro-block
-- through its phases (ProdccExecutor.h): execution, reservations of rows in their metadata words
-- (protocol/Aria/AriaHelper.h), analysis of the reservations, decision and commit, and the clearing of the
-- words. A row of another node is reached by messages (ProdccMessage.h); which node has it is said by
-- core/Partitioner.h. `cleanup_batch` counts the aborts of a macro block, and the next one predicts or not.
--
-- The files:
-- - Base: shared names, Boolean tests, lists and bit operations over the native numbers.
-- - Aria/Helper: `reserve_read`, `reserve_write` and the fields of the word (AriaHelper.h). Aria/Fields packs
--   a word, Aria/Least takes the least id, Aria/Reservation runs sequences of reservations.
-- - Aria/Executor: a transaction in an epoch of the base protocol (AriaExecutor.h, AriaTransaction.h, Aria.h), with
--   its view as a transaction of PRDCC below it.
-- - Core/Partitioner: the partitioners (core/Partitioner.h); Core/Partitioner/Replicas counts replicas.
-- - Prodcc/Transaction, Message, Executor, Finalize: ProdccTransaction.h, ProdccMessage.h, ProdccExecutor.h
--   and Prodcc.h. A handler is a function of the decoded message; `none` is a failed CHECK. A worker's step
--   gives the new metadata or database and the messages to send. A table is a function of the row.
-- - Prodcc/Reserve, Rows, Analysis, Ops, Block: the reservations of all nodes as one sequence of operations,
--   in any interleaving, and the flags after the analysis. Each compare-and-swap loop is one atomic step.
-- - Prodcc/Precedence, Serial, Order, Serializable, MicroBlock: the serial order of the transactions that
--   commit, and the run of a whole micro-block.
-- - Prodcc/Installed, Cleared: what a commit and a cleanup do to a row once their messages are handled.
-- - Prodcc/Snapshot: the ids and the reads of `read_snapshot` (ProdccExecutor.h, ProdccTransaction.h).
-- - Prodcc/L1Filter, L2Verifier, DataSummary, ConflictPredictor, KeyConverter: the files of these names.
-- - Prodcc/Schedule: the micro blocks and the padding of ProdccManager.h. Prodcc/Dependency: the transactions
--   to schedule and `partition_task`, which fills the dependency graph; Prodcc/Dependency/Apart goes from the
--   predictions to the micro blocks. Prodcc/Align: how the coordinators agree on the
--   number of blocks. Prodcc/Worker: the loop of a worker over its slots. Prodcc/Phases: the bodies of these
--   loops in the phases of ProdccExecutor.h. Prodcc/Cleanup:
--   `cleanup_batch` and the loop over the macro blocks.
-- - TwoPl: the baseline protocol/TwoPL. TwoPl/Helper is the lock word (TwoPLHelper.h), with its fields, the lock
--   that it stands for, the interleavings of the calls on one row and a row whose release failed below it;
--   TwoPl/Transaction the requests for locks (TwoPLTransaction.h, TwoPLExecutor.h); TwoPl/Commit the commit and
--   the abort (TwoPL.h); TwoPl/Message the handlers (TwoPLMessage.h).
-- - Bohm: the baseline protocol/Bohm over the multi-version table. Bohm/Helper has the ids (BohmHelper.h),
--   Bohm/Partitioner, Transaction and Message the files of these names, Bohm/Executor the placeholders, the reads,
--   the turns and the garbage collection (BohmExecutor.h) and the commit (Bohm.h). Bohm/Serial is the serial run of
--   a batch next to the versions of a row, Bohm/Insert the placeholders that the workers put, and Bohm/Run the
--   turns of the workers of one node in any order, with a batch as its setting; a turn is two steps, the reads and
--   the rest with all of its commit, so that no read comes between the stores of a commit; Bohm/Executor/Between
--   has a read between the two stores of an update. Bohm/Message/Remote goes from the rows of this node to those
--   of others.
-- - Calvin: the baseline protocol/Calvin. Calvin/Helper has the locks and the numbering of the workers
--   (CalvinHelper.h), Calvin/Locks the grant and the release of the locks of a transaction (CalvinExecutor.h,
--   Calvin.h), Calvin/Manager a lock manager with its workers, in any order of their steps, and
--   Calvin/Partitioner the replica groups (CalvinPartitioner.h).
-- - Core/MvccTable: MVCCTable of core/Table.h.
-- - Common/MvccHashMap: common/MVCCHashMap.h, the versions of a key.
-- - Examples: the theorems at small inputs.
--
-- Fuel: `sweep` passes a range in each turn and has the sum of the two lengths; `partition_loop` and
-- `fixed_loop` schedule a transaction in each turn and have the number of transactions, and
-- `snapshot_loop` and `slots_from` go up in each turn and have the number of slots; `out_edges` goes up too
-- and has the number of transactions. The waiting loops of a lock are one turn, `none` while it waits. The loop of
-- `run_transaction` is a sequence of turns, and Bohm/Run/Outcome says how many are enough.
--
-- Not modelled: the baseline protocols AriaFB, DOCC and Pwv, of Calvin the exchange of reads
-- between nodes, and of Aria the handlers of its messages, the reads and the phases; the
-- signals between the phases, the threads, sockets and encodings, the SQL emulation and the benchmarks. A
-- transaction is a program given as a parameter that is deterministic in what it reads. Statistics, delays and log
-- lines are left out.
pub mod Base
pub mod Aria
pub mod Core
pub mod Calvin
pub mod Common
pub mod Bohm
pub mod Prodcc
pub mod TwoPl
pub mod Examples
