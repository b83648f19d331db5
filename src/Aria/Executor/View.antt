-- ===== src/Aria/Executor/View.antt =====
-- protocol/Aria/AriaExecutor.h: a transaction, the switches and the requests of Aria as PRDCC has them.
use prdcc.Base.{false}
use prdcc.Prodcc.Transaction.{Txn}
use prdcc.Prodcc.Message.{Message}
use prdcc.Prodcc.Executor.{Context}
use prdcc.Aria.Executor.{
  AriaTxn, AriaContext, AriaMessage, reserve_request, check_request, write_request,
}

abbrev pub as_txn : AriaTxn → Txn
as_txn t = record {
  id = t.id;
  tid_offset = t.tid_offset;
  epoch = t.epoch;
  pending_responses = t.pending_responses;
  abort_lock = t.abort_lock;
  delay_lock = false;
  abort_no_retry = t.abort_no_retry;
  abort_read_validation = t.abort_read_validation;
  distributed_transaction = t.distributed_transaction;
  execution_phase = t.execution_phase;
  waw = t.waw;
  war = t.war;
  raw = t.raw;
  read_set = t.read_set;
  write_set = t.write_set;
}

abbrev pub as_context : AriaContext → Context
as_context c = record {
  read_only_optimization = c.aria_read_only_optmization;
  snapshot_isolation = c.aria_snapshot_isolation;
  reordering_optimization = c.aria_reordering_optmization;
}

-- A write request of Aria does not name its transaction.
abbrev pub as_message : AriaMessage → Message
as_message (reserve_request row tid epoch w) = Message.reserve_request row tid epoch w
as_message (check_request row tid off epoch w) = Message.check_request row tid off epoch w
as_message (write_request row value) = Message.write_request row value 0 0
