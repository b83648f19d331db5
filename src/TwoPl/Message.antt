-- ===== src/TwoPl/Message.antt =====
-- protocol/TwoPL/TwoPLMessage.h: what a node does on receipt of a message. A message is its decoded fields.
-- A handler gives the node's lock words and values, and its response; a response changes the transaction
-- that waits for it.
pub mod Remote
use prdcc.Base.{
  ℕ, ◌+◌, ◌%◌, ◌^◌, Bool, true, false, List, [], ◌∷◌, Option, none, some, get_elem?, set,
  if◌then◌else◌,
}
use prdcc.Prodcc.Message.{store, dec64}
use prdcc.TwoPl.Helper.{
  LockResult, remove_lock_bit, read_lock_release, write_lock_release, write_lock_release_to,
  write_lock_wait,
}
use prdcc.TwoPl.Transaction.{
  LockKey, LockTxn, LockMessage, read_lock_request, write_lock_request, abort_request,
  write_request, replication_request, release_read_lock_request, release_write_lock_request,
  try_lock,
}

pub record Tables : Type 0 where
  pub words : ℕ → ℕ
  pub db : ℕ → ℕ

-- The fields of a lock response: the value and the tid are there on success only. The other responses are
-- empty.
pub data LockResponse : Type 0 where
  read_lock_response write_lock_response :
      (success : Bool) (key_offset value tid : ℕ) → LockResponse
  empty_response : LockResponse

-- What the handlers of the two lock requests share.
unfoldable pub lock_request_handler : Bool → ℕ → ℕ → Tables → Tables × LockResponse
lock_request_handler for_write row key_offset s =
    let r = try_lock for_write (s.words row) in
    let value = if r.success then s.db row else 0 in
    let tid = if r.success then r.tid else 0 in
    (
      record s { words = store s.words row r.word },
      if for_write
          then write_lock_response r.success key_offset value tid
          else read_lock_response r.success key_offset value tid,
    )

unfoldable pub read_lock_request_handler : ℕ → ℕ → Tables → Tables × LockResponse
read_lock_request_handler = lock_request_handler false

unfoldable pub write_lock_request_handler : ℕ → ℕ → Tables → Tables × LockResponse
write_lock_request_handler = lock_request_handler true

unfoldable pub abort_request_handler : ℕ → Bool → Tables → Tables
abort_request_handler row for_write s = record s {
  words =
      store s.words row
        (if for_write then write_lock_release (s.words row) else read_lock_release (s.words row));
}

-- The replica is locked for the write; `none` while it is locked by another. `spurious` says here and below
-- whether the weak exchange of the release fails for no reason.
unfoldable pub replication_request_handler : Bool → ℕ → ℕ → ℕ → Tables → Option Tables
replication_request_handler spurious row value commit_tid s = elim (write_lock_wait (s.words row)) [
  | none ↦ none
  | some r ↦ some (record {
    words = store s.words row (write_lock_release_to spurious r.word commit_tid);
    db = store s.db row value;
  })
]

unfoldable pub write_request_handler : ℕ → ℕ → Tables → Tables
write_request_handler row value s = record s { db = store s.db row value }

unfoldable pub release_read_lock_request_handler : ℕ → Tables → Tables
release_read_lock_request_handler row s = record s {
  words = store s.words row (read_lock_release (s.words row));
}

unfoldable pub release_write_lock_request_handler : Bool → ℕ → ℕ → Tables → Tables
release_write_lock_request_handler spurious row commit_tid s = record s {
  words = store s.words row (write_lock_release_to spurious (s.words row) commit_tid);
}

-- A request's node, and the response to it if it has one.
unfoldable pub handle_request : Bool → LockMessage → Tables → Option (Tables × Option LockResponse)
handle_request spurious (read_lock_request row key_offset) s =
    let (s', r) = read_lock_request_handler row key_offset s in some (s', some r)
handle_request spurious (write_lock_request row key_offset) s =
    let (s', r) = write_lock_request_handler row key_offset s in some (s', some r)
handle_request spurious (abort_request row for_write) s =
    some (abort_request_handler row for_write s, none)
handle_request spurious (write_request row value) s =
    some (write_request_handler row value s, some empty_response)
handle_request spurious (replication_request coordinator row value commit_tid) s =
    elim (replication_request_handler spurious row value commit_tid s) [
      | none ↦ none
      | some s' ↦ some (s', some empty_response)
    ]
handle_request spurious (release_read_lock_request row) s =
    some (release_read_lock_request_handler row s, some empty_response)
handle_request spurious (release_write_lock_request row commit_tid) s =
    some (release_write_lock_request_handler spurious row commit_tid s, some empty_response)

abbrev pub responded : LockTxn → LockTxn
responded t = record t { pending_responses = dec64 t.pending_responses }

-- What the handlers of the two lock responses share. The key that the response is for is locked, or the transaction is to abort. `none` is an access out of
-- the read set.
unfoldable pub lock_response_handler : Bool → Bool → ℕ → ℕ → ℕ → LockTxn → Option LockTxn
lock_response_handler for_write success key_offset value tid t =
    if success
    then elim (get_elem? t.read_set key_offset) [
      | none ↦ none
      | some k ↦ some (
          responded (record t {
            read_set = set t.read_set key_offset (
                if for_write
                then record k { value = value; write_lock_bit = true; tid = tid }
                else record k { value = value; read_lock_bit = true; tid = tid });
          }))
    ]
    else some (responded (record t { abort_lock = true }))

unfoldable pub read_lock_response_handler : Bool → ℕ → ℕ → ℕ → LockTxn → Option LockTxn
read_lock_response_handler = lock_response_handler false

unfoldable pub write_lock_response_handler : Bool → ℕ → ℕ → ℕ → LockTxn → Option LockTxn
write_lock_response_handler = lock_response_handler true

unfoldable pub handle_response : LockResponse → LockTxn → Option LockTxn
handle_response (read_lock_response success key_offset value tid) t =
    read_lock_response_handler success key_offset value tid t
handle_response (write_lock_response success key_offset value tid) t =
    write_lock_response_handler success key_offset value tid t
handle_response empty_response t = some (responded t)
