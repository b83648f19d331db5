-- ===== src/Prodcc/Message.antt =====
-- protocol/Prodcc/ProdccMessage.h: the messages of PRDCC, and what a node does on receipt of one.
-- A message is its decoded fields; the encoding of `tid`, `tid_offset` and `epoch` as uint32_t is
-- kept. The table's metadata are a function of the row, and so are its values.
use prdcc.Base.{
  ℕ, ◌+◌, ◌-◌, ◌%◌, ◌^◌, ◌||◌, ◌++◌, Bool, false, not, ◌&&◌, Option, none, some, List, [], ◌∷◌, ltb,
  ◌==◌, if◌then◌else◌, get_elem?, set,
}
use prdcc.Aria.Helper.{get_epoch, get_rts, get_wts, reserve_read, reserve_write}
use prdcc.Prodcc.Transaction.{Txn}

-- The metadata word of each row, and the value of each row.
abbrev pub Meta : Type 0
Meta = ℕ → ℕ

abbrev pub Db : Type 0
Db = ℕ → ℕ

abbrev pub store : (ℕ → ℕ) → ℕ → ℕ → ℕ → ℕ
store f row v r = if row == r then v else f r

pub data Message : Type 0 where
  reserve_request : (row tid epoch : ℕ) (is_write : Bool) → Message
  check_request : (row tid tid_offset epoch : ℕ) (is_write : Bool) → Message
  check_response : (tid tid_offset : ℕ) (is_write waw war raw : Bool) → Message
  write_request : (row value tid tid_offset : ℕ) → Message
  write_response : (tid tid_offset : ℕ) → Message
  cleanup_request : (row tid tid_offset : ℕ) → Message
  cleanup_response : (tid tid_offset : ℕ) → Message

-- The state of a node that messages touch.
pub record Node : Type 0 where
  pub metadata : Meta
  pub db : Db
  pub txns : List Txn
  pub responses : List Message

abbrev pub reserved : Option (Bool × ℕ) → Option ℕ
reserved none = none
reserved (some (_, a)) = some a

unfoldable pub reserve_request_handler : ℕ → ℕ → ℕ → Bool → Meta → Option Meta
reserve_request_handler row tid epoch is_write m =
    elim (if is_write
      then reserved (reserve_write (m row) epoch tid)
      else reserved (reserve_read (m row) epoch tid)) [
        | none ↦ none
        | some a ↦ some (store m row a)
      ]

-- The tests that the analysis makes of a metadata word: whether in this epoch a transaction with a
-- smaller id reserved the row for writing, or for reading.
unfoldable pub writer_before : ℕ → ℕ → ℕ → Bool
writer_before word epoch tid =
    get_epoch word == epoch && (ltb (get_wts word) tid && not (get_wts word == 0))

unfoldable pub reader_before : ℕ → ℕ → ℕ → Bool
reader_before word epoch tid =
    get_epoch word == epoch && (ltb (get_rts word) tid && not (get_rts word == 0))

unfoldable pub check_request_handler : ℕ → ℕ → ℕ → ℕ → Bool → Meta → Message
check_request_handler row tid tid_offset epoch is_write m =
    if is_write
    then check_response tid tid_offset is_write (writer_before (m row) epoch tid)
        (reader_before (m row) epoch tid) false
    else check_response tid tid_offset is_write false false (writer_before (m row) epoch tid)

-- `pendingResponses--` on size_t.
abbrev pub dec64 : ℕ → ℕ
dec64 n = (n + (2 ^ 64 - 1)) % 2 ^ 64

-- The transaction that a response names. `none` is a failed `CHECK`.
unfoldable pub txn_at : List Txn → ℕ → ℕ → Option Txn
txn_at ts tid_offset tid = elim (get_elem? ts tid_offset) [
  | none ↦ none
  | some t ↦ if t.id == tid then some t else none
]

-- What a check response does to the flags of its transaction.
unfoldable pub take_flags : Bool → Bool → Bool → Bool → Txn → Txn
take_flags is_write waw war raw t =
    if is_write
    then record t { war = war || t.war; waw = waw || t.waw }
    else record t { raw = raw || t.raw }

unfoldable pub answered : Txn → Txn
answered t = record t { pending_responses = dec64 t.pending_responses }

unfoldable pub check_response_handler :
    ℕ → ℕ → Bool → Bool → Bool → Bool → List Txn → Option (List Txn)
check_response_handler tid tid_offset is_write waw war raw ts = elim (txn_at ts tid_offset tid) [
  | none ↦ none
  | some t ↦ some (set ts tid_offset (answered (take_flags is_write waw war raw t)))
]

-- Of `write_response_handler` and `cleanup_response_handler`, which do the same.
unfoldable pub response_handler : ℕ → ℕ → List Txn → Option (List Txn)
response_handler tid tid_offset ts = elim (txn_at ts tid_offset tid) [
  | none ↦ none
  | some t ↦ some (set ts tid_offset (answered t))
]

-- The dispatch through `get_message_handlers`: the node's state after one message, with the
-- response that it adds.
unfoldable pub handle : Message → Node → Option Node
handle (reserve_request row tid epoch is_write) n =
    elim (reserve_request_handler row tid epoch is_write n.metadata) [
      | none ↦ none
      | some m ↦ some (record n { metadata = m })
    ]
handle (check_request row tid tid_offset epoch is_write) n = some (record n {
  responses =
      n.responses ++ check_request_handler row tid tid_offset epoch is_write n.metadata ∷ [];
})
handle (check_response tid tid_offset is_write waw war raw) n =
    elim (check_response_handler tid tid_offset is_write waw war raw n.txns) [
      | none ↦ none
      | some ts ↦ some (record n { txns = ts })
    ]
handle (write_request row value tid tid_offset) n = some (record n {
  db = store n.db row value;
  responses = n.responses ++ write_response tid tid_offset ∷ [];
})
handle (write_response tid tid_offset) n = elim (response_handler tid tid_offset n.txns) [
  | none ↦ none
  | some ts ↦ some (record n { txns = ts })
]
handle (cleanup_request row tid tid_offset) n = some (record n {
  metadata = store n.metadata row 0;
  responses = n.responses ++ cleanup_response tid tid_offset ∷ [];
})
handle (cleanup_response tid tid_offset) n = elim (response_handler tid tid_offset n.txns) [
  | none ↦ none
  | some ts ↦ some (record n { txns = ts })
]
