-- ===== src/Bohm/Message.antt =====
-- protocol/Bohm/BohmMessage.h: the messages, and what a node does on receipt of one. A message is its decoded
-- fields; a response without success has no value.
pub mod Remote
use prdcc.Base.{
  ℕ, ◌+◌, ◌-◌, ◌%◌, ◌^◌, Bool, true, false, List, Option, none, some, ◌>>=◌, get_elem?, set,
  if◌then◌else◌,
}
use prdcc.Core.MvccTable.{
  Cell, MvccTable, search_prev, search_metadata, deserialize_value, set_metadata,
}
use prdcc.Prodcc.Message.{dec64}
use prdcc.Bohm.Helper.{is_placeholder_ready, get_pos}
use prdcc.Bohm.Transaction.{BohmKey, BohmTxn}

pub data BohmMessage : Type 0 where
  read_request : (row key_offset tid : ℕ) → BohmMessage
  read_response : (success : Bool) (key_offset tid value : ℕ) → BohmMessage
  write_request : (row value tid : ℕ) → BohmMessage

-- The response; `none` is the access to a version that is not there.
unfoldable pub read_request_handler : ℕ → ℕ → ℕ → MvccTable → Option BohmMessage
read_request_handler row key_offset tid table = elim (search_prev table row tid) [
  | none ↦ none
  | some c ↦ some (
      if is_placeholder_ready c.placeholder
      then read_response true key_offset tid c.value
      else read_response false key_offset tid 0)
]

-- `fetch_add(-1)` on an int32_t.
abbrev pub dec32 : ℕ → ℕ
dec32 n = (n + (2 ^ 32 - 1)) % 2 ^ 32

-- The transaction that waits, once it has the response. `none` is an access out of the read set.
unfoldable pub respond : Bool → ℕ → ℕ → BohmTxn → Option BohmTxn
respond success key_offset value t =
    if success
    then elim (get_elem? t.read_set key_offset) [
      | none ↦ none
      | some k ↦ some (record t {
        read_set = set t.read_set key_offset (record k { read_request = false; value = value });
        remote_read = dec32 t.remote_read;
        pending_responses = dec64 t.pending_responses;
      })
    ]
    else some
        (record t { abort_read_not_ready = true; pending_responses = dec64 t.pending_responses })

-- `none` is an access out of the vector of transactions, or out of the read set.
unfoldable pub read_response_handler : Bool → ℕ → ℕ → ℕ → List BohmTxn → Option (List BohmTxn)
read_response_handler success key_offset tid value txns = elim (get_elem? txns (get_pos tid)) [
  | none ↦ none
  | some t ↦ elim (respond success key_offset value t) [
    | none ↦ none
    | some t' ↦ some (set txns (get_pos tid) t')
  ]
]

-- `none` is a failed CHECK: there is no such version, or it is ready.
unfoldable pub write_request_handler : ℕ → ℕ → ℕ → MvccTable → Option MvccTable
write_request_handler row value tid table = elim (search_metadata table row tid) [
  | none ↦ none
  | some placeholder ↦
      let written = deserialize_value table row value tid >>= λ s. set_metadata s row tid 0 in
      if is_placeholder_ready placeholder then none else written
]
