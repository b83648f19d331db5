-- ===== src/Bohm/Message/Remote.antt =====
-- protocol/Bohm/BohmMessage.h and BohmExecutor.h: a read and a write by messages, next to those of this node.
use prdcc.Base.{
  ℕ, ◌≡◌, refl, sym, ap, ◌∙◌, inl, inr, true, false, List, [], ◌∷◌, zero, suc, Option, none, some,
  ◌>>=◌, get_elem?, set, ◌==◌, Bool-cases, Option-cases,
}
use prdcc.Core.MvccTable.{Cell, MvccTable, search_prev, search_metadata, update, set_metadata}
use prdcc.Core.MvccTable.Write.{update-deserialize_value}
use prdcc.Prodcc.Message.{dec64}
use prdcc.Bohm.Helper.{is_placeholder_ready, get_pos}
use prdcc.Bohm.Transaction.{BohmKey, BohmTxn}
use prdcc.Bohm.Message.{
  BohmMessage, read_response, read_request_handler, respond, dec32, read_response_handler,
  write_request_handler,
}
use prdcc.Bohm.Executor.{Reads, read_here, commit_key}

-- `none` for anything but a response.
unfoldable pub deliver_response : BohmMessage → List BohmTxn → Option (List BohmTxn)
deliver_response (read_response success key_offset tid value) txns =
    read_response_handler success key_offset tid value txns
deliver_response _ txns = none

set-same :
    (ks : List BohmKey) (off : ℕ) (k : BohmKey) → get_elem? ks off ≡ some k → set ks off k ≡ ks
set-same [] off k e = refl
set-same (x ∷ ks) zero k e =
    ap (λ y. y ∷ ks) (sym (ap (λ (o : Option BohmKey). elim o [ none ↦ x | some y ↦ y ]) e))
set-same (x ∷ ks) (suc off) k e = ap (λ r. x ∷ r) (set-same ks off k e)

-- A read request and its response together are the read of the node that has the row: the key of the
-- transaction that the id names becomes what that read makes of it, and the transaction is marked as not ready
-- when that read marks it. The version is there, and `bohm_single_spin` is off.
pub read_request-response :
    (table : MvccTable) (txns : List BohmTxn) (t : BohmTxn) (key_offset tid : ℕ) (k : BohmKey)
    (s : Reads) (c : Cell)
    → get_elem? txns (get_pos tid) ≡ some t
    → get_elem? t.read_set key_offset ≡ some k
    → s.abort_read_not_ready ≡ t.abort_read_not_ready
    → search_prev table k.row tid ≡ some c
    → (k' : BohmKey) × (s' : Reads) × (t' : BohmTxn) × (read_here (λ _. false) false table tid k s
        ≡ some (k', s'))
      × ((read_request_handler k.row key_offset tid table >>= λ r. deliver_response r txns)
          ≡ some (set txns (get_pos tid) t'))
      × (t'.read_set ≡ set t.read_set key_offset k')
      × (t'.abort_read_not_ready ≡ s'.abort_read_not_ready)
      × (t'.pending_responses ≡ dec64 t.pending_responses)
unfolding read_here read_request_handler deliver_response read_response_handler respond
    is_placeholder_ready
read_request-response table txns t key_offset tid k s c et ek es ec =
    elim (Bool-cases (c.placeholder == 0)) [
      | inl r ↦ (
        record k { value = c.value; read_request = false },
        s,
        record t {
          read_set = set t.read_set key_offset (record k { read_request = false; value = c.value });
          remote_read = dec32 t.remote_read;
          pending_responses = dec64 t.pending_responses;
        },
        rw (read_here, ec, r) refl,
        rw (read_request_handler, ec, r, deliver_response, read_response_handler, et, respond, ek)
            refl,
        refl,
        sym es,
        refl,
      )
      | inr r ↦ (
        k,
        record s { abort_read_not_ready = true },
        record t { abort_read_not_ready = true; pending_responses = dec64 t.pending_responses },
        rw (read_here, ec, r) refl,
        rw (read_request_handler, ec, r, deliver_response, read_response_handler, et, respond) refl,
        sym (set-same t.read_set key_offset k ek),
        refl,
        refl,
      )
    ]

assoc :
    {A B C : Type 0} (o : Option A) (f : A → Option B) (g : B → C)
    → (o >>= λ a. f a >>= λ b. some (g b)) ≡ ((o >>= f) >>= λ b. some (g b))
assoc none f g = refl
assoc (some a) f g = refl

-- A write request leaves in the table of its node what the commit of the key there would, and fails its CHECKs
-- when that would.
pub write_request-commit_key :
    (table : MvccTable) (k : BohmKey) (tid : ℕ) (out : List BohmMessage)
    → commit_key (λ _. true) tid k (table, out)
      ≡ (write_request_handler k.row k.value tid table >>= λ s. some (s, out))
unfolding commit_key write_request_handler
write_request-commit_key table k tid out = elim (Option-cases (search_metadata table k.row tid)) [
  | inl e ↦ rw (write_request_handler, e) refl
  | inr (p, e) ↦ elim (Bool-cases (is_placeholder_ready p)) [
    | inl r ↦ rw (write_request_handler, e, r) refl
    | inr r ↦
        rw (write_request_handler, e, r)
          (assoc (update table k.row k.value tid) (λ s. set_metadata s k.row tid 0) (λ s. (s, out))
            ∙ ap (λ (o : Option MvccTable). o >>= λ s. some (s, out))
                (update-deserialize_value table k.row k.value tid))
  ]
]
