-- ===== src/Prodcc/Reserve.antt =====
-- protocol/Prodcc/ProdccExecutor.h: the reservations of a micro-block as a sequence of operations on
-- rows, in whatever order the workers of all nodes make them.
use prdcc.Base.{
  ℕ, ◌≡◌, refl, inl, inr, Bool, true, false, ◌&&◌, Option, none, some, List, [], ◌∷◌, ◌++◌, arith,
  if◌then◌else◌, Bool-cases, Option-cases,
}
use mathlib.Core.List.{append-nil, append_assoc}
use prdcc.Aria.Helper.{reserve_read, reserve_write}
use prdcc.Aria.Reservation.{Request, read, write, reserve}
use prdcc.Prodcc.Transaction.{Txn, RwKey, is_read_only, u32}
use prdcc.Prodcc.Message.{
  Meta, Message, Node, handle, store, reserve_request, reserve_request_handler,
}
use prdcc.Prodcc.Executor.{
  Context, Outgoing, reserve_read_key, reserve_write_key, reserve_reads, reserve_writes,
  reserve_transaction,
}

pub record Op : Type 0 where
  pub row : ℕ
  pub request : Request

unfoldable pub run_op : ℕ → Op → Meta → Option Meta
run_op epoch o m = elim (reserve epoch o.request (m o.row)) [
  | none ↦ none
  | some a ↦ some (store m o.row a)
]

unfoldable pub run_ops : ℕ → List Op → Meta → Option Meta
run_ops epoch [] m = some m
run_ops epoch (o ∷ os) m = elim (run_op epoch o m) [ none ↦ none | some m' ↦ run_ops epoch os m' ]

-- What a transaction reserves.
abbrev pub read_ops : ℕ → List RwKey → List Op
read_ops tid [] = []
read_ops tid (k ∷ ks) =
    if k.local_index
    then read_ops tid ks
    else record { row = k.row; request = read tid } ∷ read_ops tid ks

abbrev pub write_ops : ℕ → List RwKey → List Op
write_ops tid [] = []
write_ops tid (k ∷ ks) = record { row = k.row; request = write tid } ∷ write_ops tid ks

abbrev pub ops_of : Context → Txn → List Op
ops_of c t =
    if c.read_only_optimization && is_read_only t
    then []
    else read_ops (u32 t.id) t.read_set ++ write_ops (u32 t.id) t.write_set

-- The part on rows of this node, and the requests for the others.
abbrev pub here : (ℕ → Bool) → List Op → List Op
here is_master [] = []
here is_master (o ∷ os) = if is_master o.row then o ∷ here is_master os else here is_master os

abbrev pub request_of : ℕ → ℕ → Request → Message
request_of epoch row (read tid) = reserve_request row tid epoch false
request_of epoch row (write tid) = reserve_request row tid epoch true

abbrev pub elsewhere : (ℕ → Bool) → ℕ → List Op → List Message
elsewhere is_master epoch [] = []
elsewhere is_master epoch (o ∷ os) =
    if is_master o.row
    then elsewhere is_master epoch os
    else request_of epoch o.row o.request ∷ elsewhere is_master epoch os

-- A request is handled as the operation for which it stands.
request-run_op :
    (epoch : ℕ) (o : Op) (n : Node)
    → handle (request_of epoch o.row o.request) n
      ≡ elim (run_op epoch o n.metadata) [ none ↦ none | some m ↦ some (record n { metadata = m }) ]
unfolding handle reserve_request_handler run_op reserve
request-run_op epoch o n = go o.request
  where
    go :
        (q : Request)
        → handle (request_of epoch o.row q) n
          ≡ elim (run_op epoch (record { row = o.row; request = q }) n.metadata) [
            | none ↦ none
            | some m ↦ some (record n { metadata = m })
          ]
    go (read tid) = ground arith
    go (write tid) = ground arith

abbrev pub outgoing : Option Meta → List Message → Option Outgoing
outgoing none out = none
outgoing (some m) out = some (m, out)

module _ (is_master : ℕ → Bool) (t : Txn) where
  reserve_writes-run_ops :
      (ks : List RwKey) (m : Meta) (out : List Message)
      → reserve_writes is_master t ks (m, out)
        ≡ outgoing
            (run_ops t.epoch (here is_master (write_ops (u32 t.id) ks)) m)
            (out ++ elsewhere is_master t.epoch (write_ops (u32 t.id) ks))
  unfolding reserve_writes reserve_write_key run_ops run_op reserve
  reserve_writes-run_ops [] m out = rw append-nil
  reserve_writes-run_ops (k ∷ ks) m out = elim (Bool-cases (is_master k.row)) [
    | inl mine ↦ elim (Option-cases (reserve_write (m k.row) t.epoch (u32 t.id))) [
      | inl e ↦ ground arith
      | inr (r, e) ↦ ground (arith, reserve_writes-run_ops ks (store m k.row r.1) out)
    ]
    | inr other ↦ ground (
      arith,
      reserve_writes-run_ops ks m (out ++ reserve_request k.row (u32 t.id) t.epoch true ∷ []),
      append_assoc out (reserve_request k.row (u32 t.id) t.epoch true ∷ [])
          (elsewhere is_master t.epoch (write_ops (u32 t.id) ks)),
    )
  ]

  reserve_reads-run_ops :
      (ks : List RwKey) (m : Meta) (out : List Message)
      → reserve_reads is_master t ks (m, out)
        ≡ outgoing
            (run_ops t.epoch (here is_master (read_ops (u32 t.id) ks)) m)
            (out ++ elsewhere is_master t.epoch (read_ops (u32 t.id) ks))
  unfolding reserve_reads reserve_read_key run_ops run_op reserve
  reserve_reads-run_ops [] m out = rw append-nil
  reserve_reads-run_ops (k ∷ ks) m out = elim (Bool-cases k.local_index) [
    | inl index ↦ ground (arith, reserve_reads-run_ops ks m out)
    | inr row ↦ elim (Bool-cases (is_master k.row)) [
      | inl mine ↦ elim (Option-cases (reserve_read (m k.row) t.epoch (u32 t.id))) [
        | inl e ↦ ground arith
        | inr (r, e) ↦ ground (arith, reserve_reads-run_ops ks (store m k.row r.1) out)
      ]
      | inr other ↦ ground (
        arith,
        reserve_reads-run_ops ks m (out ++ reserve_request k.row (u32 t.id) t.epoch false ∷ []),
        append_assoc out (reserve_request k.row (u32 t.id) t.epoch false ∷ [])
            (elsewhere is_master t.epoch (read_ops (u32 t.id) ks)),
      )
    ]
  ]

  here-append :
      (os us : List Op) → here is_master (os ++ us) ≡ here is_master os ++ here is_master us
  here-append [] us = refl
  here-append (o ∷ os) us = ground (arith, here-append os us)

  elsewhere-append :
      (os us : List Op)
      → elsewhere is_master t.epoch (os ++ us)
        ≡ elsewhere is_master t.epoch os ++ elsewhere is_master t.epoch us
  elsewhere-append [] us = refl
  elsewhere-append (o ∷ os) us = ground (arith, elsewhere-append os us)

  run_ops-append :
      (e : ℕ) (os us : List Op) (m : Meta)
      → run_ops e (os ++ us) m ≡ elim (run_ops e os m) [ none ↦ none | some m' ↦ run_ops e us m' ]
  unfolding run_ops
  run_ops-append e [] us m = refl
  run_ops-append e (o ∷ os) us m = elim (Option-cases (run_op e o m)) [
    | inl p ↦ ground arith
    | inr (m', p) ↦ ground (arith, run_ops-append e os us m')
  ]

  -- Of the operations of a transaction, `reserve_transaction` does those on the rows of its node and
  -- sends a request for each of the others.
  pub reserve_transaction-run_ops :
      (c : Context) (m : Meta) (out : List Message)
      → reserve_transaction is_master c t (m, out)
        ≡ outgoing
            (run_ops t.epoch (here is_master (ops_of c t)) m)
            (out ++ elsewhere is_master t.epoch (ops_of c t))
  unfolding reserve_transaction run_ops
  reserve_transaction-run_ops c m out =
      let reads = read_ops (u32 t.id) t.read_set in
      let writes = write_ops (u32 t.id) t.write_set in
      elim (Bool-cases (c.read_only_optimization && is_read_only t)) [
        | inl skip ↦ rw skip (rw append-nil)
        | inr go ↦ rw go (
            rw
              (
                reserve_reads-run_ops t.read_set m out,
                here-append reads writes,
                elsewhere-append reads writes,
                run_ops-append t.epoch (here is_master reads) (here is_master writes) m,
              )
              (elim (Option-cases (run_ops t.epoch (here is_master reads) m)) [
                | inl e ↦ ground arith
                | inr (m', e) ↦ ground (
                  arith,
                  reserve_writes-run_ops t.write_set m' (out ++ elsewhere is_master t.epoch reads),
                  append_assoc out (elsewhere is_master t.epoch reads)
                      (elsewhere is_master t.epoch writes),
                )
              ]))
      ]
