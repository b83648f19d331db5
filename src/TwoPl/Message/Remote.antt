-- ===== src/TwoPl/Message/Remote.antt =====
-- protocol/TwoPL/TwoPLMessage.h: a lock request at the node that has the row, and its response at the node
-- that asked.
use prdcc.Base.{
  ℕ, zero, suc, ◌+◌, ◌%◌, ◌^◌, ◌≡◌, refl, ◌∙◌, Bool, true, false, ◌==◌, arith, List, [], ◌∷◌, some,
  get_elem?, set, if◌then◌else◌, Bool-cases, inl, inr,
}
use prdcc.Prodcc.Message.{store, dec64}
use prdcc.TwoPl.Transaction.{LockKey, LockTxn, try_lock}
use prdcc.TwoPl.Transaction.Balance.{locks, unit_of, try_lock-word}
use prdcc.TwoPl.Message.{
  Tables, read_lock_response, write_lock_response, lock_request_handler, lock_response_handler,
  read_lock_response_handler, write_lock_response_handler, handle_response, responded,
}

get_elem?-set :
    (ks : List LockKey) (i : ℕ) (k v : LockKey)
    → get_elem? ks i ≡ some k
    → get_elem? (set ks i v) i ≡ some v
get_elem?-set [] i k v h = absurd (ground (arith, h))
get_elem?-set (x ∷ xs) zero k v h = refl
get_elem?-set (x ∷ xs) (suc i) k v h = get_elem?-set xs i k v h

store-here : (m : ℕ → ℕ) (row v : ℕ) → store m row v row ≡ v
store-here m row v = ground arith

-- The key with the lock that a response grants.
abbrev granted : Bool → LockKey → ℕ → ℕ → LockKey
granted for_write k value tid =
    if for_write
    then record k { value = value; write_lock_bit = true; tid = tid }
    else record k { value = value; read_lock_bit = true; tid = tid }

granted-locks :
    (for_write : Bool) (k : LockKey) (value tid : ℕ)
    → locks k ≡ 0
    → locks (granted for_write k value tid) ≡ unit_of for_write
granted-locks true k value tid h = ground (arith, h)
granted-locks false k value tid h = ground (arith, h)

unit_of-ne : (for_write : Bool) → (unit_of for_write == 0) ≡ false
unit_of-ne true = refl
unit_of-ne false = refl

lock_response_handler-granted :
    (for_write : Bool) (off value tid : ℕ) (t : LockTxn) (k : LockKey)
    → get_elem? t.read_set off ≡ some k
    → lock_response_handler for_write true off value tid t
      ≡ some
          (responded (record t { read_set = set t.read_set off (granted for_write k value tid) }))
unfolding lock_response_handler
lock_response_handler-granted for_write off value tid t k h = rw h refl

handle_response-handler :
    (for_write success : Bool) (off value tid : ℕ) (t : LockTxn)
    → handle_response
        (if for_write
          then write_lock_response success off value tid
          else read_lock_response success off value tid)
        t
      ≡ lock_response_handler for_write success off value tid t
unfolding handle_response read_lock_response_handler write_lock_response_handler
handle_response-handler true success off value tid t = refl
handle_response-handler false success off value tid t = refl

-- A request and its response together: what the lock word gains is what the key then records, and when
-- the lock is refused the transaction is marked for abort with its keys as they were. One response less is
-- awaited. It is so for a key of the read set that holds no lock.
pub lock_request-response :
    (for_write : Bool) (row key_offset : ℕ) (s : Tables) (t : LockTxn) (k : LockKey)
    → get_elem? t.read_set key_offset ≡ some k
    → locks k ≡ 0
    → let (s', r) = lock_request_handler for_write row key_offset s in
      (t' : LockTxn) × (k' : LockKey) × (handle_response r t ≡ some t')
      × (get_elem? t'.read_set key_offset ≡ some k')
      × ((s'.words row) % 2 ^ 64 ≡ (s.words row + locks k') % 2 ^ 64)
      × (t'.abort_lock ≡ (if locks k' == 0 then true else t.abort_lock))
      × (t'.pending_responses ≡ dec64 t.pending_responses)
unfolding lock_request_handler lock_response_handler
lock_request-response for_write row off s t k h none_held =
    let r = try_lock for_write (s.words row) in
    let w = try_lock-word for_write (s.words row) in
    let here = store-here s.words row r.word in
    elim (Bool-cases r.success) [
      | inl e ↦
          let g = granted-locks for_write k (s.db row) r.tid none_held in
          (
            responded
                (record t { read_set = set t.read_set off (granted for_write k (s.db row) r.tid) }),
            granted for_write k (s.db row) r.tid,
            rw e (
                handle_response-handler for_write true off (s.db row) r.tid t
                ∙ lock_response_handler-granted for_write off (s.db row) r.tid t k h),
            get_elem?-set t.read_set off k _ h,
            rw (here, g) (rw e at w),
            rw (g, unit_of-ne for_write) refl,
            refl,
          )
      | inr e ↦ (
        responded (record t { abort_lock = true }),
        k,
        rw e (handle_response-handler for_write false off 0 0 t),
        h,
        rw (here, none_held) (rw e at w),
        rw none_held refl,
        refl,
      )
    ]
