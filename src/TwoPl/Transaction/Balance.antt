-- ===== src/TwoPl/Transaction/Balance.antt =====
-- protocol/TwoPL/TwoPLTransaction.h: what the locks that the keys of a transaction record add to the lock
-- words of this node.
use prdcc.Base.{
  ℕ, ◌+◌, ◌%◌, ◌^◌, ◌≤◌, ◌≡◌, refl, sym, ap, Bool, true, false, not, ◌&&◌, ◌||◌, ◌==◌, ==_iff,
  arith, List, [], ◌∷◌, All, if◌then◌else◌, if-cases, Bool-cases, inl, inr,
}
use prdcc.Prodcc.Message.{store}
use prdcc.TwoPl.Helper.{read_lock, write_lock, remove_lock_bit}
use prdcc.TwoPl.Transaction.{
  LockKey, Locking, try_lock, locked_key, served_key, lock_here, ask_there, lock_key, lock_keys,
}

-- What a lock adds to the word.
abbrev pub unit_of : Bool → ℕ
unit_of for_write = if for_write then 2 ^ 63 else 2 ^ 54

-- A key holds or asks for one lock at most, and a read of the local index asks for no write lock.
abbrev pub IsSingle : LockKey → Type 0
IsSingle k =
    ((if k.read_lock_request then 1 else 0)
        + (if k.write_lock_request then 1 else 0)
        + (if k.read_lock_bit then 1 else 0)
        + (if k.write_lock_bit then 1 else 0)
      ≤ 1)
    × ((k.local_index_read && k.write_lock_request) ≡ false)

-- The locks of the key, on a row of this node.
abbrev pub locks : LockKey → ℕ
locks k = (if k.read_lock_bit then 2 ^ 54 else 0) + (if k.write_lock_bit then 2 ^ 63 else 0)

pub try_lock-word :
    (for_write : Bool) (a : ℕ)
    → (try_lock for_write a).word % 2 ^ 64
      ≡ (a + (if (try_lock for_write a).success then unit_of for_write else 0)) % 2 ^ 64
unfolding try_lock read_lock write_lock
try_lock-word true a = ground arith
try_lock-word false a = ground arith

module _ (is_master : ℕ → Bool) where
  abbrev pub weight : ℕ → LockKey → ℕ
  weight row k = if is_master k.row && k.row == row then locks k else 0

  unfoldable pub held : ℕ → List LockKey → ℕ
  held row [] = 0
  held row (k ∷ ks) = weight row k + held row ks

  locked_key-locks :
      (k : LockKey) (tid value : ℕ)
      → IsSingle k
      → k.local_index_read ≡ false
      → (k.read_lock_request || k.write_lock_request) ≡ true
      → locks (locked_key k tid value) ≡ locks k + unit_of k.write_lock_request
  unfolding locked_key
  locked_key-locks k tid value h l a = ground arith

  -- The result of a step for a key changes the word of the row by as much as the locks of the key.
  abbrev Keeps : ℕ → LockKey → Locking → LockKey × Locking → Type 0
  Keeps row k s r =
      (r.1.words row + weight row k) % 2 ^ 64 ≡ (s.words row + weight row r.0) % 2 ^ 64

  stored :
      (words : ℕ → ℕ) (row r v d a a' : ℕ)
      → v % 2 ^ 64 ≡ (words r + d) % 2 ^ 64
      → a' ≡ a + d
      → is_master r ≡ true
      → (store words r v row + (if is_master r && r == row then a else 0)) % 2 ^ 64
        ≡ (words row + (if is_master r && r == row then a' else 0)) % 2 ^ 64
  stored words row r v d a a' h e mine = elim (Bool-cases (r == row)) [
    | inl same ↦ rw (mine, same) (omega (arith, h, e, ap words ((==_iff r row).0 same)))
    | inr other ↦ rw (mine, other) refl
  ]

  lock_here-Keeps :
      (row : ℕ) (k : LockKey) (s : Locking)
      → IsSingle k
      → k.local_index_read ≡ false
      → (k.read_lock_request || k.write_lock_request) ≡ true
      → is_master k.row ≡ true
      → Keeps row k s (lock_here is_master k s)
  unfolding lock_here locked_key
  lock_here-Keeps row k s h l a mine =
      let r = try_lock k.write_lock_request (s.words k.row) in
      let w = try_lock-word k.write_lock_request (s.words k.row) in
      let words = store s.words k.row r.word in
      if-cases (Keeps row k s) r.success
        (locked_key k (remove_lock_bit r.word) (s.db k.row), record s { words = words })
        (served_key k, record s { words = words; abort_lock = true })
        (λ e.
          stored s.words row k.row r.word (unit_of k.write_lock_request) (locks k) _ (rw e at w)
            (locked_key-locks k (remove_lock_bit r.word) (s.db k.row) h l a) mine)
        (λ e. stored s.words row k.row r.word 0 (locks k) (locks k) (rw e at w) (omega arith) mine)

  local_index-locks :
      (k : LockKey) (tid value : ℕ)
      → IsSingle k
      → k.local_index_read ≡ true
      → locks (locked_key k tid value) ≡ locks k
  unfolding locked_key
  local_index-locks k tid value h l = ground arith

  lock_key-Keeps :
      (row off : ℕ) (k : LockKey) (s : Locking)
      → IsSingle k
      → (k.read_lock_request || k.write_lock_request) ≡ true
      → Keeps row k s (lock_key is_master off k s)
  unfolding lock_key ask_there locked_key
  lock_key-Keeps row off k s h a =
      if-cases (Keeps row k s) k.local_index_read
        (locked_key k (remove_lock_bit (s.words k.row)) (s.db k.row), s)
        (if is_master k.row then lock_here is_master k s else ask_there is_master off k s)
        (λ e.
          ap (λ x. (s.words row + (if is_master k.row && k.row == row then x else 0)) % 2 ^ 64)
            (sym (local_index-locks k (remove_lock_bit (s.words k.row)) (s.db k.row) h e)))
        (λ e.
          if-cases (Keeps row k s) (is_master k.row) (lock_here is_master k s)
            (ask_there is_master off k s) (λ mine. lock_here-Keeps row k s h e a mine)
            (λ other. refl))

  asked :
      (k : LockKey)
      → (not k.read_lock_request && not k.write_lock_request) ≡ false
      → (k.read_lock_request || k.write_lock_request) ≡ true
  asked k h = ground arith

  -- The loop leaves the words, less the locks that the keys hold, as they were.
  pub lock_keys-held :
      (row off : ℕ) (ks : List LockKey) (s : Locking)
      → All IsSingle ks
      → let (ks', s', go) = lock_keys is_master off ks s in
        (s'.words row + held row ks) % 2 ^ 64 ≡ (s.words row + held row ks') % 2 ^ 64
  unfolding lock_keys held
  lock_keys-held row off [] s h = refl
  lock_keys-held row off (k ∷ ks) s h =
      let ih = lock_keys-held row (off + 1) ks s h.1 in
      let s' = (lock_keys is_master (off + 1) ks s).1 in
      let kept : (s'.words row + (weight row k + held row ks)) % 2 ^ 64
          ≡ (s.words row + (weight row k + held row (lock_keys is_master (off + 1) ks s).0))
            % 2 ^ 64 =
        omega (arith, ih) in
      let P : List LockKey × Locking × Bool → Type 0 = λ r.
        (r.1.words row + (weight row k + held row ks)) % 2 ^ 64
        ≡ (s.words row + held row r.0) % 2 ^ 64 in
      if-cases P (not (lock_keys is_master (off + 1) ks s).2) _ _ (λ e. kept)
        (λ e.
          if-cases P (not k.read_lock_request && not k.write_lock_request) _ _ (λ e. kept)
            (λ e. let g = lock_key-Keeps row off k s' h.0 (asked k e) in omega (arith, ih, g)))
