-- ===== src/Prodcc/Installed.antt =====
-- protocol/Prodcc/Prodcc.h: what a commit does to a row, once the write requests that it sends have been
-- handled. The database is a function of the row, with the part of every node in it.
use mathlib.Core.Bool.{false≢true}
use prdcc.Base.{
  ℕ, All, ◌≡◌, refl, sym, ap, ◌∙◌, Bool, true, false, ◌||◌, some, List, [], ◌∷◌, ◌++◌, any, ◌==◌,
  ==_iff, if◌then◌else◌, Bool-cases, inl, inr, any-snoc, or-false,
}
use prdcc.Prodcc.Transaction.{Txn, RwKey}
use prdcc.Prodcc.Message.{Db, Message, Node, handle, store, write_request, write_response}
use prdcc.Prodcc.Finalize.{commit_key, commit_keys}
use prdcc.Prodcc.Cleared.{receive}
use prdcc.Prodcc.Serial.{apply_writes}

-- The value of a row after a message, and after some.
abbrev pub write_of : ℕ → Message → ℕ → ℕ
write_of row (write_request r value tid off) v = if r == row then value else v
write_of row _ v = v

abbrev pub value_after : ℕ → List Message → ℕ → ℕ
value_after row [] v = v
value_after row (x ∷ xs) v = value_after row xs (write_of row x v)

-- A message that writes the row.
abbrev pub sends : ℕ → Message → Bool
sends row (write_request r value tid off) = r == row
sends row _ = false

abbrev pub IsWrite : Message → Type 0
IsWrite (write_request r value tid off) = Unit
IsWrite _ = ⊥

value_after-snoc :
    (row : ℕ) (xs : List Message) (x : Message) (v : ℕ)
    → value_after row (xs ++ x ∷ []) v ≡ write_of row x (value_after row xs v)
value_after-snoc row [] x v = refl
value_after-snoc row (y ∷ ys) x v = value_after-snoc row ys x (write_of row y v)

value_after-quiet :
    (row : ℕ) (xs : List Message) (v : ℕ)
    → All IsWrite xs
    → any (sends row) xs ≡ false
    → value_after row xs v ≡ v
value_after-quiet row [] v a h = refl
value_after-quiet row (write_request r value tid off ∷ xs) v a h = elim (Bool-cases (r == row)) [
  | inl same ↦ absurd (false≢true (sym h ∙ ap (λ b. b || any (sends row) xs) same))
  | inr other ↦
      ap (λ b. value_after row xs (if b then value else v)) other
      ∙ value_after-quiet row xs v a.1 (sym (ap (λ b. b || any (sends row) xs) other) ∙ h)
]
value_after-quiet row (_ ∷ xs) v a h = absurd a.0

All-snoc :
    (xs : List Message) (x : Message) → All IsWrite xs → IsWrite x → All IsWrite (xs ++ x ∷ [])
All-snoc [] x h p = (p, tt)
All-snoc (y ∷ ys) x h p = (h.0, All-snoc ys x h.1 p)

receive-value_after :
    (xs : List Message) (n : Node) (row : ℕ)
    → All IsWrite xs
    → (n' : Node) × (receive xs n ≡ some n') × (n'.db row ≡ value_after row xs (n.db row))
unfolding receive handle
receive-value_after [] n row h = (n, refl, refl)
receive-value_after (write_request r value tid off ∷ xs) n row h =
    receive-value_after xs
      (record n { db = store n.db r value; responses = n.responses ++ write_response tid off ∷ [] })
      row h.1
receive-value_after (_ ∷ xs) n row h = absurd h.0

-- Writes to a database change a row by its own value only.
apply_writes-row :
    (ks : List RwKey) (a b : Db) (row : ℕ)
    → a row ≡ b row
    → apply_writes ks a row ≡ apply_writes ks b row
unfolding apply_writes
apply_writes-row [] a b row h = h
apply_writes-row (k ∷ ks) a b row h =
    apply_writes-row ks (store a k.row k.value) (store b k.row k.value) row
      (ap (λ v. if k.row == row then k.value else v) h)

module _ (is_master : ℕ → Bool) (row : ℕ) where
  -- The messages so far are writes, and none of them is for a row of this node.
  abbrev IsSent : List Message → Type 0
  IsSent out = All IsWrite out × (is_master row ≡ true → any (sends row) out ≡ false)

  commit_key-value :
      (k : RwKey) (t : Txn) (db : Db) (out : List Message)
      → IsSent out
      → let (t', db', out') = commit_key is_master k (t, db, out) in
        IsSent out'
        × (value_after row out' (db' row)
            ≡ store (λ r. value_after row out (db row)) k.row k.value row)
  unfolding commit_key
  commit_key-value k t db out (a, q) = elim (Bool-cases (is_master k.row)) [
    | inl mine ↦ rw mine (
      (a, q),
      elim (Bool-cases (k.row == row)) [
        | inl same ↦ rw same (
            value_after-quiet row out k.value a
              (q (ap is_master (sym ((==_iff k.row row).0 same)) ∙ mine)))
        | inr different ↦ rw different refl
      ],
    )
    | inr other ↦ rw other (
      (All-snoc out _ a tt, λ here. any-snoc (sends row) out _ ∙ unsent here other),
      value_after-snoc row out _ (db row),
    )
  ]
    where
      unsent :
          is_master row ≡ true
          → is_master k.row ≡ false
          → (any (sends row) out || (k.row == row)) ≡ false
      unsent here other = elim (Bool-cases (k.row == row)) [
        | inl same ↦
            absurd (false≢true (sym other ∙ ap is_master ((==_iff k.row row).0 same) ∙ here))
        | inr different ↦
            ap (λ b. any (sends row) out || b) different ∙ or-false (any (sends row) out) ∙ q here
      ]

  commit_keys-value :
      (ks : List RwKey) (t : Txn) (db : Db) (out : List Message)
      → IsSent out
      → let (t', db', out') = commit_keys is_master ks (t, db, out) in
        IsSent out'
        × (value_after row out' (db' row) ≡ apply_writes ks (λ r. value_after row out (db row)) row)
  unfolding commit_keys apply_writes
  commit_keys-value [] t db out h = (h, refl)
  commit_keys-value (k ∷ ks) t db out h =
      let s = commit_key is_master k (t, db, out) in
      let (h', v) = commit_key-value k t db out h in
      let (h'', w) = commit_keys-value ks s.0 s.1 s.2 h' in
      (
        h'',
        w
            ∙ apply_writes-row ks (λ r. value_after row s.2 (s.1 row))
                (store (λ r. value_after row out (db row)) k.row k.value) row v,
      )

-- The commit of a write set, once its messages have been handled, leaves in every row the value that the
-- writes in their order leave, wherever the row is.
pub commit_keys_lem :
    (is_master : ℕ → Bool) (ks : List RwKey) (t : Txn) (n : Node) (row : ℕ)
    → let (t', db', out) = commit_keys is_master ks (t, n.db, []) in
      (n' : Node) × (receive out (record n { db = db' }) ≡ some n')
      × (n'.db row ≡ apply_writes ks n.db row)
commit_keys_lem is_master ks t n row =
    let s = commit_keys is_master ks (t, n.db, []) in
    let (h, w) = commit_keys-value is_master row ks t n.db [] (tt, λ here. refl) in
    let (n', p, q) = receive-value_after s.2 (record n { db = s.1 }) row h.0 in
    (n', p, q ∙ w ∙ apply_writes-row ks (λ r. n.db row) n.db row refl)
