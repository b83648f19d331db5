-- ===== src/Prodcc/Cleared.antt =====
-- protocol/Prodcc/ProdccExecutor.h and Prodcc.h: what a commit and a cleanup do to a row, once the messages
-- that they send have arrived. A row is looked at on its own: the database and the metadata are functions of
-- the row, with the part of every node in them.
use prdcc.Base.{
  ℕ, All, ◌≡◌, refl, ap, ◌∙◌, Bool, true, false, ◌||◌, ◌&&◌, not, Option, none, some, List, [], ◌∷◌,
  ◌++◌, any, ◌==◌, if◌then◌else◌, Bool-cases, inl, inr, any-snoc,
}
use prdcc.Prodcc.Transaction.{Txn, RwKey}
use prdcc.Prodcc.Message.{Meta, Message, Node, handle, store, cleanup_request, cleanup_response}
use prdcc.Prodcc.Finalize.{cleanup_key, cleanup_keys, cleanup_transaction_metadata}

-- The messages handled one after another.
unfoldable pub receive : List Message → Node → Option Node
receive [] n = some n
receive (x ∷ xs) n = elim (handle x n) [ none ↦ none | some n' ↦ receive xs n' ]

-- The row's word after the messages: 0 if one of them clears it.
abbrev pub clears : ℕ → Message → Bool
clears row (cleanup_request r tid off) = r == row
clears row _ = false

abbrev pub word_after : List Message → Meta → Meta
word_after xs m row = if any (clears row) xs then 0 else m row

-- The rows of a key list that a cleanup clears.
abbrev pub touches : ℕ → RwKey → Bool
touches row k = not k.local_index && (k.row == row)

last : (a b : Bool) (w : ℕ) → (if b then 0 else (if a then 0 else w)) ≡ (if a || b then 0 else w)
last true true w = refl
last true false w = refl
last false b w = refl

-- Messages of a cleanup.
abbrev pub IsCleanup : Message → Type 0
IsCleanup (cleanup_request r tid off) = Unit
IsCleanup _ = ⊥

All-snoc :
    (xs : List Message) (x : Message)
    → All IsCleanup xs
    → IsCleanup x
    → All IsCleanup (xs ++ x ∷ [])
All-snoc [] x h p = (p, tt)
All-snoc (y ∷ ys) x h p = (h.0, All-snoc ys x h.1 p)

receive-word_after :
    (xs : List Message) (n : Node) (row : ℕ)
    → All IsCleanup xs
    → (n' : Node) × (receive xs n ≡ some n') × (n'.metadata row ≡ word_after xs n.metadata row)
unfolding receive handle
receive-word_after [] n row h = (n, refl, refl)
receive-word_after (cleanup_request r tid off ∷ xs) n row h =
    let m = record n {
      metadata = store n.metadata r 0;
      responses = n.responses ++ cleanup_response tid off ∷ [];
    } in
    let (n', p, q) = receive-word_after xs m row h.1 in
    (n', p, q ∙ last (r == row) (any (clears row) xs) (n.metadata row))
receive-word_after (_ ∷ xs) n row h = absurd h.0

module _ (is_master : ℕ → Bool) where
  cleanup_key-word :
      (k : RwKey) (t : Txn) (m : Meta) (out : List Message) (row : ℕ)
      → let (t', m', out') = cleanup_key is_master k (t, m, out) in
        word_after out' m' row ≡ (if touches row k then 0 else word_after out m row)
  unfolding cleanup_key
  cleanup_key-word k t m out row = elim (Bool-cases k.local_index) [
    | inl index ↦ rw index refl
    | inr plain ↦ elim (Bool-cases (is_master k.row)) [
      | inl mine ↦ rw (plain, mine) (either (k.row == row) (any (clears row) out) (m row))
      | inr other ↦
          rw (plain, other)
            (ap (λ b. if b then 0 else m row)
                (any-snoc (clears row) out (cleanup_request k.row _ _))
              ∙ sent (k.row == row) (any (clears row) out) (m row))
    ]
  ]
    where
      either :
          (a b : Bool) (w : ℕ)
          → (if b then 0 else (if a then 0 else w)) ≡ (if a then 0 else (if b then 0 else w))
      either true true w = refl
      either true false w = refl
      either false b w = refl

      sent :
          (a b : Bool) (w : ℕ) → (if b || a then 0 else w) ≡ (if a then 0 else (if b then 0 else w))
      sent true true w = refl
      sent true false w = refl
      sent false true w = refl
      sent false false w = refl

  cleanup_key-IsCleanup :
      (k : RwKey) (t : Txn) (m : Meta) (out : List Message)
      → All IsCleanup out
      → All IsCleanup (cleanup_key is_master k (t, m, out)).2
  unfolding cleanup_key
  cleanup_key-IsCleanup k t m out h = elim (Bool-cases k.local_index) [
    | inl index ↦ rw index h
    | inr plain ↦ elim (Bool-cases (is_master k.row)) [
      | inl mine ↦ rw (plain, mine) h
      | inr other ↦ rw (plain, other) (All-snoc out _ h tt)
    ]
  ]

  cleanup_keys-word :
      (ks : List RwKey) (t : Txn) (m : Meta) (out : List Message) (row : ℕ)
      → All IsCleanup out
      → let (t', m', out') = cleanup_keys is_master ks (t, m, out) in
        All IsCleanup out'
        × (word_after out' m' row ≡ (if any (touches row) ks then 0 else word_after out m row))
  unfolding cleanup_keys
  cleanup_keys-word [] t m out row h = (h, refl)
  cleanup_keys-word (k ∷ ks) t m out row h =
      let s = cleanup_key is_master k (t, m, out) in
      let (a, w) = cleanup_keys-word ks s.0 s.1 s.2 row (cleanup_key-IsCleanup k t m out h) in
      (
        a,
        w
            ∙ ap (λ x. if any (touches row) ks then 0 else x) (cleanup_key-word k t m out row)
            ∙ last (touches row k) (any (touches row) ks) (word_after out m row),
      )

  -- The cleanup of a transaction, once its messages have been handled, clears the word of every row that it
  -- read, other than by a local index, or wrote, wherever the row is; no other word changes.
  pub cleanup_transaction_metadata_lem :
      (t : Txn) (n : Node) (row : ℕ)
      → let (t', m', out) = cleanup_transaction_metadata is_master (t, n.metadata, []) in
        (n' : Node) × (receive out (record n { metadata = m' }) ≡ some n')
        × (n'.metadata row ≡ (
            if any (touches row) t.read_set || any (touches row) t.write_set
            then 0
            else n.metadata row))
  unfolding cleanup_transaction_metadata
  cleanup_transaction_metadata_lem t n row =
      let s = cleanup_keys is_master t.read_set (t, n.metadata, []) in
      let (a, w) = cleanup_keys-word t.read_set t n.metadata [] row tt in
      let (a', w') = cleanup_keys-word t.write_set s.0 s.1 s.2 row a in
      let s' = cleanup_keys is_master t.write_set s in
      let (n', p, q) = receive-word_after s'.2 (record n { metadata = s'.1 }) row a' in
      (
        n',
        p,
        q
            ∙ w'
            ∙ ap (λ x. if any (touches row) t.write_set then 0 else x) w
            ∙ last (any (touches row) t.read_set) (any (touches row) t.write_set) (n.metadata row),
      )
