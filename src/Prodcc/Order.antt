-- ===== src/Prodcc/Order.antt =====
-- A list of transactions put in the order of a rank: the serial order of the transactions of a
-- micro-block that commit (protocol/Prodcc/ProdccExecutor.h).
use prdcc.Base.{
  ℕ, ◌<◌, ◌≡◌, ◌≢◌, refl, sym, ◌↔◌, ◌⊎◌, inl, inr, List, [], ◌∷◌, In, ltb, ltb→lt, if◌then◌else◌,
  arith, Bool-cases, subst,
}
use prdcc.Prodcc.Transaction.{Txn}

module _ (rank_of : Txn → ℕ) where
  unfoldable pub insert : Txn → List Txn → List Txn
  insert t [] = t ∷ []
  insert t (u ∷ us) = if ltb (rank_of t) (rank_of u) then t ∷ u ∷ us else u ∷ insert t us

  unfoldable pub serial_order : List Txn → List Txn
  serial_order [] = []
  serial_order (t ∷ ts) = insert t (serial_order ts)

  abbrev pub IsOrdered : List Txn → Type 0
  IsOrdered [] = Unit
  IsOrdered (t ∷ ts) = ((u : Txn) → In u ts → rank_of t < rank_of u) × IsOrdered ts

  abbrev pub IsApart : List Txn → Type 0
  IsApart [] = Unit
  IsApart (t ∷ ts) = ((u : Txn) → In u ts → rank_of t ≢ rank_of u) × IsApart ts

  In-insert : (x t : Txn) (us : List Txn) → In x (insert t us) ↔ ((x ≡ t) ⊎ In x us)
  unfolding insert
  In-insert x t [] = (λ h. h, λ h. h)
  In-insert x t (u ∷ us) = elim (Bool-cases (ltb (rank_of t) (rank_of u))) [
    | inl before ↦ rw before (λ h. h, λ h. h)
    | inr after ↦ rw after (
      λ h. elim h [
        | inl p ↦ inr (inl p)
        | inr i ↦ elim ((In-insert x t us).0 i) [ inl q ↦ inl q | inr j ↦ inr (inr j) ]
      ],
      λ h. elim h [
        | inl q ↦ inr ((In-insert x t us).1 (inl q))
        | inr j ↦ elim j [ inl p ↦ inl p | inr i ↦ inr ((In-insert x t us).1 (inr i)) ]
      ],
    )
  ]

  -- Nothing is lost or made up.
  pub In-serial_order : (x : Txn) (ts : List Txn) → In x (serial_order ts) ↔ In x ts
  unfolding serial_order
  In-serial_order x [] = (λ h. h, λ h. h)
  In-serial_order x (t ∷ ts) = (
    λ h. elim ((In-insert x t (serial_order ts)).0 h) [
      | inl p ↦ inl p
      | inr i ↦ inr ((In-serial_order x ts).0 i)
    ],
    λ h.
        (In-insert x t (serial_order ts)).1
          (elim h [ inl p ↦ inl p | inr i ↦ inr ((In-serial_order x ts).1 i) ]),
  )

  insert-IsOrdered :
      (t : Txn) (us : List Txn)
      → IsOrdered us
      → ((u : Txn) → In u us → rank_of t ≢ rank_of u)
      → IsOrdered (insert t us)
  unfolding insert
  insert-IsOrdered t [] o apart = (λ u i. absurd i, tt)
  insert-IsOrdered t (u ∷ us) o apart = elim (Bool-cases (ltb (rank_of t) (rank_of u))) [
    | inl before ↦
        let lt = ltb→lt (rank_of t) (rank_of u) before in
        rw before (
          λ x i. elim i [
            | inl p ↦ subst (λ y. rank_of t < rank_of y) (sym p) lt
            | inr j ↦ let q = o.0 x j in omega arith
          ],
          o,
        )
    | inr after ↦
        let ne = apart u (inl refl) in
        let lt : rank_of u < rank_of t = ground arith in
        rw after (
          λ x i. elim ((In-insert x t us).0 i) [
            | inl p ↦ subst (λ y. rank_of u < rank_of y) (sym p) lt
            | inr j ↦ o.0 x j
          ],
          insert-IsOrdered t us o.1 (λ x j. apart x (inr j)),
        )
  ]

  pub serial_order-IsOrdered : (ts : List Txn) → IsApart ts → IsOrdered (serial_order ts)
  unfolding serial_order
  serial_order-IsOrdered [] a = tt
  serial_order-IsOrdered (t ∷ ts) a =
      insert-IsOrdered t (serial_order ts) (serial_order-IsOrdered ts a.1)
        (λ u i. a.0 u ((In-serial_order u ts).0 i))
