-- ===== src/Core/MvccTable/Write.antt =====
-- core/Table.h: two writes to one version.
use prdcc.Base.{
  ℕ, ◌≡◌, refl, sym, ap, ◌∙◌, inl, inr, true, List, [], ◌∷◌, Option, none, some, ◌>>=◌, ◌==◌,
  ==_iff, Bool-cases, Option-cases, arith,
}
use prdcc.Common.MvccHashMap.{Version, put}
use prdcc.Core.MvccTable.{
  Cell, MvccTable, write_version, write_key, update_begin, update_end, update, set_metadata,
  deserialize_value,
}

pub none≢some {ℓ} : {A : Type ℓ} {a : A} → none ≡ some a → ⊥
none≢some h = ground (arith, h)

-- Two writes to a version are one.
pub write_version_twice :
    (v : ℕ) (g h : Cell → Cell) (l l' : List (Version Cell))
    → write_version v (λ c. h (g c)) l ≡ some l'
    → (l1 : List (Version Cell)) × (write_version v g l ≡ some l1)
      × (write_version v h l1 ≡ some l')
unfolding write_version
write_version_twice v g h [] l' e = absurd (none≢some e)
write_version_twice v g h (vt ∷ l) l' e = elim (Bool-cases (vt.version == v)) [
  | inl hit ↦
      let e' : some (record vt { value = h (g vt.value) } ∷ l) ≡ some l' = rw hit at e in
      (record vt { value = g vt.value } ∷ l, rw hit refl, rw hit e')
  | inr miss ↦ elim (Option-cases (write_version v (λ c. h (g c)) l)) [
    | inl q ↦ let e' = rw (miss, q) at e in absurd (none≢some e')
    | inr (r, q) ↦
        let e' : some (vt ∷ r) ≡ some l' = rw (miss, q) at e in
        let (l1, a, b) = write_version_twice v g h l r q in
        (vt ∷ l1, rw (miss, a) refl, rw (miss, b) e')
  ]
]

pub write_key-some :
    (table : MvccTable) (row v : ℕ) (f : Cell → Cell) (l l' : List (Version Cell))
    → table row ≡ some l
    → write_version v f l ≡ some l'
    → write_key table row v f ≡ some (put table row (some l'))
unfolding write_key
write_key-some table row v f l l' e q = rw (write_key, e, q) refl

write_version-none :
    (v : ℕ) (f g : Cell → Cell) (l : List (Version Cell))
    → write_version v f l ≡ none
    → write_version v g l ≡ none
unfolding write_version
write_version-none v f g [] e = refl
write_version-none v f g (vt ∷ l) e = elim (Bool-cases (vt.version == v)) [
  | inl hit ↦ absurd (none≢some (sym (rw hit at e)))
  | inr miss ↦ elim (Option-cases (write_version v f l)) [
    | inl q ↦ rw (miss, write_version-none v f g l q) refl
    | inr (r, q) ↦ absurd (none≢some (sym (rw (miss, q) at e)))
  ]
]

put-put :
    (table : MvccTable) (row : ℕ) (o o' : Option (List (Version Cell)))
    → put (put table row o) row o' ≡ put table row o'
put-put table row o o' = λ n k. at k n
  where
    at : (k : ℕ) → put (put table row o) row o' k ≡ put table row o' k
    at k = elim (Bool-cases (k == row)) [ inl e ↦ rw e refl | inr e ↦ rw e refl ]

pub write_key_fuse :
    (table : MvccTable) (row v : ℕ) (g h : Cell → Cell)
    → (write_key table row v g >>= λ s. write_key s row v h) ≡ write_key table row v (λ c. h (g c))
unfolding write_key
write_key_fuse table row v g h = elim (Option-cases (table row)) [
  | inl q ↦ rw (write_key, q) refl
  | inr (l, q) ↦ elim (Option-cases (write_version v (λ c. h (g c)) l)) [
    | inl e ↦ let e' = write_version-none v (λ c. h (g c)) g l e in rw (write_key, q, e, e') refl
    | inr (l', e) ↦
        let (l1, e1, e2) = write_version_twice v g h l l' e in
        let self : (row == row) ≡ true = (==_iff row row).1 refl in
        ap (λ (o : Option MvccTable). o >>= λ s. write_key s row v h)
          (write_key-some table row v g l l1 q e1)
        ∙ write_key-some (put table row (some l1)) row v h l1 l' (rw self refl) e2
        ∙ ap (λ t. some t) (put-put table row (some l1) (some l'))
        ∙ sym (write_key-some table row v (λ c. h (g c)) l l' q e)
  ]
]

-- Both stores of `update` as one write.
pub update-write_key :
    (table : MvccTable) (row value version : ℕ)
    → update table row value version
      ≡ write_key table row version (λ c. record { placeholder = 0; value = value })
unfolding update update_begin update_end
update-write_key table row value version =
    write_key_fuse table row version (λ c. record c { placeholder = 0 })
      (λ c. record c { value = value })

-- A local commit is `update` and then the ready placeholder, a remote one is `deserialize_value` and then the
-- ready placeholder: both leave the same table.
pub update-deserialize_value :
    (table : MvccTable) (row value tid : ℕ)
    → (update table row value tid >>= λ s. set_metadata s row tid 0)
      ≡ (deserialize_value table row value tid >>= λ s. set_metadata s row tid 0)
unfolding deserialize_value set_metadata
update-deserialize_value table row value tid =
    ap (λ (o : Option MvccTable). o >>= λ s. set_metadata s row tid 0)
      (update-write_key table row value tid)
    ∙ write_key_fuse table row tid (λ c. record { placeholder = 0; value = value })
        (λ c. record c { placeholder = 0 })
    ∙ sym (
        write_key_fuse table row tid (λ c. record c { value = value })
          (λ c. record c { placeholder = 0 }))
