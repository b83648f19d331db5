-- ===== src/Prodcc/L2Verifier/Tree.antt =====
-- protocol/Prodcc/L2Verifier.h: the std::set of the hashes, its insertions and its search.
use prdcc.Base.{
  ℕ, ◌≤◌, ◌<◌, ◌≡◌, refl, sym, inl, inr, List, [], ◌∷◌, In, subst, ltb, leb, arith, Bool-cases,
  some,
}
use prdcc.Prodcc.L2Verifier.{hash_func, insert_hash, build_tree, build, lower_bound}

abbrev pub IsSorted : List ℕ → Type 0
IsSorted [] = Unit
IsSorted (x ∷ xs) = ((y : ℕ) → In y xs → x < y) × IsSorted xs

insert_hash-In : (h : ℕ) (xs : List ℕ) → In h (insert_hash h xs)
unfolding insert_hash
insert_hash-In h [] = inl refl
insert_hash-In h (x ∷ xs) = elim (Bool-cases (ltb h x)) [
  | inl e ↦ rw e (inl refl)
  | inr e ↦ elim (Bool-cases (ltb x h)) [
    | inl o ↦ rw (e, o) (inr (insert_hash-In h xs))
    | inr o ↦ rw (e, o) (inl (ground (arith, e, o)))
  ]
]

In-insert_hash : (h y : ℕ) (xs : List ℕ) → In y xs → In y (insert_hash h xs)
unfolding insert_hash
In-insert_hash h y [] m = absurd m
In-insert_hash h y (x ∷ xs) m = elim (Bool-cases (ltb h x)) [
  | inl e ↦ rw e (inr m)
  | inr e ↦ elim (Bool-cases (ltb x h)) [
    | inl o ↦ rw (e, o) (elim m [ inl a ↦ inl a | inr b ↦ inr (In-insert_hash h y xs b) ])
    | inr o ↦ rw (e, o) m
  ]
]

insert_hash-above :
    (x h : ℕ) (xs : List ℕ)
    → x < h
    → ((y : ℕ) → In y xs → x < y)
    → (y : ℕ) → In y (insert_hash h xs)
    → x < y
unfolding insert_hash
insert_hash-above x h [] p a = λ y m. elim m [ inl e ↦ omega arith | inr e ↦ absurd e ]
insert_hash-above x h (z ∷ zs) p a = elim (Bool-cases (ltb h z)) [
  | inl e ↦ rw e (λ y m. elim m [ inl q ↦ omega arith | inr r ↦ a y r ])
  | inr e ↦ elim (Bool-cases (ltb z h)) [
    | inl o ↦
        rw (e, o)
          (λ y m. elim m [
            | inl q ↦ a y (inl q)
            | inr r ↦ insert_hash-above x h zs p (λ w n. a w (inr n)) y r
          ])
    | inr o ↦ rw (e, o) a
  ]
]

insert_hash-IsSorted : (h : ℕ) (xs : List ℕ) → IsSorted xs → IsSorted (insert_hash h xs)
unfolding insert_hash
insert_hash-IsSorted h [] s = ((λ y m. absurd m), tt)
insert_hash-IsSorted h (x ∷ xs) s = elim (Bool-cases (ltb h x)) [
  | inl e ↦ rw e (
    λ y m. elim m [
      | inl q ↦ ground (arith, e, q)
      | inr r ↦ let lt = s.0 y r in ground (arith, e, lt)
    ],
    s,
  )
  | inr e ↦ elim (Bool-cases (ltb x h)) [
    | inl o ↦
        rw (e, o) (insert_hash-above x h xs (ground (arith, o)) s.0, insert_hash-IsSorted h xs s.1)
    | inr o ↦ rw (e, o) s
  ]
]

build_tree-lem :
    (tree keys : List ℕ)
    → IsSorted tree
    → IsSorted (build_tree tree keys)
      × ((y : ℕ) → In y tree → In y (build_tree tree keys))
      × ((k : ℕ) → In k keys → In (hash_func k) (build_tree tree keys))
unfolding build_tree
build_tree-lem tree [] s = (s, (λ y m. m), (λ k m. absurd m))
build_tree-lem tree (key ∷ keys) s =
    let (a, b, c) =
      build_tree-lem (insert_hash (hash_func key) tree) keys
        (insert_hash-IsSorted (hash_func key) tree s) in
    (
      a,
      (λ y m. b y (In-insert_hash (hash_func key) y tree m)),
      (λ k m. elim m [
        | inl e ↦ b (hash_func k) (
            subst (λ j. In (hash_func j) (insert_hash (hash_func key) tree)) (sym e)
              (insert_hash-In (hash_func key) tree))
        | inr n ↦ c k n
      ]),
    )

pub build-IsSorted : (keys : List ℕ) → IsSorted (build keys)
unfolding build
build-IsSorted keys = (build_tree-lem [] keys tt).0

pub build-In : (keys : List ℕ) (k : ℕ) → In k keys → In (hash_func k) (build keys)
unfolding build
build-In keys k m = (build_tree-lem [] keys tt).2 k m

-- The search of a sorted tree stops at or before any element that is not below its start.
pub lower_bound-le :
    (xs : List ℕ) (h x : ℕ)
    → IsSorted xs
    → In x xs
    → h ≤ x
    → (y : ℕ) × (lower_bound xs h ≡ some y) × (y ≤ x)
unfolding lower_bound
lower_bound-le [] h x s m p = absurd m
lower_bound-le (z ∷ zs) h x s m p = elim (Bool-cases (leb h z)) [
  | inl e ↦ rw e (z, refl, elim m [ inl q ↦ omega arith | inr r ↦ omega (arith, s.0 x r) ])
  | inr e ↦
      rw e (elim m [
        | inl q ↦ absurd (ground (arith, e, q, p))
        | inr r ↦ lower_bound-le zs h x s.1 r p
      ])
]
