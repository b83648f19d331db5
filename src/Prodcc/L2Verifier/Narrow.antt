-- ===== src/Prodcc/L2Verifier/Narrow.antt =====
-- protocol/Prodcc/L2Verifier.h: queries over a range that is narrower than the ring.
use native.Mathlib.Decide.{dec_le}
use prdcc.Base.{ℕ, ◌+◌, ◌/◌, ◌%◌, ◌^◌, ◌≤◌, ◌<◌, ◌≡◌, refl, ◌⊎◌, inl, inr, true, List, In, arith}
use prdcc.Prodcc.L2Verifier.{
  ring, q_func, hash_func, build, lower_bound, at_most, is_found, query, conflict,
}
use prdcc.Prodcc.L2Verifier.Tree.{IsSorted, build-IsSorted, build-In, lower_bound-le}

hash_func-ring : (x : ℕ) → x < 2 ^ 64 → hash_func x ≡ (x / ring + x) % ring
unfolding q_func hash_func
hash_func-ring x h = omega arith

-- Of three places that are less than a turn apart, the ring has the middle one between the other two.
between :
    (u v t : ℕ)
    → u ≤ v
    → v ≤ t
    → t < u + ring
    → ((u % ring ≤ v % ring) × (v % ring ≤ t % ring))
      ⊎ ((t % ring < u % ring) × ((v % ring ≤ t % ring) ⊎ (u % ring ≤ v % ring)))
between u v t p q w = elim (dec_le (u % ring) (t % ring)) [
  | yes e ↦ inl (omega arith, omega arith)
  | no e ↦ inr (
    omega arith,
    elim (dec_le (v % ring) (t % ring)) [ yes f ↦ inl f | no f ↦ inr (omega arith) ],
  )
]

found_above :
    (tree : List ℕ) (h e x : ℕ)
    → IsSorted tree
    → In x tree
    → h ≤ x
    → x ≤ e
    → at_most (lower_bound tree h) e ≡ true
unfolding at_most
found_above tree h e x s m p q =
    let (y, eq, le) = lower_bound-le tree h x s m p in rw eq (ground (arith, le, q))

found_any :
    (tree : List ℕ) (h x : ℕ)
    → IsSorted tree
    → In x tree
    → h ≤ x
    → is_found (lower_bound tree h) ≡ true
unfolding is_found
found_any tree h x s m p = let (y, eq, le) = lower_bound-le tree h x s m p in rw eq refl

-- A query over a range of fewer than `ring` keys, of keys below 2 ^ 64, finds every key of the list that is
-- in it.
pub query-narrow :
    (keys : List ℕ) (key start end : ℕ)
    → In key keys
    → start ≤ key
    → key ≤ end
    → end < 2 ^ 64
    → end + 2 ≤ start + ring
    → query (build keys) start end ≡ conflict
unfolding query
query-narrow keys key start end m p q h w =
    elim (between (start / ring + start) (key / ring + key) (end / ring + end) (omega arith)
      (omega arith) (omega arith)) [
        | inl (lo, hi) ↦ ground (
          arith,
          a,
          k,
          b,
          lo,
          hi,
          found_above (build keys) (hash_func start) (hash_func end) (hash_func key) tree inside
              (omega (arith, a, k, lo)) (omega (arith, k, b, hi)),
        )
        | inr (wraps, side) ↦ elim side [
          | inl hi ↦ ground (
            arith,
            a,
            b,
            wraps,
            found_above (build keys) 0 (hash_func end) (hash_func key) tree inside (omega arith)
                (omega (arith, k, b, hi)),
          )
          | inr lo ↦ ground (
            arith,
            a,
            b,
            wraps,
            found_any (build keys) (hash_func start) (hash_func key) tree inside
                (omega (arith, a, k, lo)),
          )
        ]
      ]
  where
    a : hash_func start ≡ (start / ring + start) % ring
    a = hash_func-ring start (omega arith)

    k : hash_func key ≡ (key / ring + key) % ring
    k = hash_func-ring key (omega arith)

    b : hash_func end ≡ (end / ring + end) % ring
    b = hash_func-ring end h

    tree : IsSorted (build keys)
    tree = build-IsSorted keys

    inside : In (hash_func key) (build keys)
    inside = build-In keys key m
