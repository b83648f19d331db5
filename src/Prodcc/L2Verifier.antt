-- ===== src/Prodcc/L2Verifier.antt =====
-- protocol/Prodcc/L2Verifier.h: the second filter, the set of the keys' positions on a ring of `ring`
-- places. `alpha_` is 1 and `beta_` is 0, as the constructor leaves them; a sum is cut to 64 bits.
-- The std::set is the sorted list of its elements.
pub mod Tree
pub mod Narrow
use prdcc.Base.{
  ℕ, ◌+◌, ◌*◌, ◌/◌, ◌%◌, ◌^◌, Bool, true, false, List, [], ◌∷◌, ltb, leb, if◌then◌else◌, Option,
  none, some,
}

abbrev pub ring : ℕ
ring = 16777216

abbrev pub prime : ℕ
prime = 2305843009213693951

abbrev pub alpha : ℕ
alpha = 1

abbrev pub beta : ℕ
beta = 0

pub data L2Result : Type 0 where
  no_conflict conflict : L2Result

unfoldable pub q_func : ℕ → ℕ
q_func y = (((alpha * y + beta) % (2 ^ 64)) % prime) % ring

unfoldable pub hash_func : ℕ → ℕ
hash_func x = ((q_func (x / ring) + x) % (2 ^ 64)) % ring

-- `insert` of a std::set: the elements stay sorted and each is there once.
unfoldable pub insert_hash : ℕ → List ℕ → List ℕ
insert_hash h [] = h ∷ []
insert_hash h (x ∷ xs) =
    if ltb h x then h ∷ x ∷ xs else if ltb x h then x ∷ insert_hash h xs else x ∷ xs

unfoldable pub build_tree : List ℕ → List ℕ → List ℕ
build_tree tree [] = tree
build_tree tree (key ∷ keys) = build_tree (insert_hash (hash_func key) tree) keys

unfoldable pub build : List ℕ → List ℕ
build keys = build_tree [] keys

-- The first element that is not below `h`.
unfoldable pub lower_bound : List ℕ → ℕ → Option ℕ
lower_bound [] h = none
lower_bound (x ∷ xs) h = if leb h x then some x else lower_bound xs h

unfoldable pub at_most : Option ℕ → ℕ → Bool
at_most none h = false
at_most (some x) h = leb x h

unfoldable pub is_found : Option ℕ → Bool
is_found none = false
is_found (some x) = true

unfoldable pub query : List ℕ → ℕ → ℕ → L2Result
query tree start end =
    let h_start = hash_func start in
    let h_end = hash_func end in
    if leb h_start h_end
    then if at_most (lower_bound tree h_start) h_end then conflict else no_conflict
    else if at_most (lower_bound tree 0) h_end
    then conflict
    else if is_found (lower_bound tree h_start)
    then conflict
    else no_conflict
