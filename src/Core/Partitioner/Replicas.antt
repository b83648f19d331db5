-- ===== src/Core/Partitioner/Replicas.antt =====
-- core/Partitioner.h: the number of coordinators that a partition stands on.
use native.Mathlib.Nat.{mod-lt, mod-eq_of_lt, mod-eq-sub-mod}
use native.Mathlib.Decide.{dec_lt}
use prdcc.Base.{
  ℕ, zero, suc, min, ◌⊎◌, ◌≢◌, ◌+◌, ◌-◌, ◌%◌, ◌≤◌, ◌<◌, ◌≡◌, refl, sym, ap, ◌∙◌, Bool, true, ◌&&◌,
  ◌||◌, ltb, leb, ◌==◌, ==_iff, subst, arith, inl, inr, if◌then◌else◌,
}
use prdcc.Core.Partitioner.{
  Partitioner, hash, primary_backup, star_s, star_c, is_allowed, replica_num, in_ring, secondary,
  is_partition_replicated_on,
}

-- How many of the coordinators below `n` the test holds for.
abbrev pub hosts : (ℕ → Bool) → ℕ → ℕ
hosts test zero = 0
hosts test (suc n) = (if test n then 1 else 0) + hosts test n

-- The coordinators below `k` in a stretch that does not wrap, and in one that does.
hosts-stretch : (a b k : ℕ) → hosts (λ c. leb a c && leb c b) k ≡ min k (suc b) - a
hosts-stretch a b zero = omega arith
hosts-stretch a b (suc k) = ground (arith, hosts-stretch a b k)

hosts-wrap : (a b k : ℕ) → b < a → hosts (λ c. leb a c || leb c b) k ≡ (k - a) + min k (suc b)
hosts-wrap a b zero h = omega arith
hosts-wrap a b (suc k) h = ground (arith, hosts-wrap a b k h)

-- The stretch of the replicas wraps, or it does not.
last-mod : (l m : ℕ) → l < m + m → ((l < m) × (l % m ≡ l)) ⊎ ((m ≤ l) × (l % m ≡ l - m))
last-mod l m h = elim (dec_lt l m) [
  | yes p ↦ inl (p, mod-eq_of_lt p)
  | no p ↦ inr (omega arith, mod-eq-sub-mod (omega arith) ∙ mod-eq_of_lt (omega arith))
]

hosts-cong : (f g : ℕ → Bool) (k : ℕ) → ((c : ℕ) → f c ≡ g c) → hosts f k ≡ hosts g k
hosts-cong f g zero e = refl
hosts-cong f g (suc k) e = rw (e k) (ap (λ h. (if g k then 1 else 0) + h) (hosts-cong f g k e))

-- From any first coordinator on, a ring of `m` coordinators has `n` replicas.
pub hosts-in_ring : (a n m : ℕ) → a < m → 0 < n → n ≤ m → hosts (in_ring a n m) m ≡ n
unfolding in_ring
hosts-in_ring a n m h p q = elim (last-mod (a + n - 1) m (omega arith)) [
  | inl (lt, e) ↦
      hosts-cong (in_ring a n m) (λ c. leb a c && leb c (a + n - 1)) m
        (λ c. ground (arith, e, p, h))
      ∙ hosts-stretch a (a + n - 1) m
      ∙ omega arith
  | inr (ge, e) ↦
      hosts-cong (in_ring a n m) (λ c. leb a c || leb c (a + n - 1 - m)) m
        (λ c. ground (arith, e, p, h, ge, q))
      ∙ hosts-wrap a (a + n - 1 - m) m (omega arith)
      ∙ omega arith
]

-- A coordinator below `m`, and two of them.
hosts-point : (a k : ℕ) → hosts (λ c. c == a) k ≡ (if ltb a k then 1 else 0)
hosts-point a zero = ground arith
hosts-point a (suc k) = ground (arith, hosts-point a k)

hosts-pair : (a b k : ℕ) → a < k → b < k → a ≢ b → hosts (λ c. (c == a) || (c == b)) k ≡ 2
hosts-pair a b k p q n = split k ∙ ground (arith, hosts-point a k, hosts-point b k)
  where
    split :
        (j : ℕ)
        → hosts (λ c. (c == a) || (c == b)) j ≡ hosts (λ c. c == a) j + hosts (λ c. c == b) j
    split zero = omega arith
    split (suc j) = ground (arith, split j, n)

-- On each of the partitioners that the factory can make, a partition stands on exactly `replica_num` of
-- the coordinators.
pub hosts-replica_num :
    (p : Partitioner) (coordinator_num partition_id : ℕ)
    → is_allowed p coordinator_num ≡ true
    → hosts (is_partition_replicated_on p coordinator_num partition_id) coordinator_num
      ≡ replica_num p
unfolding is_allowed replica_num is_partition_replicated_on secondary
hosts-replica_num (hash n) m i h =
    hosts-in_ring (i % m) n m (mod-lt i (ground (arith, h))) (ground (arith, h)) (ground (arith, h))
hosts-replica_num primary_backup m i h =
    subst (λ k. hosts (λ c. true) k ≡ 2) (sym ((==_iff m 2).0 h)) refl
hosts-replica_num star_s m i h =
    hosts-pair (i % m) (secondary m i) m (mod-lt i (ground (arith, h)))
      (ground (arith, h, mod-lt i {m = m - 1} (ground (arith, h)))) (ground (arith, h))
hosts-replica_num star_c m i h =
    hosts-cong (is_partition_replicated_on star_c m i) (λ c. (c == 0) || (c == (i % (m - 1) + 1))) m
      (λ c. ground arith)
    ∙ hosts-pair 0 (i % (m - 1) + 1) m (ground (arith, h))
        (ground (arith, h, mod-lt i {m = m - 1} (ground (arith, h)))) (omega arith)
