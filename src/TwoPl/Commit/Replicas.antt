-- ===== src/TwoPl/Commit/Replicas.antt =====
-- protocol/TwoPL/TwoPL.h: how many responses `write_and_replicate` waits for.
use prdcc.Base.{
  ℕ, zero, suc, ◌+◌, ◌*◌, ◌<◌, ◌≡◌, refl, ap, Bool, true, not, ◌&&◌, ◌==◌, ==_iff, ltb, arith, List,
  [], ◌∷◌, length, if◌then◌else◌, Bool-cases, inl, inr,
}
use native.Mathlib.Nat.{mod-lt}
use prdcc.Core.Partitioner.{
  Partitioner, hash, primary_backup, star_s, star_c, is_allowed, replica_num, master_coordinator,
  has_master_partition, is_partition_replicated_on, in_ring,
}
use prdcc.Core.Partitioner.Replicas.{hosts, hosts-replica_num}
use prdcc.TwoPl.Transaction.{LockKey}
use prdcc.TwoPl.Commit.{Node, is_copy, replicate_to, replicate_loop, write_key, write_and_replicate}

hosts-without :
    (f : ℕ → Bool) (c n : ℕ)
    → hosts f n ≡ hosts (λ k. f k && not (k == c)) n + (if f c && ltb c n then 1 else 0)
hosts-without f c zero = ground arith
hosts-without f c (suc n) = elim (Bool-cases (n == c)) [
  | inl e ↦ ground (arith, e, ap f ((==_iff n c).0 e), hosts-without f c n)
  | inr e ↦ ground (arith, e, hosts-without f c n)
]

hosts-at : (f : ℕ → Bool) (j k : ℕ) → j ≡ k → hosts f j ≡ hosts f k
hosts-at f j k e = ap (hosts f) e

-- The master of a partition is a coordinator and one of its hosts.
pub master_coordinator-hosts :
    (p : Partitioner) (coordinator_num partition_id : ℕ)
    → is_allowed p coordinator_num ≡ true
    → (master_coordinator p coordinator_num partition_id < coordinator_num)
      × (is_partition_replicated_on p coordinator_num partition_id
            (master_coordinator p coordinator_num partition_id)
          ≡ true)
unfolding is_allowed master_coordinator is_partition_replicated_on in_ring
master_coordinator-hosts (hash n) m i h = (mod-lt i (ground (arith, h)), ground (arith, h))
master_coordinator-hosts primary_backup m i h = (ground (arith, h), refl)
master_coordinator-hosts star_s m i h = (mod-lt i (ground (arith, h)), ground arith)
master_coordinator-hosts star_c m i h = (ground (arith, h), refl)

has_master_partition-master_coordinator :
    (p : Partitioner) (coordinator_num me partition_id : ℕ)
    → has_master_partition p coordinator_num me partition_id
      ≡ (me == master_coordinator p coordinator_num partition_id)
unfolding has_master_partition master_coordinator
has_master_partition-master_coordinator (hash n) m me i = ground arith
has_master_partition-master_coordinator primary_backup m me i = ground arith
has_master_partition-master_coordinator star_s m me i = ground arith
has_master_partition-master_coordinator star_c m me i = ground arith

module _ (p : Partitioner) (coordinator_num me : ℕ) (partition_of : ℕ → ℕ) where
  abbrev sends : ℕ → ℕ → Bool
  sends partition c = is_copy p coordinator_num me partition_of partition c && not (c == me)

  replicate_loop-pending :
      (tid : ℕ) (key : LockKey) (k count : ℕ) (s : Node)
      → (replicate_loop p coordinator_num me partition_of tid key k count s).pending_responses
          + hosts (sends (partition_of key.row)) k
        ≡ s.pending_responses + hosts (sends (partition_of key.row)) (k + count)
  unfolding replicate_loop replicate_to
  replicate_loop-pending tid key k zero s =
      omega (arith, hosts-at (sends (partition_of key.row)) (k + 0) k (omega arith))
  replicate_loop-pending tid key k (suc count) s =
      let f = sends (partition_of key.row) in
      ground (
        arith,
        replicate_loop-pending tid key (k + 1) count
            (replicate_to p coordinator_num me partition_of tid key k s),
        hosts-at f (k + 1) (suc k) (omega arith),
        hosts-at f (k + suc count) (k + 1 + count) (omega arith),
      )

  -- The responses that one key is waited for: one for each copy on another node, the master's included.
  sends-hosts :
      (partition : ℕ)
      → is_allowed p coordinator_num ≡ true
      → me < coordinator_num
      → hosts (sends partition) coordinator_num
          + (if has_master_partition p coordinator_num me partition then 0 else 1)
          + (if is_partition_replicated_on p coordinator_num partition me then 1 else 0)
        ≡ replica_num p
  unfolding is_copy
  sends-hosts partition h lt =
      let f = is_partition_replicated_on p coordinator_num partition in
      let c = master_coordinator p coordinator_num partition in
      let (c_lt, c_in) = master_coordinator-hosts p coordinator_num partition h in
      let w = hosts-without (λ k. f k && not (k == c)) me coordinator_num in
      let w' = hosts-without f c coordinator_num in
      elim (Bool-cases (me == c)) [
        | inl e ↦ ground (
          arith,
          e,
          c_in,
          c_lt,
          lt,
          w,
          w',
          ap f ((==_iff me c).0 e),
          hosts-replica_num p coordinator_num partition h,
          has_master_partition-master_coordinator p coordinator_num me partition,
        )
        | inr e ↦ ground (
          arith,
          e,
          c_in,
          c_lt,
          lt,
          w,
          w',
          hosts-replica_num p coordinator_num partition h,
          has_master_partition-master_coordinator p coordinator_num me partition,
        )
      ]

  -- The keys with a copy on this node.
  unfoldable pub hosted : List LockKey → ℕ
  hosted [] = 0
  hosted (k ∷ ks) =
      (if is_partition_replicated_on p coordinator_num (partition_of k.row) me then 1 else 0)
      + hosted ks

  -- `write_and_replicate` waits for `replica_num` responses for every key, less one for each key with a
  -- copy on this node: no copy is left out and none is written to twice. It is so for a partitioner whose
  -- constructor accepts the number of coordinators, and a coordinator of it.
  pub write_and_replicate-replica_num :
      (commit_tid : ℕ) (ks : List LockKey) (s : Node)
      → is_allowed p coordinator_num ≡ true
      → me < coordinator_num
      → (write_and_replicate p coordinator_num me partition_of commit_tid ks s).pending_responses
          + hosted ks
        ≡ s.pending_responses + replica_num p * length ks
  unfolding write_and_replicate write_key hosted
  write_and_replicate-replica_num tid [] s h lt = omega arith
  write_and_replicate-replica_num tid (k ∷ ks) s h lt =
      let s1 = write_key p coordinator_num me partition_of k s in
      let s2 = replicate_loop p coordinator_num me partition_of tid k 0 coordinator_num s1 in
      ground (
        arith,
        write_and_replicate-replica_num tid ks s2 h lt,
        replicate_loop-pending tid k 0 coordinator_num s1,
        hosts-at (sends (partition_of k.row)) (0 + coordinator_num) coordinator_num (omega arith),
        sends-hosts (partition_of k.row) h lt,
      )
