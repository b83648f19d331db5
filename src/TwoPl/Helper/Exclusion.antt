-- ===== src/TwoPl/Helper/Exclusion.antt =====
-- protocol/TwoPL/TwoPLHelper.h: a row under any interleaving of its clients' calls.
use prdcc.Base.{
  Option, none, some, ◌||◌, ℕ, zero, suc, ◌^◌, ◌<◌, ◌≡◌, refl, sym, ap, ◌⊎◌, inl, inr, subst, Bool,
  true, false, List, [], ◌∷◌, In, length, ◌==◌, ==_iff, arith, if◌then◌else◌, Bool-cases,
}
use prdcc.TwoPl.Helper.{
  LockResult, is_read_locked, is_write_locked, write_lock_wait, read_lock, write_lock,
  read_lock_release, write_lock_release, write_lock_release_to,
}
use prdcc.TwoPl.Helper.Mode.{
  shared, exclusive, word_of, read_lock-acquire_shared, write_lock-acquire_exclusive,
  read_lock_release-release_shared, write_lock_release-release_exclusive, write_lock-ne,
}
use prdcc.TwoPl.Helper.Calls.{
  Row, erase, grant, Step, read_tried, write_tried, write_waited, read_released, write_aborted,
  write_committed, Reach, here, next,
}

-- Any number of readers and no writer, or one writer and no reader; and the word says so.
abbrev pub Excludes : ℕ → List ℕ → List ℕ → Type 0
Excludes word readers writers =
    (seq : ℕ) × (seq < 2 ^ 54)
    × (((length readers < 2 ^ 9) × (writers ≡ []) × (word ≡ word_of (shared (length readers)) seq))
        ⊎ ((readers ≡ []) × (length writers ≡ 1) × (word ≡ word_of exclusive seq)))

abbrev pub IsExclusive : Row → Type 0
IsExclusive s = Excludes s.word s.readers s.writers

length-erase : (c : ℕ) (xs : List ℕ) → In c xs → suc (length (erase c xs)) ≡ length xs
length-erase c [] m = absurd m
length-erase c (x ∷ xs) m = elim (Bool-cases (x == c)) [
  | inl e ↦ rw e refl
  | inr e ↦
      rw e (elim m [ inl p ↦ absurd (ground (arith, e, p)) | inr q ↦ ap suc (length-erase c xs q) ])
]

no_member : (c : ℕ) (xs : List ℕ) → xs ≡ [] → In c xs → ⊥
no_member c xs e m = subst (In c) e m

read_tried-Excludes :
    (c word : ℕ) (readers writers : List ℕ)
    → Excludes word readers writers
    → Excludes (read_lock word).word (grant (read_lock word).success c readers) writers
read_tried-Excludes c word readers writers (seq, small, inl (h, e, w)) =
    rw (w, read_lock-acquire_shared (shared (length readers)) seq h small)
      (elim (Bool-cases (length readers == 511)) [
        | inl full ↦ rw full (seq, small, inl (h, e, refl))
        | inr room ↦ rw room (seq, small, inl (ground (arith, room, h), e, refl))
      ])
read_tried-Excludes c word readers writers (seq, small, inr (e, h, w)) =
    rw (w, read_lock-acquire_shared exclusive seq tt small) (seq, small, inr (e, h, refl))

write_tried-Excludes :
    (c seen word : ℕ) (readers writers : List ℕ)
    → Excludes word readers writers
    → Excludes (write_lock seen word).word readers (grant (write_lock seen word).success c writers)
write_tried-Excludes c seen word readers writers ex = elim (Bool-cases (word == seen)) [
  | inr e ↦ rw ((write_lock-ne seen word e).0, (write_lock-ne seen word e).1) ex
  | inl e ↦
      subst
        (λ k.
          Excludes (write_lock k word).word readers (grant (write_lock k word).success c writers))
        ((==_iff word seen).0 e) (same word readers writers ex)
]
  where
    same :
        (word : ℕ) (readers writers : List ℕ)
        → Excludes word readers writers
        → Excludes
            (write_lock word word).word
            readers
            (grant (write_lock word word).success c writers)
    same word [] writers (seq, small, inl (h, e, w)) =
        rw (w, write_lock-acquire_exclusive (shared zero) seq h small)
          (seq, small, inr (refl, rw e refl, refl))
    same word (r ∷ rs) writers (seq, small, inl (h, e, w)) =
        rw (w, write_lock-acquire_exclusive (shared (suc (length rs))) seq h small)
          (seq, small, inl (h, e, refl))
    same word readers writers (seq, small, inr (e, h, w)) =
        rw (w, write_lock-acquire_exclusive exclusive seq tt small) (seq, small, inr (e, h, refl))

some-same : (x y : LockResult) → some y ≡ some x → x ≡ y
some-same x y q =
    sym (ap (λ (o : Option LockResult). elim o as (λ _. LockResult) [ none ↦ y | some z ↦ z ]) q)

-- The write lock that waits does what the other one does from the word that it loaded.
write_lock_wait-write_lock :
    (a : ℕ) (r : LockResult) → write_lock_wait a ≡ some r → r ≡ write_lock a a
unfolding write_lock_wait write_lock
write_lock_wait-write_lock a r e = elim (Bool-cases (is_read_locked a || is_write_locked a)) [
  | inl locked ↦ absurd (ground (arith, rw locked at e))
  | inr free ↦
      let self : (a == a) ≡ true = (==_iff a a).1 refl in
      let q : some _ ≡ some r = rw free at e in rw (free, self) (some-same r _ q)
]

read_released-Excludes :
    (c word : ℕ) (readers writers : List ℕ)
    → In c readers
    → Excludes word readers writers
    → Excludes (read_lock_release word) (erase c readers) writers
read_released-Excludes c word [] writers m ex = absurd m
read_released-Excludes c word (r ∷ rs) writers m (seq, small, inl (h, e, w)) =
    let n : length (erase c (r ∷ rs)) ≡ length rs = omega (arith, length-erase c (r ∷ rs) m) in
    rw (w, read_lock_release-release_shared (length rs) seq h small)
      (seq, small, inl (omega (arith, n), e, ap (λ k. word_of (shared k) seq) (sym n)))
read_released-Excludes c word (r ∷ rs) writers m (seq, small, inr (e, h, w)) =
    absurd (no_member c (r ∷ rs) e m)

erase-one : (c : ℕ) (xs : List ℕ) → In c xs → length xs ≡ 1 → erase c xs ≡ []
erase-one c [] m h = absurd m
erase-one c (x ∷ y ∷ xs) m h = absurd (omega arith)
erase-one c (x ∷ []) m h = elim m [ inl e ↦ rw ((==_iff x c).1 (sym e)) refl | inr a ↦ absurd a ]

write_aborted-Excludes :
    (c word : ℕ) (readers writers : List ℕ)
    → In c writers
    → Excludes word readers writers
    → Excludes (write_lock_release word) readers (erase c writers)
write_aborted-Excludes c word readers writers m (seq, small, inl (h, e, w)) =
    absurd (no_member c writers e m)
write_aborted-Excludes c word readers writers m (seq, small, inr (e, h, w)) =
    rw (w, write_lock_release-release_exclusive seq small, e, erase-one c writers m h)
      (seq, small, inl (omega arith, refl, refl))

write_committed-Excludes :
    (c word commit_tid : ℕ) (spurious : Bool) (readers writers : List ℕ)
    → In c writers
    → commit_tid < 2 ^ 54
    → Excludes word readers writers
    → Excludes
        (write_lock_release_to spurious word commit_tid)
        readers
        (if spurious then writers else erase c writers)
unfolding write_lock_release_to
write_committed-Excludes c word tid true readers writers m t ex = ex
write_committed-Excludes c word tid false readers writers m t (seq, small, inl (h, e, w)) =
    absurd (no_member c writers e m)
write_committed-Excludes c word tid false readers writers m t (seq, small, inr (e, h, w)) =
    rw (e, erase-one c writers m h) (tid, t, inl (omega arith, refl, omega arith))

Step-IsExclusive : (s u : Row) → Step s u → IsExclusive s → IsExclusive u
Step-IsExclusive s u (read_tried c e) ex =
    subst IsExclusive (sym e) (read_tried-Excludes c s.word s.readers s.writers ex)
Step-IsExclusive s u (write_tried c seen e) ex =
    subst IsExclusive (sym e) (write_tried-Excludes c seen s.word s.readers s.writers ex)
Step-IsExclusive s u (write_waited c r q e) ex = subst IsExclusive (sym e) (
    subst (λ (x : LockResult). Excludes x.word s.readers (grant x.success c s.writers))
      (sym (write_lock_wait-write_lock s.word r q))
      (write_tried-Excludes c s.word s.word s.readers s.writers ex))
Step-IsExclusive s u (read_released c m e) ex =
    subst IsExclusive (sym e) (read_released-Excludes c s.word s.readers s.writers m ex)
Step-IsExclusive s u (write_aborted c m e) ex =
    subst IsExclusive (sym e) (write_aborted-Excludes c s.word s.readers s.writers m ex)
Step-IsExclusive s u (write_committed c tid spurious m t e) ex =
    subst IsExclusive (sym e)
      (write_committed-Excludes c s.word tid spurious s.readers s.writers m t ex)

-- From a row that nobody holds, whatever the order of the calls of clients that release only what they hold, with
-- commit tids below 2 ^ 54, and whichever weak exchanges of a commit's release fail: the row has any number of
-- readers and no writer, or one writer and no reader, and the lock word says which. A client holds a lock until a
-- release of it goes through.
pub Reach-IsExclusive :
    (seq : ℕ) (u : Row)
    → seq < 2 ^ 54
    → Reach (record { word = word_of (shared 0) seq; readers = []; writers = [] }) u
    → IsExclusive u
Reach-IsExclusive seq u small here = (seq, small, inl (omega arith, refl, refl))
Reach-IsExclusive seq u small (next {t} r st) =
    Step-IsExclusive t u st (Reach-IsExclusive seq t small r)
