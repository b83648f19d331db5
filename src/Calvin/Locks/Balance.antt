-- ===== src/Calvin/Locks/Balance.antt =====
-- protocol/Calvin/Calvin.h and CalvinExecutor.h: what the locks of a transaction add to the lock words, and what
-- their release takes away.
use prdcc.Base.{
  ℕ, ◌+◌, ◌-◌, ◌%◌, ◌^◌, ◌≤◌, ◌≡◌, refl, sym, ap, inl, inr, Bool, true, false, ◌&&◌, List, [], ◌∷◌,
  Option, none, some, ◌==◌, ==_iff, if◌then◌else◌, Bool-cases, arith,
}
use prdcc.Prodcc.Message.{store}
use prdcc.Core.MvccTable.Write.{none≢some}
use prdcc.Calvin.Helper.{await_read_lock, await_write_lock, release_read, release_write}
use prdcc.Calvin.Locks.{
  CalvinKey, set_word, is_locked_here, grant_key, release_read_key, release_read_locks,
  release_write_key, release_write_locks,
}

abbrev pub sum : (CalvinKey → ℕ) → List CalvinKey → ℕ
sum f [] = 0
sum f (k ∷ ks) = f k + sum f ks

pub await_write_lock-word : (a b : ℕ) → await_write_lock a ≡ some b → b ≡ (a + 2 ^ 63) % 2 ^ 64
unfolding await_write_lock
await_write_lock-word a b e = ground (arith, e)

pub await_read_lock-word : (a b : ℕ) → await_read_lock a ≡ some b → b ≡ (a + 2 ^ 54) % 2 ^ 64
unfolding await_read_lock
await_read_lock-word a b e = ground (arith, e)

module _ (mine : ℕ → Bool) (row : ℕ) where
  -- What a granted key adds to the word of the row.
  abbrev pub weight : CalvinKey → ℕ
  weight k =
      if is_locked_here mine k && (k.row == row) then if k.write_lock then 2 ^ 63 else 2 ^ 54 else 0

  abbrev pub read_weight : CalvinKey → ℕ
  read_weight k = if (mine k.row && k.read_lock) && (k.row == row) then 2 ^ 54 else 0

  abbrev pub write_weight : CalvinKey → ℕ
  write_weight k = if mine k.row && (k.row == row) then 2 ^ 63 else 0

  set_word-word :
      (words words' : ℕ → ℕ) (r unit : ℕ) (o : Option ℕ)
      → ((a : ℕ) → o ≡ some a → a ≡ (words r + unit) % 2 ^ 64)
      → set_word words r o ≡ some words'
      → words' row % 2 ^ 64 ≡ (words row + (if r == row then unit else 0)) % 2 ^ 64
  set_word-word words words' r unit none f e = ground (arith, e)
  set_word-word words words' r unit (some a) f e =
      let written : words' row ≡ store words r a row =
        ap (λ (o : Option (ℕ → ℕ)). elim o [ none ↦ words' row | some w ↦ w row ]) (sym e) in
      elim (Bool-cases (r == row)) [
        | inl same ↦
            let here : words r ≡ words row = ap words ((==_iff r row).0 same) in
            let new = f a refl in
            let now : words' row ≡ a = rw same at written in rw same (omega (arith, now, new, here))
        | inr other ↦
            let kept : words' row ≡ words row = rw other at written in
            rw other (omega (arith, kept))
      ]

  pub grant_key-word :
      (k : CalvinKey) (words words' : ℕ → ℕ)
      → grant_key mine k words ≡ some words'
      → words' row % 2 ^ 64 ≡ (words row + weight k) % 2 ^ 64
  unfolding grant_key
  grant_key-word k words words' e = elim (Bool-cases (is_locked_here mine k)) [
    | inr out ↦
        let same : some words ≡ some words' = rw out at e in
        let kept : words row ≡ words' row =
          ap (λ (o : Option (ℕ → ℕ)). elim o [ none ↦ words row | some w ↦ w row ]) same in
        rw out (omega (arith, kept))
    | inl here ↦ elim (Bool-cases k.write_lock) [
      | inl w ↦
          let set : set_word words k.row (await_write_lock (words k.row)) ≡ some words' =
            rw (here, w) at e in
          rw (here, w)
            (set_word-word words words' k.row (2 ^ 63) _
              (λ a q. await_write_lock-word (words k.row) a q) set)
      | inr nw ↦ elim (Bool-cases k.read_lock) [
        | inl r ↦
            let set : set_word words k.row (await_read_lock (words k.row)) ≡ some words' =
              rw (here, nw, r) at e in
            rw (here, nw)
              (set_word-word words words' k.row (2 ^ 54) _
                (λ a q. await_read_lock-word (words k.row) a q) set)
        | inr nr ↦
            let failed : none ≡ some words' = rw (here, nw, nr) at e in absurd (none≢some failed)
      ]
    ]
  ]

  released :
      (b : Bool) (r unit : ℕ) (words : ℕ → ℕ)
      → unit ≤ 2 ^ 64
      → ((if b then store words r ((words r + (2 ^ 64 - unit)) % 2 ^ 64) else words) row
            + (if b && (r == row) then unit else 0))
          % 2 ^ 64
        ≡ words row % 2 ^ 64
  released false r unit words le = omega arith
  released true r unit words le = elim (Bool-cases (r == row)) [
    | inl same ↦
        let here : words r ≡ words row = ap words ((==_iff r row).0 same) in
        rw same (omega (arith, here, le))
    | inr other ↦ rw other (omega arith)
  ]

  pub release_read_locks-word :
      (ks : List CalvinKey) (words : ℕ → ℕ)
      → (release_read_locks mine ks words row + sum read_weight ks) % 2 ^ 64 ≡ words row % 2 ^ 64
  unfolding release_read_locks release_read_key release_read
  release_read_locks-word [] words = omega arith
  release_read_locks-word (k ∷ ks) words =
      let words1 = release_read_key mine k words in
      let ih = release_read_locks-word ks words1 in
      let one : (words1 row + read_weight k) % 2 ^ 64 ≡ words row % 2 ^ 64 =
        released (mine k.row && k.read_lock) k.row (2 ^ 54) words (omega arith) in
      omega (arith, ih, one)

  pub release_write_locks-word :
      (ks : List CalvinKey) (words : ℕ → ℕ)
      → (release_write_locks mine ks words row + sum write_weight ks) % 2 ^ 64 ≡ words row % 2 ^ 64
  unfolding release_write_locks release_write_key release_write
  release_write_locks-word [] words = omega arith
  release_write_locks-word (k ∷ ks) words =
      let words1 = release_write_key mine k words in
      let ih = release_write_locks-word ks words1 in
      let one : (words1 row + write_weight k) % 2 ^ 64 ≡ words row % 2 ^ 64 =
        released (mine k.row) k.row (2 ^ 63) words (omega arith) in
      omega (arith, ih, one)
