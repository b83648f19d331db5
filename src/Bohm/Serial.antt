-- ===== src/Bohm/Serial.antt =====
-- protocol/Bohm/BohmExecutor.h: the versions of a row in a batch, next to the serial run of the batch. The
-- transactions of a batch have the ids `base`, `base + 1` and so on.
pub mod Written
use mathlib.Core.Bool.{false≢true, true≢false}
use prdcc.Base.{
  ℕ, zero, suc, ◌+◌, ◌≤◌, ◌<◌, ◌≡◌, ◌≢◌, ◌⊎◌, refl, sym, ap, ◌∙◌, subst, inl, inr, Bool, true,
  false, List, [], ◌∷◌, map, Option, none, some, any, ltb, ◌==◌, ==_iff, if◌then◌else◌, if-cases,
  Bool-cases, arith,
}
use prdcc.Common.MvccHashMap.{Version, find_version, find_prev}
use prdcc.Core.MvccTable.{Cell, write_version}

-- What a transaction reads and writes: rows, and the value that it writes to a row, in terms of those read.
pub record Job : Type 0 where
  pub reads : List ℕ
  pub writes : List ℕ
  pub program : List ℕ → ℕ → ℕ

abbrev pub writes_row : Job → ℕ → Bool
writes_row j row = any (λ r. r == row) j.writes

module _ (jobs : ℕ → Job) (old : ℕ → ℕ) where
  -- The rows after the first `n` transactions, one after another.
  unfoldable pub serial : ℕ → ℕ → ℕ
  serial zero row = old row
  serial (suc n) row =
      let before = serial n row in
      let written = (jobs n).program (map (serial n) (jobs n).reads) row in
      if writes_row (jobs n) row then written else before

  serial-zero : (row : ℕ) → serial zero row ≡ old row
  unfolding serial
  serial-zero row = refl

  pub serial-writes :
      (n row : ℕ)
      → writes_row (jobs n) row ≡ true
      → serial (suc n) row ≡ (jobs n).program (map (serial n) (jobs n).reads) row
  unfolding serial
  serial-writes n row h = rw h refl

  module _ (base : ℕ) (ready : ℕ → Bool) where
    -- A version of transaction `n`: ready with the serial value, or not ready.
    abbrev pub IsVersion : ℕ → ℕ → Version Cell → Type 0
    IsVersion row n vt =
        (vt.version ≡ base + n)
        × (ready n ≡ true → (vt.value.placeholder ≡ 0) × (vt.value.value ≡ serial (suc n) row))
        × (ready n ≡ false → vt.value.placeholder ≢ 0)

    -- The versions of a row are those of its writers among the first `n`, the newest first, and before them
    -- older ones, of which the newest is ready.
    abbrev pub Matches : ℕ → ℕ → List (Version Cell) → Type 0
    Matches row zero [] = ⊥
    Matches row zero (vt ∷ l) =
        (vt.version < base) × (vt.value.placeholder ≡ 0) × (vt.value.value ≡ old row)
    Matches row (suc n) [] = if writes_row (jobs n) row then ⊥ else Matches row n []
    Matches row (suc n) (vt ∷ l) =
        if writes_row (jobs n) row
        then IsVersion row n vt × Matches row n l
        else Matches row n (vt ∷ l)

    -- A transaction that does not write the row.
    pub Matches-suc :
        (row n : ℕ) (l : List (Version Cell))
        → writes_row (jobs n) row ≡ false
        → Matches row n l
        → Matches row (suc n) l
    Matches-suc row n [] w m = rw w m
    Matches-suc row n (vt ∷ l) w m = rw w m

    -- What a reader of transaction `n` finds.
    abbrev pub Found : ℕ → ℕ → Option (Version Cell) → Type 0
    Found row n none = ⊥
    Found row n (some vt) =
        (vt.value.placeholder ≡ 0 → vt.value.value ≡ serial n row)
        × (((i : ℕ) → i < n → ready i ≡ true) → vt.value.placeholder ≡ 0)

    IsVersion-Found :
        (row n : ℕ) (vt : Version Cell) → IsVersion row n vt → Found row (suc n) (some vt)
    IsVersion-Found row n vt (e, done, waits) = elim (Bool-cases (ready n)) [
      | inl r ↦ (λ z. (done r).1, λ h. (done r).0)
      | inr r ↦ (λ z. absurd (waits r z), λ h. absurd (true≢false (sym (h n (omega arith)) ∙ r)))
    ]

    Found-suc :
        (row n : ℕ) (o : Option (Version Cell))
        → writes_row (jobs n) row ≡ false
        → Found row n o
        → Found row (suc n) o
    unfolding serial
    Found-suc row n none h f = f
    Found-suc row n (some vt) h f =
        rw h (λ z. f.0 z, λ all. f.1 (λ i lt. all i (omega (arith, lt))))

    -- A reader after all of the batch.
    find_prev-top :
        (row n v : ℕ) (l : List (Version Cell))
        → base + n ≤ v
        → Matches row n l
        → Found row n (find_prev v l)
    unfolding find_prev
    find_prev-top row zero v [] le m = absurd m
    find_prev-top row zero v (vt ∷ l) le (lt, z, e) =
        let hit : ltb vt.version v ≡ true = ground (arith, lt, le) in
        rw hit (λ p. e ∙ sym (serial-zero row), λ p. z)
    find_prev-top row (suc n) v [] le m = elim (Bool-cases (writes_row (jobs n) row)) [
      | inl w ↦ absurd (rw w at m)
      | inr w ↦
          Found-suc row n (find_prev v []) w
            (find_prev-top row n v [] (omega (arith, le)) (rw w at m))
    ]
    find_prev-top row (suc n) v (vt ∷ l) le m = elim (Bool-cases (writes_row (jobs n) row)) [
      | inl w ↦
          let m' : IsVersion row n vt × Matches row n l = rw w at m in
          let hit : ltb vt.version v ≡ true = ground (arith, m'.0.0, le) in
          rw hit (IsVersion-Found row n vt m'.0)
      | inr w ↦
          Found-suc row n (find_prev v (vt ∷ l)) w
            (find_prev-top row n v (vt ∷ l) (omega (arith, le)) (rw w at m))
    ]

    -- The reader of transaction `i` finds what the serial run has before it.
    pub find_prev-Found :
        (row n i : ℕ) (l : List (Version Cell))
        → i ≤ n
        → Matches row n l
        → Found row i (find_prev (base + i) l)
    unfolding find_prev
    find_prev-Found row zero i l le m =
        let z : i ≡ 0 = omega (arith, le) in
        rw z (find_prev-top row zero (base + 0) l (omega arith) m)
    find_prev-Found row (suc n) i l le m = elim (Bool-cases (ltb n i)) [
      | inl top ↦
          let e : i ≡ suc n = ground (arith, top, le) in
          rw e (find_prev-top row (suc n) (base + suc n) l (omega arith) m)
      | inr below ↦
          let before : i ≤ n = ground (arith, below) in
          under l m before (Bool-cases (writes_row (jobs n) row))
            (λ l'. find_prev-Found row n i l' before)
    ]
      where
        under :
            (l : List (Version Cell))
            → Matches row (suc n) l
            → i ≤ n
            → (writes_row (jobs n) row ≡ true) ⊎ (writes_row (jobs n) row ≡ false)
            → ((l' : List (Version Cell))
                → Matches row n l'
                → Found row i (find_prev (base + i) l'))
            → Found row i (find_prev (base + i) l)
        under [] m le (inl w) ih = absurd (rw w at m)
        under [] m le (inr w) ih = ih [] (rw w at m)
        under (vt ∷ l) m le (inl w) ih =
            let m' : IsVersion row n vt × Matches row n l = rw w at m in
            let miss : ltb vt.version (base + i) ≡ false = ground (arith, m'.0.0, le) in
            rw miss (ih l m'.1)
        under (vt ∷ l) m le (inr w) ih = ih (vt ∷ l) (rw w at m)
