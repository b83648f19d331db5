-- ===== src/Bohm/Serial/Written.antt =====
-- protocol/Bohm/Bohm.h: the versions of a row when a transaction writes to its own.
use mathlib.Core.Bool.{true≢false}
use prdcc.Base.{
  ℕ, zero, suc, ◌+◌, ◌<◌, ◌≡◌, ◌≢◌, ◌⊎◌, refl, sym, ap, ◌∙◌, inl, inr, Bool, true, false, List, [],
  ◌∷◌, Option, none, some, ◌==◌, ==_iff, Bool-cases, arith,
}
use prdcc.Common.MvccHashMap.{Version, find_version}
use prdcc.Core.MvccTable.{Cell, write_version}
use prdcc.Bohm.Serial.{Job, writes_row, serial, IsVersion, Matches, Matches-suc}

module _ (jobs : ℕ → Job) (old : ℕ → ℕ) (base : ℕ) (ready : ℕ → Bool) where
  -- The version that a writer of the row looks for.
  abbrev pub IsOwn : ℕ → Option Cell → Type 0
  IsOwn i none = ⊥
  IsOwn i (some c) = ready i ≡ false → c.placeholder ≢ 0

  pub find_version-IsOwn :
      (row n i : ℕ) (l : List (Version Cell))
      → i < n
      → writes_row (jobs i) row ≡ true
      → Matches jobs old base ready row n l
      → IsOwn i (find_version (base + i) l)
  unfolding find_version
  find_version-IsOwn row zero i l lt own m = absurd (omega (arith, lt))
  find_version-IsOwn row (suc n) i l lt own m =
      at l m (Bool-cases (writes_row (jobs n) row)) (Bool-cases (n == i))
        (λ l' lt'. find_version-IsOwn row n i l' lt' own)
    where
      at :
          (l : List (Version Cell))
          → Matches jobs old base ready row (suc n) l
          → (writes_row (jobs n) row ≡ true) ⊎ (writes_row (jobs n) row ≡ false)
          → ((n == i) ≡ true) ⊎ ((n == i) ≡ false)
          → ((l' : List (Version Cell))
              → i < n
              → Matches jobs old base ready row n l'
              → IsOwn i (find_version (base + i) l'))
          → IsOwn i (find_version (base + i) l)
      at l m (inr w) (inl e) ih =
          let same = (==_iff n i).0 e in
          absurd (true≢false (sym own ∙ ap (λ j. writes_row (jobs j) row) (sym same) ∙ w))
      at [] m (inl w) e ih = absurd (rw w at m)
      at [] m (inr w) (inr e) ih = ih [] (ground (arith, lt, e)) (rw w at m)
      at (vt ∷ l) m (inr w) (inr e) ih = ih (vt ∷ l) (ground (arith, lt, e)) (rw w at m)
      at (vt ∷ l) m (inl w) (inl e) ih =
          let m' : IsVersion jobs old base ready row n vt × Matches jobs old base ready row n l =
            rw w at m in
          let hit : (vt.version == base + i) ≡ true = ground (arith, m'.0.0, e) in
          let same = (==_iff n i).0 e in rw hit (λ r. m'.0.2 (ap ready same ∙ r))
      at (vt ∷ l) m (inl w) (inr e) ih =
          let m' : IsVersion jobs old base ready row n vt × Matches jobs old base ready row n l =
            rw w at m in
          let miss : (vt.version == base + i) ≡ false = ground (arith, m'.0.0, e) in
          rw miss (ih l (ground (arith, lt, e)) m'.1)

  -- Transaction `i` becomes ready.
  module _ (ready' : ℕ → Bool) (i : ℕ) (now : ready' i ≡ true)
      (others : (j : ℕ) → (j == i) ≡ false → ready' j ≡ ready j) where
    IsVersion-ready :
        (row n : ℕ) (vt : Version Cell)
        → (n == i) ≡ false
        → IsVersion jobs old base ready row n vt
        → IsVersion jobs old base ready' row n vt
    IsVersion-ready row n vt ne (v, done, waits) =
        (v, λ r. done (sym (others n ne) ∙ r), λ r. waits (sym (others n ne) ∙ r))

    -- The rows that it does not write are as they were.
    pub Matches-ready :
        (row n : ℕ) (l : List (Version Cell))
        → ((i < n) → writes_row (jobs i) row ≡ false)
        → Matches jobs old base ready row n l
        → Matches jobs old base ready' row n l
    Matches-ready row zero [] keeps m = m
    Matches-ready row zero (vt ∷ l) keeps m = m
    Matches-ready row (suc n) [] keeps m = elim (Bool-cases (writes_row (jobs n) row)) [
      | inl w ↦ absurd (rw w at m)
      | inr w ↦ rw w (Matches-ready row n [] (λ lt. keeps (omega (arith, lt))) (rw w at m))
    ]
    Matches-ready row (suc n) (vt ∷ l) keeps m = elim (Bool-cases (writes_row (jobs n) row)) [
      | inl w ↦
          let m' : IsVersion jobs old base ready row n vt × Matches jobs old base ready row n l =
            rw w at m in
          let rest = Matches-ready row n l (λ lt. keeps (omega (arith, lt))) m'.1 in
          elim (Bool-cases (n == i)) [
            | inl e ↦
                let same = (==_iff n i).0 e in
                absurd (
                  true≢false
                    (sym w ∙ ap (λ j. writes_row (jobs j) row) same ∙ keeps (omega (arith, same))))
            | inr e ↦ rw w (IsVersion-ready row n vt e m'.0, rest)
          ]
      | inr w ↦ rw w (Matches-ready row n (vt ∷ l) (λ lt. keeps (omega (arith, lt))) (rw w at m))
    ]

    -- The row that it writes has the new value in its version.
    pub write_version-Matches :
        (row n : ℕ) (f : Cell → Cell) (l : List (Version Cell))
        → i < n
        → writes_row (jobs i) row ≡ true
        → ((c : Cell) → ((f c).placeholder ≡ 0) × ((f c).value ≡ serial jobs old (suc i) row))
        → Matches jobs old base ready row n l
        → (l' : List (Version Cell)) × (write_version (base + i) f l ≡ some l')
          × Matches jobs old base ready' row n l'
    unfolding write_version
    write_version-Matches row zero f l lt own new m = absurd (omega (arith, lt))
    write_version-Matches row (suc n) f l lt own new m =
        at l m (Bool-cases (writes_row (jobs n) row)) (Bool-cases (n == i))
          (λ l' lt'. write_version-Matches row n f l' lt' own new)
      where
        at :
            (l : List (Version Cell))
            → Matches jobs old base ready row (suc n) l
            → (writes_row (jobs n) row ≡ true) ⊎ (writes_row (jobs n) row ≡ false)
            → ((n == i) ≡ true) ⊎ ((n == i) ≡ false)
            → ((l' : List (Version Cell))
                → i < n
                → Matches jobs old base ready row n l'
                → (l'' : List (Version Cell)) × (write_version (base + i) f l' ≡ some l'')
                  × Matches jobs old base ready' row n l'')
            → (l' : List (Version Cell)) × (write_version (base + i) f l ≡ some l')
              × Matches jobs old base ready' row (suc n) l'
        at l m (inr w) (inl e) ih =
            let same = (==_iff n i).0 e in
            absurd (true≢false (sym own ∙ ap (λ j. writes_row (jobs j) row) (sym same) ∙ w))
        at [] m (inl w) e ih = absurd (rw w at m)
        at [] m (inr w) (inr e) ih =
            let (l', q, m') = ih [] (ground (arith, lt, e)) (rw w at m) in
            (l', q, Matches-suc jobs old base ready' row n l' w m')
        at (vt ∷ l) m (inr w) (inr e) ih =
            let (l', q, m') = ih (vt ∷ l) (ground (arith, lt, e)) (rw w at m) in
            (l', q, Matches-suc jobs old base ready' row n l' w m')
        at (vt ∷ l) m (inl w) (inl e) ih =
            let m' : IsVersion jobs old base ready row n vt × Matches jobs old base ready row n l =
              rw w at m in
            let hit : (vt.version == base + i) ≡ true = ground (arith, m'.0.0, e) in
            let same = (==_iff n i).0 e in
            (
              record vt { value = f vt.value } ∷ l,
              rw hit refl,
              rw w (
                (
                  m'.0.0,
                  λ r. (
                    (new vt.value).0,
                    (new vt.value).1 ∙ ap (λ j. serial jobs old (suc j) row) (sym same),
                  ),
                  λ r. absurd (true≢false (sym now ∙ ap ready' (sym same) ∙ r)),
                ),
                Matches-ready row n l (λ lt'. absurd (omega (arith, lt', same))) m'.1,
              ),
            )
        at (vt ∷ l) m (inl w) (inr e) ih =
            let m' : IsVersion jobs old base ready row n vt × Matches jobs old base ready row n l =
              rw w at m in
            let miss : (vt.version == base + i) ≡ false = ground (arith, m'.0.0, e) in
            let (l', q, rest) = ih l (ground (arith, lt, e)) m'.1 in
            (vt ∷ l', rw (miss, q) refl, rw w (IsVersion-ready row n vt e m'.0, rest))
