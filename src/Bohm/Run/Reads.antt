-- ===== src/Bohm/Run/Reads.antt =====
-- protocol/Bohm/BohmExecutor.h: what the reads of a transaction get.
use mathlib.Core.Bool.{false≢true, true≢false}
use prdcc.Base.{
  ℕ, ◌+◌, ◌≤◌, ◌<◌, ◌≡◌, refl, sym, ap₂, ◌∙◌, Bool, true, false, not, List, [], ◌∷◌, Option, none,
  some, ◌>>=◌, All, ◌==◌, ==_iff, if◌then◌else◌, if-cases,
}
use prdcc.Common.MvccHashMap.{
  Version, listed, versions, find_prev, get_key_version_prev, get_key_version_prev_with_version,
}
use prdcc.Core.MvccTable.{Cell, MvccTable, search_prev}
use prdcc.Bohm.Helper.{is_placeholder_ready}
use prdcc.Bohm.Transaction.{BohmKey}
use prdcc.Bohm.Executor.{Reads, read_here, read_handler, read_key, read_keys}
use prdcc.Bohm.Serial.{Job, serial, Matches, Found, find_prev-Found}
use prdcc.Bohm.Insert.{rows}
use prdcc.Bohm.Run.{all_rows}

not-true : (b : Bool) → not b ≡ true → b ≡ false
not-true true h = absurd (false≢true h)
not-true false h = refl

abbrev pub IsDone : BohmKey → Type 0
IsDone k = k.read_request ≡ false

-- All transactions before `i` are done.
abbrev pub AreReady : (ℕ → Bool) → ℕ → Type 0
AreReady ready i = (j : ℕ) → j < i → ready j ≡ true

-- A key of transaction `i` that was read has the value of the serial run.
abbrev pub IsSound : (ℕ → Job) → (ℕ → ℕ) → ℕ → BohmKey → Type 0
IsSound jobs old i k = k.read_request ≡ false → k.value ≡ serial jobs old i k.row

module _ (jobs : ℕ → Job) (old : ℕ → ℕ) (base : ℕ) (ready : ℕ → Bool) (size i : ℕ) (le : i ≤ size)
    (table : MvccTable)
    (matches : (row : ℕ) → Matches jobs old base ready row size (versions table row)) where
  abbrev pub IsRead : ℕ → Option Cell → Type 0
  IsRead row none = ⊥
  IsRead row (some c) =
      (c.placeholder ≡ 0 → c.value ≡ serial jobs old i row) × (AreReady ready i → c.placeholder ≡ 0)

  pub search_prev-IsRead : (row : ℕ) → IsRead row (search_prev table row (base + i))
  unfolding search_prev get_key_version_prev get_key_version_prev_with_version find_prev
  search_prev-IsRead row =
      looked (table row)
        (find_prev-Found jobs old base ready row size i (versions table row) le (matches row))
    where
      looked :
          (o : Option (List (Version Cell)))
          → Found jobs old base ready row i (find_prev (base + i) (listed o))
          → IsRead row
              (elim (elim o as (λ _. Option (Version Cell)) [
                | none ↦ none
                | some l ↦ find_prev (base + i) l
              ]) [ none ↦ none | some vt ↦ some vt.value ])
      looked none f = f
      looked (some l) f = found (find_prev (base + i) l) f
        where
          found :
              (o : Option (Version Cell))
              → Found jobs old base ready row i o
              → IsRead row (elim o [ none ↦ none | some vt ↦ some vt.value ])
          found none f = f
          found (some vt) f = f

  abbrev KeyOk : BohmKey → Reads → Option (BohmKey × Reads) → Type 0
  KeyOk k s none = ⊥
  KeyOk k s (some (k', s')) =
      (k'.row ≡ k.row)
      × IsSound jobs old i k'
      × (s'.abort_read_not_ready ≡ false → IsDone k' × (s.abort_read_not_ready ≡ false))
      × (AreReady ready i → s.abort_read_not_ready ≡ false → s'.abort_read_not_ready ≡ false)

  read_key-KeyOk :
      (off : ℕ) (k : BohmKey) (s : Reads)
      → IsSound jobs old i k
      → KeyOk k s (read_key all_rows false table (base + i) off k s)
  unfolding read_key read_handler read_here is_placeholder_ready
  read_key-KeyOk off k s sound =
      if-cases (KeyOk k s) (not k.read_request) (some (k, s)) _
        (λ e. let done = not-true k.read_request e in (refl, sound, (λ a. (done, a)), λ r a. a))
        (λ e. by_cell (search_prev table k.row (base + i)) (search_prev-IsRead k.row))
    where
      by_cell :
          (o : Option Cell)
          → IsRead k.row o
          → KeyOk k s (elim o [
            | none ↦ none
            | some c ↦
                if c.placeholder == 0
                then some (record k { value = c.value; read_request = false }, s)
                else if false
                then none
                else some (k, record s { abort_read_not_ready = true })
          ])
      by_cell none r = r
      by_cell (some c) r =
          if-cases (KeyOk k s) (c.placeholder == 0) (some _) (some _)
            (λ e. (refl, (λ d. r.0 ((==_iff c.placeholder 0).0 e)), (λ a. (refl, a)), λ q a. a))
            (λ e. (
              refl,
              sound,
              (λ a. absurd (true≢false a)),
              λ q a. absurd (true≢false (sym ((==_iff c.placeholder 0).1 (r.1 q)) ∙ e)),
            ))

  abbrev pub KeysOk : List BohmKey → Reads → Option (List BohmKey × Reads) → Type 0
  KeysOk ks s none = ⊥
  KeysOk ks s (some (ks', s')) =
      (rows ks' ≡ rows ks)
      × All (IsSound jobs old i) ks'
      × (s'.abort_read_not_ready ≡ false → All IsDone ks' × (s.abort_read_not_ready ≡ false))
      × (AreReady ready i → s.abort_read_not_ready ≡ false → s'.abort_read_not_ready ≡ false)

  pub read_keys-KeysOk :
      (off : ℕ) (ks : List BohmKey) (s : Reads)
      → All (IsSound jobs old i) ks
      → KeysOk ks s (read_keys all_rows false table (base + i) off ks s)
  unfolding read_keys
  read_keys-KeysOk off [] s sound = (refl, tt, (λ a. (tt, a)), λ r a. a)
  read_keys-KeysOk off (k ∷ ks) s sound =
      after (read_keys all_rows false table (base + i) (off + 1) ks s)
        (read_keys-KeysOk (off + 1) ks s sound.1)
    where
      joined :
          (ks' : List BohmKey) (s' : Reads) (o : Option (BohmKey × Reads))
          → KeysOk ks s (some (ks', s'))
          → KeyOk k s' o
          → KeysOk (k ∷ ks) s (o >>= λ (k', s''). some (k' ∷ ks', s''))
      joined ks' s' none f g = g
      joined ks' s' (some (k', s'')) (e, a, d, p) (e', a', d', p') = (
        ap₂ (λ r rs. r ∷ rs) e' e,
        (a', a),
        (λ z. let (x, y) = d' z in let (u, v) = d y in ((x, u), v)),
        λ r z. p' r (p r z),
      )

      after :
          (o : Option (List BohmKey × Reads))
          → KeysOk ks s o
          → KeysOk (k ∷ ks) s (
              o >>= λ (ks', s'). read_key all_rows false table (base + i) off k s' >>= λ (k', s'').
              some (k' ∷ ks', s''))
      after none f = f
      after (some (ks', s')) f =
          joined ks' s' (read_key all_rows false table (base + i) off k s') f
            (read_key-KeyOk off k s' sound.0)
