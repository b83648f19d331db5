-- ===== src/Prodcc/Cleanup/Counters.antt =====
-- protocol/Prodcc/ProdccManager.h: the counters of `cleanup_batch` and the cooldown.
use prdcc.Base.{
  ℕ, suc, refl, length, ◌+◌, ◌-◌, ◌<◌, ◌≡◌, ◌∙◌, Bool, false, List, [], ◌∷◌, Option, none, some,
  arith, if◌then◌else◌,
}
use prdcc.Prodcc.Cleanup.{
  Flags, Manager, Tally, tally, tally_loop, judge, cleanup_batch, enable_conflict_prediction,
  macro_block, abort_ppm, rate_reaches, macro_blocks,
}

-- The transactions before the first empty slot that pass a test.
abbrev pub count_if : (Flags → Bool) → List (Option Flags) → ℕ
count_if test [] = 0
count_if test (none ∷ rest) = 0
count_if test (some t ∷ rest) = (if test t then 1 else 0) + count_if test rest

tally_loop-it :
    (rest : List (Option Flags)) (i : ℕ) (s : Tally)
    → (tally_loop rest i s).it ≡ s.it + count_if (λ t. t.abort_lock) rest
unfolding tally_loop tally
tally_loop-it [] i s = omega arith
tally_loop-it (none ∷ rest) i s = omega arith
tally_loop-it (some t ∷ rest) i s = ground (arith, tally_loop-it rest (suc i) (tally t i s))

tally_loop-it2 :
    (rest : List (Option Flags)) (i : ℕ) (s : Tally)
    → (tally_loop rest i s).it2 ≡ s.it2 + count_if (λ t. t.delay_lock) rest
unfolding tally_loop tally
tally_loop-it2 [] i s = omega arith
tally_loop-it2 (none ∷ rest) i s = omega arith
tally_loop-it2 (some t ∷ rest) i s = ground (arith, tally_loop-it2 rest (suc i) (tally t i s))

judge-keeps :
    (ppm : ℕ) (m : Manager)
    → ((judge ppm m).total_abort ≡ m.total_abort)
      × ((judge ppm m).last_macro_total_delay ≡ m.last_macro_total_delay)
unfolding judge
judge-keeps ppm m = ground arith

judge-off :
    (ppm : ℕ) (m : Manager)
    → m.last_macro_prediction_enabled ≡ false
    → (judge ppm m).prediction_bypass_cooldown ≡ m.prediction_bypass_cooldown
unfolding judge
judge-off ppm m off = ground (arith, off)

-- After `cleanup_batch`, `total_abort` and `last_macro_total_delay` count the transactions before the
-- first empty slot that have the abort flag and the delay flag.
pub cleanup_batch-counts :
    (m : Manager)
    → ((cleanup_batch m).total_abort ≡ count_if (λ t. t.abort_lock) m.transactions)
      × ((cleanup_batch m).last_macro_total_delay ≡ count_if (λ t. t.delay_lock) m.transactions)
unfolding cleanup_batch
cleanup_batch-counts m = (
  (judge-keeps ppm cleaned).0 ∙ tally_loop-it m.transactions 0 start ∙ omega arith,
  (judge-keeps ppm cleaned).1 ∙ tally_loop-it2 m.transactions 0 start ∙ omega arith,
)
  where
    start : Tally
    start = record { it = 0; it2 = 0; total_valid = 0; slots = m.transactions }

    ppm : ℕ
    ppm =
        abort_ppm (tally_loop m.transactions 0 start).it2
          (tally_loop m.transactions 0 start).total_valid

    cleaned : Manager
    cleaned = record m {
      transactions = (tally_loop m.transactions 0 start).slots;
      total_abort = (tally_loop m.transactions 0 start).it;
      last_macro_total_delay = (tally_loop m.transactions 0 start).it2;
      last_macro_total_valid = (tally_loop m.transactions 0 start).total_valid;
      last_macro_abort_ppm = ppm;
      prediction_bypass_cooldown = m.prediction_bypass_cooldown - 1;
    }

cleanup_batch-off :
    (m : Manager)
    → m.last_macro_prediction_enabled ≡ false
    → (cleanup_batch m).prediction_bypass_cooldown ≡ m.prediction_bypass_cooldown - 1
unfolding cleanup_batch
cleanup_batch-off m off = judge-off _ _ off

-- While the cooldown is above one and the last macro block did not predict, a macro block does not predict
-- either, and the cooldown goes down by one.
pub macro_block-cooldown :
    (threshold : ℕ) (ran : List (Option Flags)) (m : Manager)
    → m.last_macro_prediction_enabled ≡ false
    → 1 < m.prediction_bypass_cooldown
    → ((macro_block threshold ran m).last_macro_prediction_enabled ≡ false)
      × ((macro_block threshold ran m).prediction_bypass_cooldown
          ≡ m.prediction_bypass_cooldown - 1)
unfolding macro_block enable_conflict_prediction
macro_block-cooldown threshold ran m off h =
    (ground (arith, h, cleanup_batch-off m off), cleanup_batch-off m off)

last_block :
    (threshold : ℕ) (ran : List (Option Flags)) (m : Manager)
    → m.last_macro_prediction_enabled ≡ false
    → m.prediction_bypass_cooldown ≡ 1
    → ((macro_block threshold ran m).prediction_bypass_cooldown ≡ 0)
      × ((macro_block threshold ran m).last_macro_prediction_enabled
          ≡ rate_reaches (macro_block threshold ran m) threshold)
unfolding macro_block enable_conflict_prediction rate_reaches
last_block threshold ran m off h =
    let e : (cleanup_batch m).prediction_bypass_cooldown ≡ 0 =
      omega (arith, cleanup_batch-off m off, h) in
    (e, rw e refl)

-- A cooldown ends: after as many macro blocks as it says, whatever they ran, it is zero, and the last of
-- them predicts exactly when the rate of aborts reaches the threshold. The cooldown is above zero and the
-- macro block before them did not predict.
pub macro_blocks-resume :
    (threshold : ℕ) (rans : List (List (Option Flags))) (m : Manager)
    → m.last_macro_prediction_enabled ≡ false
    → 0 < m.prediction_bypass_cooldown
    → length rans ≡ m.prediction_bypass_cooldown
    → ((macro_blocks threshold rans m).prediction_bypass_cooldown ≡ 0)
      × ((macro_blocks threshold rans m).last_macro_prediction_enabled
          ≡ rate_reaches (macro_blocks threshold rans m) threshold)
unfolding macro_blocks
macro_blocks-resume threshold [] m off pos h = absurd (omega (arith, pos, h))
macro_blocks-resume threshold (ran ∷ []) m off pos h =
    last_block threshold ran m off (omega (arith, h))
macro_blocks-resume threshold (ran ∷ ran' ∷ rans) m off pos h =
    let (off', down) = macro_block-cooldown threshold ran m off (omega (arith, h)) in
    macro_blocks-resume threshold (ran' ∷ rans) (macro_block threshold ran m) off'
      (omega (arith, down, h)) (omega (arith, down, h))
