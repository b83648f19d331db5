-- ===== src/Prodcc/Cleanup.antt =====
-- protocol/Prodcc/ProdccManager.h: `cleanup_batch` at the end of a macro block, and the choice to predict
-- that it feeds. An atomic is a field. The slots of `transactions` are options, a nullptr is `none`.
-- Doubles are left out: `abort_ppm` is the floor of the exact quotient, and the threshold is a number of
-- millionths, so the test of the rate is the same inequality without the division.
pub mod Counters
use prdcc.Base.{
  ℕ, zero, suc, ◌+◌, ◌-◌, ◌*◌, ◌/◌, Bool, true, false, not, List, [], ◌∷◌, Option, none, some,
  get_elem?, set, length, min, ltb, leb, ◌==◌, if◌then◌else◌,
}

-- The three flags that the loop reads, with the transaction's id.
pub record Flags : Type 0 where
  pub id : ℕ
  pub abort_lock : Bool
  pub delay_lock : Bool
  pub abort_no_retry : Bool

pub record Manager : Type 0 where
  pub transactions : List (Option Flags)
  pub total_abort : ℕ
  pub last_macro_total_delay : ℕ
  pub last_macro_total_valid : ℕ
  pub last_macro_abort_ppm : ℕ
  pub last_macro_prediction_enabled : Bool
  pub bypass_baseline_abort_ppm : ℕ
  pub prediction_bypass_cooldown : ℕ

-- The counters of the loop: `it`, `it2` and `total_valid`.
pub record Tally : Type 0 where
  pub it : ℕ
  pub it2 : ℕ
  pub total_valid : ℕ
  pub slots : List (Option Flags)

unfoldable pub swap : List (Option Flags) → ℕ → ℕ → List (Option Flags)
swap slots i j = elim (get_elem? slots i) [
  | none ↦ slots
  | some a ↦ elim (get_elem? slots j) [ none ↦ slots | some b ↦ set (set slots i b) j a ]
]

-- The body of the loop for the transaction `t` of slot `i`.
unfoldable pub tally : Flags → ℕ → Tally → Tally
tally t i s = record {
  it = if t.abort_lock then suc s.it else s.it;
  it2 = if t.delay_lock then suc s.it2 else s.it2;
  total_valid = if t.abort_no_retry then s.total_valid else suc s.total_valid;
  slots = if t.abort_lock then swap s.slots s.it i else s.slots;
}

-- The loop from slot `i` on, over the slots that are left: it ends at the first nullptr. A swap writes to
-- `i` and to `it`, which is not above `i`, so the slots that are left are those of the start.
unfoldable pub tally_loop : List (Option Flags) → ℕ → Tally → Tally
tally_loop [] i s = s
tally_loop (none ∷ rest) i s = s
tally_loop (some t ∷ rest) i s = tally_loop rest (suc i) (tally t i s)

abbrev pub regression_margin_ppm : ℕ
regression_margin_ppm = 10000

abbrev pub bypass_cooldown_epochs : ℕ
bypass_cooldown_epochs = 5

unfoldable pub abort_ppm : ℕ → ℕ → ℕ
abort_ppm it2 total_valid = if total_valid == 0 then 0 else 1000000 * it2 / total_valid

-- The end of `cleanup_batch`, after the decrement.
unfoldable pub judge : ℕ → Manager → Manager
judge ppm m =
    if not m.last_macro_prediction_enabled
    then record m { bypass_baseline_abort_ppm = ppm }
    else if ltb (m.bypass_baseline_abort_ppm + regression_margin_ppm) ppm
    then record m { prediction_bypass_cooldown = bypass_cooldown_epochs }
    else m

unfoldable pub cleanup_batch : Manager → Manager
cleanup_batch m =
    let s =
      tally_loop m.transactions 0
        (record { it = 0; it2 = 0; total_valid = 0; slots = m.transactions }) in
    let ppm = abort_ppm s.it2 s.total_valid in
    judge ppm (record m {
      transactions = s.slots;
      total_abort = s.it;
      last_macro_total_delay = s.it2;
      last_macro_total_valid = s.total_valid;
      last_macro_abort_ppm = ppm;
      prediction_bypass_cooldown = m.prediction_bypass_cooldown - 1;
    })

-- `last_macro_abort_rate() >= threshold`, with the threshold cut to one, as std::clamp does.
unfoldable pub rate_reaches : Manager → ℕ → Bool
rate_reaches m threshold =
    if m.last_macro_total_valid == 0
    then (min threshold 1000000) == 0
    else leb (min threshold 1000000 * m.last_macro_total_valid) (1000000 * m.last_macro_total_delay)

unfoldable pub enable_conflict_prediction : Manager → ℕ → Bool
enable_conflict_prediction m threshold =
    if ltb 0 m.prediction_bypass_cooldown then false else rate_reaches m threshold

-- A macro block from the end of the last one on: `cleanup_batch`, the transactions that it is given and
-- their flags when they have run, with the choice stored.
unfoldable pub macro_block : ℕ → List (Option Flags) → Manager → Manager
macro_block threshold ran m =
    let cleaned = cleanup_batch m in
    record cleaned {
      transactions = ran;
      last_macro_prediction_enabled = enable_conflict_prediction cleaned threshold;
    }

-- The loop over the macro blocks, for some of its turns.
unfoldable pub macro_blocks : ℕ → List (List (Option Flags)) → Manager → Manager
macro_blocks threshold [] m = m
macro_blocks threshold (ran ∷ rans) m = macro_blocks threshold rans (macro_block threshold ran m)
