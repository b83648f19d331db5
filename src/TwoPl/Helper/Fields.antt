-- ===== src/TwoPl/Helper/Fields.antt =====
-- protocol/TwoPL/TwoPLHelper.h: the tests of the lock word, read from its fields.
use prdcc.Base.{ℕ, ◌+◌, ◌-◌, ◌*◌, ◌/◌, ◌^◌, ◌<◌, ◌≡◌, ap, ◌∙◌, bit_and, not, ◌==◌, arith}
use prdcc.Base.Bits.{bit_and_fields, bit_and-zero, bit_and_ones}
use prdcc.TwoPl.Helper.{is_read_locked, is_write_locked, read_lock_num, remove_lock_bit}

-- The word with a sequence number, a number of readers and the write bit.
abbrev pub lock_word : ℕ → ℕ → ℕ → ℕ
lock_word w n seq = (w * 2 ^ 9 + n) * 2 ^ 54 + seq

pub record Fits (w n seq : ℕ) : Type 0 where
  pub write : w < 2
  pub read : n < 2 ^ 9
  pub seq_id : seq < 2 ^ 54

-- Masks of whole fields.
bit_and-lock_word :
    (w n seq a b c : ℕ)
    → n < 2 ^ 9
    → seq < 2 ^ 54
    → b < 2 ^ 9
    → c < 2 ^ 54
    → bit_and (lock_word w n seq) (lock_word a b c)
      ≡ lock_word (bit_and w a) (bit_and n b) (bit_and seq c)
bit_and-lock_word w n seq a b c hn hs hb hc =
    bit_and_fields 54 (w * 2 ^ 9 + n) seq (a * 2 ^ 9 + b) c hs hc
    ∙ ap (λ (x : ℕ). x * 2 ^ 54 + bit_and seq c) (bit_and_fields 9 w n a b hn hb)

module _ {w n seq : ℕ} (f : Fits w n seq) where
  pub read_lock_num-lock_word : read_lock_num (lock_word w n seq) ≡ n
  unfolding read_lock_num
  read_lock_num-lock_word =
      let h : lock_word w n seq / 2 ^ 54 ≡ w * 2 ^ 9 + n = omega (arith, f.seq_id) in
      rw h (
        bit_and_fields 9 w n 0 (2 ^ 9 - 1) f.read (omega arith)
        ∙ omega (arith, bit_and-zero 1 w f.write, bit_and_ones 9 n f.read))

  pub is_read_locked-lock_word : is_read_locked (lock_word w n seq) ≡ not (n == 0)
  unfolding is_read_locked
  is_read_locked-lock_word = ground (
    arith,
    bit_and-lock_word w n seq 0 (2 ^ 9 - 1) 0 f.read f.seq_id (omega arith) (omega arith),
    bit_and-zero 1 w f.write,
    bit_and_ones 9 n f.read,
    bit_and-zero 54 seq f.seq_id,
  )

  pub is_write_locked-lock_word : is_write_locked (lock_word w n seq) ≡ not (w == 0)
  unfolding is_write_locked
  is_write_locked-lock_word = ground (
    arith,
    bit_and-lock_word w n seq 1 0 0 f.read f.seq_id (omega arith) (omega arith),
    bit_and_ones 1 w f.write,
    bit_and-zero 9 n f.read,
    bit_and-zero 54 seq f.seq_id,
  )

  pub remove_lock_bit-lock_word : remove_lock_bit (lock_word w n seq) ≡ seq
  unfolding remove_lock_bit
  remove_lock_bit-lock_word =
      bit_and-lock_word w n seq 0 0 (2 ^ 54 - 1) f.read f.seq_id (omega arith) (omega arith)
      ∙ omega
          (arith, bit_and-zero 1 w f.write, bit_and-zero 9 n f.read, bit_and_ones 54 seq f.seq_id)
