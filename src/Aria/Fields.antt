-- ===== src/Aria/Fields.antt =====
-- protocol/Aria/AriaHelper.h: the accessors of the metadata word read and write its three fields.
use prdcc.Base.{ℕ, ◌+◌, ◌*◌, ◌-◌, ◌/◌, ◌%◌, ◌^◌, ◌<◌, bit_and, bit_or, ◌≡◌, ap, arith, ◌∙◌}
use prdcc.Base.Bits.{
  bit_and_fields, bit_or_fields, bit_and-zero, bit_and_ones, zero-bit_or, bit_or-zero,
}
use prdcc.Aria.Helper.{get_epoch, set_epoch, get_rts, set_rts, get_wts, set_wts}

-- The word with the given fields.
abbrev pub pack : ℕ → ℕ → ℕ → ℕ
pack e r w = (e * 2 ^ 20 + r) * 2 ^ 20 + w

-- Values that fit the fields.
pub record Fits (e r w : ℕ) : Type 0 where
  pub epoch : e < 2 ^ 24
  pub rts : r < 2 ^ 20
  pub wts : w < 2 ^ 20

fields_path : {e e' r r' w w' : ℕ} → e ≡ e' → r ≡ r' → w ≡ w' → pack e r w ≡ pack e' r' w'
fields_path p q t = omega arith

-- Values below `2 ^ 20` in the two low fields of two words.
module _ (e r w a b c : ℕ) (hr : r < 2 ^ 20) (hw : w < 2 ^ 20) (hb : b < 2 ^ 20)
    (hc : c < 2 ^ 20) where
  bit_and-pack : bit_and (pack e r w) (pack a b c) ≡ pack (bit_and e a) (bit_and r b) (bit_and w c)
  bit_and-pack =
      bit_and_fields 20 (e * 2 ^ 20 + r) w (a * 2 ^ 20 + b) c hw hc
      ∙ ap (λ (x : ℕ). x * 2 ^ 20 + bit_and w c) (bit_and_fields 20 e r a b hr hb)

  bit_or-pack : bit_or (pack e r w) (pack a b c) ≡ pack (bit_or e a) (bit_or r b) (bit_or w c)
  bit_or-pack =
      bit_or_fields 20 (e * 2 ^ 20 + r) w (a * 2 ^ 20 + b) c hw hc
      ∙ ap (λ (x : ℕ). x * 2 ^ 20 + bit_or w c) (bit_or_fields 20 e r a b hr hb)

module _ {e r w : ℕ} (f : Fits e r w) where
  pub get_epoch-pack : get_epoch (pack e r w) ≡ e
  unfolding get_epoch
  get_epoch-pack = let h : pack e r w / 2 ^ 40 ≡ e = omega arith in rw h (bit_and_ones 24 e f.epoch)

  pub get_rts-pack : get_rts (pack e r w) ≡ r
  unfolding get_rts
  get_rts-pack =
      let h : pack e r w / 2 ^ 20 ≡ e * 2 ^ 20 + r = omega arith in
      rw h (
        bit_and_fields 20 e r 0 (2 ^ 20 - 1) f.rts (omega arith)
        ∙ omega (arith, bit_and-zero 24 e f.epoch, bit_and_ones 20 r f.rts))

  pub get_wts-pack : get_wts (pack e r w) ≡ w
  unfolding get_wts
  get_wts-pack =
      let h : pack e r w / 2 ^ 0 ≡ pack e r w = omega arith in
      rw h (
        bit_and_fields 20 (e * 2 ^ 20 + r) w 0 (2 ^ 20 - 1) f.wts (omega arith)
        ∙ omega (arith, bit_and-zero 44 (e * 2 ^ 20 + r) (omega arith), bit_and_ones 20 w f.wts))

  -- Each setter clears its field by a mask and then puts the new value in.
  pub set_wts-pack : (n : ℕ) → n < 2 ^ 20 → set_wts (pack e r w) n ≡ pack e r n
  unfolding set_wts
  set_wts-pack n hn =
      let shifted : n * 1 % 2 ^ 64 ≡ pack 0 0 n = omega arith in
      rw (shifted) (
        ap (λ (x : ℕ). bit_or x (pack 0 0 n))
          (bit_and-pack e r w (2 ^ 24 - 1) (2 ^ 20 - 1) 0 f.rts f.wts (omega arith) (omega arith)
            ∙ fields_path (bit_and_ones 24 e f.epoch) (bit_and_ones 20 r f.rts)
                (bit_and-zero 20 w f.wts))
        ∙ bit_or-pack e r 0 0 0 n f.rts (omega arith) (omega arith) hn
        ∙ fields_path (bit_or-zero 24 e f.epoch) (bit_or-zero 20 r f.rts) (zero-bit_or n))

  pub set_rts-pack : (n : ℕ) → n < 2 ^ 20 → set_rts (pack e r w) n ≡ pack e n w
  unfolding set_rts
  set_rts-pack n hn =
      let shifted : n * 2 ^ 20 % 2 ^ 64 ≡ pack 0 n 0 = omega arith in
      rw (shifted) (
        ap (λ (x : ℕ). bit_or x (pack 0 n 0))
          (bit_and-pack e r w (2 ^ 24 - 1) 0 (2 ^ 20 - 1) f.rts f.wts (omega arith) (omega arith)
            ∙ fields_path (bit_and_ones 24 e f.epoch) (bit_and-zero 20 r f.rts)
                (bit_and_ones 20 w f.wts))
        ∙ bit_or-pack e 0 w 0 n 0 (omega arith) f.wts hn (omega arith)
        ∙ fields_path (bit_or-zero 24 e f.epoch) (zero-bit_or n) (bit_or-zero 20 w f.wts))

  pub set_epoch-pack : (n : ℕ) → n < 2 ^ 24 → set_epoch (pack e r w) n ≡ pack n r w
  unfolding set_epoch
  set_epoch-pack n hn =
      let shifted : n * 2 ^ 40 % 2 ^ 64 ≡ pack n 0 0 = omega arith in
      rw (shifted) (
        ap (λ (x : ℕ). bit_or x (pack n 0 0))
          (bit_and-pack e r w 0 (2 ^ 20 - 1) (2 ^ 20 - 1) f.rts f.wts (omega arith) (omega arith)
            ∙ fields_path (bit_and-zero 24 e f.epoch) (bit_and_ones 20 r f.rts)
                (bit_and_ones 20 w f.wts))
        ∙ bit_or-pack 0 r w n 0 0 f.rts f.wts (omega arith) (omega arith)
        ∙ fields_path (zero-bit_or n) (bit_or-zero 20 r f.rts) (bit_or-zero 20 w f.wts))

-- Every 64-bit word is the packing of its three fields, which fit.
pub pack-get :
    (a : ℕ)
    → a < 2 ^ 64
    → Fits (get_epoch a) (get_rts a) (get_wts a) × (a ≡ pack (get_epoch a) (get_rts a) (get_wts a))
pack-get a h =
    let f : Fits (a / 2 ^ 40) (a / 2 ^ 20 % 2 ^ 20) (a % 2 ^ 20) = omega arith in
    let e : a ≡ pack (a / 2 ^ 40) (a / 2 ^ 20 % 2 ^ 20) (a % 2 ^ 20) = omega arith in
    let p : get_epoch a ≡ a / 2 ^ 40 = ap get_epoch e ∙ get_epoch-pack f in
    let q : get_rts a ≡ a / 2 ^ 20 % 2 ^ 20 = ap get_rts e ∙ get_rts-pack f in
    let t : get_wts a ≡ a % 2 ^ 20 = ap get_wts e ∙ get_wts-pack f in
    (record { epoch = omega arith; rts = omega arith; wts = omega arith }, omega arith)
