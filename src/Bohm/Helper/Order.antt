-- ===== src/Bohm/Helper/Order.antt =====
-- protocol/Bohm/BohmHelper.h: the order of the transaction ids, and what is read back of one.
use prdcc.Base.{
  ℕ, ◌+◌, ◌-◌, ◌*◌, ◌%◌, ◌/◌, ◌^◌, ◌<◌, ◌≡◌, ap, ◌∙◌, ◌⊎◌, ◌↔◌, inl, inr, bit_and, bit_or, arith,
}
use prdcc.Base.Bits.{
  bit_or_fields, bit_and_fields, bit_and_ones, bit_and-zero, bit_or-zero, zero-bit_or,
}
use prdcc.Bohm.Helper.{get_epoch, get_pos, get_tid}

pub get_tid-sum :
    (epoch pos : ℕ) → epoch < 2 ^ 32 → pos < 2 ^ 32 → get_tid epoch pos ≡ epoch * 2 ^ 32 + pos
unfolding get_tid
get_tid-sum epoch pos he hp =
    let e : (epoch * 2 ^ 32) % 2 ^ 64 ≡ epoch * 2 ^ 32 + 0 = omega (arith, he) in
    let z : pos ≡ 0 * 2 ^ 32 + pos = omega arith in
    ap (λ x. bit_or x pos) e
    ∙ ap (bit_or (epoch * 2 ^ 32 + 0)) z
    ∙ bit_or_fields 32 epoch 0 0 pos (omega arith) hp
    ∙ omega (arith, bit_or-zero 32 epoch he, zero-bit_or pos)

-- Below a mask of ones the rest is left.
low_bits : (hi lo : ℕ) → hi < 2 ^ 40 → lo < 2 ^ 24 → bit_and (hi * 2 ^ 24 + lo) (2 ^ 24 - 1) ≡ lo
low_bits hi lo small h =
    let z : 2 ^ 24 - 1 ≡ 0 * 2 ^ 24 + (2 ^ 24 - 1) = omega arith in
    ap (bit_and (hi * 2 ^ 24 + lo)) z
    ∙ bit_and_fields 24 hi lo 0 (2 ^ 24 - 1) h (omega arith)
    ∙ omega (arith, bit_and-zero 40 hi small, bit_and_ones 24 lo h)

-- The ids are in the order of the epochs, and in an epoch in that of the positions. The epoch is read back,
-- and of the position only the lower 24 of its 32 bits. Epochs and positions are below 2 ^ 32.
pub get_tid_lem :
    (epoch pos epoch' pos' : ℕ)
    → epoch < 2 ^ 32
    → pos < 2 ^ 32
    → epoch' < 2 ^ 32
    → pos' < 2 ^ 32
    → ((get_tid epoch pos < get_tid epoch' pos')
        ↔ ((epoch < epoch') ⊎ ((epoch ≡ epoch') × (pos < pos'))))
      × (get_epoch (get_tid epoch pos) ≡ epoch)
      × (get_pos (get_tid epoch pos) ≡ pos % 2 ^ 24)
unfolding get_epoch get_pos
get_tid_lem epoch pos epoch' pos' he hp he' hp' =
    rw (get_tid-sum epoch pos he hp, get_tid-sum epoch' pos' he' hp')
      (
        (
          λ h. order epoch pos epoch' pos' hp hp' h,
          λ h. elim h [ inl a ↦ omega (arith, a, hp) | inr (a, b) ↦ omega (arith, a, b) ],
        ),
        ap (λ x. bit_and x (2 ^ 44 - 1)) (quotient epoch pos hp)
            ∙ bit_and_ones 44 epoch (omega (arith, he)),
        ap (λ x. bit_and x (2 ^ 24 - 1)) (split epoch pos)
            ∙ low_bits (epoch * 2 ^ 8 + pos / 2 ^ 24) (pos % 2 ^ 24) (omega (arith, he, hp))
                (omega arith),
      )
  where
    order :
        (a b c d : ℕ)
        → b < 2 ^ 32
        → d < 2 ^ 32
        → a * 2 ^ 32 + b < c * 2 ^ 32 + d
        → (a < c) ⊎ ((a ≡ c) × (b < d))
    order a b c d hb hd h = ground (arith, hb, hd, h)

    quotient : (a b : ℕ) → b < 2 ^ 32 → (a * 2 ^ 32 + b) / 2 ^ 32 ≡ a
    quotient a b h = omega (arith, h)

    split : (a b : ℕ) → (a * 2 ^ 32 + b) / 2 ^ 0 ≡ (a * 2 ^ 8 + b / 2 ^ 24) * 2 ^ 24 + b % 2 ^ 24
    split a b = omega arith
