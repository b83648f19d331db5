-- ===== src/Examples/Rows.antt =====
-- protocol/Aria/AriaHelper.h: reservations of one row.
use prdcc.Base.{ℕ, ◌*◌, ◌+◌, ◌^◌, ◌≡◌, inl, inr, some, [], ◌∷◌, In, arith}
use prdcc.Aria.Helper.{get_epoch}
use prdcc.Aria.Fields.{pack}
use prdcc.Aria.Reservation.{
  Request, read, write, reserve_all, reserve_all-newer, reserve_all-order, readers, writers,
}
use prdcc.Aria.Least.{merge}

-- Epoch 3, read by 5, written by 4.
abbrev word : ℕ
word = 3 * 2 ^ 40 + 5 * 2 ^ 20 + 4

reserve_all-newer_example :
    reserve_all 4 (read 9 ∷ write 7 ∷ read 8 ∷ []) word
    ≡ some (
        pack 4
          (merge 0 (readers (read 9 ∷ write 7 ∷ read 8 ∷ [])))
          (merge 0 (writers (read 9 ∷ write 7 ∷ read 8 ∷ []))))
unfolding get_epoch
reserve_all-newer_example =
    reserve_all-newer word 4 (read 9) (write 7 ∷ read 8 ∷ []) (omega arith) (omega arith)
      (omega arith) (omega arith)

swapped : (q a b : Request) → In q (a ∷ b ∷ []) → In q (b ∷ a ∷ [])
swapped q a b (inl e) = inr (inl e)
swapped q a b (inr (inl e)) = inl e
swapped q a b (inr (inr e)) = absurd e

reserve_all-order_example :
    reserve_all 4 (read 9 ∷ write 7 ∷ []) word ≡ reserve_all 4 (write 7 ∷ read 9 ∷ []) word
unfolding get_epoch
reserve_all-order_example =
    reserve_all-order word 4 (read 9 ∷ write 7 ∷ []) (write 7 ∷ read 9 ∷ []) (omega arith)
      (omega arith) (omega arith) (omega arith) (omega arith)
      (λ q. (swapped q (read 9) (write 7), swapped q (write 7) (read 9)))
