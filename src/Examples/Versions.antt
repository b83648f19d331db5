-- ===== src/Examples/Versions.antt =====
-- common/MVCCHashMap.h: a key with three versions, of which a vacuum removes one.
-- protocol/Bohm/BohmHelper.h: an id with a long position.
use prdcc.Base.{ℕ, ◌+◌, ◌≡◌, refl, List, [], ◌∷◌, some, arith}
use prdcc.Base.{◌<◌, ◌⊎◌, ◌↔◌, ◌%◌, ◌^◌}
use prdcc.Bohm.Helper.{get_epoch, get_pos, get_tid}
use prdcc.Bohm.Helper.Order.{get_tid_lem}
use prdcc.Common.MvccHashMap.{
  Version, HashMap, put, versions, insert_key_version_holder, version_count,
  get_key_version_prev_with_version, vacuum_key_versions, Call, inserted, call, calls,
}
use prdcc.Common.MvccHashMap.Newest.{IsDecreasing, IsNewest, empty, calls-IsNewest}
use prdcc.Common.MvccHashMap.Vacuum.{above, vacuum_key_versions-prev}

abbrev history : List (Call ℕ)
history = inserted 8 3 30 ∷ inserted 8 5 50 ∷ inserted 8 7 70 ∷ []

abbrev version : ℕ → ℕ → Version ℕ
version v a = record { version = v; value = a }

abbrev map : HashMap ℕ
map =
    put (put (put empty 8 (some (version 3 30 ∷ []))) 8 (some (version 5 50 ∷ version 3 30 ∷ []))) 8
      (some (version 7 70 ∷ version 5 50 ∷ version 3 30 ∷ []))

calls-IsNewest_example :
    IsDecreasing (versions map 8)
    × IsNewest 6 (versions map 8) (get_key_version_prev_with_version map 8 6)
unfolding calls call insert_key_version_holder
calls-IsNewest_example = calls-IsNewest history map 8 6 refl

vacuum_key_versions-prev_example :
    let (size, map') = vacuum_key_versions map 8 3 in
    (get_key_version_prev_with_version map' 8 6
      ≡ above 3 (get_key_version_prev_with_version map 8 6))
    × (version_count map' 8 + size ≡ version_count map 8)
vacuum_key_versions-prev_example =
    vacuum_key_versions-prev map 8 3 6
      ((omega arith, (omega arith, tt)), ((omega arith, tt), (tt, tt)))

abbrev epoch : ℕ
epoch = 3

abbrev next_epoch : ℕ
next_epoch = 4

-- Of the position 2 ^ 24 + 5 only 5 is read back.
get_tid_lem_example :
    ((get_tid epoch 16777221 < get_tid next_epoch 0)
      ↔ ((epoch < next_epoch) ⊎ ((epoch ≡ next_epoch) × (16777221 < 0))))
    × (get_epoch (get_tid epoch 16777221) ≡ epoch)
    × (get_pos (get_tid epoch 16777221) ≡ 16777221 % 2 ^ 24)
get_tid_lem_example =
    get_tid_lem epoch 16777221 next_epoch 0 (omega arith) (omega arith) (omega arith) (omega arith)
