-- ===== src/Aria/Reservation.antt =====
-- protocol/Aria/AriaHelper.h: what a sequence of reservations leaves in the metadata word of a row.
use prdcc.Base.{
  ℕ, ◌^◌, ◌<◌, ◌≡◌, refl, sym, ap, ap₂, ◌∙◌, ◌↔◌, inl, inr, Option, none, some, List, [], ◌∷◌, In,
  All, arith, Option-cases,
}
use prdcc.Aria.Helper.{reserve_read, reserve_write, get_epoch}
use prdcc.Aria.Least.{IsTid, join, join-lt, merge, merge-eq}
use prdcc.Aria.Fields.{
  pack, Fits, pack-get, get_epoch-pack, get_rts-pack, get_wts-pack, set_epoch-pack, set_rts-pack,
  set_wts-pack,
}

-- A call of `reserve_read` or of `reserve_write` on a row, by the transaction `tid`.
pub data Request : Type 0 where
  read write : (tid : ℕ) → Request

unfoldable pub reserve : ℕ → Request → ℕ → Option ℕ
reserve epoch (read tid) a = elim (reserve_read a epoch tid) [ none ↦ none | some (_, b) ↦ some b ]
reserve epoch (write tid) a = elim (reserve_write a epoch tid) [
  | none ↦ none
  | some (_, b) ↦ some b
]

zero-Fits : Fits 0 0 0
zero-Fits = omega arith

fresh : {e : ℕ} → e < 2 ^ 24 → Fits e 0 0
fresh h = omega arith

-- A sequence of such calls, as the row's word undergoes them.
unfoldable pub reserve_all : ℕ → List Request → ℕ → Option ℕ
reserve_all epoch [] a = some a
reserve_all epoch (q ∷ qs) a = elim (reserve epoch q a) [
  | none ↦ none
  | some b ↦ reserve_all epoch qs b
]

abbrev pub readers : List Request → List ℕ
readers [] = []
readers (read t ∷ qs) = t ∷ readers qs
readers (write t ∷ qs) = readers qs

abbrev pub writers : List Request → List ℕ
writers [] = []
writers (read t ∷ qs) = writers qs
writers (write t ∷ qs) = t ∷ writers qs

pub readers-In : (t : ℕ) (qs : List Request) → In t (readers qs) ↔ In (read t) qs
readers-In t [] = (λ m. m, λ m. m)
readers-In t (read u ∷ qs) = (
  elim [ inl e ↦ inl (ap read e) | inr m ↦ inr ((readers-In t qs).0 m) ],
  elim [ inl e ↦ inl (cc) | inr m ↦ inr ((readers-In t qs).1 m) ],
)
readers-In t (write u ∷ qs) =
    (λ m. inr ((readers-In t qs).0 m), elim [ inl e ↦ cc | inr m ↦ (readers-In t qs).1 m ])

pub writers-In : (t : ℕ) (qs : List Request) → In t (writers qs) ↔ In (write t) qs
writers-In t [] = (λ m. m, λ m. m)
writers-In t (write u ∷ qs) = (
  elim [ inl e ↦ inl (ap write e) | inr m ↦ inr ((writers-In t qs).0 m) ],
  elim [ inl e ↦ inl (cc) | inr m ↦ inr ((writers-In t qs).1 m) ],
)
writers-In t (read u ∷ qs) =
    (λ m. inr ((writers-In t qs).0 m), elim [ inl e ↦ cc | inr m ↦ (writers-In t qs).1 m ])

module _ (qs us : List Request) (sub : (q : Request) → In q qs → In q us) where
  readers-incl : (t : ℕ) → In t (readers qs) → In t (readers us)
  readers-incl t m = (readers-In t us).1 (sub _ ((readers-In t qs).0 m))

  writers-incl : (t : ℕ) → In t (writers qs) → In t (writers us)
  writers-incl t m = (writers-In t us).1 (sub _ ((writers-In t qs).0 m))

abbrev pub IsValid : List Request → Type 0
IsValid qs = All IsTid (readers qs) × All IsTid (writers qs)

reserve-read_pack :
    (e r w t : ℕ)
    → Fits e r w
    → IsTid t
    → reserve e (read t) (pack e r w) ≡ some (pack e (join r t) w)
unfolding reserve reserve_read join
reserve-read_pack e r w t f h =
    ground (arith, get_epoch-pack f, get_rts-pack f, set_rts-pack f t h.1)

reserve-write_pack :
    (e r w t : ℕ)
    → Fits e r w
    → IsTid t
    → reserve e (write t) (pack e r w) ≡ some (pack e r (join w t))
unfolding reserve reserve_write join
reserve-write_pack e r w t f h =
    ground (arith, get_epoch-pack f, get_wts-pack f, set_wts-pack f t h.1)

head_IsValid : (q : Request) (qs : List Request) → IsValid (q ∷ qs) → IsValid (q ∷ [])
head_IsValid (read t) qs v = ((v.0.0, tt), tt)
head_IsValid (write t) qs v = (tt, (v.1.0, tt))

-- The first reservation of an epoch starts the word afresh.
reserve_newer :
    (e e' r w : ℕ) (q : Request)
    → Fits e r w
    → e < e'
    → e' < 2 ^ 24
    → IsValid (q ∷ [])
    → reserve e' q (pack e r w) ≡ reserve e' q (pack e' 0 0)
unfolding reserve reserve_read reserve_write
reserve_newer e e' r w (read t) f lt h v = ground (
  arith,
  get_epoch-pack f,
  get_epoch-pack (fresh h),
  get_rts-pack (fresh h),
  set_epoch-pack zero-Fits e' h,
)
reserve_newer e e' r w (write t) f lt h v = ground (
  arith,
  get_epoch-pack f,
  get_epoch-pack (fresh h),
  get_wts-pack (fresh h),
  set_epoch-pack zero-Fits e' h,
)

pub reserve_all-pack :
    (e r w : ℕ) (qs : List Request)
    → Fits e r w
    → IsValid qs
    → reserve_all e qs (pack e r w) ≡ some (pack e (merge r (readers qs)) (merge w (writers qs)))
unfolding reserve_all merge
reserve_all-pack e r w [] f v = refl
reserve_all-pack e r w (read t ∷ qs) f v =
    rw (reserve-read_pack e r w t f v.0.0, reserve_all)
      (reserve_all-pack e (join r t) w qs
        (record { epoch = f.epoch; rts = join-lt r t f.rts v.0.0; wts = f.wts }) (v.0.1, v.1))
reserve_all-pack e r w (write t ∷ qs) f v =
    rw (reserve-write_pack e r w t f v.1.0, reserve_all)
      (reserve_all-pack e r (join w t) qs
        (record { epoch = f.epoch; rts = f.rts; wts = join-lt w t f.wts v.1.0 }) (v.0, v.1.1))

pub cons_IsValid :
    (q : Request) (qs : List Request) → IsValid (q ∷ []) → IsValid qs → IsValid (q ∷ qs)
cons_IsValid (read t) qs v vs = ((v.0.0, vs.0), vs.1)
cons_IsValid (write t) qs v vs = (vs.0, (v.1.0, vs.1))

-- Whatever a word of an older epoch holds, the reservations of a new epoch leave in it the least
-- reader and the least writer of the new epoch alone.
pub reserve_all-newer :
    (a e : ℕ) (q : Request) (qs : List Request)
    → a < 2 ^ 64
    → get_epoch a < e
    → e < 2 ^ 24
    → IsValid (q ∷ qs)
    → reserve_all e (q ∷ qs) a
      ≡ some (pack e (merge 0 (readers (q ∷ qs))) (merge 0 (writers (q ∷ qs))))
unfolding reserve_all
reserve_all-newer a e q qs fits lt h v =
    let (f, unpacked) = pack-get a fits in
    ap (λ x. elim x [ none ↦ none | some b ↦ reserve_all e qs b ])
      (ap (reserve e q) unpacked ∙ reserve_newer (get_epoch a) e _ _ q f lt h (head_IsValid q qs v))
    ∙ reserve_all-pack e 0 0 (q ∷ qs) (fresh h) v

-- Two interleavings of the same reservations, in whatever order and however often repeated, leave
-- the same word.
pub reserve_all-order :
    (a e : ℕ) (qs us : List Request)
    → a < 2 ^ 64
    → get_epoch a < e
    → e < 2 ^ 24
    → IsValid qs
    → IsValid us
    → ((q : Request) → In q qs ↔ In q us)
    → reserve_all e qs a ≡ reserve_all e us a
unfolding reserve_all
reserve_all-order a e [] [] fits lt h v v' same = refl
reserve_all-order a e [] (u ∷ us) fits lt h v v' same = absurd ((same u).1 (inl refl))
reserve_all-order a e (q ∷ qs) [] fits lt h v v' same = absurd ((same q).0 (inl refl))
reserve_all-order a e (q ∷ qs) (u ∷ us) fits lt h v v' same =
    reserve_all-newer a e q qs fits lt h v
    ∙ ap₂ (λ x y. some (pack e x y))
        (merge-eq _ _ v.0 v'.0 (readers-incl (q ∷ qs) (u ∷ us) (λ r. (same r).0))
          (readers-incl (u ∷ us) (q ∷ qs) (λ r. (same r).1)))
        (merge-eq _ _ v.1 v'.1 (writers-incl (q ∷ qs) (u ∷ us) (λ r. (same r).0))
          (writers-incl (u ∷ us) (q ∷ qs) (λ r. (same r).1)))
    ∙ sym (reserve_all-newer a e u us fits lt h v')

-- A reservation that comes from an older epoch than the word's fails its `CHECK`.
reserve-stale : (a e : ℕ) (q : Request) → e < get_epoch a → reserve e q a ≡ none
unfolding reserve reserve_read reserve_write
reserve-stale a e (read t) h = ground arith
reserve-stale a e (write t) h = ground arith

pub reserve_all-one : (a e : ℕ) (q : Request) → reserve_all e (q ∷ []) a ≡ reserve e q a
unfolding reserve_all
reserve_all-one a e q = elim (Option-cases (reserve e q a)) [
  | inl p ↦ ground arith
  | inr (b, p) ↦ ground arith
]
