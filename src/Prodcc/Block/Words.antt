-- ===== src/Prodcc/Block/Words.antt =====
-- protocol/Prodcc/ProdccExecutor.h: what the analysis reads in the word that the reservations leave.
use prdcc.Base.{ℕ, ◌^◌, ◌<◌, ◌≡◌, sym, ◌∙◌, ◌↔◌, true, List, [], ◌∷◌, In, arith}
use prdcc.Aria.Helper.{get_epoch}
use prdcc.Aria.Least.{merge, merge-lt, merge-is_earlier, is_earlier}
use prdcc.Aria.Fields.{pack, Fits, get_epoch-pack, get_rts-pack, get_wts-pack}
use prdcc.Aria.Reservation.{Request, readers, writers, IsValid}
use prdcc.Prodcc.Message.{writer_before, reader_before}
use prdcc.Prodcc.Rows.{word_of}

word-Fits :
    (e : ℕ) (qs : List Request)
    → e < 2 ^ 24
    → IsValid qs
    → Fits e (merge 0 (readers qs)) (merge 0 (writers qs))
word-Fits e qs h v = record {
  epoch = h;
  rts = merge-lt 0 _ (omega arith) v.0;
  wts = merge-lt 0 _ (omega arith) v.1;
}

writer_before-pack :
    {e r w : ℕ} (id : ℕ) → Fits e r w → writer_before (pack e r w) e id ≡ is_earlier w id
unfolding writer_before
writer_before-pack id f = ground (arith, get_epoch-pack f, get_wts-pack f)

reader_before-pack :
    {e r w : ℕ} (id : ℕ) → Fits e r w → reader_before (pack e r w) e id ≡ is_earlier r id
unfolding reader_before
reader_before-pack id f = ground (arith, get_epoch-pack f, get_rts-pack f)

pub writer_before-word_of :
    (e : ℕ) (qs : List Request) (id : ℕ)
    → 0 < e
    → e < 2 ^ 24
    → IsValid qs
    → (writer_before (word_of e qs) e id ≡ true) ↔ ((u : ℕ) × In u (writers qs) × (u < id))
unfolding writer_before get_epoch
writer_before-word_of e [] id pos small v = (λ h. absurd (ground arith), λ h. absurd h.1)
writer_before-word_of e (q ∷ qs) id pos small v =
    let f = word-Fits e (q ∷ qs) small v in
    let least = merge-is_earlier (writers (q ∷ qs)) id v.1 in
    (λ h. least.0 (sym (writer_before-pack id f) ∙ h), λ h. writer_before-pack id f ∙ least.1 h)

pub reader_before-word_of :
    (e : ℕ) (qs : List Request) (id : ℕ)
    → 0 < e
    → e < 2 ^ 24
    → IsValid qs
    → (reader_before (word_of e qs) e id ≡ true) ↔ ((u : ℕ) × In u (readers qs) × (u < id))
unfolding reader_before get_epoch
reader_before-word_of e [] id pos small v = (λ h. absurd (ground arith), λ h. absurd h.1)
reader_before-word_of e (q ∷ qs) id pos small v =
    let f = word-Fits e (q ∷ qs) small v in
    let least = merge-is_earlier (readers (q ∷ qs)) id v.0 in
    (λ h. least.0 (sym (reader_before-pack id f) ∙ h), λ h. reader_before-pack id f ∙ least.1 h)
