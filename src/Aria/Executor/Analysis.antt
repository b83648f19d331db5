-- ===== src/Aria/Executor/Analysis.antt =====
-- protocol/Aria/AriaExecutor.h: the analysis of a transaction is that of PRDCC on the same keys.
use prdcc.Base.{
  ℕ, ◌≡◌, refl, sym, ap, ◌∙◌, Bool, true, false, ◌&&◌, List, [], ◌∷◌, ◌++◌, map, Bool-cases, inl,
  inr,
}
use prdcc.Prodcc.Transaction.{Txn, RwKey, u32}
use prdcc.Prodcc.Message.{Meta, Message, writer_before}
use prdcc.Prodcc.Executor as Prodcc
use prdcc.Prodcc.Transaction as ProdccTxn
use prdcc.Aria.Executor as Aria
use prdcc.Aria.Executor.{AriaTxn, AriaContext, AriaMessage, check_request, awaiting}
use prdcc.Aria.Executor.View.{as_txn, as_context, as_message}

abbrev pub as_state : AriaTxn × List AriaMessage → Txn × List Message
as_state (t, out) = (as_txn t, map as_message out)

map-snoc :
    (out : List AriaMessage) (x : AriaMessage)
    → map as_message (out ++ x ∷ []) ≡ map as_message out ++ as_message x ∷ []
map-snoc [] x = refl
map-snoc (y ∷ out) x = ap (λ o. as_message y ∷ o) (map-snoc out x)

module _ (is_master : ℕ → Bool) (m : Meta) where
  analyze_reads-as_state :
      (ks : List RwKey) (t : AriaTxn) (out : List AriaMessage)
      → Prodcc.analyze_reads is_master m ks (as_state (t, out))
        ≡ as_state (Aria.analyze_reads is_master m ks (t, out))
  unfolding Prodcc.analyze_reads Aria.analyze_reads
  analyze_reads-as_state [] t out = refl
  analyze_reads-as_state (k ∷ ks) t out = elim (Bool-cases k.local_index) [
    | inl index ↦ rw index (analyze_reads-as_state ks t out)
    | inr row ↦ elim (Bool-cases (is_master k.row)) [
      | inl mine ↦ elim (Bool-cases (writer_before (m k.row) t.epoch t.id)) [
        | inl hit ↦ rw (row, mine, hit) refl
        | inr miss ↦ rw (row, mine, miss) (analyze_reads-as_state ks t out)
      ]
      | inr other ↦
          let x = check_request k.row (u32 t.id) (u32 t.tid_offset) t.epoch false in
          rw (row, other)
            (ap (λ o. Prodcc.analyze_reads is_master m ks (as_txn (awaiting t), o))
                (sym (map-snoc out x))
              ∙ analyze_reads-as_state ks (awaiting t) (out ++ x ∷ []))
    ]
  ]

  analyze_write_key-as_state :
      (k : RwKey) (t : AriaTxn) (out : List AriaMessage)
      → Prodcc.analyze_write_key is_master m k (as_state (t, out))
        ≡ as_state (Aria.analyze_write_key is_master m k (t, out))
  unfolding Prodcc.analyze_write_key Aria.analyze_write_key
  analyze_write_key-as_state k t out = elim (Bool-cases (is_master k.row)) [
    | inl mine ↦ rw mine refl
    | inr other ↦ rw other (
        ap (λ o. (as_txn (awaiting t), o))
          (sym (map-snoc out (check_request k.row (u32 t.id) (u32 t.tid_offset) t.epoch true))))
  ]

  analyze_writes-as_state :
      (ks : List RwKey) (s : AriaTxn × List AriaMessage)
      → Prodcc.analyze_writes is_master m ks (as_state s)
        ≡ as_state (Aria.analyze_writes is_master m ks s)
  unfolding Prodcc.analyze_writes Aria.analyze_writes
  analyze_writes-as_state [] s = refl
  analyze_writes-as_state (k ∷ ks) (t, out) =
      ap (Prodcc.analyze_writes is_master m ks) (analyze_write_key-as_state k t out)
      ∙ analyze_writes-as_state ks (Aria.analyze_write_key is_master m k (t, out))

  -- The analysis of Aria sets the flags, counts the responses and sends the requests as that of PRDCC.
  pub analyze_dependency-as_state :
      (c : AriaContext) (t : AriaTxn) (out : List AriaMessage)
      → Prodcc.analyze_dependency is_master (as_context c) m (as_state (t, out))
        ≡ as_state (Aria.analyze_dependency is_master c m (t, out))
  unfolding Prodcc.analyze_dependency Aria.analyze_dependency ProdccTxn.is_read_only
      Aria.is_read_only
  analyze_dependency-as_state c t out =
      elim (Bool-cases (c.aria_read_only_optmization && Aria.is_read_only t)) [
        | inl skip ↦ rw skip refl
        | inr go ↦ rw go (
            ap (Prodcc.analyze_writes is_master m t.write_set)
              (analyze_reads-as_state t.read_set t out)
            ∙ analyze_writes-as_state t.write_set
                (Aria.analyze_reads is_master m t.read_set (t, out)))
      ]
