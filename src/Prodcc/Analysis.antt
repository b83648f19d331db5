-- ===== src/Prodcc/Analysis.antt =====
-- protocol/Prodcc/ProdccExecutor.h and ProdccMessage.h: the flags of a transaction after its analysis,
-- once the responses to its check requests have come in.
use prdcc.Base.{
  ℕ, ◌^◌, ◌<◌, ◌≡◌, refl, sym, ap, ap₂, ◌∙◌, Bool, true, false, not, ◌&&◌, ◌||◌, List, [], ◌∷◌,
  ◌++◌, Bool-cases, any, any-snoc, or_assoc, or_comm, or-true, or-false, regroup, front, inl, inr,
}
use native.Mathlib.Nat.{mod-eq_of_lt}
use prdcc.Prodcc.Transaction.{Txn, RwKey, is_read_only, u32}
use prdcc.Prodcc.Message.{
  Meta, Message, writer_before, reader_before, check_request, check_response, check_request_handler,
  take_flags, answered,
}
use prdcc.Prodcc.Executor.{
  Context, awaiting, analyze_reads, analyze_write_key, analyze_writes, analyze_dependency,
}

-- The flags, as one message after another of the list is handled by the owner of its row and its
-- response by the sender.
unfoldable pub deliver : Meta → Message → Txn → Txn
deliver m (check_request row tid off epoch is_write) t =
    elim (check_request_handler row tid off epoch is_write m) [
      | check_response _ _ w waw war raw ↦ answered (take_flags w waw war raw t)
      | _ ↦ t
    ]
deliver m _ t = t

unfoldable pub settle : Meta → List Message → Txn → Txn
settle m [] t = t
settle m (x ∷ xs) t = settle m xs (deliver m x t)

-- The flags that the response to a message will set.
module _ (m : Meta) where
  abbrev raw_message : Message → Bool
  raw_message (check_request row tid off epoch w) = not w && writer_before (m row) epoch tid
  raw_message _ = false

  abbrev war_message : Message → Bool
  war_message (check_request row tid off epoch w) = w && reader_before (m row) epoch tid
  war_message _ = false

  abbrev waw_message : Message → Bool
  waw_message (check_request row tid off epoch w) = w && writer_before (m row) epoch tid
  waw_message _ = false

  deliver-flags :
      (x : Message) (t : Txn)
      → ((deliver m x t).raw ≡ (t.raw || raw_message x))
        × ((deliver m x t).war ≡ (t.war || war_message x))
        × ((deliver m x t).waw ≡ (t.waw || waw_message x))
  unfolding deliver check_request_handler take_flags answered
  deliver-flags (check_request row tid off epoch true) t = (
    sym (or-false _),
    or_comm (reader_before (m row) epoch tid) t.war,
    or_comm (writer_before (m row) epoch tid) t.waw,
  )
  deliver-flags (check_request row tid off epoch false) t =
      (or_comm (writer_before (m row) epoch tid) t.raw, sym (or-false _), sym (or-false _))
  deliver-flags _ t = (sym (or-false _), sym (or-false _), sym (or-false _))

  -- The three flags of `t` once `out` is settled.
  abbrev raw_of : Txn × List Message → Bool
  raw_of (t, out) = t.raw || any raw_message out

  abbrev war_of : Txn × List Message → Bool
  war_of (t, out) = t.war || any war_message out

  abbrev waw_of : Txn × List Message → Bool
  waw_of (t, out) = t.waw || any waw_message out

  settle-flags :
      (xs : List Message) (t : Txn)
      → ((settle m xs t).raw ≡ raw_of (t, xs))
        × ((settle m xs t).war ≡ war_of (t, xs))
        × ((settle m xs t).waw ≡ waw_of (t, xs))
  unfolding settle
  settle-flags [] t = (sym (or-false _), sym (or-false _), sym (or-false _))
  settle-flags (x ∷ xs) t =
      let (r, a, w) = settle-flags xs (deliver m x t) in
      let (r', a', w') = deliver-flags x t in
      (
        r
            ∙ ap (λ b. b || any raw_message xs) r'
            ∙ or_assoc t.raw (raw_message x) (any raw_message xs),
        a
            ∙ ap (λ b. b || any war_message xs) a'
            ∙ or_assoc t.war (war_message x) (any war_message xs),
        w
            ∙ ap (λ b. b || any waw_message xs) w'
            ∙ or_assoc t.waw (waw_message x) (any waw_message xs),
      )

  abbrev request : Txn → RwKey → Bool → Message
  request t k w = check_request k.row (u32 t.id) (u32 t.tid_offset) t.epoch w

  -- A key that passes a test of its row; local index reads are left out.
  abbrev pub writer_test : Txn → RwKey → Bool
  writer_test t k = not k.local_index && writer_before (m k.row) t.epoch t.id

  module _ (is_master : ℕ → Bool) where
    analyze_reads-raw :
        (ks : List RwKey) (t : Txn) (out : List Message)
        → t.id < 2 ^ 32
        → raw_of (analyze_reads is_master m ks (t, out))
          ≡ (raw_of (t, out) || any (writer_test t) ks)
    unfolding analyze_reads
    analyze_reads-raw [] t out h = sym (or-false _)
    analyze_reads-raw (k ∷ ks) t out h = elim (Bool-cases k.local_index) [
      | inl index ↦ rw index (analyze_reads-raw ks t out h)
      | inr row ↦ elim (Bool-cases (is_master k.row)) [
        | inl mine ↦ elim (Bool-cases (writer_before (m k.row) t.epoch t.id)) [
          | inl hit ↦ rw (row, mine, hit) (sym (or-true (raw_of (t, out))))
          | inr miss ↦ rw (row, mine, miss) (analyze_reads-raw ks t out h)
        ]
        | inr other ↦
            let x = request t k false in
            let wb = writer_before (m k.row) t.epoch t.id in
            let exact : raw_message x ≡ wb =
              ap (writer_before (m k.row) t.epoch) (mod-eq_of_lt h) in
            rw (row, other)
              (analyze_reads-raw ks (awaiting t) (out ++ x ∷ []) h
                ∙ ap (λ b. (t.raw || b) || any (writer_test t) ks)
                    (any-snoc raw_message out x ∙ ap (λ b. any raw_message out || b) exact)
                ∙ regroup t.raw (any raw_message out) wb (any (writer_test t) ks))
      ]
    ]

    analyze_reads-kept :
        (ks : List RwKey) (t : Txn) (out : List Message)
        → let s = analyze_reads is_master m ks (t, out) in
          (war_of s ≡ war_of (t, out))
          × (waw_of s ≡ waw_of (t, out))
          × (s.0.id ≡ t.id)
          × (s.0.epoch ≡ t.epoch)
    unfolding analyze_reads
    analyze_reads-kept [] t out = (refl, refl, refl, refl)
    analyze_reads-kept (k ∷ ks) t out = elim (Bool-cases k.local_index) [
      | inl index ↦ rw index (analyze_reads-kept ks t out)
      | inr row ↦ elim (Bool-cases (is_master k.row)) [
        | inl mine ↦ elim (Bool-cases (writer_before (m k.row) t.epoch t.id)) [
          | inl hit ↦ rw (row, mine, hit) (refl, refl, refl, refl)
          | inr miss ↦ rw (row, mine, miss) (analyze_reads-kept ks t out)
        ]
        | inr other ↦
            let x = request t k false in
            let (a, b, c, d) = analyze_reads-kept ks (awaiting t) (out ++ x ∷ []) in
            rw (row, other)
              (
                a ∙ ap (λ b. t.war || b) (any-snoc war_message out x ∙ or-false _),
                b ∙ ap (λ b. t.waw || b) (any-snoc waw_message out x ∙ or-false _),
                c,
                d,
              )
      ]
    ]

    analyze_write_key-flags :
        (k : RwKey) (t : Txn) (out : List Message)
        → t.id < 2 ^ 32
        → let s = analyze_write_key is_master m k (t, out) in
          (raw_of s ≡ raw_of (t, out))
          × (war_of s ≡ (war_of (t, out) || reader_before (m k.row) t.epoch t.id))
          × (waw_of s ≡ (waw_of (t, out) || writer_before (m k.row) t.epoch t.id))
          × (s.0.id ≡ t.id)
          × (s.0.epoch ≡ t.epoch)
    unfolding analyze_write_key
    analyze_write_key-flags k t out h =
        let rb = reader_before (m k.row) t.epoch t.id in
        let wb = writer_before (m k.row) t.epoch t.id in
        elim (Bool-cases (is_master k.row)) [
          | inl mine ↦ rw mine (
            refl,
            front rb t.war (any war_message out),
            front wb t.waw (any waw_message out),
            refl,
            refl,
          )
          | inr other ↦
              let x = request t k true in
              rw other (
                ap (λ b. t.raw || b) (any-snoc raw_message out x ∙ or-false _),
                ap (λ b. t.war || b)
                      (any-snoc war_message out x
                        ∙ ap (λ b. any war_message out || reader_before (m k.row) t.epoch b)
                            (mod-eq_of_lt h))
                    ∙ sym (or_assoc t.war (any war_message out) rb),
                ap (λ b. t.waw || b)
                      (any-snoc waw_message out x
                        ∙ ap (λ b. any waw_message out || writer_before (m k.row) t.epoch b)
                            (mod-eq_of_lt h))
                    ∙ sym (or_assoc t.waw (any waw_message out) wb),
                refl,
                refl,
              )
        ]

    analyze_writes-flags :
        (ks : List RwKey) (s : Txn × List Message) (epoch id : ℕ)
        → s.0.id ≡ id
        → s.0.epoch ≡ epoch
        → id < 2 ^ 32
        → let s' = analyze_writes is_master m ks s in
          (raw_of s' ≡ raw_of s)
          × (war_of s' ≡ (war_of s || any (λ k. reader_before (m k.row) epoch id) ks))
          × (waw_of s' ≡ (waw_of s || any (λ k. writer_before (m k.row) epoch id) ks))
    unfolding analyze_writes
    analyze_writes-flags [] s epoch id p q h = (refl, sym (or-false _), sym (or-false _))
    analyze_writes-flags (k ∷ ks) (t, out) epoch id p q h =
        let (r, a, w, i, e) = analyze_write_key-flags k t out (rw p h) in
        let (r', a', w') =
          analyze_writes-flags ks (analyze_write_key is_master m k (t, out)) epoch id (i ∙ p)
            (e ∙ q) h in
        (
          r' ∙ r,
          a'
              ∙ ap (λ b. b || any (λ k. reader_before (m k.row) epoch id) ks)
                  (a ∙ ap₂ (λ e i. war_of (t, out) || reader_before (m k.row) e i) q p)
              ∙ or_assoc (war_of (t, out)) (reader_before (m k.row) epoch id) _,
          w'
              ∙ ap (λ b. b || any (λ k. writer_before (m k.row) epoch id) ks)
                  (w ∙ ap₂ (λ e i. waw_of (t, out) || writer_before (m k.row) e i) q p)
              ∙ or_assoc (waw_of (t, out)) (writer_before (m k.row) epoch id) _,
        )

    -- Once every check request is answered, a transaction that has gone through the analysis has
    -- exactly the flags of the tests on the rows that it reads and writes, wherever those are.
    pub analyze_dependency-flags :
        (c : Context) (t : Txn)
        → t.id < 2 ^ 32
        → (c.read_only_optimization && is_read_only t) ≡ false
        → t.raw ≡ false
        → t.war ≡ false
        → t.waw ≡ false
        → let (t', out) = analyze_dependency is_master c m (t, []) in
          ((settle m out t').raw ≡ any (writer_test t) t.read_set)
          × ((settle m out t').war ≡ any (λ k. reader_before (m k.row) t.epoch t.id) t.write_set)
          × ((settle m out t').waw ≡ any (λ k. writer_before (m k.row) t.epoch t.id) t.write_set)
    unfolding analyze_dependency
    analyze_dependency-flags c t h go nr na nw =
        let s = analyze_reads is_master m t.read_set (t, []) in
        let (a, w, i, e) = analyze_reads-kept t.read_set t [] in
        let (r', a', w') = analyze_writes-flags t.write_set s t.epoch t.id i e h in
        let s' = analyze_writes is_master m t.write_set s in
        let (fr, fa, fw) = settle-flags s'.1 s'.0 in
        rw go (
          fr
              ∙ r'
              ∙ analyze_reads-raw t.read_set t [] h
              ∙ ap (λ b. (b || false) || any (writer_test t) t.read_set) nr,
          fa
              ∙ a'
              ∙ ap (λ b. b || any (λ k. reader_before (m k.row) t.epoch t.id) t.write_set)
                  (a ∙ or-false t.war ∙ na),
          fw
              ∙ w'
              ∙ ap (λ b. b || any (λ k. writer_before (m k.row) t.epoch t.id) t.write_set)
                  (w ∙ or-false t.waw ∙ nw),
        )
