-- ===== src/Wal/Log/Entries.antt =====
-- What the writing methods of write-ahead-log/wal.py add to a log.
use ddia_implementations.Prelude.{
  ℕ, ◌+◌, ◌≤◌, List, [], ◌∷◌, ◌++◌, some, ◌≡◌, refl, arith, ap, ◌∙◌, sym, subst, get_or, length,
  Option-cases, inl, inr, append-nil, false, true,
}
use ddia_implementations.Wal.Bytes.{Bytes}
use ddia_implementations.Wal.Record.{
  Op, op_byte, op_name, WalRecord, Runtime, IsLossless, encode_record, crc_of, commit, begin, got,
}
use ddia_implementations.Wal.Codec.{read_record-encode_record, read_record-take}
use ddia_implementations.Wal.Log.Whole.{Encodes, nothing, more, IsRecord, Encodes-append}
use ddia_implementations.Wal.Log.Clean.{Rising, IsLog, write_record-IsLog, Rising-append}
use ddia_implementations.Wal.Log.{
  WriteAheadLog, encode_op, encode_all, encode_batch, append, append_batch, write_record,
}

module _ {T : Type 0} (r : Runtime T) where
  -- the record that a call of `append` with these arguments should leave
  abbrev pub entry : ℕ → Op → T → T → WalRecord T
  entry seq op key value = record {
    seq_num = seq;
    op_type = op;
    key = key;
    value = value;
    checksum = crc_of r (get_or (op_byte op) 0) (r.encode key) (r.encode value);
  }

  abbrev pub entries : ℕ → List (Op × (T × T)) → List (WalRecord T)
  entries seq [] = []
  entries seq ((op, (key, value)) ∷ ops) = entry (seq + 1) op key value ∷ entries (seq + 1) ops

  abbrev pub commit_entry : ℕ → List (Op × (T × T)) → WalRecord T
  commit_entry seq ops = entry (seq + 1 + length ops + 1) commit r.empty r.empty

  -- the records of a batch
  abbrev pub batch_of : ℕ → List (Op × (T × T)) → List (WalRecord T)
  batch_of seq ops =
      entry (seq + 1) begin r.empty r.empty ∷ (entries (seq + 1) ops ++ commit_entry seq ops ∷ [])

  Encodes-one : (bs : Bytes) (x : WalRecord T) → IsRecord r bs x → Encodes r bs (x ∷ [])
  Encodes-one bs x h = subst (λ t. Encodes r t (x ∷ [])) (append-nil bs) (more bs [] x [] h nothing)

  op_name-op_byte : (op : Op) (b : ℕ) → op_byte op ≡ some b → op_name b ≡ op
  unfolding op_name
  op_name-op_byte op b e = ground arith

  pub encode_op-IsRecord :
      (seq : ℕ) (op : Op) (key value : T) (bs : Bytes)
      → IsLossless r
      → encode_op r seq op key value ≡ some bs
      → IsRecord r bs (entry seq op key value)
  unfolding encode_op
  encode_op-IsRecord seq op key value bs law e = elim (Option-cases (op_byte op)) [
    | inl q ↦ absurd (ground arith)
    | inr (b, q) ↦
        let made : encode_record r seq b (r.encode key) (r.encode value) ≡ some bs = ground arith in
        let same : got (record {
          seq_num = seq;
          op_type = op_name b;
          key = key;
          value = value;
          checksum = crc_of r b (r.encode key) (r.encode value);
        })
            ≡ got (entry seq op key value) =
          ground (arith, op_name-op_byte op b q) in
        record {
          whole = λ rest.
              read_record-encode_record r seq b key value bs rest (law.decodes key)
                (law.decodes value) made
              ∙ ap (λ f. f rest) same;
          cut = λ n h. read_record-take r seq b n (r.encode key) (r.encode value) bs made h;
        }
  ]

  -- BEGIN and COMMIT have empty texts
  encode_op-empty :
      (seq b : ℕ) (op : Op)
      → IsLossless r
      → op_byte op ≡ some b
      → encode_record r seq b [] [] ≡ encode_op r seq op r.empty r.empty
  unfolding encode_op
  encode_op-empty seq b op law e = ground (arith, law.encodes_empty, e)

  encode_all-Encodes :
      (seq c : ℕ) (ops : List (Op × (T × T))) (bs : Bytes)
      → IsLossless r
      → encode_all r seq ops ≡ (c, some bs)
      → Encodes r bs (entries seq ops) × (c ≡ seq + length ops)
  unfolding encode_all
  encode_all-Encodes seq c [] bs law e =
      (subst (λ t. Encodes r t []) (ground arith) nothing, ground arith)
  encode_all-Encodes seq c ((op, (key, value)) ∷ ops) bs law e =
      elim (Option-cases (encode_op r (seq + 1) op key value)) [
        | inl q ↦ absurd (ground arith)
        | inr (b, q) ↦ elim (Option-cases (encode_all r (seq + 1) ops).1) [
          | inl p ↦ absurd (ground arith)
          | inr (rest, p) ↦
              let ih =
                encode_all-Encodes (seq + 1) (encode_all r (seq + 1) ops).0 ops rest law
                  (ground (arith, p)) in
              let same : b ++ rest ≡ bs = ground (arith, q, p) in
              (
                subst (λ t. Encodes r t (entries seq ((op, (key, value)) ∷ ops))) same
                    (more b rest (entry (seq + 1) op key value) (entries (seq + 1) ops)
                      (encode_op-IsRecord (seq + 1) op key value b law q) ih.0),
                ground (arith, ih.1, q, p),
              )
        ]
      ]

  pub encode_batch-Encodes :
      (seq c : ℕ) (ops : List (Op × (T × T))) (bs : Bytes)
      → IsLossless r
      → encode_batch r seq ops ≡ (c, some bs)
      → Encodes r bs (batch_of seq ops) × (c ≡ seq + 1 + length ops + 1)
  unfolding encode_batch
  encode_batch-Encodes seq c ops bs law e =
      elim (Option-cases (encode_record r (seq + 1) 5 [] [])) [
        | inl q ↦ absurd (ground arith)
        | inr (first, q) ↦ elim (Option-cases (encode_all r (seq + 1) ops).1) [
          | inl p ↦ absurd (ground arith)
          | inr (middle, p) ↦
              elim (Option-cases (encode_record r ((encode_all r (seq + 1) ops).0 + 1) 3 [] [])) [
                | inl o ↦ absurd (ground arith)
                | inr (last, o) ↦
                    let inner =
                      encode_all-Encodes (seq + 1) (encode_all r (seq + 1) ops).0 ops middle law
                        (ground (arith, p)) in
                    let count : (encode_all r (seq + 1) ops).0 + 1 ≡ seq + 1 + length ops + 1 =
                      omega (arith, inner.1) in
                    let final : encode_record r (seq + 1 + length ops + 1) 3 [] [] ≡ some last =
                      subst (λ i. encode_record r i 3 [] [] ≡ some last) count o in
                    let same : first ++ (middle ++ last) ≡ bs = ground (arith, q, p, o) in
                    (
                      subst (λ t. Encodes r t (batch_of seq ops)) same
                          (more first (middle ++ last) _ _
                            (encode_op-IsRecord (seq + 1) begin r.empty r.empty first law
                              (sym (encode_op-empty (seq + 1) 5 begin law refl) ∙ q))
                            (Encodes-append r middle last (entries (seq + 1) ops)
                              (commit_entry seq ops ∷ []) inner.0
                              (Encodes-one last (commit_entry seq ops) (
                                encode_op-IsRecord (seq + 1 + length ops + 1) commit r.empty r.empty
                                  last law
                                  (sym
                                      (encode_op-empty (seq + 1 + length ops + 1) 3 commit law refl)
                                    ∙ final))))),
                      ground (arith, count, q, p, o),
                    )
              ]
        ]
      ]

  Rising-entries :
      (seq : ℕ) (ops : List (Op × (T × T))) → Rising seq (entries seq ops) (seq + length ops)
  Rising-entries seq [] = omega arith
  Rising-entries seq ((op, (key, value)) ∷ ops) = (
    omega arith,
    subst (Rising (seq + 1) (entries (seq + 1) ops)) (omega arith) (Rising-entries (seq + 1) ops),
  )

  pub Rising-batch_of :
      (last seq : ℕ) (ops : List (Op × (T × T)))
      → last ≤ seq
      → Rising last (batch_of seq ops) (seq + 1 + length ops + 1)
  Rising-batch_of last seq ops h = (
    omega arith,
    Rising-append (seq + 1) (seq + 1 + length ops) (seq + 1 + length ops + 1)
        (entries (seq + 1) ops) (commit_entry seq ops ∷ []) (Rising-entries (seq + 1) ops)
        (omega arith, refl),
  )

  -- `append` that gives a number keeps the log well formed and adds one record at its end: the
  -- operation and texts of the call, under the number that it gives, one more than the log's.
  pub append-IsLog :
      (w w' : WriteAheadLog) (xs : List (WalRecord T)) (op : Op) (key value : T) (n : ℕ)
      → IsLossless r
      → IsLog r w xs
      → append r w op key value ≡ (w', some n)
      → IsLog r w' (xs ++ entry n op key value ∷ []) × (n ≡ w.seq_num + 1)
  unfolding append write_record
  append-IsLog w w' xs op key value n law v e =
      elim (Option-cases (encode_op r (w.seq_num + 1) op key value)) [
        | inl q ↦ absurd (ground arith)
        | inr (bs, q) ↦
            let seq : ℕ = w.seq_num + 1 in
            let done =
              write_record-IsLog r (record w { seq_num = seq }) w' false bs n seq xs
                (entry seq op key value ∷ [])
                (record {
                  last_seq = v.last_seq;
                  clean = v.clean;
                  numbered = omega (arith, v.numbered);
                  opened = v.opened;
                })
                (Encodes-one bs _ (encode_op-IsRecord seq op key value bs law q))
                (omega (arith, v.numbered), refl) (omega arith) (ground arith) in
            (subst (λ s. IsLog r w' (xs ++ entry s op key value ∷ [])) (sym done.1) done.0, done.1)
      ]

  pub append_batch-IsLog :
      (w w' : WriteAheadLog) (xs : List (WalRecord T)) (ops : List (Op × (T × T))) (n : ℕ)
      → IsLossless r
      → IsLog r w xs
      → append_batch r w ops ≡ (w', some n)
      → IsLog r w' (xs ++ batch_of w.seq_num ops)
  unfolding append_batch write_record
  append_batch-IsLog w w' xs ops n law v e = elim (Option-cases (encode_batch r w.seq_num ops).1) [
    | inl q ↦ absurd (ground arith)
    | inr (bs, q) ↦
        let seq : ℕ = (encode_batch r w.seq_num ops).0 in
        let made = encode_batch-Encodes w.seq_num seq ops bs law (ground (arith, q)) in
        (write_record-IsLog r (record w { seq_num = seq }) w' true bs n
          (w.seq_num + 1 + length ops + 1) xs (batch_of w.seq_num ops)
          (record {
            last_seq = v.last_seq;
            clean = v.clean;
            numbered = omega (arith, v.numbered, made.1);
            opened = v.opened;
          })
          made.0 (Rising-batch_of v.last_seq w.seq_num ops v.numbered) (omega (arith, made.1))
          (ground arith)).0
  ]
