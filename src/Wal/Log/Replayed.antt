-- ===== src/Wal/Log/Replayed.antt =====
-- `replay` of write-ahead-log/wal.py after whole and torn writes.
use ddia_implementations.Prelude.{
  ℕ, zero, suc, ◌+◌, ◌≤◌, ◌<◌, List, [], ◌∷◌, ◌++◌, some, ◌≡◌, refl, arith, ap, ◌∙◌, sym, length,
  take, All, true, false, append-nil, append_assoc, ◌⊎◌, ◌>>=◌, inl, length-append, inr,
  take-append, All-take,
}
use ddia_implementations.Wal.Bytes.{Bytes}
use ddia_implementations.Wal.Record.{
  Op, WalRecord, Runtime, IsLossless, put, delete, begin, commit, read_record, at_eof,
}
use ddia_implementations.Wal.Log.Read.{File, Replayed, start, replay_one, replay_all, replay}
use ddia_implementations.Wal.Log.Whole.{Encodes, Cut-Encodes, nothing}
use ddia_implementations.Wal.Log.Clean.{Rising, IsLog, read_all_records-torn}
use ddia_implementations.Wal.Log.Entries.{
  entry, entries, batch_of, commit_entry, encode_batch-Encodes, Rising-batch_of, append-IsLog,
  append_batch-IsLog,
}
use ddia_implementations.Wal.Log.{WriteAheadLog, encode_batch, append, append_batch, write_last}

module _ {T : Type 0} where
  replay_all-append :
      (a : ℕ) (p : Replayed T) (xs ys : List (WalRecord T))
      → replay_all a p (xs ++ ys) ≡ replay_all a (replay_all a p xs) ys
  unfolding replay_all
  replay_all-append a p [] ys = refl
  replay_all-append a p (x ∷ xs) ys = replay_all-append a (replay_one a p x) xs ys

  -- a record of `put` or `delete` with a number after `a`
  abbrev pub IsWrite : ℕ → WalRecord T → Type 0
  IsWrite a x = (a < x.seq_num) × ((x.op_type ≡ put) ⊎ (x.op_type ≡ delete))

  replay_all-buffers :
      (a : ℕ) (p : Replayed T) (xs : List (WalRecord T))
      → All (IsWrite a) xs
      → p.in_batch ≡ true
      → replay_all a p xs ≡ record p { batch_buf = p.batch_buf ++ xs }
  unfolding replay_all replay_one
  replay_all-buffers a p [] h b = ground (arith, append-nil p.batch_buf)
  replay_all-buffers a p (x ∷ xs) h b =
      let step : replay_one a p x ≡ record p { batch_buf = p.batch_buf ++ x ∷ [] } = elim h.0.1 [
        | inl w ↦ ground (arith, h.0.0)
        | inr w ↦ ground (arith, h.0.0)
      ] in
      ap (λ q. replay_all a q xs) step
      ∙ replay_all-buffers a (record p { batch_buf = p.batch_buf ++ x ∷ [] }) xs h.1 b
      ∙ ap (λ t. record p { batch_buf = t }) (append_assoc p.batch_buf (x ∷ []) xs)

  -- operations of `put` and `delete` only
  abbrev pub IsWrites : List (Op × (T × T)) → Type 0
  IsWrites ops = All (λ o. (o.0 ≡ put) ⊎ (o.0 ≡ delete)) ops

  Rising-take :
      (last end k : ℕ) (xs : List (WalRecord T))
      → Rising last xs end
      → (mid : ℕ) × Rising last (take k xs) mid
  Rising-take last end zero xs h = (last, refl)
  Rising-take last end (suc k) [] h = (last, refl)
  Rising-take last end (suc k) (x ∷ xs) h =
      let rest = Rising-take x.seq_num end k xs h.1 in (rest.0, (h.0, rest.1))

module _ {T : Type 0} (r : Runtime T) where
  entries-IsWrite :
      (a seq : ℕ) (ops : List (Op × (T × T)))
      → a ≤ seq
      → IsWrites ops
      → All (IsWrite a) (entries r seq ops)
  entries-IsWrite a seq [] h o = tt
  entries-IsWrite a seq ((op, (key, value)) ∷ ops) h o =
      ((omega arith, o.0), entries-IsWrite a (seq + 1) ops (omega arith) o.1)

  replay_all-begin :
      (a seq : ℕ) (p : Replayed T) (xs : List (WalRecord T))
      → a ≤ seq
      → replay_all a p (entry r (seq + 1) begin r.empty r.empty ∷ xs)
        ≡ replay_all a (record p { in_batch = true; batch_buf = [] }) xs
  unfolding replay_all replay_one
  replay_all-begin a seq p xs h = ap (λ q. replay_all a q xs) (ground arith)

  replay_all-commit :
      (a n : ℕ) (p : Replayed T)
      → a < n
      → p.in_batch ≡ true
      → replay_all a p (entry r n commit r.empty r.empty ∷ [])
        ≡ record { result = p.result ++ p.batch_buf; in_batch = false; batch_buf = [] }
  unfolding replay_all replay_one
  replay_all-commit a n p h b = ground arith

  replay_all-batch_of :
      (a seq : ℕ) (p : Replayed T) (ops : List (Op × (T × T)))
      → a ≤ seq
      → IsWrites ops
      → (replay_all a p (batch_of r seq ops)).result ≡ p.result ++ entries r (seq + 1) ops
  replay_all-batch_of a seq p ops h o =
      let inside : Replayed T = record p { in_batch = true; batch_buf = [] } in
      let xs : List (WalRecord T) = entries r (seq + 1) ops in
      ap (λ (q : Replayed T). q.result)
        (replay_all-begin a seq p (xs ++ commit_entry r seq ops ∷ []) h
          ∙ replay_all-append a inside xs (commit_entry r seq ops ∷ [])
          ∙ ap (λ q. replay_all a q (commit_entry r seq ops ∷ []))
              (replay_all-buffers a inside xs (entries-IsWrite a (seq + 1) ops (omega arith) o)
                refl)
          ∙ replay_all-commit a _ (record inside { batch_buf = xs }) (omega arith) refl)

  replay_all-torn :
      (a seq k : ℕ) (p : Replayed T) (ops : List (Op × (T × T)))
      → a ≤ seq
      → IsWrites ops
      → k < length (batch_of r seq ops)
      → (replay_all a p (take k (batch_of r seq ops))).result ≡ p.result
  unfolding replay_all
  replay_all-torn a seq zero p ops h o l = refl
  replay_all-torn a seq (suc k) p ops h o l =
      let inside : Replayed T = record p { in_batch = true; batch_buf = [] } in
      let xs : List (WalRecord T) = entries r (seq + 1) ops in
      let short : k ≤ length xs =
        omega (arith, l, length-append xs (commit_entry r seq ops ∷ [])) in
      ap (λ (q : Replayed T). q.result)
        (replay_all-begin a seq p (take k (xs ++ commit_entry r seq ops ∷ [])) h
          ∙ ap (replay_all a inside) (take-append xs (commit_entry r seq ops ∷ []) k short)
          ∙ replay_all-buffers a inside (take k xs)
              (All-take (IsWrite a) k xs (entries-IsWrite a (seq + 1) ops (omega arith) o)) refl)

  -- what `replay` gives when the files got whole records `ys` and a piece that is no record
  replay-torn :
      (w : WriteAheadLog) (a end : ℕ) (xs ys : List (WalRecord T)) (bs rest : Bytes)
      (v : IsLog r w xs)
      → Encodes r bs ys
      → Rising v.last_seq ys end
      → read_record r rest ≡ at_eof
      → replay r (write_last (bs ++ rest) w.files) a ≡ some (replay_all a start (xs ++ ys)).result
  unfolding replay
  replay-torn w a end xs ys bs rest v e o q =
      ground (arith, read_all_records-torn r 0 v.last_seq end w.files xs ys bs rest v.clean e o q)

  write_last-nil : (files : List File) → write_last [] files ≡ files
  unfolding write_last
  write_last-nil [] = refl
  write_last-nil (f ∷ []) = ap (λ t. record f { bytes = t } ∷ []) (append-nil f.bytes)
  write_last-nil (f ∷ g ∷ fs) = ap (λ t. f ∷ t) (write_last-nil (g ∷ fs))

  pub replay-IsLog :
      (w : WriteAheadLog) (a : ℕ) (xs : List (WalRecord T))
      → IsLog r w xs
      → replay r w.files a ≡ some (replay_all a start xs).result
  unfolding read_record
  replay-IsLog w a xs v =
      ap (λ fs. replay r fs a) (sym (write_last-nil w.files))
      ∙ replay-torn w a v.last_seq xs [] [] [] v nothing refl refl
      ∙ ap (λ t. some (replay_all a start t).result) (append-nil xs)

  -- A batch that is torn by a crash leaves no trace: when only the first bytes of what `append_batch`
  -- writes reach the file, but not all of them, `replay` gives what it gave before the batch; on
  -- condition that the log was well formed, that its texts decode, and that the batch has PUT and
  -- DELETE operations only, which come after the number that the replay starts from.
  pub torn_batch_ignored :
      (w : WriteAheadLog) (xs : List (WalRecord T)) (ops : List (Op × (T × T))) (a c n : ℕ)
      (buf : Bytes)
      → IsLossless r
      → IsLog r w xs
      → IsWrites ops
      → a ≤ w.seq_num
      → encode_batch r w.seq_num ops ≡ (c, some buf)
      → n < length buf
      → replay r (write_last (take n buf) w.files) a ≡ replay r w.files a
  torn_batch_ignored w xs ops a c n buf law v o h e l =
      let batch : List (WalRecord T) = batch_of r w.seq_num ops in
      let cut = Cut-Encodes r n buf batch (encode_batch-Encodes r w.seq_num c ops buf law e).0 l in
      let rising =
        Rising-take v.last_seq _ cut.count batch
          (Rising-batch_of r v.last_seq w.seq_num ops v.numbered) in
      ap (λ t. replay r (write_last t w.files) a) cut.splits
      ∙ replay-torn w a rising.0 xs (take cut.count batch) cut.before cut.rest v cut.holds rising.1
          cut.ends
      ∙ ap some (
          ap (λ (q : Replayed T). q.result) (replay_all-append a start xs (take cut.count batch))
          ∙ replay_all-torn a w.seq_num cut.count (replay_all a start xs) ops h o cut.fewer)
      ∙ sym (replay-IsLog w a xs v)

  -- A whole batch is replayed: after `append_batch` gives a number, `replay` gives what it gave before
  -- and then the operations of the batch in their order, under the same conditions.
  pub append_batch-replay :
      (w w' : WriteAheadLog) (xs : List (WalRecord T)) (ops : List (Op × (T × T))) (a n : ℕ)
      → IsLossless r
      → IsLog r w xs
      → IsWrites ops
      → a ≤ w.seq_num
      → append_batch r w ops ≡ (w', some n)
      → replay r w'.files a
        ≡ (replay r w.files a >>= (λ before. some (before ++ entries r (w.seq_num + 1) ops)))
  append_batch-replay w w' xs ops a n law v o h e =
      replay-IsLog w' a (xs ++ batch_of r w.seq_num ops)
        (append_batch-IsLog r w w' xs ops n law v e)
      ∙ ap some (
          ap (λ (q : Replayed T). q.result)
            (replay_all-append a start xs (batch_of r w.seq_num ops))
          ∙ replay_all-batch_of a w.seq_num (replay_all a start xs) ops h o)
      ∙ sym (
          ap (λ t. t >>= (λ before. some (before ++ entries r (w.seq_num + 1) ops)))
            (replay-IsLog w a xs v))

  -- A later write can be lost: when the log ends in a batch without its COMMIT, as after a crash in
  -- `append_batch`, a PUT or DELETE that `append` acknowledges with a number is not replayed.
  pub append_after_torn_batch :
      (w w' : WriteAheadLog) (xs : List (WalRecord T)) (op : Op) (key value : T) (a n : ℕ)
      → IsLossless r
      → IsLog r w xs
      → (replay_all a start xs).in_batch ≡ true
      → (op ≡ put) ⊎ (op ≡ delete)
      → a ≤ w.seq_num
      → append r w op key value ≡ (w', some n)
      → replay r w'.files a ≡ replay r w.files a
  append_after_torn_batch w w' xs op key value a n law v b o h e =
      let after = append-IsLog r w w' xs op key value n law v e in
      let x : WalRecord T = entry r n op key value in
      replay-IsLog w' a (xs ++ x ∷ []) after.0
      ∙ ap some (
          ap (λ (q : Replayed T). q.result)
            (replay_all-append a start xs (x ∷ [])
              ∙ replay_all-buffers a (replay_all a start xs) (x ∷ [])
                  ((omega (arith, after.1), o), tt) b))
      ∙ sym (replay-IsLog w a xs v)
