-- ===== src/Wal/Log/Clean.antt =====
-- The files of a log of write-ahead-log/wal.py that holds whole records in order, and what its
-- methods add to them.
use ddia_implementations.Prelude.{
  ℕ, ◌≤◌, ◌<◌, List, [], ◌∷◌, ◌++◌, some, ◌≡◌, refl, arith, ap, ◌∙◌, sym, subst, append_assoc,
  append-nil, Bool, true, false, Bool-cases, Option-cases, inl, inr, leb, length,
}
use ddia_implementations.Wal.Bytes.{Bytes}
use ddia_implementations.Wal.Record.{WalRecord, Runtime, at_eof, read_record}
use ddia_implementations.Wal.Log.Read.{File, at_end, in_order, read_file, read_all_records}
use ddia_implementations.Wal.Log.Whole.{Encodes, nothing, Encodes-append, read_file-Encodes}
use ddia_implementations.Wal.Log.{
  WriteAheadLog, last_file, write_last, write_data, rotate, do_sync, maybe_rotate, write_record,
}

module _ {T : Type 0} where
  -- numbers that go up from `last` to `end`
  abbrev pub Rising : ℕ → List (WalRecord T) → ℕ → Type 0
  Rising last [] end = last ≡ end
  Rising last (x ∷ xs) end = (last < x.seq_num) × Rising x.seq_num xs end

  pub Rising-append :
      (last mid end : ℕ) (xs ys : List (WalRecord T))
      → Rising last xs mid
      → Rising mid ys end
      → Rising last (xs ++ ys) end
  Rising-append last mid end [] ys a b = subst (λ l. Rising l ys end) (sym a) b
  Rising-append last mid end (x ∷ xs) ys a b = (a.0, Rising-append x.seq_num mid end xs ys a.1 b)

  in_order-Rising :
      (last end : ℕ) (xs : List (WalRecord T))
      → Rising last xs end
      → in_order last xs ≡ record { records = xs; last_seq = end; stopped = false }
  unfolding in_order
  in_order-Rising last end [] h = ground arith
  in_order-Rising last end (x ∷ xs) h = ground (arith, in_order-Rising x.seq_num end xs h.1, h.0)

module _ {T : Type 0} (r : Runtime T) where
  -- files of whole records whose numbers go up from `last` to `end`
  pub data Clean : ℕ → List File → List (WalRecord T) → ℕ → Type 0 where
    one :
        (last end : ℕ) (f : File) (xs : List (WalRecord T))
        → Encodes r f.bytes xs
        → Rising last xs end
        → Clean last (f ∷ []) xs end
    next :
        (last mid end : ℕ) (f : File) (fs : List File) (xs ys : List (WalRecord T))
        → Encodes r f.bytes xs
        → Rising last xs mid
        → Clean mid fs ys end
        → Clean last (f ∷ fs) (xs ++ ys) end

  write_last-one :
      (bs : Bytes) (f : File) → write_last bs (f ∷ []) ≡ record f { bytes = f.bytes ++ bs } ∷ []
  unfolding write_last
  write_last-one bs f = refl

  write_last-next :
      (last end : ℕ) (fs : List File) (xs : List (WalRecord T)) (bs : Bytes) (f : File)
      → Clean last fs xs end
      → write_last bs (f ∷ fs) ≡ f ∷ write_last bs fs
  unfolding write_last
  write_last-next last end fs xs bs f (one last' end' g xs' e o) = refl
  write_last-next last end fs xs bs f (next last' k end' g gs xs' ys e o c) = refl

  read_file-whole :
      (bs : Bytes) (xs : List (WalRecord T)) → Encodes r bs xs → read_file r bs ≡ (xs, at_end)
  unfolding read_record
  read_file-whole bs xs e =
      subst (λ t. read_file r t ≡ (xs, at_end)) (append-nil bs)
        (read_file-Encodes r bs [] xs e refl)

  -- reading the files after the last one got more whole records and a piece that is no record
  pub read_all_records-torn :
      (last mid end : ℕ) (files : List File) (xs ys : List (WalRecord T)) (bs rest : Bytes)
      → Clean last files xs mid
      → Encodes r bs ys
      → Rising mid ys end
      → read_record r rest ≡ at_eof
      → read_all_records r last (write_last (bs ++ rest) files) ≡ (xs ++ ys, false)
  unfolding read_all_records
  read_all_records-torn last mid end files xs ys bs rest (one last' mid' f xs' e o) h p q =
      let whole : read_file r (f.bytes ++ (bs ++ rest)) ≡ (xs' ++ ys, at_end) =
        ap (read_file r) (sym (append_assoc f.bytes bs rest))
        ∙ read_file-Encodes r (f.bytes ++ bs) rest (xs' ++ ys)
            (Encodes-append r f.bytes bs xs' ys e h) q in
      ap (read_all_records r last) (write_last-one (bs ++ rest) f)
      ∙ ground (
        arith,
        in_order-Rising last end (xs' ++ ys) (Rising-append last mid end xs' ys o p),
        append-nil (xs' ++ ys),
      )
  read_all_records-torn last mid end files xs ys bs rest (next last' k mid' f fs xs' ys' e o c) h p
        q =
      let whole = read_file-whole f.bytes xs' e in
      let after = read_all_records-torn k mid end fs ys' ys bs rest c h p q in
      ap (read_all_records r last) (write_last-next k mid fs ys' (bs ++ rest) f c)
      ∙ ground (arith, in_order-Rising last k xs' o, append_assoc xs' ys' ys)

  Clean-write_last :
      (last mid end : ℕ) (files : List File) (xs ys : List (WalRecord T)) (bs : Bytes)
      → Clean last files xs mid
      → Encodes r bs ys
      → Rising mid ys end
      → Clean last (write_last bs files) (xs ++ ys) end
  unfolding write_last
  Clean-write_last last mid end files xs ys bs (one last' mid' f xs' e o) h p =
      one last end (record f { bytes = f.bytes ++ bs }) (xs' ++ ys)
        (Encodes-append r f.bytes bs xs' ys e h) (Rising-append last mid end xs' ys o p)
  Clean-write_last last mid end files xs ys bs (next last' k mid' f fs xs' ys' e o c) h p =
      subst (λ t. Clean last t ((xs' ++ ys') ++ ys) end) (sym (write_last-next k mid fs ys' bs f c))
        (subst (λ t. Clean last (f ∷ write_last bs fs) t end) (sym (append_assoc xs' ys' ys))
          (next last k end f (write_last bs fs) xs' (ys' ++ ys) e o
            (Clean-write_last k mid end fs ys' ys bs c h p)))

  Clean-rotate :
      (last end n : ℕ) (files : List File) (xs : List (WalRecord T))
      → Clean last files xs end
      → Clean last (files ++ record { number = n; bytes = [] } ∷ []) xs end
  Clean-rotate last end n files xs (one last' end' f xs' e o) =
      subst (λ t. Clean last (f ∷ record { number = n; bytes = [] } ∷ []) t end) (append-nil xs')
        (next last end end f (record { number = n; bytes = [] } ∷ []) xs' [] e o
          (one end end (record { number = n; bytes = [] }) [] nothing refl))
  Clean-rotate last end n files xs (next last' k end' f fs xs' ys e o c) =
      next last k end f (fs ++ record { number = n; bytes = [] } ∷ []) xs' ys e o
        (Clean-rotate k end n fs ys c)

  -- an open log whose files hold the records `xs`, all numbered up to the log's number
  pub record IsLog (w : WriteAheadLog) (xs : List (WalRecord T)) : Type 0 where
    pub last_seq : ℕ
    pub clean : Clean 0 w.files xs last_seq
    pub numbered : last_seq ≤ w.seq_num
    pub opened : w.is_open ≡ true

  rotate-IsLog : (w : WriteAheadLog) (xs : List (WalRecord T)) → IsLog w xs → IsLog (rotate w) xs
  unfolding rotate
  rotate-IsLog w xs v = record {
    last_seq = v.last_seq;
    clean = Clean-rotate 0 v.last_seq _ w.files xs v.clean;
    numbered = v.numbered;
    opened = refl;
  }

  maybe_rotate-IsLog :
      (w : WriteAheadLog) (xs : List (WalRecord T)) → IsLog w xs → IsLog (maybe_rotate w) xs
  unfolding maybe_rotate
  maybe_rotate-IsLog w xs v = elim (Option-cases (last_file w.files)) [
    | inl q ↦ subst (λ t. IsLog t xs) (ground arith) v
    | inr (f, q) ↦ elim (Bool-cases (leb w.max_file_size (length f.bytes))) [
      | inl p ↦ subst (λ t. IsLog t xs) (ground arith) (rotate-IsLog w xs v)
      | inr p ↦ subst (λ t. IsLog t xs) (ground arith) v
    ]
  ]

  do_sync-keeps :
      (w : WriteAheadLog) (force : Bool)
      → ((do_sync w force).files ≡ w.files)
        × (((do_sync w force).seq_num ≡ w.seq_num) × ((do_sync w force).is_open ≡ w.is_open))
  unfolding do_sync
  do_sync-keeps w force = (ground arith, (ground arith, ground arith))

  do_sync-IsLog :
      (w : WriteAheadLog) (force : Bool) (xs : List (WalRecord T))
      → IsLog w xs
      → IsLog (do_sync w force) xs
  do_sync-IsLog w force xs v =
      let k = do_sync-keeps w force in
      record {
        last_seq = v.last_seq;
        clean = subst (λ fs. Clean 0 fs xs v.last_seq) (sym k.0) v.clean;
        numbered = omega (arith, v.numbered, k.1.0);
        opened = k.1.1 ∙ v.opened;
      }

  -- one write of whole records with new numbers
  pub write_record-IsLog :
      (w w' : WriteAheadLog) (force : Bool) (bs : Bytes) (n end : ℕ) (xs ys : List (WalRecord T))
      (v : IsLog w xs)
      → Encodes r bs ys
      → Rising v.last_seq ys end
      → end ≤ w.seq_num
      → write_record w force (some bs) ≡ (w', some n)
      → IsLog w' (xs ++ ys) × (n ≡ w.seq_num)
  unfolding write_record
  write_record-IsLog w w' force bs n end xs ys v e o l q =
      let done : WriteAheadLog = write_data w bs in
      let written : IsLog done (xs ++ ys) = record {
        last_seq = end;
        clean = Clean-write_last 0 v.last_seq end w.files xs ys bs v.clean e o;
        numbered = l;
        opened = v.opened;
      } in
      let same : maybe_rotate (do_sync done force) ≡ w' = ground (arith, v.opened) in
      (
        subst (λ t. IsLog t (xs ++ ys)) same
            (maybe_rotate-IsLog (do_sync done force) (xs ++ ys)
              (do_sync-IsLog done force (xs ++ ys) written)),
        ground (arith, v.opened),
      )
