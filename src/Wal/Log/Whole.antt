-- ===== src/Wal/Log/Whole.antt =====
-- Files of write-ahead-log/wal.py as sequences of whole records: what their scan gives, also when
-- the file is cut off.
use ddia_implementations.Prelude.{
  ℕ, zero, suc, ◌-◌, ◌<◌, List, [], ◌∷◌, ◌++◌, length, take, drop, ◌≡◌, ◌≢◌, refl, arith, ap, ◌∙◌,
  sym, subst, length-drop, length-append, append_assoc, take-past, dec_lt, ◌⊎◌, inl, take-append,
  inr,
}
use ddia_implementations.Wal.Bytes.{Bytes, le_value}
use ddia_implementations.Wal.Record.{
  WalRecord, Runtime, Read, at_eof, value_error, struct_error, got, read_record, parse, decoded,
}
use ddia_implementations.Wal.Log.Read.{at_end, out_of_fuel, scan, read_file}

module _ {T : Type 0} (r : Runtime T) where
  Read-cases :
      (d : Read T)
      → (d ≡ at_eof)
        ⊎ ((d ≡ value_error)
            ⊎ ((d ≡ struct_error) ⊎ ((x : WalRecord T) × (rest : Bytes) × (d ≡ got x rest))))
  Read-cases at_eof = inl refl
  Read-cases value_error = inr (inl refl)
  Read-cases struct_error = inr (inr (inl refl))
  Read-cases (got x rest) = inr (inr (inr (x, rest, refl)))

  parse-got : (d rest rest' : Bytes) (x : WalRecord T) → parse r d rest ≡ got x rest' → rest' ≡ rest
  unfolding parse decoded
  parse-got d rest rest' x e = ground arith

  read_record-shrinks :
      (file rest : Bytes) (x : WalRecord T)
      → read_record r file ≡ got x rest
      → length rest < length file
  unfolding read_record
  read_record-shrinks file rest x e =
      let n : ℕ = le_value (take 4 file) in
      let after : Bytes = drop 4 file in
      ground (
        arith,
        parse-got (take n after) (drop n after) rest x,
        length-drop file 4,
        length-drop after n,
      )

  scan-enough :
      (n m : ℕ) (file : Bytes)
      → length file < n
      → length file < m
      → (scan r n file ≡ scan r m file) × ((scan r n file).1 ≢ out_of_fuel)
  unfolding scan
  scan-enough zero m file h g = absurd (omega arith)
  scan-enough (suc n) zero file h g = absurd (omega arith)
  scan-enough (suc n) (suc m) file h g = elim (Read-cases (read_record r file)) [
    | inl q ↦ ground arith
    | inr (inl q) ↦ ground arith
    | inr (inr (inl q)) ↦ ground arith
    | inr (inr (inr (x, rest, q))) ↦
        let shrinks = read_record-shrinks file rest x q in
        ground (arith, scan-enough n m rest (omega (arith, shrinks)) (omega (arith, shrinks)))
  ]

  -- The loop over a file ends: with more rounds than the file has bytes the scan always comes to the
  -- end of the file, a bad record or an exception, and more rounds change nothing.
  pub read_file-enough :
      (n : ℕ) (file : Bytes)
      → length file < n
      → (scan r n file ≡ read_file r file) × ((read_file r file).1 ≢ out_of_fuel)
  unfolding read_file
  read_file-enough n file h = (
    (scan-enough n (suc (length file)) file h (omega arith)).0,
    (scan-enough (suc (length file)) n file (omega arith) h).1,
  )

  -- a record as it stands in a file: read back whole, and not read when it is cut off
  pub record IsRecord (bs : Bytes) (x : WalRecord T) : Type 0 where
    pub whole : (rest : Bytes) → read_record r (bs ++ rest) ≡ got x rest
    pub cut : (n : ℕ) → n < length bs → read_record r (take n bs) ≡ at_eof

  -- the records of a file, one after the other
  pub data Encodes : Bytes → List (WalRecord T) → Type 0 where
    nothing : Encodes [] []
    more :
        (bs tail : Bytes) (x : WalRecord T) (xs : List (WalRecord T))
        → IsRecord bs x
        → Encodes tail xs
        → Encodes (bs ++ tail) (x ∷ xs)

  pub Encodes-append :
      (bs tail : Bytes) (xs ys : List (WalRecord T))
      → Encodes bs xs
      → Encodes tail ys
      → Encodes (bs ++ tail) (xs ++ ys)
  Encodes-append bs tail xs ys nothing f = f
  Encodes-append bs tail xs ys (more b c x zs q e) f =
      subst (λ t. Encodes t (x ∷ zs ++ ys)) (sym (append_assoc b c tail))
        (more b (c ++ tail) x (zs ++ ys) q (Encodes-append c tail zs ys e f))

  scan-whole :
      (n : ℕ) (bs rest : Bytes) (xs : List (WalRecord T))
      → Encodes bs xs
      → read_record r rest ≡ at_eof
      → length (bs ++ rest) < n
      → scan r n (bs ++ rest) ≡ (xs, at_end)
  unfolding scan
  scan-whole zero bs rest xs e q h = absurd (omega arith)
  scan-whole (suc n) bs rest xs nothing q h = ground arith
  scan-whole (suc n) bs rest xs (more b c x zs w e) q h =
      let first : read_record r ((b ++ c) ++ rest) ≡ got x (c ++ rest) =
        ap (read_record r) (append_assoc b c rest) ∙ w.whole (c ++ rest) in
      let shrinks = read_record-shrinks ((b ++ c) ++ rest) (c ++ rest) x first in
      ground (arith, scan-whole n c rest zs e q (omega (arith, shrinks)))

  -- the scan of a file that is cut off after whole records
  pub read_file-Encodes :
      (bs rest : Bytes) (xs : List (WalRecord T))
      → Encodes bs xs
      → read_record r rest ≡ at_eof
      → read_file r (bs ++ rest) ≡ (xs, at_end)
  unfolding read_file
  read_file-Encodes bs rest xs e q =
      scan-whole (suc (length (bs ++ rest))) bs rest xs e q (omega arith)

  -- bytes that are the first of the records, but not all, and less than a record after them
  pub record Cut (bs : Bytes) (xs : List (WalRecord T)) : Type 0 where
    pub count : ℕ
    pub before : Bytes
    pub rest : Bytes
    pub splits : bs ≡ before ++ rest
    pub holds : Encodes before (take count xs)
    pub ends : read_record r rest ≡ at_eof
    pub fewer : count < length xs

  pub Cut-Encodes :
      (n : ℕ) (bs : Bytes) (xs : List (WalRecord T))
      → Encodes bs xs
      → n < length bs
      → Cut (take n bs) xs
  Cut-Encodes n bs xs nothing h = absurd (omega arith)
  Cut-Encodes n bs xs (more b c x zs w e) h = elim (dec_lt n (length b)) [
    | yes q ↦ record {
      count = 0;
      before = [];
      rest = take n b;
      splits = take-append b c n (omega arith);
      holds = nothing;
      ends = w.cut n q;
      fewer = omega arith;
    }
    | no q ↦
        let ih = Cut-Encodes (n - length b) c zs e (omega (arith, h, length-append b c)) in
        record {
          count = suc ih.count;
          before = b ++ ih.before;
          rest = ih.rest;
          splits =
              take-past b c (length b) (n - length b) n refl (omega arith)
              ∙ ap (λ t. b ++ t) ih.splits
              ∙ sym (append_assoc b ih.before ih.rest);
          holds = more b ih.before x (take ih.count zs) w ih.holds;
          ends = ih.ends;
          fewer = omega (arith, ih.fewer);
        }
  ]
