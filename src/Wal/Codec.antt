-- ===== src/Wal/Codec.antt =====
-- Reading back what `_encode_record` of write-ahead-log/wal.py writes.
use ddia_implementations.Wal.Fields.{parse-fields}
use ddia_implementations.Prelude.{
  ℕ, ◌+◌, ◌^◌, ◌<◌, ◌++◌, some, length, take, drop, ◌≡◌, arith, ◌∙◌, take-front, drop-front,
  append_assoc, length-append, ap, ◌≤◌, ◌↔◌, dec_lt, subst, length-take, ◌-◌, take-past,
}
use ddia_implementations.Wal.Bytes.{
  Bytes, le_bytes, le_value, le_value-le_bytes, length-le_bytes, pack, pack_int,
}
use ddia_implementations.Wal.Record.{
  op_name, Runtime, got, crc_of, encode_record, read_record, parse, decoded, at_eof,
}

module _ {T : Type 0} (r : Runtime T) where
  read_record-known :
      (file after b rest : Bytes) (n : ℕ)
      → 4 ≤ length file
      → le_value (take 4 file) ≡ n
      → drop 4 file ≡ after
      → n ≤ length after
      → take n after ≡ b
      → drop n after ≡ rest
      → read_record r file ≡ parse r b rest
  unfolding read_record
  read_record-known file after b rest n h e d l f g = ground arith

  -- what `struct.pack` accepts of a record
  pub record Fits (seq op : ℕ) (key value : Bytes) : Type 0 where
    pub op_fits : op < 256
    pub seq_fits : seq < 2 ^ 64
    pub key_fits : length key < 2 ^ 31
    pub value_fits : length value < 2 ^ 31
    pub length_fits : 21 + length key + length value < 2 ^ 32

  abbrev pub body : ℕ → ℕ → Bytes → Bytes → Bytes
  body seq op key value =
      le_bytes 4 (crc_of r op key value)
      ++ (le_bytes 8 seq
          ++ (le_bytes 1 op
              ++ (le_bytes 4 (length key) ++ (key ++ (le_bytes 4 (length value) ++ value)))))

  pub written : ℕ → ℕ → Bytes → Bytes → Bytes
  written seq op key value = le_bytes 4 (21 + length key + length value) ++ body seq op key value

  crc_of-lt : (op : ℕ) (key value : Bytes) → crc_of r op key value < 2 ^ 32
  crc_of-lt op key value = omega arith

  encode_record-written :
      (seq op : ℕ) (key value : Bytes)
      → Fits seq op key value
      → encode_record r seq op key value ≡ some (written seq op key value)
  unfolding encode_record pack pack_int written
  encode_record-written seq op key value f = ground (
    arith,
    f.op_fits,
    f.seq_fits,
    f.key_fits,
    f.value_fits,
    f.length_fits,
    crc_of-lt op key value,
  )

  encode_record-Fits :
      (seq op : ℕ) (key value bs : Bytes)
      → encode_record r seq op key value ≡ some bs
      → Fits seq op key value
  unfolding encode_record pack pack_int
  encode_record-Fits seq op key value bs e = record {
    op_fits = ground arith;
    seq_fits = ground arith;
    key_fits = ground arith;
    value_fits = ground arith;
    length_fits = ground arith;
  }

  length-body :
      (seq op : ℕ) (key value : Bytes)
      → length (body seq op key value) ≡ 21 + length key + length value
  length-body seq op key value =
      let t5 : Bytes = le_bytes 4 (length value) ++ value in
      let t4 : Bytes = key ++ t5 in
      let t3 : Bytes = le_bytes 4 (length key) ++ t4 in
      let t2 : Bytes = le_bytes 1 op ++ t3 in
      let t1 : Bytes = le_bytes 8 seq ++ t2 in
      omega (
        arith,
        length-append (le_bytes 4 (crc_of r op key value)) t1,
        length-append (le_bytes 8 seq) t2,
        length-append (le_bytes 1 op) t3,
        length-append (le_bytes 4 (length key)) t4,
        length-append key t5,
        length-append (le_bytes 4 (length value)) value,
        length-le_bytes 4 (crc_of r op key value),
        length-le_bytes 8 seq,
        length-le_bytes 1 op,
        length-le_bytes 4 (length key),
        length-le_bytes 4 (length value),
      )

  parse-body :
      (seq op : ℕ) (key value rest : Bytes)
      → Fits seq op key value
      → parse r (body seq op key value) rest
        ≡ decoded r (crc_of r op key value) seq op key value rest
  parse-body seq op key value rest f =
      let crc : le_value (le_bytes 4 (crc_of r op key value)) ≡ crc_of r op key value =
        le_value-le_bytes 4 (crc_of r op key value) (crc_of-lt op key value) in
      let number : le_value (le_bytes 8 seq) ≡ seq = le_value-le_bytes 8 seq f.seq_fits in
      let byte : le_value (le_bytes 1 op) ≡ op = le_value-le_bytes 1 op f.op_fits in
      parse-fields r (le_bytes 4 (crc_of r op key value)) (le_bytes 8 seq) (le_bytes 1 op)
        (le_bytes 4 (length key)) key (le_bytes 4 (length value)) value rest
        (length-le_bytes 4 (crc_of r op key value)) (length-le_bytes 8 seq) (length-le_bytes 1 op)
        (length-le_bytes 4 (length key)) (length-le_bytes 4 (length value))
        (le_value-le_bytes 4 (length key) (omega (arith, f.key_fits)))
        (le_value-le_bytes 4 (length value) (omega (arith, f.value_fits))) f.key_fits f.value_fits
      ∙ ground arith

  read_record-written :
      (seq op : ℕ) (key value rest : Bytes)
      → Fits seq op key value
      → read_record r (written seq op key value ++ rest)
        ≡ decoded r (crc_of r op key value) seq op key value rest
  unfolding read_record written
  read_record-written seq op key value rest f =
      let n : ℕ = 21 + length key + length value in
      let b : Bytes = body seq op key value in
      let l : Bytes = le_bytes 4 n in
      let file : (l ++ b) ++ rest ≡ l ++ (b ++ rest) = append_assoc l b rest in
      let len : length (l ++ (b ++ rest)) ≡ 4 + (n + length rest) = omega (
        arith,
        length-append l (b ++ rest),
        length-le_bytes 4 n,
        length-append b rest,
        length-body seq op key value,
      ) in
      let number : le_value (take 4 (l ++ (b ++ rest))) ≡ n =
        ap le_value (take-front l (b ++ rest) 4 (length-le_bytes 4 n))
        ∙ le_value-le_bytes 4 n f.length_fits in
      let tail : drop 4 (l ++ (b ++ rest)) ≡ b ++ rest =
        drop-front l (b ++ rest) 4 (length-le_bytes 4 n) in
      let shorter : length (b ++ rest) ≡ n + length rest =
        omega (arith, length-append b rest, length-body seq op key value) in
      let front : take n (b ++ rest) ≡ b = take-front b rest n (length-body seq op key value) in
      let back : drop n (b ++ rest) ≡ rest = drop-front b rest n (length-body seq op key value) in
      ap (read_record r) file
      ∙ read_record-known (l ++ (b ++ rest)) (b ++ rest) b rest n (omega (arith, len)) number tail
          (omega (arith, shorter)) front back
      ∙ parse-body seq op key value rest f

  -- Reading undoes writing: what `_encode_record` makes of a number, an operation and two texts,
  -- read by `_read_record` from a file that goes on with other bytes, is the record of the same
  -- number, operation and texts, with its checksum, and the other bytes are left; on condition that
  -- the texts decode to what they were encoded from.
  pub read_record-encode_record :
      (seq op : ℕ) (key value : T) (bs rest : Bytes)
      → r.decode (r.encode key) ≡ some key
      → r.decode (r.encode value) ≡ some value
      → encode_record r seq op (r.encode key) (r.encode value) ≡ some bs
      → read_record r (bs ++ rest)
        ≡ got
            (record {
              seq_num = seq;
              op_type = op_name op;
              key = key;
              value = value;
              checksum = crc_of r op (r.encode key) (r.encode value);
            })
            rest
  unfolding decoded
  read_record-encode_record seq op key value bs rest dk dv e =
      let f = encode_record-Fits seq op (r.encode key) (r.encode value) bs e in
      let same : bs ≡ written seq op (r.encode key) (r.encode value) =
        ground (arith, encode_record-written seq op (r.encode key) (r.encode value) f) in
      ap (λ t. read_record r (t ++ rest)) same
      ∙ read_record-written seq op (r.encode key) (r.encode value) rest f
      ∙ ground arith

  length-written :
      (seq op : ℕ) (key value : Bytes)
      → length (written seq op key value) ≡ 25 + length key + length value
  unfolding written
  length-written seq op key value = omega (
    arith,
    length-append (le_bytes 4 (21 + length key + length value)) (body seq op key value),
    length-le_bytes 4 (21 + length key + length value),
    length-body seq op key value,
  )

  read_record-short :
      (file after : Bytes) (n : ℕ)
      → 4 ≤ length file
      → le_value (take 4 file) ≡ n
      → drop 4 file ≡ after
      → length after < n
      → read_record r file ≡ at_eof
  unfolding read_record
  read_record-short file after n h e d l = ground arith

  read_record-tiny : (file : Bytes) → length file < 4 → read_record r file ≡ at_eof
  unfolding read_record
  read_record-tiny file h = ground arith

  pub read_record-take-written :
      (seq op n : ℕ) (key value : Bytes)
      → Fits seq op key value
      → n < length (written seq op key value)
      → read_record r (take n (written seq op key value)) ≡ at_eof
  unfolding written
  read_record-take-written seq op n key value f h =
      let m : ℕ = 21 + length key + length value in
      let b : Bytes = body seq op key value in
      let l : Bytes = le_bytes 4 m in
      let fit : n ≤ length (l ++ b) = omega (arith, h) in
      let size : n < 4 + m = omega (arith, h, length-written seq op key value) in
      elim (dec_lt n 4) [
        | yes q ↦ read_record-tiny (take n (l ++ b)) (omega (arith, length-take n (l ++ b) fit))
        | no q ↦
            let cut : take n (l ++ b) ≡ l ++ take (n - 4) b =
              take-past l b 4 (n - 4) n (length-le_bytes 4 m) (omega arith) in
            ap (read_record r) cut
            ∙ read_record-short (l ++ take (n - 4) b) (take (n - 4) b) m
                (omega (arith, length-append l (take (n - 4) b), length-le_bytes 4 m))
                (ap le_value (take-front l (take (n - 4) b) 4 (length-le_bytes 4 m))
                  ∙ le_value-le_bytes 4 m f.length_fits)
                (drop-front l (take (n - 4) b) 4 (length-le_bytes 4 m))
                (omega (
                  arith,
                  length-take (n - 4) b (omega (arith, size, length-body seq op key value)),
                ))
      ]

  -- A record that is cut off is not read: from the first bytes of what `_encode_record` makes, if
  -- they are not all, `_read_record` returns None, as at the end of the file.
  pub read_record-take :
      (seq op n : ℕ) (key value bs : Bytes)
      → encode_record r seq op key value ≡ some bs
      → n < length bs
      → read_record r (take n bs) ≡ at_eof
  read_record-take seq op n key value bs e h =
      let f = encode_record-Fits seq op key value bs e in
      let same : bs ≡ written seq op key value =
        ground (arith, encode_record-written seq op key value f) in
      ap (λ t. read_record r (take n t)) same
      ∙ read_record-take-written seq op n key value f (subst (λ t. n < length t) same h)

  pub encode_record-some_iff :
      (seq op : ℕ) (key value : Bytes)
      → ((bs : Bytes) × ((encode_record r seq op key value ≡ some bs)
            × (length bs ≡ 25 + length key + length value)))
        ↔ Fits seq op key value
  encode_record-some_iff seq op key value = (
    λ (bs, (e, n)). encode_record-Fits seq op key value bs e,
    λ f. (
      written seq op key value,
      (encode_record-written seq op key value f, length-written seq op key value),
    ),
  )
