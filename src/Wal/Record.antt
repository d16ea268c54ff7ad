-- ===== src/Wal/Record.antt =====
-- `_encode_record` and `_read_record` of write-ahead-log/wal.py. The checksum and the coding of texts
-- as bytes belong to Python's libraries: they are a parameter, over any type of texts.
use ddia_implementations.Prelude.{
  ℕ, ◌+◌, ◌%◌, ◌^◌, [], ◌∷◌, ◌++◌, Option, none, some, ltb, length, take, drop, if◌then◌else◌, ◌==◌,
  nat_key, ◌>>=◌, ◌≡◌,
}
use ddia_implementations.Wal.Bytes.{
  Bytes, from_start, pack, pack_int, le_value, plus, plus_int, slice, unpack_int_from,
}

-- the five names of OP_BYTES, and "UNKNOWN"
pub data Op : Type 0 where
  put delete commit checkpoint begin unknown : Op

-- OP_BYTES[op_type]; `none` is the `KeyError`
abbrev pub op_byte : Op → Option ℕ
op_byte put = some 1
op_byte delete = some 2
op_byte commit = some 3
op_byte checkpoint = some 4
op_byte begin = some 5
op_byte unknown = none

-- OP_NAMES.get(op_type_byte, "UNKNOWN")
unfoldable pub op_name : ℕ → Op
op_name b =
    if b == 1
    then put
    else if b == 2
    then delete
    else if b == 3
    then commit
    else if b == 4
    then checkpoint
    else if b == 5
    then begin
    else unknown

pub record WalRecord (T : Type 0) : Type 0 where
  pub seq_num : ℕ
  pub op_type : Op
  pub key : T
  pub value : T
  pub checksum : ℕ

-- zlib.crc32, str.encode and bytes.decode; `none` is a UnicodeDecodeError
pub record Runtime (T : Type 0) : Type 0 where
  pub crc32 : Bytes → ℕ
  pub encode : T → Bytes
  pub decode : Bytes → Option T
  pub empty : T

-- what the coding of texts promises
pub record IsLossless {T : Type 0} (r : Runtime T) : Type 0 where
  pub decodes : (t : T) → r.decode (r.encode t) ≡ some t
  pub encodes_empty : r.encode r.empty ≡ []

-- What one call of `_read_record` does: it returns None, raises ValueError (a wrong checksum, or
-- text that does not decode) or struct.error, or returns a record and leaves the rest of the file.
pub data Read (T : Type 0) : Type 0 where
  at_eof value_error struct_error : Read T
  got : WalRecord T → Bytes → Read T

module _ {T : Type 0} (r : Runtime T) where
  abbrev pub crc_of : ℕ → Bytes → Bytes → ℕ
  crc_of op key value = r.crc32 (op ∷ key ++ value) % 2 ^ 32

  unfoldable pub encode_record : ℕ → ℕ → Bytes → Bytes → Option Bytes
  encode_record seq_num op key value = do
    op_data ← pack 1 op
    record_length ← pack 4 (4 + 8 + 1 + 4 + length key + 4 + length value)
    crc ← pack 4 (crc_of op key value)
    seq ← pack 8 seq_num
    key_len ← pack_int (length key)
    value_len ← pack_int (length value)
    some
        (record_length ++ (crc ++ (seq ++ (op_data ++ (key_len ++ (key ++ (value_len ++ value)))))))

  -- the record at the end of the checks
  unfoldable pub decoded : ℕ → ℕ → ℕ → Bytes → Bytes → Bytes → Read T
  decoded crc seq op key value rest =
      if crc == crc_of op key value
      then elim (r.decode key) [
        | none ↦ value_error
        | some k ↦ elim (r.decode value) [
          | none ↦ value_error
          | some v ↦
              got
                (record { seq_num = seq; op_type = op_name op; key = k; value = v; checksum = crc })
                rest
        ]
      ]
      else value_error

  unfoldable pub parse : Bytes → Bytes → Read T
  parse record_data rest =
      if ltb (length record_data) 17
      then struct_error
      else let crc = le_value (take 4 record_data) in
        let seq = le_value (take 8 (drop 4 record_data)) in
        let op = le_value (take 1 (drop 12 record_data)) in
        let offset = plus_int (from_start 17) (le_value (take 4 (drop 13 record_data))) in
        elim (unpack_int_from record_data offset) [
          | none ↦ struct_error
          | some val_len ↦
              decoded crc seq op (slice record_data (from_start 17) offset)
                (slice record_data (plus offset 4) (plus_int (plus offset 4) val_len)) rest
        ]

  unfoldable pub read_record : Bytes → Read T
  read_record file =
      if ltb (length file) 4
      then at_eof
      else let record_length = le_value (take 4 file) in
        if ltb (length (drop 4 file)) record_length
        then at_eof
        else parse (take record_length (drop 4 file)) (drop record_length (drop 4 file))
