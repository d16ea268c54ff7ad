-- ===== src/Wal/Tests.antt =====
-- The write-ahead log at byte strings as texts and a small checksum.
use ddia_implementations.Prelude.{
  ℕ, List, [], ◌∷◌, ◌++◌, none, some, ◌≡◌, refl, true, length, take, arith, inl, inr, nat_key,
  ℕ_discrete, ◌>>=◌, ◌+◌, ◌*◌, ◌↔◌, ◌≢◌,
}
use ddia_implementations.Wal.Bytes.{
  Bytes, le_bytes, le_value, pack, pack_int, plus_int, slice, unpack_int_from,
}
use ddia_implementations.Wal.Record.{
  Op, op_name, Runtime, IsLossless, got, value_error, encode_record, decoded, parse, read_record,
  put, delete, begin,
}
use ddia_implementations.Wal.Codec.{Fits, read_record-encode_record, encode_record-some_iff}
use ddia_implementations.Wal.Log.{
  WriteAheadLog, SyncMode, last_file, write_last, rotate, open_latest, do_sync, maybe_rotate,
  write_record, encode_op, append, encode_all, encode_batch, append_batch, checkpoint, kept,
  encode_kept, truncate_files, truncate, recover_seq_num, open_log, close,
}
use ddia_implementations.Wal.Log.Read.{
  highest, in_order, replay_one, replay_all, scan, read_file, read_all_records, replay, out_of_fuel,
}
use ddia_implementations.Wal.Log.Whole.{nothing, read_file-enough}
use ddia_implementations.Wal.Log.Clean.{IsLog, one}
use ddia_implementations.Wal.Log.Entries.{append-IsLog, entry, entries}
use ddia_implementations.Wal.Log.Replayed.{
  torn_batch_ignored, append_batch-replay, append_after_torn_batch,
}

runs : Unit {0}
unfolding le_bytes le_value pack pack_int plus_int slice unpack_int_from op_name encode_record
    decoded parse read_record last_file write_last rotate open_latest do_sync maybe_rotate
    write_record encode_op append encode_all encode_batch append_batch checkpoint kept encode_kept
    truncate_files truncate recover_seq_num open_log close highest in_order replay_one replay_all
    scan read_file read_all_records replay ℕ_discrete
runs = tt

abbrev sum : Bytes → ℕ
sum [] = 7
sum (b ∷ bs) = b + 3 * sum bs

abbrev plain : Runtime Bytes
plain = record { crc32 = sum; encode = λ t. t; decode = λ b. some b; empty = [] }

lossless : IsLossless plain
lossless = record { decodes = λ t. refl; encodes_empty = refl }

abbrev key : Bytes
key = 107 ∷ []

-- a record of 27 bytes
abbrev bytes : Bytes
bytes =
    23 ∷ 0 ∷ 0 ∷ 0 ∷ 37 ∷ 6 ∷ 0 ∷ 0 ∷ 1 ∷ 0 ∷ 0 ∷ 0 ∷ 0 ∷ 0 ∷ 0 ∷ 0 ∷ 1 ∷ 1 ∷ 0 ∷ 0 ∷ 0 ∷ 107 ∷ 1
    ∷ 0 ∷ 0 ∷ 0 ∷ 118 ∷ []

encoded : encode_record plain 1 1 key (118 ∷ []) ≡ some bytes
unfolding runs
encoded = refl

-- a byte is wrong
corrupted : read_record plain (take 26 bytes ++ 119 ∷ []) ≡ value_error
unfolding runs
corrupted = refl

read_record-encode_record_example :
    read_record plain (bytes ++ 9 ∷ [])
    ≡ got
        (record { seq_num = 1; op_type = put; key = key; value = 118 ∷ []; checksum = 1573 })
        (9 ∷ [])
unfolding runs
read_record-encode_record_example =
    read_record-encode_record plain 1 1 key (118 ∷ []) bytes (9 ∷ []) refl refl refl

encode_record-some_iff_example :
    ((bs : Bytes) × ((encode_record plain 1 1 key [] ≡ some bs) × (length bs ≡ 26)))
    ↔ Fits plain 1 1 key []
encode_record-some_iff_example = encode_record-some_iff plain 1 1 key []

read_file-enough_example :
    (scan plain 40 bytes ≡ read_file plain bytes) × ((read_file plain bytes).1 ≢ out_of_fuel)
read_file-enough_example = read_file-enough plain 40 bytes (omega arith)

abbrev empty_log : WriteAheadLog
empty_log = record {
  files = record { number = 1; bytes = [] } ∷ [];
  is_open = true;
  sync_mode = SyncMode.batch;
  max_file_size = 60;
  batch_sync_count = 2;
  seq_num = 0;
  write_count = 0;
}

opened : open_log plain [] SyncMode.batch 60 2 ≡ some empty_log
unfolding runs
opened = refl

empty_log-IsLog : IsLog plain empty_log []
empty_log-IsLog = record {
  last_seq = 0;
  clean = one 0 0 (record { number = 1; bytes = [] }) [] nothing refl;
  numbered = omega arith;
  opened = refl;
}

abbrev one_write : WriteAheadLog
one_write = (append plain empty_log put key (118 ∷ [])).0

one_write-IsLog : IsLog plain one_write (entry plain 1 put key (118 ∷ []) ∷ [])
unfolding runs
one_write-IsLog =
    (append-IsLog plain empty_log one_write [] put key (118 ∷ []) 1 lossless empty_log-IsLog refl).0

append-IsLog_example : IsLog plain one_write (entry plain 1 put key (118 ∷ []) ∷ []) × (1 ≡ 0 + 1)
unfolding runs
append-IsLog_example =
    append-IsLog plain empty_log one_write [] put key (118 ∷ []) 1 lossless empty_log-IsLog refl

abbrev ops : List (Op × (Bytes × Bytes))
ops = (put, (key, 97 ∷ [])) ∷ (delete, (key, [])) ∷ []

abbrev buffer : Bytes
buffer = elim (encode_batch plain 1 ops).1 [ none ↦ [] | some b ↦ b ]

torn_batch_ignored_example :
    replay plain (write_last (take 70 buffer) one_write.files) 0 ≡ replay plain one_write.files 0
unfolding runs
torn_batch_ignored_example =
    torn_batch_ignored plain one_write (entry plain 1 put key (118 ∷ []) ∷ []) ops 0 5 70 buffer
      lossless one_write-IsLog (inl refl, (inr refl, tt)) (omega arith) refl (omega arith)

append_batch-replay_example :
    replay plain (append_batch plain one_write ops).0.files 0
    ≡ (replay plain one_write.files 0 >>= (λ before. some (before ++ entries plain 2 ops)))
unfolding runs
append_batch-replay_example =
    append_batch-replay plain one_write (append_batch plain one_write ops).0
      (entry plain 1 put key (118 ∷ []) ∷ []) ops 0 5 lossless one_write-IsLog
      (inl refl, (inr refl, tt)) (omega arith) refl

-- what a crash leaves of a batch, when COMMIT is missing
abbrev begun : WriteAheadLog
begun = (append plain one_write begin [] []).0

begun-IsLog : IsLog plain begun (entry plain 1 put key (118 ∷ []) ∷ entry plain 2 begin [] [] ∷ [])
unfolding runs
begun-IsLog =
    (append-IsLog plain one_write begun (entry plain 1 put key (118 ∷ []) ∷ []) begin [] [] 2
      lossless one_write-IsLog refl).0

append_after_torn_batch_example :
    replay plain (append plain begun put key (119 ∷ [])).0.files 0 ≡ replay plain begun.files 0
unfolding runs
append_after_torn_batch_example =
    append_after_torn_batch plain begun (append plain begun put key (119 ∷ [])).0
      (entry plain 1 put key (118 ∷ []) ∷ entry plain 2 begin [] [] ∷ []) put key (119 ∷ []) 0 3
      lossless begun-IsLog refl (inl refl) (omega arith) refl

truncated :
    replay plain (truncate plain (append_batch plain one_write ops).0 3).0.files 0
    ≡ some (entry plain 4 delete key [] ∷ [])
unfolding runs
truncated = refl

rotated :
    last_file (append_batch plain one_write ops).0.files ≡ some (record { number = 2; bytes = [] })
unfolding runs
rotated = refl
