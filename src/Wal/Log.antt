-- ===== src/Wal/Log.antt =====
-- `WriteAheadLog` of write-ahead-log/wal.py. The directory is a list of files in the order of their
-- numbers, which is the order of the sorted names up to 999999; the open file is the last one, as
-- both `_open_latest` and `_rotate` choose it. The lock makes each method one step.
pub mod Read
pub mod Whole
pub mod Clean
pub mod Entries
pub mod Replayed
use ddia_implementations.Prelude.{
  ℕ, zero, suc, ◌+◌, List, [], ◌∷◌, ◌++◌, Option, none, some, ltb, leb, length, if◌then◌else◌, Bool,
  true, false, ◌>>=◌,
}
use ddia_implementations.Wal.Bytes.{Bytes}
use ddia_implementations.Wal.Record.{Op, op_byte, WalRecord, Runtime, encode_record}
use ddia_implementations.Wal.Log.Read.{
  File, read_file, highest, Ending, at_end, bad, raised, out_of_fuel,
}

pub data SyncMode : Type 0 where
  sync batch other : SyncMode

pub record WriteAheadLog : Type 0 where
  pub files : List File
  pub is_open : Bool
  pub sync_mode : SyncMode
  pub max_file_size : ℕ
  pub batch_sync_count : ℕ
  pub seq_num : ℕ
  pub write_count : ℕ

-- the last file, which `files[-1]` names
unfoldable pub last_file : List File → Option File
last_file [] = none
last_file (f ∷ []) = some f
last_file (f ∷ g ∷ fs) = last_file (g ∷ fs)

-- `self._fd.write(data)`
unfoldable pub write_last : Bytes → List File → List File
write_last bs [] = []
write_last bs (f ∷ []) = record f { bytes = f.bytes ++ bs } ∷ []
write_last bs (f ∷ g ∷ fs) = f ∷ write_last bs (g ∷ fs)

abbrev pub write_data : WriteAheadLog → Bytes → WriteAheadLog
write_data w bs = record w { files = write_last bs w.files }

unfoldable pub rotate : WriteAheadLog → WriteAheadLog
rotate w =
    let next_num : ℕ = elim (last_file w.files) [ none ↦ 1 | some f ↦ f.number + 1 ] in
    record w { files = w.files ++ record { number = next_num; bytes = [] } ∷ []; is_open = true }

unfoldable pub open_latest : WriteAheadLog → WriteAheadLog
open_latest w = elim (last_file w.files) [
  | none ↦ rotate w
  | some f ↦ if ltb (length f.bytes) w.max_file_size then record w { is_open = true } else rotate w
]

-- what `_do_sync` changes besides the disk
unfoldable pub do_sync : WriteAheadLog → Bool → WriteAheadLog
do_sync w force = elim w.sync_mode [
  | sync ↦ w
  | other ↦ w
  | batch ↦
      if force
      then w
      else if leb w.batch_sync_count (w.write_count + 1)
      then record w { write_count = 0 }
      else record w { write_count = w.write_count + 1 }
]

unfoldable pub maybe_rotate : WriteAheadLog → WriteAheadLog
maybe_rotate w = elim (last_file w.files) [
  | none ↦ w
  | some f ↦ if w.is_open then (if leb w.max_file_size (length f.bytes) then rotate w else w) else w
]

-- write, sync, rotate; a closed log has no file to write to, which is an AttributeError
unfoldable pub write_record : WriteAheadLog → Bool → Option Bytes → WriteAheadLog × Option ℕ
write_record w force none = (w, none)
write_record w force (some bs) =
    if w.is_open
    then (maybe_rotate (do_sync (write_data w bs) force), some w.seq_num)
    else (w, none)

module _ {T : Type 0} (r : Runtime T) where
  -- `none` is a KeyError or a struct.error
  unfoldable pub encode_op : ℕ → Op → T → T → Option Bytes
  encode_op seq op key value = do
    b ← op_byte op
    encode_record r seq b (r.encode key) (r.encode value)

  -- `none` in the answers is the exception; the sequence number stays taken
  unfoldable pub append : WriteAheadLog → Op → T → T → WriteAheadLog × Option ℕ
  append w op key value =
      let seq = w.seq_num + 1 in
      write_record (record w { seq_num = seq }) false (encode_op seq op key value)

  -- the loop of `append_batch`: the last number taken, and what the buffer gets
  unfoldable pub encode_all : ℕ → List (Op × (T × T)) → ℕ × Option Bytes
  encode_all seq [] = (seq, some [])
  encode_all seq ((op, (key, value)) ∷ ops) = elim (encode_op (seq + 1) op key value) [
    | none ↦ (seq + 1, none)
    | some bs ↦
        let rest = encode_all (seq + 1) ops in (rest.0, rest.1 >>= (λ more. some (bs ++ more)))
  ]

  -- BEGIN, the operations, COMMIT
  unfoldable pub encode_batch : ℕ → List (Op × (T × T)) → ℕ × Option Bytes
  encode_batch seq ops = elim (encode_record r (seq + 1) 5 [] []) [
    | none ↦ (seq + 1, none)
    | some first ↦
        let inner = encode_all (seq + 1) ops in
        elim inner.1 [
          | none ↦ (inner.0, none)
          | some middle ↦ (
            inner.0 + 1,
            (encode_record r (inner.0 + 1) 3 [] []) >>= (λ last. some (first ++ (middle ++ last))),
          )
        ]
  ]

  unfoldable pub append_batch : WriteAheadLog → List (Op × (T × T)) → WriteAheadLog × Option ℕ
  append_batch w ops =
      let buf = encode_batch w.seq_num ops in write_record (record w { seq_num = buf.0 }) true buf.1

  unfoldable pub checkpoint : WriteAheadLog → WriteAheadLog × Option ℕ
  checkpoint w =
      let seq = w.seq_num + 1 in
      write_record (record w { seq_num = seq }) true (encode_record r seq 4 [] [])

  -- `if rec.seq_num > up_to_seq: kept.append(rec)`
  unfoldable pub kept : ℕ → List (WalRecord T) → List (WalRecord T)
  kept up_to [] = []
  kept up_to (x ∷ xs) = if ltb up_to x.seq_num then x ∷ kept up_to xs else kept up_to xs

  -- the kept records written again
  unfoldable pub encode_kept : List (WalRecord T) → Option Bytes
  encode_kept [] = some []
  encode_kept (x ∷ xs) = do
    bs ← encode_op x.seq_num x.op_type x.key x.value
    more ← encode_kept xs
    some (bs ++ more)

  -- the loop over the files; false is an exception (struct.error or KeyError) that leaves the
  -- files from that one on as they are
  unfoldable pub truncate_files : ℕ → List File → List File × Bool
  truncate_files up_to [] = ([], true)
  truncate_files up_to (f ∷ fs) =
      let found = read_file r f.bytes in
      let rest = truncate_files up_to fs in
      elim found.1 [
        | raised ↦ (f ∷ fs, false)
        | out_of_fuel ↦ (f ∷ fs, false)
        | _ ↦ elim (kept up_to found.0) [
          | [] ↦ rest
          | x ∷ xs ↦ elim (encode_kept (x ∷ xs)) [
            | none ↦ (f ∷ fs, false)
            | some bs ↦ (record f { bytes = bs } ∷ rest.0, rest.1)
          ]
        ]
      ]

  unfoldable pub truncate : WriteAheadLog → ℕ → WriteAheadLog × Bool
  truncate w up_to =
      let done = truncate_files up_to w.files in
      let closed : WriteAheadLog = record w { files = done.0; is_open = false } in
      if done.1 then (open_latest closed, true) else (closed, false)

  -- `_recover_seq_num`; `none` is a struct.error
  unfoldable pub recover_seq_num : ℕ → List File → Option ℕ
  recover_seq_num max_seq [] = some max_seq
  recover_seq_num max_seq (f ∷ fs) =
      let found = read_file r f.bytes in
      let rest = recover_seq_num (highest max_seq found.0) fs in
      elim found.1 [ raised ↦ none | out_of_fuel ↦ none | _ ↦ rest ]

  -- `__init__` on a directory with these files
  unfoldable pub open_log : List File → SyncMode → ℕ → ℕ → Option WriteAheadLog
  open_log files sync_mode max_file_size batch_sync_count = do
    seq ← recover_seq_num 0 files
    some (
        open_latest (record {
          files = files;
          is_open = false;
          sync_mode = sync_mode;
          max_file_size = max_file_size;
          batch_sync_count = batch_sync_count;
          seq_num = seq;
          write_count = 0;
        }))

unfoldable pub close : WriteAheadLog → WriteAheadLog
close w = record w { is_open = false }
