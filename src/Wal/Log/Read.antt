-- ===== src/Wal/Log/Read.antt =====
-- How `WriteAheadLog` of write-ahead-log/wal.py reads its files: `_read_all_records` and `replay`.
use ddia_implementations.Prelude.{
  ℕ, zero, suc, List, [], ◌∷◌, ◌++◌, Option, none, some, leb, length, if◌then◌else◌, Bool, true,
  false, max,
}
use ddia_implementations.Wal.Bytes.{Bytes}
use ddia_implementations.Wal.Record.{
  WalRecord, Runtime, at_eof, value_error, struct_error, got, read_record, begin, commit, put,
  delete, checkpoint, unknown,
}

pub record File : Type 0 where
  pub number : ℕ
  pub bytes : Bytes

-- how the reading of one file ends: `_read_record` returns None, raises ValueError or struct.error.
-- `out_of_fuel` is no behaviour of the code: `length bytes + 1` rounds are always enough.
pub data Ending : Type 0 where
  at_end bad raised out_of_fuel : Ending

-- the records that the loops with `_in_order_` let through, the last number, and whether they stop
pub record InOrder (T : Type 0) : Type 0 where
  pub records : List (WalRecord T)
  pub last_seq : ℕ
  pub stopped : Bool

-- the state of the loop of `replay`
pub record Replayed (T : Type 0) : Type 0 where
  pub result : List (WalRecord T)
  pub in_batch : Bool
  pub batch_buf : List (WalRecord T)

module _ {T : Type 0} where
  -- `max_seq = max(max_seq, rec.seq_num)`
  unfoldable pub highest : ℕ → List (WalRecord T) → ℕ
  highest m [] = m
  highest m (x ∷ xs) = highest (max m x.seq_num) xs

  unfoldable pub in_order : ℕ → List (WalRecord T) → InOrder T
  in_order last [] = record { records = []; last_seq = last; stopped = false }
  in_order last (x ∷ xs) =
      let rest = in_order x.seq_num xs in
      if leb x.seq_num last
      then record { records = []; last_seq = last; stopped = true }
      else record rest { records = x ∷ rest.records }

  abbrev pub start : Replayed T
  start = record { result = []; in_batch = false; batch_buf = [] }

  unfoldable pub replay_one : ℕ → Replayed T → WalRecord T → Replayed T
  replay_one after_seq p x = if leb x.seq_num after_seq then p else elim x.op_type [
    | begin ↦ record p { in_batch = true; batch_buf = [] }
    | commit ↦ record {
      result = if p.in_batch then p.result ++ p.batch_buf else p.result;
      in_batch = false;
      batch_buf = [];
    }
    | put ↦
        if p.in_batch
        then record p { batch_buf = p.batch_buf ++ x ∷ [] }
        else record p { result = p.result ++ x ∷ [] }
    | delete ↦
        if p.in_batch
        then record p { batch_buf = p.batch_buf ++ x ∷ [] }
        else record p { result = p.result ++ x ∷ [] }
    | checkpoint ↦ p
    | unknown ↦ p
  ]

  unfoldable pub replay_all : ℕ → Replayed T → List (WalRecord T) → Replayed T
  replay_all after_seq p [] = p
  replay_all after_seq p (x ∷ xs) = replay_all after_seq (replay_one after_seq p x) xs

module _ {T : Type 0} (r : Runtime T) where
  -- `while True: rec = _read_record(f)`, on fuel
  unfoldable pub scan : ℕ → Bytes → List (WalRecord T) × Ending
  scan zero file = ([], out_of_fuel)
  scan (suc n) file = elim (read_record r file) [
    | at_eof ↦ ([], at_end)
    | value_error ↦ ([], bad)
    | struct_error ↦ ([], raised)
    | got x rest ↦ let more = scan n rest in (x ∷ more.0, more.1)
  ]

  unfoldable pub read_file : Bytes → List (WalRecord T) × Ending
  read_file bytes = scan (suc (length bytes)) bytes

  -- `_read_all_records` from one file on: what it yields, and whether it raises struct.error then
  unfoldable pub read_all_records : ℕ → List File → List (WalRecord T) × Bool
  read_all_records last_seq [] = ([], false)
  read_all_records last_seq (f ∷ fs) =
      let found = read_file f.bytes in
      let passed = in_order last_seq found.0 in
      let rest = read_all_records passed.last_seq fs in
      if passed.stopped then (passed.records, false) else elim found.1 [
        | at_end ↦ (passed.records ++ rest.0, rest.1)
        | bad ↦ (passed.records, false)
        | raised ↦ (passed.records, true)
        | out_of_fuel ↦ (passed.records, true)
      ]

  -- `none` is the exception
  unfoldable pub replay : List File → ℕ → Option (List (WalRecord T))
  replay files after_seq =
      let found = read_all_records 0 files in
      if found.1 then none else some (replay_all after_seq start found.0).result
