-- ===== src/Mvcc/Tests.antt =====
-- The theorems on snapshots at small databases of numbers.
use ddia_implementations.Mvcc.Collector.{
  garbage_collect, collect_all, collect, drop_aborted, keep_needed, is_garbage, is_superseded,
  min_active,
}
use ddia_implementations.Prelude.{
  ℕ, String, nat_key, string_key, string_dec, ℕ_discrete, refl, false, Option, List, none, ◌∷◌,
  some, ◌≡◌, ◌+◌, [], All, true, arith,
}
use ddia_implementations.Dict
use ddia_implementations.Sets
use ddia_implementations.Mvcc.Database.{
  is_live, Database, Version, Transaction, begin_transaction, write, delete, commit, read, sees,
  active_ids, committed, empty, ok, check_active, active, is_visible, check_writable, versions_of,
  update_own, mark, any_visible, is_live, has_conflict, any_conflict, conflicts, commit_active,
  abort_active, unmark_all, unmark, last_visible,
}
use ddia_implementations.Mvcc.Valid.{IsValid, empty-IsValid}
use ddia_implementations.Mvcc.Steps.{Step-IsValid, began, deleted, wrote, ended}
use ddia_implementations.Mvcc.Isolation.{Others, read_stable, then, nothing_more}
use ddia_implementations.Mvcc.Anomaly.{first_committer_wins, deletion_undone}
use ddia_implementations.Mvcc.Early.{collected_early}

runs : Unit {0}
unfolding begin_transaction active_ids check_active check_writable write update_own delete mark
    any_visible is_visible is_live sees commit has_conflict any_conflict conflicts commit_active
    abort_active unmark_all unmark read last_visible Dict.get Dict.put string_dec ℕ_discrete
    Sets.insert Sets.member garbage_collect collect_all collect drop_aborted keep_needed is_garbage
    is_superseded min_active
runs = tt

abbrev writer : Transaction
writer = record {
  tx_id = 1;
  start_timestamp = 1;
  read_only = false;
  status = committed;
  write_set = "x" ∷ [];
  active_at_start = [];
}

abbrev version : Option ℕ → Version ℕ
version mark = record { key = "x"; value = 7; created_by = 1; deleted_by = mark }

-- begun as number `n`, while `others` were at work
abbrev started : ℕ → List ℕ → List String → Transaction
started n others keys = record {
  tx_id = n;
  start_timestamp = n + 1;
  read_only = false;
  status = active;
  write_set = keys;
  active_at_start = others;
}

abbrev start : Database ℕ
start = record {
  next_tx_id = 2;
  next_timestamp = 3;
  versions = ("x", version none ∷ []) ∷ [];
  transactions = (1, writer) ∷ [];
  committed_ids = 1 ∷ [];
  aborted_ids = [];
  commit_timestamps = (1, 2) ∷ [];
}

written :
    write (begin_transaction (empty {V = ℕ}) false).0 1 "x" 7
    ≡ ok (record start {
      next_timestamp = 2;
      transactions = (1, record writer { status = active }) ∷ [];
      committed_ids = [];
      commit_timestamps = [];
    })
unfolding runs
written = refl

-- one committed transaction
start-IsValid : IsValid start
unfolding runs
start-IsValid =
    Step-IsValid
      (Step-IsValid (Step-IsValid (empty-IsValid {V = ℕ}) (began false)) (wrote 1 "x" 7 _ written))
      (ended 1 true start refl)

-- two more transactions begin
abbrev two_open : Database ℕ
two_open = record start {
  next_tx_id = 4;
  next_timestamp = 5;
  transactions = (1, writer) ∷ (2, started 2 [] []) ∷ (3, started 3 (2 ∷ []) []) ∷ [];
}

two_open-IsValid : IsValid two_open
unfolding runs
two_open-IsValid = Step-IsValid (Step-IsValid start-IsValid (began false)) (began false)

abbrev third_deleted : Database ℕ
third_deleted = record two_open {
  versions = ("x", version (some 3) ∷ []) ∷ [];
  transactions = (1, writer) ∷ (2, started 2 [] []) ∷ (3, started 3 (2 ∷ []) ("x" ∷ [])) ∷ [];
}

abbrev third_done : Database ℕ
third_done = record third_deleted {
  next_timestamp = 6;
  transactions =
      (1, writer)
      ∷ (2, started 2 [] [])
      ∷ (3, record (started 3 (2 ∷ []) ("x" ∷ [])) { status = committed })
      ∷ [];
  committed_ids = 3 ∷ 1 ∷ [];
  commit_timestamps = (1, 2) ∷ (3, 5) ∷ [];
}

third_delete : delete two_open 3 "x" ≡ ok (third_deleted, true)
unfolding runs
third_delete = refl

third_commit : commit third_deleted 3 ≡ ok (third_done, true)
unfolding runs
third_commit = refl

others : Others 2 two_open third_done
unfolding runs
others =
    then (deleted 3 "x" true third_deleted third_delete) (omega arith) clean
      (then (ended 3 true third_done third_commit) (omega arith) tt (nothing_more third_done))
  where
    clean :
        (w : Transaction)
        → Dict.get two_open.transactions 3 ≡ some w
        → All (λ v. is_visible two_open w v ≡ true → v.deleted_by ≡ none) (versions_of two_open "x")
    clean w g = (λ e. refl, tt)

read_stable_example : read third_done 2 "x" ≡ read two_open 2 "x"
unfolding runs
read_stable_example =
    read_stable 2 (started 2 [] []) "x" two_open third_done two_open-IsValid refl refl others

first_committer_wins_example : sees third_deleted (started 3 (2 ∷ []) ("x" ∷ [])) 1 ≡ true
unfolding runs
first_committer_wins_example =
    first_committer_wins third_deleted third_done 3 (started 3 (2 ∷ []) ("x" ∷ [])) "x" 0
      (version (some 3)) refl refl third_commit refl refl refl refl (omega arith)

Step-IsValid_example : IsValid third_deleted
Step-IsValid_example =
    Step-IsValid {V = ℕ} {db = two_open} {db' = third_deleted} {u = 3} two_open-IsValid
      (deleted 3 "x" true third_deleted third_delete)

-- then a fourth begins, which sees the deletion
abbrev fourth_open : Database ℕ
fourth_open = (begin_transaction third_done false).0

fourth_open-IsValid : IsValid fourth_open
fourth_open-IsValid =
    Step-IsValid (Step-IsValid Step-IsValid_chain (ended 3 true third_done third_commit))
      (began false)
  where
    Step-IsValid_chain : IsValid third_deleted
    Step-IsValid_chain =
        Step-IsValid two_open-IsValid (deleted 3 "x" true third_deleted third_delete)

deletion_undone_example :
    (db' : Database ℕ) × ((delete fourth_open 2 "x" ≡ ok (db', true))
      × ((read fourth_open 4 "x" ≡ ok none) × (read db' 4 "x" ≡ ok (some 7))))
unfolding runs
deletion_undone_example =
    deletion_undone fourth_open 4 2 3 (record (started 4 (2 ∷ []) []) { start_timestamp = 6 })
      (started 2 [] []) "x" (version (some 3)) fourth_open-IsValid refl refl refl refl (omega arith)
      refl refl refl refl refl refl refl

-- The second transaction deletes the key and commits while the third reads.
abbrev second_done : Database ℕ
second_done = record two_open {
  next_timestamp = 6;
  versions = ("x", version (some 2) ∷ []) ∷ [];
  transactions =
      (1, writer)
      ∷ (2, record (started 2 [] ("x" ∷ [])) { status = committed })
      ∷ (3, started 3 (2 ∷ []) [])
      ∷ [];
  committed_ids = 2 ∷ 1 ∷ [];
  commit_timestamps = (1, 2) ∷ (2, 5) ∷ [];
}

collected_early_example :
    (read second_done 3 "x" ≡ ok (some 7)) × (read (garbage_collect second_done).0 3 "x" ≡ ok none)
unfolding runs
collected_early_example =
    collected_early second_done 3 2 3 (started 3 (2 ∷ []) []) "x" (version (some 2)) (refl, tt) refl
      refl refl refl refl refl (omega arith) refl refl refl (omega arith)
