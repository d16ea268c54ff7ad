-- ===== src/Mvcc/Database.antt =====
-- `MVCCDatabase` of snapshot-isolation/mvcc_database.py, over any type of values. A transaction
-- object is named by its `tx_id` and stands in `transactions`; what a method changes of it is changed
-- there. The lock of the database makes each method one step.
use text.Mathlib.Text.{starts_with}
use ddia_implementations.Prelude.{
  ℕ, ◌+◌, [], ◌∷◌, String, Bool, List, Option, if◌then◌else◌, true, ◌&&◌, false, some, none, ◌!=◌,
  nat_key, string_key, not, ◌++◌, ◌||◌, ◌==◌, ltb, is_none, leb,
}
use ddia_implementations.Dict
use ddia_implementations.Dict.{Dict}
use ddia_implementations.Sets

pub record Version (V : Type 0) : Type 0 where
  pub key : String
  pub value : V
  pub created_by : ℕ
  pub deleted_by : Option ℕ

pub data Status : Type 0 where
  active committed aborted : Status

pub record Transaction : Type 0 where
  pub tx_id : ℕ
  pub start_timestamp : ℕ
  pub read_only : Bool
  pub status : Status
  pub write_set : List String
  pub active_at_start : List ℕ

abbrev pub is_active : Transaction → Bool
is_active t = elim t.status [ active ↦ true | _ ↦ false ]

pub record Database (V : Type 0) : Type 0 where
  pub next_tx_id : ℕ
  pub next_timestamp : ℕ
  pub versions : Dict String (List (Version V))
  pub transactions : Dict ℕ Transaction
  pub committed_ids : List ℕ
  pub aborted_ids : List ℕ
  pub commit_timestamps : Dict ℕ ℕ

-- `TransactionError`, by its message; `unknown` is for a number that no transaction object has.
pub data TransactionError : Type 0 where
  not_active read_only_error unknown : TransactionError

pub data Result (A : Type 0) : Type 0 where
  ok : A → Result A
  raise : TransactionError → Result A

infixl 5 ◌>>=◌
abbrev pub ◌>>=◌ : {A B : Type 0} → Result A → (A → Result B) → Result B
ok a >>= f = f a
raise e >>= f = raise e

-- the comprehension of `_begin_transaction`
unfoldable pub active_ids : Dict ℕ Transaction → List ℕ
active_ids [] = []
active_ids ((tid, t) ∷ d) = let rest = active_ids d in if is_active t then tid ∷ rest else rest

abbrev pub add_write : Transaction → String → Transaction
add_write t key = record t { write_set = Sets.insert key t.write_set }

module _ {V : Type 0} where
  abbrev pub empty : Database V
  empty = record {
    next_tx_id = 1;
    next_timestamp = 1;
    versions = [];
    transactions = [];
    committed_ids = [];
    aborted_ids = [];
    commit_timestamps = [];
  }

  unfoldable pub begin_transaction : Database V → Bool → Database V × ℕ
  begin_transaction db read_only = (
    record db {
      next_tx_id = db.next_tx_id + 1;
      next_timestamp = db.next_timestamp + 1;
      transactions = Dict.put db.transactions db.next_tx_id (record {
        tx_id = db.next_tx_id;
        start_timestamp = db.next_timestamp;
        read_only = read_only;
        status = active;
        write_set = [];
        active_at_start = active_ids db.transactions;
      });
    },
    db.next_tx_id,
  )

  -- Does `tx` see what transaction `by` did? By others it sees what was committed before it began.
  unfoldable pub sees : Database V → Transaction → ℕ → Bool
  sees db tx by =
      Sets.member by db.committed_ids && not (Sets.member by tx.active_at_start) && ltb by tx.tx_id

  -- the second half of `_is_visible`: the deletion mark
  unfoldable pub is_live : Database V → Transaction → Option ℕ → Bool
  unfolding sees
  is_live db tx none = true
  is_live db tx (some by) =
      if by == tx.tx_id
      then false
      else if Sets.member by db.aborted_ids
      then true
      else not (sees db tx by)

  unfoldable pub is_visible : Database V → Transaction → Version V → Bool
  unfolding is_live sees
  is_visible db tx version =
      if Sets.member version.created_by db.aborted_ids
      then false
      else if version.created_by == tx.tx_id || sees db tx version.created_by
      then is_live db tx version.deleted_by
      else false

  -- `_check_active`, with the transaction object
  unfoldable pub check_active : Database V → ℕ → Result Transaction
  check_active db tx_id = elim (Dict.get db.transactions tx_id) [
    | none ↦ raise unknown
    | some t ↦ if is_active t then ok t else raise not_active
  ]

  unfoldable pub check_writable : Database V → ℕ → Result Transaction
  unfolding check_active
  check_writable db tx_id = do
    t ← check_active db tx_id
    if t.read_only then raise read_only_error else ok t

  -- the loop of `_read`: the last visible version counts
  unfoldable pub last_visible : Database V → Transaction → Option V → List (Version V) → Option V
  last_visible db tx found [] = found
  last_visible db tx found (v ∷ vs) =
      last_visible db tx (if is_visible db tx v then some v.value else found) vs

  abbrev pub versions_of : Database V → String → List (Version V)
  versions_of db key = elim (Dict.get db.versions key) [ none ↦ [] | some vs ↦ vs ]

  unfoldable pub read : Database V → ℕ → String → Result (Option V)
  unfolding check_active
  read db tx_id key = do t ← check_active db tx_id; ok (last_visible db t none (versions_of db key))

  -- the loop of `_write` that looks for an own version to update in place
  unfoldable pub update_own : ℕ → V → List (Version V) → Option (List (Version V))
  update_own tx_id value [] = none
  update_own tx_id value (v ∷ vs) =
      let rest = update_own tx_id value vs in
      if v.created_by == tx_id && is_none v.deleted_by
      then some (record v { value = value } ∷ vs)
      else elim rest [ none ↦ none | some vs' ↦ some (v ∷ vs') ]

  unfoldable pub write : Database V → ℕ → String → V → Result (Database V)
  unfolding check_writable
  write db tx_id key value = do
    t ← check_writable db tx_id
    ok (elim (update_own t.tx_id value (versions_of db key)) [
      | some vs ↦ record db { versions = Dict.put db.versions key vs }
      | none ↦ record db {
        versions = Dict.put db.versions key (
            versions_of db key
            ++ record { key = key; value = value; created_by = t.tx_id; deleted_by = none } ∷ []);
        transactions = Dict.put db.transactions tx_id (add_write t key);
      }
    ])

  -- the loop of `_delete`
  unfoldable pub mark : Database V → Transaction → List (Version V) → List (Version V)
  mark db t [] = []
  mark db t (v ∷ vs) =
      (if is_visible db t v then record v { deleted_by = some t.tx_id } else v) ∷ mark db t vs

  unfoldable pub any_visible : Database V → Transaction → List (Version V) → Bool
  any_visible db t [] = false
  any_visible db t (v ∷ vs) = is_visible db t v || any_visible db t vs

  unfoldable pub delete : Database V → ℕ → String → Result (Database V × Bool)
  unfolding check_writable
  delete db tx_id key = do
    t ← check_writable db tx_id
    ok (
        if any_visible db t (versions_of db key)
        then (
          record db {
            versions = Dict.put db.versions key (mark db t (versions_of db key));
            transactions = Dict.put db.transactions tx_id (add_write t key);
          },
          true,
        )
        else (db, false))

  -- the test of `_commit` on one version: another transaction committed it after `t` began
  unfoldable pub conflicts : Database V → Transaction → Version V → Bool
  conflicts db t v =
      v.created_by != t.tx_id
      && not (Sets.member v.created_by db.aborted_ids)
      && Sets.member v.created_by db.committed_ids
      && (Sets.member v.created_by t.active_at_start || leb t.tx_id v.created_by)

  unfoldable pub any_conflict : Database V → Transaction → List (Version V) → Bool
  any_conflict db t [] = false
  any_conflict db t (v ∷ vs) = conflicts db t v || any_conflict db t vs

  unfoldable pub has_conflict : Database V → Transaction → List String → Bool
  has_conflict db t [] = false
  has_conflict db t (k ∷ ks) = any_conflict db t (versions_of db k) || has_conflict db t ks

  -- the loops of `_abort` that take back its deletion marks
  unfoldable pub unmark : ℕ → List (Version V) → List (Version V)
  unmark tx_id [] = []
  unmark tx_id (v ∷ vs) =
      (elim v.deleted_by [
        | none ↦ v
        | some by ↦ if by == tx_id then record v { deleted_by = none } else v
      ])
      ∷ unmark tx_id vs

  unfoldable pub unmark_all :
      ℕ → Dict String (List (Version V)) → List String → Dict String (List (Version V))
  unmark_all tx_id d [] = d
  unmark_all tx_id d (k ∷ ks) =
      unmark_all tx_id (elim (Dict.get d k) [ none ↦ d | some vs ↦ Dict.put d k (unmark tx_id vs) ])
        ks

  unfoldable pub abort_active : Database V → Transaction → Database V
  abort_active db t = record db {
    transactions = Dict.put db.transactions t.tx_id (record t { status = aborted });
    aborted_ids = Sets.insert t.tx_id db.aborted_ids;
    versions = unmark_all t.tx_id db.versions t.write_set;
  }

  unfoldable pub abort : Database V → ℕ → Result (Database V)
  unfolding check_active
  abort db tx_id = do t ← check_active db tx_id; ok (abort_active db t)

  unfoldable pub commit_active : Database V → Transaction → Database V
  commit_active db t = record db {
    transactions = Dict.put db.transactions t.tx_id (record t { status = committed });
    committed_ids = Sets.insert t.tx_id db.committed_ids;
  }

  unfoldable pub commit : Database V → ℕ → Result (Database V × Bool)
  unfolding check_active
  commit db tx_id = do
    t ← check_active db tx_id
    ok (
        if t.read_only
        then (commit_active db t, true)
        else if has_conflict db t t.write_set
        then (abort_active db t, false)
        else (
          record (commit_active db t) {
            next_timestamp = db.next_timestamp + 1;
            commit_timestamps = Dict.put db.commit_timestamps t.tx_id db.next_timestamp;
          },
          true,
        ))

  -- the loop of `_scan` over the keys
  unfoldable pub scan_keys :
      Database V
      → Transaction
      → String
      → Dict String (List (Version V))
      → Dict String V
      → Dict String V
  scan_keys db t prefix [] found = found
  scan_keys db t prefix ((key, vs) ∷ d) found = scan_keys db t prefix d (
      if starts_with key prefix
      then elim (last_visible db t none (versions_of db key)) [
        | none ↦ found
        | some value ↦ Dict.put found key value
      ]
      else found)

  unfoldable pub scan : Database V → ℕ → String → Result (Dict String V)
  unfolding check_active
  scan db tx_id prefix = do t ← check_active db tx_id; ok (scan_keys db t prefix db.versions [])
