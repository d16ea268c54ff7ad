-- ===== src/Mvcc/Collector.antt =====
-- `garbage_collect` of snapshot-isolation/mvcc_database.py.
use ddia_implementations.Prelude.{
  ℕ, ◌+◌, [], ◌∷◌, Option, List, Bool, String, none, false, if◌then◌else◌, ◌&&◌, some, length, not,
  ltb, ◌-◌, nat_key, min, ◌||◌,
}
use ddia_implementations.Dict.{Dict}
use ddia_implementations.Sets
use ddia_implementations.Mvcc.Database.{Version, Database, Transaction, is_active}

-- `min` over the numbers of the active transactions, if there are any
unfoldable pub min_active : Dict ℕ Transaction → Option ℕ
min_active [] = none
min_active ((tid, t) ∷ d) =
    let rest = min_active d in
    if is_active t then some (elim rest [ none ↦ t.tx_id | some m ↦ min t.tx_id m ]) else rest

module _ {V : Type 0} where
  abbrev is_committed_mark : Database V → Option ℕ → Bool
  is_committed_mark db none = false
  is_committed_mark db (some by) = Sets.member by db.committed_ids

  unfoldable pub drop_aborted : Database V → List (Version V) → List (Version V)
  drop_aborted db [] = []
  drop_aborted db (v ∷ vs) =
      let rest = drop_aborted db vs in
      if Sets.member v.created_by db.aborted_ids then rest else v ∷ rest

  -- the latest committed version that no committed transaction deleted
  unfoldable pub latest_committed :
      Database V → Option (Version V) → List (Version V) → Option (Version V)
  latest_committed db latest [] = latest
  latest_committed db latest (v ∷ vs) =
      latest_committed db
        (if Sets.member v.created_by db.committed_ids && not (is_committed_mark db v.deleted_by)
          then some v
          else latest)
        vs

  -- committed by a transaction older than all active ones
  abbrev is_old : Database V → ℕ → ℕ → Bool
  is_old db oldest by = Sets.member by db.committed_ids && ltb by oldest

  -- `any(…)` over `committed_before_oldest`: a newer such version stands in the list
  unfoldable pub is_superseded : Database V → ℕ → Version V → List (Version V) → Bool
  is_superseded db oldest v [] = false
  is_superseded db oldest v (w ∷ ws) =
      (is_old db oldest w.created_by && ltb v.created_by w.created_by)
      || is_superseded db oldest v ws

  -- the two branches that remove a version while transactions are active
  unfoldable pub is_garbage : Database V → ℕ → List (Version V) → Version V → Bool
  unfolding is_superseded
  is_garbage db oldest all v = elim v.deleted_by [
    | some by ↦ is_old db oldest by
    | none ↦ is_old db oldest v.created_by && is_superseded db oldest v all
  ]

  unfoldable pub keep_needed :
      Database V → ℕ → List (Version V) → List (Version V) → List (Version V)
  unfolding is_garbage
  keep_needed db oldest all [] = []
  keep_needed db oldest all (v ∷ vs) =
      let rest = keep_needed db oldest all vs in
      if is_garbage db oldest all v then rest else v ∷ rest

  -- what the loop over the keys leaves of one list of versions
  unfoldable pub collect : Database V → List (Version V) → List (Version V)
  unfolding drop_aborted latest_committed keep_needed min_active
  collect db vs =
      let kept = drop_aborted db vs in
      elim (min_active db.transactions) [
        | none ↦ elim (latest_committed db none kept) [ none ↦ [] | some v ↦ v ∷ [] ]
        | some oldest ↦ keep_needed db oldest kept kept
      ]

  -- the loop over the keys: the new table, where a key with nothing left is deleted, and the count
  unfoldable pub collect_all :
      Database V → Dict String (List (Version V)) → Dict String (List (Version V)) × ℕ
  unfolding collect
  collect_all db [] = ([], 0)
  collect_all db ((key, vs) ∷ d) =
      let (rest, n) = collect_all db d in
      let left = collect db vs in
      (
        elim left as (λ _. Dict String (List (Version V))) [
          | [] ↦ rest
          | w ∷ ws ↦ (key, left) ∷ rest
        ],
        (length vs - length left) + n,
      )

  unfoldable pub garbage_collect : Database V → Database V × ℕ
  unfolding collect_all
  garbage_collect db =
      let (versions, removed) = collect_all db db.versions in
      (record db { versions = versions }, removed)
