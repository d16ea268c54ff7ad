-- ===== src/Mvcc/Early.antt =====
-- `garbage_collect` of snapshot-isolation/mvcc_database.py compares numbers of transactions only.
use ddia_implementations.Mvcc.Snapshot.{entry, read-shown}
use ddia_implementations.Mvcc.Collector.{
  collect_all, collect, garbage_collect, drop_aborted, keep_needed, is_garbage, min_active,
}
use ddia_implementations.Prelude.{
  List-cases, [], ℕ, String, nat_key, string_key, List, ◌≡◌, none, false, some, true, ◌<◌, ◌≢◌, ◌∷◌,
  arith, List-cases, [], inl, inr, refl, ◌∙◌,
}
use ddia_implementations.Dict
use ddia_implementations.Dict.{get-put, IsDistinct, Dict}
use ddia_implementations.Sets
use ddia_implementations.Mvcc.Database.{
  Database, Version, Transaction, is_visible, is_live, last_visible, sees, is_active, versions_of,
  read, ok,
}

module _ {V : Type 0} where
  get-collect_all-none :
      (db : Database V) (d : Dict String (List (Version V))) (k : String)
      → Dict.get d k ≡ none
      → Dict.get (collect_all db d).0 k ≡ none
  unfolding collect_all Dict.get
  get-collect_all-none db [] k h = refl
  get-collect_all-none db ((j, vs) ∷ d) k h = elim (List-cases (collect db vs)) [
    | inl e ↦ ground (arith, get-collect_all-none db d k)
    | inr (w, (ws, e)) ↦ ground (arith, get-collect_all-none db d k)
  ]

  -- the collector works key by key
  pub entry-collect_all :
      (db : Database V) (d : Dict String (List (Version V))) (k : String)
      → IsDistinct d
      → entry (collect_all db d).0 k ≡ collect db (entry d k)
  unfolding collect_all Dict.get
  entry-collect_all db [] k h = ground arith
  entry-collect_all db ((j, vs) ∷ d) k (h, hs) = elim (List-cases (collect db vs)) [
    | inl e ↦ ground (arith, get-collect_all-none db d k, entry-collect_all db d k hs)
    | inr (w, (ws, e)) ↦ ground (arith, entry-collect_all db d k hs)
  ]

  collect-marked :
      (db : Database V) (v : Version V) (x oldest : ℕ)
      → min_active db.transactions ≡ some oldest
      → Sets.member v.created_by db.aborted_ids ≡ false
      → v.deleted_by ≡ some x
      → Sets.member x db.committed_ids ≡ true
      → x < oldest
      → collect db (v ∷ []) ≡ []
  unfolding collect drop_aborted keep_needed is_garbage
  collect-marked db v x oldest m a d c lt = ground arith

  is_visible-concurrent :
      (db : Database V) (t : Transaction) (v : Version V) (x : ℕ)
      → Sets.member v.created_by db.aborted_ids ≡ false
      → sees db t v.created_by ≡ true
      → v.deleted_by ≡ some x
      → x ≢ t.tx_id
      → Sets.member x t.active_at_start ≡ true
      → is_visible db t v ≡ true
  unfolding is_visible is_live sees
  is_visible-concurrent db t v x a s d ne m = ground arith

  -- The collector can remove a version that an active transaction still reads. The only version of
  -- the key was deleted by `x`, which was active when the transaction `n` began, has committed since
  -- and is older than all transactions now active. Then `n` reads the value before
  -- `garbage_collect` and nothing after it.
  pub collected_early :
      (db : Database V) (n x oldest : ℕ) (t : Transaction) (k : String) (v : Version V)
      → IsDistinct db.versions
      → Dict.get db.transactions n ≡ some t
      → is_active t ≡ true
      → versions_of db k ≡ v ∷ []
      → Sets.member v.created_by db.aborted_ids ≡ false
      → sees db t v.created_by ≡ true
      → v.deleted_by ≡ some x
      → x ≢ t.tx_id
      → Sets.member x t.active_at_start ≡ true
      → Sets.member x db.committed_ids ≡ true
      → min_active db.transactions ≡ some oldest
      → x < oldest
      → (read db n k ≡ ok (some v.value)) × (read (garbage_collect db).0 n k ≡ ok none)
  unfolding garbage_collect last_visible
  collected_early db n x oldest t k v di g a vs ab s d ne m c mo lt = (
    read-shown db n t k g a ∙ ground (arith, is_visible-concurrent db t v x ab s d ne m),
    read-shown (garbage_collect db).0 n t k g a
        ∙ ground (
          arith,
          entry-collect_all db db.versions k di,
          collect-marked db v x oldest mo ab d c lt,
        ),
  )
