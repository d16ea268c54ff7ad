-- ===== src/Mvcc/Anomaly.antt =====
-- Write conflicts of snapshot-isolation/mvcc_database.py: what a commit detects, and what a deletion
-- does that no commit detects.
use ddia_implementations.Mvcc.Isolation.{same_sets, tx_id-differs, unseen}
use ddia_implementations.Mvcc.Steps.{check_writable-eq-ok}
use ddia_implementations.Mvcc.Snapshot.{is_live-other, last_visible-cong, entry, read-shown}
use ddia_implementations.Prelude.{
  ℕ, String, nat_key, string_key, ◌≡◌, true, List, false, some, ◌≢◌, ◌∷◌, arith, [], get_elem?,
  none, suc, zero, ◌∙◌, ap, refl,
}
use ddia_implementations.Dict
use ddia_implementations.Dict.{get-put}
use ddia_implementations.Sets
use ddia_implementations.Mvcc.Database.{
  is_visible, Database, Version, Transaction, any_conflict, has_conflict, commit, delete, conflicts,
  check_active, any_visible, sees, mark, ok, last_visible, versions_of, is_active, check_writable,
  is_visible, read, add_write, is_live,
}
use ddia_implementations.Mvcc.Valid.{IsValid}

module _ {V : Type 0} where
  any_conflict-known :
      (db : Database V) (t : Transaction) (vs : List (Version V)) (i : ℕ) (v : Version V)
      → any_conflict db t vs ≡ false
      → get_elem? vs i ≡ some v
      → Sets.member v.created_by db.committed_ids ≡ true
      → Sets.member v.created_by db.aborted_ids ≡ false
      → v.created_by ≢ t.tx_id
      → sees db t v.created_by ≡ true
  unfolding any_conflict conflicts sees
  any_conflict-known db t [] i v h at c a ne = ground arith
  any_conflict-known db t (w ∷ vs) zero v h at c a ne = ground arith
  any_conflict-known db t (w ∷ vs) (suc i) v h at c a ne =
      any_conflict-known db t vs i v (ground arith) at c a ne

  has_conflict-none :
      (db : Database V) (t : Transaction) (ks : List String) (k : String)
      → has_conflict db t ks ≡ false
      → Sets.member k ks ≡ true
      → any_conflict db t (versions_of db k) ≡ false
  unfolding has_conflict Sets.member
  has_conflict-none db t [] k h m = ground arith
  has_conflict-none db t (j ∷ ks) k h m = elim (string_key.dec k j) [
    | yes e ↦ ground arith
    | no e ↦ has_conflict-none db t ks k (ground arith) (ground arith)
  ]

  -- First committer wins: when the commit of a transaction that can write returns True, its
  -- snapshot contains every version of a key in its write set that another transaction created
  -- and that is committed and not aborted.
  pub first_committer_wins :
      (db db' : Database V) (n : ℕ) (t : Transaction) (k : String) (i : ℕ) (v : Version V)
      → Dict.get db.transactions n ≡ some t
      → t.read_only ≡ false
      → commit db n ≡ ok (db', true)
      → Sets.member k t.write_set ≡ true
      → get_elem? (versions_of db k) i ≡ some v
      → Sets.member v.created_by db.committed_ids ≡ true
      → Sets.member v.created_by db.aborted_ids ≡ false
      → v.created_by ≢ t.tx_id
      → sees db t v.created_by ≡ true
  unfolding commit check_active
  first_committer_wins db db' n t k i v g r h m at c a ne =
      any_conflict-known db t (versions_of db k) i v
        (has_conflict-none db t t.write_set k (ground arith) m) at c a ne

  unfoldable redeleted : Database V → ℕ → Transaction → String → Database V
  redeleted db u w k = record db {
    versions = Dict.put db.versions k (mark db w (versions_of db k));
    transactions = Dict.put db.transactions u (add_write w k);
  }

  delete-redeleted :
      (db : Database V) (u : ℕ) (w : Transaction) (k : String)
      → check_writable db u ≡ ok w
      → any_visible db w (versions_of db k) ≡ true
      → delete db u k ≡ ok (redeleted db u w k, true)
  unfolding delete redeleted
  delete-redeleted db u w k h a = ground arith

  is_visible-deleted :
      (db : Database V) (t : Transaction) (v : Version V) (x : ℕ)
      → v.deleted_by ≡ some x
      → Sets.member x db.aborted_ids ≡ false
      → sees db t x ≡ true
      → is_visible db t v ≡ false
  unfolding is_visible is_live
  is_visible-deleted db t v x d a s = ground arith

  is_visible-remarked :
      (db : Database V) (t : Transaction) (v : Version V) (u : ℕ)
      → Sets.member v.created_by db.aborted_ids ≡ false
      → sees db t v.created_by ≡ true
      → u ≢ t.tx_id
      → sees db t u ≡ false
      → is_visible db t (record v { deleted_by = some u }) ≡ true
  unfolding is_visible
  is_visible-remarked db t v u a s ne su = ground (arith, is_live-other db t u ne su)

  shown-redeleted :
      (db : Database V) (u : ℕ) (t w : Transaction) (k : String) (v : Version V)
      → versions_of db k ≡ v ∷ []
      → is_visible db w v ≡ true
      → is_visible db t (record v { deleted_by = some w.tx_id }) ≡ true
      → last_visible (redeleted db u w k) t none (versions_of (redeleted db u w k) k) ≡ some v.value
  unfolding redeleted last_visible mark
  shown-redeleted db u t w k v vs vis m =
      last_visible-cong db (redeleted db u w k) t (same_sets db (redeleted db u w k) t refl refl)
        none (entry (redeleted db u w k).versions k)
      ∙ ground (arith, get-put db.versions k (mark db w (versions_of db k)) k)

  -- A deletion can undo one that is committed. The only version of the key was deleted by
  -- `x`, whom the reader sees and who is not aborted, so that the reader `n` does not see the key.
  -- To the active transaction `u`, which can write, the version is still visible. When `u` deletes
  -- the key too, its mark replaces the mark of `x`, and `n` reads the deleted value.
  pub deletion_undone :
      (db : Database V) (n u x : ℕ) (t w : Transaction) (k : String) (v : Version V)
      → IsValid db
      → Dict.get db.transactions n ≡ some t
      → is_active t ≡ true
      → Dict.get db.transactions u ≡ some w
      → check_writable db u ≡ ok w
      → u ≢ n
      → versions_of db k ≡ v ∷ []
      → v.deleted_by ≡ some x
      → is_visible db w v ≡ true
      → Sets.member v.created_by db.aborted_ids ≡ false
      → sees db t v.created_by ≡ true
      → Sets.member x db.aborted_ids ≡ false
      → sees db t x ≡ true
      → (db' : Database V) × ((delete db u k ≡ ok (db', true))
          × ((read db n k ≡ ok none) × (read db' n k ≡ ok (some v.value))))
  unfolding any_visible last_visible redeleted
  deletion_undone db n u x t w k v valid g a gw cw ne vs d vis ca cs xa xs =
      let (_, aw) = check_writable-eq-ok db u w cw in
      let back =
        is_visible-remarked db t v w.tx_id ca cs (tx_id-differs db n u t w valid g gw ne)
          (unseen db u w t valid gw aw) in
      (
        redeleted db u w k,
        (
          delete-redeleted db u w k cw (ground arith),
          (
            read-shown db n t k g a ∙ ground (arith, is_visible-deleted db t v x d xa xs),
            read-shown (redeleted db u w k) n t k
                  (ground (arith, get-put db.transactions u (add_write w k) n)) a
                ∙ ap ok (shown-redeleted db u t w k v vs vis back),
          ),
        ),
      )
