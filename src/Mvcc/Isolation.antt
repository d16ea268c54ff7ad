-- ===== src/Mvcc/Isolation.antt =====
-- Snapshot isolation of snapshot-isolation/mvcc_database.py: reads of a transaction are stable.
use ddia_implementations.Mvcc.Snapshot.{
  entry, is_visible-cong, last_visible-cong, last_visible-update_own, sees-other, read-shown,
  last_visible-mark, sees-commit_active, last_visible-append, last_visible-unmark, is_visible-other,
}
use ddia_implementations.TwoPhase.Coordinator.{refused}
use ddia_implementations.Prelude.{
  ℕ, String, Bool, nat_key, string_key, ◌≢◌, ◌≡◌, some, All, List, none, true, false, subst, ◌∷◌,
  Option-cases, Option, arith, inl, ◌++◌, ◌∙◌, inr, [], ap, refl, sym,
}
use ddia_implementations.Dict
use ddia_implementations.Dict.{get-put, Dict}
use ddia_implementations.Sets
use ddia_implementations.Mvcc.Database.{
  Database, Version, Transaction, unmark_all, last_visible, begin_transaction, is_active,
  is_visible, sees, versions_of, abort_active, is_live, mark, commit_active, read, add_write,
  aborted, committed, unmark, ok,
}
use ddia_implementations.Mvcc.Valid.{IsValid, opened}
use ddia_implementations.Mvcc.Steps.{
  abort-eq-ok, Step, deleted, Written, Ended, in_place, kept, appended, refused, Deleted, nothing,
  marked, began, Step-IsValid, wrote, write-eq-ok, delete-eq-ok, ended, commit-eq-ok, gave_up,
  abort-eq-ok,
}

module _ {V : Type 0} where
  -- A deletion is clean if no version that it marks carries the mark of another one.
  abbrev pub IsClean : {db db' : Database V} {u : ℕ} → Step db u db' → Type 0
  IsClean {db} (deleted u k b db' h) =
      (w : Transaction)
      → Dict.get db.transactions u ≡ some w
      → All (λ v. is_visible db w v ≡ true → v.deleted_by ≡ none) (versions_of db k)
  IsClean s = Unit

  -- clean calls of transactions other than `n`
  pub data Others (n : ℕ) : Database V → Database V → Type 0 where
    nothing_more : (db : Database V) → Others n db db
    then :
        {db db' db'' : Database V} {u : ℕ} (s : Step db u db')
        → u ≢ n
        → IsClean s
        → Others n db' db''
        → Others n db db''

  -- `t` is at work under `n`, and what it reads
  abbrev Same : Database V → Database V → ℕ → Transaction → String → Type 0
  Same db db' n t k =
      (Dict.get db'.transactions n ≡ some t)
      × (last_visible db' t none (versions_of db' k) ≡ last_visible db t none (versions_of db k))

  pub same_sets :
      (db db' : Database V) (t : Transaction)
      → db'.committed_ids ≡ db.committed_ids
      → db'.aborted_ids ≡ db.aborted_ids
      → (v : Version V) → is_visible db' t v ≡ is_visible db t v
  unfolding sees
  same_sets db db' t c ab v = is_visible-cong db db' t v (λ by. ground (arith)) ab

  -- the versions of one key are replaced by versions that show `t` the same
  last_visible-put :
      (db db' : Database V) (t : Transaction) (d : Dict String (List (Version V))) (j k : String)
      (ws : List (Version V))
      → ((v : Version V) → is_visible db' t v ≡ is_visible db t v)
      → last_visible db t none ws ≡ last_visible db t none (entry d j)
      → last_visible db' t none (entry (Dict.put d j ws) k) ≡ last_visible db t none (entry d k)
  last_visible-put db db' t d j k ws vis h =
      let c = last_visible-cong db db' t vis none in
      ground (arith, get-put d j ws k, c ws, c (entry d k))

  last_visible-unmark_all :
      (db : Database V) (t : Transaction) (u : ℕ) (d : Dict String (List (Version V)))
      (ks : List String) (k : String)
      → u ≢ t.tx_id
      → sees db t u ≡ false
      → last_visible db t none (entry (unmark_all u d ks) k) ≡ last_visible db t none (entry d k)
  unfolding unmark_all
  last_visible-unmark_all db t u d [] k ne s = refl
  last_visible-unmark_all db t u d (j ∷ ks) k ne s = elim (Option-cases (Dict.get d j)) [
    | inl n ↦ ground (arith, last_visible-unmark_all db t u d ks k ne s)
    | inr (vs, n) ↦ ground (
      arith,
      last_visible-unmark_all db t u (Dict.put d j (unmark u vs)) ks k ne s,
      last_visible-put db db t d j k (unmark u vs) (λ v. refl)
          (ground (arith, last_visible-unmark db t u none vs ne s)),
    )
  ]

  appended_unseen :
      (db : Database V) (t : Transaction) (found : Option V) (vs : List (Version V)) (v : Version V)
      → v.created_by ≢ t.tx_id
      → sees db t v.created_by ≡ false
      → last_visible db t found (vs ++ v ∷ []) ≡ last_visible db t found vs
  unfolding last_visible
  appended_unseen db t found vs v ne s =
      ground (arith, last_visible-append db t found vs (v ∷ []), is_visible-other db t v ne s)

  -- versions of an aborting transaction were not visible to others before either
  abort_active_visible :
      (db : Database V) (t w : Transaction)
      → w.tx_id ≢ t.tx_id
      → sees db t w.tx_id ≡ false
      → (v : Version V) → is_visible (abort_active db w) t v ≡ is_visible db t v
  unfolding abort_active is_visible is_live sees
  abort_active_visible db t w ne s v = elim (Option-cases v.deleted_by) [
    | inl n ↦ ground (arith, Sets.member-insert w.tx_id v.created_by db.aborted_ids)
    | inr (by, n) ↦ ground (
      arith,
      Sets.member-insert w.tx_id v.created_by db.aborted_ids,
      Sets.member-insert w.tx_id by db.aborted_ids,
    )
  ]

  pub tx_id-differs :
      (db : Database V) (n u : ℕ) (t w : Transaction)
      → IsValid db
      → Dict.get db.transactions n ≡ some t
      → Dict.get db.transactions u ≡ some w
      → u ≢ n
      → w.tx_id ≢ t.tx_id
  tx_id-differs db n u t w v h g ne = ground (arith, v.issued n t, v.issued u w)

  pub unseen :
      (db : Database V) (u : ℕ) (w t : Transaction)
      → IsValid db
      → Dict.get db.transactions u ≡ some w
      → is_active w ≡ true
      → sees db t w.tx_id ≡ false
  unseen db u w t v g a = sees-other db w.tx_id w t v (ground (arith, v.issued u w)) a

  begin-Same :
      (db : Database V) (ro : Bool) (n : ℕ) (t : Transaction) (k : String)
      → IsValid db
      → Dict.get db.transactions n ≡ some t
      → Same db (begin_transaction db ro).0 n t k
  unfolding begin_transaction
  begin-Same db ro n t k v h = (
    ground (arith, v.issued n t, get-put db.transactions db.next_tx_id (opened db ro) n),
    last_visible-cong db (begin_transaction db ro).0 t
        (same_sets db (begin_transaction db ro).0 t refl refl) none (versions_of db k),
  )

  write-Same :
      (db db' : Database V) (n u : ℕ) (t : Transaction) (j k : String) (x : V)
      → IsValid db
      → Dict.get db.transactions n ≡ some t
      → u ≢ n
      → Written db u j x db'
      → Same db db' n t k
  write-Same db db' n u t j k x v h ne (in_place w vs g a q e) =
      let db'' = record db { versions = Dict.put db.versions j vs } in
      subst (λ b. Same db b n t k) e
        (
          h,
          last_visible-put db db'' t db.versions j k vs (same_sets db db'' t refl refl) (
              last_visible-update_own db t w.tx_id x none (versions_of db j) vs
                (tx_id-differs db n u t w v h g ne) (unseen db u w t v g a) q),
        )
  write-Same db db' n u t j k x v h ne (appended w g a e) =
      let ver : Version V = record {
        key = j;
        value = x;
        created_by = w.tx_id;
        deleted_by = none;
      } in
      let vs = versions_of db j ++ ver ∷ [] in
      let db'' = record db {
        versions = Dict.put db.versions j vs;
        transactions = Dict.put db.transactions u (add_write w j);
      } in
      subst (λ b. Same db b n t k) e
        (
          ground (arith, get-put db.transactions u (add_write w j) n),
          last_visible-put db db'' t db.versions j k vs (same_sets db db'' t refl refl) (
              appended_unseen db t none (versions_of db j) ver (tx_id-differs db n u t w v h g ne)
                (unseen db u w t v g a)),
        )

  delete-Same :
      (db db' : Database V) (n u : ℕ) (t : Transaction) (j k : String)
      → IsValid db
      → Dict.get db.transactions n ≡ some t
      → u ≢ n
      → ((w : Transaction)
          → Dict.get db.transactions u ≡ some w
          → All (λ v. is_visible db w v ≡ true → v.deleted_by ≡ none) (versions_of db j))
      → Deleted db u j db'
      → Same db db' n t k
  delete-Same db db' n u t j k v h ne cl (nothing e) = subst (λ b. Same db b n t k) e (h, refl)
  delete-Same db db' n u t j k v h ne cl (marked w g a e) =
      let vs = mark db w (versions_of db j) in
      let db'' = record db {
        versions = Dict.put db.versions j vs;
        transactions = Dict.put db.transactions u (add_write w j);
      } in
      subst (λ b. Same db b n t k) e
        (
          ground (arith, get-put db.transactions u (add_write w j) n),
          last_visible-put db db'' t db.versions j k vs (same_sets db db'' t refl refl) (
              last_visible-mark db t w none (versions_of db j) (tx_id-differs db n u t w v h g ne)
                (unseen db u w t v g a) (cl w g)),
        )

  abort-Same :
      (db : Database V) (n u : ℕ) (t w : Transaction) (k : String)
      → IsValid db
      → Dict.get db.transactions n ≡ some t
      → u ≢ n
      → Dict.get db.transactions u ≡ some w
      → is_active w ≡ true
      → Same db (abort_active db w) n t k
  unfolding abort_active
  abort-Same db n u t w k v h ne g a =
      let other = unseen db u w t v g a in
      let differ = tx_id-differs db n u t w v h g ne in
      (
        ground (arith, v.issued u w, get-put db.transactions u (record w { status = aborted }) n),
        last_visible-cong db (abort_active db w) t (abort_active_visible db t w differ other) none
              (entry (unmark_all w.tx_id db.versions w.write_set) k)
            ∙ last_visible-unmark_all db t w.tx_id db.versions w.write_set k differ other,
      )

  commit-Same :
      (db db' : Database V) (n u : ℕ) (t : Transaction) (k : String)
      → IsValid db
      → Dict.get db.transactions n ≡ some t
      → u ≢ n
      → Ended db u db'
      → Same db db' n t k
  unfolding commit_active
  commit-Same db db' n u t k v h ne (kept w g a vs nx ts c ab) = (
    ground (arith, v.issued u w, get-put db.transactions u (record w { status = committed }) n),
    last_visible-cong db db' t
          (λ x.
            is_visible-cong db db' t x
              (λ by. sees-commit_active db db' n u w t by v h g a (ground (arith, v.issued u w)))
              ab)
          none (entry db'.versions k)
        ∙ ground arith,
  )
  commit-Same db db' n u t k v h ne (refused w g a e) =
      subst (λ d. Same db d n t k) e (abort-Same db n u t w k v h ne g a)

  Step-Same :
      (n : ℕ) (t : Transaction) (k : String) {db db' : Database V} {u : ℕ}
      → IsValid db
      → Dict.get db.transactions n ≡ some t
      → u ≢ n
      → (s : Step db u db') → IsClean s
      → Same db db' n t k
  Step-Same n t k {db} v h ne (began ro) c = begin-Same db ro n t k v h
  Step-Same n t k {db} v h ne (wrote u j x db' e) c =
      write-Same db db' n u t j k x v h ne (write-eq-ok db u j x db' e)
  Step-Same n t k {db} v h ne (deleted u j b db' e) c =
      delete-Same db db' n u t j k v h ne c (delete-eq-ok db u j b db' e)
  Step-Same n t k {db} v h ne (ended u b db' e) c =
      commit-Same db db' n u t k v h ne (commit-eq-ok db u b db' e)
  Step-Same n t k {db} v h ne (gave_up u db' e) c =
      let (w, (g, (a, q))) = abort-eq-ok db u db' e in
      subst (λ d. Same db d n t k) q (abort-Same db n u t w k v h ne g a)

  Others-Same :
      (n : ℕ) (t : Transaction) (k : String) {db db' : Database V}
      → IsValid db
      → Dict.get db.transactions n ≡ some t
      → Others n db db'
      → Same db db' n t k
  Others-Same n t k v h (nothing_more db) = (h, refl)
  Others-Same n t k v h (then s ne c rest) =
      let (h', e) = Step-Same n t k v h ne s c in
      let (h'', e') = Others-Same n t k (Step-IsValid v s) h' rest in (h'', e' ∙ e)

  -- Reads of an active transaction are stable: in a database with valid tables, any sequence of
  -- begins, writes, commits, aborts and clean deletions of other transactions leaves what it reads
  -- under each key unchanged. A deletion is clean if no version that it marks carries a mark.
  pub read_stable :
      (n : ℕ) (t : Transaction) (k : String) (db db' : Database V)
      → IsValid db
      → Dict.get db.transactions n ≡ some t
      → is_active t ≡ true
      → Others n db db'
      → read db' n k ≡ read db n k
  read_stable n t k db db' v h a steps =
      let (h', e) = Others-Same n t k v h steps in
      read-shown db' n t k h' a ∙ ap ok e ∙ sym (read-shown db n t k h a)
